-- ===== src/MfcClient/Answer.antt =====
-- What SendCommand of MFCClient/MainFrame.cpp reads of the lines
-- of Server/ClientSession.cpp.
use cloud_alert_system.Common.{
  ◌≡◌, refl, subst, Bool, Option, some, none, true, false, ◌&&◌, not, List, [], ◌∷◌, ◌++◌, map,
  arith,
}
use cloud_alert_system.Text.{Bytes, same_text, starts_with}
use cloud_alert_system.Double.{Float}
use cloud_alert_system.ClientSession.Lines.{
  Response, ok, ok_id, ok_email, err, response_text, error_text, alert_line, price_line, Error,
  unknown_command, not_logged_in, register_usage, register_empty, name_taken, login_usage,
  wrong_login, add_price_usage, bad_condition, add_price_failed, add_time_usage, add_time_failed,
  delete_usage, delete_failed, modify_price_usage, modify_time_usage, modify_failed, query_usage,
  set_email_usage, set_email_failed, get_email_usage, wrong_username, get_prices_usage,
}
use cloud_alert_system.Text.Split.{join, split_line}
use cloud_alert_system.ClientSession.Answers.{ends, closed}
use cloud_alert_system.ClientSession.Listings.{
  says_ok, listing, IsListing, query-IsListing, get_prices-IsListing,
}
use cloud_alert_system.ClientSession.Replies.{dispatch-closed}
use cloud_alert_system.ClientSession.Commands.{
  Command, register, login, add_price, add_time, delete, modify_price, modify_time, query,
  set_email, get_email, get_prices, unknown, first_word, command_of,
}
use cloud_alert_system.ClientSession.{
  Session, Turn, logged_in, handle_query, handle_get_prices, handle, dispatch,
}
use cloud_alert_system.System.{System}
use cloud_alert_system.World.{World}
use cloud_alert_system.MfcClient.{is_last, read_answer}

module _ {D : Type 0} (F : Float D) where
  error_is_last : (b : Bool) (e : Error) → is_last b (error_text e) ≡ true
  unfolding is_last error_text starts_with same_text
  error_is_last b unknown_command = refl
  error_is_last b not_logged_in = refl
  error_is_last b register_usage = refl
  error_is_last b register_empty = refl
  error_is_last b name_taken = refl
  error_is_last b login_usage = refl
  error_is_last b wrong_login = refl
  error_is_last b add_price_usage = refl
  error_is_last b bad_condition = refl
  error_is_last b add_price_failed = refl
  error_is_last b add_time_usage = refl
  error_is_last b add_time_failed = refl
  error_is_last b delete_usage = refl
  error_is_last b delete_failed = refl
  error_is_last b modify_price_usage = refl
  error_is_last b modify_time_usage = refl
  error_is_last b modify_failed = refl
  error_is_last b query_usage = refl
  error_is_last b set_email_usage = refl
  error_is_last b set_email_failed = refl
  error_is_last b get_email_usage = refl
  error_is_last b wrong_username = refl
  error_is_last b get_prices_usage = refl

  response_is_last :
      (expect_end : Bool) (r : Response D)
      → (expect_end && says_ok r) ≡ false
      → is_last expect_end (response_text F r) ≡ ends r
  unfolding is_last response_text alert_line price_line starts_with same_text ends says_ok join
  response_is_last expect_end (err e) h = error_is_last expect_end e
  response_is_last true ok h = absurd (ground (arith, h))
  response_is_last true (ok_id n) h = absurd (ground (arith, h))
  response_is_last true (ok_email email) h = absurd (ground (arith, h))
  response_is_last true _ h = refl
  response_is_last false _ h = refl

  lines-closed :
      (expect_end : Bool) (lines : List (Response D)) (more : List Bytes)
      → closed lines ≡ true
      → (expect_end && not (listing lines)) ≡ false
      → read_answer expect_end (map (response_text F) lines ++ more)
        ≡ (true, map (response_text F) lines)
  unfolding read_answer closed listing
  lines-closed b [] more h k = absurd (ground (arith, h))
  lines-closed b (r ∷ []) more h k = rw (response_is_last b r (ground (arith, k)), h) refl
  lines-closed b (r ∷ s ∷ lines) more h k =
      let open_line : ends r ≡ false = ground (arith, h) in
      rw
        (
          response_is_last b r (ground (arith, k)),
          open_line,
          lines-closed b (s ∷ lines) more (ground (arith, h)) (ground (arith, k)),
        )
        refl

  -- the commands that the client sends with expectEnd: QUERY and GET_PRICES
  abbrev pub expects_end : Command → Bool
  expects_end query = true
  expects_end get_prices = true
  expects_end _ = false

  abbrev IsRead : (W : World D) → Bool → Option (Turn D) → Type 0
  IsRead W b none = Unit
  IsRead W b (some t) = (b && not (listing t.lines)) ≡ false

  listing-IsRead : (W : World D) (r : Option (Turn D)) → IsListing F W r → IsRead W true r
  listing-IsRead W none h = tt
  listing-IsRead W (some t) h = ground (arith, h)

  free-IsRead : (W : World D) (r : Option (Turn D)) → IsRead W false r
  free-IsRead W none = tt
  free-IsRead W (some t) = refl

  handle-IsRead :
      (W : World D) (command : Command) (c : Session) (s : System D) (tokens : List Bytes)
      → IsRead W (expects_end command) (handle F W command c s tokens)
  unfolding handle
  handle-IsRead W query c s tokens =
      listing-IsRead W (logged_in F W (handle_query F W) c s tokens)
        (query-IsListing F W c s tokens)
  handle-IsRead W get_prices c s tokens =
      listing-IsRead W (logged_in F W (handle_get_prices F W) c s tokens)
        (get_prices-IsListing F W c s tokens)
  handle-IsRead W register c s tokens = free-IsRead W (handle F W register c s tokens)
  handle-IsRead W login c s tokens = free-IsRead W (handle F W login c s tokens)
  handle-IsRead W add_price c s tokens = free-IsRead W (handle F W add_price c s tokens)
  handle-IsRead W add_time c s tokens = free-IsRead W (handle F W add_time c s tokens)
  handle-IsRead W delete c s tokens = free-IsRead W (handle F W delete c s tokens)
  handle-IsRead W modify_price c s tokens = free-IsRead W (handle F W modify_price c s tokens)
  handle-IsRead W modify_time c s tokens = free-IsRead W (handle F W modify_time c s tokens)
  handle-IsRead W set_email c s tokens = free-IsRead W (handle F W set_email c s tokens)
  handle-IsRead W get_email c s tokens = free-IsRead W (handle F W get_email c s tokens)
  handle-IsRead W unknown c s tokens = free-IsRead W (handle F W unknown c s tokens)

  -- Where the server answers a line without ending the process, SendCommand takes exactly the
  -- lines of that answer and returns true, with expectEnd for QUERY, GET_PRICE and GET_PRICES and
  -- without it for every other line: it neither stops before the last line nor reads a line of
  -- what comes after.
  pub read_answer-dispatch :
      (W : World D) (line : Bytes) (c : Session) (s : System D) (t : Turn D) (more : List Bytes)
      → dispatch F W line c s ≡ some t
      → read_answer
          (expects_end (command_of (first_word line)))
          (map (response_text F) t.lines ++ more)
        ≡ (true, map (response_text F) t.lines)
  unfolding dispatch
  read_answer-dispatch W line c s t more e =
      lines-closed (expects_end (command_of (first_word line))) t.lines more
        (dispatch-closed F W line c s t e)
        (subst (IsRead W (expects_end (command_of (first_word line)))) e
          (handle-IsRead W (command_of (first_word line)) c s (split_line line)))
