-- ===== src/ClientSession/Replies.antt =====
-- How the answer to a command ends, for a client that reads its lines (DoCmd and DoCmdOneLine of
-- Client/main.cpp, ReadResponseLine of MFCClient/MainFrame.cpp).
use cloud_alert_system.Common.{◌≡◌, refl, subst, true, Option, some, List, arith}
use cloud_alert_system.Text.{Bytes, same_text, starts_with}
use cloud_alert_system.Double.{Float}
use cloud_alert_system.World.{World}
use cloud_alert_system.World.{World}
use cloud_alert_system.System.{System}
use cloud_alert_system.Text.Split.{split_line, join}
use cloud_alert_system.ClientSession.Lines.{
  Response, err, response_text, error_text, alert_line, price_line, Error, unknown_command,
  not_logged_in, register_usage, register_empty, name_taken, login_usage, wrong_login,
  add_price_usage, bad_condition, add_price_failed, add_time_usage, add_time_failed, delete_usage,
  delete_failed, modify_price_usage, modify_time_usage, modify_failed, query_usage, set_email_usage,
  set_email_failed, get_email_usage, wrong_username, get_prices_usage,
}
use cloud_alert_system.ClientSession.{
  Session, Turn, logged_in, handle_add_price, handle_add_time, handle_delete, handle_modify_price,
  handle_modify_time, handle_query, handle_set_email, handle_get_email, handle_get_prices, handle,
  dispatch,
}
use cloud_alert_system.ClientSession.Commands.{
  Command, register, login, add_price, add_time, delete, modify_price, modify_time, query,
  set_email, get_email, get_prices, unknown, first_word, command_of,
}
use cloud_alert_system.Client.{ends_text}
use cloud_alert_system.ClientSession.Answers.{
  ends, closed, IsAnswer, register-IsAnswer, login-IsAnswer, add_price-IsAnswer, add_time-IsAnswer,
  delete-IsAnswer, modify_price-IsAnswer, modify_time-IsAnswer, query-IsAnswer, set_email-IsAnswer,
  get_email-IsAnswer, get_prices-IsAnswer,
}

module _ {D : Type 0} (F : Float D) (W : World D) where
  logged_in-IsAnswer :
      (h : Session → System D → List Bytes → Option (Turn D)) (c : Session) (s : System D)
      (tokens : List Bytes)
      → IsAnswer F W (h c s tokens)
      → IsAnswer F W (logged_in F W h c s tokens)
  unfolding closed ends
  logged_in-IsAnswer h c s tokens d = ground arith

  handle-IsAnswer :
      (command : Command) (c : Session) (s : System D) (tokens : List Bytes)
      → IsAnswer F W (handle F W command c s tokens)
  unfolding handle
  handle-IsAnswer register c s tokens = register-IsAnswer F W c s tokens
  handle-IsAnswer login c s tokens = login-IsAnswer F W c s tokens
  handle-IsAnswer add_price c s tokens =
      logged_in-IsAnswer (handle_add_price F W) c s tokens (add_price-IsAnswer F W c s tokens)
  handle-IsAnswer add_time c s tokens =
      logged_in-IsAnswer (handle_add_time F W) c s tokens (add_time-IsAnswer F W c s tokens)
  handle-IsAnswer delete c s tokens =
      logged_in-IsAnswer (handle_delete F W) c s tokens (delete-IsAnswer F W c s tokens)
  handle-IsAnswer modify_price c s tokens =
      logged_in-IsAnswer (handle_modify_price F W) c s tokens (modify_price-IsAnswer F W c s tokens)
  handle-IsAnswer modify_time c s tokens =
      logged_in-IsAnswer (handle_modify_time F W) c s tokens (modify_time-IsAnswer F W c s tokens)
  handle-IsAnswer query c s tokens =
      logged_in-IsAnswer (handle_query F W) c s tokens (query-IsAnswer F W c s tokens)
  handle-IsAnswer set_email c s tokens =
      logged_in-IsAnswer (handle_set_email F W) c s tokens (set_email-IsAnswer F W c s tokens)
  handle-IsAnswer get_email c s tokens =
      logged_in-IsAnswer (handle_get_email F W) c s tokens (get_email-IsAnswer F W c s tokens)
  handle-IsAnswer get_prices c s tokens =
      logged_in-IsAnswer (handle_get_prices F W) c s tokens (get_prices-IsAnswer F W c s tokens)
  handle-IsAnswer unknown c s tokens = unfold closed ends in refl

  -- Every line that does not end the process is answered by lines of which the last one is an OK,
  -- an ERR or an END, and no other one is.
  pub dispatch-closed :
      (line : Bytes) (c : Session) (s : System D) (t : Turn D)
      → dispatch F W line c s ≡ some t
      → closed t.lines ≡ true
  unfolding dispatch
  dispatch-closed line c s t e =
      subst (IsAnswer F W) e (handle-IsAnswer (command_of (first_word line)) c s (split_line line))

module _ {D : Type 0} (F : Float D) where
  error_ends : (e : Error) → ends_text (error_text e) ≡ true
  unfolding ends_text error_text starts_with same_text
  error_ends unknown_command = refl
  error_ends not_logged_in = refl
  error_ends register_usage = refl
  error_ends register_empty = refl
  error_ends name_taken = refl
  error_ends login_usage = refl
  error_ends wrong_login = refl
  error_ends add_price_usage = refl
  error_ends bad_condition = refl
  error_ends add_price_failed = refl
  error_ends add_time_usage = refl
  error_ends add_time_failed = refl
  error_ends delete_usage = refl
  error_ends delete_failed = refl
  error_ends modify_price_usage = refl
  error_ends modify_time_usage = refl
  error_ends modify_failed = refl
  error_ends query_usage = refl
  error_ends set_email_usage = refl
  error_ends set_email_failed = refl
  error_ends get_email_usage = refl
  error_ends wrong_username = refl
  error_ends get_prices_usage = refl

  -- The test of the console client on the text of a line finds exactly the lines that end an
  -- answer, whatever contract, email or time stands in it.
  pub ends_text-response_text : (r : Response D) → ends_text (response_text F r) ≡ ends r
  unfolding ends_text response_text alert_line price_line starts_with same_text ends join
  ends_text-response_text (err e) = error_ends e
  ends_text-response_text _ = refl
