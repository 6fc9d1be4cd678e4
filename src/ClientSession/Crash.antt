-- ===== src/ClientSession/Crash.antt =====
-- When a command ends the server: a formatted line that does not fit its buffer.
use cloud_alert_system.Common.{
  ℕ, ◌≤◌, ◌<◌, ◌≡◌, ◌≢◌, refl, subst, inl, inr, false, Option, none, some, List, [], ◌∷◌, Memᴰ,
  arith, Bool-cases, Option-cases, length, length-append, ℤ, is_negative,
}
use cloud_alert_system.Text.{Bytes, codes, is_empty, c_str, format_into}
use cloud_alert_system.Double.{Float}
use cloud_alert_system.Db.{Db}
use cloud_alert_system.Db.Alerts.{add_price_alert, add_time_alert}
use cloud_alert_system.World.{World}
use cloud_alert_system.World.{World}
use cloud_alert_system.System.{System}
use cloud_alert_system.AlertEngine.{get_last_price, subscribe_contract}
use cloud_alert_system.Text.Split.{split_line, join}
use cloud_alert_system.Text.Number.{atoi, print_int, length-print_int}
use cloud_alert_system.ClientSession.Lines.{
  Response, ok_id, price, formatted, response_text, price_line, price_or_dash,
}
use cloud_alert_system.ClientSession.{
  Session, Turn, handle_register, handle_login, logged_in, added_price, handle_add_price,
  added_time, handle_add_time, handle_delete, handle_modify_price, handle_modify_time,
  handle_set_email, handle_get_email, price_lines, handle_get_prices, handle, dispatch,
}
use cloud_alert_system.ClientSession.Commands.{
  Command, register, login, add_price, add_time, delete, modify_price, modify_time, query,
  set_email, get_email, get_prices, unknown, first_word, command_of,
}

module _ {D : Type 0} (F : Float D) (W : World D) where
  abbrev Returns : {A : Type 0} → Option A → Type 0
  Returns none = ⊥
  Returns (some x) = Unit

  -- a line that fits its buffer
  formatted-fits :
      (size : ℕ) (r : Response D) → length (response_text F r) < size → formatted F size r ≡ some r
  unfolding formatted format_into
  formatted-fits size r h = ground arith

  formatted-long :
      (size : ℕ) (r : Response D) → size ≤ length (response_text F r) → formatted F size r ≡ none
  unfolding formatted format_into
  formatted-long size r h = ground arith

  -- OK <id> fits its 64 bytes
  ok_id-fits : (id : ℤ) → formatted F 64 (ok_id id) ≡ some (ok_id id)
  ok_id-fits id = formatted-fits 64 (ok_id id) (
      unfold response_text in
      omega (arith, length-append (codes "OK ") (print_int id), length-print_int id))

  added_price-Returns :
      (c : Session) (s : System D) (contract : Bytes) (r : Db D × ℤ)
      → Returns (added_price F W c s contract r)
  added_price-Returns c s contract (db, n) = ground (arith, ok_id-fits n)

  added_time-Returns :
      (c : Session) (s : System D) (contract : Bytes) (r : Db D × ℤ)
      → Returns (added_time F W c s contract r)
  added_time-Returns c s contract (db, n) = ground (arith, ok_id-fits n)

  register-Returns :
      (c : Session) (s : System D) (tokens : List Bytes) → Returns (handle_register F W c s tokens)
  unfolding handle_register
  register-Returns c s (a ∷ u ∷ p ∷ e ∷ rest) = ground arith
  register-Returns c s _ = tt

  login-Returns :
      (c : Session) (s : System D) (tokens : List Bytes) → Returns (handle_login F W c s tokens)
  unfolding handle_login
  login-Returns c s (a ∷ u ∷ p ∷ rest) = ground arith
  login-Returns c s _ = tt

  add_price-Returns :
      (c : Session) (s : System D) (tokens : List Bytes) → Returns (handle_add_price F W c s tokens)
  unfolding handle_add_price
  add_price-Returns c s (a ∷ u ∷ contract ∷ p ∷ cond ∷ rest) =
      let h = added_price-Returns c s contract (
        add_price_alert W.sqlite W.now c.user_id contract (F.atof (c_str p)) (atoi (c_str cond))
          s.db) in
      ground (arith, h)
  add_price-Returns c s _ = tt

  add_time-Returns :
      (c : Session) (s : System D) (tokens : List Bytes) → Returns (handle_add_time F W c s tokens)
  unfolding handle_add_time
  add_time-Returns c s (a ∷ u ∷ contract ∷ time ∷ rest) =
      added_time-Returns c s contract (add_time_alert W.sqlite F W.now c.user_id contract time s.db)
  add_time-Returns c s _ = tt

  delete-Returns :
      (c : Session) (s : System D) (tokens : List Bytes) → Returns (handle_delete F W c s tokens)
  unfolding handle_delete
  delete-Returns c s (a ∷ i ∷ rest) = ground arith
  delete-Returns c s _ = tt

  modify_price-Returns :
      (c : Session) (s : System D) (tokens : List Bytes)
      → Returns (handle_modify_price F W c s tokens)
  unfolding handle_modify_price
  modify_price-Returns c s (a ∷ i ∷ contract ∷ p ∷ cond ∷ rest) = ground arith
  modify_price-Returns c s _ = tt

  modify_time-Returns :
      (c : Session) (s : System D) (tokens : List Bytes)
      → Returns (handle_modify_time F W c s tokens)
  unfolding handle_modify_time
  modify_time-Returns c s (a ∷ i ∷ contract ∷ time ∷ rest) = ground arith
  modify_time-Returns c s _ = tt

  set_email-Returns :
      (c : Session) (s : System D) (tokens : List Bytes) → Returns (handle_set_email F W c s tokens)
  unfolding handle_set_email
  set_email-Returns c s (a ∷ u ∷ p ∷ e ∷ rest) = ground arith
  set_email-Returns c s _ = tt

  get_email-Returns :
      (c : Session) (s : System D) (tokens : List Bytes) → Returns (handle_get_email F W c s tokens)
  unfolding handle_get_email
  get_email-Returns c s (a ∷ u ∷ rest) = ground arith
  get_email-Returns c s _ = tt

  logged_in-Returns :
      (h : Session → System D → List Bytes → Option (Turn D)) (c : Session) (s : System D)
      (tokens : List Bytes)
      → Returns (h c s tokens)
      → Returns (logged_in F W h c s tokens)
  logged_in-Returns h c s tokens d = ground arith

  handle-Returns :
      (command : Command) (c : Session) (s : System D) (tokens : List Bytes)
      → command ≢ query
      → command ≢ get_prices
      → Returns (handle F W command c s tokens)
  unfolding handle
  handle-Returns register c s tokens n m = register-Returns c s tokens
  handle-Returns login c s tokens n m = login-Returns c s tokens
  handle-Returns add_price c s tokens n m =
      logged_in-Returns (handle_add_price F W) c s tokens (add_price-Returns c s tokens)
  handle-Returns add_time c s tokens n m =
      logged_in-Returns (handle_add_time F W) c s tokens (add_time-Returns c s tokens)
  handle-Returns delete c s tokens n m =
      logged_in-Returns (handle_delete F W) c s tokens (delete-Returns c s tokens)
  handle-Returns modify_price c s tokens n m =
      logged_in-Returns (handle_modify_price F W) c s tokens (modify_price-Returns c s tokens)
  handle-Returns modify_time c s tokens n m =
      logged_in-Returns (handle_modify_time F W) c s tokens (modify_time-Returns c s tokens)
  handle-Returns set_email c s tokens n m =
      logged_in-Returns (handle_set_email F W) c s tokens (set_email-Returns c s tokens)
  handle-Returns get_email c s tokens n m =
      logged_in-Returns (handle_get_email F W) c s tokens (get_email-Returns c s tokens)
  handle-Returns query c s tokens n m = absurd (n refl)
  handle-Returns get_prices c s tokens n m = absurd (m refl)
  handle-Returns unknown c s tokens n m = tt

  -- No line but a QUERY, a GET_PRICE or a GET_PRICES ends the process.
  pub dispatch-Returns :
      (line : Bytes) (c : Session) (s : System D)
      → command_of (first_word line) ≢ query
      → command_of (first_word line) ≢ get_prices
      → (t : Turn D) × (dispatch F W line c s ≡ some t)
  unfolding dispatch
  dispatch-Returns line c s n m =
      let command = command_of (first_word line) in
      let h = handle-Returns command c s (split_line line) n m in
      elim (Option-cases (handle F W command c s (split_line line))) [
        | inl e ↦ absurd (subst Returns e h)
        | inr e ↦ e
      ]

  long_price_line :
      (contract : Bytes) (p : Option D)
      → 250 ≤ length (c_str contract)
      → 256 ≤ length (response_text F (price contract p))
  unfolding response_text price_line join
  long_price_line contract p h =
      omega (arith, length-append (c_str contract) (32 ∷ price_or_dash F p), h)

  c_str-filled : (s : Bytes) → 250 ≤ length (c_str s) → is_empty s ≡ false
  unfolding c_str
  c_str-filled [] h = absurd (omega (arith, h))
  c_str-filled (b ∷ s) h = refl

  long_price_lines :
      (contract : Bytes) (contracts : List Bytes) (s : System D)
      → Memᴰ contract contracts
      → 250 ≤ length (c_str contract)
      → price_lines F W contracts s ≡ none
  unfolding price_lines
  long_price_lines contract [] s i h = elim i [ ]
  long_price_lines contract (x ∷ xs) s (Memᴰ.head e) h =
      let t = subscribe_contract x s in
      let p = get_last_price x t in
      let long = subst (λ b. 250 ≤ length (c_str b)) e h in
      let f = formatted-long 256 (price x p) (long_price_line x p long) in
      rw (c_str-filled x long, f) refl
  long_price_lines contract (x ∷ xs) s (Memᴰ.tail m) h =
      let t = subscribe_contract x s in
      elim (Bool-cases (is_empty x)) [
        | inl e ↦ rw e (long_price_lines contract xs s m h)
        | inr e ↦ elim (Option-cases (formatted F 256 (price x (get_last_price x t)))) [
          | inl f ↦ rw (e, f) refl
          | inr (line, f) ↦ rw (e, f, long_price_lines contract xs t m h) refl
        ]
      ]

  -- One GET_PRICES line of a user who is logged in ends the process when a contract of it has 250
  -- bytes or more.
  pub long_contract_ends_process :
      (line word contract : Bytes) (contracts : List Bytes) (c : Session) (s : System D)
      → is_negative c.user_id ≡ false
      → command_of (first_word line) ≡ get_prices
      → split_line line ≡ word ∷ contracts
      → Memᴰ contract contracts
      → 250 ≤ length (c_str contract)
      → dispatch F W line c s ≡ none
  unfolding dispatch handle handle_get_prices
  long_contract_ends_process line word contract [] c s user is_get_prices tokens m h = elim m [ ]
  long_contract_ends_process line word contract (x ∷ contracts) c s user is_get_prices tokens m h =
      rw (is_get_prices, tokens, user, long_price_lines contract (x ∷ contracts) s m h) refl
