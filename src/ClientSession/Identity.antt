-- ===== src/ClientSession/Identity.antt =====
-- Who a session is: m_userId and m_username of Server/ClientSession.cpp.
use cloud_alert_system.Common.{
  ◌≡◌, refl, subst, ◌⊎◌, inl, inr, false, Option, none, some, List, [], ◌∷◌, arith, Bool-cases, ℤ,
  is_negative,
}
use cloud_alert_system.Text.{Bytes, c_str}
use cloud_alert_system.Double.{Float}
use cloud_alert_system.Db.{Db}
use cloud_alert_system.Db.Users.{verify_login}
use cloud_alert_system.Db.Alerts.{add_price_alert, add_time_alert}
use cloud_alert_system.World.{World}
use cloud_alert_system.World.{World}
use cloud_alert_system.System.{System}
use cloud_alert_system.Text.Split.{split_line}
use cloud_alert_system.Text.Number.{atoi}
use cloud_alert_system.ClientSession.{
  Session, Turn, handle_register, handle_login, logged_in, added_price, handle_add_price,
  added_time, handle_add_time, handle_delete, handle_modify_price, handle_modify_time, handle_query,
  handle_set_email, handle_get_email, handle_get_prices, handle, dispatch,
}
use cloud_alert_system.ClientSession.Commands.{
  Command, register, login, add_price, add_time, delete, modify_price, modify_time, query,
  set_email, get_email, get_prices, unknown, first_word, command_of,
}

module _ {D : Type 0} (F : Float D) (W : World D) where
  -- the session is as it was
  abbrev Stays : Session → Option (Turn D) → Type 0
  Stays c none = Unit
  Stays c (some t) = t.session ≡ c

  -- or the tokens are those of a LOGIN that VerifyLogin accepts
  abbrev pub LogsIn : List Bytes → System D → Session → Session → Type 0
  LogsIn tokens s c c' =
      (word : Bytes) × (u : Bytes) × (p : Bytes) × (rest : List Bytes) × (tokens
        ≡ word ∷ u ∷ p ∷ rest)
      × (is_negative (verify_login W.sqlite u p s.db) ≡ false)
      × (c' ≡ record c { user_id = verify_login W.sqlite u p s.db; username = u })

  abbrev Identity : List Bytes → System D → Session → Option (Turn D) → Type 0
  Identity tokens s c none = Unit
  Identity tokens s c (some t) = (t.session ≡ c) ⊎ LogsIn tokens s c t.session

  Stays-Identity :
      (tokens : List Bytes) (s : System D) (c : Session) (o : Option (Turn D))
      → Stays c o
      → Identity tokens s c o
  Stays-Identity tokens s c none h = tt
  Stays-Identity tokens s c (some t) h = inl h

  login-Identity :
      (c : Session) (s : System D) (tokens : List Bytes)
      → Identity tokens s c (handle_login F W c s tokens)
  unfolding handle_login
  login-Identity c s (a ∷ u ∷ p ∷ rest) =
      elim (Bool-cases (is_negative (verify_login W.sqlite u p s.db))) [
        | inl e ↦ rw e (inl refl)
        | inr e ↦ rw e (inr (a, u, p, rest, refl, e, refl))
      ]
  login-Identity c s [] = inl refl
  login-Identity c s (a ∷ []) = inl refl
  login-Identity c s (a ∷ u ∷ []) = inl refl

  added_price-Stays :
      (c : Session) (s : System D) (contract : Bytes) (r : Db D × ℤ)
      → Stays c (added_price F W c s contract r)
  added_price-Stays c s contract (db, n) = ground arith

  added_time-Stays :
      (c : Session) (s : System D) (contract : Bytes) (r : Db D × ℤ)
      → Stays c (added_time F W c s contract r)
  added_time-Stays c s contract (db, n) = ground arith

  register-Stays :
      (c : Session) (s : System D) (tokens : List Bytes) → Stays c (handle_register F W c s tokens)
  unfolding handle_register
  register-Stays c s (a ∷ u ∷ p ∷ e ∷ rest) = ground arith
  register-Stays c s _ = refl

  add_price-Stays :
      (c : Session) (s : System D) (tokens : List Bytes) → Stays c (handle_add_price F W c s tokens)
  unfolding handle_add_price
  add_price-Stays c s (a ∷ u ∷ contract ∷ p ∷ cond ∷ rest) =
      let h = added_price-Stays c s contract (
        add_price_alert W.sqlite W.now c.user_id contract (F.atof (c_str p)) (atoi (c_str cond))
          s.db) in
      ground (arith, h)
  add_price-Stays c s _ = refl

  add_time-Stays :
      (c : Session) (s : System D) (tokens : List Bytes) → Stays c (handle_add_time F W c s tokens)
  unfolding handle_add_time
  add_time-Stays c s (a ∷ u ∷ contract ∷ time ∷ rest) =
      added_time-Stays c s contract (add_time_alert W.sqlite F W.now c.user_id contract time s.db)
  add_time-Stays c s _ = refl

  delete-Stays :
      (c : Session) (s : System D) (tokens : List Bytes) → Stays c (handle_delete F W c s tokens)
  unfolding handle_delete
  delete-Stays c s (a ∷ i ∷ rest) = ground arith
  delete-Stays c s _ = refl

  modify_price-Stays :
      (c : Session) (s : System D) (tokens : List Bytes)
      → Stays c (handle_modify_price F W c s tokens)
  unfolding handle_modify_price
  modify_price-Stays c s (a ∷ i ∷ contract ∷ p ∷ cond ∷ rest) = ground arith
  modify_price-Stays c s _ = refl

  modify_time-Stays :
      (c : Session) (s : System D) (tokens : List Bytes)
      → Stays c (handle_modify_time F W c s tokens)
  unfolding handle_modify_time
  modify_time-Stays c s (a ∷ i ∷ contract ∷ time ∷ rest) = ground arith
  modify_time-Stays c s _ = refl

  query-Stays :
      (c : Session) (s : System D) (tokens : List Bytes) → Stays c (handle_query F W c s tokens)
  unfolding handle_query
  query-Stays c s (a ∷ u ∷ st ∷ rest) = ground arith
  query-Stays c s _ = refl

  set_email-Stays :
      (c : Session) (s : System D) (tokens : List Bytes) → Stays c (handle_set_email F W c s tokens)
  unfolding handle_set_email
  set_email-Stays c s (a ∷ u ∷ p ∷ e ∷ rest) = ground arith
  set_email-Stays c s _ = refl

  get_email-Stays :
      (c : Session) (s : System D) (tokens : List Bytes) → Stays c (handle_get_email F W c s tokens)
  unfolding handle_get_email
  get_email-Stays c s (a ∷ u ∷ rest) = ground arith
  get_email-Stays c s _ = refl

  get_prices-Stays :
      (c : Session) (s : System D) (tokens : List Bytes)
      → Stays c (handle_get_prices F W c s tokens)
  unfolding handle_get_prices
  get_prices-Stays c s (a ∷ contract ∷ contracts) = ground arith
  get_prices-Stays c s _ = refl

  logged_in-Stays :
      (h : Session → System D → List Bytes → Option (Turn D)) (c : Session) (s : System D)
      (tokens : List Bytes)
      → Stays c (h c s tokens)
      → Stays c (logged_in F W h c s tokens)
  logged_in-Stays h c s tokens d = ground arith

  handle-Identity :
      (command : Command) (c : Session) (s : System D) (tokens : List Bytes)
      → Identity tokens s c (handle F W command c s tokens)
  unfolding handle
  handle-Identity register c s tokens =
      Stays-Identity tokens s c (handle_register F W c s tokens) (register-Stays c s tokens)
  handle-Identity login c s tokens = login-Identity c s tokens
  handle-Identity add_price c s tokens =
      Stays-Identity tokens s c (logged_in F W (handle_add_price F W) c s tokens)
        (logged_in-Stays (handle_add_price F W) c s tokens (add_price-Stays c s tokens))
  handle-Identity add_time c s tokens =
      Stays-Identity tokens s c (logged_in F W (handle_add_time F W) c s tokens)
        (logged_in-Stays (handle_add_time F W) c s tokens (add_time-Stays c s tokens))
  handle-Identity delete c s tokens =
      Stays-Identity tokens s c (logged_in F W (handle_delete F W) c s tokens)
        (logged_in-Stays (handle_delete F W) c s tokens (delete-Stays c s tokens))
  handle-Identity modify_price c s tokens =
      Stays-Identity tokens s c (logged_in F W (handle_modify_price F W) c s tokens)
        (logged_in-Stays (handle_modify_price F W) c s tokens (modify_price-Stays c s tokens))
  handle-Identity modify_time c s tokens =
      Stays-Identity tokens s c (logged_in F W (handle_modify_time F W) c s tokens)
        (logged_in-Stays (handle_modify_time F W) c s tokens (modify_time-Stays c s tokens))
  handle-Identity query c s tokens =
      Stays-Identity tokens s c (logged_in F W (handle_query F W) c s tokens)
        (logged_in-Stays (handle_query F W) c s tokens (query-Stays c s tokens))
  handle-Identity set_email c s tokens =
      Stays-Identity tokens s c (logged_in F W (handle_set_email F W) c s tokens)
        (logged_in-Stays (handle_set_email F W) c s tokens (set_email-Stays c s tokens))
  handle-Identity get_email c s tokens =
      Stays-Identity tokens s c (logged_in F W (handle_get_email F W) c s tokens)
        (logged_in-Stays (handle_get_email F W) c s tokens (get_email-Stays c s tokens))
  handle-Identity get_prices c s tokens =
      Stays-Identity tokens s c (logged_in F W (handle_get_prices F W) c s tokens)
        (logged_in-Stays (handle_get_prices F W) c s tokens (get_prices-Stays c s tokens))
  handle-Identity unknown c s tokens = inl refl

  -- A line that does not end the process changes who the session is only when its tokens carry a
  -- user name and a password that VerifyLogin accepts, and then the session is that user's.
  pub dispatch-Identity :
      (line : Bytes) (c : Session) (s : System D) (t : Turn D)
      → dispatch F W line c s ≡ some t
      → (t.session ≡ c) ⊎ LogsIn (split_line line) s c t.session
  unfolding dispatch
  dispatch-Identity line c s t e =
      subst (Identity (split_line line) s c) e
        (handle-Identity (command_of (first_word line)) c s (split_line line))
