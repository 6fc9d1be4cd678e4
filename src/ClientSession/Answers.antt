-- ===== src/ClientSession/Answers.antt =====
-- How the answer of each handler of Server/ClientSession.cpp ends.
use mathlib.Core.Bool.{false≢true}
use cloud_alert_system.Common.{
  ℕ, ◌≡◌, refl, sym, subst, inl, inr, Bool, true, false, ◌&&◌, not, Option, none, some, List, [],
  ◌∷◌, arith, Bool-cases, Option-cases, ℤ,
}
use cloud_alert_system.Text.{Bytes, is_empty, c_str, format_into}
use cloud_alert_system.Double.{Float}
use cloud_alert_system.Db.{AlertRecord, Db}
use cloud_alert_system.Db.Alerts.{add_price_alert, add_time_alert}
use cloud_alert_system.Db.Queries.{query_alerts}
use cloud_alert_system.World.{World}
use cloud_alert_system.World.{World}
use cloud_alert_system.System.{System}
use cloud_alert_system.AlertEngine.{◌>>=◌, get_last_price, subscribe_contract}
use cloud_alert_system.Text.Number.{atoi}
use cloud_alert_system.ClientSession.Lines.{Response, alert, price, formatted}
use cloud_alert_system.ClientSession.{
  Session, Turn, handle_register, handle_login, added_price, handle_add_price, added_time,
  handle_add_time, handle_delete, handle_modify_price, handle_modify_time, alert_lines,
  handle_query, handle_set_email, handle_get_email, price_lines, handle_get_prices,
}

module _ {D : Type 0} where
  -- OK, ERR and END end an answer
  unfoldable pub ends : Response D → Bool
  ends (alert r) = false
  ends (price c p) = false
  ends _ = true

  -- the lines before the last one do not end it, and the last one does
  unfoldable pub closed : List (Response D) → Bool
  unfolding ends
  closed [] = false
  closed (r ∷ []) = ends r
  closed (r ∷ rest) = not (ends r) && closed rest

module _ {D : Type 0} (F : Float D) (W : World D) where
  abbrev pub IsAnswer : Option (Turn D) → Type 0
  IsAnswer none = Unit
  IsAnswer (some t) = closed t.lines ≡ true

  formatted-same : (size : ℕ) (r line : Response D) → formatted F size r ≡ some line → line ≡ r
  unfolding formatted format_into
  formatted-same size r line e = ground arith

  pub register-IsAnswer :
      (c : Session) (s : System D) (tokens : List Bytes) → IsAnswer (handle_register F W c s tokens)
  unfolding handle_register closed ends
  register-IsAnswer c s (a ∷ u ∷ p ∷ e ∷ rest) = ground arith
  register-IsAnswer c s _ = refl

  pub login-IsAnswer :
      (c : Session) (s : System D) (tokens : List Bytes) → IsAnswer (handle_login F W c s tokens)
  unfolding handle_login closed ends
  login-IsAnswer c s (a ∷ u ∷ p ∷ rest) = ground arith
  login-IsAnswer c s _ = refl

  added_price-IsAnswer :
      (c : Session) (s : System D) (contract : Bytes) (r : Db D × ℤ)
      → IsAnswer (added_price F W c s contract r)
  unfolding closed ends formatted
  added_price-IsAnswer c s contract (db, n) = ground arith

  pub add_price-IsAnswer :
      (c : Session) (s : System D) (tokens : List Bytes)
      → IsAnswer (handle_add_price F W c s tokens)
  unfolding handle_add_price closed ends
  add_price-IsAnswer c s (a ∷ u ∷ contract ∷ p ∷ cond ∷ rest) =
      let h = added_price-IsAnswer c s contract (
        add_price_alert W.sqlite W.now c.user_id contract (F.atof (c_str p)) (atoi (c_str cond))
          s.db) in
      ground (arith, h)
  add_price-IsAnswer c s _ = refl

  added_time-IsAnswer :
      (c : Session) (s : System D) (contract : Bytes) (r : Db D × ℤ)
      → IsAnswer (added_time F W c s contract r)
  unfolding closed ends formatted
  added_time-IsAnswer c s contract (db, n) = ground arith

  pub add_time-IsAnswer :
      (c : Session) (s : System D) (tokens : List Bytes) → IsAnswer (handle_add_time F W c s tokens)
  unfolding handle_add_time closed ends
  add_time-IsAnswer c s (a ∷ u ∷ contract ∷ time ∷ rest) =
      added_time-IsAnswer c s contract
        (add_time_alert W.sqlite F W.now c.user_id contract time s.db)
  add_time-IsAnswer c s _ = refl

  pub delete-IsAnswer :
      (c : Session) (s : System D) (tokens : List Bytes) → IsAnswer (handle_delete F W c s tokens)
  unfolding handle_delete closed ends
  delete-IsAnswer c s (a ∷ i ∷ rest) = ground arith
  delete-IsAnswer c s _ = refl

  pub modify_price-IsAnswer :
      (c : Session) (s : System D) (tokens : List Bytes)
      → IsAnswer (handle_modify_price F W c s tokens)
  unfolding handle_modify_price closed ends
  modify_price-IsAnswer c s (a ∷ i ∷ contract ∷ p ∷ cond ∷ rest) = ground arith
  modify_price-IsAnswer c s _ = refl

  pub modify_time-IsAnswer :
      (c : Session) (s : System D) (tokens : List Bytes)
      → IsAnswer (handle_modify_time F W c s tokens)
  unfolding handle_modify_time closed ends
  modify_time-IsAnswer c s (a ∷ i ∷ contract ∷ time ∷ rest) = ground arith
  modify_time-IsAnswer c s _ = refl

  pub set_email-IsAnswer :
      (c : Session) (s : System D) (tokens : List Bytes)
      → IsAnswer (handle_set_email F W c s tokens)
  unfolding handle_set_email closed ends
  set_email-IsAnswer c s (a ∷ u ∷ p ∷ e ∷ rest) = ground arith
  set_email-IsAnswer c s _ = refl

  pub get_email-IsAnswer :
      (c : Session) (s : System D) (tokens : List Bytes)
      → IsAnswer (handle_get_email F W c s tokens)
  unfolding handle_get_email closed ends
  get_email-IsAnswer c s (a ∷ u ∷ rest) = ground arith
  get_email-IsAnswer c s _ = refl

  abbrev Closed : Option (List (Response D)) → Type 0
  Closed none = Unit
  Closed (some lines) = closed lines ≡ true

  closed-cons :
      (r : Response D) (lines : List (Response D))
      → ends r ≡ false
      → closed lines ≡ true
      → closed (r ∷ lines) ≡ true
  unfolding closed
  closed-cons r [] e h = absurd (false≢true h)
  closed-cons r (x ∷ lines) e h = ground arith

  alert_cons-Closed :
      (r line : Response D) (rest : Option (List (Response D)))
      → ends r ≡ false
      → line ≡ r
      → Closed rest
      → Closed (rest >>= λ lines. some (line ∷ lines))
  alert_cons-Closed r line none e same h = tt
  alert_cons-Closed r line (some lines) e same h =
      closed-cons line lines (subst (λ x. ends x ≡ false) (sym same) e) h

  alert_lines-Closed : (records : List (AlertRecord D)) → Closed (alert_lines F W records)
  unfolding alert_lines
  alert_lines-Closed [] = unfold closed ends in refl
  alert_lines-Closed (r ∷ records) = elim (Option-cases (formatted F 512 (alert r))) [
    | inl e ↦ rw e tt
    | inr (line, e) ↦ rw e (
        alert_cons-Closed (alert r) line (alert_lines F W records) (unfold ends in refl)
          (formatted-same 512 (alert r) line e) (alert_lines-Closed records))
  ]

  pub query-IsAnswer :
      (c : Session) (s : System D) (tokens : List Bytes) → IsAnswer (handle_query F W c s tokens)
  unfolding handle_query
  query-IsAnswer c s (a ∷ u ∷ st ∷ rest) =
      ground (arith, alert_lines-Closed (query_alerts W.sqlite c.user_id (atoi (c_str st)) s.db))
  query-IsAnswer c s _ = unfold closed ends in refl

  abbrev ClosedLines : Option (System D × List (Response D)) → Type 0
  ClosedLines none = Unit
  ClosedLines (some (t, lines)) = closed lines ≡ true

  price_cons-ClosedLines :
      (r line : Response D) (rest : Option (System D × List (Response D)))
      → ends r ≡ false
      → line ≡ r
      → ClosedLines rest
      → ClosedLines (rest >>= λ (t, lines). some (t, line ∷ lines))
  price_cons-ClosedLines r line none e same h = tt
  price_cons-ClosedLines r line (some (t, lines)) e same h =
      closed-cons line lines (subst (λ x. ends x ≡ false) (sym same) e) h

  price_lines-ClosedLines :
      (contracts : List Bytes) (s : System D) → ClosedLines (price_lines F W contracts s)
  unfolding price_lines
  price_lines-ClosedLines [] s = unfold closed ends in refl
  price_lines-ClosedLines (contract ∷ contracts) s =
      let t = subscribe_contract contract s in
      let r = price contract (get_last_price contract t) in
      elim (Bool-cases (is_empty contract)) [
        | inl e ↦ rw e (price_lines-ClosedLines contracts s)
        | inr e ↦ rw e (elim (Option-cases (formatted F 256 r)) [
          | inl f ↦ rw f tt
          | inr (line, f) ↦ rw f (
              price_cons-ClosedLines r line (price_lines F W contracts t) (unfold ends in refl)
                (formatted-same 256 r line f) (price_lines-ClosedLines contracts t))
        ])
      ]

  pub get_prices-IsAnswer :
      (c : Session) (s : System D) (tokens : List Bytes)
      → IsAnswer (handle_get_prices F W c s tokens)
  unfolding handle_get_prices
  get_prices-IsAnswer c s (a ∷ contract ∷ contracts) =
      ground (arith, price_lines-ClosedLines (contract ∷ contracts) s)
  get_prices-IsAnswer c s _ = unfold closed ends in refl
