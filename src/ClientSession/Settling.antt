-- ===== src/ClientSession/Settling.antt =====
-- What each handler of Server/ClientSession.cpp leaves in the alert engine's cache.
use cloud_alert_system.AlertEngine.{subscribe_contract, swap_cache, refresh_price_alert_cache}
use cloud_alert_system.Common.{
  ℕ, suc, ◌+◌, ◌^◌, ◌<◌, ◌≡◌, refl, ◌⊎◌, inl, inr, true, false, ◌&&◌, List, [], ◌∷◌, ◌++◌, arith,
  Bool-cases, Option-cases, ℤ, pos, is_negative, to_int_id,
}
use cloud_alert_system.Db.Alerts.{
  price_row, time_row, insert_alert, add_price_alert, add_time_alert,
}
use cloud_alert_system.Db.Users.{register_user}
use cloud_alert_system.Db.{AlertRecord, Db, Statement}
use cloud_alert_system.Double.{Float}
use cloud_alert_system.Protocol.{alert_type_time}
use cloud_alert_system.System.{System}
use cloud_alert_system.Text.{Bytes, c_str}
use cloud_alert_system.World.{World}
use cloud_alert_system.Text.Number.{atoi}
use cloud_alert_system.ClientSession.Lines.{ok_id, formatted}
use cloud_alert_system.ClientSession.{
  Session, registered, handle_register, handle_login, added_price, handle_add_price, added_time,
  handle_add_time,
}
use cloud_alert_system.Db.Lifecycle.{alerts-register_user}
use cloud_alert_system.ClientSession.Caching.{
  subscribe-engine, subscribe-db, Settled, refreshed-Fresh, subscribed-Fresh,
}

module _ {D : Type 0} (F : Float D) (W : World D) where
  pub register-Settled :
      (c : Session) (s : System D) (tokens : List Bytes)
      → Settled F W s (handle_register F W c s tokens)
  unfolding handle_register
  register-Settled c s (a ∷ u ∷ p ∷ e ∷ rest) =
      let same = alerts-register_user W.sqlite u p e s.db in
      let one = of (register_user W.sqlite u p e s.db) same in ground (arith, one)
    where
      of : (r : Db D × ℤ) → r.0.alerts ≡ s.db.alerts → Settled F W s (registered F W c s r)
      of (db, n) same = ground (arith, same)
  register-Settled c s _ = λ _. inl (refl, refl)

  pub login-Settled :
      (c : Session) (s : System D) (tokens : List Bytes)
      → Settled F W s (handle_login F W c s tokens)
  unfolding handle_login
  login-Settled c s (a ∷ u ∷ p ∷ rest) = ground arith
  login-Settled c s _ = λ _. inl (refl, refl)

  -- an INSERT whose rowid fits in an int is seen to have failed only when it did
  inserted :
      (stmt : Statement) (row : ℕ → AlertRecord D) (db : Db D)
      → let r = insert_alert W.sqlite stmt row db in
        r.0.alert_seq < 2 ^ 31
        → (r.0 ≡ db)
          ⊎ ((is_negative r.1 ≡ false) × (n : ℕ) × (r.0.alerts ≡ db.alerts ++ row n ∷ []))
  unfolding insert_alert
  inserted stmt row db small =
      let n = suc (db.alert_seq + W.sqlite.skipped stmt) in
      elim (Bool-cases (W.sqlite.prepares stmt && W.sqlite.steps stmt)) [
        | inr e ↦ inl (ground (arith, e))
        | inl e ↦
            let p : W.sqlite.prepares stmt ≡ true = ground (arith, e) in
            let q : W.sqlite.steps stmt ≡ true = ground (arith, e) in
            let fits : n < 2 ^ 31 = rw (p, q) at small in
            rw (p, q) (inr (rw (to_int_id (pos n) fits) refl, n, refl))
      ]

  added_price-Settled :
      (c : Session) (s : System D) (contract : Bytes) (r : Db D × ℤ)
      → (r.0.alert_seq < 2 ^ 31 → (r.0 ≡ s.db) ⊎ (is_negative r.1 ≡ false))
      → Settled F W s (added_price F W c s contract r)
  added_price-Settled c s contract (db, n) h =
      let t = refresh_price_alert_cache W (record s { db = db }) in
      let fresh = subscribed-Fresh F W contract t (refreshed-Fresh F W (record s { db = db })) in
      let kept : (subscribe_contract contract t).db ≡ db =
        rw (subscribe-db contract t) (unfold refresh_price_alert_cache swap_cache in refl) in
      ground (arith, fresh, kept)

  pub add_price-Settled :
      (c : Session) (s : System D) (tokens : List Bytes)
      → Settled F W s (handle_add_price F W c s tokens)
  unfolding handle_add_price add_price_alert
  add_price-Settled c s (a ∷ u ∷ contract ∷ p ∷ cond ∷ rest) =
      let row = price_row c.user_id contract (F.atof (c_str p)) (atoi (c_str cond)) W.now in
      let r = insert_alert W.sqlite Statement.add_price row s.db in
      let h = added_price-Settled c s contract r (λ small.
        elim (inserted Statement.add_price row s.db small) [
          | inl same ↦ inl same
          | inr (some_id, _, _) ↦ inr some_id
        ]) in
      ground (arith, h)
  add_price-Settled c s _ = λ _. inl (refl, refl)

  added_time-Settled :
      (c : Session) (s : System D) (contract : Bytes) (r : Db D × ℤ)
      → (r.0.alert_seq < 2 ^ 31
          → (r.0 ≡ s.db)
            ⊎ ((is_negative r.1 ≡ false)
                × (row : AlertRecord D) × (row.alert_type ≡ alert_type_time)
                × (r.0.alerts ≡ s.db.alerts ++ row ∷ [])))
      → Settled F W s (added_time F W c s contract r)
  added_time-Settled c s contract (db, n) h =
      let t = record s { db = db } in
      let kept = subscribe-db contract t in
      let engine = subscribe-engine contract t in
      elim (Bool-cases (is_negative n)) [
        | inl e ↦ rw e (λ small. elim (h small) [
          | inl same ↦ inl (rw same refl, refl)
          | inr (e2, _, _, _) ↦ absurd (ground (arith, e, e2))
        ])
        | inr e ↦ rw e (elim (Option-cases (formatted F 64 (ok_id n))) [
          | inl f ↦ rw f tt
          | inr (line, f) ↦ rw f (
              rw (kept, engine)
                (λ small. elim (h small) [
                  | inl same ↦ inl (rw same refl, refl)
                  | inr (_, row, timed, rows) ↦ inr (inr (row, timed, rows, refl))
                ]))
        ])
      ]

  pub add_time-Settled :
      (c : Session) (s : System D) (tokens : List Bytes)
      → Settled F W s (handle_add_time F W c s tokens)
  unfolding handle_add_time add_time_alert
  add_time-Settled c s (a ∷ u ∷ contract ∷ time ∷ rest) =
      let row = time_row F.zero c.user_id contract time W.now in
      added_time-Settled c s contract (insert_alert W.sqlite Statement.add_time row s.db) (λ small.
        elim (inserted Statement.add_time row s.db small) [
          | inl same ↦ inl same
          | inr (some_id, n, rows) ↦ inr (some_id, row n, refl, rows)
        ])
  add_time-Settled c s _ = λ _. inl (refl, refl)
