-- ===== src/ClientSession/Settled.antt =====
-- What the handlers of Server/ClientSession.cpp that delete, modify and query leave in the alert engine's cache.
use cloud_alert_system.AlertEngine.{subscribe_contract, refresh_price_alert_cache}
use cloud_alert_system.Common.{
  ◌≡◌, refl, inl, inr, Bool, true, false, Option, none, some, List, [], ◌∷◌, arith, Option-cases,
}
use cloud_alert_system.Db.Alerts.{
  owned, set_deleted, set_price_rule, set_time_rule, update_alerts, delete_alert,
  modify_price_alert, modify_time_alert,
}
use cloud_alert_system.Db.Queries.{query_alerts}
use cloud_alert_system.Db.Users.{update_email}
use cloud_alert_system.Db.{Db, Statement}
use cloud_alert_system.Double.{Float}
use cloud_alert_system.System.{System}
use cloud_alert_system.Text.{Bytes, c_str}
use cloud_alert_system.World.{World}
use cloud_alert_system.Text.Number.{atoi}
use cloud_alert_system.ClientSession.Lines.{Response}
use cloud_alert_system.ClientSession.{
  Session, deleted, handle_delete, modified_price, handle_modify_price, modified_time,
  handle_modify_time, alert_lines, handle_query, email_set, handle_set_email, handle_get_email,
  price_lines, handle_get_prices,
}
use cloud_alert_system.Db.Outcome.{update_alerts-false}
use cloud_alert_system.Db.Lifecycle.{alerts-update_email}
use cloud_alert_system.ClientSession.Caching.{
  subscribe-engine, subscribe-db, Settled, refreshed-Fresh, subscribed-Fresh,
}

module _ {D : Type 0} (F : Float D) (W : World D) where
  deleted-Settled :
      (c : Session) (s : System D) (r : Db D × Bool)
      → (r.1 ≡ false → r.0 ≡ s.db)
      → Settled F W s (deleted F W c s r)
  deleted-Settled c s (db, true) h = λ _. inr (inl (refreshed-Fresh F W (record s { db = db })))
  deleted-Settled c s (db, false) h = λ _. inl (rw (h refl) refl, refl)

  pub delete-Settled :
      (c : Session) (s : System D) (tokens : List Bytes)
      → Settled F W s (handle_delete F W c s tokens)
  unfolding handle_delete delete_alert
  delete-Settled c s (a ∷ id ∷ rest) = deleted-Settled c s _ (
      update_alerts-false W.sqlite Statement.delete (owned (atoi (c_str id)) c.user_id) set_deleted
        s.db)
  delete-Settled c s _ = λ _. inl (refl, refl)

  modified_price-Settled :
      (c : Session) (s : System D) (contract : Bytes) (r : Db D × Bool)
      → (r.1 ≡ false → r.0 ≡ s.db)
      → Settled F W s (modified_price F W c s contract r)
  modified_price-Settled c s contract (db, true) h = λ _. inr (
      inl (
        subscribed-Fresh F W contract (refresh_price_alert_cache W (record s { db = db }))
          (refreshed-Fresh F W (record s { db = db }))))
  modified_price-Settled c s contract (db, false) h = λ _. inl (rw (h refl) refl, refl)

  pub modify_price-Settled :
      (c : Session) (s : System D) (tokens : List Bytes)
      → Settled F W s (handle_modify_price F W c s tokens)
  unfolding handle_modify_price modify_price_alert
  modify_price-Settled c s (a ∷ id ∷ contract ∷ p ∷ cond ∷ rest) =
      let hit = owned (atoi (c_str id)) c.user_id in
      let change = set_price_rule contract (F.atof (c_str p)) (atoi (c_str cond)) in
      let h =
        modified_price-Settled c s contract
          (update_alerts W.sqlite Statement.modify_price hit change s.db)
          (update_alerts-false W.sqlite Statement.modify_price hit change s.db) in
      ground (arith, h)
  modify_price-Settled c s _ = λ _. inl (refl, refl)

  modified_time-Settled :
      (c : Session) (s : System D) (r : Db D × Bool)
      → (r.1 ≡ false → r.0 ≡ s.db)
      → Settled F W s (modified_time F W c s r)
  modified_time-Settled c s (db, true) h =
      λ _. inr (inl (refreshed-Fresh F W (record s { db = db })))
  modified_time-Settled c s (db, false) h = λ _. inl (rw (h refl) refl, refl)

  pub modify_time-Settled :
      (c : Session) (s : System D) (tokens : List Bytes)
      → Settled F W s (handle_modify_time F W c s tokens)
  unfolding handle_modify_time modify_time_alert
  modify_time-Settled c s (a ∷ id ∷ contract ∷ time ∷ rest) = modified_time-Settled c s _ (
      update_alerts-false W.sqlite Statement.modify_time (owned (atoi (c_str id)) c.user_id)
        (set_time_rule contract time) s.db)
  modify_time-Settled c s _ = λ _. inl (refl, refl)

  pub query-Settled :
      (c : Session) (s : System D) (tokens : List Bytes)
      → Settled F W s (handle_query F W c s tokens)
  unfolding handle_query
  query-Settled c s (a ∷ u ∷ status ∷ rest) =
      elim (Option-cases
        (alert_lines F W (query_alerts W.sqlite c.user_id (atoi (c_str status)) s.db))) [
          | inl e ↦ rw e tt
          | inr (lines, e) ↦ rw e (λ _. inl (refl, refl))
        ]
  query-Settled c s _ = λ _. inl (refl, refl)

  email_set-Settled :
      (c : Session) (s : System D) (r : Db D × Bool)
      → r.0.alerts ≡ s.db.alerts
      → Settled F W s (email_set F W c s r)
  email_set-Settled c s (db, true) h = λ _. inl (h, refl)
  email_set-Settled c s (db, false) h = λ _. inl (h, refl)

  pub set_email-Settled :
      (c : Session) (s : System D) (tokens : List Bytes)
      → Settled F W s (handle_set_email F W c s tokens)
  unfolding handle_set_email
  set_email-Settled c s (a ∷ u ∷ p ∷ e ∷ rest) =
      let h =
        email_set-Settled c s (update_email W.sqlite c.user_id e s.db)
          (alerts-update_email W.sqlite c.user_id e s.db) in
      ground (arith, h)
  set_email-Settled c s _ = λ _. inl (refl, refl)

  pub get_email-Settled :
      (c : Session) (s : System D) (tokens : List Bytes)
      → Settled F W s (handle_get_email F W c s tokens)
  unfolding handle_get_email
  get_email-Settled c s (a ∷ u ∷ rest) = ground arith
  get_email-Settled c s _ = λ _. inl (refl, refl)

  abbrev SameEngine : System D → Option (System D × List (Response D)) → Type 0
  SameEngine s none = Unit
  SameEngine s (some (t, lines)) = (t.db ≡ s.db) × (t.engine ≡ s.engine)

  price_lines-SameEngine :
      (contracts : List Bytes) (s : System D) → SameEngine s (price_lines F W contracts s)
  unfolding price_lines
  price_lines-SameEngine [] s = (refl, refl)
  price_lines-SameEngine (contract ∷ contracts) s = ground (
    arith,
    price_lines-SameEngine contracts s,
    price_lines-SameEngine contracts (subscribe_contract contract s),
    subscribe-engine contract s,
    subscribe-db contract s,
  )

  pub get_prices-Settled :
      (c : Session) (s : System D) (tokens : List Bytes)
      → Settled F W s (handle_get_prices F W c s tokens)
  unfolding handle_get_prices
  get_prices-Settled c s (a ∷ contract ∷ contracts) =
      ground (arith, price_lines-SameEngine (contract ∷ contracts) s)
  get_prices-Settled c s _ = λ _. inl (refl, refl)
