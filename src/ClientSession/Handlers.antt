-- ===== src/ClientSession/Handlers.antt =====
-- What each handler of Server/ClientSession.cpp does to the tables.
use cloud_alert_system.Common.{
  ◌≡◌, refl, ◌⊎◌, inl, inr, Bool, true, false, Option, none, some, List, [], ◌∷◌, arith,
  Option-cases, ℤ,
}
use cloud_alert_system.Text.{Bytes, c_str}
use cloud_alert_system.Double.{Float}
use cloud_alert_system.Db.{Db}
use cloud_alert_system.Db.Users.{register_user, update_email}
use cloud_alert_system.Db.Alerts.{add_price_alert, modify_price_alert}
use cloud_alert_system.Db.Queries.{query_alerts}
use cloud_alert_system.World.{World}
use cloud_alert_system.System.{System}
use cloud_alert_system.AlertEngine.{subscribe_contract, refresh_price_alert_cache}
use cloud_alert_system.Text.Number.{atoi}
use cloud_alert_system.ClientSession.Lines.{Response}
use cloud_alert_system.ClientSession.{
  Session, Turn, registered, handle_register, handle_login, added_price, handle_add_price,
  added_time, handle_add_time, deleted, handle_delete, modified_price, handle_modify_price,
  modified_time, handle_modify_time, alert_lines, handle_query, email_set, handle_set_email,
  handle_get_email, price_lines, handle_get_prices,
}
use cloud_alert_system.Db.History.{Call, perform}
use cloud_alert_system.Db.History

-- The call is one that a session of this user may make.
abbrev pub InName : {D : Type 0} → ℤ → Call D → Type 0
InName uid (History.register u p e) = Unit
InName uid (History.change_email v e) = v ≡ uid
InName uid (History.add_price v c p cond) = v ≡ uid
InName uid (History.add_time v c t) = v ≡ uid
InName uid (History.delete a v) = v ≡ uid
InName uid (History.modify_price a v c p cond) = v ≡ uid
InName uid (History.modify_time a v c t) = v ≡ uid
InName uid (History.trigger a at) = ⊥

module _ {D : Type 0} (F : Float D) (W : World D) where
  -- the tables are as they were, or as one call in the user's name leaves them
  abbrev pub OneCall : ℤ → Db D → Db D → Type 0
  OneCall uid db db' =
      (db' ≡ db) ⊎ ((call : Call D) × InName uid call × (db' ≡ perform F W.sqlite W.now call db))

  -- of a handler's outcome: the process ended, or this holds of the tables
  abbrev pub Does : ℤ → Db D → Option (Turn D) → Type 0
  Does uid db none = Unit
  Does uid db (some t) = OneCall uid db t.system.db

  db-subscribe_contract : (c : Bytes) (s : System D) → (subscribe_contract c s).db ≡ s.db
  unfolding subscribe_contract
  db-subscribe_contract c s = ground arith

  db-refresh : (s : System D) → (refresh_price_alert_cache W s).db ≡ s.db
  unfolding refresh_price_alert_cache
  db-refresh s = refl

  registered-Does :
      (uid : ℤ) (c : Session) (s : System D) (r : Db D × ℤ)
      → OneCall uid s.db r.0
      → Does uid s.db (registered F W c s r)
  registered-Does uid c s (db, n) h = ground arith

  pub register-Does :
      (uid : ℤ) (c : Session) (s : System D) (tokens : List Bytes)
      → Does uid s.db (handle_register F W c s tokens)
  unfolding handle_register
  register-Does uid c s (a ∷ u ∷ p ∷ e ∷ rest) =
      let h =
        registered-Does uid c s (register_user W.sqlite u p e s.db)
          (inr (History.register u p e, tt, unfold perform in refl)) in
      ground (arith, h)
  register-Does uid c s _ = inl refl

  pub login-Does :
      (uid : ℤ) (c : Session) (s : System D) (tokens : List Bytes)
      → Does uid s.db (handle_login F W c s tokens)
  unfolding handle_login
  login-Does uid c s (a ∷ u ∷ p ∷ rest) = ground arith
  login-Does uid c s _ = inl refl

  added_price-Does :
      (uid : ℤ) (c : Session) (s : System D) (contract : Bytes) (r : Db D × ℤ)
      → OneCall uid s.db r.0
      → Does uid s.db (added_price F W c s contract r)
  added_price-Does uid c s contract (db, n) h = ground (
    arith,
    db-subscribe_contract contract (refresh_price_alert_cache W (record s { db = db })),
    db-refresh (record s { db = db }),
  )

  pub add_price-Does :
      (c : Session) (s : System D) (tokens : List Bytes)
      → Does c.user_id s.db (handle_add_price F W c s tokens)
  unfolding handle_add_price
  add_price-Does c s (a ∷ u ∷ contract ∷ p ∷ cond ∷ rest) =
      let call = History.add_price c.user_id contract (F.atof (c_str p)) (atoi (c_str cond)) in
      let h =
        added_price-Does c.user_id c s contract
          (add_price_alert W.sqlite W.now c.user_id contract (F.atof (c_str p)) (atoi (c_str cond))
            s.db)
          (inr (call, refl, unfold perform in refl)) in
      ground (arith, h)
  add_price-Does c s _ = inl refl

  added_time-Does :
      (uid : ℤ) (c : Session) (s : System D) (contract : Bytes) (r : Db D × ℤ)
      → OneCall uid s.db r.0
      → Does uid s.db (added_time F W c s contract r)
  added_time-Does uid c s contract (db, n) h =
      ground (arith, db-subscribe_contract contract (record s { db = db }))

  pub add_time-Does :
      (c : Session) (s : System D) (tokens : List Bytes)
      → Does c.user_id s.db (handle_add_time F W c s tokens)
  unfolding handle_add_time
  add_time-Does c s (a ∷ u ∷ contract ∷ time ∷ rest) =
      added_time-Does c.user_id c s contract _
        (inr (History.add_time c.user_id contract time, refl, unfold perform in refl))
  add_time-Does c s _ = inl refl

  deleted-Does :
      (uid : ℤ) (c : Session) (s : System D) (r : Db D × Bool)
      → OneCall uid s.db r.0
      → Does uid s.db (deleted F W c s r)
  deleted-Does uid c s (db, true) h = rw (db-refresh (record s { db = db })) h
  deleted-Does uid c s (db, false) h = h

  pub delete-Does :
      (c : Session) (s : System D) (tokens : List Bytes)
      → Does c.user_id s.db (handle_delete F W c s tokens)
  unfolding handle_delete
  delete-Does c s (a ∷ id ∷ rest) =
      deleted-Does c.user_id c s _
        (inr (History.delete (atoi (c_str id)) c.user_id, refl, unfold perform in refl))
  delete-Does c s _ = inl refl

  modified_price-Does :
      (uid : ℤ) (c : Session) (s : System D) (contract : Bytes) (r : Db D × Bool)
      → OneCall uid s.db r.0
      → Does uid s.db (modified_price F W c s contract r)
  modified_price-Does uid c s contract (db, true) h =
      rw
        (
          db-subscribe_contract contract (refresh_price_alert_cache W (record s { db = db })),
          db-refresh (record s { db = db }),
        )
        h
  modified_price-Does uid c s contract (db, false) h = h

  pub modify_price-Does :
      (c : Session) (s : System D) (tokens : List Bytes)
      → Does c.user_id s.db (handle_modify_price F W c s tokens)
  unfolding handle_modify_price
  modify_price-Does c s (a ∷ id ∷ contract ∷ p ∷ cond ∷ rest) =
      let call =
        History.modify_price (atoi (c_str id)) c.user_id contract (F.atof (c_str p))
          (atoi (c_str cond)) in
      let h =
        modified_price-Does c.user_id c s contract
          (modify_price_alert W.sqlite (atoi (c_str id)) c.user_id contract (F.atof (c_str p))
            (atoi (c_str cond)) s.db)
          (inr (call, refl, unfold perform in refl)) in
      ground (arith, h)
  modify_price-Does c s _ = inl refl

  modified_time-Does :
      (uid : ℤ) (c : Session) (s : System D) (r : Db D × Bool)
      → OneCall uid s.db r.0
      → Does uid s.db (modified_time F W c s r)
  modified_time-Does uid c s (db, true) h = rw (db-refresh (record s { db = db })) h
  modified_time-Does uid c s (db, false) h = h

  pub modify_time-Does :
      (c : Session) (s : System D) (tokens : List Bytes)
      → Does c.user_id s.db (handle_modify_time F W c s tokens)
  unfolding handle_modify_time
  modify_time-Does c s (a ∷ id ∷ contract ∷ time ∷ rest) = modified_time-Does c.user_id c s _ (
      inr (
        History.modify_time (atoi (c_str id)) c.user_id contract time,
        refl,
        unfold perform in refl,
      ))
  modify_time-Does c s _ = inl refl

  pub query-Does :
      (uid : ℤ) (c : Session) (s : System D) (tokens : List Bytes)
      → Does uid s.db (handle_query F W c s tokens)
  unfolding handle_query
  query-Does uid c s (a ∷ u ∷ status ∷ rest) =
      elim (Option-cases
        (alert_lines F W (query_alerts W.sqlite c.user_id (atoi (c_str status)) s.db))) [
          | inl e ↦ rw e tt
          | inr (lines, e) ↦ rw e (inl refl)
        ]
  query-Does uid c s _ = inl refl

  email_set-Does :
      (uid : ℤ) (c : Session) (s : System D) (r : Db D × Bool)
      → OneCall uid s.db r.0
      → Does uid s.db (email_set F W c s r)
  email_set-Does uid c s (db, true) h = h
  email_set-Does uid c s (db, false) h = h

  pub set_email-Does :
      (c : Session) (s : System D) (tokens : List Bytes)
      → Does c.user_id s.db (handle_set_email F W c s tokens)
  unfolding handle_set_email
  set_email-Does c s (a ∷ u ∷ p ∷ e ∷ rest) =
      let h =
        email_set-Does c.user_id c s (update_email W.sqlite c.user_id e s.db)
          (inr (History.change_email c.user_id e, refl, unfold perform in refl)) in
      ground (arith, h)
  set_email-Does c s _ = inl refl

  pub get_email-Does :
      (uid : ℤ) (c : Session) (s : System D) (tokens : List Bytes)
      → Does uid s.db (handle_get_email F W c s tokens)
  unfolding handle_get_email
  get_email-Does uid c s (a ∷ u ∷ rest) = ground arith
  get_email-Does uid c s _ = inl refl

  abbrev SameDb : System D → Option (System D × List (Response D)) → Type 0
  SameDb s none = Unit
  SameDb s (some (t, lines)) = t.db ≡ s.db

  price_lines-db : (contracts : List Bytes) (s : System D) → SameDb s (price_lines F W contracts s)
  unfolding price_lines
  price_lines-db [] s = refl
  price_lines-db (contract ∷ contracts) s = ground (
    arith,
    price_lines-db contracts s,
    price_lines-db contracts (subscribe_contract contract s),
    db-subscribe_contract contract s,
  )

  pub get_prices-Does :
      (uid : ℤ) (c : Session) (s : System D) (tokens : List Bytes)
      → Does uid s.db (handle_get_prices F W c s tokens)
  unfolding handle_get_prices
  get_prices-Does uid c s (a ∷ contract ∷ contracts) =
      ground (arith, price_lines-db (contract ∷ contracts) s)
  get_prices-Does uid c s _ = inl refl
