-- ===== src/AlertEngine/Upkeep.antt =====
-- The cache and the tables at a tick and at a second of the timer (Server/AlertEngine.cpp).
use cloud_alert_system.AlertEngine.{
  chain-some, remove_cached, remove_cached_price_alert, alert_task, fire_alert, meets,
  after_trigger, check_record, check_records, store_last_price, at_hand, check_price_alert,
}
use cloud_alert_system.Common.{
  ◌≡◌, refl, ap, subst, ◌⊎◌, inl, inr, Bool, true, false, Option, some, List, [], ◌∷◌, arith,
  Bool-cases, ℤ,
}
use cloud_alert_system.Db.Alerts.{untriggered, set_triggered, trigger_alert}
use cloud_alert_system.Db.{AlertRecord, Db}
use cloud_alert_system.Double.{Float}
use cloud_alert_system.Notifier.{notify}
use cloud_alert_system.System.{Engine, System}
use cloud_alert_system.Text.{Bytes}
use cloud_alert_system.World.{World}
use cloud_alert_system.Db.Valid.{IsValid, perform-IsValid}
use cloud_alert_system.Db.History.{perform}
use cloud_alert_system.Db.History
use cloud_alert_system.Db.Outcome.{update_alerts-false, alerts-update_alerts}
use cloud_alert_system.AlertEngine.Ticks.{stored-db, stored-cache}
use cloud_alert_system.AlertEngine.Coherent.{Same, Same-Coherent, Coherent}
use cloud_alert_system.AlertEngine.Kept.{
  fired_rows, fired-Covers, remove_cached-Loses, remove_cached-Sound,
}

module _ {D : Type 0} (F : Float D) (W : World D) where
  -- a trigger leaves the tables as they were, or the alert's pending row triggered
  pub trigger_cases :
      (a : ℤ) (db : Db D)
      → ((trigger_alert W.sqlite a W.now db).1 ≡ false)
          × ((trigger_alert W.sqlite a W.now db).0 ≡ db)
        ⊎ ((trigger_alert W.sqlite a W.now db).1 ≡ true)
          × ((trigger_alert W.sqlite a W.now db).0.alerts ≡ fired_rows a W.now db.alerts)
  unfolding trigger_alert
  trigger_cases a db = elim (Bool-cases (trigger_alert W.sqlite a W.now db).1) [
    | inl e ↦ inr (e, alerts-update_alerts W.sqlite _ (untriggered a) (set_triggered W.now) db e)
    | inr e ↦ inl (e, update_alerts-false W.sqlite _ (untriggered a) (set_triggered W.now) db e)
  ]

  pub trigger-IsValid :
      (a : ℤ) (db : Db D) → IsValid db → IsValid (trigger_alert W.sqlite a W.now db).0
  trigger-IsValid a db v =
      unfold perform in perform-IsValid F W.sqlite W.now (History.trigger a W.now) db v

  pub fire_alert-same :
      (rec : AlertRecord D) (p : D) (s t : System D)
      → fire_alert F W rec p W.now s ≡ some t
      → (t.db ≡ s.db) × (t.engine ≡ s.engine)
  unfolding fire_alert
  fire_alert-same rec p s t e =
      let (task, _, e2) =
        chain-some (alert_task F W rec p W.now s.db)
          (λ task. some (record s { notifier = notify task s.notifier })) t e in
      (ground (arith, e2), ground (arith, e2))

  pub after_trigger-cases :
      (s : System D) (r : Db D × Bool) (fire : System D → Option (System D)) (t : System D)
      → after_trigger F W s r fire ≡ some t
      → ((r.1 ≡ false) × (some (record s { db = r.0 }) ≡ some t))
        ⊎ ((r.1 ≡ true) × (fire (record s { db = r.0 }) ≡ some t))
  after_trigger-cases s (db, true) fire t e = inr (refl, e)
  after_trigger-cases s (db, false) fire t e = inl (refl, e)

  -- the trigger of a cached record and its removal
  removed-Coherent :
      (a : ℤ) (s : System D)
      → (trigger_alert W.sqlite a W.now s.db).1 ≡ true
      → Coherent s
      → Coherent
          (remove_cached_price_alert a (record s { db = (trigger_alert W.sqlite a W.now s.db).0 }))
  unfolding remove_cached_price_alert
  removed-Coherent a s hit h = elim (trigger_cases a s.db) [
    | inl (miss, _) ↦ absurd (ground (arith, hit, miss))
    | inr (_, rows) ↦ record {
      valid = trigger-IsValid a s.db h.valid;
      covers = rw rows (
          fired-Covers a W.now s.db.alerts s.engine.price_alert_cache
            (remove_cached a s.engine.price_alert_cache)
            (remove_cached-Loses a s.engine.price_alert_cache) h.covers);
      sound = rw rows (remove_cached-Sound a W.now s.db.alerts s.engine.price_alert_cache h.sound);
    }
  ]

  pub missed-Same :
      (a : ℤ) (s t : System D)
      → (trigger_alert W.sqlite a W.now s.db).1 ≡ false
      → some (record s { db = (trigger_alert W.sqlite a W.now s.db).0 }) ≡ some t
      → Same s t
  missed-Same a s t miss e = elim (trigger_cases a s.db) [
    | inl (_, same) ↦ (ground (arith, e, same), ground (arith, e))
    | inr (hit, _) ↦ absurd (ground (arith, hit, miss))
  ]

  check_record-Coherent :
      (p : D) (rec : AlertRecord D) (s t : System D)
      → check_record F W p rec s ≡ some t
      → Coherent s
      → Coherent t
  unfolding check_record
  check_record-Coherent p rec s t e h =
      let r = trigger_alert W.sqlite rec.id W.now s.db in
      let fire : System D → Option (System D) =
        λ u. fire_alert F W rec p W.now (remove_cached_price_alert rec.id u) in
      elim (Bool-cases (meets F W rec p)) [
        | inr unmet ↦ Same-Coherent s t (ground (arith, e, unmet), ground (arith, e, unmet)) h
        | inl met ↦ elim (after_trigger-cases s r fire t (rw met at e)) [
          | inl (miss, e2) ↦ Same-Coherent s t (missed-Same rec.id s t miss e2) h
          | inr (hit, e2) ↦
              let u = remove_cached_price_alert rec.id (record s { db = r.0 }) in
              let same = fire_alert-same rec p u t e2 in
              Same-Coherent u t (same.0, ap (λ (x : Engine D). x.price_alert_cache) same.1)
                (removed-Coherent rec.id s hit h)
        ]
      ]

  check_records-Coherent :
      (p : D) (records : List (AlertRecord D)) (s t : System D)
      → check_records F W p records s ≡ some t
      → Coherent s
      → Coherent t
  unfolding check_records
  check_records-Coherent p [] s t e h =
      let same : s ≡ t = ground (arith, e) in subst Coherent same h
  check_records-Coherent p (rec ∷ records) s t e h =
      let (u, e1, e2) = chain-some (check_record F W p rec s) (check_records F W p records) t e in
      check_records-Coherent p records u t e2 (check_record-Coherent p rec s u e1 h)

  pub check_price_alert-Coherent :
      (contract : Bytes) (p : D) (s t : System D)
      → check_price_alert F W contract p s ≡ some t
      → Coherent s
      → Coherent t
  unfolding check_price_alert
  check_price_alert-Coherent contract p s t e h =
      let u = store_last_price F W contract p s in
      check_records-Coherent p (at_hand contract u) u t e
        (Same-Coherent s u (stored-db F W contract p s, stored-cache F W contract p s) h)
