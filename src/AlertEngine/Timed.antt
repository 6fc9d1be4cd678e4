-- ===== src/AlertEngine/Timed.antt =====
-- The cache and the tables at a second of the timer (CheckTimeAlerts of Server/AlertEngine.cpp).
use cloud_alert_system.AlertEngine.{
  chain-some, get_last_price, fire_alert, cached, price_or_zero, check_time_record,
  check_time_records, check_time_alerts,
}
use cloud_alert_system.Common.{
  All-self, ◌^◌, ◌<◌, ◌≡◌, ◌≢◌, sym, ap, subst, ◌∙◌, inl, inr, Option, some, List, [], ◌∷◌, Memᴰ,
  arith, Bool-cases, All, All-map_self, All-imp, All-member, ℤ, eq_ℤ_iff, lookup, Rising-inj,
}
use cloud_alert_system.Db.Alerts.{untriggered, change_where, set_triggered, trigger_alert}
use cloud_alert_system.Db.Queries.{waits_time, scan_alerts, get_pending_time_alerts}
use cloud_alert_system.Db.{AlertRecord, Db, Statement}
use cloud_alert_system.Double.{Float}
use cloud_alert_system.Protocol.{alert_type_price, alert_type_time}
use cloud_alert_system.System.{Engine, System}
use cloud_alert_system.Text.{Bytes, text_key}
use cloud_alert_system.World.{World}
use cloud_alert_system.Db.Valid.{IsValid}
use cloud_alert_system.AlertEngine.Cache.{scan_alerts-All}
use cloud_alert_system.AlertEngine.Coherent.{Same-Coherent, Coherent}
use cloud_alert_system.AlertEngine.Kept.{fired_rows, fired-Covers, fired-Sound}
use cloud_alert_system.AlertEngine.Upkeep.{
  trigger_cases, trigger-IsValid, fire_alert-same, after_trigger-cases, missed-Same,
}

module _ {D : Type 0} (F : Float D) (W : World D) where
  -- the alert is a time alert, whatever the rows say of it
  abbrev IsTimed : ℤ → List (AlertRecord D) → Type 0
  IsTimed a rows = All (λ r. r.id ≡ a → r.alert_type ≡ alert_type_time) rows

  fired-IsTimed :
      (a b : ℤ) (rows : List (AlertRecord D)) → IsTimed a rows → IsTimed a (fired_rows b W.now rows)
  fired-IsTimed a b rows =
      All-map_self (λ r. r.id ≡ a → r.alert_type ≡ alert_type_time)
        (λ r. r.id ≡ a → r.alert_type ≡ alert_type_time)
        (change_where (untriggered b) (set_triggered W.now)) rows (λ r h. one r h)
    where
      one :
          (r : AlertRecord D)
          → (r.id ≡ a → r.alert_type ≡ alert_type_time)
          → let r' = change_where (untriggered b) (set_triggered W.now) r in
            r'.id ≡ a → r'.alert_type ≡ alert_type_time
      one r h = elim (Bool-cases (untriggered b r)) [ inl e ↦ rw e h | inr e ↦ rw e h ]

  check_time_record-Coherent :
      (rec : AlertRecord D) (s t : System D)
      → check_time_record F W rec s ≡ some t
      → IsTimed rec.id s.db.alerts
      → Coherent s
      → Coherent t × ((a : ℤ) → IsTimed a s.db.alerts → IsTimed a t.db.alerts)
  unfolding check_time_record
  check_time_record-Coherent rec s t e timed h =
      let r = trigger_alert W.sqlite rec.id W.now s.db in
      let fire : System D → Option (System D) =
        λ u. fire_alert F W rec (price_or_zero F W (get_last_price rec.contract u)) W.now u in
      elim (after_trigger-cases F W s r fire t e) [
        | inl (miss, e2) ↦
            let same = missed-Same F W rec.id s t miss e2 in
            (
              Same-Coherent s t same h,
              λ a k. subst (λ (db : Db D). IsTimed a db.alerts) (sym same.0) k,
            )
        | inr (hit, e2) ↦
            let u : System D = record s { db = r.0 } in
            let same =
              fire_alert-same F W rec (price_or_zero F W (get_last_price rec.contract u)) u t e2 in
            elim (trigger_cases F W rec.id s.db) [
              | inl (miss, _) ↦ absurd (ground (arith, hit, miss))
              | inr (_, rows) ↦
                  let other =
                    λ (x : AlertRecord D) (m : Memᴰ x s.db.alerts)
                        (price : x.alert_type ≡ alert_type_price) (own : x.id ≡ rec.id).
                      absurd (ground (arith, price, All-member _ m timed own)) in
                  let loses =
                    λ (c : Bytes) (x : AlertRecord D) (ne : x.id ≢ rec.id)
                        (m : Memᴰ x (cached (lookup text_key c s.engine.price_alert_cache))).
                      m in
                  (
                    Same-Coherent u t (same.0, ap (λ (x : Engine D). x.price_alert_cache) same.1)
                        (record {
                          valid = trigger-IsValid F W rec.id s.db h.valid;
                          covers = rw rows (
                              fired-Covers rec.id W.now s.db.alerts s.engine.price_alert_cache
                                s.engine.price_alert_cache loses h.covers);
                          sound = rw rows (
                              fired-Sound rec.id W.now s.db.alerts s.engine.price_alert_cache other
                                h.sound);
                        }),
                    λ a k.
                        subst (λ (db : Db D). IsTimed a db.alerts) (sym same.0)
                          (rw rows (fired-IsTimed a rec.id s.db.alerts k)),
                  )
            ]
      ]

  check_time_records-Coherent :
      (records : List (AlertRecord D)) (s t : System D)
      → check_time_records F W records s ≡ some t
      → All (λ r. IsTimed r.id s.db.alerts) records
      → Coherent s
      → Coherent t
  unfolding check_time_records
  check_time_records-Coherent [] s t e timed h =
      let same : s ≡ t = ground (arith, e) in subst Coherent same h
  check_time_records-Coherent (rec ∷ records) s t e timed h =
      let (u, e1, e2) =
        chain-some (check_time_record F W rec s) (check_time_records F W records) t e in
      let next = check_time_record-Coherent rec s u e1 timed.0 h in
      check_time_records-Coherent records u t e2
        (All-imp (λ r. IsTimed r.id s.db.alerts) (λ r. IsTimed r.id u.db.alerts) records
          (λ r k. next.1 r.id k) timed.1)
        next.0

  -- a pending time alert that is read is the only row with its id
  waiting-IsTimed :
      (db : Db D) (r : AlertRecord D)
      → IsValid db
      → Memᴰ r db.alerts
      → r.alert_type ≡ alert_type_time
      → IsTimed r.id db.alerts
  waiting-IsTimed db r v m timed =
      All-imp (λ x. Memᴰ x db.alerts) (λ x. x.id ≡ r.id → x.alert_type ≡ alert_type_time) db.alerts
        (λ x n same.
          let one =
            Rising-inj (λ (y : AlertRecord D). y.id) 0 db.alerts db.alert_seq v.alert_ids n m
              same in
          ap (λ (y : AlertRecord D). y.alert_type) one ∙ timed)
        (All-self db.alerts)

  pub check_time_alerts-Coherent :
      (s t : System D)
      → check_time_alerts F W s ≡ some t
      → s.db.alert_seq < 2 ^ 31
      → Coherent s
      → Coherent t
  unfolding check_time_alerts get_pending_time_alerts
  check_time_alerts-Coherent s t e small h =
      let found =
        scan_alerts-All W.sqlite (Statement.pending_time W.hms) (waits_time W.hms) s.db h.valid
          small in
      let rows = scan_alerts W.sqlite (Statement.pending_time W.hms) (waits_time W.hms) s.db in
      check_time_records-Coherent rows s t e
        (All-imp _ (λ r. IsTimed r.id s.db.alerts) rows
          (λ r k.
            waiting-IsTimed s.db r h.valid k.0
              (ground (arith, k.1, eq_ℤ_iff r.alert_type alert_type_time)))
          found)
        h
