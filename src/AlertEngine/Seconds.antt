-- ===== src/AlertEngine/Seconds.antt =====
-- A second of the timer against every alert that is set for it: CheckTimeAlerts of Server/AlertEngine.cpp.
use cloud_alert_system.AlertEngine.{
  chain-some, get_last_price, fire_alert, price_or_zero, check_time_record, check_time_records,
  check_time_alerts,
}
use cloud_alert_system.Common.{
  All-self, All-both, ◌^◌, ◌≤◌, ◌<◌, ◌≡◌, ◌≢◌, sym, subst, inl, inr, true, Option, some, List, [],
  ◌∷◌, Memᴰ, arith, length, All, All-imp, All-member, ℤ, eq_ℤ_iff,
}
use cloud_alert_system.Db.Alerts.{trigger_alert}
use cloud_alert_system.Db.Queries.{waits_time, scan_alerts, get_pending_time_alerts}
use cloud_alert_system.Db.{AlertRecord, Db, Statement}
use cloud_alert_system.Double.{Float}
use cloud_alert_system.Protocol.{alert_type_time, status_pending}
use cloud_alert_system.System.{System}
use cloud_alert_system.Text.{same_text_iff, c_str}
use cloud_alert_system.World.{World}
use cloud_alert_system.Db.Valid.{IsValid}
use cloud_alert_system.Db.Outcome.{Runs}
use cloud_alert_system.Db.Once.{NotPending}
use cloud_alert_system.AlertEngine.Cache.{scan_alerts-member}
use cloud_alert_system.AlertEngine.Complete.{trigger-silent, Runs-silent}
use cloud_alert_system.AlertEngine.Due.{Old, trigger-Old}
use cloud_alert_system.AlertEngine.Upkeep.{fire_alert-same, after_trigger-cases}

module _ {D : Type 0} (F : Float D) (W : World D) where
  check_time_record-db :
      (rec : AlertRecord D) (s t : System D)
      → check_time_record F W rec s ≡ some t
      → t.db ≡ (trigger_alert W.sqlite rec.id W.now s.db).0
  unfolding check_time_record
  check_time_record-db rec s t e =
      let r = trigger_alert W.sqlite rec.id W.now s.db in
      let fire : System D → Option (System D) =
        λ u. fire_alert F W rec (price_or_zero F W (get_last_price rec.contract u)) W.now u in
      elim (after_trigger-cases F W s r fire t e) [
        | inl (_, e2) ↦ ground (arith, e2)
        | inr (_, e2) ↦
            let u : System D = record s { db = r.0 } in
            (fire_alert-same F W rec (price_or_zero F W (get_last_price rec.contract u)) u t e2).0
      ]

  check_time_records-silent :
      (a : ℤ) (todo : List (AlertRecord D)) (s t : System D)
      → check_time_records F W todo s ≡ some t
      → All (NotPending a) s.db.alerts
      → All (NotPending a) t.db.alerts
  unfolding check_time_records
  check_time_records-silent a [] s t e h =
      let same : s ≡ t = ground (arith, e) in
      subst (λ (x : System D). All (NotPending a) x.db.alerts) same h
  check_time_records-silent a (rec ∷ todo) s t e h =
      let (u, e1, e2) =
        chain-some (check_time_record F W rec s) (check_time_records F W todo) t e in
      check_time_records-silent a todo u t e2 (
        subst (λ (d : Db D). All (NotPending a) d.alerts) (sym (check_time_record-db rec s u e1))
          (trigger-silent F W a rec.id s.db h))

  check_time_records-silences :
      (rec : AlertRecord D) (todo : List (AlertRecord D)) (s t : System D)
      → Memᴰ rec todo
      → Runs W.sqlite (Statement.trigger rec.id)
      → check_time_records F W todo s ≡ some t
      → All (NotPending rec.id) t.db.alerts
  unfolding check_time_records
  check_time_records-silences rec [] s t m run e = elim m [ ]
  check_time_records-silences rec (x ∷ todo) s t (Memᴰ.head same) run e =
      let (u, e1, e2) = chain-some (check_time_record F W x s) (check_time_records F W todo) t e in
      let own = subst (λ r. check_time_record F W r s ≡ some u) (sym same) e1 in
      check_time_records-silent rec.id todo u t e2 (
        subst (λ (d : Db D). All (NotPending rec.id) d.alerts)
          (sym (check_time_record-db rec s u own)) (Runs-silent F W rec.id s.db run))
  check_time_records-silences rec (x ∷ todo) s t (Memᴰ.tail m) run e =
      let (u, e1, e2) = chain-some (check_time_record F W x s) (check_time_records F W todo) t e in
      check_time_records-silences rec todo u t m run e2

  check_time_records-Old :
      (rows todo : List (AlertRecord D)) (s t : System D)
      → check_time_records F W todo s ≡ some t
      → All (Old rows) s.db.alerts
      → All (Old rows) t.db.alerts
  unfolding check_time_records
  check_time_records-Old rows [] s t e h =
      let same : s ≡ t = ground (arith, e) in
      subst (λ (x : System D). All (Old rows) x.db.alerts) same h
  check_time_records-Old rows (rec ∷ todo) s t e h =
      let (u, e1, e2) =
        chain-some (check_time_record F W rec s) (check_time_records F W todo) t e in
      check_time_records-Old rows todo u t e2 (
        subst (λ (d : Db D). All (Old rows) d.alerts) (sym (check_time_record-db rec s u e1))
          (trigger-Old F W rows rec.id s.db h))

  -- On tables that keep their invariant with rowids below 2^31, a check of the time alerts that
  -- does not end the process leaves no pending time alert that is set for the time of the check,
  -- when SQLite gives all rows and runs every UPDATE of TriggerAlert.
  pub check_time_alerts-NoneDue :
      (s t : System D)
      → IsValid s.db
      → s.db.alert_seq < 2 ^ 31
      → W.sqlite.prepares (Statement.pending_time W.hms) ≡ true
      → length s.db.alerts ≤ W.sqlite.reads (Statement.pending_time W.hms)
      → ((a : ℤ) → Runs W.sqlite (Statement.trigger a))
      → check_time_alerts F W s ≡ some t
      → All
          (λ r.
            r.status ≡ status_pending
            → r.alert_type ≡ alert_type_time
            → r.trigger_time ≢ c_str W.hms)
          t.db.alerts
  unfolding check_time_alerts get_pending_time_alerts
  check_time_alerts-NoneDue s t v small prepared fits runs e =
      All-imp (λ r. Memᴰ r t.db.alerts × Old s.db.alerts r) _ t.db.alerts
        (λ r k pending timed due. one r k.0 (k.1 pending) pending timed due)
        (All-both (λ r. Memᴰ r t.db.alerts) (Old s.db.alerts) t.db.alerts (All-self t.db.alerts)
          (check_time_records-Old s.db.alerts found s t e (
            All-imp (λ r. Memᴰ r s.db.alerts) (Old s.db.alerts) s.db.alerts (λ r m _. m)
              (All-self s.db.alerts))))
    where
      found : List (AlertRecord D)
      found = scan_alerts W.sqlite (Statement.pending_time W.hms) (waits_time W.hms) s.db

      one :
          (r : AlertRecord D)
          → Memᴰ r t.db.alerts
          → Memᴰ r s.db.alerts
          → r.status ≡ status_pending
          → r.alert_type ≡ alert_type_time
          → r.trigger_time ≡ c_str W.hms
          → ⊥
      one r new old pending timed due =
          let hit : waits_time W.hms r ≡ true = ground (
            arith,
            eq_ℤ_iff r.status status_pending,
            eq_ℤ_iff r.alert_type alert_type_time,
            (same_text_iff r.trigger_time (c_str W.hms)).1 due,
          ) in
          let read =
            scan_alerts-member W.sqlite (Statement.pending_time W.hms) (waits_time W.hms) s.db r v
              small (prepared, fits) old hit in
          let quiet : NotPending r.id r =
            All-member _ new (check_time_records-silences r found s t read (runs r.id) e) in
          absurd
            (ground (arith, quiet, pending, eq_ℤ_iff r.id r.id, eq_ℤ_iff r.status status_pending))
