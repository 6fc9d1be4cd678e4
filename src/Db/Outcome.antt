-- ===== src/Db/Outcome.antt =====
-- What the Boolean of DeleteAlert, the two Modify methods and TriggerAlert tells the caller.
use cloud_alert_system.Common.{
  ◌<◌, ◌≡◌, ◌↔◌, refl, ap, inl, inr, Bool, true, false, List, [], ◌∷◌, map, Memᴰ, arith, Bool-cases,
  if◌then◌else◌, count_if, ℤ, eq_ℤ_iff,
}
use cloud_alert_system.Text.{Bytes}
use cloud_alert_system.Protocol.{status_pending, status_deleted}
use cloud_alert_system.Db.{AlertRecord, Db, Sqlite, Statement}
use cloud_alert_system.Db.Alerts.{
  owned, untriggered, change_where, set_deleted, set_price_rule, set_time_rule, set_triggered,
  update_alerts, delete_alert, modify_price_alert, modify_time_alert, trigger_alert,
}
use cloud_alert_system.Db.{delete, modify_price, modify_time, trigger}
use cloud_alert_system.Db.Lifecycle.{OwnedBy, owned-OwnedBy}

module _ {R : Type 0} (hit : R → Bool) where
  count_if-pos : (rows : List R) → 0 < count_if hit rows → (r : R) × Memᴰ r rows × (hit r ≡ true)
  unfolding count_if
  count_if-pos [] h = absurd (omega arith)
  count_if-pos (x ∷ rows) h = elim (Bool-cases (hit x)) [
    | inl e ↦ (x, Memᴰ.head refl, e)
    | inr e ↦ let (r, m, t) = count_if-pos rows (rw (e, count_if) at h) in (r, Memᴰ.tail m, t)
  ]

  pos-count_if : (rows : List R) {r : R} → Memᴰ r rows → hit r ≡ true → 0 < count_if hit rows
  unfolding count_if
  pos-count_if [] m t = elim m [ ]
  pos-count_if (x ∷ rows) (Memᴰ.head e) t = ground (arith, ap hit e)
  pos-count_if (x ∷ rows) (Memᴰ.tail m) t = ground (arith, pos-count_if rows m t)

  map-unhit :
      (change : R → R) (rows : List R)
      → count_if hit rows ≡ 0
      → map (λ r. if hit r then change r else r) rows ≡ rows
  unfolding count_if
  map-unhit change [] h = refl
  map-unhit change (x ∷ rows) h = ground (arith, map-unhit change rows)

  pub count_if-cleared :
      (change : R → R) (rows : List R)
      → ((r : R) → hit (if hit r then change r else r) ≡ false)
      → count_if hit (map (λ r. if hit r then change r else r) rows) ≡ 0
  unfolding count_if
  count_if-cleared change [] clear = refl
  count_if-cleared change (x ∷ rows) clear = rw (clear x) (count_if-cleared change rows clear)

module _ {D : Type 0} (S : Sqlite D) where
  -- a row that the statement's WHERE takes
  abbrev pub Some : (AlertRecord D → Type 0) → Db D → Type 0
  Some P db = (r : AlertRecord D) × Memᴰ r db.alerts × P r

  -- both calls of SQLite went well
  abbrev pub Runs : Statement → Type 0
  Runs stmt = (S.prepares stmt ≡ true) × (S.steps stmt ≡ true)

  module _ (stmt : Statement) (hit : AlertRecord D → Bool) (change : AlertRecord D → AlertRecord D)
      (db : Db D) where
    pub update_alerts-true :
        (update_alerts S stmt hit change db).1 ≡ true → Runs stmt × Some (λ r. hit r ≡ true) db
    unfolding update_alerts
    update_alerts-true h = ((ground arith, ground arith), count_if-pos hit db.alerts (ground arith))

    true-update_alerts :
        Runs stmt → Some (λ r. hit r ≡ true) db → (update_alerts S stmt hit change db).1 ≡ true
    unfolding update_alerts
    true-update_alerts h (r, m, t) = ground (arith, pos-count_if hit db.alerts m t)

    pub update_alerts-false :
        (update_alerts S stmt hit change db).1 ≡ false → (update_alerts S stmt hit change db).0 ≡ db
    unfolding update_alerts
    update_alerts-false h = ground (arith, map-unhit hit change db.alerts)

    pub alerts-update_alerts :
        (update_alerts S stmt hit change db).1 ≡ true
        → (update_alerts S stmt hit change db).0.alerts ≡ map (change_where hit change) db.alerts
    unfolding update_alerts
    alerts-update_alerts h = ground arith

  OwnedBy-owned : (a uid : ℤ) (r : AlertRecord D) → OwnedBy a uid r → owned a uid r ≡ true
  OwnedBy-owned a uid r h =
      ground (arith, eq_ℤ_iff r.id a, eq_ℤ_iff r.user_id uid, eq_ℤ_iff r.status status_deleted)

  -- TriggerAlert returns true exactly when SQLite runs the statement and a row with that id is
  -- pending.
  pub trigger_alert_iff :
      (a : ℤ) (at : Bytes) (db : Db D)
      → ((trigger_alert S a at db).1 ≡ true)
        ↔ (Runs (trigger a) × Some (λ r. (r.id ≡ a) × (r.status ≡ status_pending)) db)
  unfolding trigger_alert
  trigger_alert_iff a at db = (
    λ h.
        let (run, row) = update_alerts-true (trigger a) (untriggered a) (set_triggered at) db h in
        let (r, m, t) = row in
        (run, (r, m, ground (arith, eq_ℤ_iff r.id a, eq_ℤ_iff r.status status_pending))),
    λ h.
        true-update_alerts (trigger a) (untriggered a) (set_triggered at) db h.0
          (h.1.0, h.1.1, ground (arith, eq_ℤ_iff h.1.0.id a, eq_ℤ_iff h.1.0.status status_pending)),
  )

  -- DeleteAlert returns true exactly when SQLite runs the statement and the user has an alert with
  -- that id that is not deleted.
  pub delete_alert_iff :
      (a uid : ℤ) (db : Db D)
      → ((delete_alert S a uid db).1 ≡ true) ↔ (Runs delete × Some (OwnedBy a uid) db)
  unfolding delete_alert
  delete_alert_iff a uid db = (
    λ h.
        let (run, row) = update_alerts-true delete (owned a uid) set_deleted db h in
        let (r, m, t) = row in (run, (r, m, owned-OwnedBy a uid r t)),
    λ h.
        true-update_alerts delete (owned a uid) set_deleted db h.0
          (h.1.0, h.1.1, OwnedBy-owned a uid h.1.0 h.1.2),
  )

  -- When DeleteAlert, ModifyPriceAlert, ModifyTimeAlert or TriggerAlert returns false, the tables
  -- are as they were.
  pub refused_changes_nothing :
      (a uid : ℤ) (contract time at : Bytes) (price : D) (cond : ℤ) (db : Db D)
      → ((delete_alert S a uid db).1 ≡ false → (delete_alert S a uid db).0 ≡ db)
        × ((modify_price_alert S a uid contract price cond db).1 ≡ false
            → (modify_price_alert S a uid contract price cond db).0 ≡ db)
        × ((modify_time_alert S a uid contract time db).1 ≡ false
            → (modify_time_alert S a uid contract time db).0 ≡ db)
        × ((trigger_alert S a at db).1 ≡ false → (trigger_alert S a at db).0 ≡ db)
  unfolding delete_alert modify_price_alert modify_time_alert trigger_alert
  refused_changes_nothing a uid contract time at price cond db = (
    update_alerts-false delete (owned a uid) set_deleted db,
    update_alerts-false modify_price (owned a uid) (set_price_rule contract price cond) db,
    update_alerts-false modify_time (owned a uid) (set_time_rule contract time) db,
    update_alerts-false (trigger a) (untriggered a) (set_triggered at) db,
  )
