-- ===== src/AlertEngine/Due.antt =====
-- A tick against every alert that its price meets: CheckPriceAlert of Server/AlertEngine.cpp.
use cloud_alert_system.AlertEngine.{
  chain-some, meets, check_record, check_records, store_last_price, at_hand, check_price_alert,
}
use cloud_alert_system.Common.{
  All-self, All-both, ◌≡◌, refl, sym, subst, inl, inr, false, some, List, [], ◌∷◌, Memᴰ, arith,
  Bool-cases, All, All-map_self, All-imp, All-member, ℤ,
}
use cloud_alert_system.Db.Alerts.{untriggered, change_where, set_triggered, trigger_alert}
use cloud_alert_system.Db.{AlertRecord, Db, Statement}
use cloud_alert_system.Double.{Float}
use cloud_alert_system.Protocol.{alert_type_price, status_pending}
use cloud_alert_system.System.{System}
use cloud_alert_system.Text.{Bytes}
use cloud_alert_system.World.{World}
use cloud_alert_system.Db.Outcome.{Runs}
use cloud_alert_system.AlertEngine.Ticks.{check_record-db, stored-db}
use cloud_alert_system.AlertEngine.Complete.{check_price_alert-NotPending}
use cloud_alert_system.AlertEngine.Coherent.{Coherent}
use cloud_alert_system.AlertEngine.Kept.{fired_rows}
use cloud_alert_system.AlertEngine.Upkeep.{trigger_cases}

module _ {D : Type 0} where
  -- a pending row is one of the old ones
  abbrev pub Old : List (AlertRecord D) → AlertRecord D → Type 0
  Old rows r = r.status ≡ status_pending → Memᴰ r rows

  pub fired-Old :
      (rows now : List (AlertRecord D)) (a : ℤ) (at : Bytes)
      → All (Old rows) now
      → All (Old rows) (fired_rows a at now)
  fired-Old rows now a at =
      All-map_self (Old rows) (Old rows) (change_where (untriggered a) (set_triggered at)) now
        (λ r h. one r h)
    where
      one :
          (r : AlertRecord D)
          → Old rows r
          → Old rows (change_where (untriggered a) (set_triggered at) r)
      one r h = elim (Bool-cases (untriggered a r)) [
        | inl e ↦ rw e (λ pending. absurd (ground (arith, pending)))
        | inr e ↦ rw e h
      ]

module _ {D : Type 0} (F : Float D) (W : World D) where
  pub trigger-Old :
      (rows : List (AlertRecord D)) (a : ℤ) (db : Db D)
      → All (Old rows) db.alerts
      → All (Old rows) (trigger_alert W.sqlite a W.now db).0.alerts
  trigger-Old rows a db h = elim (trigger_cases F W a db) [
    | inl (_, same) ↦ subst (λ (d : Db D). All (Old rows) d.alerts) (sym same) h
    | inr (_, fired) ↦ subst (All (Old rows)) (sym fired) (fired-Old rows db.alerts a W.now h)
  ]

  check_records-Old :
      (rows : List (AlertRecord D)) (p : D) (todo : List (AlertRecord D)) (s t : System D)
      → check_records F W p todo s ≡ some t
      → All (Old rows) s.db.alerts
      → All (Old rows) t.db.alerts
  unfolding check_records
  check_records-Old rows p [] s t e h =
      let same : s ≡ t = ground (arith, e) in
      subst (λ (x : System D). All (Old rows) x.db.alerts) same h
  check_records-Old rows p (rec ∷ todo) s t e h =
      let (u, e1, e2) = chain-some (check_record F W p rec s) (check_records F W p todo) t e in
      let next : All (Old rows) u.db.alerts = elim (check_record-db F W p rec s u e1) [
        | inl (_, same) ↦ subst (λ (d : Db D). All (Old rows) d.alerts) (sym same) h
        | inr (_, done) ↦
            subst (λ (d : Db D). All (Old rows) d.alerts) (sym done)
              (trigger-Old rows rec.id s.db h)
      ] in
      check_records-Old rows p todo u t e2 next

  check_price_alert-Old :
      (contract : Bytes) (p : D) (s t : System D)
      → check_price_alert F W contract p s ≡ some t
      → All (Old s.db.alerts) t.db.alerts
  unfolding check_price_alert
  check_price_alert-Old contract p s t e =
      let u = store_last_price F W contract p s in
      check_records-Old s.db.alerts p (at_hand contract u) u t e (
        rw (stored-db F W contract p s) (
          All-imp (λ r. Memᴰ r s.db.alerts) (Old s.db.alerts) s.db.alerts (λ r m _. m)
            (All-self s.db.alerts)))

  -- With a cache that is equal to the tables, a tick that does not end the process leaves no
  -- pending price alert of its contract whose condition the price meets, when SQLite runs every
  -- UPDATE.
  pub tick-NoneDue :
      (contract : Bytes) (p : D) (s t : System D)
      → Coherent s
      → ((a : ℤ) → Runs W.sqlite (Statement.trigger a))
      → check_price_alert F W contract p s ≡ some t
      → All
          (λ r.
            r.status ≡ status_pending
            → r.alert_type ≡ alert_type_price
            → r.contract ≡ contract
            → meets F W r p ≡ false)
          t.db.alerts
  tick-NoneDue contract p s t h runs e =
      All-imp (λ r. Memᴰ r t.db.alerts × Old s.db.alerts r) _ t.db.alerts
        (λ r k pending price on. one r k.0 (k.1 pending) pending price on)
        (All-both (λ r. Memᴰ r t.db.alerts) (Old s.db.alerts) t.db.alerts (All-self t.db.alerts)
          (check_price_alert-Old contract p s t e))
    where
      one :
          (r : AlertRecord D)
          → Memᴰ r t.db.alerts
          → Memᴰ r s.db.alerts
          → r.status ≡ status_pending
          → r.alert_type ≡ alert_type_price
          → r.contract ≡ contract
          → meets F W r p ≡ false
      one r new old pending price on = elim (Bool-cases (meets F W r p)) [
        | inr unmet ↦ unmet
        | inl met ↦
            let here : Memᴰ r (at_hand contract s) =
              subst (λ c. Memᴰ r (at_hand c s)) on (All-member _ old h.covers pending price) in
            absurd (
              All-member _ new
                (check_price_alert-NotPending F W contract p r s t here (runs r.id) met e) refl
                pending)
      ]
