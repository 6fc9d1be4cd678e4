-- ===== src/AlertEngine/Complete.antt =====
-- Which alerts a tick leaves pending: CheckPriceAlert of Server/AlertEngine.cpp.
use cloud_alert_system.Common.{
  ◌≡◌, ◌≢◌, sym, subst, inl, inr, true, some, List, [], ◌∷◌, Memᴰ, arith, All, All-imp, ℤ, eq_ℤ_iff,
  lookup,
}
use cloud_alert_system.Text.{Bytes, text_key}
use cloud_alert_system.Double.{Float}
use cloud_alert_system.Protocol.{status_pending}
use cloud_alert_system.Db.{AlertRecord, Db, Statement}
use cloud_alert_system.Db.Alerts.{
  untriggered, change_where, set_triggered, update_alerts, trigger_alert,
}
use cloud_alert_system.World.{World}
use cloud_alert_system.System.{System}
use cloud_alert_system.AlertEngine.{
  at_hand, chain-some, meets, check_record, check_records, store_last_price, cached,
  check_price_alert,
}
use cloud_alert_system.Db.Outcome.{Runs}
use cloud_alert_system.Db.Once.{NotPending, update_alerts-silent, triggered-silent, All-map}
use cloud_alert_system.AlertEngine.Ticks.{stored-cache, check_record-db}

module _ {D : Type 0} (F : Float D) (W : World D) where
  pub trigger-silent :
      (a b : ℤ) (db : Db D)
      → All (NotPending a) db.alerts
      → All (NotPending a) (trigger_alert W.sqlite b W.now db).0.alerts
  unfolding trigger_alert
  trigger-silent a b db h =
      update_alerts-silent W.sqlite a _ (untriggered b) (set_triggered W.now) db
        (triggered-silent a b W.now) h

  pub Runs-silent :
      (a : ℤ) (db : Db D)
      → Runs W.sqlite (Statement.trigger a)
      → All (NotPending a) (trigger_alert W.sqlite a W.now db).0.alerts
  unfolding trigger_alert update_alerts
  Runs-silent a db run =
      rw (run.0, run.1)
        (All-map (NotPending a) (change_where (untriggered a) (set_triggered W.now)) db.alerts
          (λ r. ground arith))

  record-keeps-silent :
      (a : ℤ) (p : D) (rec : AlertRecord D) (s t : System D)
      → check_record F W p rec s ≡ some t
      → All (NotPending a) s.db.alerts
      → All (NotPending a) t.db.alerts
  record-keeps-silent a p rec s t e h = elim (check_record-db F W p rec s t e) [
    | inl (_, same) ↦ subst (λ db. All (NotPending a) db.alerts) (sym same) h
    | inr (_, done) ↦
        subst (λ db. All (NotPending a) db.alerts) (sym done) (trigger-silent a rec.id s.db h)
  ]

  record-silences :
      (p : D) (rec : AlertRecord D) (s t : System D)
      → Runs W.sqlite (Statement.trigger rec.id)
      → meets F W rec p ≡ true
      → check_record F W p rec s ≡ some t
      → All (NotPending rec.id) t.db.alerts
  record-silences p rec s t run meet e = elim (check_record-db F W p rec s t e) [
    | inl (unmet, _) ↦ absurd (ground (arith, meet, unmet))
    | inr (_, done) ↦
        subst (λ db. All (NotPending rec.id) db.alerts) (sym done) (Runs-silent rec.id s.db run)
  ]

  records-keep-silent :
      (a : ℤ) (p : D) (todo : List (AlertRecord D)) (s t : System D)
      → check_records F W p todo s ≡ some t
      → All (NotPending a) s.db.alerts
      → All (NotPending a) t.db.alerts
  unfolding check_records
  records-keep-silent a p [] s t e h =
      let same : s ≡ t = ground (arith, e) in
      subst (λ (x : System D). All (NotPending a) x.db.alerts) same h
  records-keep-silent a p (rec ∷ todo) s t e h =
      let (u, e1, e2) = chain-some (check_record F W p rec s) (check_records F W p todo) t e in
      records-keep-silent a p todo u t e2 (record-keeps-silent a p rec s u e1 h)

  records-silence :
      (p : D) (rec : AlertRecord D) (todo : List (AlertRecord D)) (s t : System D)
      → Memᴰ rec todo
      → Runs W.sqlite (Statement.trigger rec.id)
      → meets F W rec p ≡ true
      → check_records F W p todo s ≡ some t
      → All (NotPending rec.id) t.db.alerts
  unfolding check_records
  records-silence p rec [] s t m run meet e = elim m [ ]
  records-silence p rec (x ∷ todo) s t (Memᴰ.head same) run meet e =
      let (u, e1, e2) = chain-some (check_record F W p x s) (check_records F W p todo) t e in
      let h =
        record-silences p rec s u run meet
          (subst (λ r. check_record F W p r s ≡ some u) (sym same) e1) in
      records-keep-silent rec.id p todo u t e2 h
  records-silence p rec (x ∷ todo) s t (Memᴰ.tail m) run meet e =
      let (u, e1, e2) = chain-some (check_record F W p x s) (check_records F W p todo) t e in
      records-silence p rec todo u t m run meet e2

  -- After a tick that does not end the process, an alert that was cached under the contract and
  -- whose condition the price meets is no longer pending in the tables, when SQLite runs the
  -- UPDATE of that alert.
  pub check_price_alert-NotPending :
      (contract : Bytes) (p : D) (rec : AlertRecord D) (s t : System D)
      → Memᴰ rec (at_hand contract s)
      → Runs W.sqlite (Statement.trigger rec.id)
      → meets F W rec p ≡ true
      → check_price_alert F W contract p s ≡ some t
      → All (λ r. (r.id ≡ rec.id) → r.status ≢ status_pending) t.db.alerts
  unfolding check_price_alert
  check_price_alert-NotPending contract p rec s t m run meet e =
      let u = store_last_price F W contract p s in
      let m' =
        subst (λ c. Memᴰ rec (cached (lookup text_key contract c)))
          (sym (stored-cache F W contract p s)) m in
      All-imp (NotPending rec.id) (λ r. (r.id ≡ rec.id) → r.status ≢ status_pending) t.db.alerts
        (λ r quiet same pending.
          ground (arith, eq_ℤ_iff r.id rec.id, eq_ℤ_iff r.status status_pending))
        (records-silence p rec (at_hand contract u) u t m' run meet e)
