-- ===== src/AlertEngine/Ticks.antt =====
-- What a tick of a contract does: CheckPriceAlert of Server/AlertEngine.cpp.
use cloud_alert_system.Common.{
  ◌≡◌, refl, sym, ap, subst, ◌∙◌, ◌⊎◌, inl, inr, true, false, some, List, [], ◌∷◌, Memᴰ, arith,
  lookup, Grows, Grows-refl, Grows-trans, Grows-imp,
}
use cloud_alert_system.Text.{Bytes, text_key}
use cloud_alert_system.Double.{Float}
use cloud_alert_system.Protocol.{status_pending}
use cloud_alert_system.Db.{AlertRecord}
use cloud_alert_system.Db.Alerts.{set_triggered, trigger_alert}
use cloud_alert_system.World.{World}
use cloud_alert_system.System.{System}
use cloud_alert_system.AlertEngine.{
  at_hand, chain-some, remove_cached_price_alert, fire_alert, meets, check_record, check_records,
  store_last_price, cached, check_price_alert,
}
use cloud_alert_system.Db.History.{Call, perform}
use cloud_alert_system.Db.History
use cloud_alert_system.Db.Lifecycle.{Moves, perform-Moves}

module _ {D : Type 0} (F : Float D) (W : World D) where
  Grows-same :
      (E : AlertRecord D → AlertRecord D → Type 0) (s t : System D)
      → ((r : AlertRecord D) → E r r)
      → s ≡ t
      → Grows E s.db.alerts t.db.alerts
  Grows-same E s t same e =
      subst (λ x. Grows E s.db.alerts x.db.alerts) e (Grows-refl E same s.db.alerts)

  -- the step of one record, on the tables
  pub check_record-db :
      (p : D) (rec : AlertRecord D) (s t : System D)
      → check_record F W p rec s ≡ some t
      → ((meets F W rec p ≡ false) × (t.db ≡ s.db))
        ⊎ ((meets F W rec p ≡ true) × (t.db ≡ (trigger_alert W.sqlite rec.id W.now s.db).0))
  unfolding check_record fire_alert remove_cached_price_alert
  check_record-db p rec s t e = ground arith

  -- What a tick may make of a row: a pending alert whose cached rule the price meets is triggered.
  abbrev pub Fired : List (AlertRecord D) → D → AlertRecord D → AlertRecord D → Type 0
  Fired records p r r' =
      (r' ≡ r)
      ⊎ ((r.status ≡ status_pending)
          × (r' ≡ set_triggered W.now r)
          × (rec : AlertRecord D) × Memᴰ rec records
          × (rec.id ≡ r.id)
          × (meets F W rec p ≡ true))

  Fired-trans :
      (records : List (AlertRecord D)) (p : D) (r s t : AlertRecord D)
      → Fired records p r s
      → Fired records p s t
      → Fired records p r t
  Fired-trans records p r s t (inl e) k = subst (λ x. Fired records p x t) e k
  Fired-trans records p r s t (inr h) (inl e) = inr (h.0, e ∙ h.1, h.2, h.3, h.4, h.5)
  Fired-trans records p r s t (inr h) (inr k) = absurd (ground (arith, k.0, ap (λ x. x.status) h.1))

  Moves-Fired :
      (records : List (AlertRecord D)) (p : D) (rec r r' : AlertRecord D)
      → Memᴰ rec records
      → meets F W rec p ≡ true
      → Moves (History.trigger rec.id W.now) r r'
      → Fired records p r r'
  Moves-Fired records p rec r r' m e (inl same) = inl same
  Moves-Fired records p rec r r' m e (inr h) = inr (h.1, h.2, rec, m, sym h.0, e)

  record-Fired :
      (records : List (AlertRecord D)) (p : D) (rec : AlertRecord D) (s t : System D)
      → Memᴰ rec records
      → check_record F W p rec s ≡ some t
      → Grows (Fired records p) s.db.alerts t.db.alerts
  record-Fired records p rec s t m e =
      let E = Fired records p in
      elim (check_record-db p rec s t e) [
        | inl (_, same) ↦
            subst (λ db. Grows E s.db.alerts db.alerts) (sym same)
              (Grows-refl E (λ r. inl refl) s.db.alerts)
        | inr (meet, done) ↦
            let call = History.trigger rec.id W.now in
            let moves = perform-Moves F W.sqlite W.now call s.db in
            let grown : Grows (Moves call) s.db.alerts
                (trigger_alert W.sqlite rec.id W.now s.db).0.alerts =
              unfold perform in moves in
            subst (λ db. Grows E s.db.alerts db.alerts) (sym done)
              (Grows-imp (Moves call) E s.db.alerts
                (trigger_alert W.sqlite rec.id W.now s.db).0.alerts
                (λ r r' h. Moves-Fired records p rec r r' m meet h) grown)
      ]

  -- the records that are left in the loop are among the cached ones
  records-Fired :
      (records todo : List (AlertRecord D)) (p : D) (s t : System D)
      → ((rec : AlertRecord D) → Memᴰ rec todo → Memᴰ rec records)
      → check_records F W p todo s ≡ some t
      → Grows (Fired records p) s.db.alerts t.db.alerts
  unfolding check_records
  records-Fired records [] p s t sub e =
      Grows-same (Fired records p) s t (λ r. inl refl) (ground (arith, e))
  records-Fired records (rec ∷ todo) p s t sub e =
      let (u, e1, e2) = chain-some (check_record F W p rec s) (check_records F W p todo) t e in
      Grows-trans (Fired records p) (Fired-trans records p) s.db.alerts u.db.alerts t.db.alerts
        (record-Fired records p rec s u (sub rec (Memᴰ.head refl)) e1)
        (records-Fired records todo p u t (λ r m. sub r (Memᴰ.tail m)) e2)

  pub stored-db :
      (contract : Bytes) (p : D) (s : System D) → (store_last_price F W contract p s).db ≡ s.db
  unfolding store_last_price
  stored-db contract p s = ground arith

  pub stored-cache :
      (contract : Bytes) (p : D) (s : System D)
      → (store_last_price F W contract p s).engine.price_alert_cache ≡ s.engine.price_alert_cache
  unfolding store_last_price
  stored-cache contract p s = ground arith

  pub stored-tasks :
      (contract : Bytes) (p : D) (s : System D)
      → (store_last_price F W contract p s).notifier.tasks ≡ s.notifier.tasks
  unfolding store_last_price
  stored-tasks contract p s = ground arith

  -- A tick that does not end the process loses no alert, and changes an alert only from pending to
  -- triggered at the time of the tick, and only when the cache holds a record of it under the
  -- contract whose condition the price meets.
  pub check_price_alert-Fired :
      (contract : Bytes) (p : D) (s t : System D)
      → check_price_alert F W contract p s ≡ some t
      → Grows (Fired (at_hand contract s) p) s.db.alerts t.db.alerts
  unfolding check_price_alert
  check_price_alert-Fired contract p s t e =
      let u = store_last_price F W contract p s in
      let h = records-Fired (at_hand contract u) (at_hand contract u) p u t (λ r m. m) e in
      subst (λ c. Grows (Fired (cached (lookup text_key contract c)) p) s.db.alerts t.db.alerts)
        (stored-cache contract p s)
        (subst (λ db. Grows (Fired (at_hand contract u) p) db.alerts t.db.alerts)
          (stored-db contract p s) h)
