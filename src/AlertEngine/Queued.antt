-- ===== src/AlertEngine/Queued.antt =====
-- What a tick of a contract queues: CheckPriceAlert of Server/AlertEngine.cpp.
use mathlib.Core.List.{append-nil, append_assoc}
use cloud_alert_system.Common.{
  ◌≡◌, refl, sym, ap, subst, ◌∙◌, ◌⊎◌, inl, inr, Bool, true, false, Option, some, List, [], ◌∷◌,
  ◌++◌, Memᴰ, arith, Bool-cases, All, All-append, lookup,
}
use cloud_alert_system.Text.{Bytes, text_key, format_into}
use cloud_alert_system.Double.{Float}
use cloud_alert_system.Db.{AlertRecord, Db}
use cloud_alert_system.Db.Alerts.{trigger_alert}
use cloud_alert_system.World.{World}
use cloud_alert_system.Notifier.{NotifyTask, notify}
use cloud_alert_system.System.{System}
use cloud_alert_system.AlertEngine.{
  at_hand, chain-some, remove_cached_price_alert, alert_task, fire_alert, meets, after_trigger,
  check_record, check_records, store_last_price, cached, check_price_alert,
}
use cloud_alert_system.AlertEngine.Message.{triggered_line}
use cloud_alert_system.AlertEngine.Ticks.{stored-cache, stored-tasks}

module _ {D : Type 0} (F : Float D) (W : World D) where
  -- the notification of a record at this price
  abbrev pub Tells : List (AlertRecord D) → D → NotifyTask → Type 0
  Tells records p task =
      (rec : AlertRecord D) × Memᴰ rec records
      × (meets F W rec p ≡ true)
      × (task.user_id ≡ rec.user_id)
      × (task.msg ≡ triggered_line F rec p W.now)

  -- tasks may be added at the end, each of which tells of one of the records
  abbrev pub Adds : List (AlertRecord D) → D → System D → System D → Type 0
  Adds records p s t =
      (new : List NotifyTask) × (t.notifier.tasks ≡ s.notifier.tasks ++ new)
      × All (Tells records p) new

  alert_task-Tells :
      (rec : AlertRecord D) (p : D) (db : Db D) (task : NotifyTask)
      → alert_task F W rec p W.now db ≡ some task
      → (task.user_id ≡ rec.user_id) × (task.msg ≡ triggered_line F rec p W.now)
  unfolding alert_task format_into
  alert_task-Tells rec p db task e = (ground arith, ground arith)

  notify-tasks :
      (task : NotifyTask) (s : System D)
      → ((notify task s.notifier).tasks ≡ s.notifier.tasks)
        ⊎ ((notify task s.notifier).tasks ≡ s.notifier.tasks ++ task ∷ [])
  unfolding notify
  notify-tasks task s = ground arith

  fired-task :
      (p : D) (rec : AlertRecord D) (s t : System D)
      → fire_alert F W rec p W.now s ≡ some t
      → (t.notifier.tasks ≡ s.notifier.tasks)
        ⊎ ((task : NotifyTask) × (alert_task F W rec p W.now s.db ≡ some task)
            × (t.notifier.tasks ≡ s.notifier.tasks ++ task ∷ []))
  unfolding fire_alert
  fired-task p rec s t e =
      let (task, e1, e2) =
        chain-some (alert_task F W rec p W.now s.db)
          (λ task. some (record s { notifier = notify task s.notifier })) t e in
      let h = notify-tasks task s in
      elim h [
        | inl same ↦ inl (ground (arith, e2, same))
        | inr added ↦ inr (task, e1, ground (arith, e2, added))
      ]

  after-cases :
      (s : System D) (r : Db D × Bool) (fire : System D → Option (System D)) (t : System D)
      → after_trigger F W s r fire ≡ some t
      → (some (record s { db = r.0 }) ≡ some t) ⊎ (fire (record s { db = r.0 }) ≡ some t)
  after-cases s (db, true) fire t e = inr e
  after-cases s (db, false) fire t e = inl e

  same-Adds :
      (records : List (AlertRecord D)) (p : D) (s t : System D)
      → t.notifier.tasks ≡ s.notifier.tasks
      → Adds records p s t
  same-Adds records p s t e = ([], e ∙ sym (append-nil s.notifier.tasks), tt)

  fired-Adds :
      (records : List (AlertRecord D)) (p : D) (rec : AlertRecord D) (s u t : System D)
      → Memᴰ rec records
      → meets F W rec p ≡ true
      → u.notifier.tasks ≡ s.notifier.tasks
      → fire_alert F W rec p W.now u ≡ some t
      → Adds records p s t
  fired-Adds records p rec s u t m meet same e = elim (fired-task p rec u t e) [
    | inl h ↦ same-Adds records p s t (h ∙ same)
    | inr (task, made, h) ↦
        let told = alert_task-Tells rec p u.db task made in
        (task ∷ [], h ∙ ap (λ ts. ts ++ task ∷ []) same, ((rec, m, meet, told.0, told.1), tt))
  ]

  record-Adds :
      (records : List (AlertRecord D)) (p : D) (rec : AlertRecord D) (s t : System D)
      → Memᴰ rec records
      → check_record F W p rec s ≡ some t
      → Adds records p s t
  unfolding check_record
  record-Adds records p rec s t m e =
      let (db, hit) = trigger_alert W.sqlite rec.id W.now s.db in
      let fire : System D → Option (System D) =
        λ u. fire_alert F W rec p W.now (remove_cached_price_alert rec.id u) in
      elim (Bool-cases (meets F W rec p)) [
        | inr unmet ↦ same-Adds records p s t (ground (arith, e, unmet))
        | inl met ↦ elim (after-cases s (db, hit) fire t (rw met at e)) [
          | inl h ↦ same-Adds records p s t (ground (arith, h))
          | inr h ↦
              fired-Adds records p rec s (remove_cached_price_alert rec.id (record s { db = db })) t
                m met (unfold remove_cached_price_alert in refl) h
        ]
      ]

  records-Adds :
      (records todo : List (AlertRecord D)) (p : D) (s t : System D)
      → ((rec : AlertRecord D) → Memᴰ rec todo → Memᴰ rec records)
      → check_records F W p todo s ≡ some t
      → Adds records p s t
  unfolding check_records
  records-Adds records [] p s t sub e = same-Adds records p s t (ground (arith, e))
  records-Adds records (rec ∷ todo) p s t sub e =
      let (u, e1, e2) = chain-some (check_record F W p rec s) (check_records F W p todo) t e in
      let (new1, h1, all1) = record-Adds records p rec s u (sub rec (Memᴰ.head refl)) e1 in
      let (new2, h2, all2) = records-Adds records todo p u t (λ r m. sub r (Memᴰ.tail m)) e2 in
      (
        new1 ++ new2,
        h2 ∙ ap (λ ts. ts ++ new2) h1 ∙ append_assoc s.notifier.tasks new1 new2,
        All-append (Tells records p) new1 new2 all1 all2,
      )

  -- A tick that does not end the process only appends to the queue of the notifier, and each new
  -- task is for the owner of a cached record whose condition the price meets, with that record's
  -- TRIGGERED line.
  pub check_price_alert-Adds :
      (contract : Bytes) (p : D) (s t : System D)
      → check_price_alert F W contract p s ≡ some t
      → Adds (at_hand contract s) p s t
  unfolding check_price_alert
  check_price_alert-Adds contract p s t e =
      let u = store_last_price F W contract p s in
      let (new, h, told) =
        records-Adds (at_hand contract u) (at_hand contract u) p u t (λ r m. m) e in
      (
        new,
        h ∙ ap (λ ts. ts ++ new) (stored-tasks F W contract p s),
        subst (λ c. All (Tells (cached (lookup text_key contract c)) p) new)
            (stored-cache F W contract p s) told,
      )
