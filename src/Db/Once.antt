-- ===== src/Db/Once.antt =====
-- How often TriggerAlert of Server/AlertDB.cpp fires an alert.
use cloud_alert_system.Common.{
  ℕ, suc, ◌+◌, ◌≤◌, ◌≡◌, ◌≢◌, refl, ap, inl, inr, Bool, true, false, List, [], ◌∷◌, map, arith,
  Bool-cases, All, All-append, All-map_self, All-member, ℤ, pos, eq_ℤ_iff, number, Rising-member,
}
use cloud_alert_system.Text.{Bytes}
use cloud_alert_system.Double.{Float}
use cloud_alert_system.Protocol.{status_pending}
use cloud_alert_system.Db.{AlertRecord, Db, Sqlite, Statement}
use cloud_alert_system.Db.Users.{complete_user, insert_new_user, register_user, update_email}
use cloud_alert_system.Db.Alerts.{
  owned, untriggered, change_where, set_deleted, set_price_rule, set_time_rule, set_triggered,
  price_row, time_row, update_alerts, insert_alert, add_price_alert, add_time_alert, delete_alert,
  modify_price_alert, modify_time_alert, trigger_alert,
}
use cloud_alert_system.Db.History.{
  Call, perform, replay, update_alerts_cases, insert_alert_cases, register, change_email, add_price,
  add_time, delete, modify_price, modify_time, trigger,
}
use cloud_alert_system.Db.Valid.{IsValid, perform-IsValid}
use cloud_alert_system.Db.Lifecycle.{alerts-register_user, alerts-update_email}
use cloud_alert_system.Db.Outcome.{alerts-update_alerts, trigger_alert_iff}

-- the call sets the alert to pending again
abbrev pub Rearms : {D : Type 0} → ℤ → Call D → Type 0
Rearms a (modify_price b uid c p cond) = b ≡ a
Rearms a (modify_time b uid c t) = b ≡ a
Rearms a _ = ⊥

module _ {D : Type 0} where
  abbrev pub NotPending : ℤ → AlertRecord D → Type 0
  NotPending a r = untriggered a r ≡ false

  -- no row with that id is pending, and none will be added
  record Quiet (a : ℤ) (db : Db D) : Type 0 where
    valid : IsValid db
    drawn : (a ≡ pos (number a)) × (number a ≤ db.alert_seq)
    silent : All (NotPending a) db.alerts

  seq-update_alerts :
      (S : Sqlite D) (stmt : Statement) (hit : AlertRecord D → Bool)
      (change : AlertRecord D → AlertRecord D) (db : Db D)
      → (update_alerts S stmt hit change db).0.alert_seq ≡ db.alert_seq
  unfolding update_alerts
  seq-update_alerts S stmt hit change db = ground arith

  pub update_alerts-silent :
      (S : Sqlite D) (a : ℤ) (stmt : Statement) (hit : AlertRecord D → Bool)
      (change : AlertRecord D → AlertRecord D) (db : Db D)
      → ((r : AlertRecord D) → NotPending a r → NotPending a (change_where hit change r))
      → All (NotPending a) db.alerts
      → All (NotPending a) (update_alerts S stmt hit change db).0.alerts
  update_alerts-silent S a stmt hit change db keep h =
      update_alerts_cases S (λ d. All (NotPending a) d.alerts) stmt hit change db h
        (All-map_self (NotPending a) (NotPending a) (change_where hit change) db.alerts keep h)

  owned-silent :
      (a b uid : ℤ) (change : AlertRecord D → AlertRecord D)
      → ((r : AlertRecord D) → (change r).id ≡ r.id)
      → b ≢ a
      → (r : AlertRecord D) → NotPending a r
      → NotPending a (change_where (owned b uid) change r)
  owned-silent a b uid change ids ne r h = ground (arith, ids r, eq_ℤ_iff r.id b, eq_ℤ_iff r.id a)

  deleted-silent :
      (a b uid : ℤ) (r : AlertRecord D)
      → NotPending a r
      → NotPending a (change_where (owned b uid) set_deleted r)
  deleted-silent a b uid r h = ground arith

  pub triggered-silent :
      (a b : ℤ) (at : Bytes) (r : AlertRecord D)
      → NotPending a r
      → NotPending a (change_where (untriggered b) (set_triggered at) r)
  triggered-silent a b at r h = ground arith

  insert_alert-silent :
      (S : Sqlite D) (a : ℤ) (stmt : Statement) (row : ℕ → AlertRecord D) (db : Db D)
      → ((n : ℕ) → (row n).id ≡ pos n)
      → (a ≡ pos (number a)) × (number a ≤ db.alert_seq)
      → All (NotPending a) db.alerts
      → All (NotPending a) (insert_alert S stmt row db).0.alerts
  insert_alert-silent S a stmt row db ids d h =
      let n = suc (db.alert_seq + S.skipped stmt) in
      insert_alert_cases S (λ d. All (NotPending a) d.alerts) stmt row db h
        (All-append (NotPending a) db.alerts (row n ∷ []) h
          (ground (arith, ids n, eq_ℤ_iff (row n).id a), tt))

  pub seq-trigger_alert :
      (S : Sqlite D) (a : ℤ) (at : Bytes) (db : Db D)
      → (trigger_alert S a at db).0.alert_seq ≡ db.alert_seq
  unfolding trigger_alert
  seq-trigger_alert S a at db =
      seq-update_alerts S (Statement.trigger a) (untriggered a) (set_triggered at) db

  pub All-map :
      (P : AlertRecord D → Type 0) (f : AlertRecord D → AlertRecord D) (rows : List (AlertRecord D))
      → ((r : AlertRecord D) → P (f r))
      → All P (map f rows)
  All-map P f [] h = tt
  All-map P f (r ∷ rows) h = (h r, All-map P f rows h)

  trigger_alert-silent :
      (S : Sqlite D) (a : ℤ) (at : Bytes) (db : Db D)
      → (trigger_alert S a at db).1 ≡ true
      → All (NotPending a) (trigger_alert S a at db).0.alerts
  unfolding trigger_alert
  trigger_alert-silent S a at db fired =
      rw (alerts-update_alerts S (Statement.trigger a) (untriggered a) (set_triggered at) db fired)
        (All-map (NotPending a) (change_where (untriggered a) (set_triggered at)) db.alerts
          (λ r. ground arith))

  silent-trigger_alert :
      (T : Sqlite D) (a : ℤ) (at : Bytes) (db : Db D)
      → All (NotPending a) db.alerts
      → (trigger_alert T a at db).1 ≡ false
  silent-trigger_alert T a at db h = elim (Bool-cases (trigger_alert T a at db).1) [
    | inr e ↦ e
    | inl e ↦
        let (run, row) = (trigger_alert_iff T a at db).0 e in
        let (r, m, t) = row in
        let quiet = All-member (NotPending a) m h in
        absurd (ground (arith, eq_ℤ_iff r.id a, eq_ℤ_iff r.status status_pending))
  ]

  seq-insert_alert :
      (S : Sqlite D) (stmt : Statement) (row : ℕ → AlertRecord D) (db : Db D)
      → db.alert_seq ≤ (insert_alert S stmt row db).0.alert_seq
  unfolding insert_alert
  seq-insert_alert S stmt row db = ground arith

  seq-register_user :
      (S : Sqlite D) (u p e : Bytes) (db : Db D)
      → (register_user S u p e db).0.alert_seq ≡ db.alert_seq
  unfolding register_user complete_user insert_new_user
  seq-register_user S u p e db = ground arith

  seq-update_email :
      (S : Sqlite D) (uid : ℤ) (e : Bytes) (db : Db D)
      → (update_email S uid e db).0.alert_seq ≡ db.alert_seq
  unfolding update_email
  seq-update_email S uid e db = ground arith

module _ {D : Type 0} (F : Float D) where
  perform-seq :
      (S : Sqlite D) (now : Bytes) (call : Call D) (db : Db D)
      → db.alert_seq ≤ (perform F S now call db).alert_seq
  unfolding perform add_price_alert add_time_alert delete_alert modify_price_alert modify_time_alert
      trigger_alert
  perform-seq S now (register u p e) db = omega (arith, seq-register_user S u p e db)
  perform-seq S now (change_email uid e) db = omega (arith, seq-update_email S uid e db)
  perform-seq S now (add_price uid c p cond) db =
      seq-insert_alert S _ (price_row uid c p cond now) db
  perform-seq S now (add_time uid c t) db = seq-insert_alert S _ (time_row F.zero uid c t now) db
  perform-seq S now (delete a uid) db =
      omega (arith, seq-update_alerts S Statement.delete (owned a uid) set_deleted db)
  perform-seq S now (modify_price a uid c p cond) db =
      omega (
        arith,
        seq-update_alerts S Statement.modify_price (owned a uid) (set_price_rule c p cond) db,
      )
  perform-seq S now (modify_time a uid c t) db =
      omega (arith, seq-update_alerts S Statement.modify_time (owned a uid) (set_time_rule c t) db)
  perform-seq S now (trigger a at) db =
      omega (arith, seq-update_alerts S (Statement.trigger a) (untriggered a) (set_triggered at) db)

  perform-silent :
      (S : Sqlite D) (now : Bytes) (a : ℤ) (call : Call D) (db : Db D)
      → ¬ Rearms a call
      → Quiet a db
      → All (NotPending a) (perform F S now call db).alerts
  unfolding perform add_price_alert add_time_alert delete_alert modify_price_alert modify_time_alert
      trigger_alert
  perform-silent S now a (register u p e) db ne q = rw (alerts-register_user S u p e db) q.silent
  perform-silent S now a (change_email uid e) db ne q = rw (alerts-update_email S uid e db) q.silent
  perform-silent S now a (add_price uid c p cond) db ne q =
      insert_alert-silent S a _ (price_row uid c p cond now) db (λ n. refl) q.drawn q.silent
  perform-silent S now a (add_time uid c t) db ne q =
      insert_alert-silent S a _ (time_row F.zero uid c t now) db (λ n. refl) q.drawn q.silent
  perform-silent S now a (delete b uid) db ne q =
      update_alerts-silent S a _ (owned b uid) set_deleted db (deleted-silent a b uid) q.silent
  perform-silent S now a (modify_price b uid c p cond) db ne q =
      update_alerts-silent S a _ (owned b uid) (set_price_rule c p cond) db
        (owned-silent a b uid (set_price_rule c p cond) (λ r. refl) ne) q.silent
  perform-silent S now a (modify_time b uid c t) db ne q =
      update_alerts-silent S a _ (owned b uid) (set_time_rule c t) db
        (owned-silent a b uid (set_time_rule c t) (λ r. refl) ne) q.silent
  perform-silent S now a (trigger b at) db ne q =
      update_alerts-silent S a _ (untriggered b) (set_triggered at) db (triggered-silent a b at)
        q.silent

  replay-Quiet :
      (a : ℤ) (db : Db D) (calls : List (Sqlite D × Bytes × Call D))
      → All (λ c. ¬ Rearms a c.2) calls
      → Quiet a db
      → Quiet a (replay F db calls)
  unfolding replay
  replay-Quiet a db [] ne q = q
  replay-Quiet a db ((S, now, call) ∷ calls) ne q =
      replay-Quiet a (perform F S now call db) calls ne.1 (record {
        valid = perform-IsValid F S now call db q.valid;
        drawn = (q.drawn.0, omega (arith, q.drawn.1, perform-seq S now call db));
        silent = perform-silent S now a call db ne.0 q;
      })

  drawn_row :
      (id : ℤ) {a : ℤ} {n m : ℕ}
      → id ≡ pos (number id)
      → number id ≤ n
      → id ≡ a
      → m ≡ n
      → (a ≡ pos (number a)) × (number a ≤ m)
  drawn_row id e h same seq = (ground (arith, ap number same), omega (arith, ap number same))

  triggered-Quiet :
      (S : Sqlite D) (a : ℤ) (at : Bytes) (db : Db D)
      → IsValid db
      → (trigger_alert S a at db).1 ≡ true
      → Quiet a (trigger_alert S a at db).0
  triggered-Quiet S a at db v fired =
      let row = (trigger_alert_iff S a at db).0 fired in
      let bounds = Rising-member (λ r. r.id) 0 db.alerts db.alert_seq v.alert_ids row.1.1 in
      record {
        valid = unfold perform in perform-IsValid F S at (trigger a at) db v;
        drawn = drawn_row row.1.0.id bounds.0 bounds.2 row.1.2.0 (seq-trigger_alert S a at db);
        silent = trigger_alert-silent S a at db fired;
      }

  -- On tables that keep their invariant, once TriggerAlert has returned true for an alert, it
  -- returns false for it after any further calls of AlertDB of which none modifies that alert,
  -- whatever SQLite answers.
  pub fires_once :
      (S T : Sqlite D) (a : ℤ) (at later : Bytes) (db : Db D)
      (calls : List (Sqlite D × Bytes × Call D))
      → IsValid db
      → (trigger_alert S a at db).1 ≡ true
      → All (λ c. ¬ Rearms a c.2) calls
      → (trigger_alert T a later (replay F (trigger_alert S a at db).0 calls)).1 ≡ false
  fires_once S T a at later db calls v fired ne =
      silent-trigger_alert T a later _
        (replay-Quiet a (trigger_alert S a at db).0 calls ne
          (triggered-Quiet S a at db v fired)).silent
