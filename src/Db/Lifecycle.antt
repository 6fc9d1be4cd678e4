-- ===== src/Db/Lifecycle.antt =====
-- What a call may do to a row of `alerts`: the life of an alert, and who may change it.
use cloud_alert_system.Common.{
  ℕ, ◌≡◌, ◌≢◌, refl, ap, ◌∙◌, ◌⊎◌, inl, inr, Bool, true, List, [], ◌∷◌, arith, Bool-cases, ℤ,
  eq_ℤ_iff, Grows, Grows-refl, Grows-append, Grows-map, Grows-trans, Grows-imp,
}
use cloud_alert_system.Text.{Bytes}
use cloud_alert_system.Double.{Float}
use cloud_alert_system.Protocol.{status_pending, status_deleted}
use cloud_alert_system.Db.{AlertRecord, Db, Sqlite, Statement}
use cloud_alert_system.Db.Users.{complete_user, insert_new_user, register_user, update_email}
use cloud_alert_system.Db.Alerts.{
  owned, untriggered, change_where, set_deleted, set_price_rule, set_time_rule, set_triggered,
  price_row, time_row, update_alerts, insert_alert, add_price_alert, add_time_alert, delete_alert,
  modify_price_alert, modify_time_alert, trigger_alert,
}
use cloud_alert_system.Db.History.{
  Call, perform, replay, update_alerts_cases, insert_alert_cases, register, change_email, add_price,
  add_time, delete, modify_price, modify_time, trigger,
}

module _ {D : Type 0} where
  -- the alert `a` is the user's, and it is not deleted
  abbrev pub OwnedBy : ℤ → ℤ → AlertRecord D → Type 0
  OwnedBy a uid r = (r.id ≡ a) × (r.user_id ≡ uid) × (r.status ≢ status_deleted)

  -- What a call may make of a row.
  abbrev pub Moves : Call D → AlertRecord D → AlertRecord D → Type 0
  Moves (delete a uid) r s = (s ≡ r) ⊎ (OwnedBy a uid r × (s ≡ set_deleted r))
  Moves (modify_price a uid c p cond) r s =
      (s ≡ r) ⊎ (OwnedBy a uid r × (s ≡ set_price_rule c p cond r))
  Moves (modify_time a uid c t) r s = (s ≡ r) ⊎ (OwnedBy a uid r × (s ≡ set_time_rule c t r))
  Moves (trigger a at) r s =
      (s ≡ r) ⊎ ((r.id ≡ a) × (r.status ≡ status_pending) × (s ≡ set_triggered at r))
  Moves _ r s = s ≡ r

  -- what no history changes: the id, the owner, the time of creation, and a deleted alert
  pub record Keeps (r s : AlertRecord D) : Type 0 where
    pub id : s.id ≡ r.id
    pub owner : s.user_id ≡ r.user_id
    pub created : s.created_at ≡ r.created_at
    pub final : r.status ≡ status_deleted → s ≡ r

  Keeps-refl : (r : AlertRecord D) → Keeps r r
  Keeps-refl r = record { id = refl; owner = refl; created = refl; final = λ _. refl }

  Keeps-trans : (r s t : AlertRecord D) → Keeps r s → Keeps s t → Keeps r t
  Keeps-trans r s t h k = record {
    id = k.id ∙ h.id;
    owner = k.owner ∙ h.owner;
    created = k.created ∙ h.created;
    final = λ e. let same = h.final e in k.final (ap (λ x. x.status) same ∙ e) ∙ same;
  }

  pub owned-OwnedBy : (a uid : ℤ) (r : AlertRecord D) → owned a uid r ≡ true → OwnedBy a uid r
  owned-OwnedBy a uid r h =
      ground (arith, eq_ℤ_iff r.id a, eq_ℤ_iff r.user_id uid, eq_ℤ_iff r.status status_deleted)

  owned-Moves :
      (a uid : ℤ) (change : AlertRecord D → AlertRecord D) (r : AlertRecord D)
      → (change_where (owned a uid) change r ≡ r)
        ⊎ (OwnedBy a uid r × (change_where (owned a uid) change r ≡ change r))
  owned-Moves a uid change r = elim (Bool-cases (owned a uid r)) [
    | inl e ↦ inr (owned-OwnedBy a uid r e, rw e)
    | inr e ↦ inl (rw e)
  ]

  untriggered-Moves :
      (a : ℤ) (at : Bytes) (r : AlertRecord D)
      → Moves (trigger a at) r (change_where (untriggered a) (set_triggered at) r)
  untriggered-Moves a at r = ground (arith, eq_ℤ_iff r.id a, eq_ℤ_iff r.status status_pending)

  update_alerts-Grows :
      (S : Sqlite D) (E : AlertRecord D → AlertRecord D → Type 0) (stmt : Statement)
      (hit : AlertRecord D → Bool) (change : AlertRecord D → AlertRecord D) (db : Db D)
      → ((r : AlertRecord D) → E r r)
      → ((r : AlertRecord D) → E r (change_where hit change r))
      → Grows E db.alerts (update_alerts S stmt hit change db).0.alerts
  update_alerts-Grows S E stmt hit change db same change' =
      update_alerts_cases S (λ d. Grows E db.alerts d.alerts) stmt hit change db
        (Grows-refl E same db.alerts) (Grows-map E (change_where hit change) change' db.alerts)

  insert_alert-Grows :
      (S : Sqlite D) (stmt : Statement) (row : ℕ → AlertRecord D) (db : Db D)
      → Grows (λ r s. s ≡ r) db.alerts (insert_alert S stmt row db).0.alerts
  insert_alert-Grows S stmt row db =
      insert_alert_cases S (λ d. Grows (λ r s. s ≡ r) db.alerts d.alerts) stmt row db
        (Grows-refl _ (λ r. refl) db.alerts) (Grows-append _ (λ r. refl) db.alerts (row _ ∷ []))

  users_only-Grows : (db d : Db D) → d.alerts ≡ db.alerts → Grows (λ r s. s ≡ r) db.alerts d.alerts
  users_only-Grows db d e = rw e (Grows-refl _ (λ r. refl) db.alerts)

  pub alerts-register_user :
      (S : Sqlite D) (u p e : Bytes) (db : Db D) → (register_user S u p e db).0.alerts ≡ db.alerts
  unfolding register_user complete_user insert_new_user
  alerts-register_user S u p e db = ground arith

  pub alerts-update_email :
      (S : Sqlite D) (uid : ℤ) (e : Bytes) (db : Db D)
      → (update_email S uid e db).0.alerts ≡ db.alerts
  unfolding update_email
  alerts-update_email S uid e db = ground arith

module _ {D : Type 0} (F : Float D) where
  -- A call loses no row and reorders none, and changes a row only as DELETE or MODIFY of its owner
  -- on an alert that is not deleted, or as the trigger of a pending alert.
  pub perform-Moves :
      (S : Sqlite D) (now : Bytes) (call : Call D) (db : Db D)
      → Grows (Moves call) db.alerts (perform F S now call db).alerts
  unfolding perform add_price_alert add_time_alert delete_alert modify_price_alert modify_time_alert
      trigger_alert
  perform-Moves S now (register u p e) db =
      users_only-Grows db (register_user S u p e db).0 (alerts-register_user S u p e db)
  perform-Moves S now (change_email uid e) db =
      users_only-Grows db (update_email S uid e db).0 (alerts-update_email S uid e db)
  perform-Moves S now (add_price uid c p cond) db =
      insert_alert-Grows S _ (price_row uid c p cond now) db
  perform-Moves S now (add_time uid c t) db =
      insert_alert-Grows S _ (time_row F.zero uid c t now) db
  perform-Moves S now (delete a uid) db =
      update_alerts-Grows S (Moves (delete a uid)) _ (owned a uid) set_deleted db (λ r. inl refl)
        (owned-Moves a uid set_deleted)
  perform-Moves S now (modify_price a uid c p cond) db =
      update_alerts-Grows S (Moves (modify_price a uid c p cond)) _ (owned a uid)
        (set_price_rule c p cond) db (λ r. inl refl) (owned-Moves a uid (set_price_rule c p cond))
  perform-Moves S now (modify_time a uid c t) db =
      update_alerts-Grows S (Moves (modify_time a uid c t)) _ (owned a uid) (set_time_rule c t) db
        (λ r. inl refl) (owned-Moves a uid (set_time_rule c t))
  perform-Moves S now (trigger a at) db =
      update_alerts-Grows S (Moves (trigger a at)) _ (untriggered a) (set_triggered at) db
        (λ r. inl refl) (untriggered-Moves a at)

  Moves-Keeps : (call : Call D) (r s : AlertRecord D) → Moves call r s → Keeps r s
  Moves-Keeps (delete a uid) r s h = ground arith
  Moves-Keeps _ r s h = ground arith

  -- No sequence of calls loses an alert or gives it another id, owner or time of creation, and a
  -- deleted alert stays as it is.
  pub replay-Keeps :
      (db : Db D) (calls : List (Sqlite D × Bytes × Call D))
      → Grows Keeps db.alerts (replay F db calls).alerts
  unfolding replay
  replay-Keeps db [] = Grows-refl Keeps Keeps-refl db.alerts
  replay-Keeps db ((S, now, call) ∷ calls) =
      let next = perform F S now call db in
      Grows-trans Keeps Keeps-trans db.alerts next.alerts (replay F next calls).alerts
        (Grows-imp (Moves call) Keeps db.alerts next.alerts (Moves-Keeps call)
          (perform-Moves S now call db))
        (replay-Keeps next calls)
