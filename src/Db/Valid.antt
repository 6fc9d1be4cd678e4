-- ===== src/Db/Valid.antt =====
-- The invariant of the tables: rising rowids, one row for a user name, known codes, and contracts
-- without a NUL.
use cloud_alert_system.Common.{
  ℕ, suc, ◌+◌, ◌<◌, to_int, ◌≡◌, refl, ◌⊎◌, inl, inr, Bool, true, false, List, [], ◌∷◌, ◌++◌, map,
  arith, ℤ, pos, if◌then◌else◌, All, All-append, All-map_self, Rising, Rising-snoc, Rising-map, any,
  Option, none, some,
}
use cloud_alert_system.Text.{Bytes, c_str, c_str-c_str, same_text, same_text_iff}
use cloud_alert_system.Double.{Float}
use cloud_alert_system.Protocol.{
  status_pending, status_triggered, status_deleted, alert_type_price, alert_type_time,
}
use cloud_alert_system.Db.{AlertRecord, UserRow, Db, Sqlite, Statement, check_user, insert_user}
use cloud_alert_system.Db.Users.{
  register_user, register_found, find_user, update_email, insert_new_user, complete_user, new_user,
  set_password, put_email,
}
use cloud_alert_system.Db.Alerts.{
  add_price_alert, add_time_alert, delete_alert, modify_price_alert, modify_time_alert,
  trigger_alert, update_alerts, insert_alert, change_where, owned, untriggered, price_row, time_row,
  set_deleted, set_price_rule, set_time_rule, set_triggered,
}
use cloud_alert_system.Db.History.{
  Call, perform, replay, update_alerts_cases, insert_alert_cases, register, change_email, add_price,
  add_time, delete, modify_price, modify_time, trigger,
}

-- UNIQUE
abbrev pub OneEach : List UserRow → Type 0
OneEach [] = Unit {0}
OneEach (u ∷ us) = (any (λ v. same_text v.username u.username) us ≡ false) × OneEach us

abbrev pub HasCodes : {D : Type 0} → AlertRecord D → Type 0
HasCodes r =
    ((r.status ≡ status_pending) ⊎ ((r.status ≡ status_triggered) ⊎ (r.status ≡ status_deleted)))
    × ((r.alert_type ≡ alert_type_price) ⊎ (r.alert_type ≡ alert_type_time))
    × (c_str r.contract ≡ r.contract)

pub record IsValid {D : Type 0} (db : Db D) : Type 0 where
  pub user_ids : Rising (λ u. u.id) 0 db.users db.user_seq
  pub names : OneEach db.users
  pub alert_ids : Rising (λ r. r.id) 0 db.alerts db.alert_seq
  pub codes : All HasCodes db.alerts

module _ {D : Type 0} (S : Sqlite D) where
  update_alerts-IsValid :
      (stmt : Statement) (hit : AlertRecord D → Bool) (change : AlertRecord D → AlertRecord D)
      (db : Db D)
      → ((r : AlertRecord D) → (change r).id ≡ r.id)
      → ((r : AlertRecord D) → HasCodes r → HasCodes (change r))
      → IsValid db
      → IsValid (update_alerts S stmt hit change db).0
  update_alerts-IsValid stmt hit change db ids codes v =
      update_alerts_cases S IsValid stmt hit change db v (record {
        user_ids = v.user_ids;
        names = v.names;
        alert_ids =
            Rising-map (λ r. r.id) 0 db.alerts db.alert_seq (change_where hit change)
              (λ r. ground (arith, ids r)) v.alert_ids;
        codes =
            All-map_self HasCodes HasCodes (change_where hit change) db.alerts
              (λ r h. at (hit r) r h) v.codes;
      })
    where
      at : (b : Bool) (r : AlertRecord D) → HasCodes r → HasCodes (if b then change r else r)
      at true r h = codes r h
      at false r h = h

  insert_alert-IsValid :
      (stmt : Statement) (row : ℕ → AlertRecord D) (db : Db D)
      → ((n : ℕ) → (row n).id ≡ pos n)
      → ((n : ℕ) → HasCodes (row n))
      → IsValid db
      → IsValid (insert_alert S stmt row db).0
  insert_alert-IsValid stmt row db ids codes v =
      insert_alert_cases S IsValid stmt row db v (record {
        user_ids = v.user_ids;
        names = v.names;
        alert_ids =
            Rising-snoc (λ r. r.id) 0 db.alerts db.alert_seq (row _) _ (ids _) (omega arith)
              v.alert_ids;
        codes = All-append HasCodes db.alerts (row _ ∷ []) v.codes (codes _, tt);
      })

-- An UPDATE of `users` that leaves ids and names.
any-map :
    (name : Bytes) (f : UserRow → UserRow) (us : List UserRow)
    → ((u : UserRow) → (f u).username ≡ u.username)
    → any (λ v. same_text v.username name) (map f us) ≡ any (λ v. same_text v.username name) us
unfolding any
any-map name f [] same = refl
any-map name f (u ∷ us) same = rw (same u, any-map name f us same)

OneEach-map :
    (f : UserRow → UserRow) (us : List UserRow)
    → ((u : UserRow) → (f u).username ≡ u.username)
    → OneEach us
    → OneEach (map f us)
OneEach-map f [] same h = tt
OneEach-map f (u ∷ us) same h =
    (rw (same u, any-map u.username f us same) h.0, OneEach-map f us same h.1)

any-snoc :
    (name : Bytes) (us : List UserRow) (n : UserRow)
    → any (λ v. same_text v.username name) us ≡ false
    → same_text n.username name ≡ false
    → any (λ v. same_text v.username name) (us ++ n ∷ []) ≡ false
unfolding any
any-snoc name [] n h k = ground arith
any-snoc name (u ∷ us) n h k = ground (arith, any-snoc name us n)

OneEach-snoc :
    (us : List UserRow) (n : UserRow)
    → any (λ v. same_text v.username n.username) us ≡ false
    → OneEach us
    → OneEach (us ++ n ∷ [])
unfolding any
OneEach-snoc [] n h v = (refl, tt)
OneEach-snoc (u ∷ us) n h v = (
  any-snoc u.username us n v.0
      (ground (arith, same_text_iff u.username n.username, same_text_iff n.username u.username)),
  OneEach-snoc us n (ground arith) v.1,
)

module _ {D : Type 0} where
  users-IsValid :
      (db : Db D) (f : UserRow → UserRow)
      → ((u : UserRow) → ((f u).id ≡ u.id) × ((f u).username ≡ u.username))
      → IsValid db
      → IsValid (record db { users = map f db.users })
  users-IsValid db f same v = record {
    user_ids = Rising-map (λ u. u.id) 0 db.users db.user_seq f (λ u. (same u).0) v.user_ids;
    names = OneEach-map f db.users (λ u. (same u).1) v.names;
    alert_ids = v.alert_ids;
    codes = v.codes;
  }

  added_user-IsValid :
      (db : Db D) (u : UserRow) (n : ℕ)
      → u.id ≡ pos n
      → db.user_seq < n
      → IsValid db
      → any (λ v. same_text v.username u.username) db.users ≡ false
      → IsValid (record db { users = db.users ++ u ∷ []; user_seq = n })
  added_user-IsValid db u n e h v new = record {
    user_ids = Rising-snoc (λ u. u.id) 0 db.users db.user_seq u n e h v.user_ids;
    names = OneEach-snoc db.users u new v.names;
    alert_ids = v.alert_ids;
    codes = v.codes;
  }

module _ {D : Type 0} (S : Sqlite D) where
  complete_user-IsValid :
      (uid : ℤ) (password email : Bytes) (db : Db D)
      → IsValid db
      → IsValid (complete_user S uid password email db).0
  unfolding complete_user
  complete_user-IsValid uid password email db v = ground (
    arith,
    users-IsValid db (set_password S password email uid) (λ u. (ground arith, ground arith)) v,
  )

  insert_new_user-IsValid :
      (username password email : Bytes) (db : Db D)
      → IsValid db
      → IsValid (insert_new_user S username password email db).0
  unfolding insert_new_user
  insert_new_user-IsValid username password email db v =
      let id = suc (db.user_seq + S.skipped insert_user) in
      ground (
        arith,
        added_user-IsValid db (new_user S username password email id) id refl (omega arith) v,
      )

  register_found-IsValid :
      (username password email : Bytes) (db : Db D) (found : Option UserRow)
      → IsValid db
      → IsValid (register_found S username password email db found).0
  register_found-IsValid username password email db none v =
      insert_new_user-IsValid username password email db v
  register_found-IsValid username password email db (some u) v = ground (
    arith,
    insert_new_user-IsValid username password email db v,
    complete_user-IsValid (to_int u.id) password email db v,
  )

  register_user-IsValid :
      (username password email : Bytes) (db : Db D)
      → IsValid db
      → IsValid (register_user S username password email db).0
  unfolding register_user
  register_user-IsValid username password email db v = ground (
    arith,
    register_found-IsValid username password email db (find_user S check_user username db) v,
  )

  update_email-IsValid :
      (uid : ℤ) (email : Bytes) (db : Db D) → IsValid db → IsValid (update_email S uid email db).0
  unfolding update_email
  update_email-IsValid uid email db v =
      ground (arith, users-IsValid db (put_email S email uid) (λ u. (ground arith, ground arith)) v)

module _ {D : Type 0} (F : Float D) where
  -- Whatever SQLite answers, every method keeps the invariant of the tables.
  pub perform-IsValid :
      (S : Sqlite D) (now : Bytes) (call : Call D) (db : Db D)
      → IsValid db
      → IsValid (perform F S now call db)
  unfolding perform add_price_alert add_time_alert delete_alert modify_price_alert modify_time_alert
      trigger_alert
  perform-IsValid S now (register u p e) db v = register_user-IsValid S u p e db v
  perform-IsValid S now (change_email uid e) db v = update_email-IsValid S uid e db v
  perform-IsValid S now (add_price uid c p cond) db v =
      insert_alert-IsValid S _ (price_row uid c p cond now) db (λ n. refl)
        (λ n. (inl refl, inl refl, c_str-c_str c)) v
  perform-IsValid S now (add_time uid c t) db v =
      insert_alert-IsValid S _ (time_row F.zero uid c t now) db (λ n. refl)
        (λ n. (inl refl, inr refl, c_str-c_str c)) v
  perform-IsValid S now (delete a uid) db v =
      update_alerts-IsValid S _ (owned a uid) set_deleted db (λ r. refl)
        (λ r h. (inr (inr refl), h.1, h.2)) v
  perform-IsValid S now (modify_price a uid c p cond) db v =
      update_alerts-IsValid S _ (owned a uid) (set_price_rule c p cond) db (λ r. refl)
        (λ r h. (inl refl, inl refl, c_str-c_str c)) v
  perform-IsValid S now (modify_time a uid c t) db v =
      update_alerts-IsValid S _ (owned a uid) (set_time_rule c t) db (λ r. refl)
        (λ r h. (inl refl, inr refl, c_str-c_str c)) v
  perform-IsValid S now (trigger a at) db v =
      update_alerts-IsValid S _ (untriggered a) (set_triggered at) db (λ r. refl)
        (λ r h. (inr (inl refl), h.1, h.2)) v

  -- Any sequence of calls of AlertDB keeps the invariant of the tables: ids rise and are drawn, a
  -- name is one user's, states and types have their codes.
  pub replay-IsValid :
      (db : Db D) (calls : List (Sqlite D × Bytes × Call D))
      → IsValid db
      → IsValid (replay F db calls)
  unfolding replay
  replay-IsValid db [] v = v
  replay-IsValid db ((S, now, call) ∷ calls) v =
      replay-IsValid (perform F S now call db) calls (perform-IsValid S now call db v)
