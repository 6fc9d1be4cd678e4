-- ===== src/Db/Accounts.antt =====
-- RegisterUser and VerifyLogin together: what a registration promises the later login.
use cloud_alert_system.Common.{
  suc, ◌+◌, ◌^◌, ◌<◌, ◌≡◌, refl, inl, inr, Bool, true, false, Option, none, some, List, [], ◌∷◌,
  ◌++◌, map, Memᴰ, arith, Bool-cases, if◌then◌else◌, any, first, ℤ, eq_ℤ_iff, is_negative, to_int,
  to_int_id, Rising-member,
}
use cloud_alert_system.Text.{Bytes, same_text, same_text_iff, is_empty, c_str}
use cloud_alert_system.Db.{UserRow, Db, Sqlite, Statement}
use cloud_alert_system.Db.Users.{
  minus_one, named, find_user, set_password, complete_user, new_user, insert_new_user,
  register_found, register_user, verify_login,
}
use cloud_alert_system.Db.{check_user, update_user, insert_user, login}
use cloud_alert_system.Db.Valid.{IsValid}

-- Both calls of SQLite go well.
abbrev pub Runs : {D : Type 0} → Sqlite D → Statement → Type 0
Runs S stmt = (S.prepares stmt ≡ true) × (S.steps stmt ≡ true)

module _ {A : Type 0} (p : A → Bool) where
  first-append :
      (xs : List A) (x : A) → any p xs ≡ false → p x ≡ true → first p (xs ++ x ∷ []) ≡ some x
  unfolding first any
  first-append [] x h t = ground arith
  first-append (y ∷ xs) x h t = ground (arith, first-append xs x)

  first-map :
      (f : A → A) (xs : List A) {x : A}
      → ((y : A) → p (f y) ≡ p y)
      → first p xs ≡ some x
      → first p (map f xs) ≡ some (f x)
  unfolding first
  first-map f [] same h = cc
  first-map f (y ∷ xs) {x} same h = elim (Bool-cases (p y)) [
    | inl e ↦ ground (arith, same y)
    | inr e ↦ rw (same y, e, first) (first-map f xs same (rw (e, first) at h))
  ]

  pub first-member : (xs : List A) {x : A} → first p xs ≡ some x → Memᴰ x xs × (p x ≡ true)
  unfolding first
  first-member [] h = absurd (cc)
  first-member (y ∷ xs) {x} h = elim (Bool-cases (p y)) [
    | inl e ↦ (Memᴰ.head (ground arith), ground arith)
    | inr e ↦ let (m, t) = first-member xs (rw (e, first) at h) in (Memᴰ.tail m, t)
  ]

  first-none : (xs : List A) → any p xs ≡ false → first p xs ≡ none
  unfolding first any
  first-none [] h = refl
  first-none (y ∷ xs) h = ground (arith, first-none xs)

module _ {D : Type 0} where
  -- the first row of that name has this id and this password
  abbrev Holds : Bytes → Bytes → ℤ → Db D → Type 0
  Holds username password uid db =
      (u : UserRow) × (first (named username) db.users ≡ some u)
      × (to_int u.id ≡ uid)
      × (u.password ≡ c_str password)

  verify_login-Holds :
      (T : Sqlite D) (username password entered : Bytes) (uid : ℤ) (db : Db D)
      → Runs T login
      → Holds username password uid db
      → verify_login T username entered db
        ≡ (if same_text (c_str password) entered then uid else minus_one)
  unfolding verify_login find_user
  verify_login-Holds T username password entered uid db run (u, found, id, stored) = ground arith

  insert_new_user-Holds :
      (S : Sqlite D) (username password email : Bytes) (db : Db D)
      → is_negative (insert_new_user S username password email db).1 ≡ false
      → Holds username password
          (insert_new_user S username password email db).1
          (insert_new_user S username password email db).0
  unfolding insert_new_user
  insert_new_user-Holds S username password email db h =
      let id = suc (db.user_seq + S.skipped insert_user) in
      let u = new_user S username password email id in
      (
        u,
        ground (
          arith,
          first-append (named username) db.users u,
          same_text_iff (c_str username) (c_str username),
        ),
        ground arith,
        refl,
      )

  complete_user-Holds :
      (S : Sqlite D) (username password email : Bytes) (db : Db D) (u : UserRow)
      → S.steps update_user ≡ true
      → first (named username) db.users ≡ some u
      → to_int u.id ≡ u.id
      → is_negative (complete_user S (to_int u.id) password email db).1 ≡ false
      → Holds username password
          (complete_user S (to_int u.id) password email db).1
          (complete_user S (to_int u.id) password email db).0
  unfolding complete_user
  complete_user-Holds S username password email db u step found small h =
      let f = set_password S password email (to_int u.id) in
      (
        f u,
        ground (arith, first-map (named username) f db.users (λ y. ground arith) found),
        ground (arith, eq_ℤ_iff u.id (to_int u.id)),
        ground (arith, eq_ℤ_iff u.id (to_int u.id)),
      )

  pub small_id :
      (db : Db D) {u : UserRow}
      → IsValid db
      → db.user_seq < 2 ^ 31
      → Memᴰ u db.users
      → to_int u.id ≡ u.id
  small_id db {u} v small m =
      let h = Rising-member (λ u. u.id) 0 db.users db.user_seq v.user_ids m in
      to_int_id u.id (rw h.0 (omega (arith, h.2)))

  register_found-Holds :
      (S : Sqlite D) (username password email : Bytes) (db : Db D) (found : Option UserRow)
      → ((u : UserRow) → found ≡ some u → first (named username) db.users ≡ some u)
      → IsValid db
      → db.user_seq < 2 ^ 31
      → S.steps update_user ≡ true
      → is_negative (register_found S username password email db found).1 ≡ false
      → Holds username password
          (register_found S username password email db found).1
          (register_found S username password email db found).0
  register_found-Holds S username password email db none is v small step h =
      insert_new_user-Holds S username password email db h
  register_found-Holds S username password email db (some u) is v small step h =
      let found = is u refl in
      let same = small_id db v small (first-member (named username) db.users found).0 in
      by_id (is_negative (to_int u.id)) (is_empty u.password) found same h
    where
      by_id :
          (negative empty : Bool)
          → first (named username) db.users ≡ some u
          → to_int u.id ≡ u.id
          → (let r =
                if negative
                then insert_new_user S username password email db
                else if empty
                then complete_user S (to_int u.id) password email db
                else (db, minus_one) in
              is_negative r.1 ≡ false → Holds username password r.1 r.0)
      by_id true _ found same h = insert_new_user-Holds S username password email db h
      by_id false true found same h =
          complete_user-Holds S username password email db u step found same h
      by_id false false found same h = absurd (cc)

  pub find_user-first :
      (S : Sqlite D) (stmt : Statement) (name : Bytes) (db : Db D) {u : UserRow}
      → find_user S stmt name db ≡ some u
      → first (named name) db.users ≡ some u
  unfolding find_user
  find_user-first S stmt name db found = ground arith

  register_user-Holds :
      (S : Sqlite D) (username password email : Bytes) (db : Db D)
      → IsValid db
      → db.user_seq < 2 ^ 31
      → S.steps update_user ≡ true
      → is_negative (register_user S username password email db).1 ≡ false
      → Holds username password
          (register_user S username password email db).1
          (register_user S username password email db).0
  unfolding register_user
  register_user-Holds S username password email db v small step h =
      elim (Bool-cases (S.prepares check_user)) [
        | inl e ↦ rw e (
            register_found-Holds S username password email db (find_user S check_user username db)
              (λ u found. find_user-first S check_user username db found) v small step (rw e at h))
        | inr e ↦ absurd (ground arith)
      ]

  -- On tables that keep their invariant, while no more than 2^31 - 1 user ids were drawn: after a
  -- registration that returned a user id, and whose UPDATE is done where it needs one, a
  -- VerifyLogin that SQLite runs returns that id for the password up to its first NUL, and -1 for
  -- any other.
  pub verify_login-register_user :
      (S T : Sqlite D) (username password email entered : Bytes) (db : Db D)
      → IsValid db
      → db.user_seq < 2 ^ 31
      → S.steps update_user ≡ true
      → Runs T login
      → is_negative (register_user S username password email db).1 ≡ false
      → verify_login T username entered (register_user S username password email db).0 ≡ (
          if same_text (c_str password) entered
          then (register_user S username password email db).1
          else minus_one)
  verify_login-register_user S T username password email entered db v small step run h =
      verify_login-Holds T username password entered _ _ run
        (register_user-Holds S username password email db v small step h)
