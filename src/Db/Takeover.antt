-- ===== src/Db/Takeover.antt =====
-- Which rows RegisterUser of Server/AlertDB.cpp changes.
use cloud_alert_system.Common.{
  ℕ, suc, ◌+◌, ◌^◌, ◌<◌, ◌≡◌, ◌≢◌, refl, ap, ◌∙◌, ◌⊎◌, inl, inr, Bool, true, false, Option, none,
  some, List, [], ◌∷◌, map, Memᴰ, arith, Bool-cases, if◌then◌else◌, first, eq_ℤ_iff, is_negative,
  to_int, Rising-inj, Grows, Grows-refl, Grows-append,
}
use cloud_alert_system.Text.{Bytes, is_empty, same_text, same_text_iff}
use cloud_alert_system.Db.{UserRow, Db, Sqlite}
use cloud_alert_system.Db.Users.{
  minus_one, named, has_id, find_user, set_password, complete_user, new_user, insert_new_user,
  register_found, register_user, verify_login,
}
use cloud_alert_system.Db.{check_user, update_user, insert_user}
use cloud_alert_system.Db.Valid.{IsValid}
use cloud_alert_system.Db.Accounts.{Runs, small_id, find_user-first, first-member}

-- an account with a password stays as it is
abbrev pub KeepsAccount : UserRow → UserRow → Type 0
KeepsAccount u w = u.password ≢ [] → w ≡ u

module _ {D : Type 0} (S : Sqlite D) where
  insert_new_user-keeps :
      (username password email : Bytes) (db : Db D)
      → Grows KeepsAccount db.users (insert_new_user S username password email db).0.users
  unfolding insert_new_user
  insert_new_user-keeps username password email db =
      let u = new_user S username password email (suc (db.user_seq + S.skipped insert_user)) in
      ground (
        arith,
        Grows-refl KeepsAccount (λ u _. refl) db.users,
        Grows-append KeepsAccount (λ u _. refl) db.users (u ∷ []),
      )

  -- Only the row `u`, whose password is empty, is rewritten.
  set_password-keeps :
      (password email : Bytes) (u : UserRow) (low : ℕ) (rows : List UserRow) (high : ℕ)
      → (u.password ≡ [])
      → ((w : UserRow) → Memᴰ w rows → w.id ≡ u.id → w ≡ u)
      → Grows KeepsAccount rows (map (set_password S password email u.id) rows)
  set_password-keeps password email u low [] high e same = tt
  set_password-keeps password email u low (w ∷ rows) high e same = (
    λ ne. elim (Bool-cases (has_id u.id w)) [
      | inl hit ↦
          absurd
            (ne (ap (λ x. x.password) (same w (Memᴰ.head refl) ((eq_ℤ_iff w.id u.id).0 hit)) ∙ e))
      | inr miss ↦ rw miss
    ],
    set_password-keeps password email u low rows high e (λ x m. same x (Memᴰ.tail m)),
  )

  complete_user-keeps :
      (password email : Bytes) (db : Db D) (u : UserRow)
      → IsValid db
      → Memᴰ u db.users
      → u.password ≡ []
      → Grows KeepsAccount db.users (complete_user S u.id password email db).0.users
  unfolding complete_user
  complete_user-keeps password email db u v m e = ground (
    arith,
    Grows-refl KeepsAccount (λ u _. refl) db.users,
    set_password-keeps password email u 0 db.users db.user_seq e
        (λ w n same. Rising-inj (λ u. u.id) 0 db.users db.user_seq v.user_ids n m same),
  )

  register_found-keeps :
      (username password email : Bytes) (db : Db D) (found : Option UserRow)
      → ((u : UserRow) → found ≡ some u → Memᴰ u db.users × (to_int u.id ≡ u.id))
      → IsValid db
      → Grows KeepsAccount db.users (register_found S username password email db found).0.users
  register_found-keeps username password email db none is v =
      insert_new_user-keeps username password email db
  register_found-keeps username password email db (some u) is v =
      let (m, small) = is u refl in
      rw small (by (is_negative u.id) (Bool-cases (is_empty u.password)) u.password refl m)
    where
      empty_nil : (p : Bytes) → is_empty p ≡ true → p ≡ []
      empty_nil [] h = refl
      empty_nil (c ∷ s) h = absurd (cc)

      by :
          (negative : Bool)
          → ((is_empty u.password ≡ true) ⊎ (is_empty u.password ≡ false))
          → (p : Bytes) → u.password ≡ p
          → Memᴰ u db.users
          → Grows KeepsAccount db.users
              (if negative
                then insert_new_user S username password email db
                else if is_empty u.password
                then complete_user S u.id password email db
                else (db, minus_one)).0.users
      by true _ p e m = insert_new_user-keeps username password email db
      by false (inl h) p e m =
          rw h (complete_user-keeps password email db u v m (empty_nil u.password h))
      by false (inr h) p e m = rw h (Grows-refl KeepsAccount (λ u _. refl) db.users)

  -- On tables that keep their invariant, no registration changes the row of a user who has a
  -- password, while no more than 2^31 - 1 user ids were drawn.
  pub register_user-KeepsAccount :
      (username password email : Bytes) (db : Db D)
      → IsValid db
      → db.user_seq < 2 ^ 31
      → Grows KeepsAccount db.users (register_user S username password email db).0.users
  unfolding register_user
  register_user-KeepsAccount username password email db v small =
      elim (Bool-cases (S.prepares check_user)) [
        | inl e ↦ rw e (
            register_found-keeps username password email db (find_user S check_user username db)
              (λ u found.
                let m =
                  (first-member (named username) db.users
                    (find_user-first S check_user username db found)).0 in
                (m, small_id db v small m))
              v)
        | inr e ↦ rw e (Grows-refl KeepsAccount (λ u _. refl) db.users)
      ]

  -- When the SELECT of RegisterUser finds a user without a password, whose id is not negative as
  -- an int, and the step of its UPDATE fails, RegisterUser returns the id of that user as it does
  -- for a registration, and yet every VerifyLogin on the tables that it leaves refuses the
  -- password that was registered, if that is not empty.
  pub register_user_unsaved :
      (T : Sqlite D) (username password email : Bytes) (db : Db D) (u : UserRow)
      → Runs S check_user
      → first (named username) db.users ≡ some u
      → is_negative (to_int u.id) ≡ false
      → u.password ≡ []
      → password ≢ []
      → S.prepares update_user ≡ true
      → S.steps update_user ≡ false
      → let r = register_user S username password email db in
        (r.1 ≡ to_int u.id) × (verify_login T username password r.0 ≡ minus_one)
  unfolding register_user verify_login find_user complete_user
  register_user_unsaved T username password email db u run found old empty ne prepared failed =
      let miss : same_text u.password password ≡ false =
        ground (arith, same_text_iff u.password password, empty, ne) in
      (ground arith, ground arith)
