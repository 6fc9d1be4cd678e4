-- ===== src/Db/Users.antt =====
-- The `users` part of Server/AlertDB.cpp.
use cloud_alert_system.Common.{
  ℕ, suc, ◌+◌, Bool, true, false, ◌&&◌, not, Option, none, some, [], ◌∷◌, ◌++◌, map, ℤ, pos, negsuc,
  eq_ℤ, to_int, is_negative, first, any, if◌then◌else◌,
}
use cloud_alert_system.Text.{Bytes, same_text, c_str, is_empty}
use cloud_alert_system.Db.{
  UserRow, Db, Sqlite, Statement, check_user, update_user, insert_user, login, user_id, set_email,
  get_email,
}

abbrev pub minus_one : ℤ
minus_one = negsuc 0

-- WHERE username=?
abbrev pub named : Bytes → UserRow → Bool
named username u = same_text u.username (c_str username)

-- WHERE id=?
abbrev pub has_id : ℤ → UserRow → Bool
has_id uid u = eq_ℤ u.id uid

module _ {D : Type 0} (S : Sqlite D) where
  -- the first step of `SELECT ... FROM users WHERE username=?`
  unfoldable pub find_user : Statement → Bytes → Db D → Option UserRow
  find_user stmt username db = if S.steps stmt then first (named username) db.users else none

  -- UPDATE users SET password=?, email=? WHERE id=?
  abbrev pub set_password : Bytes → Bytes → ℤ → UserRow → UserRow
  set_password password email uid u =
      if has_id uid u then record u { password = c_str password; email = c_str email } else u

  -- The legacy user gets a password; the result of the step is not looked at.
  unfoldable pub complete_user : ℤ → Bytes → Bytes → Db D → Db D × ℤ
  complete_user uid password email db =
      if S.prepares update_user
      then (if S.steps update_user
          then (record db { users = map (set_password password email uid) db.users }, uid)
          else (db, uid))
      else (db, minus_one)

  abbrev pub new_user : Bytes → Bytes → Bytes → ℕ → UserRow
  new_user username password email id = record {
    id = pos id;
    username = c_str username;
    password = c_str password;
    email = c_str email;
  }

  -- INSERT INTO users: refused where the name is there already (UNIQUE).
  unfoldable pub insert_new_user : Bytes → Bytes → Bytes → Db D → Db D × ℤ
  insert_new_user username password email db =
      let id = suc (db.user_seq + S.skipped insert_user) in
      if S.prepares insert_user
      then (if S.steps insert_user && not (any (named username) db.users)
          then (
            record db {
              users = db.users ++ new_user username password email id ∷ [];
              user_seq = id;
            },
            to_int (pos id),
          )
          else (db, minus_one))
      else (db, minus_one)

  abbrev pub register_found : Bytes → Bytes → Bytes → Db D → Option UserRow → Db D × ℤ
  register_found username password email db none = insert_new_user username password email db
  register_found username password email db (some u) =
      if is_negative (to_int u.id)
      then insert_new_user username password email db
      else if is_empty u.password
      then complete_user (to_int u.id) password email db
      else (db, minus_one)

  unfoldable pub register_user : Bytes → Bytes → Bytes → Db D → Db D × ℤ
  register_user username password email db =
      if S.prepares check_user
      then register_found username password email db (find_user check_user username db)
      else (db, minus_one)

  abbrev pub login_found : Bytes → Option UserRow → ℤ
  login_found password none = minus_one
  login_found password (some u) = if same_text u.password password then to_int u.id else minus_one

  unfoldable pub verify_login : Bytes → Bytes → Db D → ℤ
  unfolding find_user
  verify_login username password db =
      if S.prepares login then login_found password (find_user login username db) else minus_one

  abbrev pub id_found : Option UserRow → ℤ
  id_found none = minus_one
  id_found (some u) = to_int u.id

  unfoldable pub get_user_id : Bytes → Db D → ℤ
  unfolding find_user
  get_user_id username db =
      if S.prepares user_id then id_found (find_user user_id username db) else minus_one

  abbrev pub put_email : Bytes → ℤ → UserRow → UserRow
  put_email email uid u = if has_id uid u then record u { email = c_str email } else u

  unfoldable pub update_email : ℤ → Bytes → Db D → Db D × Bool
  update_email uid email db =
      if S.prepares set_email
      then (if S.steps set_email
          then (record db { users = map (put_email email uid) db.users }, true)
          else (db, false))
      else (db, false)

  abbrev pub email_found : Option UserRow → Bytes
  email_found none = []
  email_found (some u) = u.email

  unfoldable pub email_of : ℤ → Db D → Bytes
  email_of uid db =
      if S.prepares get_email
      then (if S.steps get_email then email_found (first (has_id uid) db.users) else [])
      else []
