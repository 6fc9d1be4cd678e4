-- ===== src/Db/Schema.antt =====
-- The start of AlertDB: Init, CreateTables and MigrateSchema of Server/AlertDB.cpp, on the tables that a
-- database file may hold.
use cloud_alert_system.Common.{
  ℕ, ◌≡◌, refl, Bool, true, false, not, Option, none, some, List, [], map, arith, ℤ, if◌then◌else◌,
}
use cloud_alert_system.Text.{Bytes}
use cloud_alert_system.Db.{AlertRecord, UserRow, Db}

-- a row of `users` without the column `password`
pub record OldUser : Type 0 where
  pub id : ℤ
  pub username : Bytes
  pub email : Bytes

-- the table `users`: not there, without the column `password`, with all its columns, or without another
-- column, whose name is given
pub data UserTable : Type 0 where
  absent : UserTable
  old : List OldUser → UserTable
  current : List UserRow → UserTable
  lacking : Bytes → UserTable

-- the table `alerts`: not there, with all its columns, or without a column, whose name is given
pub data AlertTable (D : Type 0) : Type 0 where
  no_table : AlertTable D
  complete : List (AlertRecord D) → AlertTable D
  incomplete : Bytes → AlertTable D

pub record DbFile (D : Type 0) : Type 0 where
  pub users : UserTable
  pub user_seq : ℕ
  pub alerts : AlertTable D
  pub alert_seq : ℕ

-- what SQLite answers: sqlite3_open, the two CREATE TABLE of one sqlite3_exec, and ALTER TABLE where the
-- column is not there
pub record OpenAnswers : Type 0 where
  pub opens : Bool
  pub creates_users : Bool
  pub creates_alerts : Bool
  pub adds_column : Bool

-- CREATE TABLE IF NOT EXISTS users (...); the column `password` is not among its columns
abbrev made_users : UserTable → UserTable
made_users absent = old []
made_users (old rows) = old rows
made_users (current rows) = current rows
made_users (lacking column) = lacking column

abbrev made_alerts : {D : Type 0} → AlertTable D → AlertTable D
made_alerts no_table = complete []
made_alerts (complete rows) = complete rows
made_alerts (incomplete column) = incomplete column

unfoldable pub create_tables : {D : Type 0} → OpenAnswers → DbFile D → DbFile D × Bool
create_tables a f =
    let g = record f { users = made_users f.users } in
    if not a.creates_users
    then (f, false)
    else if not a.creates_alerts
    then (g, false)
    else (record g { alerts = made_alerts g.alerts }, true)

-- ADD COLUMN password TEXT NOT NULL DEFAULT ''
abbrev pub with_password : OldUser → UserRow
with_password u = record { id = u.id; username = u.username; password = []; email = u.email }

abbrev column_added : Bool → UserTable → UserTable
column_added adds absent = absent
column_added adds (current rows) = current rows
column_added adds (lacking column) = lacking column
column_added false (old rows) = old rows
column_added true (old rows) = current (map with_password rows)

-- an error of ALTER TABLE is printed or passed over; the result is always true
unfoldable pub migrate_schema : {D : Type 0} → OpenAnswers → DbFile D → DbFile D
migrate_schema a f = record f { users = column_added a.adds_column f.users }

abbrev after_create : {D : Type 0} → OpenAnswers → DbFile D × Bool → DbFile D × Bool
after_create a (f, true) = (migrate_schema a f, true)
after_create a (f, false) = (f, false)

unfoldable pub init_db : {D : Type 0} → OpenAnswers → DbFile D → DbFile D × Bool
unfolding create_tables migrate_schema
init_db a f = if a.opens then after_create a (create_tables a f) else (f, false)

-- the tables that the statements of AlertDB find, if all their columns are there
abbrev tables_found : {D : Type 0} → DbFile D → UserTable → AlertTable D → Option (Db D)
tables_found f (current rows) (complete alerts) =
    some (record { users = rows; user_seq = f.user_seq; alerts = alerts; alert_seq = f.alert_seq })
tables_found f _ _ = none

unfoldable pub tables_of : {D : Type 0} → DbFile D → Option (Db D)
tables_of f = tables_found f f.users f.alerts

-- the users of a file, as they are seen with the column
abbrev pub users_of : UserTable → List UserRow
users_of absent = []
users_of (old rows) = map with_password rows
users_of (current rows) = rows
users_of (lacking column) = []

abbrev pub alerts_of : {D : Type 0} → AlertTable D → List (AlertRecord D)
alerts_of (complete rows) = rows
alerts_of _ = []

-- a table that is there lacks a column that MigrateSchema does not add
abbrev pub lacks : {D : Type 0} → UserTable → AlertTable D → Bool
lacks (lacking column) alerts = true
lacks users (incomplete column) = true
lacks _ _ = false

abbrev pub all_done : OpenAnswers
all_done = record { opens = true; creates_users = true; creates_alerts = true; adds_column = true }

module _ {D : Type 0} where
  ready-same :
      (f : DbFile D) (db : Db D) (adds : Bool) (us : UserTable) (al : AlertTable D)
      → tables_found f us al ≡ some db
      → (made_users us ≡ us) × (column_added adds us ≡ us) × (made_alerts al ≡ al)
  ready-same f db adds absent al h = absurd (ground (arith, h))
  ready-same f db adds (old us) al h = absurd (ground (arith, h))
  ready-same f db adds (current us) no_table h = absurd (ground (arith, h))
  ready-same f db adds (current us) (complete rows) h = (refl, refl, refl)
  ready-same f db adds (current us) (incomplete column) h = absurd (ground (arith, h))
  ready-same f db adds (lacking column) al h = absurd (ground (arith, h))

  -- A file whose tables have all their columns is left as it is by every Init.
  pub init_db-ready :
      (a : OpenAnswers) (f : DbFile D) (db : Db D) → tables_of f ≡ some db → (init_db a f).0 ≡ f
  unfolding init_db create_tables migrate_schema tables_of
  init_db-ready a f db h =
      let (made, added, kept) = ready-same f db a.adds_column f.users f.alerts h in
      ground (arith, made, added, kept)
