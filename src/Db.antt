-- ===== src/Db.antt =====
-- Server/AlertDB.h and Server/AlertDB.cpp. The tables are lists of rows, and each SQL statement of
-- the source is the function on rows that its text says. What SQLite answers is a parameter: which
-- statements it prepares, which steps finish, how many rows a SELECT gives before it stops, the
-- order of rows where no ORDER BY fixes it, and the rowid that AUTOINCREMENT draws.
-- Each method holds the object's lock throughout, so that it is one step.
pub mod Users
pub mod Alerts
pub mod Queries
pub mod History
pub mod Valid
pub mod Lifecycle
pub mod Outcome
pub mod Once
pub mod Accounts
pub mod Takeover
pub mod Listing
pub mod Schema
use cloud_alert_system.Common.{ℕ, Bool, List, [], ℤ, Permᴰ}
use cloud_alert_system.Text.{Bytes}

-- The integers of a row; a rowid has 64 bits in SQLite and is cut to an `int` where it is read.
pub record AlertRecord (D : Type 0) : Type 0 where
  pub id : ℤ
  pub user_id : ℤ
  pub alert_type : ℤ
  pub condition : ℤ
  pub status : ℤ
  pub contract : Bytes
  pub trigger_time : Bytes
  pub created_at : Bytes
  pub triggered_at : Bytes
  pub trigger_price : D

pub record UserRow : Type 0 where
  pub id : ℤ
  pub username : Bytes
  pub password : Bytes
  pub email : Bytes

-- `users` and `alerts`, each with the largest rowid that it ever had (sqlite_sequence).
pub record Db (D : Type 0) : Type 0 where
  pub users : List UserRow
  pub user_seq : ℕ
  pub alerts : List (AlertRecord D)
  pub alert_seq : ℕ

-- The statements of AlertDB.cpp, with the values that tell two runs of one apart.
pub data Statement : Type 0 where
  check_user update_user insert_user login user_id set_email get_email : Statement
  add_price add_time delete modify_price modify_time query : Statement
  pending_price pending_time : Bytes → Statement
  trigger : ℤ → Statement
  pending_contracts : Statement

pub record Sqlite (D : Type 0) : Type 0 where
  -- sqlite3_prepare_v2(...) == SQLITE_OK
  pub prepares : Statement → Bool
  -- sqlite3_step(...) == SQLITE_DONE, or SQLITE_ROW where a row matches
  pub steps : Statement → Bool
  -- AUTOINCREMENT draws a rowid above all earlier ones: this many are left out
  pub skipped : Statement → ℕ
  -- the rows that a SELECT gives before sqlite3_step returns anything but SQLITE_ROW
  pub reads : Statement → ℕ
  -- the order of a scan
  pub order : List (AlertRecord D) → List (AlertRecord D)
  pub order-perm : (rows : List (AlertRecord D)) → Permᴰ rows (order rows)
