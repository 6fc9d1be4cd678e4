-- ===== src/Examples/Tables.antt =====
-- The theorems on the tables, at concrete tables.
use cloud_alert_system.Db.Schema.{DbFile, old, no_table}
use cloud_alert_system.Common.{
  ℕ, ◌≡◌, refl, false, List, [], ◌∷◌, arith, if◌then◌else◌, select, any, count_if, first, pos,
  to_int, Grows,
}
use cloud_alert_system.Db.Alerts.{update_alerts, trigger_alert}
use cloud_alert_system.Db.Queries.{queried, query_alerts}
use cloud_alert_system.Db.Users.{minus_one, find_user, insert_new_user, register_user, verify_login}
use cloud_alert_system.Db.{Sqlite}
use cloud_alert_system.Protocol.{query_all}
use cloud_alert_system.Text.{Bytes, codes, same_text, c_str}
use cloud_alert_system.Examples.{
  prices, sqlite, full_disk, read_only, alice, bob, secret, rb2610, noon, bob_row, tables,
  tables-IsValid,
}
use cloud_alert_system.Db.History.{Call, perform, replay}
use cloud_alert_system.Db.History
use cloud_alert_system.Db.Once.{fires_once}
use cloud_alert_system.Db.Accounts.{verify_login-register_user}
use cloud_alert_system.Db.Takeover.{KeepsAccount, register_user-KeepsAccount, register_user_unsaved}
use cloud_alert_system.Db.Listing.{query_alerts_lem}

-- Alice deletes an alert that fired, and Bob logs in from elsewhere
abbrev calls : List (Sqlite ℕ × Bytes × Call ℕ)
calls =
    (sqlite, noon, History.delete (pos 2) (pos 1))
    ∷ (full_disk, noon, History.trigger (pos 1) noon)
    ∷ (sqlite, noon, History.add_price (pos 2) rb2610 310 (pos 1))
    ∷ []

fires_once_example :
    (trigger_alert sqlite
      (pos 1)
      noon
      (replay prices (trigger_alert sqlite (pos 1) noon tables).0 calls)).1
    ≡ false
fires_once_example =
    fires_once prices sqlite sqlite (pos 1) noon noon tables calls tables-IsValid
      (unfold trigger_alert update_alerts count_if in refl) ((λ x. x), ((λ x. x), ((λ x. x), tt)))

verify_login-register_user_example :
    verify_login sqlite
      (codes "carol")
      secret
      (register_user sqlite (codes "carol") secret (codes "c@x.org") tables).0
    ≡ (if same_text (c_str secret) secret
        then (register_user sqlite (codes "carol") secret (codes "c@x.org") tables).1
        else minus_one)
unfolding same_text c_str any
verify_login-register_user_example =
    verify_login-register_user sqlite sqlite (codes "carol") secret (codes "c@x.org") secret tables
      tables-IsValid (omega arith) refl (refl, refl)
      (unfold register_user find_user first insert_new_user to_int in refl)

register_user-KeepsAccount_example :
    Grows KeepsAccount tables.users (register_user sqlite alice noon noon tables).0.users
register_user-KeepsAccount_example =
    register_user-KeepsAccount sqlite alice noon noon tables tables-IsValid (omega arith)

register_user_unsaved_example :
    ((register_user read_only bob secret noon tables).1 ≡ pos 2)
    × (verify_login sqlite bob secret (register_user read_only bob secret noon tables).0
        ≡ minus_one)
unfolding c_str to_int
register_user_unsaved_example =
    register_user_unsaved read_only sqlite bob secret noon tables bob_row (refl, refl)
      (unfold first same_text in refl) refl refl (λ e. cc) refl refl

query_alerts_lem_example :
    query_alerts sqlite (pos 1) query_all tables ≡ select (queried (pos 1) query_all) tables.alerts
query_alerts_lem_example =
    query_alerts_lem sqlite (pos 1) query_all tables tables-IsValid (omega arith)
      (refl, (unfold select in omega arith))

-- a file with the table of users of an earlier version
abbrev legacy : DbFile ℕ
legacy = record {
  users = old (record { id = pos 1; username = alice; email = [] } ∷ []);
  user_seq = 1;
  alerts = no_table;
  alert_seq = 0;
}
