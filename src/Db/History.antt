-- ===== src/Db/History.antt =====
-- The methods of AlertDB that write, as calls, and any sequence of them. Each call meets a SQLite
-- of its own, so that a statement may fail at one call and be done at the next.
use cloud_alert_system.Common.{ℕ, suc, ◌+◌, Bool, List, [], ◌∷◌, ◌++◌, map, arith, ℤ}
use cloud_alert_system.Text.{Bytes}
use cloud_alert_system.Double.{Float}
use cloud_alert_system.Db.{AlertRecord, Db, Sqlite, Statement}
use cloud_alert_system.Db.Users.{register_user, update_email}
use cloud_alert_system.Db.Alerts.{
  add_price_alert, add_time_alert, delete_alert, modify_price_alert, modify_time_alert,
  trigger_alert, update_alerts, insert_alert, change_where,
}

pub data Call (D : Type 0) : Type 0 where
  register : Bytes → Bytes → Bytes → Call D
  change_email : ℤ → Bytes → Call D
  add_price : ℤ → Bytes → D → ℤ → Call D
  add_time : ℤ → Bytes → Bytes → Call D
  delete : ℤ → ℤ → Call D
  modify_price : ℤ → ℤ → Bytes → D → ℤ → Call D
  modify_time : ℤ → ℤ → Bytes → Bytes → Call D
  trigger : ℤ → Bytes → Call D

module _ {D : Type 0} (F : Float D) where
  -- the tables after a call, made when the clock shows `now`
  unfoldable pub perform : Sqlite D → Bytes → Call D → Db D → Db D
  perform S now (register u p e) db = (register_user S u p e db).0
  perform S now (change_email uid e) db = (update_email S uid e db).0
  perform S now (add_price uid c p cond) db = (add_price_alert S now uid c p cond db).0
  perform S now (add_time uid c t) db = (add_time_alert S F now uid c t db).0
  perform S now (delete a uid) db = (delete_alert S a uid db).0
  perform S now (modify_price a uid c p cond) db = (modify_price_alert S a uid c p cond db).0
  perform S now (modify_time a uid c t) db = (modify_time_alert S a uid c t db).0
  perform S now (trigger a at) db = (trigger_alert S a at db).0

  unfoldable pub replay : Db D → List (Sqlite D × Bytes × Call D) → Db D
  replay db [] = db
  replay db ((S, now, call) ∷ calls) = replay (perform S now call db) calls

module _ {D : Type 0} (S : Sqlite D) where
  -- What holds of the tables before an UPDATE and after it holds whatever SQLite answers.
  pub update_alerts_cases :
      (P : Db D → Type 0) (stmt : Statement) (hit : AlertRecord D → Bool)
      (change : AlertRecord D → AlertRecord D) (db : Db D)
      → P db
      → P (record db { alerts = map (change_where hit change) db.alerts })
      → P (update_alerts S stmt hit change db).0
  unfolding update_alerts
  update_alerts_cases P stmt hit change db before after = ground arith

  pub insert_alert_cases :
      (P : Db D → Type 0) (stmt : Statement) (row : ℕ → AlertRecord D) (db : Db D)
      → P db
      → (let id = suc (db.alert_seq + S.skipped stmt) in
          P (record db { alerts = db.alerts ++ row id ∷ []; alert_seq = id }))
      → P (insert_alert S stmt row db).0
  unfolding insert_alert
  insert_alert_cases P stmt row db before after = ground arith
