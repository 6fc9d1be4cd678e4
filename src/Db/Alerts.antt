-- ===== src/Db/Alerts.antt =====
-- The `alerts` part of Server/AlertDB.cpp: the statements that write.
use cloud_alert_system.Common.{
  ℕ, suc, ◌+◌, Bool, false, ◌&&◌, not, [], ◌∷◌, ◌++◌, map, ltb, count_if, ℤ, pos, eq_ℤ, to_int,
  if◌then◌else◌,
}
use cloud_alert_system.Text.{Bytes, c_str}
use cloud_alert_system.Double.{Float}
use cloud_alert_system.Protocol.{
  status_pending, status_triggered, status_deleted, alert_type_price, alert_type_time, cond_ge,
}
use cloud_alert_system.Db.{
  AlertRecord, Db, Sqlite, Statement, add_price, add_time, delete, modify_price, modify_time,
  trigger,
}
use cloud_alert_system.Db.Users.{minus_one}

-- WHERE id=? AND user_id=? AND status!=2
abbrev pub owned : {D : Type 0} → ℤ → ℤ → AlertRecord D → Bool
owned alert_id uid r =
    eq_ℤ r.id alert_id && eq_ℤ r.user_id uid && not (eq_ℤ r.status status_deleted)

-- WHERE id=? AND status=0
abbrev pub untriggered : {D : Type 0} → ℤ → AlertRecord D → Bool
untriggered alert_id r = eq_ℤ r.id alert_id && eq_ℤ r.status status_pending

module _ {D : Type 0} where
  -- `UPDATE alerts SET ... WHERE ...` with `change` for SET and `hit` for WHERE
  abbrev pub change_where :
      (AlertRecord D → Bool) → (AlertRecord D → AlertRecord D) → AlertRecord D → AlertRecord D
  change_where hit change r = if hit r then change r else r

  -- SET status=2
  abbrev pub set_deleted : AlertRecord D → AlertRecord D
  set_deleted r = record r { status = status_deleted }

  -- SET contract=?, trigger_price=?, condition=?, alert_type=0, status=0
  -- (a price that is no number is kept, where SQLite stores NULL)
  abbrev pub set_price_rule : Bytes → D → ℤ → AlertRecord D → AlertRecord D
  set_price_rule contract price cond r = record r {
    contract = c_str contract;
    trigger_price = price;
    condition = cond;
    alert_type = alert_type_price;
    status = status_pending;
  }

  -- SET contract=?, trigger_time=?, alert_type=1, status=0
  abbrev pub set_time_rule : Bytes → Bytes → AlertRecord D → AlertRecord D
  set_time_rule contract time r = record r {
    contract = c_str contract;
    trigger_time = c_str time;
    alert_type = alert_type_time;
    status = status_pending;
  }

  -- SET status=1, triggered_at=?
  abbrev pub set_triggered : Bytes → AlertRecord D → AlertRecord D
  set_triggered at r = record r { status = status_triggered; triggered_at = c_str at }

  abbrev pub price_row : ℤ → Bytes → D → ℤ → Bytes → ℕ → AlertRecord D
  price_row uid contract price cond now id = record {
    id = pos id;
    user_id = uid;
    alert_type = alert_type_price;
    condition = cond;
    status = status_pending;
    contract = c_str contract;
    trigger_time = [];
    created_at = c_str now;
    triggered_at = [];
    trigger_price = price;
  }

  abbrev pub time_row : D → ℤ → Bytes → Bytes → Bytes → ℕ → AlertRecord D
  time_row zero uid contract time now id = record {
    id = pos id;
    user_id = uid;
    alert_type = alert_type_time;
    condition = cond_ge;
    status = status_pending;
    contract = c_str contract;
    trigger_time = c_str time;
    created_at = c_str now;
    triggered_at = [];
    trigger_price = zero;
  }

module _ {D : Type 0} (S : Sqlite D) where
  -- an UPDATE of `alerts`, and `sqlite3_changes(m_db) > 0`
  unfoldable pub update_alerts :
      Statement → (AlertRecord D → Bool) → (AlertRecord D → AlertRecord D) → Db D → Db D × Bool
  update_alerts stmt hit change db =
      if S.prepares stmt
      then (if S.steps stmt
          then (
            record db { alerts = map (change_where hit change) db.alerts },
            ltb 0 (count_if hit db.alerts),
          )
          else (db, false))
      else (db, false)

  -- an INSERT into `alerts`, and `(int)sqlite3_last_insert_rowid(m_db)`
  unfoldable pub insert_alert : Statement → (ℕ → AlertRecord D) → Db D → Db D × ℤ
  insert_alert stmt row db =
      let id = suc (db.alert_seq + S.skipped stmt) in
      if S.prepares stmt
      then (if S.steps stmt
          then (record db { alerts = db.alerts ++ row id ∷ []; alert_seq = id }, to_int (pos id))
          else (db, minus_one))
      else (db, minus_one)

  -- `now` is CurrentTimestamp()
  unfoldable pub add_price_alert : Bytes → ℤ → Bytes → D → ℤ → Db D → Db D × ℤ
  unfolding insert_alert
  add_price_alert now uid contract price cond =
      insert_alert add_price (price_row uid contract price cond now)

  unfoldable pub add_time_alert : Float D → Bytes → ℤ → Bytes → Bytes → Db D → Db D × ℤ
  unfolding insert_alert
  add_time_alert F now uid contract time =
      insert_alert add_time (time_row F.zero uid contract time now)

  unfoldable pub delete_alert : ℤ → ℤ → Db D → Db D × Bool
  unfolding update_alerts
  delete_alert alert_id uid = update_alerts delete (owned alert_id uid) set_deleted

  unfoldable pub modify_price_alert : ℤ → ℤ → Bytes → D → ℤ → Db D → Db D × Bool
  unfolding update_alerts
  modify_price_alert alert_id uid contract price cond =
      update_alerts modify_price (owned alert_id uid) (set_price_rule contract price cond)

  unfoldable pub modify_time_alert : ℤ → ℤ → Bytes → Bytes → Db D → Db D × Bool
  unfolding update_alerts
  modify_time_alert alert_id uid contract time =
      update_alerts modify_time (owned alert_id uid) (set_time_rule contract time)

  unfoldable pub trigger_alert : ℤ → Bytes → Db D → Db D × Bool
  unfolding update_alerts
  trigger_alert alert_id at =
      update_alerts (trigger alert_id) (untriggered alert_id) (set_triggered at)
