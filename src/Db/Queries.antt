-- ===== src/Db/Queries.antt =====
-- The queries of Server/AlertDB.cpp.
use cloud_alert_system.Common.{
  Bool, true, false, ◌&&◌, List, [], ◌∷◌, map, take, leb, select, any, ℤ, pos, negsuc, eq_ℤ, to_int,
  if◌then◌else◌,
}
use cloud_alert_system.Text.{Bytes, same_text, c_str}
use cloud_alert_system.Protocol.{status_pending, alert_type_price, alert_type_time, query_all}
use cloud_alert_system.Db.{
  AlertRecord, Db, Sqlite, Statement, query, pending_price, pending_time, pending_contracts,
}

-- a ≤ b
abbrev le_ℤ : ℤ → ℤ → Bool
le_ℤ (pos a) (pos b) = leb a b
le_ℤ (negsuc a) (pos b) = true
le_ℤ (pos a) (negsuc b) = false
le_ℤ (negsuc a) (negsuc b) = leb b a

module _ {D : Type 0} where
  unfoldable pub row_to_record : AlertRecord D → AlertRecord D
  row_to_record r = record r { id = to_int r.id }

  unfoldable pub insert_by_id : AlertRecord D → List (AlertRecord D) → List (AlertRecord D)
  insert_by_id r [] = r ∷ []
  insert_by_id r (s ∷ rows) = if le_ℤ r.id s.id then r ∷ s ∷ rows else s ∷ insert_by_id r rows

  -- ORDER BY id
  unfoldable pub order_by_id : List (AlertRecord D) → List (AlertRecord D)
  unfolding insert_by_id
  order_by_id [] = []
  order_by_id (r ∷ rows) = insert_by_id r (order_by_id rows)

  -- WHERE user_id=?, and AND status=? unless the status is -1
  abbrev pub queried : ℤ → ℤ → AlertRecord D → Bool
  queried uid status r =
      if eq_ℤ status query_all
      then eq_ℤ r.user_id uid
      else eq_ℤ r.user_id uid && eq_ℤ r.status status

  -- WHERE status=0 AND alert_type=0 AND contract=?
  abbrev pub waits_price : Bytes → AlertRecord D → Bool
  waits_price contract r =
      eq_ℤ r.status status_pending
      && eq_ℤ r.alert_type alert_type_price
      && same_text r.contract (c_str contract)

  -- WHERE status=0 AND alert_type=1 AND trigger_time=?
  abbrev pub waits_time : Bytes → AlertRecord D → Bool
  waits_time time r =
      eq_ℤ r.status status_pending
      && eq_ℤ r.alert_type alert_type_time
      && same_text r.trigger_time (c_str time)

  -- WHERE status=0
  abbrev pub is_pending : AlertRecord D → Bool
  is_pending r = eq_ℤ r.status status_pending

-- SELECT DISTINCT
unfoldable pub distinct : List Bytes → List Bytes
distinct [] = []
distinct (t ∷ ts) = let rest = distinct ts in if any (same_text t) ts then rest else t ∷ rest

module _ {D : Type 0} (S : Sqlite D) where
  unfoldable pub query_alerts : ℤ → ℤ → Db D → List (AlertRecord D)
  unfolding row_to_record order_by_id
  query_alerts uid status db =
      if S.prepares query
      then map row_to_record
          (take (S.reads query) (order_by_id (select (queried uid status) db.alerts)))
      else []

  -- the rows of an unordered SELECT
  unfoldable pub scan_alerts : Statement → (AlertRecord D → Bool) → Db D → List (AlertRecord D)
  unfolding row_to_record
  scan_alerts stmt hit db =
      if S.prepares stmt
      then map row_to_record (take (S.reads stmt) (S.order (select hit db.alerts)))
      else []

  unfoldable pub get_pending_price_alerts : Bytes → Db D → List (AlertRecord D)
  unfolding scan_alerts
  get_pending_price_alerts contract = scan_alerts (pending_price contract) (waits_price contract)

  unfoldable pub get_pending_time_alerts : Bytes → Db D → List (AlertRecord D)
  unfolding scan_alerts
  get_pending_time_alerts time = scan_alerts (pending_time time) (waits_time time)

  unfoldable pub get_pending_contracts : Db D → List Bytes
  unfolding distinct
  get_pending_contracts db =
      if S.prepares pending_contracts
      then take (S.reads pending_contracts)
          (distinct (map (λ r. r.contract) (S.order (select is_pending db.alerts))))
      else []
