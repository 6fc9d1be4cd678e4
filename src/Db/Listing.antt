-- ===== src/Db/Listing.antt =====
-- What the queries of AlertDB return.
use cloud_alert_system.Common.{
  ℕ, zero, suc, ◌^◌, ◌≤◌, ◌<◌, ◌≡◌, refl, ap, ap₂, ◌∙◌, inl, inr, Bool, true, List, [], ◌∷◌, map,
  Memᴰ, arith, Bool-cases, length, take, take_all, select, All, All-take, All-map_self, All-imp,
  All-select_test, ℤ, eq_ℤ_iff, to_int, to_int_id, number, Rising, Rising-member,
}
use cloud_alert_system.Db.{AlertRecord, Db, Sqlite, Statement}
use cloud_alert_system.Db.Queries.{row_to_record, insert_by_id, order_by_id, queried, query_alerts}
use cloud_alert_system.Db.{query}
use cloud_alert_system.Db.Valid.{IsValid}

module _ {D : Type 0} where
  abbrev pub RisingAlerts : ℕ → List (AlertRecord D) → ℕ → Type 0
  RisingAlerts = Rising (λ r. r.id)

  Rising-weaken :
      (low low' : ℕ) (rows : List (AlertRecord D)) (high : ℕ)
      → low' ≤ low
      → RisingAlerts low rows high
      → RisingAlerts low' rows high
  Rising-weaken low low' [] high h v = omega arith
  Rising-weaken low low' (r ∷ rows) high h v = (v.0, omega (arith, v.1), v.2)

  Rising-select :
      (p : AlertRecord D → Bool) (low : ℕ) (rows : List (AlertRecord D)) (high : ℕ)
      → RisingAlerts low rows high
      → RisingAlerts low (select p rows) high
  unfolding select
  Rising-select p low [] high v = v
  Rising-select p low (r ∷ rows) high v = elim (Bool-cases (p r)) [
    | inl e ↦ rw e (v.0, v.1, Rising-select p (number r.id) rows high v.2)
    | inr e ↦ rw e (
        Rising-weaken (number r.id) low (select p rows) high (omega (arith, v.1))
          (Rising-select p (number r.id) rows high v.2))
  ]

  -- Rows with rising ids are in the order that ORDER BY id asks for.
  order_by_id-Rising :
      (low : ℕ) (rows : List (AlertRecord D)) (high : ℕ)
      → RisingAlerts low rows high
      → order_by_id rows ≡ rows
  unfolding order_by_id insert_by_id
  order_by_id-Rising low [] high v = refl
  order_by_id-Rising low (r ∷ []) high v = refl
  order_by_id-Rising low (r ∷ s ∷ rows) high v =
      ap (insert_by_id r) (order_by_id-Rising (number r.id) (s ∷ rows) high v.2) ∙ ground arith

  pub record_id :
      (low : ℕ) (rows : List (AlertRecord D)) (high : ℕ)
      → high < 2 ^ 31
      → RisingAlerts low rows high
      → map row_to_record rows ≡ rows
  unfolding row_to_record
  record_id low [] high small v = refl
  record_id low (r ∷ rows) high small v =
      let h = Rising-member (λ r. r.id) low (r ∷ rows) high v (Memᴰ.head refl) in
      let e : to_int r.id ≡ r.id = to_int_id r.id (rw h.0 (omega (arith, h.2))) in
      ap₂ ◌∷◌ (same r e) (record_id (number r.id) rows high small v.2)
    where
      same : (r : AlertRecord D) → to_int r.id ≡ r.id → record r { id = to_int r.id } ≡ r
      same r e = λ i. record r { id = e i }

  Rising-take :
      (n low : ℕ) (rows : List (AlertRecord D)) (high : ℕ)
      → RisingAlerts low rows high
      → RisingAlerts low (take n rows) high
  Rising-take zero low rows high v = low-le low rows high v
    where
      low-le :
          (low : ℕ) (rows : List (AlertRecord D)) (high : ℕ)
          → RisingAlerts low rows high
          → low ≤ high
      low-le low [] high v = v
      low-le low (r ∷ rows) high v = omega (arith, v.1, low-le (number r.id) rows high v.2)
  Rising-take (suc n) low [] high v = v
  Rising-take (suc n) low (r ∷ rows) high v = (v.0, v.1, Rising-take n (number r.id) rows high v.2)

  -- the SELECT gives all its rows
  abbrev pub ReadsAll : Sqlite D → Statement → List (AlertRecord D) → Type 0
  ReadsAll S stmt rows = (S.prepares stmt ≡ true) × (length rows ≤ S.reads stmt)

  -- On tables that keep their invariant, QueryAlerts returns exactly the user's alerts of the
  -- given status, or all with status -1, by rising id, when SQLite gives all rows and ids stay
  -- below 2^31.
  pub query_alerts_lem :
      (S : Sqlite D) (uid status : ℤ) (db : Db D)
      → IsValid db
      → db.alert_seq < 2 ^ 31
      → ReadsAll S query (select (queried uid status) db.alerts)
      → query_alerts S uid status db ≡ select (queried uid status) db.alerts
  unfolding query_alerts
  query_alerts_lem S uid status db v small reads =
      let rows = select (queried uid status) db.alerts in
      let rising = Rising-select (queried uid status) 0 db.alerts db.alert_seq v.alert_ids in
      rw
        (
          reads.0,
          order_by_id-Rising 0 rows db.alert_seq rising,
          take_all (S.reads query) rows reads.1,
        )
        (record_id 0 rows db.alert_seq small rising)

  All-insert :
      (P : AlertRecord D → Type 0) (r : AlertRecord D) (rows : List (AlertRecord D))
      → P r
      → All P rows
      → All P (insert_by_id r rows)
  unfolding insert_by_id
  All-insert P r [] h hs = (h, tt)
  All-insert P r (s ∷ rows) h hs = ground (arith, All-insert P r rows h hs.1)

  All-order :
      (P : AlertRecord D → Type 0) (rows : List (AlertRecord D))
      → All P rows
      → All P (order_by_id rows)
  unfolding order_by_id
  All-order P [] h = tt
  All-order P (r ∷ rows) h = All-insert P r (order_by_id rows) h.0 (All-order P rows h.1)

  -- Whatever SQLite answers, QueryAlerts shows a user no alert of another.
  pub query_alerts-own :
      (S : Sqlite D) (uid status : ℤ) (db : Db D)
      → All (λ r. r.user_id ≡ uid) (query_alerts S uid status db)
  unfolding query_alerts row_to_record
  query_alerts-own S uid status db = elim (Bool-cases (S.prepares query)) [
    | inl e ↦
        let rows = select (queried uid status) db.alerts in
        rw e (
          All-map_self (λ r. r.user_id ≡ uid) (λ r. r.user_id ≡ uid) row_to_record
            (take (S.reads query) (order_by_id rows)) (λ r h. h)
            (All-take (λ r. r.user_id ≡ uid) (S.reads query) (order_by_id rows)
              (All-order (λ r. r.user_id ≡ uid) rows
                (All-imp (λ r. queried uid status r ≡ true) (λ r. r.user_id ≡ uid) rows
                  (λ r h. ground (arith, eq_ℤ_iff r.user_id uid))
                  (All-select_test (queried uid status) db.alerts)))))
    | inr e ↦ rw e tt
  ]
