-- ===== src/AlertEngine/Cache.antt =====
-- What RefreshPriceAlertCache of Server/AlertEngine.cpp puts in the cache.
use cloud_alert_system.AlertEngine.{cache_contract, fill_cache}
use cloud_alert_system.Common.{
  Memᴰ-map, Memᴰ-select, All-self, All-select_both, any-member, length-select, length-perm,
  length-map, ℕ, ◌^◌, ◌≤◌, ◌<◌, ◌≡◌, refl, sym, ap, subst, ◌∙◌, inl, inr, Bool, true, false, ◌||◌,
  Option, some, List, [], ◌∷◌, map, Memᴰ, arith, Bool-cases, if◌then◌else◌, length, take, take_all,
  select, any, All, All-take, All-map_self, All-perm, member-perm, All-member, eq_ℤ_iff, to_int,
  to_int_id, lookup, insert, lookup-insert, Rising-member,
}
use cloud_alert_system.Db.Queries.{
  row_to_record, waits_price, is_pending, distinct, scan_alerts, get_pending_price_alerts,
  get_pending_contracts,
}
use cloud_alert_system.Db.{AlertRecord, Db, Sqlite, Statement}
use cloud_alert_system.Protocol.{alert_type_price, status_pending}
use cloud_alert_system.Text.{Bytes, same_text, same_text_iff, text_key, c_str}
use cloud_alert_system.World.{World}
use cloud_alert_system.Db.Valid.{IsValid, HasCodes}

length-distinct : (xs : List Bytes) → length (distinct xs) ≤ length xs
unfolding distinct
length-distinct [] = omega arith
length-distinct (x ∷ xs) = ground (arith, length-distinct xs)

any-distinct :
    (c : Bytes) (xs : List Bytes) → any (same_text c) (distinct xs) ≡ any (same_text c) xs
unfolding any distinct
any-distinct c [] = refl
any-distinct c (x ∷ xs) = elim (Bool-cases (any (same_text x) xs)) [
  | inr e ↦ rw e (ap (λ b. same_text c x || b) (any-distinct c xs))
  | inl e ↦ rw e (
      any-distinct c xs ∙ (elim (Bool-cases (same_text c x)) [
        | inl same ↦
            rw same (subst (λ t. any (same_text t) xs ≡ true) (sym ((same_text_iff c x).0 same)) e)
        | inr other ↦ rw other refl
      ]))
]

module _ {D : Type 0} (S : Sqlite D) where
  row_to_record_id :
      (db : Db D) (r : AlertRecord D)
      → IsValid db
      → db.alert_seq < 2 ^ 31
      → Memᴰ r db.alerts
      → row_to_record r ≡ r
  unfolding row_to_record
  row_to_record_id db r v small m =
      let h = Rising-member (λ (x : AlertRecord D). x.id) 0 db.alerts db.alert_seq v.alert_ids m in
      let e : to_int r.id ≡ r.id = to_int_id r.id (rw h.0 (omega (arith, h.2, small))) in
      λ i. record r { id = e i }

  -- an unordered SELECT that gives all rows gives each that it asks for
  pub scan_alerts-member :
      (stmt : Statement) (hit : AlertRecord D → Bool) (db : Db D) (r : AlertRecord D)
      → IsValid db
      → db.alert_seq < 2 ^ 31
      → (S.prepares stmt ≡ true) × (length db.alerts ≤ S.reads stmt)
      → Memᴰ r db.alerts
      → hit r ≡ true
      → Memᴰ r (scan_alerts S stmt hit db)
  unfolding scan_alerts
  scan_alerts-member stmt hit db r v small sees m h =
      let rows = select hit db.alerts in
      let len = length-perm (S.order-perm rows) in
      let fits : length (S.order rows) ≤ S.reads stmt =
        omega (arith, sees.1, len, length-select hit db.alerts) in
      let mem =
        Memᴰ-map row_to_record (member-perm (S.order-perm rows) (Memᴰ-select hit db.alerts m h)) in
      rw (sees.0, take_all (S.reads stmt) (S.order rows) fits)
        (subst (λ x. Memᴰ x (map row_to_record (S.order rows))) (row_to_record_id db r v small m)
          mem)

  -- and none that it does not ask for, whatever SQLite answers
  pub scan_alerts-All :
      (stmt : Statement) (hit : AlertRecord D → Bool) (db : Db D)
      → IsValid db
      → db.alert_seq < 2 ^ 31
      → All (λ r. Memᴰ r db.alerts × (hit r ≡ true)) (scan_alerts S stmt hit db)
  unfolding scan_alerts
  scan_alerts-All stmt hit db v small = elim (Bool-cases (S.prepares stmt)) [
    | inr e ↦ rw e tt
    | inl e ↦
        let P = λ (r : AlertRecord D). Memᴰ r db.alerts × (hit r ≡ true) in
        let rows = select hit db.alerts in
        let chosen = All-select_both (λ r. Memᴰ r db.alerts) hit db.alerts (All-self db.alerts) in
        rw e (
          All-map_self P P row_to_record (take (S.reads stmt) (S.order rows))
            (λ r h. subst P (sym (row_to_record_id db r v small h.0)) h)
            (All-take P (S.reads stmt) (S.order rows) (All-perm P (S.order-perm rows) chosen)))
  ]

module _ {D : Type 0} (W : World D) where
  -- SQLite answers the queries of a refresh, and gives all of `n` rows
  abbrev pub Sees : ℕ → Type 0
  Sees n =
      (W.sqlite.prepares Statement.pending_contracts ≡ true)
      × (n ≤ W.sqlite.reads Statement.pending_contracts)
      × ((c : Bytes)
          → (W.sqlite.prepares (Statement.pending_price c) ≡ true)
            × (n ≤ W.sqlite.reads (Statement.pending_price c)))

  -- a pending alert's contract is among those that are read
  pub pending_contracts-any :
      (db : Db D) (r : AlertRecord D)
      → Sees (length db.alerts)
      → Memᴰ r db.alerts
      → r.status ≡ status_pending
      → any (same_text r.contract) (get_pending_contracts W.sqlite db) ≡ true
  unfolding get_pending_contracts
  pending_contracts-any db r sees m pending =
      let rows = select is_pending db.alerts in
      let texts = map (λ (x : AlertRecord D). x.contract) (W.sqlite.order rows) in
      let len = length-perm (W.sqlite.order-perm rows) in
      let small : length (distinct texts) ≤ W.sqlite.reads Statement.pending_contracts = omega (
        arith,
        sees.1,
        length-distinct texts,
        length-map (λ (x : AlertRecord D). x.contract) (W.sqlite.order rows),
        len,
        length-select is_pending db.alerts,
      ) in
      let hit : is_pending r ≡ true = ground (arith, eq_ℤ_iff r.status status_pending) in
      let mem =
        Memᴰ-map (λ (x : AlertRecord D). x.contract)
          (member-perm (W.sqlite.order-perm rows) (Memᴰ-select is_pending db.alerts m hit)) in
      rw (sees.0, take_all (W.sqlite.reads Statement.pending_contracts) (distinct texts) small)
        (any-distinct r.contract texts
          ∙ any-member (same_text r.contract) r.contract texts mem
              ((same_text_iff r.contract r.contract).1 refl))

  -- and the alert among the rows that are read for it
  pub pending_price-member :
      (db : Db D) (r : AlertRecord D)
      → IsValid db
      → db.alert_seq < 2 ^ 31
      → Sees (length db.alerts)
      → Memᴰ r db.alerts
      → r.status ≡ status_pending
      → r.alert_type ≡ alert_type_price
      → Memᴰ r (get_pending_price_alerts W.sqlite r.contract db)
  unfolding get_pending_price_alerts
  pending_price-member db r v small sees m pending price =
      let plain = (All-member HasCodes m v.codes).2 in
      let hit : waits_price r.contract r ≡ true = ground (
        arith,
        eq_ℤ_iff r.status status_pending,
        eq_ℤ_iff r.alert_type alert_type_price,
        (same_text_iff r.contract (c_str r.contract)).1 (sym plain),
      ) in
      scan_alerts-member W.sqlite (Statement.pending_price r.contract) (waits_price r.contract) db r
        v small (sees.2 r.contract) m hit

  abbrev pub entry :
      List (AlertRecord D) → Option (List (AlertRecord D)) → Option (List (AlertRecord D))
  entry [] old = old
  entry (r ∷ rs) old = some (r ∷ rs)

  lookup-entry :
      (rs : List (AlertRecord D)) (k c : Bytes) (cache : List (Bytes × List (AlertRecord D)))
      → lookup text_key c
          (elim rs [ [] ↦ cache | r ∷ records ↦ insert text_key k (r ∷ records) cache ])
        ≡ (if same_text k c then entry rs (lookup text_key c cache) else lookup text_key c cache)
  lookup-entry [] k c cache = ground arith
  lookup-entry (r ∷ rs) k c cache = lookup-insert text_key k c (r ∷ rs) cache

  entry-entry :
      (rs : List (AlertRecord D)) (old : Option (List (AlertRecord D)))
      → entry rs (entry rs old) ≡ entry rs old
  entry-entry [] old = refl
  entry-entry (r ∷ rs) old = refl

  pub lookup-fill_cache :
      (db : Db D) (contracts : List Bytes) (c : Bytes) (cache : List (Bytes × List (AlertRecord D)))
      → lookup text_key c (fill_cache W db contracts cache) ≡ (
          if any (same_text c) contracts
          then entry (get_pending_price_alerts W.sqlite c db) (lookup text_key c cache)
          else lookup text_key c cache)
  unfolding fill_cache any
  lookup-fill_cache db [] c cache = refl
  lookup-fill_cache db (k ∷ contracts) c cache =
      let rs = get_pending_price_alerts W.sqlite k db in
      let next = cache_contract W db k cache in
      let here = lookup-entry rs k c cache in
      let rest = lookup-fill_cache db contracts c next in
      elim (Bool-cases (same_text c k)) [
        | inl e ↦
            let same = (same_text_iff c k).0 e in
            let back = (same_text_iff k c).1 (sym same) in
            let own : get_pending_price_alerts W.sqlite c db ≡ rs =
              ap (λ t. get_pending_price_alerts W.sqlite t db) same in
            ground (arith, rest, here, back, own, e, entry-entry rs (lookup text_key c cache))
        | inr e ↦
            let back : same_text k c ≡ false =
              ground (arith, same_text_iff c k, same_text_iff k c, e) in
            ground (arith, rest, here, back, e)
      ]
