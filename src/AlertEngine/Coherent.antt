-- ===== src/AlertEngine/Coherent.antt =====
-- The cache of Server/AlertEngine.cpp against the tables.
use cloud_alert_system.AlertEngine.{
  cache_contract, fill_cache, next_cache, swap_cache, refresh_price_alert_cache, cached,
}
use cloud_alert_system.Common.{
  sym, All-self, ◌^◌, ◌<◌, ◌≡◌, refl, subst, inl, inr, none, List, [], ◌∷◌, Memᴰ, arith, Bool-cases,
  length, All, All-imp, eq_ℤ_iff, lookup, insert,
}
use cloud_alert_system.Db.Queries.{
  waits_price, scan_alerts, get_pending_price_alerts, get_pending_contracts,
}
use cloud_alert_system.Db.{AlertRecord, Db, Statement}
use cloud_alert_system.Protocol.{alert_type_price, status_pending}
use cloud_alert_system.System.{System}
use cloud_alert_system.Text.{Bytes, same_text, same_text_iff, text_key, c_str}
use cloud_alert_system.World.{World}
use cloud_alert_system.Db.Valid.{IsValid}
use cloud_alert_system.AlertEngine.Cache.{
  Sees, entry, scan_alerts-All, pending_contracts-any, pending_price-member, lookup-fill_cache,
}

-- m_priceAlertCache
abbrev pub Cache : Type 0 → Type 0
Cache D = List (Bytes × List (AlertRecord D))

module _ {D : Type 0} where
  -- every pending price alert is cached under its contract
  abbrev pub Covers : List (AlertRecord D) → Cache D → Type 0
  Covers rows cache =
      All
        (λ r.
          r.status ≡ status_pending
          → r.alert_type ≡ alert_type_price
          → Memᴰ r (cached (lookup text_key r.contract cache)))
        rows

  abbrev pub IsCurrent : List (AlertRecord D) → Bytes → AlertRecord D → Type 0
  IsCurrent rows c r =
      Memᴰ r rows
      × (r.status ≡ status_pending)
      × (r.alert_type ≡ alert_type_price)
      × (r.contract ≡ c_str c)

  -- every cached record is a pending price alert as it stands in the table
  abbrev pub Sound : List (AlertRecord D) → Cache D → Type 0
  Sound rows cache = All (λ (e : Bytes × List (AlertRecord D)). All (IsCurrent rows e.0) e.1) cache

  pub record Coherent (s : System D) : Type 0 where
    pub valid : IsValid s.db
    pub covers : Covers s.db.alerts s.engine.price_alert_cache
    pub sound : Sound s.db.alerts s.engine.price_alert_cache

  insert-All :
      (P : Bytes × List (AlertRecord D) → Type 0) (c : Bytes) (rs : List (AlertRecord D))
      (cache : Cache D)
      → P (c, rs)
      → All P cache
      → All P (insert text_key c rs cache)
  unfolding insert
  insert-All P c rs [] h hs = (h, tt)
  insert-All P c rs ((k, v) ∷ cache) h hs = ground (arith, insert-All P c rs cache h hs.1)

  -- a cached record is current
  pub lookup-Sound :
      (rows : List (AlertRecord D)) (c : Bytes) (cache : Cache D)
      → Sound rows cache
      → All (IsCurrent rows c) (cached (lookup text_key c cache))
  unfolding lookup
  lookup-Sound rows c [] h = tt
  lookup-Sound rows c ((k, v) ∷ cache) h = elim (Bool-cases (same_text k c)) [
    | inl e ↦ rw e (subst (λ x. All (IsCurrent rows x) v) ((same_text_iff k c).0 e) h.0)
    | inr e ↦ rw e (lookup-Sound rows c cache h.1)
  ]

  -- the same tables and cache
  abbrev pub Same : System D → System D → Type 0
  Same s t = (t.db ≡ s.db) × (t.engine.price_alert_cache ≡ s.engine.price_alert_cache)

  pub Same-Coherent : (s t : System D) → Same s t → Coherent s → Coherent t
  Same-Coherent s t e h = record {
    valid = subst IsValid (sym e.0) h.valid;
    covers =
        subst (λ db. Covers db.alerts t.engine.price_alert_cache) (sym e.0)
          (subst (Covers s.db.alerts) (sym e.1) h.covers);
    sound =
        subst (λ db. Sound db.alerts t.engine.price_alert_cache) (sym e.0)
          (subst (Sound s.db.alerts) (sym e.1) h.sound);
  }

module _ {D : Type 0} (W : World D) where
  cache_contract-Sound :
      (db : Db D) (c : Bytes) (cache : Cache D)
      → IsValid db
      → db.alert_seq < 2 ^ 31
      → Sound db.alerts cache
      → Sound db.alerts (cache_contract W db c cache)
  unfolding get_pending_price_alerts
  cache_contract-Sound db c cache v small h =
      let found = scan_alerts-All W.sqlite (Statement.pending_price c) (waits_price c) db v small in
      let rows = scan_alerts W.sqlite (Statement.pending_price c) (waits_price c) db in
      put rows (
        All-imp _ (IsCurrent db.alerts c) rows
          (λ r k. (
            k.0,
            ground (arith, k.1, eq_ℤ_iff r.status status_pending),
            ground (arith, k.1, eq_ℤ_iff r.alert_type alert_type_price),
            ground (arith, k.1, same_text_iff r.contract (c_str c)),
          ))
          found)
    where
      put :
          (rs : List (AlertRecord D))
          → All (IsCurrent db.alerts c) rs
          → Sound db.alerts
              (elim rs [ [] ↦ cache | r ∷ records ↦ insert text_key c (r ∷ records) cache ])
      put [] k = h
      put (r ∷ rs) k = insert-All _ c (r ∷ rs) cache k h

  pub fill_cache-Sound :
      (db : Db D) (contracts : List Bytes) (cache : Cache D)
      → IsValid db
      → db.alert_seq < 2 ^ 31
      → Sound db.alerts cache
      → Sound db.alerts (fill_cache W db contracts cache)
  unfolding fill_cache
  fill_cache-Sound db [] cache v small h = h
  fill_cache-Sound db (c ∷ contracts) cache v small h =
      fill_cache-Sound db contracts (cache_contract W db c cache) v small
        (cache_contract-Sound db c cache v small h)

  -- the records that a refresh caches under a contract that is read
  cached-entry : (rs : List (AlertRecord D)) → cached (entry W rs none) ≡ rs
  cached-entry [] = refl
  cached-entry (r ∷ rs) = refl

  next_cache-member :
      (db : Db D) (r : AlertRecord D)
      → IsValid db
      → db.alert_seq < 2 ^ 31
      → Sees W (length db.alerts)
      → Memᴰ r db.alerts
      → r.status ≡ status_pending
      → r.alert_type ≡ alert_type_price
      → Memᴰ r (cached (lookup text_key r.contract (next_cache W db)))
  unfolding next_cache lookup
  next_cache-member db r v small sees m pending price =
      let rs = get_pending_price_alerts W.sqlite r.contract db in
      let look = lookup-fill_cache W db (get_pending_contracts W.sqlite db) r.contract [] in
      rw (look, pending_contracts-any W db r sees m pending, cached-entry rs)
        (pending_price-member W db r v small sees m pending price)

  -- After a refresh that SQLite answers, the cache holds exactly the pending price alerts.
  pub refresh-Coherent :
      (s : System D)
      → IsValid s.db
      → s.db.alert_seq < 2 ^ 31
      → Sees W (length s.db.alerts)
      → Coherent (refresh_price_alert_cache W s)
  unfolding refresh_price_alert_cache swap_cache
  refresh-Coherent s v small sees = record {
    valid = v;
    covers =
        All-imp (λ r. Memᴰ r s.db.alerts) _ s.db.alerts
          (λ r m pending price. next_cache-member s.db r v small sees m pending price)
          (All-self s.db.alerts);
    sound =
        unfold next_cache in
        fill_cache-Sound s.db (get_pending_contracts W.sqlite s.db) [] v small tt;
  }
