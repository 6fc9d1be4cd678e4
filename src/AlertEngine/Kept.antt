-- ===== src/AlertEngine/Kept.antt =====
-- RemoveCachedPriceAlert of Server/AlertEngine.cpp against the row that a trigger changes.
use cloud_alert_system.AlertEngine.{remove_cached, cached}
use cloud_alert_system.Common.{
  Memᴰ-map, Memᴰ-select, All-select_both, ◌≡◌, ◌≢◌, refl, sym, subst, inl, inr, true, false, not,
  List, [], ◌∷◌, map, Memᴰ, arith, Bool-cases, select, All, All-map_self, All-imp, ℤ, eq_ℤ,
  eq_ℤ_iff, lookup,
}
use cloud_alert_system.Db.Alerts.{untriggered, change_where, set_triggered}
use cloud_alert_system.Db.{AlertRecord}
use cloud_alert_system.Protocol.{alert_type_price, status_pending}
use cloud_alert_system.Text.{Bytes, same_text, text_key}
use cloud_alert_system.AlertEngine.Coherent.{Cache, Covers, IsCurrent, Sound}

module _ {D : Type 0} where
  -- the rows after a trigger that found the alert
  abbrev pub fired_rows : ℤ → Bytes → List (AlertRecord D) → List (AlertRecord D)
  fired_rows a at rows = map (change_where (untriggered a) (set_triggered at)) rows

  -- the cache lost no record but those of the alert
  abbrev Loses : ℤ → Cache D → Cache D → Type 0
  Loses a cache cache' =
      (c : Bytes) (r : AlertRecord D)
      → r.id ≢ a
      → Memᴰ r (cached (lookup text_key c cache))
      → Memᴰ r (cached (lookup text_key c cache'))

  pub fired-Covers :
      (a : ℤ) (at : Bytes) (rows : List (AlertRecord D)) (cache cache' : Cache D)
      → Loses a cache cache'
      → Covers rows cache
      → Covers (fired_rows a at rows) cache'
  fired-Covers a at rows cache cache' loses h =
      All-map_self _ _ (change_where (untriggered a) (set_triggered at)) rows (λ r k. one r k) h
    where
      one :
          (r : AlertRecord D)
          → (r.status ≡ status_pending
              → r.alert_type ≡ alert_type_price
              → Memᴰ r (cached (lookup text_key r.contract cache)))
          → let r' = change_where (untriggered a) (set_triggered at) r in
            r'.status ≡ status_pending
            → r'.alert_type ≡ alert_type_price
            → Memᴰ r' (cached (lookup text_key r'.contract cache'))
      one r k = elim (Bool-cases (untriggered a r)) [
        | inl e ↦ rw e (λ p q. absurd (ground (arith, p)))
        | inr e ↦ rw e (λ p q.
            loses r.contract r
              (ground (arith, e, p, eq_ℤ_iff r.id a, eq_ℤ_iff r.status status_pending)) (k p q))
      ]

  fired-IsCurrent :
      (a : ℤ) (at : Bytes) (rows : List (AlertRecord D)) (c : Bytes) (r : AlertRecord D)
      → r.id ≢ a
      → IsCurrent rows c r
      → IsCurrent (fired_rows a at rows) c r
  fired-IsCurrent a at rows c r ne h =
      let unhit : untriggered a r ≡ false = ground (arith, eq_ℤ_iff r.id a, ne) in
      let same : change_where (untriggered a) (set_triggered at) r ≡ r = rw unhit refl in
      (
        subst (λ x. Memᴰ x (fired_rows a at rows)) same
            (Memᴰ-map (change_where (untriggered a) (set_triggered at)) h.0),
        h.1,
        h.2,
        h.3,
      )

  -- RemoveCachedPriceAlert
  abbrev kept_entry : Bytes → List (AlertRecord D) → Cache D → Cache D
  kept_entry c kept rest = elim kept [ [] ↦ rest | r ∷ rs ↦ (c, r ∷ rs) ∷ rest ]

  kept_entry-lookup :
      (k c : Bytes) (kept : List (AlertRecord D)) (rest : Cache D) (r : AlertRecord D)
      → same_text k c ≡ true
      → Memᴰ r kept
      → Memᴰ r (cached (lookup text_key c (kept_entry k kept rest)))
  unfolding lookup
  kept_entry-lookup k c [] rest r e m = elim m [ ]
  kept_entry-lookup k c (x ∷ xs) rest r e m = rw e m

  kept_entry-other :
      (k c : Bytes) (kept : List (AlertRecord D)) (rest : Cache D)
      → same_text k c ≡ false
      → lookup text_key c (kept_entry k kept rest) ≡ lookup text_key c rest
  unfolding lookup
  kept_entry-other k c [] rest e = refl
  kept_entry-other k c (x ∷ xs) rest e = rw e refl

  pub remove_cached-Loses : (a : ℤ) (cache : Cache D) → Loses a cache (remove_cached a cache)
  unfolding remove_cached lookup
  remove_cached-Loses a [] c r ne m = m
  remove_cached-Loses a ((k, records) ∷ cache) c r ne m =
      let kept = select (λ (x : AlertRecord D). not (eq_ℤ x.id a)) records in
      elim (Bool-cases (same_text k c)) [
        | inl e ↦
            let found : Memᴰ r records = rw e at m in
            kept_entry-lookup k c kept (remove_cached a cache) r e (
              Memᴰ-select (λ (x : AlertRecord D). not (eq_ℤ x.id a)) records found
                (ground (arith, ne, eq_ℤ_iff r.id a)))
        | inr e ↦
            let found : Memᴰ r (cached (lookup text_key c cache)) = rw e at m in
            subst (λ o. Memᴰ r (cached o))
              (sym (kept_entry-other k c kept (remove_cached a cache) e))
              (remove_cached-Loses a cache c r ne found)
      ]

  kept_entry-Sound :
      (rows : List (AlertRecord D)) (k : Bytes) (kept : List (AlertRecord D)) (rest : Cache D)
      → All (IsCurrent rows k) kept
      → Sound rows rest
      → Sound rows (kept_entry k kept rest)
  kept_entry-Sound rows k [] rest h hs = hs
  kept_entry-Sound rows k (x ∷ xs) rest h hs = (h, hs)

  pub remove_cached-Sound :
      (a : ℤ) (at : Bytes) (rows : List (AlertRecord D)) (cache : Cache D)
      → Sound rows cache
      → Sound (fired_rows a at rows) (remove_cached a cache)
  unfolding remove_cached
  remove_cached-Sound a at rows [] h = tt
  remove_cached-Sound a at rows ((k, records) ∷ cache) h =
      let test = λ (x : AlertRecord D). not (eq_ℤ x.id a) in
      kept_entry-Sound (fired_rows a at rows) k (select test records) (remove_cached a cache)
        (All-imp _ (IsCurrent (fired_rows a at rows) k) (select test records)
          (λ r p. fired-IsCurrent a at rows k r (ground (arith, p.1, eq_ℤ_iff r.id a)) p.0)
          (All-select_both (IsCurrent rows k) test records h.0))
        (remove_cached-Sound a at rows cache h.1)

  -- where no record of the alert is cached
  pub fired-Sound :
      (a : ℤ) (at : Bytes) (rows : List (AlertRecord D)) (cache : Cache D)
      → ((r : AlertRecord D) → Memᴰ r rows → r.alert_type ≡ alert_type_price → r.id ≢ a)
      → Sound rows cache
      → Sound (fired_rows a at rows) cache
  fired-Sound a at rows [] other h = tt
  fired-Sound a at rows ((k, records) ∷ cache) other h = (
    All-imp (IsCurrent rows k) (IsCurrent (fired_rows a at rows) k) records
        (λ r p. fired-IsCurrent a at rows k r (other r p.0 p.2) p) h.0,
    fired-Sound a at rows cache other h.1,
  )
