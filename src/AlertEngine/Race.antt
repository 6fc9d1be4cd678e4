-- ===== src/AlertEngine/Race.antt =====
-- What other threads may do between the two parts of RefreshPriceAlertCache, and between a write to the
-- tables and the refresh after it (Server/AlertEngine.cpp).
use cloud_alert_system.AlertEngine.{
  fill_cache, next_cache, swap_cache, meets, at_hand, check_price_alert,
}
use cloud_alert_system.Common.{
  ◌^◌, ◌<◌, ◌≡◌, ◌≢◌, refl, sym, ap, subst, inl, inr, true, some, List, [], ◌∷◌, Memᴰ, arith, All,
  All-member, ℤ, number, Rising-member, Grows,
}
use cloud_alert_system.Db.Alerts.{modify_price_alert}
use cloud_alert_system.Db.Queries.{get_pending_contracts}
use cloud_alert_system.Db.{AlertRecord, Db, Statement}
use cloud_alert_system.Double.{Float}
use cloud_alert_system.Protocol.{status_pending}
use cloud_alert_system.System.{System}
use cloud_alert_system.Text.{Bytes}
use cloud_alert_system.World.{World}
use cloud_alert_system.Db.Valid.{IsValid}
use cloud_alert_system.Db.Outcome.{Runs}
use cloud_alert_system.AlertEngine.Ticks.{Fired, check_price_alert-Fired}
use cloud_alert_system.AlertEngine.Complete.{check_price_alert-NotPending}
use cloud_alert_system.AlertEngine.Coherent.{IsCurrent, lookup-Sound, fill_cache-Sound}

Grows-member :
    {R : Type 0} (E : R → R → Type 0) (xs ys : List R) {x : R}
    → Grows E xs ys
    → Memᴰ x xs
    → (y : R) × Memᴰ y ys × E x y
Grows-member E [] ys g m = elim m [ ]
Grows-member E (x ∷ xs) [] g m = absurd g
Grows-member E (x ∷ xs) (y ∷ ys) g (Memᴰ.head e) =
    (y, Memᴰ.head refl, subst (λ z. E z y) (sym e) g.0)
Grows-member E (x ∷ xs) (y ∷ ys) g (Memᴰ.tail m) =
    let (z, n, h) = Grows-member E xs ys g.1 m in (z, Memᴰ.tail n, h)

module _ {D : Type 0} (F : Float D) (W : World D) where
  -- When a tick that does not end the process comes after MODIFY has written an alert and before
  -- the cache is refreshed, and the price meets the rule that the cache still holds, the alert is
  -- no longer pending, whatever its new rule, when SQLite runs the UPDATE of TriggerAlert.
  pub modified_fires_old :
      (V : World D) (a uid cond : ℤ) (contract new_contract : Bytes) (price new_price : D)
      (old : AlertRecord D) (s t : System D)
      → Memᴰ old (at_hand contract s)
      → old.id ≡ a
      → meets F W old price ≡ true
      → Runs W.sqlite (Statement.trigger a)
      → check_price_alert F W contract price
          (record s { db = (modify_price_alert V.sqlite a uid new_contract new_price cond s.db).0 })
        ≡ some t
      → All (λ r. r.id ≡ a → r.status ≢ status_pending) t.db.alerts
  modified_fires_old V a uid cond contract new_contract price new_price old s t m id met run e =
      let u : System D = record s {
        db = (modify_price_alert V.sqlite a uid new_contract new_price cond s.db).0;
      } in
      subst (λ n. All (λ r. r.id ≡ n → r.status ≢ status_pending) t.db.alerts) id
        (check_price_alert-NotPending F W contract price old u t m
          (subst (λ n. Runs W.sqlite (Statement.trigger n)) (sym id) run) met e)

  -- On tables that kept their invariant with rowids below 2^31 when a refresh of the cache read
  -- them: an alert that was added after that reading is left as it is by a tick that comes after
  -- the swap of the refresh and does not end the process, whatever its rule.
  pub lost_alert :
      (V : World D) (before : Db D) (contract : Bytes) (price : D) (new : AlertRecord D)
      (s t : System D)
      → IsValid before
      → before.alert_seq < 2 ^ 31
      → before.alert_seq < number new.id
      → Memᴰ new s.db.alerts
      → check_price_alert F W contract price (swap_cache (next_cache V before) s) ≡ some t
      → Memᴰ new t.db.alerts
  unfolding swap_cache next_cache
  lost_alert V before contract price new s t v small late m e =
      let u = swap_cache (next_cache V before) s in
      let cache = fill_cache V before (get_pending_contracts V.sqlite before) [] in
      let sound = fill_cache-Sound V before (get_pending_contracts V.sqlite before) [] v small tt in
      let fired = check_price_alert-Fired F W contract price u t e in
      let (r, n, h) =
        Grows-member (Fired F W (at_hand contract u) price) s.db.alerts t.db.alerts fired m in
      elim h [
        | inl same ↦ subst (λ x. Memᴰ x t.db.alerts) same n
        | inr (_, _, rec, here, id, _) ↦
            let current =
              All-member (IsCurrent before.alerts contract) here
                (lookup-Sound before.alerts contract cache sound) in
            let bound =
              Rising-member (λ (x : AlertRecord D). x.id) 0 before.alerts before.alert_seq
                v.alert_ids current.0 in
            absurd (omega (arith, late, bound.2, ap number id))
      ]
