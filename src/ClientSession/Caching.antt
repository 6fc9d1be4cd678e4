-- ===== src/ClientSession/Caching.antt =====
-- What the alert engine's cache may become while a client's line is handled (Server/ClientSession.cpp).
use cloud_alert_system.AlertEngine.{
  subscribe_contract, next_cache, swap_cache, refresh_price_alert_cache,
}
use cloud_alert_system.Common.{
  Memᴰ-before, ◌^◌, ◌<◌, ◌≡◌, refl, ◌⊎◌, Option, none, some, List, [], ◌∷◌, ◌++◌, arith, length,
  All-append, All-imp,
}
use cloud_alert_system.Db.{AlertRecord}
use cloud_alert_system.Double.{Float}
use cloud_alert_system.Protocol.{alert_type_time}
use cloud_alert_system.System.{System}
use cloud_alert_system.Text.{Bytes}
use cloud_alert_system.World.{World}
use cloud_alert_system.ClientSession.{Turn}
use cloud_alert_system.Db.Valid.{IsValid}
use cloud_alert_system.AlertEngine.Cache.{Sees}
use cloud_alert_system.AlertEngine.Coherent.{Cache, IsCurrent, Sound, Coherent, refresh-Coherent}

module _ {D : Type 0} where
  -- the same rows of alerts, and the same cache
  abbrev Stays : System D → System D → Type 0
  Stays s t =
      (t.db.alerts ≡ s.db.alerts) × (t.engine.price_alert_cache ≡ s.engine.price_alert_cache)

  -- a new time alert, and the same cache
  abbrev AddsTime : System D → System D → Type 0
  AddsTime s t =
      (row : AlertRecord D) × (row.alert_type ≡ alert_type_time)
      × (t.db.alerts ≡ s.db.alerts ++ row ∷ [])
      × (t.engine.price_alert_cache ≡ s.engine.price_alert_cache)

  pub subscribe-engine : (c : Bytes) (s : System D) → (subscribe_contract c s).engine ≡ s.engine
  unfolding subscribe_contract
  subscribe-engine c s = ground arith

  pub subscribe-db : (c : Bytes) (s : System D) → (subscribe_contract c s).db ≡ s.db
  unfolding subscribe_contract
  subscribe-db c s = ground arith

  pub Stays-Coherent : (s t : System D) → Stays s t → IsValid t.db → Coherent s → Coherent t
  Stays-Coherent s t e v h = record {
    valid = v;
    covers = rw (e.0, e.1) h.covers;
    sound = rw (e.0, e.1) h.sound;
  }

  append-Sound :
      (rows : List (AlertRecord D)) (row : AlertRecord D) (cache : Cache D)
      → Sound rows cache
      → Sound (rows ++ row ∷ []) cache
  append-Sound rows row [] h = tt
  append-Sound rows row ((k, records) ∷ cache) h = (
    All-imp (IsCurrent rows k) (IsCurrent (rows ++ row ∷ []) k) records
        (λ r p. (Memᴰ-before row p.0, p.1, p.2, p.3)) h.0,
    append-Sound rows row cache h.1,
  )

  pub AddsTime-Coherent : (s t : System D) → AddsTime s t → IsValid t.db → Coherent s → Coherent t
  AddsTime-Coherent s t (row, timed, rows, same) v h = record {
    valid = v;
    covers =
        rw (rows, same)
          (All-append _ s.db.alerts (row ∷ []) h.covers
            ((λ pending price. absurd (ground (arith, timed, price))), tt));
    sound = rw (rows, same) (append-Sound s.db.alerts row s.engine.price_alert_cache h.sound);
  }

module _ {D : Type 0} (F : Float D) (W : World D) where
  -- the cache is that of the tables
  abbrev Fresh : System D → Type 0
  Fresh t = t.engine.price_alert_cache ≡ next_cache W t.db

  abbrev pub Settles : System D → System D → Type 0
  Settles s t = Stays s t ⊎ (Fresh t ⊎ AddsTime s t)

  -- of a handler's outcome, as long as rowids fit in an int
  abbrev pub Settled : System D → Option (Turn D) → Type 0
  Settled s none = Unit
  Settled s (some t) = t.system.db.alert_seq < 2 ^ 31 → Settles s t.system

  pub refreshed-Fresh : (s : System D) → Fresh (refresh_price_alert_cache W s)
  unfolding refresh_price_alert_cache swap_cache
  refreshed-Fresh s = refl

  pub subscribed-Fresh : (c : Bytes) (s : System D) → Fresh s → Fresh (subscribe_contract c s)
  subscribed-Fresh c s h = rw (subscribe-engine c s, subscribe-db c s) h

  pub Fresh-Coherent :
      (t : System D)
      → Fresh t
      → IsValid t.db
      → t.db.alert_seq < 2 ^ 31
      → Sees W (length t.db.alerts)
      → Coherent t
  Fresh-Coherent t fresh v small sees =
      let h : Coherent (refresh_price_alert_cache W t) = refresh-Coherent W t v small sees in
      record {
        valid = v;
        covers = rw fresh (unfold refresh_price_alert_cache swap_cache in h.covers);
        sound = rw fresh (unfold refresh_price_alert_cache swap_cache in h.sound);
      }
