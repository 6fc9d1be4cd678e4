-- ===== src/AlertEngine.antt =====
-- Server/AlertEngine.cpp: the evaluation of alerts at a tick and at each second. `none` means that the C
-- runtime ended the process, because a formatted text did not fit its buffer.
pub mod Message
pub mod Ticks
pub mod Queued
pub mod Complete
pub mod Cache
pub mod Coherent
pub mod Kept
pub mod Upkeep
pub mod Timed
pub mod Seconds
pub mod Due
pub mod Race
use cloud_alert_system.Common.{
  zero, suc, ◌-◌, ◌≡◌, refl, Bool, true, false, ◌&&◌, not, Option, none, some, List, [], ◌∷◌, arith,
  if◌then◌else◌, select, ℤ, eq_ℤ, lookup, insert,
}
use cloud_alert_system.Text.{Bytes, text_key, format_into}
use cloud_alert_system.Double.{Float}
use cloud_alert_system.Protocol.{cond_ge, cond_le}
use cloud_alert_system.Db.{AlertRecord, Db}
use cloud_alert_system.Db.Users.{email_of}
use cloud_alert_system.Db.Alerts.{trigger_alert}
use cloud_alert_system.Db.Queries.{
  get_pending_price_alerts, get_pending_time_alerts, get_pending_contracts,
}
use cloud_alert_system.World.{World}
use cloud_alert_system.Notifier.{NotifyTask, notify}
use cloud_alert_system.MdHandler.{subscribe}
use cloud_alert_system.System.{System}
use Message.{triggered_line, subject_text, body_text}

infixl 5 ◌>>=◌
abbrev pub ◌>>=◌ : {A B : Type 0} → Option A → (A → Option B) → Option B
none >>= f = none
some a >>= f = f a

pub chain-some :
    {A B : Type 0} (m : Option A) (f : A → Option B) (b : B)
    → (m >>= f) ≡ some b
    → (a : A) × (m ≡ some a) × (f a ≡ some b)
chain-some none f b e = absurd (ground (arith, e))
chain-some (some a) f b e = (a, refl, e)

module _ {D : Type 0} where
  -- RemoveCachedPriceAlert: contracts with no record left go too.
  unfoldable pub remove_cached :
      ℤ → List (Bytes × List (AlertRecord D)) → List (Bytes × List (AlertRecord D))
  remove_cached alert_id [] = []
  remove_cached alert_id ((contract, records) ∷ cache) =
      let rest = remove_cached alert_id cache in
      let kept = select (λ r. not (eq_ℤ r.id alert_id)) records in
      elim kept [ [] ↦ rest | r ∷ rs ↦ (contract, r ∷ rs) ∷ rest ]

  unfoldable pub remove_cached_price_alert : ℤ → System D → System D
  unfolding remove_cached
  remove_cached_price_alert alert_id s = record s {
    engine = record s.engine {
      price_alert_cache = remove_cached alert_id s.engine.price_alert_cache;
    };
  }

  abbrev pub cached : Option (List (AlertRecord D)) → List (AlertRecord D)
  cached none = []
  cached (some records) = records

  -- the copy that CheckPriceAlert makes of the cached records
  abbrev pub at_hand : Bytes → System D → List (AlertRecord D)
  at_hand contract s = cached (lookup text_key contract s.engine.price_alert_cache)

  -- m_priceAlertCache.swap(nextCache), in a critical section of its own
  unfoldable pub swap_cache : List (Bytes × List (AlertRecord D)) → System D → System D
  swap_cache cache s = record s { engine = record s.engine { price_alert_cache = cache } }

  unfoldable pub get_last_price : Bytes → System D → Option D
  get_last_price contract s = lookup text_key contract s.engine.last_prices

  unfoldable pub set_ctp_handler : System D → System D
  set_ctp_handler s = record s { engine = record s.engine { ctp_handler = true } }

  unfoldable pub subscribe_contract : Bytes → System D → System D
  subscribe_contract contract s =
      if s.engine.ctp_handler then record s { md = subscribe (contract ∷ []) s.md } else s

  -- `created`: CreateThread returns a handle
  unfoldable pub start_timer_thread : Bool → System D → System D × Bool
  start_timer_thread created s = (
    record s { engine = record s.engine { timer_thread = created; timer_running = created } },
    created,
  )

  unfoldable pub stop_timer_thread : System D → System D
  stop_timer_thread s = record s {
    engine = record s.engine { timer_thread = false; timer_running = false };
  }

module _ {D : Type 0} (W : World D) where
  abbrev pub cache_contract :
      Db D → Bytes → List (Bytes × List (AlertRecord D)) → List (Bytes × List (AlertRecord D))
  cache_contract db contract cache = elim (get_pending_price_alerts W.sqlite contract db) [
    | [] ↦ cache
    | r ∷ records ↦ insert text_key contract (r ∷ records) cache
  ]

  -- the loop over the contracts
  unfoldable pub fill_cache :
      Db D → List Bytes → List (Bytes × List (AlertRecord D)) → List (Bytes × List (AlertRecord D))
  fill_cache db [] cache = cache
  fill_cache db (contract ∷ contracts) cache =
      fill_cache db contracts (cache_contract db contract cache)

  -- nextCache, as the loop leaves it
  unfoldable pub next_cache : Db D → List (Bytes × List (AlertRecord D))
  unfolding fill_cache
  next_cache db = fill_cache db (get_pending_contracts W.sqlite db) []

  unfoldable pub refresh_price_alert_cache : System D → System D
  unfolding next_cache swap_cache
  refresh_price_alert_cache s = swap_cache (next_cache s.db) s

module _ {D : Type 0} (F : Float D) (W : World D) where
  -- the notification of a fired alert, or `none` where a text does not fit
  unfoldable pub alert_task : AlertRecord D → D → Bytes → Db D → Option NotifyTask
  alert_task rec last_price timestamp db = do
    msg ← format_into 512 (triggered_line F rec last_price timestamp)
    let email = email_of W.sqlite rec.user_id db
    subject ← format_into 256 (subject_text F rec)
    body ← format_into 1024 (body_text F rec last_price timestamp)
    some (record {
      user_id = rec.user_id;
      msg = msg;
      email_address = email;
      subject = subject;
      body = body;
    })

  unfoldable pub fire_alert : AlertRecord D → D → Bytes → System D → Option (System D)
  unfolding alert_task
  fire_alert rec last_price timestamp s = do
    task ← alert_task rec last_price timestamp s.db
    some (record s { notifier = notify task s.notifier })

  -- the two tests of CheckPriceAlert
  unfoldable pub meets : AlertRecord D → D → Bool
  meets rec last_price =
      if eq_ℤ rec.condition cond_ge && F.le rec.trigger_price last_price
      then true
      else eq_ℤ rec.condition cond_le && F.le last_price rec.trigger_price

  abbrev pub after_trigger :
      System D → Db D × Bool → (System D → Option (System D)) → Option (System D)
  after_trigger s (db, true) fire = fire (record s { db = db })
  after_trigger s (db, false) fire = some (record s { db = db })

  -- the body of the loop over the cached records
  unfoldable pub check_record : D → AlertRecord D → System D → Option (System D)
  unfolding meets
  check_record last_price rec s =
      if meets rec last_price
      then (after_trigger s (trigger_alert W.sqlite rec.id W.now s.db)
          (λ t. fire_alert rec last_price W.now (remove_cached_price_alert rec.id t)))
      else some s

  unfoldable pub check_records : D → List (AlertRecord D) → System D → Option (System D)
  unfolding check_record
  check_records last_price [] s = some s
  check_records last_price (rec ∷ records) s = do
    t ← check_record last_price rec s
    check_records last_price records t

  -- if (lastPrice > 0.0 && lastPrice < 1.0e100) m_lastPrices[contract] = lastPrice;
  unfoldable pub store_last_price : Bytes → D → System D → System D
  store_last_price contract last_price s =
      if F.lt F.zero last_price && F.lt last_price F.huge
      then record s {
        engine = record s.engine {
          last_prices = insert text_key contract last_price s.engine.last_prices;
        };
      }
      else s

  unfoldable pub check_price_alert : Bytes → D → System D → Option (System D)
  unfolding check_records store_last_price
  check_price_alert contract last_price s =
      let t = store_last_price contract last_price s in
      check_records last_price (at_hand contract t) t

  abbrev pub price_or_zero : Option D → D
  price_or_zero none = F.zero
  price_or_zero (some p) = p

  -- the body of the loop of CheckTimeAlerts
  unfoldable pub check_time_record : AlertRecord D → System D → Option (System D)
  check_time_record rec s =
      after_trigger s (trigger_alert W.sqlite rec.id W.now s.db)
        λ t. fire_alert rec (price_or_zero (get_last_price rec.contract t)) W.now t

  unfoldable pub check_time_records : List (AlertRecord D) → System D → Option (System D)
  unfolding check_time_record
  check_time_records [] s = some s
  check_time_records (rec ∷ records) s = do
    t ← check_time_record rec s
    check_time_records records t

  unfoldable pub check_time_alerts : System D → Option (System D)
  unfolding check_time_records
  check_time_alerts s = check_time_records (get_pending_time_alerts W.sqlite W.hms s.db) s

  -- One round of TimerThreadFunc; the result tells whether the thread goes on.
  unfoldable pub timer_round : System D → Option (System D × Bool)
  unfolding check_time_alerts
  timer_round s =
      if s.engine.timer_running
      then (do t ← check_time_alerts s; some (t, true))
      else some (s, false)
