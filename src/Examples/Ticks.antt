-- ===== src/Examples/Ticks.antt =====
-- The theorems on ticks, at a concrete price.
use cloud_alert_system.AlertEngine.{
  get_last_price, at_hand, fire_alert, check_price_alert, check_time_alerts,
}
use cloud_alert_system.Common.{
  ℕ, ◌≡◌, ◌≢◌, refl, inl, inr, Option, none, some, [], ◌∷◌, arith, select, count_if, All, pos,
  to_int, lookup, Grows,
}
use cloud_alert_system.Db.Alerts.{update_alerts, trigger_alert}
use cloud_alert_system.Db.Queries.{scan_alerts, get_pending_time_alerts}
use cloud_alert_system.Db.{AlertRecord, Db}
use cloud_alert_system.Protocol.{alert_type_time, status_pending}
use cloud_alert_system.System.{System}
use cloud_alert_system.Text.{codes, same_text, c_str, format_into}
use cloud_alert_system.Examples.{prices, rb2610, waiting, tables, world, system}
use cloud_alert_system.AlertEngine.Message.{triggered_line, subject_text, body_text}
use cloud_alert_system.Text.Number.{print_int}
use cloud_alert_system.Db.Valid.{IsValid}
use cloud_alert_system.AlertEngine.Ticks.{Fired, check_price_alert-Fired}
use cloud_alert_system.AlertEngine.Queued.{Adds, check_price_alert-Adds}
use cloud_alert_system.AlertEngine.Seconds.{check_time_alerts-NoneDue}

-- a tick at 3.10 fires Alice's alert at 3.00
abbrev result : Option (System ℕ) → System ℕ
result none = system
result (some t) = t

abbrev tick_end : System ℕ
tick_end = result (check_price_alert prices world rb2610 310 system)

tick_runs : check_price_alert prices world rb2610 310 system ≡ some tick_end
unfolding check_price_alert lookup same_text trigger_alert update_alerts count_if fire_alert
    format_into triggered_line print_int c_str subject_text body_text
tick_runs = refl

check_price_alert-Fired_example :
    Grows (Fired prices world (at_hand rb2610 system) 310) tables.alerts tick_end.db.alerts
check_price_alert-Fired_example =
    check_price_alert-Fired prices world rb2610 310 system tick_end tick_runs

check_price_alert-Adds_example : Adds prices world (at_hand rb2610 system) 310 system tick_end
check_price_alert-Adds_example =
    check_price_alert-Adds prices world rb2610 310 system tick_end tick_runs

-- an alert for noon
abbrev reminder : AlertRecord ℕ
reminder = record waiting { alert_type = pos 1; trigger_time = codes "12:00:00" }

abbrev reminders : Db ℕ
reminders = record { users = []; user_seq = 0; alerts = reminder ∷ []; alert_seq = 1 }

reminders-IsValid : IsValid reminders
reminders-IsValid = record {
  user_ids = omega arith;
  names = tt;
  alert_ids = (refl, omega arith, omega arith);
  codes = ((inl refl, inr refl, unfold c_str in refl), tt);
}

abbrev before_noon : System ℕ
before_noon = record system { db = reminders }

abbrev after_noon : System ℕ
after_noon = result (check_time_alerts prices world before_noon)

noon_runs : check_time_alerts prices world before_noon ≡ some after_noon
unfolding check_time_alerts get_pending_time_alerts scan_alerts select lookup get_last_price
    same_text trigger_alert update_alerts count_if fire_alert format_into triggered_line print_int
    c_str subject_text body_text to_int
noon_runs = refl

check_time_alerts-NoneDue_example :
    All
      (λ r.
        r.status ≡ status_pending
        → r.alert_type ≡ alert_type_time
        → r.trigger_time ≢ c_str world.hms)
      after_noon.db.alerts
check_time_alerts-NoneDue_example =
    check_time_alerts-NoneDue prices world before_noon after_noon reminders-IsValid (omega arith)
      refl (omega arith) (λ a. (refl, refl)) noon_runs
