-- ===== src/MfcClient/Frame.antt =====
-- What the refreshes of the list leave of the main window (MFCClient/MainFrame.cpp).
use cloud_alert_system.Common.{
  ℕ, zero, suc, ◌≡◌, refl, ap, Bool, true, false, not, List, [], ◌∷◌, if◌then◌else◌,
}
use cloud_alert_system.Text.{Bytes, codes}
use cloud_alert_system.Double.{Float}
use cloud_alert_system.Text.Split.{join}
use cloud_alert_system.Text.Number.{print_int}
use cloud_alert_system.MfcClient.{Row, refresh_rows}
use cloud_alert_system.MfcClient.Window.{Host, Window, is_logged_in, set_status, ask}
use cloud_alert_system.MfcClient.Lists.{
  refresh_current_prices, refresh_alerts, contracts_of, put_prices,
}
use cloud_alert_system.MfcClient.Lists.{priced, asked_prices, is_refused, loaded_text, asked_status}

-- only the list, its title and the status may differ
abbrev pub Lists : Window → Window → Type 0
Lists w v = v ≡ record w { list = v.list; list_title = v.list_title; status = v.status }

pub if-both :
    {A : Type 0} (P : A → Type 0) (b : Bool) {x y : A} → P x → P y → P (if b then x else y)
if-both P true h k = h
if-both P false h k = k

set_status-Lists : (text : Bytes) (w v : Window) → Lists w v → Lists w (set_status text v)
set_status-Lists text w v e = ap (λ (x : Window). record x { status = text }) e

module _ {D : Type 0} (F : Float D) (strtod : Bytes → D × Bytes) where
  priced-Lists : (w : Window) (r : List Row × ℕ) → Lists w (priced F strtod w r)
  priced-Lists w (rows, zero) = refl
  priced-Lists w (rows, suc n) = refl

  asked_prices-Lists :
      (h : Host) (cs : List Bytes) (w : Window) → Lists w (asked_prices F strtod h cs w)
  asked_prices-Lists h [] w = refl
  asked_prices-Lists h (c ∷ cs) w =
      let answer = ask h true (join (codes "GET_PRICES" ∷ c ∷ cs)) w in
      if-both (Lists w) (not answer.0) refl (
        if-both (Lists w) (is_refused F strtod answer.1) refl
          (priced-Lists w (put_prices F strtod answer.1 w.list)))

  pub prices-Lists : (h : Host) (w : Window) → Lists w (refresh_current_prices F strtod h w)
  unfolding refresh_current_prices
  prices-Lists h w =
      if-both (Lists w) (is_logged_in w) (asked_prices-Lists h (contracts_of h w.list []) w) refl

  pub refresh_alerts-Lists : (h : Host) (w : Window) → Lists w (refresh_alerts F strtod h w)
  unfolding refresh_alerts
  refresh_alerts-Lists h w =
      let titled : Window = record w {
        list_title = if w.show_deleted_only then codes "Deleted Alerts" else codes "Alert List";
      } in
      let answer =
        ask h true (join (codes "QUERY" ∷ w.username ∷ print_int (asked_status F strtod w) ∷ []))
          titled in
      let listed : Window = record titled {
        list = refresh_rows F strtod w.show_deleted_only answer.1;
      } in
      let priced = refresh_current_prices F strtod h listed in
      if-both (Lists w) (not (is_logged_in w)) refl (
        if-both (Lists w) answer.0
          (set_status-Lists (loaded_text F strtod priced) w priced (prices-Lists h listed)) refl)
