-- ===== src/MfcClient/Lists.antt =====
-- The list of the main window: RefreshAlerts and RefreshCurrentPrices of MFCClient/MainFrame.cpp.
use cloud_alert_system.Common.{
  ℕ, zero, suc, ◌+◌, Bool, true, false, ◌&&◌, ◌||◌, not, List, [], ◌∷◌, ◌++◌, ltb, ◌==◌,
  if◌then◌else◌, length, ℤ, pos, eq_ℤ, to_int,
}
use cloud_alert_system.Text.{Bytes, codes, same_text, is_empty, starts_with}
use cloud_alert_system.Double.{Float}
use cloud_alert_system.Protocol.{status_pending, status_triggered, status_deleted, query_all}
use cloud_alert_system.Text.Split.{split_line}
use cloud_alert_system.Text.Split.{split_line, join}
use cloud_alert_system.Text.Number.{print_int}
use cloud_alert_system.MfcClient.{Row, format_price_text, refresh_rows}
use cloud_alert_system.MfcClient.Window.{Host, Window, is_logged_in, set_status, ask}

-- s < t, byte by byte
unfoldable pub text_before : Bytes → Bytes → Bool
text_before s [] = false
text_before [] (b ∷ t) = true
text_before (a ∷ s) (b ∷ t) = ltb a b || (a == b && text_before s t)

-- std::set<std::string>::insert
unfoldable pub insert_contract : Bytes → List Bytes → List Bytes
unfolding text_before
insert_contract c [] = c ∷ []
insert_contract c (d ∷ ds) =
    let rest = insert_contract c ds in
    if text_before c d then c ∷ d ∷ ds else if same_text c d then d ∷ ds else d ∷ rest

-- the contracts of the rows
unfoldable pub contracts_of : Host → List Row → List Bytes → List Bytes
unfolding insert_contract
contracts_of h [] found = found
contracts_of h (row ∷ rows) found =
    let contract = h.trim row.contract in
    contracts_of h rows (if is_empty contract then found else insert_contract contract found)

-- the inner loop over the rows for one PRICE line, and how many were updated
unfoldable pub put_price : Bytes → Bytes → List Row → List Row × ℕ
put_price contract price [] = ([], 0)
put_price contract price (row ∷ rows) =
    let (rest, n) = put_price contract price rows in
    if same_text row.contract contract
    then (
      record row { last_price = price } ∷ rest,
      if same_text price (codes "-") then n else suc n,
    )
    else (row ∷ rest, n)

module _ {D : Type 0} (F : Float D) (strtod : Bytes → D × Bytes) where
  abbrev put_fields : List Bytes → List Row → List Row × ℕ
  put_fields (_ ∷ contract ∷ price ∷ _) rows =
      put_price contract (format_price_text F strtod price) rows
  put_fields _ rows = (rows, 0)

  -- the loop over the lines
  unfoldable pub put_prices : List Bytes → List Row → List Row × ℕ
  unfolding put_price
  put_prices [] rows = (rows, 0)
  put_prices (line ∷ lines) rows =
      let skipped = put_prices lines rows in
      let (updated, n) = put_fields (split_line line) rows in
      let (all, m) = put_prices lines updated in
      if starts_with (codes "PRICE ") line then (all, n + m) else skipped

  abbrev pub is_refused : List Bytes → Bool
  is_refused [] = false
  is_refused (line ∷ lines) = starts_with (codes "ERR") line

  abbrev pub priced : Window → List Row × ℕ → Window
  priced w (rows, zero) = record w {
    list = rows;
    status = codes "Current prices waiting for CTP market data ticks.";
  }
  priced w (rows, suc n) = record w { list = rows }

  abbrev pub asked_prices : Host → List Bytes → Window → Window
  asked_prices h [] w = w
  asked_prices h (c ∷ cs) w =
      let answer = ask h true (join (codes "GET_PRICES" ∷ c ∷ cs)) w in
      if not answer.0
      then set_status (codes "Current prices unavailable: price query timed out.") w
      else if is_refused answer.1
      then set_status (codes "Current prices unavailable: please restart the updated Server.exe.") w
      else priced w (put_prices answer.1 w.list)

  unfoldable pub refresh_current_prices : Host → Window → Window
  unfolding ask contracts_of put_prices
  refresh_current_prices h w =
      if is_logged_in w then asked_prices h (contracts_of h w.list []) w else w

  -- the status that RefreshAlerts asks for
  abbrev pub asked_status : Window → ℤ
  asked_status w =
      if w.show_deleted_only
      then status_deleted
      else if eq_ℤ w.status_sel (pos 1)
      then status_pending
      else if eq_ℤ w.status_sel (pos 2)
      then status_triggered
      else query_all

  abbrev pub loaded_text : Window → Bytes
  loaded_text w =
      codes "Loaded "
      ++ print_int (to_int (pos (length w.list)))
      ++ (if w.show_deleted_only then codes " deleted alert(s)." else codes " alert(s).")

  abbrev pub loaded : Window → Window
  loaded w = set_status (loaded_text w) w

  unfoldable pub refresh_alerts : Host → Window → Window
  unfolding ask refresh_current_prices
  refresh_alerts h w =
      let titled = record w {
        list_title = if w.show_deleted_only then codes "Deleted Alerts" else codes "Alert List";
      } in
      let answer =
        ask h true (join (codes "QUERY" ∷ w.username ∷ print_int (asked_status w) ∷ [])) titled in
      let rows = refresh_rows F strtod w.show_deleted_only answer.1 in
      if not (is_logged_in w)
      then w
      else if answer.0
      then loaded (refresh_current_prices h (record titled { list = rows }))
      else set_status (codes "Query timeout or connection error.") titled
