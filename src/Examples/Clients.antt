-- ===== src/Examples/Clients.antt =====
-- The theorems on the clients at concrete data.
use cloud_alert_system.Common.{
  ℕ, ◌+◌, ◌≤◌, ◌≡◌, ◌↔◌, refl, inl, true, false, none, some, List, [], ◌∷◌, ◌++◌, arith, length,
  pos,
}
use cloud_alert_system.Text.{Bytes, codes, c_str, is_space, starts_with, format_into}
use cloud_alert_system.Text.Split.{IsToken, join}
use cloud_alert_system.Text.Number.{atoi, digits_value, skip_space, is_digit}
use cloud_alert_system.AlertEngine.Message.{triggered_line}
use cloud_alert_system.ClientSession.Lines.{alert_line}
use cloud_alert_system.Examples.{prices, alice, secret, rb2610, waiting}
use cloud_alert_system.Client.{recv_text, do_cmd_one_line}
use cloud_alert_system.Client.Menu.{
  Console, Menu, Line, console_set_email, menu_round, perform_choice, selected_of, fgets_more,
  cut_line, field, console_login,
}
use cloud_alert_system.Client.Bounds.{console_set_email_iff}
use cloud_alert_system.Client.LoggedIn.{Unlogged, menu_round-Unlogged}
use cloud_alert_system.MfcClient.{add_alert_line}
use cloud_alert_system.MfcClient.Notices.{on_triggered}
use cloud_alert_system.MfcClient.Received.{
  Prints, IsStamp, expected_notice, triggered_line-on_triggered,
}
use cloud_alert_system.MfcClient.Rows.{expected_row, alert_line-add_alert_line}
use cloud_alert_system.MfcClient.Window.{
  Host, Window, Buttons, email_dialog, buttons_of, update_button_state, ensure_connected,
  start_receiver, ask,
}
use cloud_alert_system.MfcClient.{send_command, read_answer, is_last, is_ok, refresh_rows}
use cloud_alert_system.MfcClient.Account.{login_user, request_change_email, refresh_email}
use cloud_alert_system.MfcClient.Editing.{enter_add_mode, update_editor_mode}
use cloud_alert_system.MfcClient.Lists.{refresh_alerts, refresh_current_prices, contracts_of}
use cloud_alert_system.MfcClient.Actions.{
  on_disconnected, on_post_login, on_view_deleted, dismissed,
}
use cloud_alert_system.MfcClient.Events.{Event, act, react, reacts}
use cloud_alert_system.MfcClient.Created.{created, on_create}
use cloud_alert_system.MfcClient.Shown.{Shown, reacts-Shown}
use cloud_alert_system.MfcClient.Offline.{disconnected-nobody}
use cloud_alert_system.MfcClient.Out.{asks_nobody}
use cloud_alert_system.Text.{same_text}
use cloud_alert_system.Text.Number.{print_int}

abbrev read_price : Bytes → ℕ × Bytes
read_price s = (100, [])

word_IsToken : IsToken (codes "1.00")
word_IsToken = record { ne_nil = λ e. cc; solid = unfold is_space in ground arith }

prices-Prints : Prints prices read_price
prices-Prints = record { token = λ p. word_IsToken; whole = λ p. refl; stable = λ p. refl }

contract_IsToken : IsToken (c_str rb2610)
contract_IsToken =
    unfold c_str in record { ne_nil = λ e. cc; solid = unfold is_space in ground arith }

dash_IsToken : IsToken (codes "-")
dash_IsToken = record { ne_nil = λ e. cc; solid = unfold is_space in ground arith }

noon-IsStamp : IsStamp (codes "2026-05-01") (codes "12:00:00")
noon-IsStamp = record {
  day = record { ne_nil = λ e. cc; solid = unfold is_space in ground arith };
  clock = record { ne_nil = λ e. cc; solid = unfold is_space in ground arith };
  plain = unfold c_str in refl;
}

triggered_line-on_triggered_example :
    (text : Bytes) × (recv_text []
        (triggered_line prices waiting 310 (codes "2026-05-01" ++ 32 ∷ codes "12:00:00") ++ [])
      ≡ some (text, []))
    × (on_triggered prices read_price text
        ≡ expected_notice prices read_price waiting 310
            (codes "2026-05-01" ++ 32 ∷ codes "12:00:00"))
triggered_line-on_triggered_example =
    triggered_line-on_triggered prices read_price waiting 310 (codes "2026-05-01")
      (codes "12:00:00") [] prices-Prints contract_IsToken dash_IsToken noon-IsStamp (omega arith)
      (inl refl)

alert_line-add_alert_line_example :
    add_alert_line prices read_price (alert_line prices waiting)
    ≡ some (expected_row prices read_price waiting (codes "2026-05-01" ++ 32 ∷ codes "12:00:00"))
alert_line-add_alert_line_example =
    alert_line-add_alert_line prices read_price waiting (codes "2026-05-01") (codes "12:00:00")
      prices-Prints (inl refl, inl refl, unfold c_str in refl) (inl refl) contract_IsToken
      dash_IsToken noon-IsStamp refl

abbrev host : Host
host = record {
  connects = true;
  makes_thread = true;
  sends = λ line. true;
  incoming = λ line. codes "OK" ∷ [];
  trim = λ s. s;
}

abbrev shown : Buttons
shown = record {
  set_email = true;
  add_price = true;
  mod_price = false;
  mod_time = false;
  delete = false;
  contract_pick = true;
  deleted_view = true;
  refresh = true;
  logout = true;
  deleted_view_text = codes "Deleted Only";
  user_info = codes "Current user: alice";
  email_info = codes "Email: -";
  connection_info = codes "Server: 127.0.0.1:8888 | Online";
}

abbrev window : Window
window = record {
  connected = true;
  closing = false;
  edit_mode = false;
  show_deleted_only = false;
  edit_alert_type = pos 0;
  username = alice;
  email = [];
  recv_thread = true;
  list = [];
  list_title = codes "Alert List";
  status_sel = pos 0;
  editor = record {
    title = codes "New Alert";
    id = [];
    type_sel = pos 0;
    contract = rb2610;
    price = codes "310";
    cond_sel = pos 0;
    time = codes "09:30:00";
  };
  buttons = shown;
  status = [];
  price_timer = true;
  modals = email_dialog ∷ [];
  posted = [];
  destroyed = false;
}

-- Alice logs in, her alerts are loaded, and she goes to the deleted ones
abbrev session_events : List (Host × Event)
session_events =
    (host, Event.submit_login alice secret)
    ∷ (host, Event.next_message)
    ∷ (host, Event.view_deleted)
    ∷ []

session_open : (reacts prices read_price session_events created).destroyed ≡ false
unfolding reacts react act created on_create enter_add_mode update_editor_mode update_button_state
    buttons_of login_user ensure_connected start_receiver ask send_command read_answer is_last
    same_text starts_with is_ok join on_post_login on_view_deleted refresh_alerts refresh_email
    refresh_rows refresh_current_prices contracts_of print_int
session_open = refl

reacts-Shown_example : Shown (reacts prices read_price session_events created)
reacts-Shown_example = reacts-Shown prices read_price session_events session_open

-- the connection ends while the e-mail dialog is open, and the dialog is submitted
abbrev lost_events : List (Host × Event)
lost_events = (host, Event.submit_email secret (codes "a@x.org")) ∷ (host, Event.dismiss) ∷ []

disconnected-nobody_example :
    (reacts prices read_price lost_events
      (react prices read_price host Event.disconnected window)).username
    ≡ []
disconnected-nobody_example =
    disconnected-nobody prices read_price host lost_events window refl refl
      (unfold asks_nobody in refl)

-- the e-mail dialog connects again, and nobody is logged in
connected_again :
    (reacts prices read_price lost_events
      (react prices read_price host Event.disconnected window)).connected
    ≡ true
unfolding reacts react act on_disconnected enter_add_mode update_editor_mode update_button_state
    buttons_of request_change_email ensure_connected dismissed
connected_again = refl

console_set_email_iff_example :
    (console_set_email alice secret (codes "a@x.org") ≡ none)
    ↔ (244 ≤ length alice + length secret + length (codes "a@x.org"))
console_set_email_iff_example = console_set_email_iff alice secret (codes "a@x.org")

abbrev console : Console ℕ
console = record {
  scan_int = λ s. (pos 1, s);
  scan_double = λ s. (100, s);
  print_4 = λ p. codes "1.0000";
}

abbrev line : Line
line = record { sends = true; incoming = codes "OK" ∷ [] }

-- a login is typed
abbrev menu : Menu
menu = record {
  username = [];
  input = 50 ∷ 10 ∷ alice ++ (10 ∷ (secret ++ 10 ∷ []));
  commands = [];
  printed = [];
}

abbrev logged_menu : Menu
logged_menu = record {
  username = alice;
  input = [];
  commands = codes "LOGIN alice secret" ∷ [];
  printed = [];
}

menu_logs_in : menu_round console line menu ≡ some (logged_menu, true)
unfolding menu_round perform_choice selected_of fgets_more cut_line field console_login format_into
    join do_cmd_one_line starts_with atoi digits_value skip_space is_digit is_space
menu_logs_in = refl

menu_round-Unlogged_example : Unlogged line menu logged_menu
menu_round-Unlogged_example =
    menu_round-Unlogged console line menu logged_menu true refl menu_logs_in
