-- ===== src/MfcClient/Actions.antt =====
-- The handlers of the main window's controls and messages (MFCClient/MainFrame.cpp).
use cloud_alert_system.Common.{
  ℕ, zero, suc, Bool, true, false, ◌||◌, not, Option, none, some, List, [], ◌∷◌, ◌++◌,
  if◌then◌else◌, ℤ, pos, eq_ℤ,
}
use cloud_alert_system.Text.{Bytes, codes, is_empty}
use cloud_alert_system.Double.{Float}
use cloud_alert_system.Protocol.{alert_type_price}
use cloud_alert_system.MfcClient.Commands.{
  add_command, register_command, has_at, modify_command, delete_command,
}
use cloud_alert_system.MfcClient.Window.{
  Host, Window, Modal, start_dialog, login_dialog, email_dialog, contract_menu, notice_box,
  delete_box, Message, post_login_message, close_message, is_logged_in, set_status,
  update_button_state, stop_connection,
}
use cloud_alert_system.MfcClient.Editing.{update_editor_mode, enter_add_mode, price_selected}
use cloud_alert_system.MfcClient.Account.{
  login_user, request_register, request_change_email, refresh_email, run_simple_command,
}
use cloud_alert_system.MfcClient.Lists.{refresh_current_prices, refresh_alerts}

-- the contracts of OnPickContract
abbrev pub contract_codes : List Bytes
contract_codes =
    codes "rb2609"
    ∷ codes "rb2607"
    ∷ codes "hc2609"
    ∷ codes "i2609"
    ∷ codes "MA609"
    ∷ codes "TA609"
    ∷ codes "jd2609"
    ∷ codes "m2609"
    ∷ codes "y2609"
    ∷ codes "p2609"
    ∷ codes "c2609"
    ∷ codes "CF609"
    ∷ codes "SR609"
    ∷ codes "au2612"
    ∷ codes "ag2612"
    ∷ []

-- what the menu returned less 7000, for a code of the menu
abbrev pub picked : List Bytes → ℕ → Option Bytes
picked [] n = none
picked (c ∷ cs) zero = some c
picked (c ∷ cs) (suc n) = picked cs n

abbrev pub pick : Option Bytes → Window → Window
pick none w = w
pick (some c) w = record w { editor = record w.editor { contract = c } }

unfoldable pub on_pick_contract : ℕ → Window → Window
on_pick_contract index w = pick (picked contract_codes index) w

-- the selection of the type box changes, and OnAlertTypeChanged
unfoldable pub on_alert_type_changed : ℤ → Window → Window
unfolding update_editor_mode
on_alert_type_changed sel w =
    let v = record w { editor = record w.editor { type_sel = sel } } in
    if w.edit_mode then v else update_editor_mode v

unfoldable pub on_disconnected : Window → Window
unfolding enter_add_mode update_button_state
on_disconnected w =
    if w.closing
    then w
    else update_button_state (
        enter_add_mode (record w {
          price_timer = false;
          status =
              codes "Disconnected from server. Please check whether Server.exe is still running.";
          connected = false;
          username = [];
          email = [];
          show_deleted_only = false;
          list = [];
        }))

-- OnLogout: the rest of it is after_login, and `dismissed` of its login dialog
unfoldable pub on_logout : Window → Window
unfolding stop_connection enter_add_mode update_button_state
on_logout w = update_button_state (
    set_status (codes "Logged out.") (
      enter_add_mode (record (stop_connection w) {
        price_timer = false;
        username = [];
        email = [];
        show_deleted_only = false;
        list = [];
        modals = login_dialog ∷ w.modals;
      })))

unfoldable pub on_close : Window → Window
unfolding stop_connection
on_close w = record (stop_connection (record w { price_timer = false })) { destroyed = true }

abbrev pub open_modal : Modal → Window → Window
open_modal m w = record w { modals = m ∷ w.modals }

-- a login dialog ends with IDOK, and BeginPostLoginRefresh
abbrev pub after_login : List Modal → Window × Option Bytes → Window
after_login below (w, none) = record w {
  modals = below;
  posted = w.posted ++ post_login_message ∷ [];
}
after_login below (w, some error) = w

-- OnLogin of a login dialog
abbrev pub login_in : Host → Bytes → Bytes → List Modal → Window → Window
login_in h user password below w =
    if is_empty (h.trim user) || is_empty (h.trim password)
    then w
    else after_login below (login_user h (h.trim user) (h.trim password) w)

abbrev pub login_on : Host → Bytes → Bytes → List Modal → Window → Window
login_on h user password (login_dialog ∷ below) w = login_in h user password below w
login_on h user password (start_dialog ∷ below) w = login_in h user password below w
login_on h user password _ w = w

-- what OnSubmit of the registration dialog does with its fields, which it has trimmed
abbrev pub registered : Host → Bytes → Bytes → Bytes → Option Bytes → Window → Window
registered h user password email none w = w
registered h user password email (some line) w = (request_register h user password email w).0

-- the registration dialog is opened from a login dialog
abbrev pub asks_login : List Modal → Bool
asks_login (login_dialog ∷ below) = true
asks_login (start_dialog ∷ below) = true
asks_login _ = false

abbrev pub register_on : Host → Bytes → Bytes → Bytes → Bytes → Window → Window
register_on h user password again email w =
    if asks_login w.modals
    then registered h user password email (register_command user password again email) w
    else w

abbrev pub choose_on : ℕ → List Modal → Window → Window
choose_on index (contract_menu ∷ below) w = on_pick_contract index (record w { modals = below })
choose_on index _ w = w

module _ {D : Type 0} (F : Float D) (strtod : Bytes → D × Bytes) where
  abbrev pub ran : Host → Bytes → Window → Option Bytes → Window
  ran h success w none = w
  ran h success w (some line) =
      enter_add_mode (refresh_alerts F strtod h (run_simple_command h line success w))

  unfoldable pub on_add_price : Host → Window → Window
  unfolding run_simple_command refresh_alerts enter_add_mode
  on_add_price h w =
      let e = w.editor in
      ran h (if price_selected w then codes "Price alert added." else codes "Time alert added.") w (
        add_command F strtod (price_selected w) w.username (h.trim e.contract) (h.trim e.price)
          (h.trim e.time) e.cond_sel)

  unfoldable pub on_modify_price : Host → Window → Window
  unfolding run_simple_command refresh_alerts enter_add_mode
  on_modify_price h w =
      let e = w.editor in
      let is_price = eq_ℤ w.edit_alert_type alert_type_price in
      ran h (if is_price then codes "Price alert modified." else codes "Time alert modified.") w (
        modify_command F strtod is_price (h.trim e.id) (h.trim e.contract) (h.trim e.price)
          (h.trim e.time) e.cond_sel)

  abbrev pub asked_delete : Option Bytes → Window → Window
  asked_delete none w = w
  asked_delete (some line) w = open_modal (delete_box line) w

  -- OnDeleteAlert up to its question
  unfoldable pub on_delete_alert : Host → Window → Window
  on_delete_alert h w = asked_delete (delete_command (h.trim w.editor.id)) w

  -- IDYES, and the rest of OnDeleteAlert
  abbrev pub confirm_on : Host → List Modal → Window → Window
  confirm_on h (delete_box line ∷ below) w =
      ran h (codes "Alert deleted.") (record w { modals = below }) (some line)
  confirm_on h _ w = w

  unfoldable pub on_refresh : Host → Window → Window
  unfolding refresh_email refresh_alerts
  on_refresh h w = refresh_alerts F strtod h (refresh_email h w)

  unfoldable pub on_view_deleted : Host → Window → Window
  unfolding update_button_state refresh_alerts enter_add_mode
  on_view_deleted h w =
      if is_logged_in w
      then enter_add_mode (
          refresh_alerts F strtod h (
            update_button_state
              (record w { show_deleted_only = not w.show_deleted_only; status_sel = pos 0 })))
      else w

  -- the selection of the status box changes, and OnStatusFilterChanged
  unfoldable pub on_status_filter_changed : Host → ℤ → Window → Window
  unfolding update_button_state refresh_alerts
  on_status_filter_changed h sel w =
      let v = record w { status_sel = sel } in
      if is_logged_in w
      then refresh_alerts F strtod h (update_button_state (record v { show_deleted_only = false }))
      else v

  unfoldable pub on_post_login : Host → Window → Window
  unfolding update_button_state refresh_alerts refresh_email
  on_post_login h w =
      if is_logged_in w
      then update_button_state
          (record (refresh_alerts F strtod h
            (refresh_email h (set_status (codes "Loading account data...") w))) {
              price_timer = true;
            })
      else w

  -- TIMER_PRICE_REFRESH
  unfoldable pub on_timer : Host → Window → Window
  unfolding refresh_current_prices
  on_timer h w = if is_logged_in w then refresh_current_prices F strtod h w else w

  -- the dialog of OnSetEmail ends with IDOK
  abbrev pub after_dialog : Host → List Modal → Window × Option Bytes → Window
  after_dialog h below (w, none) = refresh_alerts F strtod h (record w { modals = below })
  after_dialog h below (w, some error) = w

  -- OnSetEmail up to its dialog
  unfoldable pub on_set_email : Window → Window
  on_set_email w = if is_logged_in w then open_modal email_dialog w else w

  -- OnSubmit of the dialog, and the rest of OnSetEmail
  abbrev pub change_on : Host → Bytes → Bytes → List Modal → Window → Window
  change_on h password email (email_dialog ∷ below) w =
      if is_empty (h.trim password) || (is_empty (h.trim email) || not (has_at (h.trim email)))
      then w
      else after_dialog h below (request_change_email h (h.trim password) (h.trim email) w)
  change_on h password email _ w = w

  -- OnTriggered up to its box
  unfoldable pub on_triggered_line : Bytes → Window → Window
  on_triggered_line line w = open_modal notice_box (set_status line w)

  -- the last dialog, box or menu is cancelled or closed, and what its handler does then
  unfoldable pub dismissed : Host → List Modal → Window → Window
  unfolding refresh_alerts
  dismissed h [] w = w
  dismissed h (start_dialog ∷ below) w = record w { modals = below; destroyed = true }
  dismissed h (login_dialog ∷ below) w = record w {
    modals = below;
    posted = w.posted ++ close_message ∷ [];
  }
  dismissed h (notice_box ∷ below) w = refresh_alerts F strtod h (record w { modals = below })
  dismissed h (_ ∷ below) w = record w { modals = below }

  -- the first message in the queue is taken out
  abbrev pub next_of : Host → List Message → Window → Window
  next_of h [] w = w
  next_of h (post_login_message ∷ rest) w = on_post_login h (record w { posted = rest })
  next_of h (close_message ∷ rest) w = on_close (record w { posted = rest })
