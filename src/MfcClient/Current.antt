-- ===== src/MfcClient/Current.antt =====
-- The buttons of the main window (UpdateButtonState of MFCClient/MainFrame.cpp).
use cloud_alert_system.Common.{
  ℕ, List, ◌&&◌, true, ◌≡◌, refl, sym, subst, Bool, false, ◌||◌, not, Option, none, some, [], ◌∷◌,
  if◌then◌else◌,
}
use cloud_alert_system.Text.{Bytes, codes, is_empty}
use cloud_alert_system.Text.Split.{join}
use cloud_alert_system.MfcClient.{Row}
use cloud_alert_system.MfcClient.Window.{
  Host, Window, is_logged_in, set_status, ask, buttons_of, update_button_state, ensure_connected,
}
use cloud_alert_system.MfcClient.Editing.{edit_row, update_editor_mode, enter_add_mode}
use cloud_alert_system.MfcClient.Account.{request_change_email, refresh_email, run_simple_command}
use cloud_alert_system.MfcClient.Window.{done_ok, front_or}
use cloud_alert_system.MfcClient.Actions.{
  contract_codes, picked, pick, on_pick_contract, after_login, login_in, login_on, registered,
  choose_on,
}
use cloud_alert_system.MfcClient.Events.{no_modal, press}
use cloud_alert_system.MfcClient.Window.{
  Modal, start_dialog, login_dialog, contract_menu, Message, start_receiver,
}
use cloud_alert_system.MfcClient.Account.{login_user, request_register, logged}
use cloud_alert_system.MfcClient.Frame.{Lists, if-both}

-- the buttons and the account's texts are those that the members ask for
pub record Current (w : Window) : Type 0 where
  pub shown : w.buttons ≡ buttons_of w

pub add_mode-Current : (w : Window) → Current (enter_add_mode w)
unfolding enter_add_mode update_editor_mode update_button_state buttons_of
add_mode-Current w = record { shown = refl }

pub Lists-Current : (w v : Window) → Lists w v → Current w → Current v
Lists-Current w v e h = subst Current (sym e) (record { shown = unfold buttons_of in h.shown })

pub status-Current : (text : Bytes) (w : Window) → Current w → Current (set_status text w)
status-Current text w h = record { shown = unfold buttons_of in h.shown }

run-Current :
    (h : Host) (line success : Bytes) (w : Window)
    → Current w
    → Current (run_simple_command h line success w)
unfolding run_simple_command
run-Current h line success w k = if-both Current (is_logged_in w) (status-Current _ w k) k

pub email-Current : (h : Host) (w : Window) → Current w → Current (refresh_email h w)
unfolding refresh_email update_button_state buttons_of
email-Current h w k = if-both Current (is_logged_in w) (record { shown = refl }) k

connected-Current : (h : Host) (w : Window) → Current w → Current (ensure_connected h w).0
unfolding ensure_connected update_button_state buttons_of
connected-Current h w k =
    if-both (λ (r : Window × Bool). Current r.0) w.connected k
      (if-both (λ (r : Window × Bool). Current r.0) h.connects (record { shown = refl })
        (status-Current _ w k))

pub change-Current :
    (h : Host) (password email : Bytes) (w : Window)
    → Current w
    → Current (request_change_email h password email w).0
unfolding request_change_email update_button_state buttons_of
change-Current h password email w k =
    let v = (ensure_connected h w).0 in
    let c = connected-Current h w k in
    let answer = ask h false (join (codes "SET_EMAIL" ∷ v.username ∷ password ∷ email ∷ [])) v in
    let P : Window × Option Bytes → Type 0 = λ r. Current r.0 in
    if-both P (not (ensure_connected h w).1 || is_empty v.username)
      {x = (v, some (codes "Please login first."))}
      {y = if done_ok answer
        then (
          update_button_state (record v { status = codes "Email updated."; email = email }),
          none,
        )
        else (v, some (front_or (codes "Failed to update email.") answer.1))}
      c
      (if-both P (done_ok answer)
        {x = (
          update_button_state (record v { status = codes "Email updated."; email = email }),
          none,
        )}
        {y = (v, some (front_or (codes "Failed to update email.") answer.1))}
        (record { shown = refl }) c)

pub edit_row-Current : (row : Option Row) (w : Window) → Current w → Current (edit_row row w)
unfolding update_editor_mode update_button_state buttons_of
edit_row-Current none w k = k
edit_row-Current (some row) w k = record { shown = refl }

pick-Current : (c : Option Bytes) (w : Window) → Current w → Current (pick c w)
pick-Current none w k = k
pick-Current (some c) w k = record { shown = unfold buttons_of in k.shown }

-- the open dialogs and the messages in the queue are not shown
pub queue-Current :
    (ms : List Modal) (ps : List Message) (w : Window)
    → Current w
    → Current (record w { modals = ms; posted = ps })
queue-Current ms ps w k = record { shown = unfold buttons_of in k.shown }

pub press-Current : (b : Bool) (w v : Window) → Current w → Current v → Current (press b w v)
press-Current b w v k l = if-both Current (no_modal w.modals && b) l k

logged-Current : (r : Window × Bool) → Current (logged r).0
unfolding update_button_state buttons_of
logged-Current (w, true) = record { shown = refl }
logged-Current (w, false) = record { shown = refl }

login-Current :
    (h : Host) (user password : Bytes) (w : Window)
    → Current w
    → Current (login_user h user password w).0
unfolding login_user
login-Current h user password w k =
    let (v, ready) = ensure_connected h w in
    let answer = ask h false (join (codes "LOGIN" ∷ user ∷ password ∷ [])) v in
    let r = logged (start_receiver h (record v { username = user; show_deleted_only = false })) in
    let P : Window × Option Bytes → Type 0 = λ r. Current r.0 in
    if-both P (not ready) {x = (v, some (codes "Cannot connect to server. Is Server.exe running?"))}
      {y = if done_ok answer then r else (v, some (front_or (codes "Login failed.") answer.1))}
      (connected-Current h w k)
      (if-both P (done_ok answer) {x = r}
        {y = (v, some (front_or (codes "Login failed.") answer.1))}
        (logged-Current
          (start_receiver h (record v { username = user; show_deleted_only = false })))
        (connected-Current h w k))

after_login-Current :
    (below : List Modal) (r : Window × Option Bytes) → Current r.0 → Current (after_login below r)
after_login-Current below (w, none) k = queue-Current _ _ w k
after_login-Current below (w, some error) k = k

login_in-Current :
    (h : Host) (user password : Bytes) (below : List Modal) (w : Window)
    → Current w
    → Current (login_in h user password below w)
login_in-Current h user password below w k =
    if-both Current (is_empty (h.trim user) || is_empty (h.trim password)) k (
      after_login-Current below (login_user h (h.trim user) (h.trim password) w)
        (login-Current h (h.trim user) (h.trim password) w k))

pub login_on-Current :
    (h : Host) (user password : Bytes) (ms : List Modal) (w : Window)
    → Current w
    → Current (login_on h user password ms w)
login_on-Current h user password (login_dialog ∷ below) w k =
    login_in-Current h user password below w k
login_on-Current h user password (start_dialog ∷ below) w k =
    login_in-Current h user password below w k
login_on-Current h user password _ w k = k

pub registered-Current :
    (h : Host) (user password email : Bytes) (line : Option Bytes) (w : Window)
    → Current w
    → Current (registered h user password email line w)
unfolding request_register
registered-Current h user password email none w k = k
registered-Current h user password email (some line) w k =
    let (v, ready) = ensure_connected h w in
    let answer = ask h false (join (codes "REGISTER" ∷ user ∷ password ∷ email ∷ [])) v in
    let P : Window × Option Bytes → Type 0 = λ r. Current r.0 in
    let text = codes "Registration successful. You can login now." in
    let failed = front_or (codes "Registration failed.") answer.1 in
    if-both P (not ready) {x = (v, some (codes "Cannot connect to server. Is Server.exe running?"))}
      {y = if done_ok answer then (set_status text v, none) else (v, some failed)}
      (connected-Current h w k)
      (if-both P (done_ok answer) {x = (set_status text v, none)} {y = (v, some failed)}
        (status-Current text v (connected-Current h w k)) (connected-Current h w k))

pub choose-Current :
    (index : ℕ) (ms : List Modal) (w : Window) → Current w → Current (choose_on index ms w)
unfolding on_pick_contract
choose-Current index (contract_menu ∷ below) w k =
    pick-Current (picked contract_codes index) (record w { modals = below })
      (queue-Current below w.posted w k)
choose-Current index _ w k = k
