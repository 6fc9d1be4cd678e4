-- ===== src/MfcClient/Account.antt =====
-- What the main window asks of the server for an account (MFCClient/MainFrame.cpp).
use cloud_alert_system.Common.{
  Bool, true, false, ◌||◌, not, Option, none, some, List, [], ◌∷◌, if◌then◌else◌,
}
use cloud_alert_system.Text.{Bytes, codes, is_empty}
use cloud_alert_system.Text.Split.{join}
use cloud_alert_system.MfcClient.Window.{
  Host, Window, is_logged_in, update_button_state, set_status, ensure_connected, start_receiver,
  ask, front_or, done_ok,
}

abbrev pub logged : Window × Bool → Window × Option Bytes
logged (w, true) =
    (update_button_state (set_status (codes "Logged in. Click Refresh to load alerts.") w), none)
logged (w, false) = (
  update_button_state (record w { username = [] }),
  some (codes "Login succeeded, but receiver thread failed to start."),
)

-- LoginUser; the result is the error, if there is one
unfoldable pub login_user : Host → Bytes → Bytes → Window → Window × Option Bytes
unfolding ensure_connected start_receiver ask
login_user h user password w =
    let (v, ready) = ensure_connected h w in
    let answer = ask h false (join (codes "LOGIN" ∷ user ∷ password ∷ [])) v in
    if not ready
    then (v, some (codes "Cannot connect to server. Is Server.exe running?"))
    else if done_ok answer
    then logged (start_receiver h (record v { username = user; show_deleted_only = false }))
    else (v, some (front_or (codes "Login failed.") answer.1))

-- RegisterUser
unfoldable pub request_register : Host → Bytes → Bytes → Bytes → Window → Window × Option Bytes
unfolding ensure_connected ask
request_register h user password email w =
    let (v, ready) = ensure_connected h w in
    let answer = ask h false (join (codes "REGISTER" ∷ user ∷ password ∷ email ∷ [])) v in
    if not ready
    then (v, some (codes "Cannot connect to server. Is Server.exe running?"))
    else if done_ok answer
    then (set_status (codes "Registration successful. You can login now.") v, none)
    else (v, some (front_or (codes "Registration failed.") answer.1))

-- ChangeEmail
unfoldable pub request_change_email : Host → Bytes → Bytes → Window → Window × Option Bytes
unfolding ensure_connected ask
request_change_email h password email w =
    let (v, ready) = ensure_connected h w in
    let answer = ask h false (join (codes "SET_EMAIL" ∷ v.username ∷ password ∷ email ∷ [])) v in
    if not ready || is_empty v.username
    then (v, some (codes "Please login first."))
    else if done_ok answer
    then (update_button_state (record v { status = codes "Email updated."; email = email }), none)
    else (v, some (front_or (codes "Failed to update email.") answer.1))

-- line.size() > 3 ? line.substr(3) : ""
abbrev pub after_ok : List Bytes → Bytes
after_ok ((_ ∷ _ ∷ _ ∷ rest) ∷ lines) = rest
after_ok _ = []

unfoldable pub refresh_email : Host → Window → Window
unfolding ask update_button_state
refresh_email h w =
    let answer = ask h false (join (codes "GET_EMAIL" ∷ w.username ∷ [])) w in
    if is_logged_in w
    then update_button_state (record w { email = if done_ok answer then after_ok answer.1 else [] })
    else w

-- RunSimpleCommand
unfoldable pub run_simple_command : Host → Bytes → Bytes → Window → Window
unfolding ask
run_simple_command h line success w =
    let answer = ask h false line w in
    if is_logged_in w
    then set_status
        (if done_ok answer then success else front_or (codes "Command failed.") answer.1) w
    else w
