-- ===== src/MfcClient/Window.antt =====
-- The main window of MFCClient/MainFrame.cpp: its members and its operations. What is drawn, the boxes
-- that only warn and the toast are left out.
use cloud_alert_system.Common.{Bool, true, false, ◌&&◌, not, List, [], ◌∷◌, ◌++◌, if◌then◌else◌, ℤ}
use cloud_alert_system.Text.{Bytes, codes, is_empty}
use cloud_alert_system.MfcClient.{Row, send_command, is_ok}

-- what the socket, Windows and MFC answer
pub record Host : Type 0 where
  -- m_client.Connect
  pub connects : Bool
  -- CreateThread
  pub makes_thread : Bool
  -- m_client.SendLine
  pub sends : Bytes → Bool
  -- the lines that come after a command, before its deadline
  pub incoming : Bytes → List Bytes
  -- CString::Trim
  pub trim : Bytes → Bytes

-- what UpdateButtonState shows
pub record Buttons : Type 0 where
  -- the enabled buttons; the fields are in the order of its calls
  pub set_email : Bool
  pub add_price : Bool
  pub mod_price : Bool
  pub mod_time : Bool
  pub delete : Bool
  pub contract_pick : Bool
  pub deleted_view : Bool
  pub refresh : Bool
  pub logout : Bool
  pub deleted_view_text : Bytes
  pub user_info : Bytes
  pub email_info : Bytes
  pub connection_info : Bytes

-- the input fields
pub record Editor : Type 0 where
  pub title : Bytes
  pub id : Bytes
  -- GetCurSel() of the type and of the condition
  pub type_sel : ℤ
  pub contract : Bytes
  pub price : Bytes
  pub cond_sel : ℤ
  pub time : Bytes

-- the dialogs, boxes and menus that run a message loop of their own
pub data Modal : Type 0 where
  -- the login dialog of InitInstance, and that of OnLogout
  start_dialog login_dialog : Modal
  email_dialog contract_menu notice_box : Modal
  -- the question of OnDeleteAlert, with the command behind it
  delete_box : Bytes → Modal

-- what PostMessage has put into the thread's queue
pub data Message : Type 0 where
  post_login_message close_message : Message

-- CMainFrame; `modals` are its open dialogs, the last one first
pub record Window : Type 0 where
  pub connected : Bool
  pub closing : Bool
  pub edit_mode : Bool
  pub show_deleted_only : Bool
  pub edit_alert_type : ℤ
  pub username : Bytes
  pub email : Bytes
  -- m_recvThread is not null
  pub recv_thread : Bool
  pub list : List Row
  pub list_title : Bytes
  pub status_sel : ℤ
  pub editor : Editor
  pub buttons : Buttons
  pub status : Bytes
  -- TIMER_PRICE_REFRESH is set
  pub price_timer : Bool
  pub modals : List Modal
  pub posted : List Message
  -- DestroyWindow was called
  pub destroyed : Bool

abbrev pub is_logged_in : Window → Bool
is_logged_in w = w.connected && not (is_empty w.username)

abbrev email_or_dash : Bytes → Bytes
email_or_dash email = if is_empty email then codes "-" else email

unfoldable pub buttons_of : Window → Buttons
buttons_of w =
    let logged = is_logged_in w in
    record {
      set_email = logged;
      add_price = logged && not w.edit_mode;
      mod_price = logged && w.edit_mode;
      mod_time = logged && w.edit_mode;
      delete = logged && w.edit_mode;
      contract_pick = logged;
      deleted_view = logged;
      refresh = logged;
      logout = logged;
      deleted_view_text = if w.show_deleted_only then codes "Active List" else codes "Deleted Only";
      user_info = if logged then codes "Current user: " ++ w.username else codes "Not logged in";
      email_info = if logged then codes "Email: " ++ email_or_dash w.email else codes "Email: -";
      connection_info =
          if logged
          then codes "Server: 127.0.0.1:8888 | Online"
          else if w.connected
          then codes "Server: 127.0.0.1:8888 | Connected"
          else codes "Server: 127.0.0.1:8888 | Offline";
    }

unfoldable pub update_button_state : Window → Window
unfolding buttons_of
update_button_state w = record w { buttons = buttons_of w }

abbrev pub set_status : Bytes → Window → Window
set_status text w = record w { status = text }

unfoldable pub ensure_connected : Host → Window → Window × Bool
unfolding update_button_state
ensure_connected h w =
    if w.connected
    then (w, true)
    else if h.connects
    then (
      update_button_state (record w {
        connected = true;
        closing = false;
        status = codes "Connecting to server...";
      }),
      true,
    )
    else (set_status (codes "Connect failed. Please start Server.exe first.") w, false)

unfoldable pub start_receiver : Host → Window → Window × Bool
start_receiver h w =
    if w.recv_thread
    then (w, true)
    else if w.connected
    then (record w { closing = false; recv_thread = h.makes_thread }, h.makes_thread)
    else (w, false)

unfoldable pub stop_connection : Window → Window
stop_connection w = record w { closing = true; recv_thread = false; connected = false }

-- SendCommand, with its line
unfoldable pub ask : Host → Bool → Bytes → Window → Bool × List Bytes
ask h expect_end line w = send_command (w.connected && h.sends line) expect_end (h.incoming line)

-- `lines.empty() ? fallback : lines.front()`
abbrev pub front_or : Bytes → List Bytes → Bytes
front_or fallback [] = fallback
front_or fallback (line ∷ lines) = line

-- `SendCommand(...) && IsOk(lines)`
abbrev pub done_ok : Bool × List Bytes → Bool
done_ok (done, lines) = done && is_ok lines
