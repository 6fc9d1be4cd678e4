-- ===== src/MfcClient/Created.antt =====
-- The window as MFCClient/MFCClient.cpp has made it when its login dialog opens: the constructor and
-- OnCreate of MFCClient/MainFrame.cpp.
use cloud_alert_system.Common.{true, false, [], ◌∷◌, pos}
use cloud_alert_system.Text.{codes}
use cloud_alert_system.Protocol.{alert_type_price}
use cloud_alert_system.MfcClient.Window.{Window, Buttons, start_dialog, update_button_state}
use cloud_alert_system.MfcClient.Editing.{enter_add_mode}

-- the controls as Create makes them
abbrev made_buttons : Buttons
made_buttons = record {
  set_email = true;
  add_price = true;
  mod_price = true;
  mod_time = true;
  delete = true;
  contract_pick = true;
  deleted_view = true;
  refresh = true;
  logout = true;
  deleted_view_text = codes "Deleted Only";
  user_info = codes "Not logged in";
  email_info = codes "Email: -";
  connection_info = codes "Server: 127.0.0.1:8888 | Offline";
}

abbrev made : Window
made = record {
  connected = false;
  closing = false;
  edit_mode = false;
  show_deleted_only = false;
  edit_alert_type = alert_type_price;
  username = [];
  email = [];
  recv_thread = false;
  list = [];
  list_title = codes "Alert List";
  status_sel = pos 0;
  editor = record {
    title = codes "New Alert";
    id = [];
    type_sel = pos 0;
    contract = codes "rb2609";
    price = [];
    cond_sel = pos 0;
    time = codes "09:30:00";
  };
  buttons = made_buttons;
  status = codes "Disconnected";
  price_timer = false;
  modals = [];
  posted = [];
  destroyed = false;
}

-- OnCreate; update_button_state ends enter_add_mode and is called once more
unfoldable pub on_create : Window
unfolding enter_add_mode update_button_state
on_create = update_button_state (enter_add_mode made)

-- InitInstance up to its login dialog
unfoldable pub created : Window
unfolding on_create
created = record on_create { modals = start_dialog ∷ [] }
