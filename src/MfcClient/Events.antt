-- ===== src/MfcClient/Events.antt =====
-- The events of the main window and of its dialogs (the message map of MFCClient/MainFrame.cpp).
use cloud_alert_system.Common.{ℕ, Bool, true, false, ◌&&◌, not, List, [], ◌∷◌, if◌then◌else◌, ℤ}
use cloud_alert_system.Text.{Bytes}
use cloud_alert_system.Double.{Float}
use cloud_alert_system.MfcClient.Window.{Host, Window, Modal, contract_menu}
use cloud_alert_system.MfcClient.Editing.{enter_add_mode, enter_edit_mode}
use cloud_alert_system.MfcClient.Account.{login_user, request_register, request_change_email}
use cloud_alert_system.MfcClient.Lists.{refresh_alerts}
use cloud_alert_system.MfcClient.Actions.{
  on_pick_contract, on_alert_type_changed, on_disconnected, on_logout, on_close, open_modal,
  login_on, register_on, choose_on, on_add_price, on_modify_price, on_delete_alert, confirm_on,
  on_refresh, on_view_deleted, on_status_filter_changed, on_post_login, on_timer, on_set_email,
  change_on, on_triggered_line, dismissed, next_of,
}

-- what the user does with a control, with the last dialog, box or menu, or with the frame, and the
-- messages that come
pub data Event : Type 0 where
  set_email logout add_price modify_price cancel delete refresh view_deleted pick_contract : Event
  status_filter alert_type item_selected : ℤ → Event
  typed : Bytes → Bytes → Bytes → ℤ → Event
  submit_login : Bytes → Bytes → Event
  -- the name, the password twice, and the address
  submit_register : Bytes → Bytes → Bytes → Bytes → Event
  submit_email : Bytes → Bytes → Event
  choose : ℕ → Event
  confirm dismiss close : Event
  -- a TRIGGERED line came
  triggered : Bytes → Event
  price_tick disconnected next_message : Event

-- no dialog disables the frame
abbrev pub no_modal : List Modal → Bool
no_modal [] = true
no_modal (m ∷ ms) = false

-- a control of the frame is used, and leaves `v`
abbrev pub press : Bool → Window → Window → Window
press enabled w v = if no_modal w.modals && enabled then v else w

module _ {D : Type 0} (F : Float D) (strtod : Bytes → D × Bytes) where
  -- BEGIN_MESSAGE_MAP, while the window is there
  unfoldable pub act : Host → Event → Window → Window
  unfolding on_set_email on_logout on_close on_add_price on_modify_price on_delete_alert on_refresh
      on_view_deleted on_pick_contract on_status_filter_changed on_alert_type_changed
      on_disconnected on_post_login on_timer on_triggered_line dismissed enter_add_mode
      enter_edit_mode refresh_alerts login_user request_register request_change_email
  act h set_email w = press w.buttons.set_email w (on_set_email F strtod w)
  act h logout w = press w.buttons.logout w (on_logout w)
  act h add_price w = press w.buttons.add_price w (on_add_price F strtod h w)
  act h modify_price w = press w.buttons.mod_price w (on_modify_price F strtod h w)
  act h cancel w = press w.buttons.mod_time w (enter_add_mode w)
  act h delete w = press w.buttons.delete w (on_delete_alert F strtod h w)
  act h refresh w = press w.buttons.refresh w (on_refresh F strtod h w)
  act h view_deleted w = press w.buttons.deleted_view w (on_view_deleted F strtod h w)
  act h pick_contract w = press w.buttons.contract_pick w (open_modal contract_menu w)
  act h (status_filter sel) w = press true w (on_status_filter_changed F strtod h sel w)
  act h (alert_type sel) w = press (not w.edit_mode) w (on_alert_type_changed sel w)
  act h (item_selected item) w = press true w (enter_edit_mode item w)
  act h (typed contract price time cond) w = press true w (record w {
    editor = record w.editor { contract = contract; price = price; time = time; cond_sel = cond };
  })
  act h (submit_login user password) w = login_on h user password w.modals w
  act h (submit_register user password again email) w =
      register_on h (h.trim user) (h.trim password) (h.trim again) (h.trim email) w
  act h (submit_email password email) w = change_on F strtod h password email w.modals w
  act h (choose index) w = choose_on index w.modals w
  act h confirm w = confirm_on F strtod h w.modals w
  act h dismiss w = dismissed F strtod h w.modals w
  act h close w = press true w (on_close w)
  act h (triggered line) w = on_triggered_line F strtod line w
  act h price_tick w = if w.price_timer then on_timer F strtod h w else w
  act h disconnected w = on_disconnected w
  act h next_message w = next_of F strtod h w.posted w

  -- nothing reaches a window that is destroyed
  unfoldable pub react : Host → Event → Window → Window
  unfolding act
  react h e w = if w.destroyed then w else act h e w

  -- events one after the other, each with what it meets
  unfoldable pub reacts : List (Host × Event) → Window → Window
  unfolding react
  reacts [] w = w
  reacts ((h, e) ∷ events) w = reacts events (react h e w)
