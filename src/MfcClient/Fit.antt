-- ===== src/MfcClient/Fit.antt =====
-- What an event leaves of the buttons of the main window (MFCClient/MainFrame.cpp).
use cloud_alert_system.Common.{
  arith, List, ◌&&◌, true, ◌≡◌, refl, Bool, false, ◌||◌, not, Option, none, some, [], ◌∷◌,
  if◌then◌else◌, ℤ, pos,
}
use cloud_alert_system.Text.{Bytes, is_empty}
use cloud_alert_system.Double.{Float}
use cloud_alert_system.MfcClient.Window.{
  Host, Window, is_logged_in, set_status, buttons_of, update_button_state,
}
use cloud_alert_system.MfcClient.Editing.{
  update_editor_mode, enter_add_mode, enter_edit_mode, item_at,
}
use cloud_alert_system.MfcClient.Account.{request_change_email, refresh_email}
use cloud_alert_system.MfcClient.Lists.{refresh_current_prices, refresh_alerts}
use cloud_alert_system.MfcClient.Actions.{
  on_alert_type_changed, on_disconnected, on_logout, ran, on_add_price, on_modify_price,
  on_delete_alert, asked_delete, on_refresh, on_view_deleted, on_status_filter_changed,
  on_post_login, on_timer, after_dialog, on_set_email, change_on, confirm_on, on_triggered_line,
  dismissed, next_of, on_close, open_modal, asks_login,
}
use cloud_alert_system.MfcClient.Events.{
  no_modal, act, react, Event, set_email, logout, add_price, modify_price, cancel, delete, refresh,
  view_deleted, pick_contract, status_filter, alert_type, item_selected, triggered, price_tick,
  disconnected, typed, submit_login, submit_register, submit_email, choose, confirm, dismiss, close,
  next_message,
}
use cloud_alert_system.MfcClient.Commands.{has_at}
use cloud_alert_system.MfcClient.Window.{
  Modal, start_dialog, login_dialog, email_dialog, contract_menu, notice_box, delete_box, Message,
  post_login_message, close_message,
}
use cloud_alert_system.MfcClient.Frame.{if-both, prices-Lists, refresh_alerts-Lists}
use cloud_alert_system.MfcClient.Current.{
  Current, add_mode-Current, Lists-Current, status-Current, email-Current, change-Current,
  edit_row-Current, queue-Current, press-Current, login_on-Current, registered-Current,
  choose-Current,
}

module _ {D : Type 0} (F : Float D) (strtod : Bytes → D × Bytes) where
  alerts-Current : (h : Host) (w : Window) → Current w → Current (refresh_alerts F strtod h w)
  alerts-Current h w =
      Lists-Current w (refresh_alerts F strtod h w) (refresh_alerts-Lists F strtod h w)

  prices-Current :
      (h : Host) (w : Window) → Current w → Current (refresh_current_prices F strtod h w)
  prices-Current h w =
      Lists-Current w (refresh_current_prices F strtod h w) (prices-Lists F strtod h w)

  ran-Current :
      (h : Host) (success : Bytes) (w : Window) (line : Option Bytes)
      → Current w
      → Current (ran F strtod h success w line)
  ran-Current h success w none k = k
  ran-Current h success w (some line) k = add_mode-Current _

  asked_delete-Current :
      (line : Option Bytes) (w : Window) → Current w → Current (asked_delete F strtod line w)
  asked_delete-Current none w k = k
  asked_delete-Current (some line) w k = queue-Current _ w.posted w k

  confirm-Current :
      (h : Host) (ms : List Modal) (w : Window) → Current w → Current (confirm_on F strtod h ms w)
  confirm-Current h (delete_box line ∷ below) w k = add_mode-Current _
  confirm-Current h _ w k = k

  after_dialog-Current :
      (h : Host) (below : List Modal) (r : Window × Option Bytes)
      → Current r.0
      → Current (after_dialog F strtod h below r)
  after_dialog-Current h below (w, none) k =
      alerts-Current h (record w { modals = below }) (queue-Current below w.posted w k)
  after_dialog-Current h below (w, some error) k = k

  change_on-Current :
      (h : Host) (password email : Bytes) (ms : List Modal) (w : Window)
      → Current w
      → Current (change_on F strtod h password email ms w)
  change_on-Current h password email (email_dialog ∷ below) w k =
      let p = h.trim password in
      let e = h.trim email in
      if-both Current (is_empty p || (is_empty e || not (has_at e))) k
        (after_dialog-Current h below (request_change_email h p e w) (change-Current h p e w k))
  change_on-Current h password email _ w k = k

  view-Current : (h : Host) (w : Window) → Current w → Current (on_view_deleted F strtod h w)
  unfolding on_view_deleted enter_add_mode update_editor_mode update_button_state buttons_of
  view-Current h w k =
      let v =
        update_button_state
          (record w { show_deleted_only = not w.show_deleted_only; status_sel = pos 0 }) in
      if-both Current (is_logged_in w) (add_mode-Current (refresh_alerts F strtod h v)) k

  filter-Current :
      (h : Host) (sel : ℤ) (w : Window)
      → Current w
      → Current (on_status_filter_changed F strtod h sel w)
  unfolding on_status_filter_changed update_button_state buttons_of
  filter-Current h sel w k =
      let v : Window = record w { status_sel = sel } in
      if-both Current (is_logged_in w)
        {x = refresh_alerts F strtod h
          (update_button_state (record v { show_deleted_only = false }))}
        {y = v}
        (alerts-Current h (update_button_state (record v { show_deleted_only = false }))
          (record { shown = refl }))
        (record { shown = k.shown })

  post_login-Current : (h : Host) (w : Window) → Current w → Current (on_post_login F strtod h w)
  unfolding on_post_login update_button_state buttons_of
  post_login-Current h w k = if-both Current (is_logged_in w) (record { shown = refl }) k

  -- the window is destroyed, or it is Current
  abbrev pub Fit : Window → Type 0
  Fit w = w.destroyed ≡ false → Current w

  dismissed-Fit :
      (h : Host) (ms : List Modal) (w : Window) → Current w → Fit (dismissed F strtod h ms w)
  unfolding dismissed
  dismissed-Fit h [] w k _ = k
  dismissed-Fit h (start_dialog ∷ below) w k open_ = absurd (ground (arith, open_))
  dismissed-Fit h (login_dialog ∷ below) w k _ = queue-Current below _ w k
  dismissed-Fit h (notice_box ∷ below) w k _ =
      alerts-Current h (record w { modals = below }) (queue-Current below w.posted w k)
  dismissed-Fit h (_ ∷ below) w k _ = queue-Current below w.posted w k

  close-Fit : (w : Window) → Fit (on_close w)
  unfolding on_close
  close-Fit w open_ = absurd (ground (arith, open_))

  next-Fit : (h : Host) (ps : List Message) (w : Window) → Current w → Fit (next_of F strtod h ps w)
  next-Fit h [] w k _ = k
  next-Fit h (post_login_message ∷ rest) w k _ =
      post_login-Current h (record w { posted = rest }) (queue-Current w.modals rest w k)
  next-Fit h (close_message ∷ rest) w k open_ = close-Fit (record w { posted = rest }) open_

  act-Fit : (h : Host) (e : Event) (w : Window) → Current w → Fit (act F strtod h e w)
  unfolding act on_set_email on_logout on_add_price on_modify_price on_delete_alert on_refresh
      on_alert_type_changed on_disconnected on_timer on_triggered_line enter_edit_mode
      enter_add_mode update_editor_mode update_button_state buttons_of
  act-Fit h set_email w k _ =
      press-Current w.buttons.set_email w (on_set_email F strtod w) k
        (if-both Current (is_logged_in w) (queue-Current _ w.posted w k) k)
  act-Fit h logout w k _ =
      press-Current w.buttons.logout w (on_logout w) k (record { shown = refl })
  act-Fit h add_price w k _ =
      press-Current w.buttons.add_price w (on_add_price F strtod h w) k (ran-Current h _ w _ k)
  act-Fit h modify_price w k _ =
      press-Current w.buttons.mod_price w (on_modify_price F strtod h w) k (ran-Current h _ w _ k)
  act-Fit h cancel w k _ =
      press-Current w.buttons.mod_time w (enter_add_mode w) k (add_mode-Current w)
  act-Fit h delete w k _ =
      press-Current w.buttons.delete w (on_delete_alert F strtod h w) k (asked_delete-Current _ w k)
  act-Fit h refresh w k _ =
      press-Current w.buttons.refresh w (on_refresh F strtod h w) k
        (alerts-Current h (refresh_email h w) (email-Current h w k))
  act-Fit h view_deleted w k _ =
      press-Current w.buttons.deleted_view w (on_view_deleted F strtod h w) k (view-Current h w k)
  act-Fit h pick_contract w k _ =
      press-Current w.buttons.contract_pick w (open_modal contract_menu w) k
        (queue-Current _ w.posted w k)
  act-Fit h (status_filter sel) w k _ =
      press-Current true w (on_status_filter_changed F strtod h sel w) k (filter-Current h sel w k)
  act-Fit h (alert_type sel) w k _ =
      press-Current (not w.edit_mode) w (on_alert_type_changed sel w) k (
        if-both Current w.edit_mode (record { shown = unfold buttons_of in k.shown })
          (record { shown = refl }))
  act-Fit h (item_selected item) w k _ =
      press-Current true w (enter_edit_mode item w) k (edit_row-Current (item_at w.list item) w k)
  act-Fit h (typed contract price time cond) w k _ =
      press-Current true w _ k (record { shown = unfold buttons_of in k.shown })
  act-Fit h (submit_login user password) w k _ = login_on-Current h user password w.modals w k
  act-Fit h (submit_register user password again email) w k _ =
      if-both Current (asks_login w.modals)
        (registered-Current h (h.trim user) (h.trim password) (h.trim email) _ w k) k
  act-Fit h (submit_email password email) w k _ = change_on-Current h password email w.modals w k
  act-Fit h (choose index) w k _ = choose-Current index w.modals w k
  act-Fit h confirm w k _ = confirm-Current h w.modals w k
  act-Fit h dismiss w k open_ = dismissed-Fit h w.modals w k open_
  act-Fit h close w k open_ = if-both Fit (no_modal w.modals && true) (close-Fit w) (λ _. k) open_
  act-Fit h (triggered line) w k _ =
      queue-Current _ w.posted (set_status line w) (status-Current line w k)
  act-Fit h price_tick w k _ =
      if-both Current w.price_timer (if-both Current (is_logged_in w) (prices-Current h w k) k) k
  act-Fit h disconnected w k _ = if-both Current w.closing k (record { shown = refl })
  act-Fit h next_message w k open_ = next-Fit h w.posted w k open_

  if-Fit : (b : Bool) (w v : Window) → Fit w → (b ≡ false → Fit v) → Fit (if b then w else v)
  if-Fit true w v k l = k
  if-Fit false w v k l = l refl

  pub react-Fit : (h : Host) (e : Event) (w : Window) → Fit w → Fit (react F strtod h e w)
  unfolding react
  react-Fit h e w k = if-Fit w.destroyed w (act F strtod h e w) k (λ there. act-Fit h e w (k there))
