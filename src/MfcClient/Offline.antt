-- ===== src/MfcClient/Offline.antt =====
-- The main window after its connection has ended (OnDisconnected of MFCClient/MainFrame.cpp).
use cloud_alert_system.Common.{
  ◌≡◌, refl, sym, ap, subst, ◌∙◌, Bool, true, false, ◌||◌, not, List, [], ◌∷◌, arith, if◌then◌else◌,
}
use cloud_alert_system.Text.{Bytes, codes, is_empty}
use cloud_alert_system.Double.{Float}
use cloud_alert_system.MfcClient.Commands.{has_at}
use cloud_alert_system.MfcClient.Window.{
  Host, Window, Buttons, Modal, start_dialog, login_dialog, email_dialog, contract_menu, notice_box,
  delete_box, Message, post_login_message, close_message, is_logged_in, buttons_of,
  update_button_state,
}
use cloud_alert_system.MfcClient.Account.{run_simple_command}
use cloud_alert_system.MfcClient.Editing.{
  update_editor_mode, enter_add_mode, enter_edit_mode, item_at,
}
use cloud_alert_system.MfcClient.Lists.{refresh_alerts}
use cloud_alert_system.MfcClient.Actions.{
  on_alert_type_changed, on_disconnected, on_status_filter_changed, on_post_login, on_timer,
  on_triggered_line, on_close, asks_login, change_on, after_dialog, confirm_on, dismissed, next_of,
}
use cloud_alert_system.MfcClient.Events.{
  act, react, reacts, Event, set_email, logout, add_price, modify_price, cancel, delete, refresh,
  view_deleted, pick_contract, status_filter, alert_type, item_selected, typed, submit_login,
  submit_register, submit_email, choose, confirm, dismiss, close, triggered, price_tick,
  disconnected, next_message,
}
use cloud_alert_system.MfcClient.Frame.{if-both, refresh_alerts-Lists}
use cloud_alert_system.MfcClient.Current.{Current}
use cloud_alert_system.MfcClient.Fit.{Fit, react-Fit}
use cloud_alert_system.MfcClient.Out.{
  asks_nobody, IsOut, if-false, Lists-IsOut, edit_row-IsOut, add_mode-IsOut, below-IsOut,
  login-IsOut, asks-false, choose-IsOut, connected-IsOut, change-IsOut, run-IsOut, press-false,
  press-both, close-IsOut,
}

module _ {D : Type 0} (F : Float D) (strtod : Bytes → D × Bytes) where
  logged_out : (w : Window) → IsOut w → is_logged_in w ≡ false
  logged_out w out = ground (arith, ap is_empty out.nobody)

  alerts-IsOut : (h : Host) (w : Window) → IsOut w → IsOut (refresh_alerts F strtod h w)
  alerts-IsOut h w = Lists-IsOut w (refresh_alerts F strtod h w) (refresh_alerts-Lists F strtod h w)

  change_on-IsOut :
      (h : Host) (password email : Bytes) (ms : List Modal) (w : Window)
      → IsOut w
      → IsOut (change_on F strtod h password email ms w)
  change_on-IsOut h password email (email_dialog ∷ below) w out =
      let p = h.trim password in
      let e = h.trim email in
      if-both IsOut (is_empty p || (is_empty e || not (has_at e))) out (
        subst (λ r. IsOut (after_dialog F strtod h below r)) (sym (change-IsOut h p e w out))
          (connected-IsOut h w out))
  change_on-IsOut h password email _ w out = out

  confirm-IsOut :
      (h : Host) (ms : List Modal) (w : Window)
      → asks_nobody ms ≡ true
      → IsOut w
      → IsOut (confirm_on F strtod h ms w)
  confirm-IsOut h (delete_box line ∷ below) w e out =
      let v : Window = record w { modals = below } in
      add_mode-IsOut _ (
        alerts-IsOut h (run_simple_command h line (codes "Alert deleted.") v) (
          run-IsOut h line (codes "Alert deleted.") v
            (below-IsOut (delete_box line) below w e out)))
  confirm-IsOut h _ w e out = out

  dismissed-IsOut :
      (h : Host) (ms : List Modal) (w : Window)
      → asks_nobody ms ≡ true
      → IsOut w
      → IsOut (dismissed F strtod h ms w)
  unfolding dismissed asks_nobody
  dismissed-IsOut h [] w e out = out
  dismissed-IsOut h (start_dialog ∷ below) w e out = absurd (ground (arith, e))
  dismissed-IsOut h (login_dialog ∷ below) w e out = absurd (ground (arith, e))
  dismissed-IsOut h (notice_box ∷ below) w e out =
      alerts-IsOut h (record w { modals = below }) (below-IsOut notice_box below w e out)
  dismissed-IsOut h (email_dialog ∷ below) w e out = below-IsOut email_dialog below w e out
  dismissed-IsOut h (contract_menu ∷ below) w e out = below-IsOut contract_menu below w e out
  dismissed-IsOut h (delete_box line ∷ below) w e out = below-IsOut (delete_box line) below w e out

  next-IsOut :
      (h : Host) (ps : List Message) (w : Window) → IsOut w → IsOut (next_of F strtod h ps w)
  unfolding on_post_login
  next-IsOut h [] w out = out
  next-IsOut h (post_login_message ∷ rest) w out =
      if-false IsOut (is_logged_in w) _ (logged_out w out)
        (record { nobody = out.nobody; unasked = out.unasked })
  next-IsOut h (close_message ∷ rest) w out =
      close-IsOut (record w { posted = rest })
        (record { nobody = out.nobody; unasked = out.unasked })

  act-IsOut : (h : Host) (e : Event) (w : Window) → Current w → IsOut w → IsOut (act F strtod h e w)
  unfolding act on_status_filter_changed on_alert_type_changed on_disconnected on_timer
      on_triggered_line enter_edit_mode enter_add_mode update_editor_mode update_button_state
      asks_nobody
  act-IsOut h e w c out = at e
    where
      no_one : is_logged_in w ≡ false
      no_one = logged_out w out

      off : (f : Buttons → Bool) → f (buttons_of w) ≡ false → f w.buttons ≡ false
      off f e = ap f c.shown ∙ e

      at : (e : Event) → IsOut (act F strtod h e w)
      at set_email = press-false _ w _ (off (λ b. b.set_email) (unfold buttons_of in no_one)) out
      at logout = press-false _ w _ (off (λ b. b.logout) (unfold buttons_of in no_one)) out
      at add_price =
          press-false _ w _ (off (λ b. b.add_price) (unfold buttons_of in ground (arith, no_one)))
            out
      at modify_price =
          press-false _ w _ (off (λ b. b.mod_price) (unfold buttons_of in ground (arith, no_one)))
            out
      at cancel =
          press-false _ w _ (off (λ b. b.mod_time) (unfold buttons_of in ground (arith, no_one)))
            out
      at delete =
          press-false _ w _ (off (λ b. b.delete) (unfold buttons_of in ground (arith, no_one))) out
      at refresh = press-false _ w _ (off (λ b. b.refresh) (unfold buttons_of in no_one)) out
      at view_deleted =
          press-false _ w _ (off (λ b. b.deleted_view) (unfold buttons_of in no_one)) out
      at pick_contract =
          press-false _ w _ (off (λ b. b.contract_pick) (unfold buttons_of in no_one)) out
      at (status_filter sel) = press-both true w _ out (
          if-false IsOut (is_logged_in w) _ no_one
            (record { nobody = out.nobody; unasked = out.unasked }))
      at (alert_type sel) = press-both (not w.edit_mode) w _ out (
          if-both IsOut w.edit_mode (record { nobody = out.nobody; unasked = out.unasked })
            (record { nobody = out.nobody; unasked = out.unasked }))
      at (item_selected item) = press-both true w _ out (edit_row-IsOut (item_at w.list item) w out)
      at (typed contract price time cond) =
          press-both true w _ out (record { nobody = out.nobody; unasked = out.unasked })
      at (submit_login user password) = login-IsOut h user password w.modals w out.unasked out
      at (submit_register user password again email) =
          if-false IsOut (asks_login w.modals) _ (asks-false w.modals out.unasked) out
      at (submit_email password email) = change_on-IsOut h password email w.modals w out
      at (choose index) = choose-IsOut index w.modals w out.unasked out
      at confirm = confirm-IsOut h w.modals w out.unasked out
      at dismiss = dismissed-IsOut h w.modals w out.unasked out
      at close = press-both true w (on_close w) out (close-IsOut w out)
      at (triggered line) = record { nobody = out.nobody; unasked = out.unasked }
      at price_tick = if-both IsOut w.price_timer (if-false IsOut (is_logged_in w) _ no_one out) out
      at disconnected =
          if-both IsOut w.closing out (record { nobody = refl; unasked = out.unasked })
      at next_message = next-IsOut h w.posted w out

  if-IsOut :
      (b : Bool) (w v : Window) → IsOut w → (b ≡ false → IsOut v) → IsOut (if b then w else v)
  if-IsOut true w v k l = k
  if-IsOut false w v k l = l refl

  react-IsOut :
      (h : Host) (e : Event) (w : Window) → Fit F strtod w → IsOut w → IsOut (react F strtod h e w)
  unfolding react
  react-IsOut h e w k out =
      if-IsOut w.destroyed w (act F strtod h e w) out (λ there. act-IsOut h e w (k there) out)

  reacts-IsOut :
      (events : List (Host × Event)) (w : Window)
      → Fit F strtod w
      → IsOut w
      → IsOut (reacts F strtod events w)
  unfolding reacts
  reacts-IsOut [] w k out = out
  reacts-IsOut ((h, e) ∷ events) w k out =
      reacts-IsOut events (react F strtod h e w) (react-Fit F strtod h e w k)
        (react-IsOut h e w k out)

  -- Once the connection of the MFC client has ended while its window was there and not closing and
  -- no login dialog was open, no sequence of events logs anybody in again, its dialogs, boxes and
  -- posted messages included.
  pub disconnected-nobody :
      (h : Host) (events : List (Host × Event)) (w : Window)
      → w.destroyed ≡ false
      → w.closing ≡ false
      → asks_nobody w.modals ≡ true
      → (reacts F strtod events (react F strtod h disconnected w)).username ≡ []
  unfolding react act on_disconnected enter_add_mode update_editor_mode update_button_state
      buttons_of
  disconnected-nobody h events w there open_ unasked =
      (if-false (λ x. IsOut (reacts F strtod events x)) w.destroyed w there
        (if-false (λ x. IsOut (reacts F strtod events x)) w.closing w open_
          (reacts-IsOut events _ (λ _. record { shown = refl })
            (record { nobody = refl; unasked = unasked })))).nobody
