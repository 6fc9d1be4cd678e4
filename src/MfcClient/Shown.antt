-- ===== src/MfcClient/Shown.antt =====
-- What the main window of MFCClient/MainFrame.cpp shows, and which of its buttons are enabled, after its
-- events.
use cloud_alert_system.Common.{
  ◌≡◌, ◌≢◌, ◌↔◌, ◌⊎◌, refl, ap, ◌∙◌, inl, inr, Bool, true, false, ◌&&◌, not, List, [], ◌∷◌, ◌++◌,
  arith, Bool-cases, if◌then◌else◌,
}
use cloud_alert_system.Text.{Bytes, codes, is_empty}
use cloud_alert_system.Double.{Float}
use cloud_alert_system.MfcClient.Window.{
  Host, Window, Buttons, is_logged_in, buttons_of, update_button_state,
}
use cloud_alert_system.MfcClient.Editing.{enter_add_mode, update_editor_mode}
use cloud_alert_system.MfcClient.Created.{created, on_create}
use cloud_alert_system.MfcClient.Events.{Event, react, reacts}
use cloud_alert_system.MfcClient.Current.{Current}
use cloud_alert_system.MfcClient.Fit.{Fit, react-Fit}

-- connected, with a user
abbrev pub Online : Window → Type 0
Online w = (w.connected ≡ true) × (w.username ≢ [])

pub record Shown (w : Window) : Type 0 where
  -- enabled for a user who is online
  pub set_email : (w.buttons.set_email ≡ true) ↔ Online w
  pub contract_pick : (w.buttons.contract_pick ≡ true) ↔ Online w
  pub deleted_view : (w.buttons.deleted_view ≡ true) ↔ Online w
  pub refresh : (w.buttons.refresh ≡ true) ↔ Online w
  pub logout : (w.buttons.logout ≡ true) ↔ Online w
  -- and while a new alert is entered, or one is edited
  pub add_price : (w.buttons.add_price ≡ true) ↔ (Online w × (w.edit_mode ≡ false))
  pub mod_price : (w.buttons.mod_price ≡ true) ↔ (Online w × (w.edit_mode ≡ true))
  pub mod_time : (w.buttons.mod_time ≡ true) ↔ (Online w × (w.edit_mode ≡ true))
  pub delete : (w.buttons.delete ≡ true) ↔ (Online w × (w.edit_mode ≡ true))
  pub account :
      (Online w
        × (w.buttons.user_info ≡ codes "Current user: " ++ w.username)
        × (w.buttons.email_info
            ≡ codes "Email: " ++ (if is_empty w.email then codes "-" else w.email))
        × (w.buttons.connection_info ≡ codes "Server: 127.0.0.1:8888 | Online"))
      ⊎ ((¬ Online w)
          × (w.buttons.user_info ≡ codes "Not logged in")
          × (w.buttons.email_info ≡ codes "Email: -")
          × (w.buttons.connection_info ≡ (
              if w.connected
              then codes "Server: 127.0.0.1:8888 | Connected"
              else codes "Server: 127.0.0.1:8888 | Offline")))
  pub view :
      w.buttons.deleted_view_text
      ≡ (if w.show_deleted_only then codes "Active List" else codes "Deleted Only")

nil_iff : (s : Bytes) → (is_empty s ≡ false) ↔ (s ≢ [])
nil_iff [] = ((λ e. absurd (ground (arith, e))), (λ ne. absurd (ne refl)))
nil_iff (c ∷ s) = ((λ _ e. cc), (λ _. refl))

logged_iff : (w : Window) → (is_logged_in w ≡ true) ↔ Online w
logged_iff w = (
  (λ e. (ground (arith, e), (nil_iff w.username).0 (ground (arith, e)))),
  (λ on. let full = (nil_iff w.username).1 on.1 in let up = on.0 in ground (arith, full, up)),
)

-- a button that is enabled where `is_logged_in` and a test on the mode hold
button_iff : (w : Window) (b : Bool) → b ≡ is_logged_in w → (b ≡ true) ↔ Online w
button_iff w b e = (
  (λ on. (logged_iff w).0 (ground (arith, on, e))),
  (λ on. let h = (logged_iff w).1 on in ground (arith, h, e)),
)

edit_iff :
    (w : Window) (b : Bool)
    → b ≡ (is_logged_in w && w.edit_mode)
    → (b ≡ true) ↔ (Online w × (w.edit_mode ≡ true))
edit_iff w b e = (
  (λ on. ((logged_iff w).0 (ground (arith, on, e)), ground (arith, on, e))),
  (λ on. let h = (logged_iff w).1 on.0 in let m = on.1 in ground (arith, h, m, e)),
)

add_iff :
    (w : Window) (b : Bool)
    → b ≡ (is_logged_in w && not w.edit_mode)
    → (b ≡ true) ↔ (Online w × (w.edit_mode ≡ false))
add_iff w b e = (
  (λ on. ((logged_iff w).0 (ground (arith, on, e)), ground (arith, on, e))),
  (λ on. let h = (logged_iff w).1 on.0 in let m = on.1 in ground (arith, h, m, e)),
)

Current-Shown : (w : Window) → Current w → Shown w
Current-Shown w k = record {
  set_email = button_iff w _ (unfold buttons_of in ap (λ (b : Buttons). b.set_email) k.shown);
  contract_pick =
      button_iff w _ (unfold buttons_of in ap (λ (b : Buttons). b.contract_pick) k.shown);
  deleted_view = button_iff w _ (unfold buttons_of in ap (λ (b : Buttons). b.deleted_view) k.shown);
  refresh = button_iff w _ (unfold buttons_of in ap (λ (b : Buttons). b.refresh) k.shown);
  logout = button_iff w _ (unfold buttons_of in ap (λ (b : Buttons). b.logout) k.shown);
  add_price = add_iff w _ (unfold buttons_of in ap (λ (b : Buttons). b.add_price) k.shown);
  mod_price = edit_iff w _ (unfold buttons_of in ap (λ (b : Buttons). b.mod_price) k.shown);
  mod_time = edit_iff w _ (unfold buttons_of in ap (λ (b : Buttons). b.mod_time) k.shown);
  delete = edit_iff w _ (unfold buttons_of in ap (λ (b : Buttons). b.delete) k.shown);
  account = elim (Bool-cases (is_logged_in w)) [
    | inl on ↦ inl (
      (logged_iff w).0 on,
      ap (λ (b : Buttons). b.user_info) k.shown ∙ unfold buttons_of in ground (arith, on),
      ap (λ (b : Buttons). b.email_info) k.shown ∙ unfold buttons_of in ground (arith, on),
      ap (λ (b : Buttons). b.connection_info) k.shown ∙ unfold buttons_of in ground (arith, on),
    )
    | inr off ↦ inr (
      (λ on. let h = (logged_iff w).1 on in absurd (ground (arith, h, off))),
      ap (λ (b : Buttons). b.user_info) k.shown ∙ unfold buttons_of in ground (arith, off),
      ap (λ (b : Buttons). b.email_info) k.shown ∙ unfold buttons_of in ground (arith, off),
      ap (λ (b : Buttons). b.connection_info) k.shown ∙ unfold buttons_of in ground (arith, off),
    )
  ];
  view = unfold buttons_of in ap (λ (b : Buttons). b.deleted_view_text) k.shown;
}

created-Current : Current created
unfolding created on_create enter_add_mode update_editor_mode update_button_state buttons_of
created-Current = record { shown = refl }

module _ {D : Type 0} (F : Float D) (strtod : Bytes → D × Bytes) where
  reacts-Fit :
      (events : List (Host × Event)) (w : Window)
      → Fit F strtod w
      → Fit F strtod (reacts F strtod events w)
  unfolding reacts
  reacts-Fit [] w k = k
  reacts-Fit ((h, e) ∷ events) w k =
      reacts-Fit events (react F strtod h e w) (react-Fit F strtod h e w k)

  -- Whatever events reach the MFC client from its start, its dialogs, boxes and posted messages
  -- included, while its window is not destroyed: the buttons that need a user are enabled exactly
  -- while it is connected with a user, those of the editor besides only in their edit mode, and
  -- the texts on the user, the address, the connection and the view are those of its members.
  pub reacts-Shown :
      (events : List (Host × Event))
      → (reacts F strtod events created).destroyed ≡ false
      → Shown (reacts F strtod events created)
  reacts-Shown events there =
      Current-Shown (reacts F strtod events created)
        (reacts-Fit events created (λ _. created-Current) there)
