-- ===== src/MfcClient/Out.antt =====
-- The operations of the main window while nobody is logged in and no login dialog is open
-- (MFCClient/MainFrame.cpp).
use cloud_alert_system.Common.{
  ℕ, ◌≡◌, refl, sym, ap, subst, Bool, true, false, ◌&&◌, ◌||◌, not, Option, none, some, List, [],
  ◌∷◌, arith, if◌then◌else◌,
}
use cloud_alert_system.Text.{Bytes, codes, is_empty}
use cloud_alert_system.Text.Split.{join}
use cloud_alert_system.MfcClient.{Row}
use cloud_alert_system.MfcClient.Window.{
  Host, Window, Modal, start_dialog, login_dialog, email_dialog, contract_menu, notice_box,
  delete_box, is_logged_in, update_button_state, ensure_connected, stop_connection, ask, done_ok,
  front_or,
}
use cloud_alert_system.MfcClient.Account.{request_change_email, run_simple_command}
use cloud_alert_system.MfcClient.Editing.{edit_row, update_editor_mode, enter_add_mode}
use cloud_alert_system.MfcClient.Actions.{
  on_close, on_pick_contract, pick, picked, contract_codes, login_on, asks_login, choose_on,
}
use cloud_alert_system.MfcClient.Events.{no_modal, press}
use cloud_alert_system.MfcClient.Frame.{Lists, if-both}

-- no login dialog is open
unfoldable pub asks_nobody : List Modal → Bool
asks_nobody [] = true
asks_nobody (start_dialog ∷ ms) = false
asks_nobody (login_dialog ∷ ms) = false
asks_nobody (_ ∷ ms) = asks_nobody ms

pub record IsOut (w : Window) : Type 0 where
  pub nobody : w.username ≡ []
  pub unasked : asks_nobody w.modals ≡ true

pub if-false :
    {A : Type 0} (P : A → Type 0) (b : Bool) (x : A) {y : A}
    → b ≡ false
    → P y
    → P (if b then x else y)
if-false P true x e k = absurd (ground (arith, e))
if-false P false x e k = k

if-true :
    {A : Type 0} (P : A → Type 0) (b : Bool) {x : A} (y : A)
    → b ≡ true
    → P x
    → P (if b then x else y)
if-true P true y e k = k
if-true P false y e k = absurd (ground (arith, e))

pub Lists-IsOut : (w v : Window) → Lists w v → IsOut w → IsOut v
Lists-IsOut w v e h = subst IsOut (sym e) (record { nobody = h.nobody; unasked = h.unasked })

pub edit_row-IsOut : (row : Option Row) (w : Window) → IsOut w → IsOut (edit_row row w)
unfolding update_editor_mode update_button_state
edit_row-IsOut none w h = h
edit_row-IsOut (some row) w h = record { nobody = h.nobody; unasked = h.unasked }

pub add_mode-IsOut : (w : Window) → IsOut w → IsOut (enter_add_mode w)
unfolding enter_add_mode update_editor_mode update_button_state
add_mode-IsOut w h = record { nobody = h.nobody; unasked = h.unasked }

-- the last of the open dialogs is closed
pub below-IsOut :
    (m : Modal) (below : List Modal) (w : Window)
    → asks_nobody (m ∷ below) ≡ true
    → IsOut w
    → IsOut (record w { modals = below })
unfolding asks_nobody
below-IsOut m below w e h = record { nobody = h.nobody; unasked = rest m e }
  where
    rest : (m : Modal) → asks_nobody (m ∷ below) ≡ true → asks_nobody below ≡ true
    rest start_dialog e = absurd (ground (arith, e))
    rest login_dialog e = absurd (ground (arith, e))
    rest email_dialog e = e
    rest contract_menu e = e
    rest notice_box e = e
    rest (delete_box line) e = e

pub login-IsOut :
    (h : Host) (user password : Bytes) (ms : List Modal) (w : Window)
    → asks_nobody ms ≡ true
    → IsOut w
    → IsOut (login_on h user password ms w)
unfolding asks_nobody
login-IsOut h user password (login_dialog ∷ below) w e out = absurd (ground (arith, e))
login-IsOut h user password (start_dialog ∷ below) w e out = absurd (ground (arith, e))
login-IsOut h user password _ w e out = out

pub asks-false : (ms : List Modal) → asks_nobody ms ≡ true → asks_login ms ≡ false
unfolding asks_nobody
asks-false (login_dialog ∷ below) e = absurd (ground (arith, e))
asks-false (start_dialog ∷ below) e = absurd (ground (arith, e))
asks-false _ e = refl

pick-IsOut : (c : Option Bytes) (w : Window) → IsOut w → IsOut (pick c w)
pick-IsOut none w h = h
pick-IsOut (some c) w h = record { nobody = h.nobody; unasked = h.unasked }

pub choose-IsOut :
    (index : ℕ) (ms : List Modal) (w : Window)
    → asks_nobody ms ≡ true
    → IsOut w
    → IsOut (choose_on index ms w)
unfolding on_pick_contract
choose-IsOut index (contract_menu ∷ below) w e out =
    pick-IsOut (picked contract_codes index) (record w { modals = below })
      (below-IsOut contract_menu below w e out)
choose-IsOut index _ w e out = out

pub connected-IsOut : (h : Host) (w : Window) → IsOut w → IsOut (ensure_connected h w).0
unfolding ensure_connected update_button_state
connected-IsOut h w out =
    if-both (λ (r : Window × Bool). IsOut r.0) w.connected out
      (if-both (λ (r : Window × Bool). IsOut r.0) h.connects
        (record { nobody = out.nobody; unasked = out.unasked })
        (record { nobody = out.nobody; unasked = out.unasked }))

-- ChangeEmail may connect again, and then asks for a login that no control leads to.
pub change-IsOut :
    (h : Host) (password email : Bytes) (w : Window)
    → IsOut w
    → request_change_email h password email w
      ≡ ((ensure_connected h w).0, some (codes "Please login first."))
unfolding request_change_email
change-IsOut h password email w out =
    let v = (ensure_connected h w).0 in
    let name : v.username ≡ [] = (connected-IsOut h w out).nobody in
    let answer = ask h false (join (codes "SET_EMAIL" ∷ v.username ∷ password ∷ email ∷ [])) v in
    let refused : (not (ensure_connected h w).1 || is_empty v.username) ≡ true =
      ground (arith, ap is_empty name) in
    if-true (λ r. r ≡ (v, some (codes "Please login first.")))
      (not (ensure_connected h w).1 || is_empty v.username)
      (if done_ok answer
        then (
          update_button_state (record v { status = codes "Email updated."; email = email }),
          none,
        )
        else (v, some (front_or (codes "Failed to update email.") answer.1)))
      refused refl

pub run-IsOut :
    (h : Host) (line success : Bytes) (w : Window)
    → IsOut w
    → IsOut (run_simple_command h line success w)
unfolding run_simple_command
run-IsOut h line success w out =
    if-both IsOut (is_logged_in w) (record { nobody = out.nobody; unasked = out.unasked }) out

pub press-false : (b : Bool) (w v : Window) → b ≡ false → IsOut w → IsOut (press b w v)
press-false b w v e out = if-false IsOut (no_modal w.modals && b) v (ground (arith, e)) out

pub press-both : (b : Bool) (w v : Window) → IsOut w → IsOut v → IsOut (press b w v)
press-both b w v out k = if-both IsOut (no_modal w.modals && b) k out

pub close-IsOut : (w : Window) → IsOut w → IsOut (on_close w)
unfolding on_close stop_connection
close-IsOut w out = record { nobody = out.nobody; unasked = out.unasked }
