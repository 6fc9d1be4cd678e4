-- ===== src/ClientSession/Guard.antt =====
-- Who may do what on a session: the checks of Dispatch and of the handlers of
-- Server/ClientSession.cpp that concern the user.
use cloud_alert_system.Common.{
  ◌≡◌, ◌≢◌, refl, sym, subst, ◌⊎◌, inl, inr, true, some, List, arith, ℤ, is_negative, Grows,
  Grows-refl, Grows-imp,
}
use cloud_alert_system.Text.{Bytes}
use cloud_alert_system.Double.{Float}
use cloud_alert_system.Db.{AlertRecord}
use cloud_alert_system.World.{World}
use cloud_alert_system.World.{World}
use cloud_alert_system.System.{System}
use cloud_alert_system.Text.Split.{split_line}
use cloud_alert_system.ClientSession.Lines.{unknown_command, not_logged_in}
use cloud_alert_system.ClientSession.{Session, Turn, refuse, handle, dispatch}
use cloud_alert_system.ClientSession.Commands.{
  Command, register, login, unknown, first_word, command_of,
}
use cloud_alert_system.Db.History.{Call, perform}
use cloud_alert_system.Db.History
use cloud_alert_system.Db.Lifecycle.{Moves, perform-Moves}
use cloud_alert_system.ClientSession.Handlers.{InName}
use cloud_alert_system.ClientSession.Effects.{dispatch-OneCall}

module _ {D : Type 0} (F : Float D) (W : World D) where
  guest_handle :
      (command : Command) (c : Session) (s : System D) (tokens : List Bytes)
      → is_negative c.user_id ≡ true
      → command ≢ register
      → command ≢ login
      → (handle F W command c s tokens ≡ refuse F W c s not_logged_in)
        ⊎ (handle F W command c s tokens ≡ refuse F W c s unknown_command)
  unfolding handle
  guest_handle register c s tokens h n m = absurd (n refl)
  guest_handle login c s tokens h n m = absurd (m refl)
  guest_handle unknown c s tokens h n m = inr refl
  guest_handle _ c s tokens h n m = ground arith

  -- On a session that is not logged in, every line but a REGISTER or a LOGIN is answered by one
  -- error line and changes neither the session nor anything in the server.
  pub guest_refused :
      (line : Bytes) (c : Session) (s : System D)
      → is_negative c.user_id ≡ true
      → command_of (first_word line) ≢ register
      → command_of (first_word line) ≢ login
      → (dispatch F W line c s ≡ refuse F W c s not_logged_in)
        ⊎ (dispatch F W line c s ≡ refuse F W c s unknown_command)
  unfolding dispatch
  guest_refused line c s = guest_handle (command_of (first_word line)) c s (split_line line)

  abbrev pub Others : ℤ → AlertRecord D → AlertRecord D → Type 0
  Others uid r r' = r.user_id ≢ uid → r' ≡ r

  -- Moves of a call that is in the user's name
  Moves-Others :
      (uid : ℤ) (call : Call D) (r r' : AlertRecord D)
      → InName uid call
      → Moves call r r'
      → Others uid r r'
  Moves-Others uid (History.trigger a at) r r' h m = absurd h
  Moves-Others uid _ r r' h m = ground arith

  -- A line that a client sends and that does not end the process loses no alert and leaves every
  -- alert of another user exactly as it was.
  pub dispatch-Others :
      (line : Bytes) (c : Session) (s : System D) (t : Turn D)
      → dispatch F W line c s ≡ some t
      → Grows (Others c.user_id) s.db.alerts t.system.db.alerts
  dispatch-Others line c s t e =
      let E = Others c.user_id in
      elim (dispatch-OneCall F W line c s t e) [
        | inl same ↦
            subst (λ db. Grows E s.db.alerts db.alerts) (sym same)
              (Grows-refl E (λ r _. refl) s.db.alerts)
        | inr (call, mine, done) ↦
            subst (λ db. Grows E s.db.alerts db.alerts) (sym done)
              (Grows-imp (Moves call) E s.db.alerts (perform F W.sqlite W.now call s.db).alerts
                (λ r r' m. Moves-Others c.user_id call r r' mine m)
                (perform-Moves F W.sqlite W.now call s.db))
      ]
