-- ===== src/Client/Answer.antt =====
-- What DoCmd of Client/main.cpp prints for an answer of Server/ClientSession.cpp.
use cloud_alert_system.Common.{
  ◌≡◌, refl, ap, ◌∙◌, true, false, List, [], ◌∷◌, ◌++◌, map, arith, if◌then◌else◌,
}
use cloud_alert_system.Text.{Bytes, is_empty, starts_with}
use cloud_alert_system.Double.{Float}
use mathlib.Core.Bool.{false≢true}
use cloud_alert_system.ClientSession.Lines.{
  Response, err, response_text, error_text, alert_line, price_line, Error, unknown_command,
  not_logged_in, register_usage, register_empty, name_taken, login_usage, wrong_login,
  add_price_usage, bad_condition, add_price_failed, add_time_usage, add_time_failed, delete_usage,
  delete_failed, modify_price_usage, modify_time_usage, modify_failed, query_usage, set_email_usage,
  set_email_failed, get_email_usage, wrong_username, get_prices_usage,
}
use cloud_alert_system.Text.Split.{join}
use cloud_alert_system.ClientSession.Answers.{ends, closed}
use cloud_alert_system.ClientSession.Replies.{ends_text-response_text}
use cloud_alert_system.Client.{response_shown, ends_text, is_alert, do_cmd}

module _ {D : Type 0} (F : Float D) where
  abbrev IsPlain : Bytes → Type 0
  IsPlain text = (is_empty text ≡ false) × (is_alert text ≡ false)

  error-IsPlain : (e : Error) → IsPlain (error_text e)
  unfolding error_text starts_with
  error-IsPlain unknown_command = (refl, refl)
  error-IsPlain not_logged_in = (refl, refl)
  error-IsPlain register_usage = (refl, refl)
  error-IsPlain register_empty = (refl, refl)
  error-IsPlain name_taken = (refl, refl)
  error-IsPlain login_usage = (refl, refl)
  error-IsPlain wrong_login = (refl, refl)
  error-IsPlain add_price_usage = (refl, refl)
  error-IsPlain bad_condition = (refl, refl)
  error-IsPlain add_price_failed = (refl, refl)
  error-IsPlain add_time_usage = (refl, refl)
  error-IsPlain add_time_failed = (refl, refl)
  error-IsPlain delete_usage = (refl, refl)
  error-IsPlain delete_failed = (refl, refl)
  error-IsPlain modify_price_usage = (refl, refl)
  error-IsPlain modify_time_usage = (refl, refl)
  error-IsPlain modify_failed = (refl, refl)
  error-IsPlain query_usage = (refl, refl)
  error-IsPlain set_email_usage = (refl, refl)
  error-IsPlain set_email_failed = (refl, refl)
  error-IsPlain get_email_usage = (refl, refl)
  error-IsPlain wrong_username = (refl, refl)
  error-IsPlain get_prices_usage = (refl, refl)

  response-IsPlain : (r : Response D) → IsPlain (response_text F r)
  unfolding response_text alert_line price_line starts_with join
  response-IsPlain (err e) = error-IsPlain e
  response-IsPlain _ = (refl, refl)

  do_cmd-step :
      (text : Bytes) (rest : List Bytes)
      → IsPlain text
      → do_cmd (text ∷ rest)
        ≡ (if ends_text text then response_shown text ∷ [] else response_shown text ∷ do_cmd rest)
  unfolding do_cmd
  do_cmd-step [] rest h = absurd (ground (arith, h.0))
  do_cmd-step (c ∷ text) rest h = rw h.1 refl

  -- An answer of the server is printed by DoCmd to its last line, and nothing that comes after it
  -- is read.
  pub do_cmd-closed :
      (lines : List (Response D)) (more : List Bytes)
      → closed lines ≡ true
      → do_cmd (map (response_text F) lines ++ more)
        ≡ map (λ r. response_shown (response_text F r)) lines
  unfolding closed
  do_cmd-closed [] more h = absurd (false≢true h)
  do_cmd-closed (r ∷ []) more h =
      do_cmd-step (response_text F r) more (response-IsPlain r)
      ∙ rw (ends_text-response_text F r, h) refl
  do_cmd-closed (r ∷ s ∷ lines) more h =
      let open_line : ends r ≡ false = ground (arith, h) in
      do_cmd-step (response_text F r) (map (response_text F) (s ∷ lines) ++ more)
        (response-IsPlain r)
      ∙ rw (ends_text-response_text F r, open_line)
          (ap (λ q. response_shown (response_text F r) ∷ q)
            (do_cmd-closed (s ∷ lines) more (ground (arith, h))))
