-- ===== src/MfcClient/Received.antt =====
-- What the window shows of the TRIGGERED line that Server/AlertEngine.cpp formats.
use cloud_alert_system.Common.{
  ◌≡◌, ◌≢◌, refl, sym, ap, ◌∙◌, ◌⊎◌, inl, inr, not, ◌&&◌, ◌||◌, some, List, [], ◌∷◌, ◌++◌, arith,
  Bool-cases, All, ℤ, eq_ℤ, IsInt, if◌then◌else◌,
}
use mathlib.Core.List.{append-nil, append_assoc}
use cloud_alert_system.Text.{Bytes, codes, same_text, same_text_iff, is_empty, c_str, is_space}
use cloud_alert_system.Double.{Float}
use cloud_alert_system.Protocol.{alert_type_time, cond_ge, cond_le}
use cloud_alert_system.Db.{AlertRecord}
use cloud_alert_system.Text.Split.{join, IsToken, split_line-join}
use cloud_alert_system.Text.Number.{print_int, atoi-print_int}
use cloud_alert_system.Text.Tokens.{print_int-IsToken, InLine, join-InLine}
use cloud_alert_system.AlertEngine.Message.{triggered_line, or_dash, condition_text}
use cloud_alert_system.Client.{recv_text}
use cloud_alert_system.MfcClient.{format_price_text}
use cloud_alert_system.MfcClient.Notices.{
  Notice, time_notice, price_notice, with_rest, notice_of, on_triggered,
}

recv_text-append :
    (line w more : Bytes) → All InLine w → recv_text line (w ++ 10 ∷ more) ≡ some (line ++ w, more)
unfolding recv_text
recv_text-append line [] more h = ap (λ s. some (s, more)) (sym (append-nil line))
recv_text-append line (c ∷ w) more h =
    rw (h.0.0, h.0.1, recv_text)
      (recv_text-append (line ++ c ∷ []) w more h.1
        ∙ ap (λ s. some (s, more)) (append_assoc line (c ∷ []) w))

-- "%.2f" prints a number that strtod reads to its end, and that prints the same again
pub record Prints {D : Type 0} (F : Float D) (strtod : Bytes → D × Bytes) : Type 0 where
  pub token : (p : D) → IsToken (F.print_2 p)
  pub whole : (p : D) → (strtod (F.print_2 p)).1 ≡ []
  pub stable : (p : D) → F.print_2 (strtod (F.print_2 p)).0 ≡ F.print_2 p

-- a time as the server prints it: a day, a blank and a time of the day
pub record IsStamp (date time : Bytes) : Type 0 where
  pub day : IsToken date
  pub clock : IsToken time
  pub plain : c_str (date ++ 32 ∷ time) ≡ date ++ 32 ∷ time

module _ {D : Type 0} (F : Float D) (strtod : Bytes → D × Bytes) where
  pub format-print_2 :
      Prints F strtod → (p : D) → format_price_text F strtod (F.print_2 p) ≡ F.print_2 p
  unfolding format_price_text
  format-print_2 prints p =
      of (F.print_2 p) (strtod (F.print_2 p)) (prints.token p).ne_nil (prints.whole p)
        (prints.stable p)
    where
      of :
          (text : Bytes) (read : D × Bytes)
          → text ≢ []
          → read.1 ≡ []
          → F.print_2 read.0 ≡ text
          → (if is_empty text || same_text text (codes "-")
              then codes "-"
              else if is_empty read.1 && not (is_empty text)
              then F.print_2 read.0
              else text)
            ≡ text
      of [] read ne e same = absurd (ne refl)
      of (c ∷ text) read ne e same = elim (Bool-cases (same_text (c ∷ text) (codes "-"))) [
        | inl dash ↦ rw dash (sym ((same_text_iff (c ∷ text) (codes "-")).0 dash))
        | inr other ↦ rw (other, e) same
      ]

  abbrev fired_fields : AlertRecord D → D → Bytes → Bytes → List Bytes
  fired_fields rec last date time =
      codes "TRIGGERED"
      ∷ print_int rec.id
      ∷ print_int rec.alert_type
      ∷ c_str rec.contract
      ∷ F.print_2 last
      ∷ print_int rec.condition
      ∷ F.print_2 rec.trigger_price
      ∷ or_dash rec.trigger_time
      ∷ date
      ∷ time
      ∷ []

  fired_fields-IsToken :
      (rec : AlertRecord D) (last : D) (date time : Bytes)
      → Prints F strtod
      → IsToken (c_str rec.contract)
      → IsToken (or_dash rec.trigger_time)
      → IsStamp date time
      → All IsToken (fired_fields rec last date time)
  fired_fields-IsToken rec last date time prints c t stamp =
      let word : IsToken (codes "TRIGGERED") = record {
        ne_nil = λ e. cc;
        solid = unfold is_space in ground arith;
      } in
      let price = prints.token rec.trigger_price in
      let cond = print_int-IsToken rec.condition in
      (
        word,
        (
          print_int-IsToken rec.id,
          (
            print_int-IsToken rec.alert_type,
            (c, (prints.token last, (cond, (price, (t, (stamp.day, (stamp.clock, tt))))))),
          ),
        ),
      )

  -- the message for a fired alert
  abbrev pub expected_notice : AlertRecord D → D → Bytes → Notice
  expected_notice rec last now =
      if eq_ℤ rec.alert_type alert_type_time
      then time_notice (print_int rec.id) (c_str rec.contract) (or_dash rec.trigger_time)
          (F.print_2 last) now
      else price_notice (print_int rec.id) (c_str rec.contract) (condition_text rec.condition)
          (F.print_2 rec.trigger_price) (F.print_2 last) now

  pub condition_shown :
      (a : ℤ)
      → (a ≡ cond_ge) ⊎ (a ≡ cond_le)
      → (if same_text (print_int a) (codes "1") then codes "<=" else codes ">=") ≡ condition_text a
  unfolding condition_text same_text print_int
  condition_shown a (inl e) = rw e refl
  condition_shown a (inr e) = rw e refl

  -- The line that FireAlert sends for an alert reaches the window of the MFC client as one line,
  -- and its message shows the alert's id, contract, rule and prices and the time of the trigger,
  -- where the type is an int, the condition is >= or <=, the contract, the time and the two parts
  -- of the time of the trigger are tokens, and "%.2f" prints what strtod reads to its end and
  -- prints the same again.
  pub triggered_line-on_triggered :
      (rec : AlertRecord D) (last : D) (date time more : Bytes)
      → Prints F strtod
      → IsToken (c_str rec.contract)
      → IsToken (or_dash rec.trigger_time)
      → IsStamp date time
      → IsInt rec.alert_type
      → (rec.condition ≡ cond_ge) ⊎ (rec.condition ≡ cond_le)
      → (text : Bytes) × (recv_text [] (triggered_line F rec last (date ++ 32 ∷ time) ++ more)
          ≡ some (text, more))
        × (on_triggered F strtod text ≡ expected_notice rec last (date ++ 32 ∷ time))
  unfolding triggered_line on_triggered notice_of with_rest join
  triggered_line-on_triggered rec last date time more prints c t stamp int cond =
      let fields = fired_fields rec last date time in
      let tokens = fired_fields-IsToken rec last date time prints c t stamp in
      let text = join fields in
      let sent : triggered_line F rec last (date ++ 32 ∷ time) ++ more ≡ text ++ 10 ∷ more =
        rw stamp.plain (append_assoc text (10 ∷ []) more) in
      (
        text,
        ap (recv_text []) sent ∙ recv_text-append [] text more (join-InLine fields tokens),
        ap (notice_of F strtod text) (split_line-join fields tokens)
            ∙ rw
                (
                  atoi-print_int rec.alert_type int,
                  format-print_2 prints last,
                  format-print_2 prints rec.trigger_price,
                  condition_shown rec.condition cond,
                )
                refl,
      )
