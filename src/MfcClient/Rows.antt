-- ===== src/MfcClient/Rows.antt =====
-- The row that the window shows of an ALERT line of Server/ClientSession.cpp.
use cloud_alert_system.Common.{
  ◌≡◌, refl, ap, ◌∙◌, ◌⊎◌, inl, inr, some, List, [], ◌∷◌, ◌++◌, arith, All, ℤ, eq_ℤ, if◌then◌else◌,
}
use cloud_alert_system.Text.{Bytes, codes, same_text, c_str, is_space}
use cloud_alert_system.Double.{Float}
use cloud_alert_system.Protocol.{
  alert_type_price, alert_type_time, cond_ge, cond_le, status_pending, status_triggered,
  status_deleted,
}
use cloud_alert_system.Db.{AlertRecord}
use cloud_alert_system.Db.Valid.{HasCodes}
use cloud_alert_system.Text.Split.{split_line, join, IsToken, split_line-join}
use cloud_alert_system.Text.Number.{print_int}
use cloud_alert_system.Text.Tokens.{print_int-IsToken}
use cloud_alert_system.AlertEngine.Message.{or_dash, condition_text}
use cloud_alert_system.ClientSession.Lines.{alert_line}
use cloud_alert_system.MfcClient.{Row, add_alert_line, status_name}
use cloud_alert_system.MfcClient.Received.{format-print_2, condition_shown, Prints, IsStamp}

module _ {D : Type 0} (F : Float D) (strtod : Bytes → D × Bytes) where
  abbrev alert_fields : AlertRecord D → Bytes → Bytes → List Bytes
  alert_fields r date time =
      codes "ALERT"
      ∷ print_int r.id
      ∷ print_int r.alert_type
      ∷ c_str r.contract
      ∷ F.print_2 r.trigger_price
      ∷ print_int r.condition
      ∷ or_dash r.trigger_time
      ∷ print_int r.status
      ∷ date
      ∷ time
      ∷ []

  alert_fields-IsToken :
      (r : AlertRecord D) (date time : Bytes)
      → Prints F strtod
      → IsToken (c_str r.contract)
      → IsToken (or_dash r.trigger_time)
      → IsStamp date time
      → All IsToken (alert_fields r date time)
  alert_fields-IsToken r date time prints c t stamp =
      let word : IsToken (codes "ALERT") = record {
        ne_nil = λ e. cc;
        solid = unfold is_space in ground arith;
      } in
      let price = prints.token r.trigger_price in
      let cond = print_int-IsToken r.condition in
      (
        word,
        (
          print_int-IsToken r.id,
          (
            print_int-IsToken r.alert_type,
            (c, (price, (cond, (t, (print_int-IsToken r.status, (stamp.day, (stamp.clock, tt))))))),
          ),
        ),
      )

  abbrev status_text : ℤ → Bytes
  status_text status =
      if eq_ℤ status status_pending
      then codes "Pending"
      else if eq_ℤ status status_triggered
      then codes "Triggered"
      else codes "Deleted"

  -- the row for an alert
  abbrev pub expected_row : AlertRecord D → Bytes → Row
  expected_row r created = record {
    id = print_int r.id;
    alert_type = if eq_ℤ r.alert_type alert_type_price then codes "Price" else codes "Time";
    contract = c_str r.contract;
    price = F.print_2 r.trigger_price;
    last_price = codes "-";
    condition = condition_text r.condition;
    time = if same_text (or_dash r.trigger_time) (codes "-") then [] else or_dash r.trigger_time;
    status = status_text r.status;
    created = created;
  }

  type_shown :
      (a : ℤ)
      → (a ≡ alert_type_price) ⊎ (a ≡ alert_type_time)
      → (if same_text (print_int a) (codes "0") then codes "Price" else codes "Time")
        ≡ (if eq_ℤ a alert_type_price then codes "Price" else codes "Time")
  unfolding same_text print_int
  type_shown a (inl e) = rw e refl
  type_shown a (inr e) = rw e refl

  status_shown :
      (a : ℤ)
      → (a ≡ status_pending) ⊎ ((a ≡ status_triggered) ⊎ (a ≡ status_deleted))
      → status_name (print_int a) ≡ status_text a
  unfolding status_name same_text print_int
  status_shown a (inl e) = rw e refl
  status_shown a (inr (inl e)) = rw e refl
  status_shown a (inr (inr e)) = rw e refl

  -- The ALERT line that HandleQuery sends for a record becomes the row of the MFC client that
  -- shows its id, type, contract, price, condition, time, status and time of creation, where the
  -- type, the status and the condition have their codes, the contract, the time and the two parts
  -- of the time of creation are tokens, and "%.2f" prints what strtod reads to its end and prints
  -- the same again.
  pub alert_line-add_alert_line :
      (r : AlertRecord D) (date time : Bytes)
      → Prints F strtod
      → HasCodes r
      → (r.condition ≡ cond_ge) ⊎ (r.condition ≡ cond_le)
      → IsToken (c_str r.contract)
      → IsToken (or_dash r.trigger_time)
      → IsStamp date time
      → r.created_at ≡ date ++ 32 ∷ time
      → add_alert_line F strtod (alert_line F r) ≡ some (expected_row r (date ++ 32 ∷ time))
  unfolding add_alert_line alert_line join
  alert_line-add_alert_line r date time prints valid cond c t stamp made =
      let fields = alert_fields r date time in
      let line : alert_line F r ≡ join fields = rw (made, stamp.plain) refl in
      let read : split_line (alert_line F r) ≡ fields =
        ap split_line line
        ∙ split_line-join fields (alert_fields-IsToken r date time prints c t stamp) in
      rw
        (
          read,
          type_shown r.alert_type valid.1,
          format-print_2 F strtod prints r.trigger_price,
          condition_shown F strtod r.condition cond,
          status_shown r.status valid.0,
        )
        refl
