-- ===== src/AlertEngine/Message.antt =====
-- The texts that AlertEngine::FireAlert of Server/AlertEngine.cpp formats: the TRIGGERED line of the
-- protocol, and the subject and body of the mail (GBK bytes).
use cloud_alert_system.Common.{[], ◌∷◌, ◌++◌, if◌then◌else◌, ℤ, eq_ℤ}
use cloud_alert_system.Text.{Bytes, codes, is_empty, c_str}
use cloud_alert_system.Double.{Float}
use cloud_alert_system.Protocol.{alert_type_price, cond_le}
use cloud_alert_system.Text.Number.{print_int}
use cloud_alert_system.Text.Split.{join}
use cloud_alert_system.Db.{AlertRecord}

abbrev price_subject : Bytes
price_subject =
    188 ∷ 219 ∷ 184 ∷ 241 ∷ 212 ∷ 164 ∷ 190 ∷ 175 ∷ 180 ∷ 165 ∷ 183 ∷ 162 ∷ 163 ∷ 186 ∷ []

abbrev time_subject : Bytes
time_subject =
    202 ∷ 177 ∷ 188 ∷ 228 ∷ 212 ∷ 164 ∷ 190 ∷ 175 ∷ 180 ∷ 165 ∷ 183 ∷ 162 ∷ 163 ∷ 186 ∷ []

abbrev price_title : Bytes
price_title =
    161 ∷ 190 ∷ 188 ∷ 219 ∷ 184 ∷ 241 ∷ 212 ∷ 164 ∷ 190 ∷ 175 ∷ 180 ∷ 165 ∷ 183 ∷ 162 ∷ 161 ∷ 191
    ∷ 10 ∷ 10 ∷ []

abbrev time_title : Bytes
time_title =
    161 ∷ 190 ∷ 202 ∷ 177 ∷ 188 ∷ 228 ∷ 212 ∷ 164 ∷ 190 ∷ 175 ∷ 180 ∷ 165 ∷ 183 ∷ 162 ∷ 161 ∷ 191
    ∷ 10 ∷ 10 ∷ []

abbrev id_label : Bytes
id_label = 212 ∷ 164 ∷ 190 ∷ 175 ∷ 73 ∷ 68 ∷ 163 ∷ 186 ∷ []

abbrev contract_label : Bytes
contract_label = 186 ∷ 207 ∷ 212 ∷ 188 ∷ 163 ∷ 186 ∷ []

abbrev rule_label : Bytes
rule_label =
    180 ∷ 165 ∷ 183 ∷ 162 ∷ 204 ∷ 245 ∷ 188 ∷ 254 ∷ 163 ∷ 186 ∷ 215 ∷ 238 ∷ 208 ∷ 194 ∷ 188 ∷ 219
    ∷ 32 ∷ []

abbrev last_price_label : Bytes
last_price_label =
    180 ∷ 165 ∷ 183 ∷ 162 ∷ 202 ∷ 177 ∷ 215 ∷ 238 ∷ 208 ∷ 194 ∷ 188 ∷ 219 ∷ 163 ∷ 186 ∷ []

abbrev fired_at_label : Bytes
fired_at_label = 180 ∷ 165 ∷ 183 ∷ 162 ∷ 202 ∷ 177 ∷ 188 ∷ 228 ∷ 163 ∷ 186 ∷ []

abbrev remind_at_label : Bytes
remind_at_label = 204 ∷ 225 ∷ 208 ∷ 209 ∷ 202 ∷ 177 ∷ 188 ∷ 228 ∷ 163 ∷ 186 ∷ []

abbrev price_closing : Bytes
price_closing =
    184 ∷ 195 ∷ 212 ∷ 164 ∷ 190 ∷ 175 ∷ 210 ∷ 209 ∷ 215 ∷ 212 ∷ 182 ∷ 175 ∷ 177 ∷ 234 ∷ 188 ∷ 199
    ∷ 206 ∷ 170 ∷ 210 ∷ 209 ∷ 180 ∷ 165 ∷ 183 ∷ 162 ∷ 163 ∷ 172 ∷ 178 ∷ 187 ∷ 187 ∷ 225 ∷ 214 ∷ 216
    ∷ 184 ∷ 180 ∷ 204 ∷ 225 ∷ 208 ∷ 209 ∷ 161 ∷ 163 ∷ []

abbrev time_closing : Bytes
time_closing =
    199 ∷ 235 ∷ 176 ∷ 180 ∷ 188 ∷ 198 ∷ 187 ∷ 174 ∷ 185 ∷ 216 ∷ 215 ∷ 162 ∷ 184 ∷ 195 ∷ 186 ∷ 207
    ∷ 212 ∷ 188 ∷ 161 ∷ 163 ∷ []

-- ConditionText
unfoldable pub condition_text : ℤ → Bytes
condition_text condition = if eq_ℤ condition cond_le then codes "<=" else codes ">="

-- `s.empty() ? "-" : s.c_str()`
abbrev pub or_dash : Bytes → Bytes
or_dash s = if is_empty s then codes "-" else c_str s

module _ {D : Type 0} (F : Float D) where
  -- "TRIGGERED %d %d %s %.2f %d %.2f %s %s\n"
  unfoldable pub triggered_line : AlertRecord D → D → Bytes → Bytes
  unfolding join
  triggered_line rec last_price timestamp =
      join (
        codes "TRIGGERED"
        ∷ print_int rec.id
        ∷ print_int rec.alert_type
        ∷ c_str rec.contract
        ∷ F.print_2 last_price
        ∷ print_int rec.condition
        ∷ F.print_2 rec.trigger_price
        ∷ or_dash rec.trigger_time
        ∷ c_str timestamp
        ∷ [])
      ++ 10 ∷ []

  unfoldable pub subject_text : AlertRecord D → Bytes
  subject_text rec =
      if eq_ℤ rec.alert_type alert_type_price
      then price_subject ++ c_str rec.contract
      else time_subject ++ c_str rec.contract

  unfoldable pub body_text : AlertRecord D → D → Bytes → Bytes
  unfolding condition_text
  body_text rec last_price timestamp =
      if eq_ℤ rec.alert_type alert_type_price
      then price_title
        ++ (id_label ++ (print_int rec.id ++ 10 ∷ []))
        ++ (contract_label ++ (c_str rec.contract ++ 10 ∷ []))
        ++ (rule_label
            ++ (condition_text rec.condition ++ (32 ∷ F.print_2 rec.trigger_price ++ 10 ∷ [])))
        ++ (last_price_label ++ (F.print_2 last_price ++ 10 ∷ []))
        ++ (fired_at_label ++ (c_str timestamp ++ 10 ∷ 10 ∷ []))
        ++ price_closing
      else time_title
        ++ (id_label ++ (print_int rec.id ++ 10 ∷ []))
        ++ (contract_label ++ (c_str rec.contract ++ 10 ∷ []))
        ++ (remind_at_label ++ (or_dash rec.trigger_time ++ 10 ∷ []))
        ++ (last_price_label ++ (F.print_2 last_price ++ 10 ∷ []))
        ++ (fired_at_label ++ (c_str timestamp ++ 10 ∷ 10 ∷ []))
        ++ time_closing
