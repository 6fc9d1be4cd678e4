-- ===== src/MfcClient/Notices.antt =====
-- What OnTriggered of MFCClient/MainFrame.cpp puts in its message box: the fields that it formats, without
-- the texts around them.
use cloud_alert_system.Common.{if◌then◌else◌, List, [], ◌∷◌, ◌++◌, eq_ℤ}
use cloud_alert_system.Text.{Bytes, codes, same_text}
use cloud_alert_system.Double.{Float}
use cloud_alert_system.Protocol.{alert_type_time}
use cloud_alert_system.Text.Split.{split_line}
use cloud_alert_system.Text.Number.{atoi}
use cloud_alert_system.MfcClient.{format_price_text}

pub data Notice : Type 0 where
  -- id, contract, time, last price, timestamp
  time_notice : Bytes → Bytes → Bytes → Bytes → Bytes → Notice
  -- id, contract, condition, price, last price, timestamp
  price_notice : Bytes → Bytes → Bytes → Bytes → Bytes → Bytes → Notice
  -- id, contract, last price, timestamp
  short_notice : Bytes → Bytes → Bytes → Bytes → Notice
  raw_notice : Bytes → Notice

-- `timestamp += " " + fields[i]` for the fields that are left
unfoldable pub with_rest : Bytes → List Bytes → Bytes
with_rest timestamp [] = timestamp
with_rest timestamp (field ∷ fields) = with_rest (timestamp ++ 32 ∷ field) fields

module _ {D : Type 0} (F : Float D) (strtod : Bytes → D × Bytes) where
  unfoldable pub notice_of : Bytes → List Bytes → Notice
  unfolding with_rest format_price_text
  notice_of line (_ ∷ id ∷ type ∷ contract ∷ last ∷ cond ∷ price ∷ time ∷ stamp ∷ rest) =
      if eq_ℤ (atoi type) alert_type_time
      then time_notice id contract time (format_price_text F strtod last) (with_rest stamp rest)
      else price_notice id contract (if same_text cond (codes "1") then codes "<=" else codes ">=")
          (format_price_text F strtod price) (format_price_text F strtod last)
          (with_rest stamp rest)
  notice_of line (_ ∷ id ∷ contract ∷ last ∷ stamp ∷ next ∷ rest) =
      short_notice id contract (format_price_text F strtod last) (with_rest stamp (next ∷ rest))
  notice_of line _ = raw_notice line

  unfoldable pub on_triggered : Bytes → Notice
  unfolding notice_of
  on_triggered line = notice_of line (split_line line)
