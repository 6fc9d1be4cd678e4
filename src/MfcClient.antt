-- ===== src/MfcClient.antt =====
-- The part of MFCClient/MainFrame.cpp that does not draw: the checks of the input fields, the reading
-- of answers, and the rows that are made of them. A CString holds no NUL here.
pub mod Answer
pub mod Time
pub mod Commands
pub mod Notices
pub mod Window
pub mod Account
pub mod Editing
pub mod Lists
pub mod Actions
pub mod Frame
pub mod Events
pub mod Current
pub mod Fit
pub mod Out
pub mod Shown
pub mod Created
pub mod Offline
pub mod Received
pub mod Rows
use cloud_alert_system.Common.{
  ℕ, zero, suc, ◌+◌, ◌-◌, ◌<◌, Bool, true, false, ◌&&◌, ◌||◌, not, Option, none, some, List, [],
  ◌∷◌, ◌++◌, arith, ltb, leb, ◌==◌, if◌then◌else◌, ℤ, pos, negsuc,
}
use cloud_alert_system.Text.{Bytes, codes, same_text, is_empty, starts_with}
use cloud_alert_system.Double.{Float}
use cloud_alert_system.Text.Split.{split_line}
use cloud_alert_system.Text.Number.{is_digit, atoi}

-- isalnum in the "C" locale
abbrev pub is_alnum : ℕ → Bool
is_alnum c = is_digit c || ((leb 65 c && leb c 90) || (leb 97 c && leb c 122))

abbrev pub contract_char : ℕ → Bool
contract_char c = is_alnum c || (c == b'_' || c == b'-')

abbrev pub every : (ℕ → Bool) → Bytes → Bool
every test [] = true
every test (c ∷ s) = test c && every test s

unfoldable pub validate_contract : Bytes → Bool
unfolding is_digit
validate_contract contract = not (is_empty contract) && every contract_char contract

unfoldable pub validate_alert_id : Bytes → Bool
unfolding is_digit
validate_alert_id id = not (is_empty id) && every is_digit id

abbrev above : ℤ → ℕ → Bool
above (pos n) limit = ltb limit n
above (negsuc n) limit = false

-- `timeText.GetLength() != 8` and the rest, on the eight characters
unfoldable pub validate_time_text : Bytes → Bool
unfolding is_digit atoi
validate_time_text (a ∷ b ∷ x ∷ c ∷ d ∷ y ∷ e ∷ f ∷ []) =
    (x == b':' && y == b':')
    && ((is_digit a && (is_digit b && (is_digit c && (is_digit d && (is_digit e && is_digit f)))))
        && not (
            above (atoi (a ∷ b ∷ [])) 23
            || (above (atoi (c ∷ d ∷ [])) 59 || above (atoi (e ∷ f ∷ [])) 59)))
validate_time_text _ = false

module _ {D : Type 0} (F : Float D) (strtod : Bytes → D × Bytes) where
  -- `end == raw.c_str() || *end != 0`: strtod gives the value and what it did not read
  abbrev reads_number : Bytes → Bool
  reads_number raw = is_empty (strtod raw).1 && not (is_empty raw)

  unfoldable pub validate_price : Bytes → Bool
  validate_price price = reads_number price && not (F.le (strtod price).0 F.zero)

  unfoldable pub format_price_text : Bytes → Bytes
  format_price_text raw =
      if is_empty raw || same_text raw (codes "-")
      then codes "-"
      else if reads_number raw
      then F.print_2 (strtod raw).0
      else raw

unfoldable pub status_name : Bytes → Bytes
status_name s =
    if same_text s (codes "0")
    then codes "Pending"
    else if same_text s (codes "1")
    then codes "Triggered"
    else if same_text s (codes "2")
    then codes "Deleted"
    else s

-- the columns of a row of the list
pub record Row : Type 0 where
  pub id : Bytes
  pub alert_type : Bytes
  pub contract : Bytes
  pub price : Bytes
  pub last_price : Bytes
  pub condition : Bytes
  pub time : Bytes
  pub status : Bytes
  pub created : Bytes

abbrev created_text : Bytes → List Bytes → Bytes
created_text created [] = created
created_text created (clock ∷ rest) = created ++ 32 ∷ clock

module _ {D : Type 0} (F : Float D) (strtod : Bytes → D × Bytes) where
  abbrev row_of : List Bytes → Option Row
  row_of (_ ∷ id ∷ alert_type ∷ contract ∷ price ∷ cond ∷ time ∷ status ∷ created ∷ rest) =
      some (record {
        id = id;
        alert_type = if same_text alert_type (codes "0") then codes "Price" else codes "Time";
        contract = contract;
        price = format_price_text F strtod price;
        last_price = codes "-";
        condition = if same_text cond (codes "1") then codes "<=" else codes ">=";
        time = if same_text time (codes "-") then [] else time;
        status = status_name status;
        created = created_text created rest;
      })
  row_of _ = none

  -- the row that AddAlertLine inserts, if it does
  unfoldable pub add_alert_line : Bytes → Option Row
  unfolding format_price_text status_name
  add_alert_line line = row_of (split_line line)

  -- fields.size() > 7 && fields[7] == "2"
  abbrev hidden : List Bytes → Bool
  hidden (_ ∷ _ ∷ _ ∷ _ ∷ _ ∷ _ ∷ _ ∷ status ∷ _) = same_text status (codes "2")
  hidden _ = false

  abbrev shown : Option Row → List Row → List Row
  shown none rows = rows
  shown (some row) rows = row ∷ rows

  -- the loop of RefreshAlerts over the lines of an answer
  unfoldable pub refresh_rows : Bool → List Bytes → List Row
  unfolding add_alert_line
  refresh_rows deleted_only [] = []
  refresh_rows deleted_only (line ∷ lines) =
      let rest = refresh_rows deleted_only lines in
      if not (starts_with (codes "ALERT ") line)
      then rest
      else if not deleted_only && hidden (split_line line)
      then rest
      else shown (add_alert_line line) rest

-- RecvThreadProc: a line of the server is a notification, or goes into the queue of answers.
unfoldable pub answers : List Bytes → List Bytes
answers [] = []
answers (line ∷ lines) =
    let rest = answers lines in if starts_with (codes "TRIGGERED") line then rest else line ∷ rest

-- where the loop of SendCommand returns true
unfoldable pub is_last : Bool → Bytes → Bool
is_last expect_end line =
    same_text line (codes "END")
    || (starts_with (codes "ERR") line
        || (not expect_end && (starts_with (codes "OK") line || starts_with (codes "ERR") line)))

-- The loop of SendCommand, over the lines that come before its deadline.
unfoldable pub read_answer : Bool → List Bytes → Bool × List Bytes
unfolding is_last
read_answer expect_end [] = (false, [])
read_answer expect_end (line ∷ lines) =
    let (done, rest) = read_answer expect_end lines in
    if is_last expect_end line then (true, line ∷ []) else (done, line ∷ rest)

-- SendCommand: `sends`: connected, and SendLine succeeds
unfoldable pub send_command : Bool → Bool → List Bytes → Bool × List Bytes
unfolding read_answer
send_command sends expect_end incoming =
    let answer = read_answer expect_end incoming in if sends then answer else (false, [])

unfoldable pub is_ok : List Bytes → Bool
is_ok [] = false
is_ok (line ∷ lines) = starts_with (codes "OK") line
