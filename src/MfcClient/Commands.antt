-- ===== src/MfcClient/Commands.antt =====
-- The command lines that the client sends (OnAddPrice, OnModifyPrice and OnDeleteAlert of
-- MFCClient/MainFrame.cpp and the dialogs). Fields are trimmed; CString::Trim is MFC's.
use cloud_alert_system.Common.{
  ℕ, ◌≡◌, Bool, true, false, ◌||◌, not, Option, none, some, [], ◌∷◌, arith, ◌==◌, if◌then◌else◌,
  All, ℤ, pos, negsuc,
}
use cloud_alert_system.Text.{Bytes, codes, same_text, is_empty, is_space}
use cloud_alert_system.Double.{Float}
use cloud_alert_system.Text.Split.{split_line, join, IsToken, split_line-join}
use cloud_alert_system.Text.Number.{is_digit, print_int}
use cloud_alert_system.MfcClient.{
  every, contract_char, validate_contract, validate_alert_id, validate_time_text, validate_price,
}

-- std::max(0, m_condCombo.GetCurSel())
abbrev selected : ℤ → ℤ
selected (pos n) = pos n
selected (negsuc n) = pos 0

-- "MODIFY_TIME %s %s %s" and "DELETE %s"
unfoldable pub modify_time_line : Bytes → Bytes → Bytes → Bytes
unfolding join
modify_time_line id contract time = join (codes "MODIFY_TIME" ∷ id ∷ contract ∷ time ∷ [])

unfoldable pub delete_line : Bytes → Bytes
unfolding join
delete_line id = join (codes "DELETE" ∷ id ∷ [])

module _ {D : Type 0} (F : Float D) (strtod : Bytes → D × Bytes) where
  -- OnAddPrice: the line for a price alert or a time alert, where the fields are valid
  unfoldable pub add_command : Bool → Bytes → Bytes → Bytes → Bytes → ℤ → Option Bytes
  unfolding join
  add_command is_price username contract price time cond =
      if not (validate_contract contract)
      then none
      else if is_price
      then (if validate_price F strtod price
          then some (
              join
                (codes "ADD_PRICE" ∷ username ∷ contract ∷ price ∷ print_int (selected cond) ∷ []))
          else none)
      else if validate_time_text time
      then some (join (codes "ADD_TIME" ∷ username ∷ contract ∷ time ∷ []))
      else none

  -- OnModifyPrice
  unfoldable pub modify_command : Bool → Bytes → Bytes → Bytes → Bytes → ℤ → Option Bytes
  unfolding join modify_time_line
  modify_command is_price id contract price time cond =
      if not (validate_alert_id id) || not (validate_contract contract)
      then none
      else if is_price
      then (if validate_price F strtod price
          then some
              (join (codes "MODIFY_PRICE" ∷ id ∷ contract ∷ price ∷ print_int (selected cond) ∷ []))
          else none)
      else if validate_time_text time
      then some (modify_time_line id contract time)
      else none

-- OnDeleteAlert, once the user has said yes
unfoldable pub delete_command : Bytes → Option Bytes
unfolding delete_line
delete_command id = if validate_alert_id id then some (delete_line id) else none

-- OnLogin of LoginDlg.cpp, and the line of LoginUser
unfoldable pub login_command : Bytes → Bytes → Option Bytes
unfolding join
login_command user password =
    if is_empty user || is_empty password
    then none
    else some (join (codes "LOGIN" ∷ user ∷ password ∷ []))

-- email.Find("@") >= 0
abbrev pub has_at : Bytes → Bool
has_at [] = false
has_at (c ∷ s) = c == 64 || has_at s

-- OnSubmit of RegisterDlg.cpp, and the line of RegisterUser
unfoldable pub register_command : Bytes → Bytes → Bytes → Bytes → Option Bytes
unfolding join
register_command user password confirm email =
    if is_empty user || (is_empty password || (is_empty confirm || is_empty email))
    then none
    else if not (same_text password confirm)
    then none
    else if has_at email
    then some (join (codes "REGISTER" ∷ user ∷ password ∷ email ∷ []))
    else none

-- OnSubmit of ChangeEmailDlg.cpp, and the line of ChangeEmail
unfoldable pub change_email_command : Bytes → Bytes → Bytes → Option Bytes
unfolding join
change_email_command username password email =
    if is_empty password || is_empty email
    then none
    else if not (has_at email)
    then none
    else if is_empty username
    then none
    else some (join (codes "SET_EMAIL" ∷ username ∷ password ∷ email ∷ []))

every-solid :
    (test : ℕ → Bool)
    → ((c : ℕ) → test c ≡ true → is_space c ≡ false)
    → (s : Bytes) → every test s ≡ true
    → All (λ c. is_space c ≡ false) s
every-solid test solid [] h = tt
every-solid test solid (c ∷ s) h =
    (solid c (ground (arith, h)), every-solid test solid s (ground (arith, h)))

contract-IsToken : (s : Bytes) → validate_contract s ≡ true → IsToken s
unfolding validate_contract
contract-IsToken [] h = absurd (ground (arith, h))
contract-IsToken (c ∷ s) h = record {
  ne_nil = λ e. cc;
  solid =
      every-solid contract_char (λ d k. unfold is_space is_digit in ground (arith, k)) (c ∷ s)
        (ground (arith, h));
}

alert_id-IsToken : (s : Bytes) → validate_alert_id s ≡ true → IsToken s
unfolding validate_alert_id
alert_id-IsToken [] h = absurd (ground (arith, h))
alert_id-IsToken (c ∷ s) h = record {
  ne_nil = λ e. cc;
  solid =
      every-solid is_digit (λ d k. unfold is_space is_digit in ground (arith, k)) (c ∷ s)
        (ground (arith, h));
}

digit-solid : (c : ℕ) → is_digit c ≡ true → is_space c ≡ false
unfolding is_digit is_space
digit-solid c h = ground (arith, h)

colon-solid : (c : ℕ) → (c == 58) ≡ true → is_space c ≡ false
unfolding is_space
colon-solid c h = ground (arith, h)

time_text-IsToken : (s : Bytes) → validate_time_text s ≡ true → IsToken s
unfolding validate_time_text
time_text-IsToken (a ∷ b ∷ x ∷ c ∷ d ∷ y ∷ e ∷ f ∷ []) v = record {
  ne_nil = λ e. cc;
  solid = (
    digit-solid a (ground (arith, v)),
    (
      digit-solid b (ground (arith, v)),
      (
        colon-solid x (ground (arith, v)),
        (
          digit-solid c (ground (arith, v)),
          (
            digit-solid d (ground (arith, v)),
            (
              colon-solid y (ground (arith, v)),
              (digit-solid e (ground (arith, v)), (digit-solid f (ground (arith, v)), tt)),
            ),
          ),
        ),
      ),
    ),
  );
}
time_text-IsToken _ v = absurd (ground (arith, v))

-- The line that the client sends to modify a time alert, for fields that it lets through, is read
-- by the server as the four tokens that were meant.
pub modify_time_line-tokens :
    (id contract time : Bytes)
    → validate_alert_id id ≡ true
    → validate_contract contract ≡ true
    → validate_time_text time ≡ true
    → split_line (modify_time_line id contract time)
      ≡ codes "MODIFY_TIME" ∷ id ∷ contract ∷ time ∷ []
unfolding modify_time_line is_space
modify_time_line-tokens id contract time h k l =
    split_line-join (codes "MODIFY_TIME" ∷ id ∷ contract ∷ time ∷ []) (
      record { ne_nil = λ e. cc; solid = ground arith },
      (alert_id-IsToken id h, (contract-IsToken contract k, (time_text-IsToken time l, tt))),
    )
