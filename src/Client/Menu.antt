-- ===== src/Client/Menu.antt =====
-- The menu of the console client: main of Client/main.cpp.
use cloud_alert_system.Common.{
  ℕ, zero, suc, Bool, true, false, ◌||◌, Option, none, some, List, [], ◌∷◌, ◌++◌, ◌==◌,
  if◌then◌else◌, ℤ, pos, eq_ℤ,
}
use cloud_alert_system.Text.{Bytes, codes, starts_with, format_into}
use cloud_alert_system.AlertEngine.{◌>>=◌}
use cloud_alert_system.Text.Split.{join}
use cloud_alert_system.Text.Number.{atoi, print_int, is_digit}
use cloud_alert_system.Client.{Shown, do_cmd, do_cmd_one_line}

-- what scanf_s reads at "%d" and "%lf", with the input that is left, and "%.4f"
pub record Console (D : Type 0) : Type 0 where
  pub scan_int : Bytes → ℤ × Bytes
  pub scan_double : Bytes → D × Bytes
  pub print_4 : D → Bytes

-- fgets with a buffer of `suc room` bytes; `line` is what was read so far
unfoldable pub fgets_more : ℕ → Bytes → Bytes → Bytes × Bytes
fgets_more room line [] = (line, [])
fgets_more zero line (c ∷ input) = (line, c ∷ input)
fgets_more (suc room) line (c ∷ input) = elim (c == 10) [
  | true ↦ (line ++ c ∷ [], input)
  | false ↦ fgets_more room (line ++ c ∷ []) input
]

abbrev pub fgets : ℕ → Bytes → Option (Bytes × Bytes)
fgets room [] = none
fgets room (c ∷ input) = some (fgets_more room [] (c ∷ input))

-- text[strcspn(text, "\n")] = 0
unfoldable pub cut_line : Bytes → Bytes
cut_line [] = []
cut_line (c ∷ s) = if c == 10 || c == 0 then [] else c ∷ cut_line s

-- a field: fgets, and the line feed cut off; `none` at the end of the input, where the source goes on with
-- what the buffer held
unfoldable pub field : ℕ → Bytes → Option (Bytes × Bytes)
unfolding fgets_more cut_line
field room input = do (text, rest) ← fgets room input; some (cut_line text, rest)

-- scanf_s("%d", ...); getchar();
abbrev after_char : Bytes → Bytes
after_char [] = []
after_char (c ∷ input) = input

-- the texts of the commands, in their buffers; `none` where a text does not fit, which ends the process
unfoldable pub console_register : Bytes → Bytes → Bytes → Option Bytes
unfolding format_into join
console_register user pass email =
    format_into 320 (join (codes "REGISTER" ∷ user ∷ pass ∷ email ∷ []))

unfoldable pub console_login : Bytes → Bytes → Option Bytes
unfolding format_into join
console_login user pass = format_into 256 (join (codes "LOGIN" ∷ user ∷ pass ∷ []))

unfoldable pub console_set_email : Bytes → Bytes → Bytes → Option Bytes
unfolding format_into join
console_set_email username pass email =
    format_into 256 (join (codes "SET_EMAIL" ∷ username ∷ pass ∷ email ∷ []))

unfoldable pub console_add_time : Bytes → Bytes → Bytes → Option Bytes
unfolding format_into join
console_add_time username contract time =
    format_into 256 (join (codes "ADD_TIME" ∷ username ∷ contract ∷ time ∷ []))

unfoldable pub console_delete : ℤ → Option Bytes
unfolding format_into join
console_delete id = format_into 64 (join (codes "DELETE" ∷ print_int id ∷ []))

unfoldable pub console_modify_time : ℤ → Bytes → Bytes → Option Bytes
unfolding format_into join
console_modify_time id contract time =
    format_into 256 (join (codes "MODIFY_TIME" ∷ print_int id ∷ contract ∷ time ∷ []))

unfoldable pub console_query : Bytes → ℤ → Option Bytes
unfolding format_into join
console_query username status =
    format_into 128 (join (codes "QUERY" ∷ username ∷ print_int status ∷ []))

-- the choices of the menu from 3 to 9
pub data Choice : Type 0 where
  email_choice add_price_choice add_time_choice delete_choice : Choice
  modify_price_choice modify_time_choice query_choice : Choice

-- the ladder of main, on the number that was read
pub data Selected : Type 0 where
  exits registers logs_in unknown : Selected
  chooses : Choice → Selected

unfoldable pub selected_of : ℤ → Selected
selected_of n =
    if eq_ℤ n (pos 0)
    then exits
    else if eq_ℤ n (pos 1)
    then registers
    else if eq_ℤ n (pos 2)
    then logs_in
    else if eq_ℤ n (pos 3)
    then chooses email_choice
    else if eq_ℤ n (pos 4)
    then chooses add_price_choice
    else if eq_ℤ n (pos 5)
    then chooses add_time_choice
    else if eq_ℤ n (pos 6)
    then chooses delete_choice
    else if eq_ℤ n (pos 7)
    then chooses modify_price_choice
    else if eq_ℤ n (pos 8)
    then chooses modify_time_choice
    else if eq_ℤ n (pos 9)
    then chooses query_choice
    else unknown

-- g_username, what is left of the standard input, the commands that were given to SendLine, and what
-- DoCmd printed
pub record Menu : Type 0 where
  pub username : Bytes
  pub input : Bytes
  pub commands : List Bytes
  pub printed : List Shown

-- what the socket answers to a command: SendLine, and the lines that QueueRead gives
pub record Line : Type 0 where
  pub sends : Bool
  pub incoming : List Bytes

-- DoCmd
abbrev pub run_cmd : Line → Bytes → Menu → Menu
run_cmd l cmd m = record m {
  commands = m.commands ++ cmd ∷ [];
  printed = m.printed ++ (if l.sends then do_cmd l.incoming else []);
}

-- DoCmdOneLine
abbrev pub one_line : Line → Bytes
one_line l = if l.sends then do_cmd_one_line l.incoming else []

module _ {D : Type 0} (K : Console D) where
  unfoldable pub console_add_price : Bytes → Bytes → D → ℤ → Option Bytes
  unfolding format_into join
  console_add_price username contract price cond =
      format_into 256
        (join (codes "ADD_PRICE" ∷ username ∷ contract ∷ K.print_4 price ∷ print_int cond ∷ []))

  unfoldable pub console_modify_price : ℤ → Bytes → D → ℤ → Option Bytes
  unfolding format_into join
  console_modify_price id contract price cond = format_into 256 (
      join (codes "MODIFY_PRICE" ∷ print_int id ∷ contract ∷ K.print_4 price ∷ print_int cond ∷ []))

  abbrev number_read : Bytes → ℤ × Bytes
  number_read input = let (n, rest) = K.scan_int input in (n, after_char rest)

  abbrev price_read : Bytes → D × Bytes
  price_read input = let (p, rest) = K.scan_double input in (p, after_char rest)

  -- the command of a choice that needs a login, and the input that is left
  unfoldable pub chosen : Choice → Bytes → Bytes → Option (Bytes × Bytes)
  unfolding field console_set_email console_add_price console_add_time console_delete
      console_modify_price console_modify_time console_query
  chosen email_choice username input = do
    (pass, s) ← field 63 input
    (email, t) ← field 127 s
    cmd ← console_set_email username pass email
    some (cmd, t)
  chosen add_price_choice username input = do
    (contract, s) ← field 31 input
    let (cond, t) = number_read s
    let (price, u) = price_read t
    cmd ← console_add_price username contract price cond
    some (cmd, u)
  chosen add_time_choice username input = do
    (contract, s) ← field 31 input
    (time, t) ← field 31 s
    cmd ← console_add_time username contract time
    some (cmd, t)
  chosen delete_choice username input = do
    let (id, s) = number_read input
    cmd ← console_delete id
    some (cmd, s)
  chosen modify_price_choice username input = do
    let (id, s) = number_read input
    (contract, t) ← field 31 s
    let (cond, u) = number_read t
    let (price, v) = price_read u
    cmd ← console_modify_price id contract price cond
    some (cmd, v)
  chosen modify_time_choice username input = do
    let (id, s) = number_read input
    (contract, t) ← field 31 s
    (time, u) ← field 31 t
    cmd ← console_modify_time id contract time
    some (cmd, u)
  chosen query_choice username input = do
    let (status, s) = number_read input
    cmd ← console_query username status
    some (cmd, s)

  abbrev pub after_login : Line → Bytes → Bytes → Menu → Menu
  after_login l user cmd m = record m {
    username = if starts_with (codes "OK") (one_line l) then user else m.username;
    commands = m.commands ++ cmd ∷ [];
  }

  -- what a choice does; the result tells whether the loop goes on
  unfoldable pub perform_choice : Line → Selected → Menu → Option (Menu × Bool)
  unfolding field console_register console_login chosen do_cmd do_cmd_one_line
  perform_choice l exits m = some (m, false)
  perform_choice l registers m = do
    (user, s) ← field 63 m.input
    (pass, t) ← field 63 s
    (email, u) ← field 127 t
    cmd ← console_register user pass email
    some (record m { input = u; commands = m.commands ++ cmd ∷ [] }, true)
  perform_choice l logs_in m = do
    (user, s) ← field 63 m.input
    (pass, t) ← field 63 s
    cmd ← console_login user pass
    some (after_login l user cmd (record m { input = t }), true)
  perform_choice l unknown m = some (m, true)
  perform_choice l (chooses choice) m = elim m.username [
    | [] ↦ some (m, true)
    | _ ∷ _ ↦ do
      (cmd, rest) ← chosen choice m.username m.input
      some (run_cmd l cmd (record m { input = rest }), true)
  ]

  -- the line of the choice: a first byte that is no digit is refused
  abbrev pub read_choice : Line → Bytes → Menu → Option (Menu × Bool)
  read_choice l [] m = some (m, true)
  read_choice l (c ∷ text) m =
      if is_digit c then perform_choice l (selected_of (atoi (c ∷ text))) m else some (m, true)

  -- One round of the loop of main, without its prompts; `none`: the input ended in a field, or a text
  -- did not fit.
  unfoldable pub menu_round : Line → Menu → Option (Menu × Bool)
  unfolding perform_choice selected_of fgets_more cut_line atoi is_digit
  menu_round l m = elim (fgets 255 m.input) [
    | none ↦ some (m, false)
    | some (text, rest) ↦ read_choice l (cut_line text) (record m { input = rest })
  ]
