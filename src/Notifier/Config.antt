-- ===== src/Notifier/Config.antt =====
-- LoadConfig of Server/Notifier.cpp: the lines of server.conf.
use cloud_alert_system.Common.{
  ℕ, Bool, true, false, ◌&&◌, ◌||◌, Option, none, some, List, [], ◌∷◌, ◌++◌, ◌==◌, if◌then◌else◌,
}
use cloud_alert_system.Text.{Bytes, codes, same_text, is_empty}

pub record EmailConfig : Type 0 where
  pub account : Bytes
  pub password : Bytes
  pub smtp : Bytes
  pub from : Bytes
  pub ssl : Bool

-- std::getline, as often as it succeeds
unfoldable pub text_lines : Bytes → Bytes → List Bytes
text_lines line [] = if is_empty line then [] else line ∷ []
text_lines line (c ∷ s) = elim (c == 10) [
  | true ↦ line ∷ text_lines [] s
  | false ↦ text_lines (line ++ c ∷ []) s
]

abbrev pub is_blank : ℕ → Bool
is_blank c = c == 32 || c == 9

-- blank, tab, carriage return, line feed
abbrev pub is_trailing : ℕ → Bool
is_trailing c = c == 13 || (c == 10 || is_blank c)

-- line.substr(line.find_first_not_of(" \t"))
unfoldable pub strip_front : Bytes → Bytes
strip_front [] = []
strip_front (c ∷ s) = if is_blank c then strip_front s else c ∷ s

-- while (!s.empty() && p(s.back())) s.pop_back();
unfoldable pub strip_back : (ℕ → Bool) → Bytes → Bytes
strip_back p [] = []
strip_back p (c ∷ s) = let rest = strip_back p s in if is_empty rest && p c then [] else c ∷ rest

-- The texts before and after the first `=`.
unfoldable pub split_key : Bytes → Option (Bytes × Bytes)
split_key [] = none
split_key (c ∷ s) =
    if c == b'='
    then some ([], s)
    else elim (split_key s) [ none ↦ none | some (key, val) ↦ some (c ∷ key, val) ]

-- The five assignments, each under its own test.
abbrev set_field : Bytes → Bytes → EmailConfig → EmailConfig
set_field key val c = record {
  account = if same_text key (codes "email_account") then val else c.account;
  password = if same_text key (codes "email_password") then val else c.password;
  smtp = if same_text key (codes "email_smtp") then val else c.smtp;
  from = if same_text key (codes "email_from") then val else c.from;
  ssl =
      if same_text key (codes "email_ssl")
      then same_text val (codes "1") || same_text val (codes "true")
      else c.ssl;
}

abbrev apply_entry : EmailConfig → Option (Bytes × Bytes) → EmailConfig
apply_entry c none = c
apply_entry c (some (key, val)) = set_field (strip_back is_blank key) (strip_back is_trailing val) c

abbrev apply_stripped : EmailConfig → Bytes → EmailConfig
apply_stripped c [] = c
apply_stripped c (b ∷ s) = if b == b'#' then c else apply_entry c (split_key (b ∷ s))

-- The body of the loop.
unfoldable pub apply_line : EmailConfig → Bytes → EmailConfig
unfolding strip_front strip_back split_key same_text
apply_line c line = apply_stripped c (strip_front line)

unfoldable pub apply_lines : EmailConfig → List Bytes → EmailConfig
apply_lines c [] = c
apply_lines c (line ∷ lines) = apply_lines (apply_line c line) lines

-- The file as bytes, without the line ends of a text stream; `none`: server.conf cannot be opened.
unfoldable pub load_config : EmailConfig → Option Bytes → EmailConfig
unfolding apply_lines apply_line text_lines
load_config c none = c
load_config c (some text) = apply_lines c (text_lines [] text)
