-- ===== src/Text.antt =====
-- C++ texts as lists of bytes: comparison, `c_str`, the tokens of `istringstream >> tok`
-- (`SplitLine` of Server/ClientSession.cpp, `Split` of MFCClient/MainFrame.cpp), and the
-- buffers of `_snprintf_s`.
pub mod Split
pub mod Number
pub mod Tokens
use cloud_alert_system.Common.{
  ℕ, String, ◌≡◌, refl, ap, ◌↔◌, Bool, true, false, ◌&&◌, ◌||◌, not, Option, none, some, List, [],
  ◌∷◌, ◌++◌, arith, ltb, leb, ◌==◌, ==_iff, if◌then◌else◌, length, Key,
}
use Prim.Native.Char.{code}
use Prim.Native.String

abbrev pub Bytes : Type 0
Bytes = List ℕ

-- The bytes of an ASCII literal.
abbrev pub codes : String → Bytes
codes String.[] = []
codes (String.◌∷◌ c s) = code c ∷ codes s

-- a == b
unfoldable pub same_text : Bytes → Bytes → Bool
same_text [] [] = true
same_text (a ∷ s) (b ∷ t) = a == b && same_text s t
same_text _ _ = false

pub same_text_iff : (s t : Bytes) → (same_text s t ≡ true) ↔ (s ≡ t)
unfolding same_text
same_text_iff [] [] = (λ _. refl, λ _. refl)
same_text_iff [] (b ∷ t) = (λ h. cc, λ h. cc)
same_text_iff (a ∷ s) [] = (λ h. cc, λ h. cc)
same_text_iff (a ∷ s) (b ∷ t) = ground (arith, same_text_iff s t)

abbrev pub text_key : Key Bytes
text_key = record { same = same_text; same_iff = same_text_iff }

-- s.empty()
abbrev pub is_empty : Bytes → Bool
is_empty [] = true
is_empty (c ∷ s) = false

-- What a callee sees of `s.c_str()`: the bytes before the first NUL.
unfoldable pub c_str : Bytes → Bytes
c_str [] = []
c_str (c ∷ s) = if c == 0 then [] else c ∷ c_str s

pub c_str-c_str : (s : Bytes) → c_str (c_str s) ≡ c_str s
unfolding c_str
c_str-c_str [] = refl
c_str-c_str (c ∷ s) = ground (arith, c_str-c_str s)

-- s.substr(0, p.size()) == p
unfoldable pub starts_with : Bytes → Bytes → Bool
starts_with [] s = true
starts_with (p ∷ ps) [] = false
starts_with (p ∷ ps) (c ∷ s) = p == c && starts_with ps s

-- `isspace` in the "C" locale: tab, line feed, vertical tab, form feed, return, blank
unfoldable pub is_space : ℕ → Bool
is_space c = (leb 9 c && leb c 13) || c == 32

-- `_snprintf_s(buf, sizeof(buf), ...)` with `size = sizeof(buf)`: a text that does not fit with its
-- NUL makes the C runtime's invalid parameter handler end the process.
unfoldable pub format_into : ℕ → Bytes → Option Bytes
format_into size text = if ltb (length text) size then some text else none
