-- ===== src/Text/Number.antt =====
-- `atoi` of the C runtime and the `%d` of `printf`, on the C++ `int`.
use cloud_alert_system.Common.{
  ℕ, zero, suc, ◌+◌, ◌-◌, ◌*◌, ◌/◌, ◌%◌, ◌^◌, ◌≤◌, ◌<◌, ◌≡◌, refl, ap, ◌∙◌, Bool, true, false, ◌&&◌,
  [], ◌∷◌, ◌++◌, arith, ltb, leb, ◌==◌, All, All-append, Bool-cases, inl, inr, if◌then◌else◌, ℤ,
  pos, negsuc, IsInt, length, length-append,
}
use native.Mathlib.Nat.{pow-suc}
use cloud_alert_system.Text.{Bytes, is_space}

unfoldable pub is_digit : ℕ → Bool
is_digit c = leb 48 c && leb c 57

-- The value of the digits at the front.
unfoldable pub digits_value : ℕ → Bytes → ℕ
digits_value n [] = n
digits_value n (c ∷ s) = elim (is_digit c) [ true ↦ digits_value (n * 10 + (c - 48)) s | false ↦ n ]

unfoldable pub skip_space : Bytes → Bytes
skip_space [] = []
skip_space (c ∷ s) = if is_space c then skip_space s else c ∷ s

-- -n
abbrev pub minus : ℕ → ℤ
minus zero = pos 0
minus (suc n) = negsuc n

-- Out of range the runtime returns INT_MAX or INT_MIN.
abbrev clamp_pos : ℕ → ℤ
clamp_pos n = if ltb n (2 ^ 31) then pos n else pos (2 ^ 31 - 1)

abbrev clamp_neg : ℕ → ℤ
clamp_neg n = if leb n (2 ^ 31) then minus n else negsuc (2 ^ 31 - 1)

abbrev signed : Bytes → ℤ
signed [] = pos 0
signed (c ∷ s) =
    if c == b'-'
    then clamp_neg (digits_value 0 s)
    else if c == b'+'
    then clamp_pos (digits_value 0 s)
    else clamp_pos (digits_value 0 (c ∷ s))

unfoldable pub atoi : Bytes → ℤ
unfolding digits_value skip_space is_digit is_space
atoi s = signed (skip_space s)

-- The last `fuel` decimal digits of a number, without leading zeros.
unfoldable pub decimal : ℕ → ℕ → Bytes
decimal zero n = []
decimal (suc fuel) n = elim (ltb n 10) [
  | true ↦ (48 + n) ∷ []
  | false ↦ decimal fuel (n / 10) ++ (48 + n % 10) ∷ []
]

-- `%d`: ten digits are enough for an `int`.
unfoldable pub print_int : ℤ → Bytes
unfolding decimal
print_int (pos n) = decimal 10 n
print_int (negsuc n) = b'-' ∷ decimal 10 (suc n)

abbrev AllDigits : Bytes → Type 0
AllDigits = All (λ c. is_digit c ≡ true)

digits_value-append :
    (n : ℕ) (s t : Bytes)
    → AllDigits s
    → digits_value n (s ++ t) ≡ digits_value (digits_value n s) t
unfolding digits_value
digits_value-append n [] t h = refl
digits_value-append n (c ∷ s) t h =
    rw (h.0, digits_value) (digits_value-append (n * 10 + (c - 48)) s t h.1)

decimal-AllDigits : (fuel n : ℕ) → AllDigits (decimal fuel n)
unfolding decimal is_digit
decimal-AllDigits zero n = tt
decimal-AllDigits (suc fuel) n = elim (Bool-cases (ltb n 10)) [
  | inl e ↦ rw (e, decimal) (ground arith, tt)
  | inr e ↦
      rw (e, decimal)
        (All-append (λ c. is_digit c ≡ true) (decimal fuel (n / 10)) ((48 + n % 10) ∷ [])
          (decimal-AllDigits fuel (n / 10)) (ground arith, tt))
]

digits_value-decimal : (fuel n : ℕ) → n < 10 ^ fuel → digits_value 0 (decimal fuel n) ≡ n
unfolding decimal digits_value is_digit
digits_value-decimal zero n h = omega arith
digits_value-decimal (suc fuel) n h = elim (Bool-cases (ltb n 10)) [
  | inl e ↦ rw (e, decimal) (ground arith)
  | inr e ↦
      rw (e, decimal)
        (digits_value-append 0 (decimal fuel (n / 10)) ((48 + n % 10) ∷ [])
            (decimal-AllDigits fuel (n / 10))
          ∙ ground (arith, digits_value-decimal fuel (n / 10), pow-suc 10 fuel))
]

-- Digits hold no white space and no sign.
atoi-AllDigits : (s : Bytes) → AllDigits s → atoi s ≡ clamp_pos (digits_value 0 s)
unfolding atoi
atoi-AllDigits [] h = refl
atoi-AllDigits (c ∷ s) h = ground arith

atoi_minus : (s : Bytes) → atoi (b'-' ∷ s) ≡ clamp_neg (digits_value 0 s)
unfolding atoi
atoi_minus s = refl

clamp_pos_id : (n : ℕ) → n < 2 ^ 31 → clamp_pos n ≡ pos n
clamp_pos_id n h = ground arith

clamp_neg_id : (n : ℕ) → n < 2 ^ 31 → clamp_neg (suc n) ≡ negsuc n
clamp_neg_id n h = ground arith

-- `atoi` reads back what `%d` prints, on the whole range of `int`.
pub atoi-print_int : (a : ℤ) → IsInt a → atoi (print_int a) ≡ a
unfolding print_int
atoi-print_int (pos n) h =
    atoi-AllDigits (decimal 10 n) (decimal-AllDigits 10 n)
    ∙ ap clamp_pos (digits_value-decimal 10 n (omega arith))
    ∙ clamp_pos_id n h
atoi-print_int (negsuc n) h =
    atoi_minus (decimal 10 (suc n))
    ∙ ap clamp_neg (digits_value-decimal 10 (suc n) (omega arith))
    ∙ clamp_neg_id n h

length-decimal : (fuel n : ℕ) → length (decimal fuel n) ≤ fuel
unfolding decimal
length-decimal zero n = omega arith
length-decimal (suc fuel) n = ground (
  arith,
  length-decimal fuel (n / 10),
  length-append (decimal fuel (n / 10)) ((48 + n % 10) ∷ []),
)

-- A printed `int` is at most eleven bytes long.
pub length-print_int : (a : ℤ) → length (print_int a) ≤ 11
unfolding print_int
length-print_int (pos n) = omega (arith, length-decimal 10 n)
length-print_int (negsuc n) = omega (arith, length-decimal 10 (suc n))

decimal-AllDigits_solid : (s : Bytes) → AllDigits s → All (λ c. is_space c ≡ false) s
unfolding is_digit is_space
decimal-AllDigits_solid [] h = tt
decimal-AllDigits_solid (c ∷ s) h = (ground arith, decimal-AllDigits_solid s h.1)
