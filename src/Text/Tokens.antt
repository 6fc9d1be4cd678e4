-- ===== src/Text/Tokens.antt =====
-- Printed numbers are tokens, and a line of tokens holds no line feed.
use cloud_alert_system.Common.{
  ℕ, zero, suc, ◌+◌, ◌/◌, ◌%◌, ◌<◌, ◌≡◌, ◌≢◌, refl, false, List, [], ◌∷◌, ◌++◌, arith, ltb, ◌==◌,
  ltb→lt, Bool-cases, inl, inr, All, All-append, ℤ, pos, negsuc,
}
use cloud_alert_system.Text.{Bytes, is_space}
use cloud_alert_system.Text.Split.{IsToken, join}
use cloud_alert_system.Text.Number.{decimal, print_int}

solid_digit : (d : ℕ) → d < 10 → is_space (48 + d) ≡ false
unfolding is_space
solid_digit d h = ground (arith, h)

decimal-solid : (fuel n : ℕ) → All (λ c. is_space c ≡ false) (decimal fuel n)
unfolding decimal
decimal-solid zero n = tt
decimal-solid (suc fuel) n = elim (Bool-cases (ltb n 10)) [
  | inl e ↦ rw (decimal, e) (solid_digit n (ltb→lt n 10 e), tt)
  | inr e ↦
      rw (decimal, e)
        (All-append (λ c. is_space c ≡ false) (decimal fuel (n / 10)) ((48 + n % 10) ∷ [])
          (decimal-solid fuel (n / 10)) (solid_digit (n % 10) (omega arith), tt))
]

ne_nil-snoc : (s : Bytes) (c : ℕ) → s ++ c ∷ [] ≢ []
ne_nil-snoc [] c e = cc
ne_nil-snoc (d ∷ s) c e = cc

decimal-ne_nil : (fuel n : ℕ) → decimal (suc fuel) n ≢ []
unfolding decimal
decimal-ne_nil fuel n = elim (Bool-cases (ltb n 10)) [
  | inl e ↦ rw (decimal, e) (λ h. cc)
  | inr e ↦ rw (decimal, e) (ne_nil-snoc (decimal fuel (n / 10)) (48 + n % 10))
]

pub print_int-IsToken : (a : ℤ) → IsToken (print_int a)
unfolding print_int
print_int-IsToken (pos n) = record { ne_nil = decimal-ne_nil 9 n; solid = decimal-solid 10 n }
print_int-IsToken (negsuc n) = record {
  ne_nil = λ e. cc;
  solid = (unfold is_space in ground arith, decimal-solid 10 (suc n));
}

-- neither a line feed nor a return
abbrev pub InLine : ℕ → Type 0
InLine c = ((c == 10) ≡ false) × ((c == 13) ≡ false)

solid-InLine : (s : Bytes) → All (λ c. is_space c ≡ false) s → All InLine s
solid-InLine [] h = tt
solid-InLine (c ∷ s) h = (
  (unfold is_space in ground (arith, h.0), unfold is_space in ground (arith, h.0)),
  solid-InLine s h.1,
)

pub join-InLine : (ts : List Bytes) → All IsToken ts → All InLine (join ts)
unfolding join
join-InLine [] h = tt
join-InLine (t ∷ []) h = solid-InLine t h.0.solid
join-InLine (t ∷ u ∷ ts) h =
    All-append InLine t (32 ∷ join (u ∷ ts)) (solid-InLine t h.0.solid)
      ((refl, refl), join-InLine (u ∷ ts) h.1)
