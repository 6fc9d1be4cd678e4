-- ===== src/Client/Bounds.antt =====
-- The buffers of the console client's main (Client/main.cpp).
use cloud_alert_system.Common.{
  ℕ, zero, suc, ◌+◌, ◌≤◌, ◌<◌, ◌≡◌, ◌≢◌, ◌↔◌, subst, inl, inr, none, some, [], ◌∷◌, ◌++◌, arith,
  ◌==◌, Bool-cases, length, length-append, ℤ,
}
use cloud_alert_system.Text.{Bytes, codes, format_into}
use cloud_alert_system.Text.Split.{join}
use cloud_alert_system.Text.Number.{print_int, length-print_int}
use cloud_alert_system.Client.Menu.{
  fgets_more, cut_line, field, console_register, console_login, console_set_email, console_add_time,
  console_delete, console_modify_time, console_query,
}

fits-format_into :
    (size : ℕ) (text : Bytes) → length text < size → format_into size text ≡ some text
unfolding format_into
fits-format_into size text h = ground (arith, h)

length-join_two : (a b : Bytes) → length (join (a ∷ b ∷ [])) ≡ length a + (length b + 1)
unfolding join
length-join_two a b = omega (arith, length-append a (32 ∷ b))

length-join_three :
    (a b c : Bytes) → length (join (a ∷ b ∷ c ∷ [])) ≡ length a + (length b + (length c + 2))
unfolding join
length-join_three a b c =
    omega (arith, length-append a (32 ∷ join (b ∷ c ∷ [])), length-join_two b c)

length-join_four :
    (a b c d : Bytes)
    → length (join (a ∷ b ∷ c ∷ d ∷ [])) ≡ length a + (length b + (length c + (length d + 3)))
unfolding join
length-join_four a b c d =
    omega (arith, length-append a (32 ∷ join (b ∷ c ∷ d ∷ [])), length-join_three b c d)

length-fgets_more :
    (room : ℕ) (line input : Bytes) → length (fgets_more room line input).0 ≤ length line + room
unfolding fgets_more
length-fgets_more zero line [] = omega arith
length-fgets_more (suc room) line [] = omega arith
length-fgets_more zero line (c ∷ input) = omega arith
length-fgets_more (suc room) line (c ∷ input) = elim (Bool-cases (c == 10)) [
  | inl e ↦ rw (fgets_more, e) (omega (arith, length-append line (c ∷ [])))
  | inr e ↦
      rw (fgets_more, e)
        (omega (arith, length-append line (c ∷ []), length-fgets_more room (line ++ c ∷ []) input))
]

length-cut_line : (s : Bytes) → length (cut_line s) ≤ length s
unfolding cut_line
length-cut_line [] = omega arith
length-cut_line (c ∷ s) = ground (arith, length-cut_line s)

-- A field that is read is no longer than its buffer, less the NUL.
pub length-field :
    (room : ℕ) (input text rest : Bytes) → field room input ≡ some (text, rest) → length text ≤ room
unfolding field
length-field room [] text rest e = absurd (ground (arith, e))
length-field room (c ∷ input) text rest e =
    let read = fgets_more room [] (c ∷ input) in
    let same : cut_line read.0 ≡ text = ground (arith, e) in
    subst (λ t. length t ≤ room) same
      (omega (arith, length-cut_line read.0, length-fgets_more room [] (c ∷ input)))

-- The SET_EMAIL line of the console client does not fit its buffer, which ends the process,
-- exactly when the user name, the password and the address have 244 bytes or more together.
pub console_set_email_iff :
    (username pass email : Bytes)
    → (console_set_email username pass email ≡ none)
      ↔ (244 ≤ length username + length pass + length email)
unfolding console_set_email format_into
console_set_email_iff username pass email =
    let size = length-join_four (codes "SET_EMAIL") username pass email in
    (λ e. ground (arith, size), λ h. ground (arith, size))

-- With fields of the lengths that are read, the other commands whose numbers are printed by "%d"
-- fit their buffers.
pub console_fits :
    (username pass email contract time : Bytes) (id status : ℤ)
    → length username ≤ 63
    → length pass ≤ 63
    → length email ≤ 127
    → length contract ≤ 31
    → length time ≤ 31
    → (console_register username pass email ≢ none)
      × (console_login username pass ≢ none)
      × (console_add_time username contract time ≢ none)
      × (console_delete id ≢ none)
      × (console_modify_time id contract time ≢ none)
      × (console_query username status ≢ none)
unfolding console_register console_login console_add_time console_delete console_modify_time
    console_query
console_fits username pass email contract time id status hu hp he hc ht = (
  fits 320 (join (codes "REGISTER" ∷ username ∷ pass ∷ email ∷ []))
      (omega (arith, hu, hp, he, length-join_four (codes "REGISTER") username pass email)),
  fits 256 (join (codes "LOGIN" ∷ username ∷ pass ∷ []))
      (omega (arith, hu, hp, length-join_three (codes "LOGIN") username pass)),
  fits 256 (join (codes "ADD_TIME" ∷ username ∷ contract ∷ time ∷ []))
      (omega (arith, hu, hc, ht, length-join_four (codes "ADD_TIME") username contract time)),
  fits 64 (join (codes "DELETE" ∷ print_int id ∷ []))
      (omega (arith, length-print_int id, length-join_two (codes "DELETE") (print_int id))),
  fits 256 (join (codes "MODIFY_TIME" ∷ print_int id ∷ contract ∷ time ∷ [])) (
      omega (
        arith,
        hc,
        ht,
        length-print_int id,
        length-join_four (codes "MODIFY_TIME") (print_int id) contract time,
      )),
  fits 128 (join (codes "QUERY" ∷ username ∷ print_int status ∷ [])) (
      omega (
        arith,
        hu,
        length-print_int status,
        length-join_three (codes "QUERY") username (print_int status),
      )),
)
  where
    fits : (size : ℕ) (text : Bytes) → length text < size → format_into size text ≢ none
    fits size text h e = absurd (ground (arith, fits-format_into size text h, e))
