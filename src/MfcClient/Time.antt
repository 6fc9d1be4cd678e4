-- ===== src/MfcClient/Time.antt =====
-- The times that the client lets through (ValidateTimeText of MFCClient/MainFrame.cpp).
use cloud_alert_system.Common.{
  ℕ, ◌+◌, ◌-◌, ◌*◌, ◌/◌, ◌%◌, ◌≤◌, ◌<◌, ◌≡◌, ap, ap₂, ◌∙◌, true, [], ◌∷◌, ◌++◌, arith, ==_iff, pos,
}
use cloud_alert_system.Text.{Bytes, is_space}
use cloud_alert_system.Text.Number.{is_digit, digits_value, skip_space, atoi}
use cloud_alert_system.MfcClient.{validate_time_text}

-- a number below 100 in two digits
abbrev pub two : ℕ → Bytes
two n = (48 + n / 10) ∷ (48 + n % 10) ∷ []

-- as GetCurrentHMS() prints a time of the day
abbrev pub clock : ℕ → ℕ → ℕ → Bytes
clock h m s = two h ++ 58 ∷ two m ++ 58 ∷ two s

atoi_digits :
    (a b : ℕ)
    → is_digit a ≡ true
    → is_digit b ≡ true
    → atoi (a ∷ b ∷ []) ≡ pos ((a - 48) * 10 + (b - 48))
unfolding atoi digits_value skip_space is_digit is_space
atoi_digits a b ha hb = ground arith

two-digits :
    (a b : ℕ) → is_digit a ≡ true → is_digit b ≡ true → a ∷ b ∷ [] ≡ two ((a - 48) * 10 + (b - 48))
unfolding is_digit
two-digits a b ha hb =
    let la : 48 ≤ a = ground arith in
    let lb : 48 ≤ b = ground arith in
    let ub : b ≤ 57 = ground arith in
    ap₂ (λ x y. x ∷ y ∷ []) (omega (arith, la, lb, ub)) (omega (arith, la, lb, ub))

-- What the client lets through is a time of the day as the clock of the server prints it.
pub validate_time_text-clock :
    (text : Bytes)
    → validate_time_text text ≡ true
    → (h : ℕ) × (m : ℕ) × (s : ℕ) × (h < 24) × (m < 60) × (s < 60) × (text ≡ clock h m s)
unfolding validate_time_text
validate_time_text-clock (a ∷ b ∷ x ∷ c ∷ d ∷ y ∷ e ∷ f ∷ []) v =
    let da : is_digit a ≡ true = ground (arith, v) in
    let db : is_digit b ≡ true = ground (arith, v) in
    let dc : is_digit c ≡ true = ground (arith, v) in
    let dd : is_digit d ≡ true = ground (arith, v) in
    let de : is_digit e ≡ true = ground (arith, v) in
    let df : is_digit f ≡ true = ground (arith, v) in
    let w = rw (atoi_digits a b da db, atoi_digits c d dc dd, atoi_digits e f de df) at v in
    let first_colon : x ≡ 58 = ground (arith, v, ==_iff x 58) in
    let second_colon : y ≡ 58 = ground (arith, v, ==_iff y 58) in
    (
      (a - 48) * 10 + (b - 48),
      (c - 48) * 10 + (d - 48),
      (e - 48) * 10 + (f - 48),
      ground (arith, w),
      ground (arith, w),
      ground (arith, w),
      rw (first_colon, second_colon)
          (ap (λ q. q ++ 58 ∷ c ∷ d ∷ 58 ∷ e ∷ f ∷ []) (two-digits a b da db)
            ∙ ap (λ q. two ((a - 48) * 10 + (b - 48)) ++ 58 ∷ q ++ 58 ∷ e ∷ f ∷ [])
                (two-digits c d dc dd)
            ∙ ap
                (λ q.
                  two ((a - 48) * 10 + (b - 48)) ++ 58 ∷ two ((c - 48) * 10 + (d - 48)) ++ 58 ∷ q)
                (two-digits e f de df)),
    )
validate_time_text-clock _ v = absurd (ground (arith, v))

digits-two : (n : ℕ) → n < 100 → (is_digit (48 + n / 10) ≡ true) × (is_digit (48 + n % 10) ≡ true)
unfolding is_digit
digits-two n h =
    let tens : n / 10 ≤ 9 = omega (arith, h) in
    let ones : n % 10 ≤ 9 = omega arith in (ground (arith, tens), ground (arith, ones))

atoi-two : (n : ℕ) → n < 100 → atoi (two n) ≡ pos n
atoi-two n h =
    let d = digits-two n h in atoi_digits (48 + n / 10) (48 + n % 10) d.0 d.1 ∙ ap pos (omega arith)

-- Every time of the day, as the clock of the server prints it, is let through.
pub clock-validate_time_text :
    (h m s : ℕ) → h < 24 → m < 60 → s < 60 → validate_time_text (clock h m s) ≡ true
unfolding validate_time_text
clock-validate_time_text h m s hh hm hs =
    let dh = digits-two h (omega (arith, hh)) in
    let dm = digits-two m (omega (arith, hm)) in
    let ds = digits-two s (omega (arith, hs)) in
    let ah = atoi-two h (omega (arith, hh)) in
    let am = atoi-two m (omega (arith, hm)) in
    let as' = atoi-two s (omega (arith, hs)) in
    rw (dh.0, dh.1, dm.0, dm.1, ds.0, ds.1, ah, am, as') (ground (arith, hh, hm, hs))
