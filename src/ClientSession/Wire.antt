-- ===== src/ClientSession/Wire.antt =====
-- The lines between a client and a session: SendLine of Client/TcpClient.cpp against RecvLine of
-- Server/ClientSession.cpp.
use cloud_alert_system.Common.{
  ℕ, zero, suc, ◌+◌, ◌≤◌, ◌≡◌, ◌≢◌, refl, sym, ap, subst, ◌∙◌, inl, inr, false, some, List, [], ◌∷◌,
  ◌++◌, arith, ltb, ◌==◌, ==_iff, Bool-cases, if◌then◌else◌, length, length-append, All, All-append,
}
use cloud_alert_system.Text.{Bytes}
use cloud_alert_system.Protocol.{recv_buf_size}
use mathlib.Core.List.{append-nil, append_assoc}
use cloud_alert_system.ClientSession.Receive.{recv_line, recv_lines}

-- a line without a return or a line feed
abbrev pub IsClean : Bytes → Type 0
IsClean text = All (λ c. (c ≢ 13) × (c ≢ 10)) text

-- what SendLine of the clients sends: each line and a line feed
unfoldable pub wire : List Bytes → Bytes
wire [] = []
wire (line ∷ lines) = line ++ 10 ∷ wire lines

recv_line-clean :
    (line text rest : Bytes)
    → IsClean text
    → length line + length text ≤ recv_buf_size
    → recv_line line (text ++ 10 ∷ rest) ≡ some (line ++ text, rest)
unfolding recv_line
recv_line-clean line [] rest clean small = ap (λ l. some (l, rest)) (sym (append-nil line))
recv_line-clean line (c ∷ text) rest clean small =
    let len = length-append line (c ∷ []) in
    let short : ltb recv_buf_size (length (line ++ c ∷ [])) ≡ false = ground (arith, len, small) in
    let not_return : (c == 13) ≡ false = ground (arith, clean.0.0, ==_iff c 13) in
    let not_feed : (c == 10) ≡ false = ground (arith, clean.0.1, ==_iff c 10) in
    let h = recv_line-clean (line ++ c ∷ []) text rest clean.1 (omega (arith, len, small)) in
    rw (recv_line, not_return, not_feed, short)
      (h ∙ ap (λ l. some (l, rest)) (append_assoc line (c ∷ []) text))

abbrev pub FitsLine : Bytes → Type 0
FitsLine line = IsClean line × (length line ≤ recv_buf_size)

-- Lines that a client sends, none of more than 4096 bytes and none with a return or a line feed in
-- it, reach the session one by one and unchanged, and the number of bytes is enough fuel.
pub recv_lines-wire :
    (lines : List Bytes) (fuel : ℕ)
    → All FitsLine lines
    → length (wire lines) ≤ fuel
    → recv_lines fuel (wire lines) ≡ lines
unfolding recv_lines wire
recv_lines-wire [] zero fits enough = refl
recv_lines-wire [] (suc fuel) fits enough = unfold recv_line in refl
recv_lines-wire (line ∷ lines) zero fits enough =
    absurd (omega (arith, length-append line (10 ∷ wire lines), enough))
recv_lines-wire (line ∷ lines) (suc fuel) fits enough =
    let h = recv_line-clean [] line (wire lines) fits.0.0 (omega (arith, fits.0.1)) in
    let rest =
      recv_lines-wire lines fuel fits.1
        (omega (arith, length-append line (10 ∷ wire lines), enough)) in
    rw (recv_lines, h) (ap (λ ls. line ∷ ls) rest)

-- what was read so far stays a clean line that fits
recv_line-FitsLine :
    (line input text rest : Bytes)
    → FitsLine line
    → recv_line line input ≡ some (text, rest)
    → FitsLine text
unfolding recv_line
recv_line-FitsLine line [] text rest fits e = absurd (ground (arith, e))
recv_line-FitsLine line (c ∷ input) text rest fits e = elim (Bool-cases (c == 13)) [
  | inl is_return ↦ recv_line-FitsLine line input text rest fits (rw (recv_line, is_return) at e)
  | inr not_return ↦ elim (Bool-cases (c == 10)) [
    | inl is_feed ↦ subst FitsLine (ground (arith, (rw (recv_line, not_return, is_feed) at e))) fits
    | inr not_feed ↦
        let clean =
          All-append (λ c. (c ≢ 13) × (c ≢ 10)) line (c ∷ []) fits.0
            (
              (ground (arith, not_return, ==_iff c 13), ground (arith, not_feed, ==_iff c 10)),
              tt,
            ) in
        recv_line-FitsLine
          (if ltb recv_buf_size (length (line ++ c ∷ [])) then [] else line ++ c ∷ []) input text
          rest (reset-FitsLine (line ++ c ∷ []) clean) (rw (recv_line, not_return, not_feed) at e)
  ]
]
  where
    reset-FitsLine :
        (line : Bytes)
        → IsClean line
        → FitsLine (if ltb recv_buf_size (length line) then [] else line)
    reset-FitsLine line clean = elim (Bool-cases (ltb recv_buf_size (length line))) [
      | inl long ↦ rw long (tt, omega arith)
      | inr short ↦ rw short (clean, ground (arith, short))
    ]

-- Every line that RecvLine gives has no return and no line feed in it and at most 4096 bytes.
received-FitsLine :
    (input line rest : Bytes)
    → recv_line [] input ≡ some (line, rest)
    → IsClean line × (length line ≤ recv_buf_size)
received-FitsLine input line rest e = recv_line-FitsLine [] input line rest (tt, omega arith) e

recv_line-oversized :
    (line text rest : Bytes)
    → IsClean text
    → length line ≤ recv_buf_size
    → length line + length text ≡ suc recv_buf_size
    → recv_line line (text ++ rest) ≡ recv_line [] rest
unfolding recv_line
recv_line-oversized line [] rest clean small full = absurd (omega (arith, small, full))
recv_line-oversized line (c ∷ text) rest clean small full =
    let len = length-append line (c ∷ []) in
    let not_return : (c == 13) ≡ false = ground (arith, clean.0.0, ==_iff c 13) in
    let not_feed : (c == 10) ≡ false = ground (arith, clean.0.1, ==_iff c 10) in
    elim (Bool-cases (ltb recv_buf_size (length (line ++ c ∷ [])))) [
      | inl long ↦
          let last : text ≡ [] = length-zero text (ground (arith, len, small, full, long)) in
          rw (recv_line, not_return, not_feed, long, last) refl
      | inr short ↦
          rw (recv_line, not_return, not_feed, short)
            (recv_line-oversized (line ++ c ∷ []) text rest clean.1 (ground (arith, short))
              (omega (arith, len, full)))
    ]
  where
    length-zero : (xs : Bytes) → length xs ≡ zero → xs ≡ []
    length-zero [] e = refl
    length-zero (x ∷ xs) e = absurd (omega (arith, e))

-- Of a line that is too long, the first 4097 bytes are dropped and what follows them is read as a
-- line of its own.
pub oversized_tail :
    (head tail rest : Bytes)
    → IsClean head
    → length head ≡ suc recv_buf_size
    → IsClean tail
    → length tail ≤ recv_buf_size
    → recv_line [] (head ++ (tail ++ 10 ∷ rest)) ≡ some (tail, rest)
oversized_tail head tail rest clean len clean_tail small =
    recv_line-oversized [] head (tail ++ 10 ∷ rest) clean (omega arith) (omega (arith, len))
    ∙ recv_line-clean [] tail rest clean_tail (omega (arith, small))
