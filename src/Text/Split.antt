-- ===== src/Text/Split.antt =====
-- `SplitLine` of Server/ClientSession.cpp and `Split` of MFCClient/MainFrame.cpp: the tokens that
-- `while (iss >> tok)` reads.
use cloud_alert_system.Common.{
  ◌≡◌, refl, sym, ap, ◌∙◌, true, false, List, [], ◌∷◌, ◌++◌, All, All-append, Bool-cases, inl, inr,
  ◌≢◌,
}
use cloud_alert_system.Text.{Bytes, is_space}
use mathlib.Core.List.{append_assoc, append-nil}

-- A token ends: an empty one is no token.
abbrev end_token : Bytes → List Bytes → List Bytes
end_token [] rest = rest
end_token (c ∷ s) rest = (c ∷ s) ∷ rest

unfoldable pub scan : Bytes → Bytes → List Bytes
scan tok [] = end_token tok []
scan tok (c ∷ s) = elim (is_space c) [
  | true ↦ end_token tok (scan [] s)
  | false ↦ scan (tok ++ c ∷ []) s
]

unfoldable pub split_line : Bytes → List Bytes
unfolding scan
split_line = scan []

-- what `iss >> tok` can read
pub record IsToken (tok : Bytes) : Type 0 where
  pub ne_nil : tok ≢ []
  pub solid : All (λ c. is_space c ≡ false) tok

-- the tokens, each followed by one blank but the last
unfoldable pub join : List Bytes → Bytes
join [] = []
join (t ∷ []) = t
join (t ∷ u ∷ ts) = t ++ 32 ∷ join (u ∷ ts)

end_token-All :
    (tok : Bytes) (rest : List Bytes)
    → All (λ c. is_space c ≡ false) tok
    → All IsToken rest
    → All IsToken (end_token tok rest)
end_token-All [] rest h hs = hs
end_token-All (c ∷ s) rest h hs = (record { ne_nil = λ e. cc; solid = h }, hs)

scan-IsToken : (tok s : Bytes) → All (λ c. is_space c ≡ false) tok → All IsToken (scan tok s)
unfolding scan
scan-IsToken tok [] h = end_token-All tok [] h tt
scan-IsToken tok (c ∷ s) h = elim (Bool-cases (is_space c)) [
  | inl e ↦ rw (e, scan) (end_token-All tok (scan [] s) h (scan-IsToken [] s tt))
  | inr e ↦
      rw (e, scan)
        (scan-IsToken (tok ++ c ∷ []) s
          (All-append (λ d. is_space d ≡ false) tok (c ∷ []) h (e, tt)))
]

-- Every token of a line is a non-empty text without white space.
pub split_line-IsToken : (s : Bytes) → All IsToken (split_line s)
unfolding split_line
split_line-IsToken s = scan-IsToken [] s tt

scan-append :
    (tok w s : Bytes) → All (λ c. is_space c ≡ false) w → scan tok (w ++ s) ≡ scan (tok ++ w) s
unfolding scan
scan-append tok [] s h = rw append-nil
scan-append tok (c ∷ w) s h =
    rw (h.0, scan)
      (scan-append (tok ++ c ∷ []) w s h.1 ∙ ap (λ x. scan x s) (append_assoc tok (c ∷ []) w))

end_token-IsToken :
    (tok : Bytes) (rest : List Bytes) → IsToken tok → end_token tok rest ≡ tok ∷ rest
end_token-IsToken [] rest h = absurd (h.ne_nil refl)
end_token-IsToken (c ∷ s) rest h = refl

-- Tokens that are joined with blanks are read back.
pub split_line-join : (ts : List Bytes) → All IsToken ts → split_line (join ts) ≡ ts
unfolding split_line join is_space
split_line-join [] h = refl
split_line-join (t ∷ []) h =
    ap (scan []) (sym (append-nil t)) ∙ scan-append [] t [] h.0.solid ∙ end_token-IsToken t [] h.0
split_line-join (t ∷ u ∷ ts) h =
    scan-append [] t (32 ∷ join (u ∷ ts)) h.0.solid
    ∙ end_token-IsToken t (scan [] (join (u ∷ ts))) h.0
    ∙ ap (◌∷◌ t) (split_line-join (u ∷ ts) h.1)
