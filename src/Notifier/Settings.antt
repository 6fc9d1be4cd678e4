-- ===== src/Notifier/Settings.antt =====
-- Settings written to server.conf and read back (LoadConfig of Server/Notifier.cpp).
use cloud_alert_system.Common.{
  All-append, ◌≡◌, refl, sym, ap, ◌∙◌, Bool, true, false, some, [], ◌∷◌, ◌++◌, arith, ◌==◌, All,
  if◌then◌else◌,
}
use mathlib.Core.List.{append-nil, append_assoc}
use cloud_alert_system.Text.{Bytes, codes, same_text}
use cloud_alert_system.Notifier.Config.{
  EmailConfig, text_lines, is_trailing, strip_front, strip_back, split_key, apply_line, apply_lines,
  load_config,
}

text_lines-append :
    (line w s : Bytes)
    → All (λ c. (c == 10) ≡ false) w
    → text_lines line (w ++ 10 ∷ s) ≡ (line ++ w) ∷ text_lines [] s
unfolding text_lines
text_lines-append line [] s h = ap (λ l. l ∷ text_lines [] s) (sym (append-nil line))
text_lines-append line (c ∷ w) s h =
    rw (h.0, text_lines)
      (text_lines-append (line ++ c ∷ []) w s h.1
        ∙ ap (λ l. l ∷ text_lines [] s) (append_assoc line (c ∷ []) w))

-- a value that a line can hold: no line feed, and no white space at its end
pub record IsValue (s : Bytes) : Type 0 where
  pub one_line : All (λ c. (c == 10) ≡ false) s
  pub stripped : strip_back is_trailing s ≡ s

abbrev pub setting : Bytes → Bytes → Bytes
setting key val = key ++ b'=' ∷ val

abbrev pub ssl_text : Bool → Bytes
ssl_text ssl = if ssl then codes "true" else codes "false"

-- the five settings, each on a line
abbrev pub settings_text : EmailConfig → Bytes
settings_text e =
    let from_line =
      setting (codes "email_from") e.from
      ++ 10 ∷ (setting (codes "email_ssl") (ssl_text e.ssl) ++ 10 ∷ []) in
    setting (codes "email_account") e.account
    ++ 10
      ∷ (setting (codes "email_password") e.password
          ++ 10 ∷ (setting (codes "email_smtp") e.smtp ++ 10 ∷ from_line))

apply_account :
    (c : EmailConfig) (v : Bytes)
    → strip_back is_trailing v ≡ v
    → apply_line c (setting (codes "email_account") v) ≡ record c { account = v }
unfolding apply_line strip_front split_key same_text strip_back
apply_account c v e = rw e refl

apply_password :
    (c : EmailConfig) (v : Bytes)
    → strip_back is_trailing v ≡ v
    → apply_line c (setting (codes "email_password") v) ≡ record c { password = v }
unfolding apply_line strip_front split_key same_text strip_back
apply_password c v e = rw e refl

apply_smtp :
    (c : EmailConfig) (v : Bytes)
    → strip_back is_trailing v ≡ v
    → apply_line c (setting (codes "email_smtp") v) ≡ record c { smtp = v }
unfolding apply_line strip_front split_key same_text strip_back
apply_smtp c v e = rw e refl

apply_from :
    (c : EmailConfig) (v : Bytes)
    → strip_back is_trailing v ≡ v
    → apply_line c (setting (codes "email_from") v) ≡ record c { from = v }
unfolding apply_line strip_front split_key same_text strip_back
apply_from c v e = rw e refl

apply_ssl :
    (c : EmailConfig) (b : Bool)
    → apply_line c (setting (codes "email_ssl") (ssl_text b)) ≡ record c { ssl = b }
unfolding apply_line strip_front split_key same_text strip_back
apply_ssl c true = refl
apply_ssl c false = refl

key_one_line :
    (key val : Bytes)
    → All (λ c. (c == 10) ≡ false) key
    → All (λ c. (c == 10) ≡ false) val
    → All (λ c. (c == 10) ≡ false) (setting key val)
key_one_line key val h k = All-append (λ c. (c == 10) ≡ false) key (b'=' ∷ val) h (refl, k)

plain_ssl : (b : Bool) → All (λ c. (c == 10) ≡ false) (setting (codes "email_ssl") (ssl_text b))
plain_ssl true = ground arith
plain_ssl false = ground arith

apply_lines-line :
    (c d : EmailConfig) (w s : Bytes)
    → All (λ b. (b == 10) ≡ false) w
    → apply_line c w ≡ d
    → apply_lines c (text_lines [] (w ++ 10 ∷ s)) ≡ apply_lines d (text_lines [] s)
unfolding apply_lines
apply_lines-line c d w s h e =
    ap (apply_lines c) (text_lines-append [] w s h) ∙ ap (λ x. apply_lines x (text_lines [] s)) e

-- Settings that are written to server.conf one on a line are read back by LoadConfig, where no
-- value holds a line feed or ends in white space.
pub settings_text-load_config :
    (c e : EmailConfig)
    → IsValue e.account
    → IsValue e.password
    → IsValue e.smtp
    → IsValue e.from
    → load_config c (some (settings_text e)) ≡ e
unfolding load_config apply_lines text_lines
settings_text-load_config c e ha hp hs hf =
    let c1 : EmailConfig = record c { account = e.account } in
    let c2 : EmailConfig = record c1 { password = e.password } in
    let c3 : EmailConfig = record c2 { smtp = e.smtp } in
    let c4 : EmailConfig = record c3 { from = e.from } in
    let w1 = setting (codes "email_account") e.account in
    let w2 = setting (codes "email_password") e.password in
    let w3 = setting (codes "email_smtp") e.smtp in
    let w4 = setting (codes "email_from") e.from in
    let w5 = setting (codes "email_ssl") (ssl_text e.ssl) in
    let s4 = w5 ++ 10 ∷ [] in
    let s3 = w4 ++ 10 ∷ s4 in
    let s2 = w3 ++ 10 ∷ s3 in
    let s1 = w2 ++ 10 ∷ s2 in
    let p1 = key_one_line (codes "email_account") e.account (ground arith) ha.one_line in
    let p2 = key_one_line (codes "email_password") e.password (ground arith) hp.one_line in
    let p3 = key_one_line (codes "email_smtp") e.smtp (ground arith) hs.one_line in
    let p4 = key_one_line (codes "email_from") e.from (ground arith) hf.one_line in
    apply_lines-line c c1 w1 s1 p1 (apply_account c e.account ha.stripped)
    ∙ apply_lines-line c1 c2 w2 s2 p2 (apply_password c1 e.password hp.stripped)
    ∙ apply_lines-line c2 c3 w3 s3 p3 (apply_smtp c2 e.smtp hs.stripped)
    ∙ apply_lines-line c3 c4 w4 s4 p4 (apply_from c3 e.from hf.stripped)
    ∙ apply_lines-line c4 e w5 [] (plain_ssl e.ssl) (apply_ssl c4 e.ssl)
