-- ===== src/Client/LoggedIn.antt =====
-- The console client before a login (Client/main.cpp).
use cloud_alert_system.Common.{
  ℕ, ◌≡◌, refl, subst, ◌⊎◌, inl, inr, Bool, true, false, Option, none, some, [], ◌∷◌, ◌++◌, arith,
  Bool-cases,
}
use cloud_alert_system.Text.{Bytes, codes, starts_with, format_into}
use cloud_alert_system.AlertEngine.{◌>>=◌}
use cloud_alert_system.Text.Split.{join}
use cloud_alert_system.Text.Number.{atoi, is_digit}
use cloud_alert_system.Client.Menu.{
  Console, Menu, Line, Selected, exits, registers, logs_in, unknown, chooses, fgets, cut_line,
  field, console_register, console_login, selected_of, perform_choice, menu_round, read_choice,
  one_line,
}

-- nothing was sent, or one line that starts with the word
abbrev pub SentFirst : Bytes → Menu → Menu → Type 0
SentFirst word m n =
    (cmd : Bytes) × (n.commands ≡ m.commands ++ cmd ∷ []) × (starts_with word cmd ≡ true)

-- what a round may do while nobody is logged in
abbrev pub Unlogged : Line → Menu → Menu → Type 0
Unlogged l m n =
    ((n.commands ≡ m.commands) × (n.username ≡ []))
    ⊎ ((SentFirst (codes "REGISTER ") m n × (n.username ≡ []))
        ⊎ (SentFirst (codes "LOGIN ") m n
            × (starts_with (codes "OK") (one_line l) ≡ false → n.username ≡ [])))

format_into-same : (size : ℕ) (text cmd : Bytes) → format_into size text ≡ some cmd → text ≡ cmd
unfolding format_into
format_into-same size text cmd e = ground arith

register_word :
    (user pass email cmd : Bytes)
    → console_register user pass email ≡ some cmd
    → starts_with (codes "REGISTER ") cmd ≡ true
unfolding console_register join starts_with
register_word user pass email cmd e =
    subst (λ x. starts_with (codes "REGISTER ") x ≡ true)
      (format_into-same 320 (join (codes "REGISTER" ∷ user ∷ pass ∷ email ∷ [])) cmd e) refl

login_word :
    (user pass cmd : Bytes)
    → console_login user pass ≡ some cmd
    → starts_with (codes "LOGIN ") cmd ≡ true
unfolding console_login join starts_with
login_word user pass cmd e =
    subst (λ x. starts_with (codes "LOGIN ") x ≡ true)
      (format_into-same 256 (join (codes "LOGIN" ∷ user ∷ pass ∷ [])) cmd e) refl

-- of a result, if there is one
abbrev Holds : {A : Type 0} → (A → Type 0) → Option A → Type 0
Holds P none = Unit
Holds P (some a) = P a

Holds-chain :
    {A B : Type 0} (P : B → Type 0) (m : Option A) (f : A → Option B)
    → ((a : A) → m ≡ some a → Holds P (f a))
    → Holds P (m >>= f)
Holds-chain P none f h = tt
Holds-chain P (some a) f h = h a refl

module _ {D : Type 0} (K : Console D) where
  perform_choice-Unlogged :
      (l : Line) (choice : Selected) (m : Menu)
      → m.username ≡ []
      → Holds (λ (r : Menu × Bool). Unlogged l m r.0) (perform_choice K l choice m)
  unfolding perform_choice
  perform_choice-Unlogged l exits m out = inl (refl, out)
  perform_choice-Unlogged l registers m out =
      let P : Menu × Bool → Type 0 = λ r. Unlogged l m r.0 in
      Holds-chain P (field 63 m.input) _ (λ a _. Holds-chain P (field 63 a.1) _ (λ b _.
        Holds-chain P (field 127 b.1) _ (λ c _.
          Holds-chain P (console_register a.0 b.0 c.0) _
            (λ cmd e. inr (inl ((cmd, refl, register_word a.0 b.0 c.0 cmd e), out))))))
  perform_choice-Unlogged l logs_in m out =
      let P : Menu × Bool → Type 0 = λ r. Unlogged l m r.0 in
      Holds-chain P (field 63 m.input) _ (λ a _. Holds-chain P (field 63 a.1) _ (λ b _.
        Holds-chain P (console_login a.0 b.0) _
          (λ cmd e. inr (inr ((cmd, refl, login_word a.0 b.0 cmd e), λ refused. rw refused out)))))
  perform_choice-Unlogged l unknown m out = inl (refl, out)
  perform_choice-Unlogged l (chooses choice) m out = rw out (inl (refl, refl))

  read_choice-Unlogged :
      (l : Line) (text : Bytes) (m : Menu)
      → m.username ≡ []
      → Holds (λ (r : Menu × Bool). Unlogged l m r.0) (read_choice K l text m)
  read_choice-Unlogged l [] m out = inl (refl, out)
  read_choice-Unlogged l (c ∷ text) m out = elim (Bool-cases (is_digit c)) [
    | inl e ↦ rw e (perform_choice-Unlogged l (selected_of (atoi (c ∷ text))) m out)
    | inr e ↦ rw e (inl (refl, out))
  ]

  -- While nobody is logged in at the console client, a round of its menu that does not end the
  -- process sends at most one line, which is a REGISTER or a LOGIN, and logs a user in only after
  -- a LOGIN that is answered with OK.
  pub menu_round-Unlogged :
      (l : Line) (m n : Menu) (goes_on : Bool)
      → m.username ≡ []
      → menu_round K l m ≡ some (n, goes_on)
      → Unlogged l m n
  unfolding menu_round
  menu_round-Unlogged l m n goes_on out e =
      subst (Holds (λ (r : Menu × Bool). Unlogged l m r.0)) e (of (fgets 255 m.input))
    where
      of :
          (r : Option (Bytes × Bytes))
          → Holds
              (λ (r : Menu × Bool). Unlogged l m r.0)
              (elim r [
                | none ↦ some (m, false)
                | some (text, rest) ↦ read_choice K l (cut_line text) (record m { input = rest })
              ])
      of none = inl (refl, out)
      of (some (text, rest)) =
          read_choice-Unlogged l (cut_line text) (record m { input = rest }) out
