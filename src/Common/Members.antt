-- ===== src/Common/Members.antt =====
-- Members of lists, and lengths of what is selected, reordered and mapped.
use Prim.Native.Nat.{◌≤◌}
use mathlib.Core.Path.{◌≡◌, refl, ap, subst, ◌∙◌}
use mathlib.Core.Logic.{inl, inr}
use mathlib.Core.Bool.{Bool, true}
use mathlib.Core.List.{List, [], ◌∷◌, ◌++◌, map, Memᴰ, Permᴰ}
use native.Mathlib.Omega.{arith}
use cloud_alert_system.Common.Tests.{Bool-cases}
use cloud_alert_system.Common.Lists.{length, select, any, All, All-imp}

pub any-member :
    {A : Type 0} (p : A → Bool) (x : A) (xs : List A) → Memᴰ x xs → p x ≡ true → any p xs ≡ true
unfolding any
any-member p x [] m h = elim m [ ]
any-member p x (y ∷ ys) (Memᴰ.head e) h = let h' = subst (λ z. p z ≡ true) e h in rw h' refl
any-member p x (y ∷ ys) (Memᴰ.tail m) h = ground (arith, any-member p x ys m h)

pub Memᴰ-map : {A B : Type 0} (f : A → B) {x : A} {xs : List A} → Memᴰ x xs → Memᴰ (f x) (map f xs)
Memᴰ-map f (Memᴰ.head e) = Memᴰ.head (ap f e)
Memᴰ-map f (Memᴰ.tail m) = Memᴰ.tail (Memᴰ-map f m)

pub Memᴰ-select :
    {A : Type 0} (p : A → Bool) {x : A} (xs : List A)
    → Memᴰ x xs
    → p x ≡ true
    → Memᴰ x (select p xs)
unfolding select
Memᴰ-select p [] m h = elim m [ ]
Memᴰ-select p (y ∷ ys) (Memᴰ.head e) h = let h' = subst (λ z. p z ≡ true) e h in rw h' (Memᴰ.head e)
Memᴰ-select p (y ∷ ys) (Memᴰ.tail m) h = elim (Bool-cases (p y)) [
  | inl e ↦ rw e (Memᴰ.tail (Memᴰ-select p ys m h))
  | inr e ↦ rw e (Memᴰ-select p ys m h)
]

pub length-select : {A : Type 0} (p : A → Bool) (xs : List A) → length (select p xs) ≤ length xs
unfolding select
length-select p [] = omega arith
length-select p (x ∷ xs) = ground (arith, length-select p xs)

pub length-perm : {A : Type 0} {xs ys : List A} → Permᴰ xs ys → length xs ≡ length ys
length-perm Permᴰ.nil = refl
length-perm (Permᴰ.cons e p) = omega (arith, length-perm p)
length-perm (Permᴰ.swap e f) = refl
length-perm (Permᴰ.trans p q) = length-perm p ∙ length-perm q

pub length-map : {A B : Type 0} (f : A → B) (xs : List A) → length (map f xs) ≡ length xs
length-map f [] = refl
length-map f (x ∷ xs) = omega (arith, length-map f xs)

pub All-self : {A : Type 0} (xs : List A) → All (λ x. Memᴰ x xs) xs
All-self [] = tt
All-self (x ∷ xs) = (
  Memᴰ.head refl,
  All-imp (λ y. Memᴰ y xs) (λ y. Memᴰ y (x ∷ xs)) xs (λ y m. Memᴰ.tail m) (All-self xs),
)

pub All-select_both :
    {A : Type 0} (P : A → Type 0) (p : A → Bool) (xs : List A)
    → All P xs
    → All (λ x. P x × (p x ≡ true)) (select p xs)
unfolding select
All-select_both P p [] h = tt
All-select_both P p (x ∷ xs) h = elim (Bool-cases (p x)) [
  | inl e ↦ rw e ((h.0, e), All-select_both P p xs h.1)
  | inr e ↦ rw e (All-select_both P p xs h.1)
]

pub All-both :
    {A : Type 0} (P Q : A → Type 0) (xs : List A) → All P xs → All Q xs → All (λ x. P x × Q x) xs
All-both P Q [] h k = tt
All-both P Q (x ∷ xs) h k = ((h.0, k.0), All-both P Q xs h.1 k.1)

pub Memᴰ-before : {A : Type 0} {x : A} {xs : List A} (y : A) → Memᴰ x xs → Memᴰ x (xs ++ y ∷ [])
Memᴰ-before y (Memᴰ.head e) = Memᴰ.head e
Memᴰ-before y (Memᴰ.tail m) = Memᴰ.tail (Memᴰ-before y m)
