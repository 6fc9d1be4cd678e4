-- ===== src/Common/Rows.antt =====
-- Tables as lists of rows with rising rowids, and how a table may grow.
use Prim.Native.Nat.{ℕ, ◌≤◌, ◌<◌}
use mathlib.Core.Path.{◌≡◌, ap, sym, ◌∙◌}
use mathlib.Core.List.{List, [], ◌∷◌, ◌++◌, map, Memᴰ}
use native.Mathlib.Omega.{arith}
use cloud_alert_system.Common.Int.{ℤ, pos, negsuc}

-- the number of a rowid
abbrev pub number : ℤ → ℕ
number (pos n) = n
number (negsuc n) = 0

module _ {R : Type 0} (id_of : R → ℤ) where
  -- The ids rise strictly from above `low` to at most `high`.
  abbrev pub Rising : ℕ → List R → ℕ → Type 0
  Rising low [] high = low ≤ high
  Rising low (r ∷ rows) high =
      (id_of r ≡ pos (number (id_of r)))
      × (low < number (id_of r))
      × Rising (number (id_of r)) rows high

  pub Rising-snoc :
      (low : ℕ) (rows : List R) (high : ℕ) (r : R) (n : ℕ)
      → id_of r ≡ pos n
      → high < n
      → Rising low rows high
      → Rising low (rows ++ r ∷ []) n
  Rising-snoc low [] high r n e h v = ground arith
  Rising-snoc low (x ∷ rows) high r n e h v =
      (v.0, v.1, Rising-snoc (number (id_of x)) rows high r n e h v.2)

  pub Rising-map :
      (low : ℕ) (rows : List R) (high : ℕ) (f : R → R)
      → ((r : R) → id_of (f r) ≡ id_of r)
      → Rising low rows high
      → Rising low (map f rows) high
  Rising-map low [] high f same v = v
  Rising-map low (x ∷ rows) high f same v =
      rw (same x) (v.0, v.1, Rising-map (number (id_of x)) rows high f same v.2)

  Rising-low : (low : ℕ) (rows : List R) (high : ℕ) → Rising low rows high → low ≤ high
  Rising-low low [] high v = v
  Rising-low low (x ∷ rows) high v = omega (arith, Rising-low (number (id_of x)) rows high v.2)

  -- Every id lies between the bounds.
  pub Rising-member :
      (low : ℕ) (rows : List R) (high : ℕ) {r : R}
      → Rising low rows high
      → Memᴰ r rows
      → (id_of r ≡ pos (number (id_of r))) × (low < number (id_of r)) × (number (id_of r) ≤ high)
  Rising-member low [] high v m = elim m [ ]
  Rising-member low (x ∷ rows) high v (Memᴰ.head e) =
      rw e (v.0, v.1, Rising-low (number (id_of x)) rows high v.2)
  Rising-member low (x ∷ rows) high v (Memᴰ.tail m) =
      let h = Rising-member (number (id_of x)) rows high v.2 m in
      (h.0, omega (arith, h.1, v.1), h.2)

  -- Rows with the same id are the same row.
  pub Rising-inj :
      (low : ℕ) (rows : List R) (high : ℕ) {r s : R}
      → Rising low rows high
      → Memᴰ r rows
      → Memᴰ s rows
      → id_of r ≡ id_of s
      → r ≡ s
  Rising-inj low [] high v m n same = elim m [ ]
  Rising-inj low (x ∷ rows) high v (Memᴰ.head e) (Memᴰ.head f) same = e ∙ sym f
  Rising-inj low (x ∷ rows) high v (Memᴰ.head e) (Memᴰ.tail m) same =
      let h = (Rising-member (number (id_of x)) rows high v.2 m).1 in
      absurd (ground (arith, h, same, ap id_of e))
  Rising-inj low (x ∷ rows) high v (Memᴰ.tail l) (Memᴰ.head f) same =
      let h = (Rising-member (number (id_of x)) rows high v.2 l).1 in
      absurd (ground (arith, h, same, ap id_of f))
  Rising-inj low (x ∷ rows) high v (Memᴰ.tail l) (Memᴰ.tail m) same =
      Rising-inj (number (id_of x)) rows high v.2 l m same

module _ {R : Type 0} where
  -- `ys` has a row for each row of `xs`, in its place and related to it, and may have more.
  abbrev pub Grows : (R → R → Type 0) → List R → List R → Type 0
  Grows E [] ys = Unit
  Grows E (x ∷ xs) [] = ⊥
  Grows E (x ∷ xs) (y ∷ ys) = E x y × Grows E xs ys

  pub Grows-refl : (E : R → R → Type 0) → ((r : R) → E r r) → (xs : List R) → Grows E xs xs
  Grows-refl E same [] = tt
  Grows-refl E same (x ∷ xs) = (same x, Grows-refl E same xs)

  pub Grows-append :
      (E : R → R → Type 0) → ((r : R) → E r r) → (xs ys : List R) → Grows E xs (xs ++ ys)
  Grows-append E same [] ys = tt
  Grows-append E same (x ∷ xs) ys = (same x, Grows-append E same xs ys)

  pub Grows-map :
      (E : R → R → Type 0) (f : R → R)
      → ((r : R) → E r (f r))
      → (xs : List R) → Grows E xs (map f xs)
  Grows-map E f keep [] = tt
  Grows-map E f keep (x ∷ xs) = (keep x, Grows-map E f keep xs)

  pub Grows-trans :
      (E : R → R → Type 0)
      → ((r s t : R) → E r s → E s t → E r t)
      → (xs ys zs : List R) → Grows E xs ys
      → Grows E ys zs
      → Grows E xs zs
  Grows-trans E join [] ys zs h k = tt
  Grows-trans E join (x ∷ xs) [] zs h k = absurd h
  Grows-trans E join (x ∷ xs) (y ∷ ys) [] h k = absurd k
  Grows-trans E join (x ∷ xs) (y ∷ ys) (z ∷ zs) h k =
      (join x y z h.0 k.0, Grows-trans E join xs ys zs h.1 k.1)

  pub Grows-imp :
      (E G : R → R → Type 0) (xs ys : List R)
      → ((r s : R) → E r s → G r s)
      → Grows E xs ys
      → Grows G xs ys
  Grows-imp E G [] ys f h = tt
  Grows-imp E G (x ∷ xs) [] f h = h
  Grows-imp E G (x ∷ xs) (y ∷ ys) f h = (f x y h.0, Grows-imp E G xs ys f h.1)
