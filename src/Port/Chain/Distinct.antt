-- ===== src/Port/Chain/Distinct.antt =====
-- Lists of addresses without repetition: below `n` there are at most `n`.
use mathlib.Core.Path.{subst}
use opdi_core.Base.{
  ℕ, zero, suc, ◌+◌, ◌≤◌, ◌<◌, ◌≡◌, ◌≢◌, refl, List, [], ◌∷◌, ◌++◌, length, arith, All, ◌==◌,
  if◌then◌else◌, sym, Bool-cases, inl, inr,
}

abbrev pub Avoids : ℕ → List ℕ → Type 0
Avoids a = All (λ x. x ≢ a)

abbrev pub NoRepeat : List ℕ → Type 0
NoRepeat [] = Unit
NoRepeat (x ∷ xs) = Avoids x xs × NoRepeat xs

abbrev pub Below : ℕ → List ℕ → Type 0
Below n = All (λ x. x < n)

pub NoRepeat-append : (l : List ℕ) (a : ℕ) → NoRepeat l → Avoids a l → NoRepeat (l ++ a ∷ [])
NoRepeat-append [] a d v = (tt, tt)
NoRepeat-append (x ∷ l) a d v = (snoc l d.0, NoRepeat-append l a d.1 v.1)
  where
    snoc : (m : List ℕ) → Avoids x m → Avoids x (m ++ a ∷ [])
    snoc [] w = ((λ e. v.0 (sym e)), tt)
    snoc (y ∷ m) w = (w.0, snoc m w.1)

without : ℕ → List ℕ → List ℕ
without n [] = []
without n (x ∷ l) = if x == n then without n l else x ∷ without n l

Avoids-without : (a n : ℕ) (l : List ℕ) → Avoids a l → Avoids a (without n l)
unfolding without
Avoids-without a n [] v = tt
Avoids-without a n (x ∷ l) v = ground (arith, Avoids-without a n l v.1)

NoRepeat-without : (n : ℕ) (l : List ℕ) → NoRepeat l → NoRepeat (without n l)
unfolding without
NoRepeat-without n [] d = tt
NoRepeat-without n (x ∷ l) d = ground (arith, NoRepeat-without n l d.1, Avoids-without x n l d.0)

Below-without : (n : ℕ) (l : List ℕ) → Below (suc n) l → Below n (without n l)
unfolding without
Below-without n [] b = tt
Below-without n (x ∷ l) b = ground (arith, Below-without n l b.1)

length-without_avoid : (n : ℕ) (l : List ℕ) → Avoids n l → length (without n l) ≡ length l
unfolding without
length-without_avoid n [] v = refl
length-without_avoid n (x ∷ l) v = ground (arith, length-without_avoid n l v.1)

length-without : (n : ℕ) (l : List ℕ) → NoRepeat l → length l ≤ length (without n l) + 1
unfolding without
length-without n [] d = omega arith
length-without n (x ∷ l) d = elim (Bool-cases (x == n)) [
  | inl same ↦ rw same (omega (arith, length-without_avoid n l (avoids (ground arith))))
  | inr other ↦ rw other (omega (arith, length-without n l d.1))
]
  where
    avoids : x ≡ n → Avoids n l
    avoids e = subst (λ k. Avoids k l) e d.0

pub length-le_of_Below : (n : ℕ) (l : List ℕ) → NoRepeat l → Below n l → length l ≤ n
length-le_of_Below zero [] d b = omega arith
length-le_of_Below zero (x ∷ l) d b = absurd (omega arith)
length-le_of_Below (suc n) l d b = omega (
  arith,
  length-without n l d,
  length-le_of_Below n (without n l) (NoRepeat-without n l d) (Below-without n l b),
)
