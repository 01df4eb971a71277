-- ===== src/Base/Sort.antt =====
-- ORDER BY: a stable insertion sort by a Boolean order, and the lists that it yields.
use Prim.Native.Nat.{ℕ, zero, suc, ◌≤◌}
use mathlib.Core.Path.{◌≡◌, refl}
use mathlib.Core.Logic.{inl, inr}
use mathlib.Core.Bool.{Bool, true, false}
use mathlib.Core.List.{List, [], ◌∷◌, ◌++◌, reverse, reverse-cons}
use native.Mathlib.Omega.{arith}
use match_camp.Base.Tests.{if◌then◌else◌, Bool-cases}
use match_camp.Base.Lists.{length, take, All, All-map_of, All-append}

module _ {ℓ} {A : Type ℓ} (before : A → A → Bool) where
  unfoldable pub insert_by : A → List A → List A
  insert_by x [] = x ∷ []
  insert_by x (y ∷ ys) = if before x y then x ∷ y ∷ ys else y ∷ insert_by x ys

  unfoldable pub sort_by : List A → List A
  unfolding insert_by
  sort_by [] = []
  sort_by (x ∷ xs) = insert_by x (sort_by xs)

  pub length-insert_by : (x : A) (xs : List A) → length (insert_by x xs) ≡ suc (length xs)
  unfolding insert_by
  length-insert_by x [] = refl
  length-insert_by x (y ∷ ys) = ground (arith, length-insert_by x ys)

  pub length-sort_by : (xs : List A) → length (sort_by xs) ≡ length xs
  unfolding sort_by
  length-sort_by [] = refl
  length-sort_by (x ∷ xs) = omega (arith, length-insert_by x (sort_by xs), length-sort_by xs)

  pub All-insert_by :
      (P : A → Type 0) (x : A) (xs : List A) → P x → All P xs → All P (insert_by x xs)
  unfolding insert_by
  All-insert_by P x [] p h = (p, tt)
  All-insert_by P x (y ∷ ys) p h = ground (arith, All-insert_by P x ys p h.1)

  pub All-sort_by : (P : A → Type 0) (xs : List A) → All P xs → All P (sort_by xs)
  unfolding sort_by
  All-sort_by P [] h = tt
  All-sort_by P (x ∷ xs) h = All-insert_by P x (sort_by xs) h.0 (All-sort_by P xs h.1)

module _ {ℓ} {A : Type ℓ} where
  -- every item stands in R to all that follow it
  abbrev pub Pairwise : (A → A → Type 0) → List A → Type 0
  Pairwise R [] = Unit
  Pairwise R (x ∷ xs) = All (R x) xs × Pairwise R xs

  pub All-take : (P : A → Type 0) (n : ℕ) (xs : List A) → All P xs → All P (take n xs)
  All-take P zero xs h = tt
  All-take P (suc n) [] h = tt
  All-take P (suc n) (x ∷ xs) h = (h.0, All-take P n xs h.1)

  pub Pairwise-take :
      (R : A → A → Type 0) (n : ℕ) (xs : List A) → Pairwise R xs → Pairwise R (take n xs)
  Pairwise-take R zero xs h = tt
  Pairwise-take R (suc n) [] h = tt
  Pairwise-take R (suc n) (x ∷ xs) h = (All-take (R x) n xs h.0, Pairwise-take R n xs h.1)

  pub length-take-le : (n : ℕ) (xs : List A) → length (take n xs) ≤ n
  length-take-le zero xs = omega arith
  length-take-le (suc n) [] = omega arith
  length-take-le (suc n) (x ∷ xs) = omega (arith, length-take-le n xs)

  pub Pairwise-snoc :
      (R : A → A → Type 0) (xs : List A) (x : A)
      → Pairwise R xs
      → All (λ y. R y x) xs
      → Pairwise R (xs ++ (x ∷ []))
  Pairwise-snoc R [] x h k = (tt, tt)
  Pairwise-snoc R (y ∷ xs) x h k =
      (All-append (R y) xs (x ∷ []) h.0 (k.0, tt), Pairwise-snoc R xs x h.1 k.1)

  pub All-reverse : (P : A → Type 0) (xs : List A) → All P xs → All P (reverse xs)
  All-reverse P [] h = tt
  All-reverse P (x ∷ xs) h =
      rw (reverse-cons x xs) (All-append P (reverse xs) (x ∷ []) (All-reverse P xs h.1) (h.0, tt))

  pub Pairwise-reverse :
      (R : A → A → Type 0) (xs : List A) → Pairwise R xs → Pairwise (λ a b. R b a) (reverse xs)
  Pairwise-reverse R [] h = tt
  Pairwise-reverse R (x ∷ xs) h = rw (reverse-cons x xs) (
      Pairwise-snoc (λ a b. R b a) (reverse xs) x (Pairwise-reverse R xs h.1)
        (All-reverse (R x) xs h.0))

module _ {ℓ} {A : Type ℓ} (before : A → A → Bool)
    (total : (a b : A) → before a b ≡ false → before b a ≡ true)
    (trans : (a b c : A) → before a b ≡ true → before b c ≡ true → before a c ≡ true) where
  Pairwise-insert_by :
      (x : A) (xs : List A)
      → Pairwise (λ a b. before a b ≡ true) xs
      → Pairwise (λ a b. before a b ≡ true) (insert_by before x xs)
  unfolding insert_by
  Pairwise-insert_by x [] h = (tt, tt)
  Pairwise-insert_by x (y ∷ ys) h = elim (Bool-cases (before x y)) [
    | inl first ↦ rw first ((first, All-map_of _ _ (λ z r. trans x y z first r) ys h.0), h)
    | inr later ↦ rw later (
      All-insert_by before (λ z. before y z ≡ true) x ys (total x y later) h.0,
      Pairwise-insert_by x ys h.1,
    )
  ]

  -- where the test is a total order, the sorted list is in order
  pub Pairwise-sort_by : (xs : List A) → Pairwise (λ a b. before a b ≡ true) (sort_by before xs)
  unfolding sort_by
  Pairwise-sort_by [] = tt
  Pairwise-sort_by (x ∷ xs) = Pairwise-insert_by x (sort_by before xs) (Pairwise-sort_by xs)

pub Pairwise-map_of :
    {A : Type 0} {R S : A → A → Type 0}
    → ((a b : A) → R a b → S a b)
    → (xs : List A) → Pairwise R xs
    → Pairwise S xs
Pairwise-map_of f [] h = tt
Pairwise-map_of f (x ∷ xs) h = (All-map_of _ _ (λ y r. f x y r) xs h.0, Pairwise-map_of f xs h.1)
