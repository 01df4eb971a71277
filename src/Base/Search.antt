-- ===== src/Base/Search.antt =====
-- What a search by a Boolean test says of the items of a list.
use mathlib.Core.Path.{◌≡◌, refl, sym, ap, subst, ◌∙◌}
use mathlib.Core.Logic.{◌≢◌, inl, inr}
use mathlib.Core.Bool.{Bool, true, false}
use mathlib.Core.Option.{none, some}
use mathlib.Core.List.{List, [], ◌∷◌}
use native.Mathlib.Omega.{arith}
use match_camp.Base.Tests.{Bool-cases}
use match_camp.Base.Lists.{any, filter, find?, All, All-map_of, Any}
use match_camp.Base.Sort.{Pairwise}

module _ {A : Type 0} where
  pub any-Any : (p : A → Bool) (xs : List A) → any p xs ≡ true → Any (λ x. p x ≡ true) xs
  any-Any p [] h = cc
  any-Any p (x ∷ xs) h = elim (Bool-cases (p x)) [
    | inl here ↦ inl here
    | inr other ↦ inr (any-Any p xs (ground arith))
  ]

  pub Any-any : (p : A → Bool) (xs : List A) → Any (λ x. p x ≡ true) xs → any p xs ≡ true
  Any-any p [] h = elim h [ ]
  Any-any p (x ∷ xs) (inl h) = ground arith
  Any-any p (x ∷ xs) (inr h) = ground (arith, Any-any p xs h)

  pub any-eq-false : (p : A → Bool) (xs : List A) → any p xs ≡ false → All (λ x. p x ≡ false) xs
  any-eq-false p [] h = tt
  any-eq-false p (x ∷ xs) h = (ground arith, any-eq-false p xs (ground arith))

  pub find?-Any :
      (p : A → Bool) (xs : List A) (x : A)
      → find? p xs ≡ some x
      → (p x ≡ true) × Any (λ y. y ≡ x) xs
  find?-Any p [] x h = cc
  find?-Any p (y ∷ ys) x h = elim (Bool-cases (p y)) [
    | inl here ↦ (ground arith, inl (ground arith))
    | inr other ↦ let (passes, there) = find?-Any p ys x (ground arith) in (passes, inr there)
  ]

  pub find?-none : (p : A → Bool) (xs : List A) → find? p xs ≡ none → All (λ x. p x ≡ false) xs
  find?-none p [] h = tt
  find?-none p (x ∷ xs) h = (ground arith, find?-none p xs (ground arith))

  pub Any-map_of : (P Q : A → Type 0) → ((x : A) → P x → Q x) → (xs : List A) → Any P xs → Any Q xs
  Any-map_of P Q f (x ∷ xs) (inl h) = inl (f x h)
  Any-map_of P Q f (x ∷ xs) (inr h) = inr (Any-map_of P Q f xs h)
  Any-map_of P Q f [] h = elim h [ ]

  -- An item that is somewhere in the list and what holds of every item.
  pub All-Any :
      (P Q R : A → Type 0)
      → ((x : A) → P x → Q x → R x)
      → (xs : List A) → All P xs
      → Any Q xs
      → Any R xs
  All-Any P Q R f [] a h = elim h [ ]
  All-Any P Q R f (x ∷ xs) a (inl h) = inl (f x a.0 h)
  All-Any P Q R f (x ∷ xs) a (inr h) = inr (All-Any P Q R f xs a.1 h)

  pub All-Any-clash :
      (P Q : A → Type 0) → ((x : A) → P x → ¬ Q x) → (xs : List A) → All P xs → ¬ Any Q xs
  All-Any-clash P Q f [] a h = elim h [ ]
  All-Any-clash P Q f (x ∷ xs) a (inl h) = f x a.0 h
  All-Any-clash P Q f (x ∷ xs) a (inr h) = All-Any-clash P Q f xs a.1 h

  abbrev pub In : A → List A → Type 0
  In x xs = Any (λ y. y ≡ x) xs

  -- The item itself.
  pub Any-witness : (P : A → Type 0) (xs : List A) → Any P xs → (x : A) × In x xs × P x
  Any-witness P [] h = elim h [ ]
  Any-witness P (x ∷ xs) (inl h) = (x, inl refl, h)
  Any-witness P (x ∷ xs) (inr h) = let (y, there, p) = Any-witness P xs h in (y, inr there, p)

  pub All-In : (P : A → Type 0) (x : A) (xs : List A) → All P xs → In x xs → P x
  All-In P x [] a h = elim h [ ]
  All-In P x (y ∷ ys) a (inl e) = subst P e a.0
  All-In P x (y ∷ ys) a (inr h) = All-In P x ys a.1 h

  -- Two items with the same key, in a list whose keys differ, are one.
  pub Pairwise-unique :
      {K : Type 0} (f : A → K) (x y : A) (xs : List A)
      → Pairwise (λ a b. f a ≢ f b) xs
      → In x xs
      → In y xs
      → f x ≡ f y
      → x ≡ y
  Pairwise-unique f x y [] d h k e = elim h [ ]
  Pairwise-unique f x y (a ∷ xs) d (inl h) (inl k) e = sym h ∙ k
  Pairwise-unique f x y (a ∷ xs) d (inl h) (inr k) e =
      absurd (All-In (λ b. f a ≢ f b) y xs d.0 k (ap f h ∙ e))
  Pairwise-unique f x y (a ∷ xs) d (inr h) (inl k) e =
      absurd (All-In (λ b. f a ≢ f b) x xs d.0 h (ap f k ∙ sym e))
  Pairwise-unique f x y (a ∷ xs) d (inr h) (inr k) e = Pairwise-unique f x y xs d.1 h k e

pub In-filter :
    {A : Type 0} (p : A → Bool) (x : A) (xs : List A) → p x ≡ true → In x xs → In x (filter p xs)
In-filter p x [] passes h = elim h [ ]
In-filter p x (y ∷ ys) passes (inl e) = rw (ap p e ∙ passes) (inl e)
In-filter p x (y ∷ ys) passes (inr h) = elim (Bool-cases (p y)) [
  | inl kept ↦ rw kept (inr (In-filter p x ys passes h))
  | inr dropped ↦ rw dropped (In-filter p x ys passes h)
]

pub All-In_self : {A : Type 0} (xs : List A) → All (λ x. In x xs) xs
All-In_self [] = tt
All-In_self (x ∷ xs) = (inl refl, All-map_of (λ y. In y xs) _ (λ y h. inr h) xs (All-In_self xs))

-- What holds of the items that pass, from what the test and their place in the list say.
pub All-filter_of :
    {A : Type 0} (p : A → Bool) (P Q : A → Type 0)
    → ((x : A) → P x → p x ≡ true → Q x)
    → (xs : List A) → All P xs
    → All Q (filter p xs)
All-filter_of p P Q f [] h = tt
All-filter_of p P Q f (x ∷ xs) h = elim (Bool-cases (p x)) [
  | inl kept ↦ rw kept (f x h.0 kept, All-filter_of p P Q f xs h.1)
  | inr dropped ↦ rw dropped (All-filter_of p P Q f xs h.1)
]
