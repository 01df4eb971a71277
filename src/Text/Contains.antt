-- ===== src/Text/Contains.antt =====
-- `strings.Contains` finds exactly the texts that occur.
use match_camp.Base.{◌≡◌, refl, ap, ◌↔◌, inl, inr, true, [], ◌∷◌, ◌++◌, arith, Bool-cases}
use match_camp.Text.{Text, has_prefix, contains}

-- p occurs in s
abbrev pub Occurs : Text → Text → Type 0
Occurs p s = (before : Text) × (after : Text) × (s ≡ before ++ (p ++ after))

pub has_prefix_sound : (s p : Text) → has_prefix s p ≡ true → (after : Text) × (s ≡ p ++ after)
unfolding has_prefix
has_prefix_sound s [] h = (s, refl)
has_prefix_sound [] (b ∷ p) h = cc
has_prefix_sound (a ∷ s) (b ∷ p) h =
    let (after, e) = has_prefix_sound s p (ground arith) in (after, ground arith)

pub has_prefix-append : (p after : Text) → has_prefix (p ++ after) p ≡ true
unfolding has_prefix
has_prefix-append [] after = ground arith
has_prefix-append (b ∷ p) after = ground (arith, has_prefix-append p after)

contains-Occurs : (s p : Text) → contains s p ≡ true → Occurs p s
unfolding contains
contains-Occurs [] p h = let (after, e) = has_prefix_sound [] p h in ([], after, e)
contains-Occurs (a ∷ s) p h = elim (Bool-cases (has_prefix (a ∷ s) p)) [
  | inl here ↦ let (after, e) = has_prefix_sound (a ∷ s) p here in ([], after, e)
  | inr no_match ↦
      let (before, after, e) = contains-Occurs s p (ground arith) in
      (a ∷ before, after, ap (λ t. a ∷ t) e)
]

contains_of_prefix : (s p : Text) → has_prefix s p ≡ true → contains s p ≡ true
unfolding contains
contains_of_prefix [] p h = h
contains_of_prefix (a ∷ s) p h = rw h

Occurs-contains : (before p after : Text) → contains (before ++ (p ++ after)) p ≡ true
unfolding contains
Occurs-contains [] p after = contains_of_prefix (p ++ after) p (has_prefix-append p after)
Occurs-contains (a ∷ before) p after = ground (arith, Occurs-contains before p after)

pub contains_iff : (s p : Text) → (contains s p ≡ true) ↔ Occurs p s
contains_iff s p = (contains-Occurs s p, λ o. rw o.2 (Occurs-contains o.0 p o.1))
