-- ===== src/Text/Split.antt =====
-- strings.Split at one separator, as the inverse of joining.
use match_camp.Base.{
  ℕ, ◌≡◌, refl, sym, ap, subst, ◌∙◌, inl, inr, false, List, [], ◌∷◌, ◌++◌, arith, any, All, ◌==◌,
  ==_iff, Bool-cases,
}
use match_camp.Text.{Text, cons_head, split}

-- The separator does not occur.
abbrev pub IsFree : ℕ → Text → Type 0
IsFree sep s = any (λ c. c == sep) s ≡ false

split_cons : (sep : ℕ) (s : Text) → (p : Text) × (ps : List Text) × (split sep s ≡ p ∷ ps)
unfolding split
split_cons sep [] = ([], [], refl)
split_cons sep (c ∷ s) =
    let (p, ps, e) = split_cons sep s in
    elim (Bool-cases (c == sep)) [
      | inl here ↦ rw here ([], split sep s, refl)
      | inr other ↦ rw other rw e (c ∷ p, ps, refl)
    ]

-- What `split` gives, rejoined again, is the text.
abbrev pub rejoined : ℕ → List Text → Text
rejoined sep [] = []
rejoined sep (p ∷ []) = p
rejoined sep (p ∷ q ∷ ps) = p ++ (sep ∷ rejoined sep (q ∷ ps))

rejoined-cons_head :
    (sep c : ℕ) (p : Text) (ps : List Text)
    → rejoined sep (cons_head c (p ∷ ps)) ≡ c ∷ rejoined sep (p ∷ ps)
rejoined-cons_head sep c p [] = refl
rejoined-cons_head sep c p (q ∷ ps) = refl

pub rejoined-split : (sep : ℕ) (s : Text) → rejoined sep (split sep s) ≡ s
unfolding split
rejoined-split sep [] = refl
rejoined-split sep (c ∷ s) =
    let (p, ps, e) = split_cons sep s in
    let again = rejoined-split sep s in
    elim (Bool-cases (c == sep)) [
      | inl here ↦ rw here rw e (cc ((==_iff c sep).0 here, sym (ap (rejoined sep) e) ∙ again))
      | inr other ↦
          rw other rw e
            (rejoined-cons_head sep c p ps ∙ ap (λ t. c ∷ t) (sym (ap (rejoined sep) e) ∙ again))
    ]

pub split-IsFree : (sep : ℕ) (s : Text) → All (IsFree sep) (split sep s)
unfolding split
split-IsFree sep [] = (refl, tt)
split-IsFree sep (c ∷ s) =
    let (p, ps, e) = split_cons sep s in
    let free = split-IsFree sep s in
    elim (Bool-cases (c == sep)) [
      | inl here ↦ rw here (refl, free)
      | inr other ↦
          let parts : All (IsFree sep) (p ∷ ps) = subst (All (IsFree sep)) e free in
          rw other rw e (ground (arith, other, parts.0), parts.1)
    ]

pub split-free : (sep : ℕ) (s : Text) → IsFree sep s → split sep s ≡ s ∷ []
unfolding split
split-free sep [] h = refl
split-free sep (c ∷ s) h = ground (arith, split-free sep s)

pub split-append :
    (sep : ℕ) (s t : Text) → IsFree sep s → split sep (s ++ (sep ∷ t)) ≡ s ∷ split sep t
unfolding split
split-append sep [] t h = ground arith
split-append sep (c ∷ s) t h =
    let inner = split-append sep s t (ground (arith, h)) in
    let other : (c == sep) ≡ false = ground (arith, h) in rw other rw inner refl
