-- ===== src/Text/Paths/Laws.antt =====
-- Laws of cleaned paths.
use match_camp.Base.{
  ℕ, ◌≡◌, refl, sym, ap, subst, ◌∙◌, ◌≢◌, inl, inr, true, ◌||◌, List, [], ◌∷◌, ◌++◌, reverse,
  reverse-cons, All, All-map_of, All-append, Bool-cases,
}
use match_camp.Text.{Text, text_eq, split}
use match_camp.Text.Laws.{text_eq_iff}
use match_camp.Text.Paths.{
  up, is_empty_text, go_up, push_part, clean_parts, is_rooted, clean, join_path, absolute,
}
use match_camp.Text.Split.{IsFree, rejoined, split-IsFree, split-free, split-append}

abbrev IsKept : Text → Type 0
IsKept part = (part ≢ up) × IsFree b'/' part

push_part-IsKept :
    (kept : List Text) (part : Text)
    → All IsKept kept
    → IsFree b'/' part
    → All IsKept (push_part true kept part)
unfolding push_part
push_part-IsKept kept part h free =
    elim (Bool-cases (is_empty_text part || text_eq part (b'.' ∷ []))) [
      | inl skipped ↦ rw skipped h
      | inr other ↦ elim (Bool-cases (text_eq part up)) [
        | inl back ↦ rw other rw back (go_up-IsKept kept h)
        | inr new ↦ rw other rw new ((λ e. absurd (cc ((text_eq_iff part up).1 e, new)), free), h)
      ]
    ]
  where
    go_up-IsKept : (kept : List Text) → All IsKept kept → All IsKept (go_up true kept)
    go_up-IsKept [] h = tt
    go_up-IsKept (part ∷ kept) h = elim (Bool-cases (text_eq part up)) [
      | inl same ↦ absurd (h.0.0 ((text_eq_iff part up).0 same))
      | inr other ↦ rw other (h.1)
    ]

clean_parts-IsKept :
    (kept parts : List Text)
    → All IsKept kept
    → All (IsFree b'/') parts
    → All IsKept (clean_parts true kept parts)
unfolding clean_parts
clean_parts-IsKept kept [] h free = h
clean_parts-IsKept kept (part ∷ parts) h free =
    clean_parts-IsKept (push_part true kept part) parts (push_part-IsKept kept part h free.0) free.1

pub split-rejoined :
    (sep : ℕ) (p : Text) (ps : List Text)
    → All (IsFree sep) (p ∷ ps)
    → split sep (rejoined sep (p ∷ ps)) ≡ p ∷ ps
split-rejoined sep p [] h = split-free sep p (h.0)
split-rejoined sep p (q ∷ ps) h =
    split-append sep p (rejoined sep (q ∷ ps)) (h.0) ∙ ap (λ t. p ∷ t) (split-rejoined sep q ps h.1)

All-reverse : {A : Type 0} (P : A → Type 0) (xs : List A) → All P xs → All P (reverse xs)
All-reverse P [] h = tt
All-reverse P (x ∷ xs) h =
    subst (All P) (sym (reverse-cons x xs))
      (All-append P (reverse xs) (x ∷ []) (All-reverse P xs h.1) (h.0, tt))

rejoined-kept :
    (ps : List Text) → All IsKept ps → All (λ part. part ≢ up) (split b'/' (rejoined b'/' ps))
unfolding split
rejoined-kept [] h = (λ e. cc, tt)
rejoined-kept (p ∷ ps) h =
    rw (split-rejoined b'/' p ps (All-map_of IsKept _ (λ _ k. k.1) (p ∷ ps) h))
      (All-map_of IsKept _ (λ _ k. k.0) (p ∷ ps) h)

-- A cleaned path from the root has no part "..".
pub clean-rooted :
    (s : Text)
    → is_rooted s ≡ true
    → (rest : Text) × (clean s ≡ b'/' ∷ rest) × All (λ part. part ≢ up) (split b'/' rest)
unfolding clean
clean-rooted s h =
    let kept = reverse (clean_parts true [] (split b'/' s)) in
    rw h (
      rejoined b'/' kept,
      refl,
      rejoined-kept kept
          (All-reverse IsKept _ (clean_parts-IsKept [] (split b'/' s) tt (split-IsFree b'/' s))),
    )

-- filepath.Abs gives such a path.
pub absolute-rooted :
    (cwd s : Text)
    → is_rooted cwd ≡ true
    → (rest : Text) × (absolute cwd s ≡ b'/' ∷ rest) × All (λ part. part ≢ up) (split b'/' rest)
unfolding absolute join_path
absolute-rooted [] s h = absurd (cc h)
absolute-rooted (c ∷ cwd) s h = elim (Bool-cases (is_rooted s)) [
  | inl rooted ↦ rw rooted (clean-rooted s rooted)
  | inr relative ↦ rw relative (clean-rooted ((c ∷ cwd) ++ (b'/' ∷ s)) h)
]
