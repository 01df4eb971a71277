-- ===== src/Server/Paging/Reversal.antt =====
-- internal/server/server.go: the loop of `messages` that reverses a page in place.
use match_camp.Base.{
  ℕ, zero, suc, ◌+◌, ◌-◌, ◌≤◌, ◌≡◌, refl, sym, ap, ◌∙◌, inl, inr, true, false, Option, none, some,
  List, [], ◌∷◌, ◌++◌, reverse, append-nil, append_assoc, reverse-cons, reverse-append, arith,
  length, length-append, ltb, if◌then◌else◌, Option-cases,
}

module _ {A : Type 0} where
  -- rows[i], which the loop reads in range only
  unfoldable pub get_elem? : ℕ → List A → Option A
  get_elem? i [] = none
  get_elem? zero (x ∷ xs) = some x
  get_elem? (suc i) (x ∷ xs) = get_elem? i xs

  -- rows[i] = a
  unfoldable pub set_elem : ℕ → A → List A → List A
  set_elem i a [] = []
  set_elem zero a (x ∷ xs) = a ∷ xs
  set_elem (suc i) a (x ∷ xs) = x ∷ set_elem i a xs

  abbrev pub swap_values : ℕ → ℕ → Option A → Option A → List A → List A
  swap_values i j (some a) (some b) xs = set_elem i b (set_elem j a xs)
  swap_values i j (some a) none xs = xs
  swap_values i j none b xs = xs

  -- rows[i], rows[j] = rows[j], rows[i]
  unfoldable pub swap_elems : ℕ → ℕ → List A → List A
  swap_elems i j xs = swap_values i j (get_elem? i xs) (get_elem? j xs) xs

  -- for i < j { swap; i+1, j-1 }, at most `fuel` times
  unfoldable pub swap_loop : ℕ → ℕ → ℕ → List A → List A
  swap_loop zero i j xs = xs
  swap_loop (suc fuel) i j xs =
      let rest = swap_loop fuel (i + 1) (j - 1) (swap_elems i j xs) in if ltb i j then rest else xs

  unfoldable pub reverse_rows : List A → List A
  reverse_rows xs = swap_loop (length xs) 0 (length xs - 1) xs

  get_elem?-append : (p s : List A) (x : A) → get_elem? (length p) (p ++ (x ∷ s)) ≡ some x
  unfolding get_elem?
  get_elem?-append [] s x = refl
  get_elem?-append (c ∷ p) s x = get_elem?-append p s x

  set_elem-append : (p s : List A) (x y : A) → set_elem (length p) y (p ++ (x ∷ s)) ≡ p ++ (y ∷ s)
  unfolding set_elem
  set_elem-append [] s x y = refl
  set_elem-append (c ∷ p) s x y = ap (λ l. c ∷ l) (set_elem-append p s x y)

  swap_elems-cons :
      (i j : ℕ) (c : A) (xs : List A) → swap_elems (suc i) (suc j) (c ∷ xs) ≡ c ∷ swap_elems i j xs
  unfolding swap_elems get_elem? set_elem
  swap_elems-cons i j c xs = elim (Option-cases (get_elem? i xs)) [
    | inl out ↦ rw out refl
    | inr (a, at_i) ↦ elim (Option-cases (get_elem? j xs)) [
      | inl out ↦ rw at_i rw out refl
      | inr (b, at_j) ↦ rw at_i rw at_j refl
    ]
  ]

  swap_elems-front :
      (m s : List A) (x z : A)
      → swap_elems zero (suc (length m)) (x ∷ (m ++ (z ∷ s))) ≡ z ∷ (m ++ (x ∷ s))
  unfolding swap_elems get_elem? set_elem
  swap_elems-front m s x z = rw (get_elem?-append m s z) rw (set_elem-append m s z x) refl

  swap_elems-append :
      (p m s : List A) (x z : A) (j : ℕ)
      → j ≡ length p + suc (length m)
      → swap_elems (length p) j (p ++ (x ∷ (m ++ (z ∷ s)))) ≡ p ++ (z ∷ (m ++ (x ∷ s)))
  swap_elems-append [] m s x z j h =
      let front : j ≡ suc (length m) = omega (arith, h) in rw front (swap_elems-front m s x z)
  swap_elems-append (c ∷ p) m s x z j h =
      let later : j ≡ suc (length p + suc (length m)) = omega (arith, h) in
      rw later (
        swap_elems-cons (length p) (length p + suc (length m)) c (p ++ (x ∷ (m ++ (z ∷ s))))
        ∙ ap (λ l. c ∷ l) (swap_elems-append p m s x z (length p + suc (length m)) refl))

  -- the last item of a list that is not empty
  split_last : (x : A) (xs : List A) → (m : List A) × (z : A) × (x ∷ xs ≡ m ++ (z ∷ []))
  split_last x [] = ([], x, refl)
  split_last x (y ∷ xs) = let (m, z, e) = split_last y xs in (x ∷ m, z, ap (λ l. x ∷ l) e)

  reverse-ends :
      (m s : List A) (x z : A) → reverse (x ∷ (m ++ (z ∷ []))) ++ s ≡ z ∷ (reverse m ++ (x ∷ s))
  reverse-ends m s x z =
      ap (λ l. l ++ s)
        (reverse-cons x (m ++ (z ∷ [])) ∙ ap (λ l. l ++ (x ∷ [])) (reverse-append m (z ∷ [])))
      ∙ append_assoc (z ∷ reverse m) (x ∷ []) s

  -- one turn of the loop
  swap_loop-step :
      (fuel i j : ℕ) (p m s : List A) (x z : A)
      → i ≡ length p
      → j ≡ length p + suc (length m)
      → swap_loop fuel (i + 1) (j - 1) ((p ++ (z ∷ [])) ++ (m ++ (x ∷ s)))
        ≡ (p ++ (z ∷ [])) ++ (reverse m ++ (x ∷ s))
      → swap_loop (suc fuel) i j (p ++ (x ∷ (m ++ (z ∷ s))))
        ≡ p ++ (reverse (x ∷ (m ++ (z ∷ []))) ++ s)
  unfolding swap_loop
  swap_loop-step fuel i j p m s x z hi hj inner =
      let running : ltb i j ≡ true = ground (arith, hi, hj) in
      let swapped : swap_elems i j (p ++ (x ∷ (m ++ (z ∷ s)))) ≡ (p ++ (z ∷ [])) ++ (m ++ (x ∷ s)) =
        rw hi (swap_elems-append p m s x z j hj) ∙ sym (append_assoc p (z ∷ []) (m ++ (x ∷ s))) in
      rw running (
        ap (swap_loop fuel (i + 1) (j - 1)) swapped
        ∙ inner
        ∙ append_assoc p (z ∷ []) (reverse m ++ (x ∷ s))
        ∙ ap (λ l. p ++ l) (sym (reverse-ends m s x z)))

  -- the loop between two parts that it does not touch
  pub swap_loop-append :
      (fuel i j : ℕ) (p m s : List A)
      → length m ≤ fuel
      → i ≡ length p
      → j ≡ length p + length m - 1
      → swap_loop fuel i j (p ++ (m ++ s)) ≡ p ++ (reverse m ++ s)
  unfolding swap_loop
  swap_loop-append zero i j p [] s h hi hj = refl
  swap_loop-append zero i j p (x ∷ m) s h hi hj = absurd (omega (arith, h))
  swap_loop-append (suc fuel) i j p [] s h hi hj =
      let done : ltb i j ≡ false = ground (arith, hi, hj) in rw done refl
  swap_loop-append (suc fuel) i j p (x ∷ []) s h hi hj =
      let done : ltb i j ≡ false = ground (arith, hi, hj) in rw done refl
  swap_loop-append (suc fuel) i j p (x ∷ y ∷ m) s h hi hj =
      let (inner, z, e) = split_last y m in
      let size : length (y ∷ m) ≡ length inner + 1 = ap length e ∙ length-append inner (z ∷ []) in
      let whole : (x ∷ y ∷ m) ++ s ≡ x ∷ (inner ++ (z ∷ s)) =
        ap (λ l. x ∷ (l ++ s)) e ∙ ap (λ l. x ∷ l) (append_assoc inner (z ∷ []) s) in
      ap (λ l. swap_loop (suc fuel) i j (p ++ l)) whole
      ∙ swap_loop-step fuel i j p inner s x z hi (omega (arith, hj, size)) (
          swap_loop-append fuel (i + 1) (j - 1) (p ++ (z ∷ [])) inner (x ∷ s)
            (omega (arith, h, size)) (omega (arith, hi, length-append p (z ∷ [])))
            (omega (arith, hj, size, length-append p (z ∷ []))))
      ∙ ap (λ l. p ++ (reverse (x ∷ l) ++ s)) (sym e)

-- The loop that swaps the ends of a page inwards reverses it.
pub reverse_rows_lem : {A : Type 0} (xs : List A) → reverse_rows xs ≡ reverse xs
unfolding reverse_rows
reverse_rows_lem xs =
    ap (swap_loop (length xs) 0 (length xs - 1)) (sym (append-nil xs))
    ∙ swap_loop-append (length xs) 0 (length xs - 1) [] xs [] (omega arith) refl (omega arith)
    ∙ append-nil (reverse xs)
