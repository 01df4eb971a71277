-- ===== src/Apperror/Laws.antt =====
-- What `Lookup` returns for any code.
use match_camp.Base.{
  ◌≤◌, ◌<◌, String, ◌≡◌, refl, ◌⊎◌, inl, inr, none, some, List, [], ◌∷◌, arith, eq_iff, All,
  Option-cases,
}
use match_camp.Apperror.{Definition, definitions, get, lookup}

abbrev IsServed : String × Definition → Type 0
IsServed (key, d) = (d.code ≡ key) × (400 ≤ d.status) × (d.status < 600)

definitions-IsServed : All IsServed definitions
definitions-IsServed = ground arith

get-IsServed :
    (code : String) (ds : List (String × Definition)) (d : Definition)
    → All IsServed ds
    → get code ds ≡ some d
    → IsServed (code, d)
unfolding get
get-IsServed code [] d h e = cc
get-IsServed code ((k, d') ∷ ds) d h e = ground (arith, eq_iff k code, get-IsServed code ds d h.1)

-- Whatever the code, the answer has an HTTP error status, and carries either the code asked for or
-- `internal_error`; the latter only for a code that is not in the catalogue.
pub lookup_lem :
    (code : String)
    → (400 ≤ (lookup code).status)
      × ((lookup code).status < 600)
      × (((lookup code).code ≡ code)
          ⊎ ((get code definitions ≡ none) × ((lookup code).code ≡ "internal_error")))
unfolding lookup
lookup_lem code = elim (Option-cases (get code definitions)) [
  | inl missing ↦ rw missing (omega arith, omega arith, inr (refl, refl))
  | inr (d, found) ↦
      let (same, low, high) = get-IsServed code definitions d definitions-IsServed found in
      rw found (low, high, inl same)
]

-- A code of the catalogue: `Lookup` answers it, and not `internal_error` in its place.
abbrev pub IsKnown : String → Type 0
IsKnown code = (lookup code).code ≡ code
