-- ===== src/Server/Cors/Origins.antt =====
-- Which origins a response allows.
use match_camp.Base.{
  ℕ, String, ◌≡◌, refl, ◌≢◌, ◌↔◌, ◌⊎◌, inl, inr, Bool, true, false, none, some, List, [], ◌∷◌, map,
  arith, eq_iff, Any, if◌then◌else◌,
}
use match_camp.Server.Auth.{in_domains}
use match_camp.Server.Cors.{origin_set, origin_allowed, cors}
use match_camp.Text.{Text, to_lower}
use match_camp.Text.Laws.{text_eq_iff}

in_domains-Any :
    (domain : Text) (domains : List Text)
    → (in_domains domain domains ≡ true) ↔ Any (λ d. d ≡ domain) domains
unfolding in_domains
in_domains-Any domain [] = (λ h. cc, λ h. elim h [ ])
in_domains-Any domain (d ∷ ds) = ground (arith, text_eq_iff d domain, in_domains-Any domain ds)

Any-map_iff :
    {A B : Type 0} (P : B → Type 0) (f : A → B) (xs : List A)
    → Any P (map f xs) ↔ Any (λ x. P (f x)) xs
Any-map_iff P f [] = (λ h. h, λ h. h)
Any-map_iff P f (x ∷ xs) =
    let rest = Any-map_iff P f xs in
    (
      λ h. elim h [ inl e ↦ inl e | inr there ↦ inr (rest.0 there) ],
      λ h. elim h [ inl e ↦ inl e | inr there ↦ inr (rest.1 there) ],
    )

-- What a configuration says of an origin.
abbrev pub IsAdmitted : (ℕ → ℕ) → List Text → Text → Type 0
IsAdmitted unicode_lower origins origin =
    (origin ≢ [])
    × ((origins ≡ []) ⊎ Any (λ o. to_lower unicode_lower o ≡ to_lower unicode_lower origin) origins)

origin_allowed_iff :
    (unicode_lower : ℕ → ℕ) (origins : List Text) (origin : Text)
    → (origin_allowed unicode_lower (origin_set unicode_lower origins) origin ≡ true)
      ↔ IsAdmitted unicode_lower origins origin
unfolding origin_allowed
origin_allowed_iff unicode_lower origins [] = (λ h. cc, λ h. absurd (h.0 refl))
origin_allowed_iff unicode_lower [] (c ∷ origin) = (λ h. ((λ e. cc), inl refl), λ h. refl)
origin_allowed_iff unicode_lower (o ∷ os) (c ∷ origin) =
    let lowered : Text = to_lower unicode_lower (c ∷ origin) in
    let found = in_domains-Any lowered (origin_set unicode_lower (o ∷ os)) in
    let listed = Any-map_iff (λ d. d ≡ lowered) (to_lower unicode_lower) (o ∷ os) in
    (
      λ h. ((λ e. cc), inr (listed.0 (found.0 h))),
      λ h. elim (h.1) [ inl e ↦ absurd (cc e) | inr there ↦ found.1 (listed.1 there) ],
    )

named_iff : (b : Bool) (o : Text) → ((if b then some o else none) ≡ some o) ↔ (b ≡ true)
named_iff true o = (λ h. refl, λ h. refl)
named_iff false o = (λ h. cc, λ h. cc)

-- A response names the origin of the request as allowed exactly where the request has an origin and
-- either no origin is configured or one of those configured is the same but for case; requests
-- with the method OPTIONS, and no others, are answered there and then.
pub cors_iff :
    (unicode_lower : ℕ → ℕ) (origins : List Text) (origin : Text) (method : String)
    → let answer = cors unicode_lower (origin_set unicode_lower origins) origin method in
      ((answer.allow_origin ≡ some origin) ↔ IsAdmitted unicode_lower origins origin)
      × ((answer.answered ≡ true) ↔ (method ≡ "OPTIONS"))
unfolding cors
cors_iff unicode_lower origins origin method =
    let allowed : Bool = origin_allowed unicode_lower (origin_set unicode_lower origins) origin in
    let named = named_iff allowed origin in
    let admitted = origin_allowed_iff unicode_lower origins origin in
    ((λ h. admitted.0 (named.0 h), λ h. named.1 (admitted.1 h)), eq_iff method "OPTIONS")
