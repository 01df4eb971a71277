-- ===== src/Server/Auth/Domains.antt =====
-- emailAllowed: which addresses the configured domains let in.
use match_camp.Base.{
  ℕ, ◌≡◌, refl, sym, ◌↔◌, ◌⊎◌, inl, inr, true, List, [], ◌∷◌, ◌++◌, arith, All, In, Bool-cases,
}
use match_camp.Server.Auth.{in_domains, has_domain, email_allowed}
use match_camp.Text.{Text, text_eq, to_lower, split}
use match_camp.Text.Laws.{text_eq_iff}
use match_camp.Text.Split.{IsFree, rejoined, rejoined-split, split-IsFree, split-free, split-append}

in_domains_iff : (d : Text) (ds : List Text) → (in_domains d ds ≡ true) ↔ In d ds
unfolding in_domains
in_domains_iff d [] = (λ e. absurd (cc e), λ h. elim h [ ])
in_domains_iff d (e ∷ es) =
    let same = text_eq_iff e d in
    let rest = in_domains_iff d es in
    (
      (λ h. elim (Bool-cases (text_eq e d)) [
        | inl here ↦ inl (same.0 here)
        | inr other ↦ inr (rest.0 (ground (arith, h, other)))
      ]),
      (λ h. elim h [
        | inl here ↦ rw (same.1 here) refl
        | inr other ↦ elim (Bool-cases (text_eq e d)) [
          | inl here ↦ rw here refl
          | inr differs ↦ rw differs (rest.1 other)
        ]
      ]),
    )

-- An address with one @, and a domain of the list after it.
abbrev pub HasListedDomain : (ℕ → ℕ) → List Text → Text → Type 0
HasListedDomain table domains email =
    (name : Text) × (domain : Text) × (email ≡ name ++ (b'@' ∷ domain))
    × IsFree b'@' name
    × IsFree b'@' domain
    × In (to_lower table domain) domains

has_domain_parts :
    (table : ℕ → ℕ) (domains : List Text) (email : Text) (parts : List Text)
    → rejoined b'@' parts ≡ email
    → All (IsFree b'@') parts
    → has_domain table domains parts ≡ true
    → HasListedDomain table domains email
has_domain_parts table domains email [] e f h = absurd (cc h)
has_domain_parts table domains email (p ∷ []) e f h = absurd (cc h)
has_domain_parts table domains email (p ∷ q ∷ r ∷ ps) e f h = absurd (cc h)
has_domain_parts table domains email (p ∷ q ∷ []) e f h =
    (p, q, sym e, f.0, f.1.0, (in_domains_iff (to_lower table q) domains).0 h)

has_domain-split :
    (table : ℕ → ℕ) (domains : List Text) (email : Text)
    → HasListedDomain table domains email
    → has_domain table domains (split b'@' email) ≡ true
has_domain-split table domains email (name, domain, e, before, after, listed) =
    rw e rw (split-append b'@' name domain before) rw (split-free b'@' domain after)
      ((in_domains_iff (to_lower table domain) domains).1 listed)

-- An address is allowed exactly when no domain is configured, or when it has one @ and what
-- follows it, in lower case, is one of the configured domains.
pub email_allowed_iff :
    (table : ℕ → ℕ) (domains : List Text) (email : Text)
    → (email_allowed table domains email ≡ true)
      ↔ ((domains ≡ []) ⊎ HasListedDomain table domains email)
unfolding email_allowed
email_allowed_iff table [] email = (λ _. inl refl, λ _. refl)
email_allowed_iff table (d ∷ ds) email = (
  λ h. inr (
      has_domain_parts table (d ∷ ds) email (split b'@' email) (rejoined-split b'@' email)
        (split-IsFree b'@' email) h),
  λ h. elim h [
    | inl none_set ↦ absurd (cc none_set)
    | inr listed ↦ has_domain-split table (d ∷ ds) email listed
  ],
)
