-- ===== src/Storage/Local/Containment.antt =====
-- Where the local store writes.
use match_camp.Base.{
  ℕ, ◌≡◌, subst, ◌∙◌, ◌≢◌, ◌⊎◌, inl, inr, true, false, ◌||◌, some, [], ◌∷◌, ◌++◌, append_assoc,
  arith, All, Bool-cases,
}
use match_camp.Storage.Local.{escapes, safe_local_path}
use match_camp.Text.{Text, text_eq, contains, split, trim_prefix}
use match_camp.Text.Contains.{has_prefix_sound}
use match_camp.Text.Laws.{text_eq_iff}
use match_camp.Text.Paths.{up, is_rooted, clean, join_path, absolute}
use match_camp.Text.Paths.Laws.{absolute-rooted}

pub append_cons : (s : Text) (c : ℕ) (t : Text) → (s ++ (c ∷ [])) ++ t ≡ s ++ (c ∷ t)
append_cons s c t = append_assoc s (c ∷ []) t

-- the root itself, or below it
abbrev pub IsUnder : Text → Text → Type 0
IsUnder root_abs full = (full ≡ root_abs) ⊎ ((below : Text) × (full ≡ root_abs ++ (b'/' ∷ below)))

inside-IsUnder : (root_abs full : Text) → escapes root_abs full ≡ false → IsUnder root_abs full
inside-IsUnder root_abs full h = elim (Bool-cases (text_eq full root_abs)) [
  | inl same ↦ inl ((text_eq_iff full root_abs).0 same)
  | inr other ↦
      let (rest, e) = has_prefix_sound full (root_abs ++ (b'/' ∷ [])) (ground arith) in
      inr (rest, e ∙ append_cons root_abs b'/' rest)
]

-- Where the working directory is an absolute path, safeLocalPath gives only the root itself or a
-- path below it; the path is absolute and none of its parts is "..", so it leads nowhere else.
pub safe_local_path_contained :
    (cwd root key full : Text)
    → is_rooted cwd ≡ true
    → safe_local_path cwd root key ≡ some full
    → IsUnder (absolute cwd root) full
      × ((rest : Text) × (full ≡ b'/' ∷ rest) × All (λ part. part ≢ up) (split b'/' rest))
unfolding safe_local_path
safe_local_path_contained cwd root key full rooted h =
    let cleaned : Text = clean (b'/' ∷ key) in
    let target : Text = join_path root (trim_prefix cleaned (b'/' ∷ [])) in
    elim (Bool-cases (text_eq cleaned (b'/' ∷ []) || contains cleaned up)) [
      | inl refused ↦ absurd (ground arith)
      | inr fine ↦ elim (Bool-cases (escapes (absolute cwd root) (absolute cwd target))) [
        | inl out ↦ absurd (ground arith)
        | inr inside ↦
            let same : absolute cwd target ≡ full = ground arith in
            (
              subst (IsUnder (absolute cwd root)) same
                  (inside-IsUnder (absolute cwd root) (absolute cwd target) inside),
              subst
                  (λ p.
                    (rest : Text) × (p ≡ b'/' ∷ rest) × All (λ part. part ≢ up) (split b'/' rest))
                  same (absolute-rooted cwd target rooted),
            )
      ]
    ]
