-- ===== src/Server/Profiles/Preferences.antt =====
-- Which preferences are stored.
use match_camp.Base.{
  ℕ, ◌≤◌, String, ◌≡◌, refl, ◌↔◌, ◌⊎◌, true, false, ◌||◌, arith, eq_iff, ℤ, pos, negsuc,
}
use match_camp.Server.Profiles.{PreferencesRequest, below, above, is_interest, invalid_preferences}

-- a known interest, and ages from 18 to 99 in order
abbrev pub IsPreference : PreferencesRequest → ℕ → ℕ → Type 0
IsPreference req lo hi =
    ((req.interested_in ≡ "everyone") ⊎ (req.interested_in ≡ "men") ⊎ (req.interested_in ≡ "women"))
    × (req.min_age ≡ pos lo)
    × (req.max_age ≡ pos hi)
    × (18 ≤ lo)
    × (lo ≤ hi)
    × (hi ≤ 99)

ages_in_order :
    (min_age max_age : ℤ)
    → (below min_age 18 || above max_age (pos 99) || above min_age max_age) ≡ false
    → (lo : ℕ) × (hi : ℕ) × (min_age ≡ pos lo)
      × (max_age ≡ pos hi)
      × (18 ≤ lo)
      × (lo ≤ hi)
      × (hi ≤ 99)
ages_in_order (pos a) (pos b) h = (a, b, refl, refl, ground arith, ground arith, ground arith)
ages_in_order (negsuc a) b h = absurd (cc h)
ages_in_order (pos a) (negsuc b) h = absurd (ground arith)

is_interest_iff :
    (s : String) → (is_interest s ≡ true) ↔ ((s ≡ "everyone") ⊎ (s ≡ "men") ⊎ (s ≡ "women"))
is_interest_iff s = ground (arith, eq_iff s "everyone", eq_iff s "men", eq_iff s "women")

-- The guard of the endpoint lets exactly the preferences through whose interest is known and whose
-- ages lie from 18 to 99 in order; so the CHECKs of the table hold of what it lets through.
pub invalid_preferences_iff :
    (req : PreferencesRequest)
    → (invalid_preferences req ≡ false) ↔ ((lo : ℕ) × (hi : ℕ) × IsPreference req lo hi)
unfolding invalid_preferences
invalid_preferences_iff req = (
  λ h.
      let range = ages_in_order req.min_age req.max_age (ground arith) in
      (
        range.0,
        range.1,
        (
          (is_interest_iff req.interested_in).0 (ground arith),
          range.2,
          range.3,
          range.4,
          range.5,
          range.6,
        ),
      ),
  λ h.
      rw ((is_interest_iff req.interested_in).1 h.2.0) rw (h.2.1) rw (h.2.2)
        (ground (arith, h.2.3, h.2.4, h.2.5)),
)
