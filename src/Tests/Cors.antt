-- ===== src/Tests/Cors.antt =====
-- Witnesses about CORS and the settings.
use match_camp.Base.{String, ◌≡◌, refl, ◌↔◌, true, some, [], ◌∷◌}
use match_camp.Config.{env_int64, lowered_parts, split_csv}
use match_camp.Server.Cors.{origin_set, cors}
use match_camp.Server.Cors.Origins.{IsAdmitted, cors_iff}
use match_camp.Text.{codes, is_space, trim_left_space, trim_space, lower_rune, to_lower, split}
use match_camp.Text.Atoi.{digits_value, magnitude, atoi}

abbrev get_method : String
get_method = "GET"

cors_iff_example :
    let answer =
      cors
        (λ c. c)
        (origin_set (λ c. c) (codes "https://App.br" ∷ []))
        (codes "https://app.br")
        get_method in
    ((answer.allow_origin ≡ some (codes "https://app.br"))
      ↔ IsAdmitted (λ c. c) (codes "https://App.br" ∷ []) (codes "https://app.br"))
    × ((answer.answered ≡ true) ↔ (get_method ≡ "OPTIONS"))
cors_iff_example =
    cors_iff (λ c. c) (codes "https://App.br" ∷ []) (codes "https://app.br") get_method

-- Blank items of a list are left out.
two_domains : split_csv (λ c. c) (codes " Uni.br, ,b.org,") ≡ codes "uni.br" ∷ codes "b.org" ∷ []
unfolding split_csv lowered_parts split to_lower lower_rune trim_space trim_left_space is_space
two_domains = refl

-- A number that is not above 0 gives the default.
default_size : env_int64 (λ key. codes "-5") "MAX_PROFILE_PHOTO_BYTES" 7 ≡ 7
unfolding env_int64 atoi magnitude digits_value trim_space
default_size = refl
