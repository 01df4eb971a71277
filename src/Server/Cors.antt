-- ===== src/Server/Cors.antt =====
-- internal/server/server.go: `cors`.
pub mod Origins
use match_camp.Base.{
  ℕ, String, Bool, true, false, not, ◌&&◌, ◌||◌, Option, none, some, List, [], ◌∷◌, map, str_eq,
  if◌then◌else◌,
}
use match_camp.Server.Auth.{in_domains}
use match_camp.Server.Payload.{is_empty}
use match_camp.Text.{Text, to_lower}

-- the keys of the set of origins, as New fills it
abbrev pub origin_set : (ℕ → ℕ) → List Text → List Text
origin_set unicode_lower origins = map (to_lower unicode_lower) origins

abbrev pub no_origins : List Text → Bool
no_origins [] = true
no_origins (o ∷ os) = false

-- an origin that the response allows, with credentials
unfoldable pub origin_allowed : (ℕ → ℕ) → List Text → Text → Bool
origin_allowed unicode_lower allowed_origins origin =
    not (is_empty origin)
    && (no_origins allowed_origins || in_domains (to_lower unicode_lower origin) allowed_origins)

-- What the handler does with a request: the origin that it allows, and whether it answers itself,
-- with 204, or passes the request on.
pub record CorsAnswer : Type 0 where
  pub allow_origin : Option Text
  pub answered : Bool

unfoldable pub cors : (ℕ → ℕ) → List Text → Text → String → CorsAnswer
cors unicode_lower allowed_origins origin method = record {
  allow_origin = if origin_allowed unicode_lower allowed_origins origin then some origin else none;
  answered = str_eq method "OPTIONS";
}
