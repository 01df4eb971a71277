-- ===== src/Ratelimit.antt =====
-- internal/server/ratelimit.go: one rate limiter for each key.
-- `rate.Limiter` is a package's: what `Allow()` answers is an argument, a function of the limiter's
-- rate and burst, of the instants of the earlier calls on it, and of the instant of this call. So a
-- limiter is the list of those instants.
pub mod Laws
use match_camp.Base.{ℕ, String, Bool, List, [], ◌∷◌, str_eq, if◌then◌else◌}
use match_camp.Database.Models.{Time}

-- interval between tokens, burst, earlier calls, now
abbrev pub Allows : Type 0
Allows = ℕ → ℕ → List Time → Time → Bool

pub record KeyedLimiter : Type 0 where
  pub limiters : List (String × List Time)
  pub r : ℕ
  pub b : ℕ

-- newKeyedLimiter
abbrev pub new_keyed_limiter : ℕ → ℕ → KeyedLimiter
new_keyed_limiter r b = record { limiters = []; r = r; b = b }

-- A read of the map; a key that is missing gets a new limiter, on which no call has been made.
unfoldable pub calls_of : String → List (String × List Time) → List Time
calls_of key [] = []
calls_of key ((k, calls) ∷ m) = if str_eq k key then calls else calls_of key m

unfoldable pub record_call : String → Time → List (String × List Time) → List (String × List Time)
record_call key now [] = (key, now ∷ []) ∷ []
record_call key now ((k, calls) ∷ m) =
    if str_eq k key then (k, now ∷ calls) ∷ m else (k, calls) ∷ record_call key now m

unfoldable pub allow : Allows → KeyedLimiter → String → Time → Bool × KeyedLimiter
unfolding calls_of record_call
allow allows kl key now = (
  allows kl.r kl.b (calls_of key kl.limiters) now,
  record kl { limiters = record_call key now kl.limiters },
)
