-- ===== src/Ratelimit/Laws.antt =====
-- The keys of a limiter do not disturb one another.
use match_camp.Base.{String, ◌≡◌, refl, ◌≢◌, List, [], ◌∷◌, arith, str_eq, eq_iff, if◌then◌else◌}
use match_camp.Database.Models.{Time}
use match_camp.Ratelimit.{Allows, KeyedLimiter, calls_of, record_call, allow}

calls_of-record_call :
    (key other : String) (now : Time) (m : List (String × List Time))
    → calls_of other (record_call key now m)
      ≡ (if str_eq key other then now ∷ calls_of other m else calls_of other m)
unfolding calls_of record_call
calls_of-record_call key other now [] = refl
calls_of-record_call key other now ((k, calls) ∷ m) =
    ground
      (arith, eq_iff k key, eq_iff k other, eq_iff key other, calls_of-record_call key other now m)

-- A call for one key adds itself to the calls that count against that key, and leaves the answer
-- that any other key gets at any time as it was.
pub allow_isolated :
    (allows : Allows) (kl : KeyedLimiter) (key other : String) (now later : Time)
    → (key ≢ other
        → (allow allows (allow allows kl key now).1 other later).0
          ≡ (allow allows kl other later).0)
      × ((allow allows (allow allows kl key now).1 key later).0
          ≡ allows kl.r kl.b (now ∷ calls_of key kl.limiters) later)
unfolding allow
allow_isolated allows kl key other now later = ground (
  arith,
  calls_of-record_call key other now kl.limiters,
  calls_of-record_call key key now kl.limiters,
  eq_iff key other,
  eq_iff key key,
)
