-- ===== src/Server/Response/Laws.antt =====
-- The steps of a handler that read a request.
use match_camp.Base.{String, ◌≡◌, refl, subst, Option, none, some, arith}
use match_camp.Database.Models.{Uuid, Db}
use match_camp.Database.Result.{Result, ok, err}
use match_camp.Server.Response.{decode_json, or_error, lift, parse_route_uuid}
use match_camp.Text.{Text}
use match_camp.World.Ends.{Ends, Ends-weaken}
use match_camp.World.Env.{World}

pub decode_json-Ends :
    {A : Type 0} (P : String → Db → Type 0) (payload : Option A) (w : World)
    → P "invalid_json" w.db
    → Ends (λ req db'. (db' ≡ w.db) × (payload ≡ some req)) P (decode_json payload w)
unfolding decode_json
decode_json-Ends P none w stop = stop
decode_json-Ends P (some req) w stop = (refl, refl)

pub lift-Ends :
    {A : Type 0} (P : String → Db → Type 0) (r : Result String A) (w : World)
    → ((code : String) → r ≡ err code → P code w.db)
    → Ends (λ a db'. (db' ≡ w.db) × (r ≡ ok a)) P (lift r w)
unfolding lift
lift-Ends P (ok a) w stop = (refl, refl)
lift-Ends P (err code) w stop = stop code refl

pub or_error-ok :
    {A : Type 0} (o : Option A) (code : String) (a : A) → or_error o code ≡ ok a → o ≡ some a
or_error-ok none code a h = absurd (cc h)
or_error-ok (some b) code a h = ground arith

pub or_error-err :
    {A : Type 0} (o : Option A) (code c : String) → or_error o code ≡ err c → code ≡ c
or_error-err none code c h = ground arith
or_error-err (some b) code c h = absurd (cc h)

pub parse_route_uuid-Ends :
    (P : String → Db → Type 0) (parse : Text → Option Uuid) (param : Text) (w : World)
    → P "invalid_uuid" w.db
    → Ends (λ id db'. (db' ≡ w.db) × (parse param ≡ some id)) P (parse_route_uuid parse param w)
unfolding parse_route_uuid
parse_route_uuid-Ends P parse param w stop =
    Ends-weaken _ _ _ _ (lift (or_error (parse param) "invalid_uuid") w)
      (λ id db' k. (k.0, or_error-ok (parse param) "invalid_uuid" id k.1)) (λ _ _ k. k)
      (lift-Ends P (or_error (parse param) "invalid_uuid") w
        (λ code e. subst (λ c. P c w.db) (or_error-err (parse param) "invalid_uuid" code e) stop))
