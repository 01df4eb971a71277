-- ===== src/Server/Payload/Laws.antt =====
-- Which chat messages are accepted.
use match_camp.Base.{
  ℕ, ◌≤◌, String, ◌≡◌, refl, ap, ◌≢◌, ◌↔◌, ◌⊎◌, Bool, true, false, ◌||◌, Option, none, some, [],
  ◌∷◌, arith, eq_iff, length, any, All,
}
use match_camp.Database.Chat.{body_check}
use match_camp.Database.Models.{Uuid, uuid_nil}
use match_camp.Database.Result.{Result, ok, err}
use match_camp.Server.Payload.{
  ChatMessageRequest, JsonValue, Fields, unknown_key, parse_chat_payload_bytes, has_link, is_empty,
  validate_chat_payload, passed, then_check, decode_chat_payload,
}
use match_camp.Text.{Text, codes, trim_space, to_lower}
use match_camp.Text.Contains.{Occurs, contains_iff}

-- The rule for a message, apart from the code that tests it.
pub record IsAcceptable (table : ℕ → ℕ) (req : ChatMessageRequest) : Type 0 where
  pub addressed : req.conversation_id ≢ uuid_nil
  pub some_text : 1 ≤ length (trim_space req.text)
  pub not_long : length (trim_space req.text) ≤ 1000
  pub no_http : ¬ Occurs (codes "http://") (to_lower table (trim_space req.text))
  pub no_https : ¬ Occurs (codes "https://") (to_lower table (trim_space req.text))
  pub no_data : ¬ Occurs (codes "data:") (to_lower table (trim_space req.text))

none_of_three :
    (a b c : Bool) (A B C : Type 0)
    → (a ≡ true) ↔ A
    → (b ≡ true) ↔ B
    → (c ≡ true) ↔ C
    → ((a || b || c) ≡ false) ↔ ((¬ A) × (¬ B) × (¬ C))
none_of_three true b c A B C f g h = (λ e. cc, λ k. absurd (k.0 (f.0 refl)))
none_of_three false true c A B C f g h = (λ e. cc, λ k. absurd (k.1 (g.0 refl)))
none_of_three false false true A B C f g h = (λ e. cc, λ k. absurd (k.2 (h.0 refl)))
none_of_three false false false A B C f g h =
    (λ e. (λ x. cc (f.1 x), λ x. cc (g.1 x), λ x. cc (h.1 x)), λ k. refl)

has_link_iff :
    (t : Text)
    → (has_link t ≡ false) ↔ (
        (¬ Occurs (codes "http://") t)
        × (¬ Occurs (codes "https://") t)
        × (¬ Occurs (codes "data:") t))
unfolding has_link
has_link_iff t =
    none_of_three _ _ _ _ _ _ (contains_iff t (codes "http://")) (contains_iff t (codes "https://"))
      (contains_iff t (codes "data:"))

is_empty_pos : (t : Text) → (is_empty t ≡ false) ↔ (1 ≤ length t)
is_empty_pos [] = (λ h. cc, λ h. absurd (omega arith))
is_empty_pos (c ∷ t) = (λ h. omega arith, λ h. refl)

accepted_parts :
    (table : ℕ → ℕ) (req : ChatMessageRequest)
    → validate_chat_payload table req ≡ ok tt
    → (req.conversation_id ≢ uuid_nil)
      × (1 ≤ length (trim_space req.text))
      × (length (trim_space req.text) ≤ 1000)
      × (has_link (to_lower table (trim_space req.text)) ≡ false)
unfolding validate_chat_payload
accepted_parts table req h = ground (arith, is_empty_pos (trim_space req.text))

pub validate_chat_payload_iff :
    (table : ℕ → ℕ) (req : ChatMessageRequest)
    → (validate_chat_payload table req ≡ ok tt) ↔ IsAcceptable table req
unfolding validate_chat_payload
validate_chat_payload_iff table req = (
  λ h.
      let (addressed, some_text, not_long, plain) = accepted_parts table req h in
      let (no_http, no_https, no_data) = (has_link_iff _).0 plain in
      record {
        addressed = addressed;
        some_text = some_text;
        not_long = not_long;
        no_http = no_http;
        no_https = no_https;
        no_data = no_data;
      },
  λ a.
      let plain = (has_link_iff _).1 (a.no_http, a.no_https, a.no_data) in
      ground
        (arith, plain, a.addressed, a.some_text, a.not_long, is_empty_pos (trim_space req.text)),
)

-- What is accepted passes the CHECK on the column, whose unit is the character too.
pub accepted-body_check :
    (table : ℕ → ℕ) (req : ChatMessageRequest)
    → validate_chat_payload table req ≡ ok tt
    → body_check (trim_space req.text) ≡ true
unfolding body_check
accepted-body_check table req h =
    let r = (validate_chat_payload_iff table req).0 h in ground (arith, r.some_text, r.not_long)

abbrev IsKnownKey : String × JsonValue → Type 0
IsKnownKey (key, _) = (key ≡ "conversation_id") ⊎ (key ≡ "text")

known_keys : (fields : Fields) → any unknown_key fields ≡ false → All IsKnownKey fields
known_keys [] h = tt
known_keys ((key, v) ∷ fields) h = (
  ground (arith, eq_iff key "conversation_id", eq_iff key "text"),
  known_keys fields (ground arith),
)

passed-eq-ok :
    {A : Type 0} (b : A) (c : Result String (Unit {0})) {a : A}
    → passed b c ≡ ok a
    → (b ≡ a) × (c ≡ ok tt)
passed-eq-ok b (ok u) h = (cc, refl)
passed-eq-ok b (err code) h = cc

then_check-eq-ok :
    {A : Type 0} (r : Result String A) (check : A → Result String (Unit {0})) {a : A}
    → then_check r check ≡ ok a
    → (r ≡ ok a) × (check a ≡ ok tt)
then_check-eq-ok (err code) check h = cc
then_check-eq-ok (ok b) check h =
    let (same, fine) = passed-eq-ok b (check b) h in (ap ok same, rw (← same) fine)

parse_none :
    (parse : Text → Option Uuid) (req : ChatMessageRequest)
    → parse_chat_payload_bytes parse none ≢ ok req
unfolding parse_chat_payload_bytes
parse_none parse req h = cc

parsed_keys :
    (parse : Text → Option Uuid) (fields : Fields) (req : ChatMessageRequest)
    → parse_chat_payload_bytes parse (some fields) ≡ ok req
    → any unknown_key fields ≡ false
unfolding parse_chat_payload_bytes
parsed_keys parse fields req h = ground arith

-- A body that is accepted is a JSON object with no field but the two of a text message, and the
-- message in it is acceptable.
pub decode_chat_payload_sound :
    (parse : Text → Option Uuid) (table : ℕ → ℕ) (body : Option (Option Fields))
    (req : ChatMessageRequest)
    → decode_chat_payload parse table body ≡ ok req
    → (fields : Fields) × (body ≡ some (some fields))
      × All IsKnownKey fields
      × IsAcceptable table req
unfolding decode_chat_payload
decode_chat_payload_sound parse table none req h = cc
decode_chat_payload_sound parse table (some none) req h =
    absurd (parse_none parse req (then_check-eq-ok _ _ h).0)
decode_chat_payload_sound parse table (some (some fields)) req h =
    let (parsed, checked) = then_check-eq-ok _ _ h in
    (
      fields,
      refl,
      known_keys fields (parsed_keys parse fields req parsed),
      (validate_chat_payload_iff table req).0 checked,
    )
