-- ===== src/Server/Chat/Order.antt =====
-- The order of a page of messages.
use match_camp.Base.{
  ℕ, ◌≤◌, ◌<◌, ◌≡◌, refl, true, false, Option, none, some, List, arith, ℤ, pos, negsuc, length,
  take, filter, All, All-map_of, filter-All, sort_by, All-sort_by, Pairwise, All-take,
  Pairwise-take, length-take-le, Pairwise-reverse, Pairwise-sort_by, Pairwise-map_of,
}
use match_camp.Database.Chat.{in_page, newest_first, list_messages_paginated}
use match_camp.Database.Models.{Uuid, Time, Message, Db}
use match_camp.Database.Result.{ok}
use match_camp.Server.Auth.Lifecycle.{at}
use match_camp.Server.Paging.{page_limit, parse_message_limit}
use match_camp.Server.Paging.Reversal.{reverse_rows, reverse_rows_lem}
use match_camp.Text.{Text}
use match_camp.Text.Atoi.{atoi}

parse_message_limit_le : (limit : Text) → parse_message_limit limit ≤ 100
unfolding parse_message_limit
parse_message_limit_le limit = go (atoi limit)
  where
    go : (n : Option ℤ) → page_limit 50 100 n ≤ 100
    go none = omega arith
    go (some (pos n)) = ground arith
    go (some (negsuc n)) = omega arith

-- before the cursor, where there is one
abbrev pub IsBefore : Option Time → Time → Type 0
IsBefore none at = Unit
IsBefore (some t) at = at < t

in_page_lem :
    (conversation_id : Uuid) (cursor : Option Time) (m : Message)
    → in_page conversation_id cursor m ≡ true
    → (m.conversation_id ≡ conversation_id) × IsBefore cursor m.created_at
unfolding in_page
in_page_lem conversation_id none m h = (ground (arith, h), tt)
in_page_lem conversation_id (some t) m h = (ground (arith, h), ground (arith, h))

-- A page as `messages` answers it, ListMessagesPaginated reversed, goes from the oldest message to
-- the newest, has at most 100 messages, and all are of the conversation, from before the cursor where there
-- is one.
pub page_in_order :
    (conversation_id : Uuid) (cursor : Option Time) (limit : Text) (db : Db)
    → (rows : List Message) × (list_messages_paginated conversation_id cursor
          (parse_message_limit limit)
          db
        ≡ ok (rows, db))
      × Pairwise (λ a b. a.created_at ≤ b.created_at) (reverse_rows rows)
      × (length rows ≤ 100)
      × All (λ m. (m.conversation_id ≡ conversation_id) × IsBefore cursor m.created_at) rows
unfolding list_messages_paginated
page_in_order conversation_id cursor limit db = (
  page,
  refl,
  rw (reverse_rows_lem page) (
      Pairwise-reverse (λ a b. b.created_at ≤ a.created_at) page
        (Pairwise-take _ most sorted (
          Pairwise-map_of newest_first_le sorted
            (Pairwise-sort_by newest_first total trans found)))),
  limit_bound,
  All-take _ most sorted (
      All-sort_by newest_first _ found
        (All-map_of _ _ (in_page_lem conversation_id cursor) found (filter-All _ db.messages))),
)
  where
    most : ℕ
    most = parse_message_limit limit

    found : List Message
    found = filter (in_page conversation_id cursor) db.messages

    sorted : List Message
    sorted = sort_by newest_first found

    page : List Message
    page = take most sorted

    total : (a b : Message) → newest_first a b ≡ false → newest_first b a ≡ true
    total a b h = ground (arith, h)

    trans :
        (a b c : Message)
        → newest_first a b ≡ true
        → newest_first b c ≡ true
        → newest_first a c ≡ true
    trans a b c h k = ground (arith, h, k)

    newest_first_le : (a b : Message) → newest_first a b ≡ true → b.created_at ≤ a.created_at
    newest_first_le a b h = ground (arith, h)

    limit_bound : length page ≤ 100
    limit_bound = omega (arith, length-take-le most sorted, parse_message_limit_le limit)
