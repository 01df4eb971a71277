-- ===== src/Server/Paging/Laws.antt =====
-- The bounds of a page.
use match_camp.Base.{ℕ, ◌-◌, ◌%◌, ◌^◌, ◌≤◌, ◌<◌, ◌≡◌, Option, none, some, arith, ℤ, pos, negsuc}
use match_camp.Server.Paging.{page_limit, parse_pagination, int32}
use match_camp.Text.{Text}
use match_camp.Text.Atoi.{atoi}

page_limit_bounds :
    (default_limit max_limit : ℕ) (n : Option ℤ)
    → 0 < default_limit
    → default_limit ≤ max_limit
    → (0 < page_limit default_limit max_limit n)
      × (page_limit default_limit max_limit n ≤ max_limit)
page_limit_bounds default_limit max_limit none h k = (h, k)
page_limit_bounds default_limit max_limit (some (pos n)) h k = ground arith
page_limit_bounds default_limit max_limit (some (negsuc n)) h k = (h, k)

int32_small : (n : ℕ) → n < 2 ^ 31 → int32 n ≡ pos n
unfolding int32
int32_small n h = let same : n % 2 ^ 32 ≡ n = omega arith in rw same (ground arith)

-- Whatever the query says, the limit of a page is between 1 and the most that the endpoint allows,
-- so that its conversion to 32 bits keeps it; an offset below 2^31 is kept too.
pub parse_pagination_bounds :
    (limit offset : Text) (default_limit max_limit : ℕ)
    → 0 < default_limit
    → default_limit ≤ max_limit
    → max_limit < 2 ^ 31
    → let (l, o) = parse_pagination limit offset default_limit max_limit in
      (0 < l) × (l ≤ max_limit) × (int32 l ≡ pos l) × (o < 2 ^ 31 → int32 o ≡ pos o)
unfolding parse_pagination
parse_pagination_bounds limit offset default_limit max_limit h k m =
    let (low, high) = page_limit_bounds default_limit max_limit (atoi limit) h k in
    (low, high, int32_small _ (omega arith), int32_small _)

-- An offset from 2^31 up to 2^32 becomes negative on its way to the database.
pub int32_wraps : (n : ℕ) → 2 ^ 31 ≤ n → n < 2 ^ 32 → (k : ℕ) × (int32 n ≡ negsuc k)
unfolding int32
int32_wraps n h k = (2 ^ 32 - n - 1, ground arith)
