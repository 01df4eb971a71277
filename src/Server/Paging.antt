-- ===== src/Server/Paging.antt =====
-- internal/server/server.go: `parsePagination`, `parseMessagePagination`, and a conversion of theirs.
pub mod Laws
pub mod Reversal
use match_camp.Base.{
  ℕ, ◌-◌, ◌%◌, ◌^◌, ◌&&◌, Option, none, some, ℤ, pos, negsuc, ltb, leb, if◌then◌else◌,
}
use match_camp.Text.{Text}
use match_camp.Text.Atoi.{atoi}

abbrev pub page_limit : ℕ → ℕ → Option ℤ → ℕ
page_limit default most none = default
page_limit default most (some (pos n)) = if ltb 0 n && leb n most then n else default
page_limit default most (some (negsuc n)) = default

abbrev pub page_offset : Option ℤ → ℕ
page_offset none = 0
page_offset (some (pos n)) = n
page_offset (some (negsuc n)) = 0

-- A parameter that is missing is the empty text, which `Atoi` refuses.
unfoldable pub parse_pagination : Text → Text → ℕ → ℕ → ℕ × ℕ
parse_pagination limit offset default_limit max_limit =
    (page_limit default_limit max_limit (atoi limit), page_offset (atoi offset))

-- `int32(n)` of a non-negative int: the low 32 bits as a signed number
unfoldable pub int32 : ℕ → ℤ
int32 n = let low = n % 2 ^ 32 in if ltb low (2 ^ 31) then pos low else negsuc (2 ^ 32 - low - 1)

-- The limit of parseMessagePagination; its cursor is what `time.Parse` made of the parameter.
unfoldable pub parse_message_limit : Text → ℕ
parse_message_limit limit = page_limit 50 100 (atoi limit)
