-- ===== src/Text/Paths.antt =====
-- Go's `path.Clean`, and `filepath.Abs` and `filepath.Join` on Unix, by the rules of their
-- documentation: empty parts and "." go, ".." takes the part before it, and stays only at the
-- start of a path that is not rooted.
pub mod Laws
use match_camp.Base.{
  Bool, true, false, not, ◌||◌, List, [], ◌∷◌, ◌++◌, reverse, ◌==◌, if◌then◌else◌,
}
use match_camp.Text.{Text, text_eq, split}
use match_camp.Text.Split.{rejoined}

abbrev pub up : Text
up = b'.' ∷ b'.' ∷ []

abbrev pub is_empty_text : Text → Bool
is_empty_text [] = true
is_empty_text (c ∷ s) = false

-- what ".." does to the parts kept so far, the last first
abbrev pub go_up : Bool → List Text → List Text
go_up true [] = []
go_up false [] = up ∷ []
go_up rooted (part ∷ kept) = if text_eq part up then up ∷ part ∷ kept else kept

-- the parts kept so far, the last first
unfoldable pub push_part : Bool → List Text → Text → List Text
push_part rooted kept part =
    if is_empty_text part || text_eq part (b'.' ∷ [])
    then kept
    else if not (text_eq part up)
    then part ∷ kept
    else go_up rooted kept

unfoldable pub clean_parts : Bool → List Text → List Text → List Text
clean_parts rooted kept [] = kept
clean_parts rooted kept (part ∷ parts) = clean_parts rooted (push_part rooted kept part) parts

abbrev pub is_rooted : Text → Bool
is_rooted [] = false
is_rooted (c ∷ s) = c == b'/'

abbrev pub or_dot : Text → Text
or_dot [] = b'.' ∷ []
or_dot (c ∷ s) = c ∷ s

-- path.Clean
unfoldable pub clean : Text → Text
clean s =
    let kept = rejoined b'/' (reverse (clean_parts (is_rooted s) [] (split b'/' s))) in
    if is_rooted s then b'/' ∷ kept else or_dot kept

-- filepath.Join of two parts, the second of them not empty
unfoldable pub join_path : Text → Text → Text
join_path [] name = clean name
join_path (c ∷ dir) name = clean ((c ∷ dir) ++ (b'/' ∷ name))

-- filepath.Abs, in a working directory
unfoldable pub absolute : Text → Text → Text
absolute cwd s = if is_rooted s then clean s else join_path cwd s
