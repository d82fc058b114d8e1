-- ===== src/FilePath.antt =====
-- The functions of Go's `path/filepath` (for Unix) that the gateway calls.
pub mod Clean
pub mod Join
use mathlib.Core.List.{reverse}
use mytonstorage_gateway.Common.{Bool, List, [], false, if◌then◌else◌, true, ℕ, ◌==◌, ◌||◌, ◌∷◌}
use mytonstorage_gateway.Text.{Bytes, bytes_eq, contains_byte, join, split, trim_left}

abbrev pub slash : ℕ
slash = b'/'

abbrev pub dot : Bytes
dot = b'.' ∷ []

abbrev pub dot_dot : Bytes
dot_dot = b'.' ∷ b'.' ∷ []

-- A part ".." can be taken back from the stack, unless its top is itself a leading "..".
abbrev pub pop_part : Bool → List Bytes → List Bytes
pop_part rooted [] = if rooted then [] else dot_dot ∷ []
pop_part rooted (w ∷ stack) = if bytes_eq w dot_dot then dot_dot ∷ (w ∷ stack) else stack

-- One element of the path in `filepath.Clean`; the stack has its top at the head.
unfoldable pub clean_step : Bool → List Bytes → Bytes → List Bytes
clean_step rooted stack part =
    if bytes_eq part [] || bytes_eq part dot
    then stack
    else if bytes_eq part dot_dot
    then pop_part rooted stack
    else part ∷ stack

unfoldable pub clean_from : Bool → List Bytes → List Bytes → List Bytes
clean_from rooted stack [] = stack
clean_from rooted stack (part ∷ parts) = clean_from rooted (clean_step rooted stack part) parts

abbrev pub is_rooted : Bytes → Bool
is_rooted [] = false
is_rooted (c ∷ s) = c == slash

-- The elements of the cleaned path.
unfoldable pub clean_parts : Bytes → List Bytes
unfolding clean_from clean_step
clean_parts p = reverse (clean_from (is_rooted p) [] (split slash p))

-- The text of a cleaned path with the given elements.
unfoldable pub render : Bool → List Bytes → Bytes
render true parts = slash ∷ join (slash ∷ []) parts
render false [] = dot
render false (w ∷ ws) = join (slash ∷ []) (w ∷ ws)

-- `filepath.Clean`
unfoldable pub clean : Bytes → Bytes
unfolding clean_parts render
clean p = render (is_rooted p) (clean_parts p)

-- `filepath.Join`: leading empty elements are skipped, and the rest is joined and cleaned.
unfoldable pub join_path : List Bytes → Bytes
unfolding clean
join_path [] = []
join_path ([] ∷ elems) = join_path elems
join_path ((c ∷ s) ∷ elems) = clean (join (slash ∷ []) ((c ∷ s) ∷ elems))

-- The bytes before the first `c`.
unfoldable pub before : ℕ → Bytes → Bytes
before c [] = []
before c (a ∷ s) = let rest = before c s in if a == c then [] else a ∷ rest

-- The bytes from the first `c` on.
unfoldable pub starting_at : ℕ → Bytes → Bytes
starting_at c [] = []
starting_at c (a ∷ s) = let rest = starting_at c s in if a == c then a ∷ s else rest

-- The file of `filepath.Split`: what follows the last slash.
unfoldable pub split_file : Bytes → Bytes
unfolding before
split_file p = reverse (before slash (reverse p))

-- `filepath.Dir`
unfoldable pub dir : Bytes → Bytes
unfolding starting_at clean
dir p = clean (reverse (starting_at slash (reverse p)))

-- `filepath.Base`
unfoldable pub base : Bytes → Bytes
unfolding split_file
base [] = dot
base (c ∷ s) =
    let file = split_file (reverse (trim_left slash (reverse (c ∷ s)))) in
    if bytes_eq file [] then slash ∷ [] else file

-- `filepath.Ext`: from the last dot of the last element on.
unfoldable pub ext : Bytes → Bytes
unfolding before
ext p =
    let file = before slash (reverse p) in
    if contains_byte b'.' file then b'.' ∷ reverse (before b'.' file) else []
