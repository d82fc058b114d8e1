-- ===== src/Services/Files/Listing.antt =====
-- `ls` of pkg/services/files/service.go: the listing of a directory of a bag.
pub mod Sort
pub mod Complete
pub mod Single
pub mod Sound
use mytonstorage_gateway.Common.{
  Bool, List, Option, [], any, false, if◌then◌else◌, none, not, some, true, ℕ, ◌&&◌, ◌++◌, ◌||◌,
  ◌∷◌,
}
use mytonstorage_gateway.FilePath.{base, dot, slash}
use mytonstorage_gateway.Services.Files.{BagFile, File}
use mytonstorage_gateway.Text.{Bytes, bytes_eq, bytes_lt, contains_byte, cut_prefix, split, trim}

-- What the loop of `ls` does with a file: nothing, append an entry, append a folder, or append an
-- entry and leave the loop.
pub data Visit : Type 0 where
  pass : Visit
  entry : File → Visit
  folder : Bytes → Visit
  last : File → Visit

abbrev pub folder_entry : Bytes → File
folder_entry d = record { name = d; size = 0; is_folder = true }

abbrev pub file_entry : Bytes → ℕ → File
file_entry name size = record { name = base name; size = size; is_folder = false }

-- `foundDirs[dirName]`
abbrev pub found_dir : List Bytes → Bytes → Bool
found_dir found d = any (λ e. bytes_eq e d) found

-- `strings.Split(sub, "/")[0]`
abbrev pub first_part : List Bytes → Bytes
first_part [] = []
first_part (w ∷ ws) = w

-- `normalizedPath == "." || normalizedPath == ""`
abbrev pub is_top : Bytes → Bool
is_top normalized = bytes_eq normalized dot || bytes_eq normalized []

-- What is left of a file's name below the directory.
unfoldable pub sub_path : Bytes → Bytes → Option Bytes
sub_path normalized name =
    if is_top normalized then some name else cut_prefix name (normalized ++ slash ∷ [])

-- The two branches of the loop for a file below the directory.
unfoldable pub visit_below : List Bytes → Bytes → ℕ → Visit
visit_below found sub size =
    let d = first_part (split slash sub) in
    if contains_byte slash sub
    then (if found_dir found d then pass else folder d)
    else entry (file_entry sub size)

unfoldable pub visit : Bytes → List Bytes → BagFile → Visit
visit normalized found file =
    let name = trim slash file.name in
    elim (sub_path normalized name) [
      | some sub ↦ visit_below found sub file.size
      | none ↦ if bytes_eq normalized name then last (file_entry name file.size) else pass
    ]

-- The loop of `ls`, from the directories found so far on.
unfoldable pub ls_from : Bytes → List Bytes → List BagFile → List File
ls_from normalized found [] = []
ls_from normalized found (file ∷ files) = elim (visit normalized found file) [
  | pass ↦ ls_from normalized found files
  | entry e ↦ e ∷ ls_from normalized found files
  | folder d ↦ folder_entry d ∷ ls_from normalized (d ∷ found) files
  | last e ↦ e ∷ []
]

-- The order that `ls` hands to `sort.Slice`.
unfoldable pub less : File → File → Bool
less a b =
    if a.is_folder && not b.is_folder
    then true
    else if not a.is_folder && b.is_folder
    then false
    else bytes_lt a.name b.name

-- `sort.Slice`, as an insertion sort; the order of equal elements, which Go leaves open, is not
-- used by any theorem.
unfoldable pub insert_entry : File → List File → List File
unfolding less
insert_entry a [] = a ∷ []
insert_entry a (b ∷ bs) =
    let rest = insert_entry a bs in if less b a then b ∷ rest else a ∷ (b ∷ bs)

unfoldable pub sort_slice : List File → List File
unfolding insert_entry
sort_slice [] = []
sort_slice (a ∷ as') = insert_entry a (sort_slice as')

unfoldable pub ls : List BagFile → Bytes → List File
ls files path = sort_slice (ls_from (trim slash path) [] files)
