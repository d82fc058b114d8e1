-- ===== src/Tests/Listings.antt =====
-- Listings of the sample bag.
use mathlib.Core.List.{Memᴰ, Perm}
use mytonstorage_gateway.Common.{All, List, [], inr, refl, ◌∷◌, ◌≡◌, ◌≤◌}
use mytonstorage_gateway.FilePath.{base, before, slash, split_file}
use mytonstorage_gateway.Services.Files.{File}
use mytonstorage_gateway.Services.Files.Listing.{
  file_entry, folder_entry, insert_entry, less, ls, ls_from, sort_slice, sub_path, visit,
  visit_below,
}
use mytonstorage_gateway.Services.Files.Listing.Complete.{
  folder_count, listed_as, ls-folder_once, ls_complete,
}
use mytonstorage_gateway.Services.Files.Listing.Single.{ls-single}
use mytonstorage_gateway.Services.Files.Listing.Sort.{IsSorted, ls-IsSorted}
use mytonstorage_gateway.Services.Files.Listing.Sound.{Source, ls-Source}
use mytonstorage_gateway.Tests.Sample.{bag_file, sample_files}
use mytonstorage_gateway.Text.{bytes_lt, cut_prefix, split, text, trim, trim_left}

abbrev top_listing : List File
top_listing =
    folder_entry (text "docs")
    ∷ file_entry (text "a.txt") 3
    ∷ file_entry (text "readme.txt") 12
    ∷ []

list_code : Unit {0}
unfolding ls ls_from visit visit_below sub_path cut_prefix trim trim_left split base split_file
    before sort_slice insert_entry less bytes_lt
list_code = tt

top_test : ls sample_files (text ".") ≡ top_listing
unfolding list_code
top_test = refl

docs_test :
    ls sample_files (text "docs/") ≡ folder_entry (text "a") ∷ file_entry (text "b.txt") 7 ∷ []
unfolding list_code
docs_test = refl

ls-Source_example :
    All (Source (trim slash (text "docs")) sample_files) (ls sample_files (text "docs"))
ls-Source_example = ls-Source sample_files (text "docs")

ls-folder_once_example : folder_count (text "docs") (ls sample_files (text ".")) ≤ 1
ls-folder_once_example = ls-folder_once sample_files (text ".") (text "docs")

ls_complete_example : Memᴰ (listed_as (text "b.txt") 7) (ls sample_files (text "docs"))
unfolding list_code
ls_complete_example =
    ls_complete sample_files (text "docs") (bag_file "docs/b.txt" 7) (text "b.txt")
      (inr (λ e. cc), (inr (λ e. cc), (inr (λ e. cc), (inr (λ e. cc), tt))))
      (Memᴰ.tail (Memᴰ.head refl)) (inr (refl, refl))

ls-single_test :
    ls (bag_file "x" 1 ∷ bag_file "docs/b.txt" 7 ∷ []) (text "docs/b.txt")
    ≡ file_entry (text "docs/b.txt") 7 ∷ []
unfolding list_code
ls-single_test =
    ls-single (bag_file "x" 1 ∷ []) (bag_file "docs/b.txt" 7) [] (text "docs/b.txt") refl
      ((refl, λ e. cc), tt) refl

ls-IsSorted_test :
    IsSorted (ls sample_files (text "."))
    × Perm (ls sample_files (text ".")) (ls_from (trim slash (text ".")) [] sample_files)
ls-IsSorted_test = ls-IsSorted sample_files (text ".")
