-- ===== src/Services/Files/Listing/Single.antt =====
-- The listing by `ls` of a path that names a file.
use mytonstorage_gateway.Common.{
  All, List, Option-cases, [], ap, arith, false, inl, inr, length, length-append, none, refl, ℕ,
  ◌++◌, ◌∙◌, ◌∷◌, ◌≡◌, ◌≢◌,
}
use mytonstorage_gateway.FilePath.{before, slash}
use mytonstorage_gateway.Services.Files.{BagFile}
use mytonstorage_gateway.Services.Files.Listing.{
  file_entry, insert_entry, is_top, last, ls, ls_from, pass, sort_slice, sub_path, visit,
}
use mytonstorage_gateway.Text.{Bytes, cut_prefix, trim}
use mytonstorage_gateway.Text.Laws.{bytes_eq_iff, bytes_eq_refl, cut_prefix_append}

not_below_self : (n : Bytes) → is_top n ≡ false → sub_path n n ≡ none
unfolding sub_path
not_below_self n deep = elim (Option-cases (cut_prefix n (n ++ slash ∷ []))) [
  | inl e ↦ rw (deep, e) refl
  | inr (r, e) ↦ absurd (
      omega (
        arith,
        ap (length {A = ℕ}) (cut_prefix_append n (n ++ slash ∷ []) r e),
        length-append (n ++ slash ∷ []) r,
        length-append n (slash ∷ []),
      ))
]

module _ (n : Bytes) where
  -- The file is not below the path, and is not what it names.
  abbrev pub IsApart : BagFile → Type 0
  IsApart file = (sub_path n (trim slash file.name) ≡ none) × (n ≢ trim slash file.name)

  visit_of_IsApart :
      (found : List Bytes) (file : BagFile) → IsApart file → visit n found file ≡ pass
  unfolding visit
  visit_of_IsApart found file (outside, ne) = ground (arith, bytes_eq_iff n (trim slash file.name))

  visit_named :
      (found : List Bytes) (file : BagFile)
      → is_top n ≡ false
      → n ≡ trim slash file.name
      → visit n found file ≡ last (file_entry n file.size)
  unfolding visit
  visit_named found file deep e = rw (← e, not_below_self n deep, visit, ← e, bytes_eq_refl n) refl

  ls_from-single :
      (found : List Bytes) (before : List BagFile) (file : BagFile) (after : List BagFile)
      → is_top n ≡ false
      → All IsApart before
      → n ≡ trim slash file.name
      → ls_from n found (before ++ file ∷ after) ≡ file_entry n file.size ∷ []
  unfolding ls_from
  ls_from-single found [] file after deep h e = rw (visit_named found file deep e, ls_from) refl
  ls_from-single found (f ∷ before) file after deep (a, h) e =
      rw (visit_of_IsApart found f a, ls_from) (ls_from-single found before file after deep h e)

-- A path other than the top that names a file, no earlier file of the bag lying below it or having
-- its name, is listed as that file alone, with its size; later files do not matter.
pub ls-single :
    (before : List BagFile) (file : BagFile) (after : List BagFile) (path : Bytes)
    → is_top (trim slash path) ≡ false
    → All (IsApart (trim slash path)) before
    → trim slash path ≡ trim slash file.name
    → ls (before ++ file ∷ after) path ≡ file_entry (trim slash path) file.size ∷ []
unfolding ls
ls-single before file after path deep h e =
    ap sort_slice (ls_from-single (trim slash path) [] before file after deep h e)
    ∙ unfold sort_slice insert_entry in refl
