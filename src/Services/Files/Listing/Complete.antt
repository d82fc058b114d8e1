-- ===== src/Services/Files/Listing/Complete.antt =====
-- The files and the folders that a listing by `ls` of pkg/services/files/service.go holds.
use mathlib.Core.List.{Memᴰ, append_assoc}
use mathlib.Core.Path.{subst}
use mytonstorage_gateway.Common.{
  All, Bool-cases, List, [], ap, arith, false, if◌then◌else◌, inl, inr, refl, some, suc, sym, true,
  ℕ, ◌&&◌, ◌++◌, ◌∙◌, ◌∷◌, ◌≡◌, ◌≢◌, ◌≤◌, ◌⊎◌,
}
use mytonstorage_gateway.FilePath.{slash}
use mytonstorage_gateway.FilePath.Join.{below}
use mytonstorage_gateway.Services.Files.{BagFile, File}
use mytonstorage_gateway.Services.Files.Listing.{
  Visit, entry, file_entry, first_part, folder, folder_entry, found_dir, insert_entry, is_top, last,
  less, ls, ls_from, pass, sort_slice, sub_path, visit, visit_below,
}
use mytonstorage_gateway.Services.Files.Listing.Sound.{Below}
use mytonstorage_gateway.Text.{Bytes, bytes_eq, contains_byte, cut_prefix, split, trim}
use mytonstorage_gateway.Text.Laws.{bytes_eq_iff, cut_prefix-append}

Memᴰ-insert_entry : (e a : File) (bs : List File) → Memᴰ e (a ∷ bs) → Memᴰ e (insert_entry a bs)
unfolding insert_entry
Memᴰ-insert_entry e a [] m = m
Memᴰ-insert_entry e a (b ∷ bs) m = elim (Bool-cases (less b a)) [
  | inl later ↦ rw later (go (λ q. Memᴰ-insert_entry e a bs q) m)
  | inr first ↦ rw first m
]
  where
    go :
        (Memᴰ e (a ∷ bs) → Memᴰ e (insert_entry a bs))
        → Memᴰ e (a ∷ b ∷ bs)
        → Memᴰ e (b ∷ insert_entry a bs)
    go ih (Memᴰ.head p) = Memᴰ.tail (ih (Memᴰ.head p))
    go ih (Memᴰ.tail (Memᴰ.head p)) = Memᴰ.head p
    go ih (Memᴰ.tail (Memᴰ.tail q)) = Memᴰ.tail (ih (Memᴰ.tail q))

Memᴰ-sort_slice : (e : File) (xs : List File) → Memᴰ e xs → Memᴰ e (sort_slice xs)
unfolding sort_slice
Memᴰ-sort_slice e [] m = elim m [ ]
Memᴰ-sort_slice e (a ∷ xs) (Memᴰ.head p) = Memᴰ-insert_entry e a (sort_slice xs) (Memᴰ.head p)
Memᴰ-sort_slice e (a ∷ xs) (Memᴰ.tail m) =
    Memᴰ-insert_entry e a (sort_slice xs) (Memᴰ.tail (Memᴰ-sort_slice e xs m))

-- How often a folder of that name is listed.
abbrev pub folder_count : Bytes → List File → ℕ
folder_count d [] = 0
folder_count d (e ∷ es) =
    let rest = folder_count d es in if e.is_folder && bytes_eq e.name d then suc rest else rest

folder_count-insert_entry :
    (d : Bytes) (a : File) (bs : List File)
    → folder_count d (insert_entry a bs) ≡ folder_count d (a ∷ bs)
unfolding insert_entry
folder_count-insert_entry d a [] = refl
folder_count-insert_entry d a (b ∷ bs) = elim (Bool-cases (less b a)) [
  | inl later ↦ rw later (ground (arith, folder_count-insert_entry d a bs))
  | inr first ↦ rw first refl
]

folder_count-sort_slice :
    (d : Bytes) (xs : List File) → folder_count d (sort_slice xs) ≡ folder_count d xs
unfolding sort_slice
folder_count-sort_slice d [] = refl
folder_count-sort_slice d (a ∷ xs) =
    ground (arith, folder_count-insert_entry d a (sort_slice xs), folder_count-sort_slice d xs)

module _ (n : Bytes) where
  -- A folder is listed at most once, and not again if it was found before.
  abbrev Room : Bytes → List Bytes → ℕ → Type 0
  Room d found k = (k ≤ 1) × (found_dir found d ≡ true → k ≡ 0)

  -- An entry that is no folder, or a folder that is new.
  abbrev IsFresh : List Bytes → Visit → Type 0
  IsFresh found pass = Unit
  IsFresh found (entry e) = e.is_folder ≡ false
  IsFresh found (folder d) = found_dir found d ≡ false
  IsFresh found (last e) = e.is_folder ≡ false

  visit-IsFresh : (found : List Bytes) (file : BagFile) → IsFresh found (visit n found file)
  unfolding visit visit_below
  visit-IsFresh found file = ground arith

  ls_from-Room :
      (d : Bytes) (found : List Bytes) (files : List BagFile)
      → Room d found (folder_count d (ls_from n found files))
  unfolding ls_from
  ls_from-Room d found [] = (omega arith, λ _. refl)
  ls_from-Room d found (file ∷ files) =
      go (visit n found file) (visit-IsFresh found file) (λ found'. ls_from-Room d found' files)
    where
      go :
          (v : Visit)
          → IsFresh found v
          → ((found' : List Bytes) → Room d found' (folder_count d (ls_from n found' files)))
          → Room d found (
              folder_count d (elim v [
                | pass ↦ ls_from n found files
                | entry e ↦ e ∷ ls_from n found files
                | folder c ↦ folder_entry c ∷ ls_from n (c ∷ found) files
                | last e ↦ e ∷ []
              ]))
      go pass s rest = rest found
      go (entry e) s rest = rw s (rest found)
      go (folder c) s rest = ground (arith, rest (c ∷ found), bytes_eq_iff c d)
      go (last e) s rest = rw s (omega arith, λ _. refl)

-- No folder is listed twice, however many files lie below it.
pub ls-folder_once : (files : List BagFile) (path d : Bytes) → folder_count d (ls files path) ≤ 1
unfolding ls
ls-folder_once files path d =
    rw (folder_count-sort_slice d) (ls_from-Room (trim slash path) d [] files).0

-- The entry for a file that reads `sub` below the directory.
abbrev pub listed_as : Bytes → ℕ → File
listed_as sub size =
    if contains_byte slash sub
    then folder_entry (first_part (split slash sub))
    else file_entry sub size

module _ (n : Bytes) where
  -- The path does not name the file itself.
  abbrev pub IsNotNamed : BagFile → Type 0
  IsNotNamed file = (is_top n ≡ true) ⊎ (n ≢ trim slash file.name)

  sub_path_of_Below : (name sub : Bytes) → Below n name sub → sub_path n name ≡ some sub
  unfolding sub_path
  sub_path_of_Below name sub (inl (top, e)) = rw top (ap some e)
  sub_path_of_Below name sub (inr (deep, e)) =
      rw (deep, e)
        ((ap (λ s. cut_prefix s (n ++ slash ∷ [])) (sym (append_assoc n (slash ∷ []) sub)))
          ∙ cut_prefix-append (n ++ slash ∷ []) sub)

  -- A visit of a file that the path does not name leaves the loop going.
  abbrev Goes : Visit → Type 0
  Goes pass = Unit
  Goes (entry e) = Unit
  Goes (folder d) = Unit
  Goes (last e) = ⊥

  visit-Goes : (found : List Bytes) (file : BagFile) → IsNotNamed file → Goes (visit n found file)
  unfolding visit visit_below sub_path
  visit-Goes found file h = ground (arith, bytes_eq_iff n (trim slash file.name))

  -- The entry is listed, or it is a folder that was found before.
  abbrev IsListed : List Bytes → Bytes → ℕ → List File → Type 0
  IsListed found sub size es =
      Memᴰ (listed_as sub size) es
      ⊎ ((contains_byte slash sub ≡ true) × (found_dir found (first_part (split slash sub)) ≡ true))

  -- The rest of the loop, after a visit.
  abbrev next : List Bytes → List BagFile → Visit → List File
  next found files pass = ls_from n found files
  next found files (entry e) = e ∷ ls_from n found files
  next found files (folder d) = folder_entry d ∷ ls_from n (d ∷ found) files
  next found files (last e) = e ∷ []

  ls_from-next :
      (found : List Bytes) (file : BagFile) (files : List BagFile)
      → ls_from n found (file ∷ files) ≡ next found files (visit n found file)
  unfolding ls_from
  ls_from-next found file files = ground arith

  visit_of_Below :
      (found : List Bytes) (file : BagFile) (sub : Bytes)
      → Below n (trim slash file.name) sub
      → visit n found file ≡ visit_below found sub file.size
  unfolding visit
  visit_of_Below found file sub below =
      rw (sub_path_of_Below (trim slash file.name) sub below, visit) refl

  -- A visited file is listed, or its folder was found before.
  visit_below-IsListed :
      (found : List Bytes) (files : List BagFile) (sub : Bytes) (size : ℕ)
      → IsListed found sub size (next found files (visit_below found sub size))
  unfolding visit_below
  visit_below-IsListed found files sub size = elim (Bool-cases (contains_byte slash sub)) [
    | inl deep ↦ elim (Bool-cases (found_dir found (first_part (split slash sub)))) [
      | inl old ↦ inr (deep, old)
      | inr new ↦ rw (deep, new) (inl (Memᴰ.head refl))
    ]
    | inr here ↦ rw here (inl (Memᴰ.head refl))
  ]

  -- What the rest of the loop lists is listed; a folder that it found just now is listed too.
  next-IsListed :
      (found : List Bytes) (files : List BagFile) (sub : Bytes) (size : ℕ) (v : Visit)
      → Goes v
      → ((found' : List Bytes) → IsListed found' sub size (ls_from n found' files))
      → IsListed found sub size (next found files v)
  next-IsListed found files sub size pass g rest = rest found
  next-IsListed found files sub size (entry e) g rest = elim (rest found) [
    | inl m ↦ inl (Memᴰ.tail m)
    | inr old ↦ inr old
  ]
  next-IsListed found files sub size (folder d) g rest = elim (rest (d ∷ found)) [
    | inl m ↦ inl (Memᴰ.tail m)
    | inr (deep, old) ↦ elim (Bool-cases (bytes_eq d (first_part (split slash sub)))) [
      | inl same ↦ inl (
          rw deep (
            Memᴰ.head
              (ap folder_entry (sym ((bytes_eq_iff d (first_part (split slash sub))).0 same)))))
      | inr new ↦ inr (deep, rw new at old)
    ]
  ]
  next-IsListed found files sub size (last e) g rest = absurd g

  ls_from-IsListed :
      (found : List Bytes) (files : List BagFile) (file : BagFile) (sub : Bytes)
      → All IsNotNamed files
      → Memᴰ file files
      → Below n (trim slash file.name) sub
      → IsListed found sub file.size (ls_from n found files)
  ls_from-IsListed found [] file sub h m below = elim m [ ]
  ls_from-IsListed found (f ∷ files) file sub (h, hs) (Memᴰ.head p) below =
      rw
        (
          ls_from-next,
          p,
          visit_of_Below found f sub (subst (λ g. Below n (trim slash g.name) sub) p below),
        )
        (visit_below-IsListed found files sub f.size)
  ls_from-IsListed found (f ∷ files) file sub (h, hs) (Memᴰ.tail m) below = rw ls_from-next (
      next-IsListed found files sub file.size (visit n found f) (visit-Goes found f h)
        (λ found'. ls_from-IsListed found' files file sub hs m below))

-- Where the path names no file of the bag, every file below it is listed: by its own entry if it is
-- directly in the directory, else by the folder that holds it.
pub ls_complete :
    (files : List BagFile) (path : Bytes) (file : BagFile) (sub : Bytes)
    → All (IsNotNamed (trim slash path)) files
    → Memᴰ file files
    → Below (trim slash path) (trim slash file.name) sub
    → Memᴰ (listed_as sub file.size) (ls files path)
unfolding ls
ls_complete files path file sub h m below =
    elim (ls_from-IsListed (trim slash path) [] files file sub h m below) [
      | inl found ↦ Memᴰ-sort_slice _ _ found
      | inr (_, none_before) ↦ cc
    ]
