-- ===== src/Services/Files/Listing/Sound.antt =====
-- Where the entries of a listing by `ls` come from.
use mathlib.Core.List.{Memᴰ, append_assoc}
use mathlib.Core.Path.{subst}
use mytonstorage_gateway.Common.{
  ==_iff, All, All-imp, Bool-cases, List, Option-cases, [], ap, arith, false, if_elim, inl, inr,
  refl, some, sym, true, ◌++◌, ◌==◌, ◌∙◌, ◌∷◌, ◌≡◌, ◌≢◌, ◌⊎◌,
}
use mytonstorage_gateway.FilePath.{base, slash}
use mytonstorage_gateway.FilePath.Join.{below}
use mytonstorage_gateway.Services.Files.{BagFile, File}
use mytonstorage_gateway.Services.Files.Listing.{
  Visit, entry, first_part, folder, folder_entry, found_dir, is_top, last, ls, ls_from, pass,
  sub_path, visit, visit_below,
}
use mytonstorage_gateway.Services.Files.Listing.Sort.{All-sort_slice}
use mytonstorage_gateway.Text.{Bytes, bytes_eq, cons_head, contains_byte, split, trim}
use mytonstorage_gateway.Text.Laws.{bytes_eq_iff, cut_prefix_append}
use mytonstorage_gateway.Text.Split.{Lacks, split-Lacks, split-ne-nil}

-- `sub` is what the name reads below the directory.
abbrev pub Below : Bytes → Bytes → Bytes → Type 0
Below normalized name sub =
    ((is_top normalized ≡ true) × (name ≡ sub))
    ⊎ ((is_top normalized ≡ false) × (name ≡ normalized ++ slash ∷ sub))

-- A folder of the listing is the first part of a longer name.
abbrev pub IsFolderOf : Bytes → BagFile → File → Type 0
IsFolderOf normalized file e =
    (e.is_folder ≡ true)
    × (e.size ≡ 0)
    × Lacks slash e.name
    × ((rest : Bytes) × Below normalized (trim slash file.name) (e.name ++ slash ∷ rest))

-- A file of the listing is directly in the directory, or is what the path names.
abbrev pub IsFileOf : Bytes → BagFile → File → Type 0
IsFileOf normalized file e =
    (e.is_folder ≡ false)
    × (e.size ≡ file.size)
    × ((sub : Bytes) × (e.name ≡ base sub)
        × ((Below normalized (trim slash file.name) sub × Lacks slash sub)
            ⊎ ((sub ≡ normalized) × (trim slash file.name ≡ normalized))))

-- An entry of the listing, with the file of the bag that it stands for.
pub record Source (normalized : Bytes) (files : List BagFile) (e : File) : Type 0 where
  pub file : BagFile
  pub listed : Memᴰ file files
  pub stands : IsFolderOf normalized file e ⊎ IsFileOf normalized file e

Source-cons :
    (normalized : Bytes) (file : BagFile) (files : List BagFile) (e : File)
    → Source normalized files e
    → Source normalized (file ∷ files) e
Source-cons normalized file files e s = record {
  file = s.file;
  listed = Memᴰ.tail s.listed;
  stands = s.stands;
}

sub_path-Below : (n name sub : Bytes) → sub_path n name ≡ some sub → Below n name sub
unfolding sub_path
sub_path-Below n name sub h = elim (Bool-cases (is_top n)) [
  | inl top ↦ inl (top, ground arith)
  | inr deep ↦ inr (
    deep,
    cut_prefix_append name (n ++ slash ∷ []) sub (ground arith) ∙ append_assoc n (slash ∷ []) sub,
  )
]

-- The first part of a text that holds a slash, and what follows it.
pub split-first :
    (s : Bytes)
    → contains_byte slash s ≡ true
    → (rest : Bytes) × (s ≡ first_part (split slash s) ++ slash ∷ rest)
unfolding split
split-first [] h = cc
split-first (c ∷ s) h = elim (Bool-cases (c == slash)) [
  | inl e ↦ (s, rw e (ap (λ d. d ∷ s) ((==_iff c slash).0 e)))
  | inr e ↦
      let (rest, p) = split-first s (ground arith) in
      (rest, rw e (first-cons (split slash s) (split-ne-nil slash s) rest p))
]
  where
    first-cons :
        (ws : List Bytes)
        → ws ≢ []
        → (rest : Bytes) → s ≡ first_part ws ++ slash ∷ rest
        → c ∷ s ≡ first_part (cons_head c ws) ++ slash ∷ rest
    first-cons [] ne rest p = absurd (ne refl)
    first-cons (w ∷ ws) ne rest p = ap (◌∷◌ c) p

first-Lacks : (ws : List Bytes) → All (Lacks slash) ws → Lacks slash (first_part ws)
first-Lacks [] h = tt
first-Lacks (w ∷ ws) (h, _) = h

Lacks-of_not-contains : (s : Bytes) → contains_byte slash s ≡ false → Lacks slash s
Lacks-of_not-contains [] h = tt
Lacks-of_not-contains (a ∷ s) h = (ground arith, Lacks-of_not-contains s (ground arith))

module _ (n : Bytes) where
  -- What a visit appends stands for the visited file.
  abbrev Stands : BagFile → Visit → Type 0
  Stands file pass = Unit
  Stands file (entry e) = IsFileOf n file e
  Stands file (folder d) = IsFolderOf n file (folder_entry d)
  Stands file (last e) = IsFileOf n file e

  visit_below-Stands :
      (found : List Bytes) (file : BagFile) (sub : Bytes)
      → Below n (trim slash file.name) sub
      → Stands file (visit_below found sub file.size)
  unfolding visit_below
  visit_below-Stands found file sub below = elim (Bool-cases (contains_byte slash sub)) [
    | inl deep ↦
        let (rest, e) = split-first sub deep in
        rw deep (
          if_elim (Stands file) (found_dir found (first_part (split slash sub))) tt (
            refl,
            refl,
            first-Lacks (split slash sub) (split-Lacks slash sub),
            (rest, subst (Below n (trim slash file.name)) e below),
          ))
    | inr here ↦ rw here (refl, refl, (sub, refl, inl (below, Lacks-of_not-contains sub here)))
  ]

  visit-Stands : (found : List Bytes) (file : BagFile) → Stands file (visit n found file)
  unfolding visit
  visit-Stands found file = elim (Option-cases (sub_path n (trim slash file.name))) [
    | inl outside ↦ elim (Bool-cases (bytes_eq n (trim slash file.name))) [
      | inl same ↦
          let e = (bytes_eq_iff n (trim slash file.name)).0 same in
          rw (outside, visit, same) (refl, refl, (trim slash file.name, refl, inr (sym e, sym e)))
      | inr other ↦ rw (outside, visit, other) tt
    ]
    | inr (sub, e) ↦
        rw (e, visit)
          (visit_below-Stands found file sub (sub_path-Below n (trim slash file.name) sub e))
  ]

  ls_from-Source :
      (found : List Bytes) (files : List BagFile) → All (Source n files) (ls_from n found files)
  unfolding ls_from
  ls_from-Source found [] = tt
  ls_from-Source found (file ∷ files) =
      go (visit n found file) (visit-Stands found file)
        (λ found'. All-imp _ _ (Source-cons n file files) _ (ls_from-Source found' files))
    where
      go :
          (v : Visit)
          → Stands file v
          → ((found' : List Bytes) → All (Source n (file ∷ files)) (ls_from n found' files))
          → All (Source n (file ∷ files)) (elim v [
            | pass ↦ ls_from n found files
            | entry e ↦ e ∷ ls_from n found files
            | folder d ↦ folder_entry d ∷ ls_from n (d ∷ found) files
            | last e ↦ e ∷ []
          ])
      go pass s rest = rest found
      go (entry e) s rest =
          (record { file = file; listed = Memᴰ.head refl; stands = inr s }, rest found)
      go (folder d) s rest =
          (record { file = file; listed = Memᴰ.head refl; stands = inl s }, rest (d ∷ found))
      go (last e) s rest = (record { file = file; listed = Memᴰ.head refl; stands = inr s }, tt)

-- Every entry of a listing stands for a file of the bag: a folder for one below it, with the name
-- of the first part of what follows the directory, and a file for one directly in the directory or
-- for the one that the path names, with its size.
pub ls-Source :
    (files : List BagFile) (path : Bytes) → All (Source (trim slash path) files) (ls files path)
unfolding ls
ls-Source files path = All-sort_slice _ _ (ls_from-Source (trim slash path) [] files)
