-- ===== src/Services/Files/Listing/Sort.antt =====
-- The order of a listing by `ls`, and sorting by it.
use mathlib.Core.List.Perm
use mathlib.Core.List.{Perm}
use mytonstorage_gateway.Common.{
  All, All-imp, Bool-cases, List, [], arith, false, if_elim, inl, inr, true, ◌∷◌, ◌≡◌,
}
use mytonstorage_gateway.FilePath.{slash}
use mytonstorage_gateway.Services.Files.{BagFile, File}
use mytonstorage_gateway.Services.Files.Listing.{insert_entry, less, ls, ls_from, sort_slice}
use mytonstorage_gateway.Text.{Bytes, trim}
use mytonstorage_gateway.Text.Laws.{bytes_lt_asymm, bytes_lt_connected, bytes_lt_trans}

pub less_trans : (a b c : File) → less a b ≡ true → less b c ≡ true → less a c ≡ true
unfolding less
less_trans a b c h k = ground (arith, bytes_lt_trans a.name b.name c.name)

pub less_asymm : (a b : File) → less a b ≡ true → less b a ≡ false
unfolding less
less_asymm a b h = ground (arith, bytes_lt_asymm a.name b.name)

-- Two entries, neither before the other, have the same name and are of the same kind.
pub less_connected :
    (a b : File)
    → less a b ≡ false
    → less b a ≡ false
    → (a.name ≡ b.name) × (a.is_folder ≡ b.is_folder)
unfolding less
less_connected a b h k = ground (arith, bytes_lt_connected a.name b.name)

-- "Not before" is transitive.
pub not-less_trans : (a b c : File) → less b a ≡ false → less c b ≡ false → less c a ≡ false
unfolding less
not-less_trans a b c h k = ground (
  arith,
  bytes_lt_trans c.name a.name b.name,
  bytes_lt_connected b.name a.name,
  bytes_lt_connected c.name b.name,
)

-- No entry is before an earlier one.
abbrev pub IsSorted : List File → Type 0
IsSorted [] = Unit
IsSorted (a ∷ as') = All (λ b. less b a ≡ false) as' × IsSorted as'

All-insert_entry {κ} :
    (P : File → Type κ) (a : File) (bs : List File) → P a → All P bs → All P (insert_entry a bs)
unfolding insert_entry
All-insert_entry P a [] p h = (p, h)
All-insert_entry P a (b ∷ bs) p (q, h) =
    if_elim (All P) (less b a) (q, All-insert_entry P a bs p h) (p, (q, h))

insert_entry-IsSorted : (a : File) (bs : List File) → IsSorted bs → IsSorted (insert_entry a bs)
unfolding insert_entry
insert_entry-IsSorted a [] h = (tt, tt)
insert_entry-IsSorted a (b ∷ bs) (h, s) = elim (Bool-cases (less b a)) [
  | inl later ↦ rw later (
    All-insert_entry (λ c. less c b ≡ false) a bs (less_asymm b a later) h,
    insert_entry-IsSorted a bs s,
  )
  | inr first ↦ rw first ((first, All-imp _ _ (λ c k. not-less_trans a b c first k) bs h), (h, s))
]

pub sort_slice-IsSorted : (xs : List File) → IsSorted (sort_slice xs)
unfolding sort_slice
sort_slice-IsSorted [] = tt
sort_slice-IsSorted (a ∷ xs) = insert_entry-IsSorted a (sort_slice xs) (sort_slice-IsSorted xs)

insert_entry-perm : (a : File) (bs : List File) → Perm (insert_entry a bs) (a ∷ bs)
unfolding insert_entry
insert_entry-perm a [] = Perm.refl _
insert_entry-perm a (b ∷ bs) =
    if_elim (λ l. Perm l (a ∷ b ∷ bs)) (less b a)
      (Perm.trans (Perm.cons b (insert_entry-perm a bs)) (Perm.swap a b bs)) (Perm.refl _)

pub sort_slice-perm : (xs : List File) → Perm (sort_slice xs) xs
unfolding sort_slice
sort_slice-perm [] = Perm.refl _
sort_slice-perm (a ∷ xs) =
    Perm.trans (insert_entry-perm a (sort_slice xs)) (Perm.cons a (sort_slice-perm xs))

pub All-sort_slice {κ} : (P : File → Type κ) (xs : List File) → All P xs → All P (sort_slice xs)
unfolding sort_slice
All-sort_slice P [] h = tt
All-sort_slice P (a ∷ xs) (p, h) = All-insert_entry P a (sort_slice xs) p (All-sort_slice P xs h)

-- A listing has the folders first, and each group in the order of the names; its entries are those
-- that the loop over the files of the bag found, each as often.
pub ls-IsSorted :
    (files : List BagFile) (path : Bytes)
    → IsSorted (ls files path) × Perm (ls files path) (ls_from (trim slash path) [] files)
unfolding ls
ls-IsSorted files path = (sort_slice-IsSorted _, sort_slice-perm _)
