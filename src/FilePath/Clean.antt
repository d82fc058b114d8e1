-- ===== src/FilePath/Clean.antt =====
-- What cleaning a path leaves.
use mathlib.Core.List.{
  append-nil, append_assoc, reverse, reverse-append, reverse-cons, reverse-reverse,
}
use mathlib.Core.Path.{ap₂}
use mytonstorage_gateway.Common.{
  All, All-imp, All-reverse, Bool, List, [], arith, false, refl, true, ◌++◌, ◌∙◌, ◌∷◌, ◌≡◌, ◌≢◌,
  ◌⊎◌,
}
use mytonstorage_gateway.FilePath.{
  clean, clean_from, clean_parts, clean_step, dot, dot_dot, is_rooted, render, slash,
}
use mytonstorage_gateway.Text.{Bytes, join, split}
use mytonstorage_gateway.Text.Laws.{bytes_eq_iff}
use mytonstorage_gateway.Text.Split.{Lacks, split-Lacks, split-append, split-join}

-- A part that names an entry of a directory.
abbrev pub IsPlain : Bytes → Type 0
IsPlain part = (part ≢ []) × (part ≢ dot) × (part ≢ dot_dot) × Lacks slash part

-- A part of a cleaned path, which may still go up if the path is not rooted.
abbrev pub IsStep : Bool → Bytes → Type 0
IsStep rooted part = IsPlain part ⊎ ((rooted ≡ false) × (part ≡ dot_dot))

clean_step-IsStep :
    (rooted : Bool) (stack : List Bytes) (part : Bytes)
    → All (IsStep rooted) stack
    → Lacks slash part
    → All (IsStep rooted) (clean_step rooted stack part)
unfolding clean_step
clean_step-IsStep true [] part h k =
    ground (arith, bytes_eq_iff part [], bytes_eq_iff part dot, bytes_eq_iff part dot_dot)
clean_step-IsStep false [] part h k =
    ground (arith, bytes_eq_iff part [], bytes_eq_iff part dot, bytes_eq_iff part dot_dot)
clean_step-IsStep rooted (w ∷ stack) part h k = ground (
  arith,
  bytes_eq_iff part [],
  bytes_eq_iff part dot,
  bytes_eq_iff part dot_dot,
  bytes_eq_iff w dot_dot,
)

clean_from-IsStep :
    (rooted : Bool) (stack parts : List Bytes)
    → All (IsStep rooted) stack
    → All (Lacks slash) parts
    → All (IsStep rooted) (clean_from rooted stack parts)
unfolding clean_from
clean_from-IsStep rooted stack [] h k = h
clean_from-IsStep rooted stack (part ∷ parts) h (k, ks) =
    clean_from-IsStep rooted (clean_step rooted stack part) parts
      (clean_step-IsStep rooted stack part h k) ks

-- Every part of a cleaned path is plain, or the path is not rooted and the part is "..".
pub clean_parts-IsStep : (p : Bytes) → All (IsStep (is_rooted p)) (clean_parts p)
unfolding clean_parts
clean_parts-IsStep p =
    All-reverse _ _ (clean_from-IsStep (is_rooted p) [] (split slash p) tt (split-Lacks slash p))

clean_step_of_IsPlain :
    (rooted : Bool) (stack : List Bytes) (part : Bytes)
    → IsPlain part
    → clean_step rooted stack part ≡ part ∷ stack
unfolding clean_step
clean_step_of_IsPlain rooted stack part h =
    ground (arith, bytes_eq_iff part [], bytes_eq_iff part dot, bytes_eq_iff part dot_dot)

pub clean_from_of_IsPlain :
    (rooted : Bool) (stack parts : List Bytes)
    → All IsPlain parts
    → clean_from rooted stack parts ≡ reverse parts ++ stack
unfolding clean_from
clean_from_of_IsPlain rooted stack [] h = refl
clean_from_of_IsPlain rooted stack (part ∷ parts) (p, h) = simp (
  clean_step_of_IsPlain rooted stack part p,
  clean_from_of_IsPlain rooted (part ∷ stack) parts h,
  reverse-cons,
  append_assoc,
)

pub clean_from-append :
    (rooted : Bool) (stack us vs : List Bytes)
    → clean_from rooted stack (us ++ vs) ≡ clean_from rooted (clean_from rooted stack us) vs
unfolding clean_from
clean_from-append rooted stack [] vs = refl
clean_from-append rooted stack (w ∷ us) vs =
    clean_from-append rooted (clean_step rooted stack w) us vs

-- A leading slash is an empty first part, which is skipped.
clean_from-slash :
    (rooted : Bool) (stack : List Bytes) (s : Bytes)
    → clean_from rooted stack (split slash (slash ∷ s)) ≡ clean_from rooted stack (split slash s)
unfolding clean_from clean_step split
clean_from-slash rooted stack s = refl

clean_from-join :
    (rooted : Bool) (stack parts : List Bytes)
    → All IsPlain parts
    → clean_from rooted stack (split slash (join (slash ∷ []) parts)) ≡ reverse parts ++ stack
clean_from-join rooted stack [] h = unfold clean_from clean_step split join in refl
clean_from-join rooted stack (w ∷ ws) h =
    rw (split-join slash w ws (All-imp IsPlain (Lacks slash) (λ v p. p.3) (w ∷ ws) h))
      (clean_from_of_IsPlain rooted stack (w ∷ ws) h)

-- Cleaning a rendered path pushes its parts.
pub clean_from-render :
    (rooted r : Bool) (stack parts : List Bytes)
    → All IsPlain parts
    → clean_from rooted stack (split slash (render r parts)) ≡ reverse parts ++ stack
unfolding render
clean_from-render rooted true stack parts h =
    clean_from-slash rooted stack (join (slash ∷ []) parts) ∙ clean_from-join rooted stack parts h
clean_from-render rooted false stack [] h = unfold clean_from clean_step split in refl
clean_from-render rooted false stack (w ∷ ws) h = clean_from-join rooted stack (w ∷ ws) h

is_rooted-append : (s t : Bytes) → s ≢ [] → is_rooted (s ++ t) ≡ is_rooted s
is_rooted-append [] t h = absurd (h refl)
is_rooted-append (c ∷ s) t h = refl

-- Below a path, a rendered path of plain parts adds those parts and takes none away.
pub clean_parts-append-render :
    (s : Bytes) (r : Bool) (parts : List Bytes)
    → s ≢ []
    → All IsPlain parts
    → clean_parts (s ++ slash ∷ render r parts) ≡ clean_parts s ++ parts
unfolding clean_parts
clean_parts-append-render s r parts h k = rw (
  is_rooted-append s (slash ∷ render r parts) h,
  split-append,
  clean_from-append,
  clean_from-render (is_rooted s) r (clean_from (is_rooted s) [] (split slash s)) parts k,
  reverse-append,
  reverse-reverse,
)

is_rooted-render :
    (r : Bool) (parts : List Bytes) → All IsPlain parts → is_rooted (render r parts) ≡ r
unfolding render join
is_rooted-render true parts h = refl
is_rooted-render false [] h = refl
is_rooted-render false ([] ∷ ws) (p, h) = absurd (p.0 refl)
is_rooted-render false ((c ∷ w) ∷ []) (p, h) = ground arith
is_rooted-render false ((c ∷ w) ∷ v ∷ ws) (p, h) = ground arith

-- The elements of a rendered path of plain parts are those parts.
pub clean_parts-render :
    (r : Bool) (parts : List Bytes) → All IsPlain parts → clean_parts (render r parts) ≡ parts
unfolding clean_parts
clean_parts-render r parts h =
    rw (is_rooted-render r parts h, clean_from-render r r [] parts h, append-nil, reverse-reverse)

pub clean_lem : (p : Bytes) → clean p ≡ render (is_rooted p) (clean_parts p)
unfolding clean
clean_lem p = refl

-- The rendered path of plain parts is clean already.
pub clean-render :
    (r : Bool) (parts : List Bytes) → All IsPlain parts → clean (render r parts) ≡ render r parts
clean-render r parts h =
    clean_lem _ ∙ ap₂ render (is_rooted-render r parts h) (clean_parts-render r parts h)
