-- ===== src/FilePath/Join.antt =====
-- Joining paths.
use mathlib.Core.List.{append_assoc}
use mytonstorage_gateway.Common.{All, Bool, List, [], ap, refl, ℕ, ◌++◌, ◌==◌, ◌∷◌, ◌≡◌, ◌≢◌}
use mytonstorage_gateway.FilePath.{clean, clean_parts, join_path, render, slash}
use mytonstorage_gateway.FilePath.Clean.{IsPlain, clean_parts-append-render}
use mytonstorage_gateway.Text.{Bytes, join}

-- The path that `filepath.Join(root, d, path)` cleans.
abbrev pub below : Bytes → Bytes → Bytes → Bytes
below root d path = (root ++ slash ∷ d) ++ slash ∷ path

pub join_path-below :
    (c : ℕ) (root d path : Bytes)
    → join_path ((c ∷ root) ∷ d ∷ path ∷ []) ≡ clean (below (c ∷ root) d path)
unfolding join_path join
join_path-below c root d path = simp append_assoc

pub join_path_pair :
    (c : ℕ) (root d : Bytes) → join_path ((c ∷ root) ∷ d ∷ []) ≡ clean ((c ∷ root) ++ slash ∷ d)
unfolding join_path join
join_path_pair c root d = refl

-- Joining a path of plain parts below a directory stays below that directory: its elements are
-- those of the directory, and then the parts.
pub join_path-render :
    (c : ℕ) (root d : Bytes) (r : Bool) (parts : List Bytes)
    → All IsPlain parts
    → join_path ((c ∷ root) ∷ d ∷ render r parts ∷ [])
      ≡ render (c == slash) (clean_parts ((c ∷ root) ++ slash ∷ d) ++ parts)
join_path-render c root d r parts h = rw (join_path-below c root d (render r parts)) (
    unfold clean in
    ap (render (c == slash)) (clean_parts-append-render ((c ∷ root) ++ slash ∷ d) r parts ne h))
  where
    ne : (c ∷ root) ++ slash ∷ d ≢ []
    ne = λ e. cc
