-- ===== src/HttpServer/Validate/Sanitize.antt =====
-- Paths that `sanitizePath` of pkg/httpServer/helpers.go lets through or refuses.
use mytonstorage_gateway.Common.{
  All, All-imp, Bool, List, [], any, arith, false, if_elim, inl, inr, length, ltb, refl, sym, true,
  ℕ, ◌++◌, ◌<◌, ◌||◌, ◌↔◌, ◌∙◌, ◌∷◌, ◌≡◌, ◌≤◌, ◌⊎◌,
}
use mytonstorage_gateway.FilePath.{
  clean, clean_from, clean_parts, clean_step, dot, dot_dot, is_rooted, render, slash,
}
use mytonstorage_gateway.FilePath.Clean.{IsPlain, IsStep, clean_lem, clean_parts-IsStep}
use mytonstorage_gateway.HttpServer.Validate.{max_path_length, sanitize_path, sanitize_trimmed}
use mytonstorage_gateway.Models.{
  GoError, Result, app, bad_request_error_code, err, new_app_error, ok,
}
use mytonstorage_gateway.Text.{Bytes, Unicode, bytes_eq, contains_byte, join, split, trim_space}
use mytonstorage_gateway.Text.Laws.{bytes_eq_iff}
use mytonstorage_gateway.Text.Split.{Lacks, split-join}

abbrev pub is_dot_dot : Bytes → Bool
is_dot_dot seg = bytes_eq seg dot_dot

-- A name of an entry below a directory, which a system call takes as it stands.
abbrev pub IsEntry : Bytes → Type 0
IsEntry part = IsPlain part × Lacks 0 part

any-split-join :
    (parts : List Bytes)
    → All (Lacks slash) parts
    → any is_dot_dot (split slash (join (slash ∷ []) parts)) ≡ any is_dot_dot parts
any-split-join [] h = unfold split join in refl
any-split-join (w ∷ ws) h = rw (split-join slash w ws h)

-- The segments of a rendered path are its parts, but for an empty one.
any-split-render :
    (r : Bool) (parts : List Bytes)
    → All (Lacks slash) parts
    → any is_dot_dot (split slash (render r parts)) ≡ any is_dot_dot parts
unfolding render
any-split-render true parts h = unfold split in any-split-join parts h
any-split-render false [] h = unfold split in refl
any-split-render false (w ∷ ws) h = any-split-join (w ∷ ws) h

IsStep-Lacks : (r : Bool) (part : Bytes) → IsStep r part → Lacks slash part
IsStep-Lacks r part (inl plain) = plain.3
IsStep-Lacks r part (inr (_, up)) = rw up (omega arith)

any-clean : (p : Bytes) → any is_dot_dot (split slash (clean p)) ≡ any is_dot_dot (clean_parts p)
any-clean p = rw clean_lem (
    any-split-render (is_rooted p) (clean_parts p)
      (All-imp _ _ (IsStep-Lacks (is_rooted p)) (clean_parts p) (clean_parts-IsStep p)))

-- Steps none of which goes up are plain.
IsPlain-of_steps :
    (r : Bool) (parts : List Bytes)
    → All (IsStep r) parts
    → any is_dot_dot parts ≡ false
    → All IsPlain parts
IsPlain-of_steps r [] h e = tt
IsPlain-of_steps r (w ∷ ws) (s, h) e =
    ground (arith, bytes_eq_iff w dot_dot, IsPlain-of_steps r ws h)

Lacks-append : (c : ℕ) (s t : Bytes) → Lacks c (s ++ t) → Lacks c s × Lacks c t
Lacks-append c [] t h = (tt, h)
Lacks-append c (a ∷ s) t (p, h) = let (x, y) = Lacks-append c s t h in ((p, x), y)

Lacks-join : (ws : List Bytes) → Lacks 0 (join (slash ∷ []) ws) → All (Lacks 0) ws
unfolding join
Lacks-join [] h = tt
Lacks-join (w ∷ []) h = (h, tt)
Lacks-join (w ∷ v ∷ ws) h =
    let (x, y) = Lacks-append 0 w (slash ∷ join (slash ∷ []) (v ∷ ws)) h in
    (x, Lacks-join (v ∷ ws) y.1)

Lacks-render : (r : Bool) (ws : List Bytes) → Lacks 0 (render r ws) → All (Lacks 0) ws
unfolding render
Lacks-render true ws (_, h) = Lacks-join ws h
Lacks-render false [] h = tt
Lacks-render false (w ∷ ws) h = Lacks-join (w ∷ ws) h

Lacks-of_contains : (c : ℕ) (s : Bytes) → contains_byte c s ≡ false → Lacks c s
Lacks-of_contains c [] h = tt
Lacks-of_contains c (a ∷ s) h = (ground arith, Lacks-of_contains c s (ground arith))

contains_of_Lacks : (c : ℕ) (s : Bytes) → Lacks c s → contains_byte c s ≡ false
contains_of_Lacks c [] h = refl
contains_of_Lacks c (a ∷ s) (p, h) = ground (arith, contains_of_Lacks c s h)

All-IsEntry : (ws : List Bytes) → All IsPlain ws → All (Lacks 0) ws → All IsEntry ws
All-IsEntry [] h k = tt
All-IsEntry (w ∷ ws) (p, h) (q, k) = ((p, q), All-IsEntry ws h k)

-- A path that a handler may use: "." or "/" or a path below one of them whose parts name entries,
-- none of them ".", ".." or empty; it is short enough and holds no NUL byte.
pub record IsSafePath (r : Bytes) : Type 0 where
  pub rooted : Bool
  pub parts : List Bytes
  pub shape : r ≡ render rooted parts
  pub entries : All IsEntry parts
  pub short : length r ≤ max_path_length

-- What the checks of `sanitizePath` establish of a cleaned path.
clean-IsSafePath :
    (p : Bytes)
    → any is_dot_dot (split slash (clean p)) ≡ false
    → contains_byte 0 (clean p) ≡ false
    → length (clean p) ≤ max_path_length
    → IsSafePath (clean p)
clean-IsSafePath p up nul short = record {
  rooted = is_rooted p;
  parts = clean_parts p;
  shape = clean_lem p;
  entries =
      All-IsEntry (clean_parts p)
        (IsPlain-of_steps (is_rooted p) (clean_parts p) (clean_parts-IsStep p)
          (sym (any-clean p) ∙ up))
        (Lacks-render (is_rooted p) (clean_parts p)
          (rw clean_lem at (Lacks-of_contains 0 (clean p) nul)));
  short = short;
}

dot-IsSafePath : IsSafePath dot
unfolding render
dot-IsSafePath = record {
  rooted = false;
  parts = [];
  shape = refl;
  entries = tt;
  short = omega arith;
}

-- The checks that `sanitizePath` makes of a cleaned path, all passed.
abbrev pub IsChecked : Bytes → Type 0
IsChecked cleaned =
    (any is_dot_dot (split slash cleaned) ≡ false)
    × (contains_byte 0 cleaned ≡ false)
    × (length cleaned ≤ max_path_length)

dot-IsChecked : IsChecked dot
unfolding split
dot-IsChecked = (refl, refl, omega arith)

-- The paths for which `sanitizePath` returns early pass the checks too.
early-IsChecked : (p : Bytes) → (p ≡ []) ⊎ (p ≡ dot) ⊎ (p ≡ slash ∷ []) → IsChecked (clean p)
early-IsChecked p (inl e) =
    rw e (unfold clean split clean_from clean_step join in (refl, refl, omega arith))
early-IsChecked p (inr (inl e)) =
    rw e (unfold clean split clean_from clean_step join in (refl, refl, omega arith))
early-IsChecked p (inr (inr e)) =
    rw e (unfold clean split clean_from clean_step join in (refl, refl, omega arith))

module _ ⦃u : Unicode⦄ where
  sanitize_trimmed-ok :
      (p r : Bytes)
      → sanitize_trimmed p ≡ ok r
      → (((p ≡ []) ⊎ (p ≡ dot) ⊎ (p ≡ slash ∷ [])) × (r ≡ dot))
        ⊎ ((r ≡ clean p) × (clean p ≡ dot))
        ⊎ ((r ≡ clean p) × IsChecked (clean p))
  unfolding sanitize_trimmed
  sanitize_trimmed-ok p r h = ground (
    arith,
    bytes_eq_iff p [],
    bytes_eq_iff p dot,
    bytes_eq_iff p (slash ∷ []),
    bytes_eq_iff (clean p) dot,
  )

  -- A path that passes is ".", or the cleaned path; the cleaned path has passed the checks.
  sanitize_trimmed-cases :
      (p r : Bytes) → sanitize_trimmed p ≡ ok r → ((r ≡ clean p) ⊎ (r ≡ dot)) × IsChecked (clean p)
  sanitize_trimmed-cases p r h = elim (sanitize_trimmed-ok p r h) [
    | inl (early, e) ↦ (inr e, early-IsChecked p early)
    | inr (inl (e, d)) ↦ (inl e, rw d dot-IsChecked)
    | inr (inr (e, checked)) ↦ (inl e, checked)
  ]

  sanitize_trimmed-IsSafePath : (p r : Bytes) → sanitize_trimmed p ≡ ok r → IsSafePath r
  sanitize_trimmed-IsSafePath p r h =
      let (which, (up, nul, short)) = sanitize_trimmed-cases p r h in
      elim which [ inl e ↦ rw e (clean-IsSafePath p up nul short) | inr e ↦ rw e dot-IsSafePath ]

  -- Whatever path a client sends, if `sanitizePath` returns one, that is "." or "/" or a path of
  -- named entries, none of them ".", ".." or empty, of at most 4096 bytes and without a NUL byte.
  pub sanitize_path-IsSafePath : (p : Bytes) {r : Bytes} → sanitize_path p ≡ ok r → IsSafePath r
  sanitize_path-IsSafePath p {r} h =
      sanitize_trimmed-IsSafePath (trim_space p) r (unfold sanitize_path in h)

  -- A path that `sanitizePath` refuses, as a bad request.
  abbrev pub IsRefused : Bytes → Type 0
  IsRefused p =
      (m : Bytes) × (sanitize_path p
        ≡ err (app (record { code = bad_request_error_code; message = m })))

  -- A result with a path, or the failure of a bad request.
  abbrev IsOutcome : Result Bytes → Type 0
  IsOutcome x =
      ((r : Bytes) × (x ≡ ok r))
      ⊎ ((m : Bytes) × (x ≡ err (app (record { code = bad_request_error_code; message = m }))))

  sanitize_trimmed-IsOutcome : (p : Bytes) → IsOutcome (sanitize_trimmed p)
  unfolding sanitize_trimmed new_app_error
  sanitize_trimmed-IsOutcome p =
      if_elim IsOutcome (bytes_eq p [] || (bytes_eq p dot || bytes_eq p (slash ∷ [])))
        (inl (dot, refl))
        (if_elim IsOutcome (bytes_eq (clean p) dot) (inl (dot, refl)) (
          if_elim IsOutcome (ltb max_path_length (length (clean p))) (inr (_, refl)) (
            if_elim IsOutcome (any is_dot_dot (split slash (clean p))) (inr (_, refl)) (
              if_elim IsOutcome (contains_byte 0 (clean p)) (inr (_, refl))
                (inl (clean p, refl))))))

  -- After all its "." and ".." are resolved the path still goes up, is longer than the limit, or
  -- holds a NUL byte.
  abbrev pub IsUnsafe : Bytes → Type 0
  IsUnsafe p =
      (any is_dot_dot (clean_parts p) ≡ true)
      ⊎ (max_path_length < length (clean p))
      ⊎ (contains_byte 0 (clean p) ≡ true)

  sanitize_trimmed-err : (p : Bytes) (e : GoError) → sanitize_trimmed p ≡ err e → IsUnsafe p
  unfolding sanitize_trimmed
  sanitize_trimmed-err p e h = ground (arith, any-clean p)

  unsafe-not-IsChecked : (p : Bytes) → IsUnsafe p → ¬ IsChecked (clean p)
  unsafe-not-IsChecked p h k = ground (arith, any-clean p)

  -- `sanitizePath` refuses a path exactly if, trimmed of spaces, it goes up from where it starts,
  -- or is too long or holds a NUL byte once it is cleaned.
  pub sanitize_path-IsRefused_iff : (p : Bytes) → IsRefused p ↔ IsUnsafe (trim_space p)
  unfolding sanitize_path
  sanitize_path-IsRefused_iff p = (
    λ (m, h). sanitize_trimmed-err (trim_space p) _ h,
    λ unsafe. elim (sanitize_trimmed-IsOutcome (trim_space p)) [
      | inl (r, e) ↦
          absurd (unsafe-not-IsChecked _ unsafe (sanitize_trimmed-cases (trim_space p) r e).1)
      | inr refused ↦ refused
    ],
  )
