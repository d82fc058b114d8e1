-- ===== src/Clients/Remote/Content.antt =====
-- The bytes of a file among the pieces of its bag.
use mathlib.Core.List.{append-nil, append_assoc}
use mathlib.Core.Path.{ap₂}
use mytonstorage_gateway.Common.{
  List, [], arith, drop, if◌then◌else◌, length, refl, some, suc, take, zero, ℕ, ◌++◌, ◌+◌, ◌<◌,
  ◌==◌, ◌^◌, ◌∙◌, ◌∷◌, ◌≡◌, ◌≤◌,
}
use mytonstorage_gateway.Clients.Remote.{FileInfo}
use mytonstorage_gateway.Clients.Remote.Stream.{part_of}
use mytonstorage_gateway.Text.{Bytes}

module _ {A : Type 0} where
  pub take-drop : (k : ℕ) (l : List A) → take k l ++ drop k l ≡ l
  take-drop zero l = refl
  take-drop (suc k) [] = refl
  take-drop (suc k) (a ∷ l) = rw (take-drop k l) refl

  take-length : (l : List A) → take (length l) l ≡ l
  take-length [] = refl
  take-length (a ∷ l) = rw (take-length l) refl

  take-take : (j k : ℕ) (l : List A) → j ≤ k → take j (take k l) ≡ take j l
  take-take zero k l h = refl
  take-take (suc j) zero l h = ground (arith, h)
  take-take (suc j) (suc k) [] h = refl
  take-take (suc j) (suc k) (a ∷ l) h = rw (take-take j k l (omega (arith, h))) refl

  length-take : (k : ℕ) (l : List A) → k ≤ length l → length (take k l) ≡ k
  length-take zero l h = refl
  length-take (suc k) [] h = omega (arith, h)
  length-take (suc k) (a ∷ l) h = omega (arith, length-take k l, h)

  -- A list cut in three.
  take-drop_middle :
      (j k : ℕ) (l : List A) → j ≤ k → take j l ++ (drop j (take k l) ++ drop k l) ≡ l
  take-drop_middle j k l h =
      rw (← take-take j k l h, ← append_assoc, take-drop j (take k l)) (take-drop k l)

-- The place of a file in its bag: `piece p` is the content of piece `p`.
pub record IsPlaced (piece : ℕ → Bytes) (info : FileInfo) : Type 0 where
  pub from-le-to : info.from_piece ≤ info.to_piece
  pub to-lt : info.to_piece + 1 < 2 ^ 32
  pub from-in : info.from_piece_offset ≤ length (piece info.from_piece)
  pub to-in : info.to_piece_offset ≤ length (piece info.to_piece)
  pub one_piece : info.from_piece ≡ info.to_piece → info.from_piece_offset ≤ info.to_piece_offset

module _ (piece : ℕ → Bytes) where
  -- `k` pieces, from the `p`-th on.
  unfoldable pub pieces_from : ℕ → ℕ → Bytes
  pieces_from p zero = []
  pieces_from p (suc k) = piece p ++ pieces_from (p + 1) k

  module _ (info : FileInfo) where
    abbrev pub lead : ℕ → ℕ
    lead p = if p == info.from_piece then info.from_piece_offset else 0

    abbrev pub trail : ℕ → ℕ
    trail p = if p == info.to_piece then info.to_piece_offset else length (piece p)

    -- The part of a piece, and of `k` pieces, that belongs to the file.
    unfoldable pub file_part : ℕ → Bytes
    file_part p = drop (lead p) (take (trail p) (piece p))

    unfoldable pub file_parts : ℕ → ℕ → Bytes
    file_parts p zero = []
    file_parts p (suc k) = file_part p ++ file_parts (p + 1) k

    pub part_of-file_part :
        (p : ℕ) → IsPlaced piece info → part_of info p (piece p) ≡ some (file_part p)
    unfolding part_of file_part
    part_of-file_part p h = ground (
      arith,
      take-length (piece p),
      length-take info.to_piece_offset (piece p),
      h.from-in,
      h.to-in,
      h.one_piece,
    )

    file_part_inside : (p : ℕ) → info.from_piece < p → p < info.to_piece → file_part p ≡ piece p
    unfolding file_part
    file_part_inside p h k = ground (arith, take-length (piece p), h, k)

    file_part_last :
        (p : ℕ)
        → info.from_piece < p
        → p ≡ info.to_piece
        → file_part p ≡ take info.to_piece_offset (piece info.to_piece)
    unfolding file_part
    file_part_last p h k = ground (arith, h, k)

    file_part_first :
        (p : ℕ)
        → p ≡ info.from_piece
        → p < info.to_piece
        → file_part p ≡ drop info.from_piece_offset (piece info.from_piece)
    unfolding file_part
    file_part_first p h k = ground (arith, take-length (piece p), h, k)

    file_part_only :
        info.from_piece ≡ info.to_piece
        → file_part info.from_piece
          ≡ drop info.from_piece_offset (take info.to_piece_offset (piece info.to_piece))
    unfolding file_part
    file_part_only h = ground (arith, h)

    file_parts-end :
        (k p : ℕ)
        → info.from_piece < p
        → p + k ≡ info.to_piece
        → file_parts p (suc k) ++ drop info.to_piece_offset (piece info.to_piece)
          ≡ pieces_from p (suc k)
    unfolding file_parts pieces_from
    file_parts-end zero p h e =
        let last_one : p ≡ info.to_piece = omega (arith, e) in
        rw (append-nil, append-nil, file_part_last p h last_one, take-drop, last_one) refl
    file_parts-end (suc k) p h e =
        append_assoc (file_part p) (file_parts (p + 1) (suc k))
          (drop info.to_piece_offset (piece info.to_piece))
        ∙ ap₂ ◌++◌ (file_part_inside p h (omega (arith, e)))
            (file_parts-end k (p + 1) (omega (arith, h)) (omega (arith, e)))

    -- The parts with the bytes before and after them are the whole pieces.
    pub file_parts_exact :
        (k : ℕ)
        → IsPlaced piece info
        → info.from_piece + k ≡ info.to_piece
        → take info.from_piece_offset (piece info.from_piece)
            ++ (file_parts info.from_piece (suc k)
                ++ drop info.to_piece_offset (piece info.to_piece))
          ≡ pieces_from info.from_piece (suc k)
    unfolding file_parts pieces_from
    file_parts_exact zero h e =
        let one : info.from_piece ≡ info.to_piece = omega (arith, e) in
        rw (append-nil, append-nil, file_part_only one, one)
          (take-drop_middle info.from_piece_offset info.to_piece_offset (piece info.to_piece)
            (h.one_piece one))
    file_parts_exact (suc k) h e =
        rw
          (
            append_assoc (file_part info.from_piece) (file_parts (info.from_piece + 1) (suc k)),
            file_part_first info.from_piece refl (omega (arith, e)),
            file_parts-end k (info.from_piece + 1) (omega arith) (omega (arith, e)),
            ← append_assoc,
            take-drop,
          )
          refl
