-- ===== src/HttpServer/Copied.antt =====
-- The function that `streamWithDeadline` of pkg/httpServer/helpers.go leaves running: it copies a
-- reader to the response until its end, an error or the deadline.
use mytonstorage_gateway.Common.{
  Bool, Option, [], false, if◌then◌else◌, none, some, suc, true, zero, ℕ, ◌&&◌, ◌++◌, ◌+◌, ◌||◌,
  ◌∷◌, ◌≡◌,
}
use mytonstorage_gateway.Text.{Bytes}

-- What one round of the loop meets: whether the deadline is over, what `Read` returns, with an error
-- or the end, and whether a `Write` fails.
pub record Round : Type 0 where
  pub is_late : Bool
  pub read_bytes : Bytes
  pub read_failed : Bool
  pub write_failed : Bool

-- What was written, and whether the reader was closed.
pub record Copied : Type 0 where
  pub written : Bytes
  pub reader_closed : Bool

abbrev pub is_filled : Bytes → Bool
is_filled [] = false
is_filled (b ∷ bs) = true

abbrev pub write_then : Bytes → Option Bytes → Option Bytes
write_then bs none = none
write_then bs (some rest) = some (bs ++ rest)

-- The loop from its `i`-th round on. `none`: it did not end within the fuel.
unfoldable pub copy_loop : (ℕ → Round) → ℕ → ℕ → Option Bytes
copy_loop rounds zero i = none
copy_loop rounds (suc fuel) i =
    let r = rounds i in
    let rest = copy_loop rounds fuel (i + 1) in
    if r.is_late
    then some []
    else if is_filled r.read_bytes && r.write_failed
    then some []
    else if r.read_failed
    then some r.read_bytes
    else write_then r.read_bytes rest

-- The deferred function closes a reader that can be closed.
abbrev pub closed_after : Bool → Option Bytes → Option Copied
closed_after can_close none = none
closed_after can_close (some bs) = some (record { written = bs; reader_closed = can_close })

unfoldable pub copy_stream : (ℕ → Round) → Bool → ℕ → Option Copied
copy_stream rounds can_close fuel = closed_after can_close (copy_loop rounds fuel 0)

-- A round is the last one; and what it writes.
abbrev pub is_last : Round → Bool
is_last r = r.is_late || ((is_filled r.read_bytes && r.write_failed) || r.read_failed)

abbrev pub passed_on : Round → Bytes
passed_on r = if r.is_late || (is_filled r.read_bytes && r.write_failed) then [] else r.read_bytes

module _ (rounds : ℕ → Round) where
  -- `k` rounds from the `i`-th on, of which none is the last.
  abbrev pub GoesOn : ℕ → ℕ → Type 0
  GoesOn i zero = Unit
  GoesOn i (suc k) = (is_last (rounds i) ≡ false) × GoesOn (i + 1) k

  -- What `k` rounds write.
  unfoldable pub passed : ℕ → ℕ → Bytes
  passed i zero = []
  passed i (suc k) = passed_on (rounds i) ++ passed (i + 1) k
