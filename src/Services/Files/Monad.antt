-- ===== src/Services/Files/Monad.antt =====
-- The state that the methods of one request pass through, and the mutexes of `getEnsureLock`.
use mytonstorage_gateway.Common.{List, Option, [], none, some, ℕ, ◌+◌}
use mytonstorage_gateway.Dict.{insert, lookup}
use mytonstorage_gateway.Text.{Bytes}

-- The mutexes by bag ID; `none` is the nil map. A mutex is a number, the next one that is new.
pub record EnsureLocks : Type 0 where
  pub mutexes : Option (List (Bytes × ℕ))
  pub allocated : ℕ

-- The map, made if it is nil.
abbrev pub made : Option (List (Bytes × ℕ)) → List (Bytes × ℕ)
made none = []
made (some m) = m

-- `getEnsureLock`
unfoldable pub get_ensure_lock : Bytes → EnsureLocks → ℕ × EnsureLocks
get_ensure_lock bag_id locks =
    let mutexes = made locks.mutexes in
    elim (lookup bag_id mutexes) [
      | some m ↦ (m, record locks { mutexes = some mutexes })
      | none ↦ (
        locks.allocated,
        record {
          mutexes = some (insert bag_id locks.allocated mutexes);
          allocated = locks.allocated + 1;
        },
      )
    ]

-- The state of the service and the world that it acts on.
pub record State (W : Type 0) : Type 0 where
  pub locks : EnsureLocks
  pub world : W

-- `NewService`
unfoldable pub new_service : {W : Type 0} → W → State W
new_service w = record { locks = record { mutexes = some []; allocated = 0 }; world = w }

-- `none`: a loop did not end within its fuel.
abbrev pub M : Type 0 → Type 0 → Type 0
M W A = State W → Option (A × State W)

infixl 5 ◌>>=◌ ◌>>◌
abbrev pub ◌>>=◌ : {W A B : Type 0} → M W A → (A → M W B) → M W B
◌>>=◌ m k s = elim (m s) [ none ↦ none | some (a, s') ↦ k a s' ]

abbrev pub ◌>>◌ : {W B : Type 0} → M W (Unit {0}) → M W B → M W B
m >> k = m >>= λ _. k

abbrev pub pure : {W A : Type 0} → A → M W A
pure a s = some (a, s)

abbrev pub run : {W A : Type 0} → (W → A × W) → M W A
run f s = let (a, w) = f s.world in some (a, record s { world = w })

abbrev pub act : {W : Type 0} → (W → W) → M W (Unit {0})
act f s = some (tt, record s { world = f s.world })

abbrev pub on_locks : {W A : Type 0} → (EnsureLocks → A × EnsureLocks) → M W A
on_locks f s = let (a, l) = f s.locks in some (a, record s { locks = l })
