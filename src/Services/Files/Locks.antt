-- ===== src/Services/Files/Locks.antt =====
-- The mutexes of `getEnsureLock` in pkg/services/files/service.go.
use mytonstorage_gateway.Common.{
  List, Option, Option-cases, [], ap, arith, if◌then◌else◌, inl, inr, none, refl, some, sym, ℕ, ◌+◌,
  ◌<◌, ◌↔◌, ◌∙◌, ◌∷◌, ◌≡◌,
}
use mytonstorage_gateway.Dict.{lookup, lookup-insert}
use mytonstorage_gateway.Services.Files.Monad.{EnsureLocks, get_ensure_lock, made, new_service}
use mytonstorage_gateway.Text.{Bytes, bytes_eq}
use mytonstorage_gateway.Text.Laws.{bytes_eq_iff, bytes_eq_refl}

-- The mutex of the bag, if it has one.
abbrev pub mutex_of : Bytes → EnsureLocks → Option ℕ
mutex_of b locks = lookup b (made locks.mutexes)

-- No two bags share a mutex, and the next number is new.
pub record IsExclusive (locks : EnsureLocks) : Type 0 where
  pub single : (a b : Bytes) (m : ℕ) → mutex_of a locks ≡ some m → mutex_of b locks ≡ some m → a ≡ b
  pub bounded : (b : Bytes) (m : ℕ) → mutex_of b locks ≡ some m → m < locks.allocated

-- The state after requests for those bags.
abbrev pub after_requests : List Bytes → EnsureLocks → EnsureLocks
after_requests [] locks = locks
after_requests (b ∷ bs) locks = after_requests bs (get_ensure_lock b locks).1

-- A bag that has a mutex gets it, and nothing is changed.
mutex_of-hit :
    (b : Bytes) (m : ℕ) (locks : EnsureLocks) (a : Bytes)
    → mutex_of b locks ≡ some m
    → ((get_ensure_lock b locks).0 ≡ m)
      × (mutex_of a (get_ensure_lock b locks).1 ≡ mutex_of a locks)
      × ((get_ensure_lock b locks).1.allocated ≡ locks.allocated)
unfolding get_ensure_lock
mutex_of-hit b m locks a e = rw (e, get_ensure_lock) (refl, refl, refl)

-- A bag without one gets the next number.
mutex_of-miss :
    (b : Bytes) (locks : EnsureLocks) (a : Bytes)
    → mutex_of b locks ≡ none
    → ((get_ensure_lock b locks).0 ≡ locks.allocated)
      × (mutex_of a (get_ensure_lock b locks).1
          ≡ (if bytes_eq b a then some locks.allocated else mutex_of a locks))
      × ((get_ensure_lock b locks).1.allocated ≡ locks.allocated + 1)
unfolding get_ensure_lock
mutex_of-miss b locks a e =
    rw (e, get_ensure_lock) (refl, lookup-insert b a locks.allocated (made locks.mutexes), refl)

-- After a request for a bag it has the mutex that the request got; a mutex that a bag has is kept.
mutex_of-kept :
    (b : Bytes) (locks : EnsureLocks) (a : Bytes) (n : ℕ)
    → (mutex_of b (get_ensure_lock b locks).1 ≡ some (get_ensure_lock b locks).0)
      × (mutex_of a locks ≡ some n → mutex_of a (get_ensure_lock b locks).1 ≡ some n)
mutex_of-kept b locks a n = elim (Option-cases (mutex_of b locks)) [
  | inl e ↦ ground (
    arith,
    mutex_of-miss b locks a e,
    mutex_of-miss b locks b e,
    bytes_eq_refl b,
    bytes_eq_iff b a,
  )
  | inr (m, e) ↦ ground (arith, mutex_of-hit b m locks a e, mutex_of-hit b m locks b e)
]

-- A request keeps the mutexes of different bags different.
pub get_ensure_lock-IsExclusive :
    (b : Bytes) (locks : EnsureLocks) → IsExclusive locks → IsExclusive (get_ensure_lock b locks).1
get_ensure_lock-IsExclusive b locks h = elim (Option-cases (mutex_of b locks)) [
  | inl e ↦ record {
    single = λ x y m p q. ground (
      arith,
      mutex_of-miss b locks x e,
      mutex_of-miss b locks y e,
      h.single x y m,
      h.bounded x m,
      h.bounded y m,
      bytes_eq_iff b x,
      bytes_eq_iff b y,
    );
    bounded = λ x m p. ground (arith, mutex_of-miss b locks x e, h.bounded x m);
  }
  | inr (n, e) ↦ record {
    single = λ x y m p q.
        h.single x y m (sym (mutex_of-hit b n locks x e).1 ∙ p)
          (sym (mutex_of-hit b n locks y e).1 ∙ q);
    bounded = λ x m p. ground (arith, mutex_of-hit b n locks x e, h.bounded x m);
  }
]

after_requests-mutex :
    (bs : List Bytes) (locks : EnsureLocks) (a : Bytes) (n : ℕ)
    → mutex_of a locks ≡ some n
    → mutex_of a (after_requests bs locks) ≡ some n
after_requests-mutex [] locks a n e = e
after_requests-mutex (b ∷ bs) locks a n e =
    after_requests-mutex bs (get_ensure_lock b locks).1 a n ((mutex_of-kept b locks a n).1 e)

after_requests-IsExclusive :
    (bs : List Bytes) (locks : EnsureLocks)
    → IsExclusive locks
    → IsExclusive (after_requests bs locks)
after_requests-IsExclusive [] locks h = h
after_requests-IsExclusive (b ∷ bs) locks h =
    after_requests-IsExclusive bs (get_ensure_lock b locks).1
      (get_ensure_lock-IsExclusive b locks h)

-- The service starts without mutexes.
pub new_service-IsExclusive : {W : Type 0} (w : W) → IsExclusive (new_service w).locks
unfolding new_service lookup
new_service-IsExclusive w = record { single = λ a b m p q. cc; bounded = λ b m p. cc }

-- However many requests come between them, two requests get one mutex exactly if they are for one
-- bag, if no two bags shared a mutex before.
pub get_ensure_lock-single :
    (a b : Bytes) (others : List Bytes) (locks : EnsureLocks)
    → IsExclusive locks
    → ((get_ensure_lock a locks).0
        ≡ (get_ensure_lock b (after_requests others (get_ensure_lock a locks).1)).0)
      ↔ (a ≡ b)
get_ensure_lock-single a b others locks h =
    let between = after_requests others (get_ensure_lock a locks).1 in
    let m = (get_ensure_lock a locks).0 in
    let exclusive =
      get_ensure_lock-IsExclusive b between
        (after_requests-IsExclusive others _ (get_ensure_lock-IsExclusive a locks h)) in
    let first =
      (mutex_of-kept b between a m).1
        (after_requests-mutex others _ a m (mutex_of-kept a locks a m).0) in
    let second = (mutex_of-kept b between b m).0 in
    ((λ e. exclusive.single a b m first (second ∙ ap some (sym e))), (λ e. ground arith))
