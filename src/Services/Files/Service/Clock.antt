-- ===== src/Services/Files/Service/Clock.antt =====
-- The clock that the polling loop of `doEnsureBagInStorage` reads, and that loop.
use mytonstorage_gateway.Common.{
  Option, Option-cases, arith, false, inl, inr, none, some, suc, zero, ℕ, ◌*◌, ◌+◌, ◌<◌, ◌≡◌, ◌≢◌,
  ◌≤◌,
}
use mytonstorage_gateway.Models.{GoError}
use mytonstorage_gateway.Services.Files.Ensure.{
  Outside, do_ensure_bag_in_storage, ensure_bag_in_storage, get_from_local_storage, poll,
  wait_for_header,
}
use mytonstorage_gateway.Services.Files.Local.{Reply}
use mytonstorage_gateway.Services.Files.Monad.{M, State, get_ensure_lock, ◌>>=◌}
use mytonstorage_gateway.Services.Files.Service.{
  after_ensure, find_path_info, get_from_remote_storage, get_path_info, or_else, remote_info,
  stream_remote_file,
}
use mytonstorage_gateway.Text.{Bytes}

-- What is documented of the clock: it does not run backwards during a call, and a wait that is not
-- cancelled lasts at least as long as it was asked to.
pub record IsClocked (o : Outside) : Type 0 where
  pub clock : o.World → ℕ
  pub clock-get_bag : (b : Bytes) (w : o.World) → clock w ≤ clock (o.get_bag b w).1
  pub now-after : (w : o.World) → clock w ≤ (o.now w).0
  pub clock-now : (w : o.World) → (o.now w).0 ≤ clock (o.now w).1
  pub clock-wait :
      (n : ℕ) (w : o.World) → (o.wait n w).0 ≡ none → clock w + n ≤ clock (o.wait n w).1

-- The action returns a result from the state.
abbrev pub Returns : {W A : Type 0} → M W A → State W → Type 0
Returns m s = m s ≢ none

pub Returns-bind :
    {W A B : Type 0} (m : M W A) (k : A → M W B) (s : State W)
    → Returns m s
    → ((a : A) (s' : State W) → Returns (k a) s')
    → Returns (m >>= k) s
Returns-bind m k s h f = elim (Option-cases (m s)) [
  | inl e ↦ absurd (h e)
  | inr ((a, s'), e) ↦ rw (e, ◌>>=◌) (f a s')
]

module _ (o : Outside) (c : IsClocked o) where
  open c use {clock, clock-get_bag, now-after, clock-now, clock-wait}

  -- While the deadline lies within the time that the rounds left take at least, the loop returns.
  poll-Returns :
      (fuel deadline : ℕ) (bag_id : Bytes) (s : State o.World)
      → deadline < clock s.world + 500 * fuel
      → Returns (poll o (suc fuel) deadline bag_id) s
  unfolding poll
  poll-Returns zero deadline bag_id s h =
      ground (arith, clock-get_bag bag_id s.world, now-after (o.get_bag bag_id s.world).1)
  poll-Returns (suc fuel) deadline bag_id s h =
      let w = (o.get_bag bag_id s.world).1 in
      let w' = (o.now w).1 in
      ground (
        arith,
        clock-get_bag bag_id s.world,
        now-after w,
        clock-now w,
        clock-wait 500 w',
        poll-Returns fuel deadline bag_id (record s { world = (o.wait 500 w').1 }),
      )

  wait_for_header-Returns :
      (bag_id : Bytes) (s : State o.World) → Returns (wait_for_header o bag_id) s
  unfolding wait_for_header
  wait_for_header-Returns bag_id s =
      poll-Returns 61 ((o.now s.world).0 + 30_000) bag_id (record s { world = (o.now s.world).1 })
        (omega (arith, clock-now s.world))

  do_ensure_bag_in_storage-Returns :
      (bag_id : Bytes) (s : State o.World) → Returns (do_ensure_bag_in_storage o bag_id) s
  unfolding do_ensure_bag_in_storage
  do_ensure_bag_in_storage-Returns bag_id s =
      let w = (o.now s.world).1 in
      let w' = (o.add_bag bag_id false w).1 in
      ground (
        arith,
        wait_for_header-Returns bag_id (record s { world = w' }),
        wait_for_header-Returns bag_id (record s { world = (o.get_bag bag_id w').1 }),
      )

  ensure_bag_in_storage-Returns :
      (bag_id : Bytes) (s : State o.World) → Returns (ensure_bag_in_storage o bag_id) s
  unfolding ensure_bag_in_storage
  ensure_bag_in_storage-Returns bag_id s =
      let (m, locks) = get_ensure_lock bag_id s.locks in
      Returns-bind (do_ensure_bag_in_storage o bag_id) _
        (record { locks = locks; world = o.lock m s.world })
        (do_ensure_bag_in_storage-Returns bag_id _) (λ a s' e. cc)

  get_from_local_storage-Returns :
      (bag_id path : Bytes) (s : State o.World) → Returns (get_from_local_storage o bag_id path) s
  unfolding get_from_local_storage
  get_from_local_storage-Returns bag_id path s = ground arith

  get_from_remote_storage-Returns :
      (bag_id path : Bytes) (s : State o.World) → Returns (get_from_remote_storage o bag_id path) s
  unfolding get_from_remote_storage remote_info stream_remote_file
  get_from_remote_storage-Returns bag_id path s = ground arith

  or_else-Returns :
      (r : Reply) (k : M o.World Reply) (s : State o.World)
      → Returns k s
      → Returns (or_else o r k) s
  or_else-Returns (info, none) k s h = λ e. cc
  or_else-Returns (info, some e) k s h = h

  -- What follows an attempt to have the bag in the storage.
  ensured-Returns :
      (bag_id path : Bytes) (failed : Option GoError) (s : State o.World)
      → Returns (after_ensure o bag_id path failed) s
  ensured-Returns bag_id path (some e) s = get_from_remote_storage-Returns bag_id path s
  ensured-Returns bag_id path none s =
      Returns-bind (get_from_local_storage o bag_id path) _ s
        (get_from_local_storage-Returns bag_id path s)
        (λ again s'. or_else-Returns again _ s' (get_from_remote_storage-Returns bag_id path s'))

  find_path_info-Returns :
      (bag_id path : Bytes) (s : State o.World) → Returns (find_path_info o bag_id path) s
  unfolding find_path_info
  find_path_info-Returns bag_id path s =
      Returns-bind (get_from_local_storage o bag_id path) _ s
        (get_from_local_storage-Returns bag_id path s)
        (λ local s'. or_else-Returns local _ s' (
          Returns-bind (ensure_bag_in_storage o bag_id) _ s'
            (ensure_bag_in_storage-Returns bag_id s')
            (λ failed s''. ensured-Returns bag_id path failed s'')))

  -- With a clock that does not run backwards and waits that last as long as they were asked to,
  -- every request for a path gets a reply: the loop that polls the storage for the header of a bag
  -- makes fewer rounds than its fuel allows, whatever the storage answers.
  pub get_path_info-Returns :
      (bag_id path : Bytes) (s : State o.World) → Returns (get_path_info o bag_id path) s
  unfolding get_path_info
  get_path_info-Returns bag_id path s = ground (
    arith,
    find_path_info-Returns bag_id path (record s { world = (o.has_ban bag_id s.world).1 }),
  )
