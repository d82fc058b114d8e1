-- ===== src/Services/Files/Service/Frame.antt =====
-- What `GetPathInfo` of pkg/services/files/service.go leaves of the world after its ban check.
use mytonstorage_gateway.Common.{
  Bool, Option, Option-cases, arith, false, inl, inr, none, some, suc, zero, ℕ, ◌+◌, ◌∙◌, ◌≡◌,
}
use mytonstorage_gateway.Models.{GoError}
use mytonstorage_gateway.Services.Files.Ensure.{
  Outside, do_ensure_bag_in_storage, ensure_bag_in_storage, get_from_local_storage, poll,
  wait_for_header,
}
use mytonstorage_gateway.Services.Files.Local.{Reply}
use mytonstorage_gateway.Services.Files.Monad.{
  M, State, act, get_ensure_lock, pure, run, ◌>>=◌, ◌>>◌,
}
use mytonstorage_gateway.Services.Files.Service.{
  after_ensure, find_path_info, get_from_remote_storage, get_path_info, or_else, remote_info,
  stream_remote_file,
}
use mytonstorage_gateway.Text.{Bytes}

-- A part of the world that no call but that of the database changes.
pub record IsApart (o : Outside) {X : Type 0} (view : o.World → X) : Type 0 where
  pub get_bag-apart : (b : Bytes) (w : o.World) → view (o.get_bag b w).1 ≡ view w
  pub add_bag-apart :
      (b : Bytes) (every : Bool) (w : o.World) → view (o.add_bag b every w).1 ≡ view w
  pub list_files-apart : (b : Bytes) (w : o.World) → view (o.list_files b w).1 ≡ view w
  pub stream-apart : (b p : Bytes) (w : o.World) → view (o.remote_stream_file b p w).1 ≡ view w
  pub now-apart : (w : o.World) → view (o.now w).1 ≡ view w
  pub wait-apart : (n : ℕ) (w : o.World) → view (o.wait n w).1 ≡ view w
  pub lock-apart : (m : ℕ) (w : o.World) → view (o.lock m w) ≡ view w
  pub unlock-apart : (m : ℕ) (w : o.World) → view (o.unlock m w) ≡ view w

module _ (o : Outside) {X : Type 0} (view : o.World → X) (k : IsApart o view) where
  open k use {
    get_bag-apart, add_bag-apart, list_files-apart, stream-apart, now-apart, wait-apart, lock-apart,
    unlock-apart,
  }

  -- The action leaves the part as it is, from the state.
  abbrev pub Leaves : {A : Type 0} → M o.World A → State o.World → Type 0
  Leaves {A} m s = (a : A) (s' : State o.World) → m s ≡ some (a, s') → view s'.world ≡ view s.world

  Leaves-bind :
      {A B : Type 0} (m : M o.World A) (f : A → M o.World B) (s : State o.World)
      → Leaves m s
      → ((a : A) (s' : State o.World) → Leaves (f a) s')
      → Leaves (m >>= f) s
  Leaves-bind m f s h g b s'' e = elim (Option-cases (m s)) [
    | inl missing ↦ absurd (ground (arith, missing, e))
    | inr ((a, s'), ran) ↦ g a s' b s'' (rw (ran, ◌>>=◌) at e) ∙ h a s' ran
  ]

  get_from_local_storage-Leaves :
      (b path : Bytes) (s : State o.World) → Leaves (get_from_local_storage o b path) s
  unfolding get_from_local_storage
  get_from_local_storage-Leaves b path s a s' e = ground (arith, get_bag-apart b s.world)

  poll-Leaves :
      (fuel deadline : ℕ) (b : Bytes) (s : State o.World) → Leaves (poll o fuel deadline b) s
  unfolding poll
  poll-Leaves zero deadline b s a s' e = cc
  poll-Leaves (suc fuel) deadline b s a s' e =
      let w = (o.get_bag b s.world).1 in
      let w' = (o.now w).1 in
      ground (
        arith,
        get_bag-apart b s.world,
        now-apart w,
        wait-apart 500 w',
        poll-Leaves fuel deadline b (record s { world = (o.wait 500 w').1 }) a s',
      )

  wait_for_header-Leaves : (b : Bytes) (s : State o.World) → Leaves (wait_for_header o b) s
  unfolding wait_for_header
  wait_for_header-Leaves b s =
      Leaves-bind (run o.now) _ s (λ t s' e. ground (arith, now-apart s.world))
        (λ t s'. poll-Leaves 62 (t + 30_000) b s')

  do_ensure_bag_in_storage-Leaves :
      (b : Bytes) (s : State o.World) → Leaves (do_ensure_bag_in_storage o b) s
  unfolding do_ensure_bag_in_storage
  do_ensure_bag_in_storage-Leaves b s a s' e =
      let w = (o.now s.world).1 in
      let w' = (o.add_bag b false w).1 in
      ground (
        arith,
        now-apart s.world,
        add_bag-apart b false w,
        get_bag-apart b w',
        wait_for_header-Leaves b (record s { world = w' }) a s',
        wait_for_header-Leaves b (record s { world = (o.get_bag b w').1 }) a s',
      )

  ensure_bag_in_storage-Leaves :
      (b : Bytes) (s : State o.World) → Leaves (ensure_bag_in_storage o b) s
  unfolding ensure_bag_in_storage
  ensure_bag_in_storage-Leaves b s a s' e =
      let (m, locks) = get_ensure_lock b s.locks in
      let locked : State o.World = record { locks = locks; world = o.lock m s.world } in
      Leaves-bind (do_ensure_bag_in_storage o b) (λ r. act (o.unlock m) >> pure r) locked
        (do_ensure_bag_in_storage-Leaves b locked)
        (λ r t c t' e'. ground (arith, unlock-apart m t.world)) a s' e
      ∙ lock-apart m s.world

  get_from_remote_storage-Leaves :
      (b path : Bytes) (s : State o.World) → Leaves (get_from_remote_storage o b path) s
  unfolding get_from_remote_storage remote_info stream_remote_file
  get_from_remote_storage-Leaves b path s a s' e =
      ground (arith, list_files-apart b s.world, stream-apart b path (o.list_files b s.world).1)

  or_else-Leaves :
      (r : Reply) (next : M o.World Reply) (s : State o.World)
      → Leaves next s
      → Leaves (or_else o r next) s
  or_else-Leaves (info, none) next s h a s' e = ground (arith, e)
  or_else-Leaves (info, some f) next s h a s' e = h a s' e

  after_ensure-Leaves :
      (b path : Bytes) (failed : Option GoError) (s : State o.World)
      → Leaves (after_ensure o b path failed) s
  after_ensure-Leaves b path (some f) s = get_from_remote_storage-Leaves b path s
  after_ensure-Leaves b path none s =
      Leaves-bind (get_from_local_storage o b path) _ s (get_from_local_storage-Leaves b path s)
        (λ again s'. or_else-Leaves again _ s' (get_from_remote_storage-Leaves b path s'))

  find_path_info-Leaves : (b path : Bytes) (s : State o.World) → Leaves (find_path_info o b path) s
  unfolding find_path_info
  find_path_info-Leaves b path s =
      Leaves-bind (get_from_local_storage o b path) _ s (get_from_local_storage-Leaves b path s)
        (λ local s'. or_else-Leaves local _ s' (
          Leaves-bind (ensure_bag_in_storage o b) _ s' (ensure_bag_in_storage-Leaves b s')
            (λ failed s''. after_ensure-Leaves b path failed s'')))

  -- Of that part of the world, a request leaves what the ban check leaves.
  pub get_path_info-apart :
      (b path : Bytes) (s s' : State o.World) (reply : Reply)
      → get_path_info o b path s ≡ some (reply, s')
      → view s'.world ≡ view (o.has_ban b s.world).1
  unfolding get_path_info
  get_path_info-apart b path s s' reply e =
      let checked : State o.World = record s { world = (o.has_ban b s.world).1 } in
      ground (arith, find_path_info-Leaves b path checked reply s')
