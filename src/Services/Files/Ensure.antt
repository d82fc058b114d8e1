-- ===== src/Services/Files/Ensure.antt =====
-- `getFromLocalStorage` and `ensureBagInStorage` of pkg/services/files/service.go. The database, the
-- storage daemon, the remote client, the clock and the mutexes are outside of the service:
-- parameters that act on a `World`.
use mytonstorage_gateway.Common.{
  Bool, Option, false, length, ltb, none, some, suc, true, zero, ℕ, ◌+◌, ◌||◌,
}
use mytonstorage_gateway.Models.{GoError, Result, err, ok, plain_error, wrap}
use mytonstorage_gateway.Services.Files.{BagDetailed, BagInfo, FileStream}
use mytonstorage_gateway.Services.Files.Local.{Reply, local_reply}
use mytonstorage_gateway.Services.Files.Monad.{
  M, act, get_ensure_lock, on_locks, pure, run, ◌>>=◌, ◌>>◌,
}
use mytonstorage_gateway.Text.{Bytes, text}

-- What the service calls.
pub record Outside : Type 1 where
  pub World : Type 0
  -- `reportsDb.HasBan`
  pub has_ban : Bytes → World → Result Bool × World
  -- `storage.GetBag` and `storage.AddBag`
  pub get_bag : Bytes → World → Result BagDetailed × World
  pub add_bag : Bytes → Bool → World → Option GoError × World
  -- `remoteTonStorage`, or nil; the value beside an error is read
  pub remote_is_nil : Bool
  pub list_files : Bytes → World → (BagInfo × Option GoError) × World
  pub remote_stream_file : Bytes → Bytes → World → (FileStream × Option GoError) × World
  -- `time.Now()`, in milliseconds
  pub now : World → ℕ × World
  -- `select` on `ctx.Done()`, whose error it returns, and `time.After`
  pub wait : ℕ → World → Option GoError × World
  -- `Lock` and `Unlock` of the mutex with that number
  pub lock : ℕ → World → World
  pub unlock : ℕ → World → World

-- `constants.BagHeaderLoadTimeout` and `constants.BagHeaderLoadPollInterval`, in milliseconds
abbrev pub bag_header_load_timeout : ℕ
bag_header_load_timeout = 30_000

abbrev pub bag_header_load_poll_interval : ℕ
bag_header_load_poll_interval = 500

-- More rounds than the polling loop makes.
abbrev pub poll_fuel : ℕ
poll_fuel = 62

-- `bag.HeaderLoaded || len(bag.Files) > 0`, for a bag that was returned without an error
abbrev pub is_ready : Result BagDetailed → Bool
is_ready (ok bag) = bag.header_loaded || ltb 0 (length bag.files)
is_ready (err e) = false

module _ (o : Outside) where
  unfoldable pub get_from_local_storage : Bytes → Bytes → M o.World Reply
  get_from_local_storage bag_id path = do
    bag ← run (o.get_bag bag_id)
    pure (local_reply bag_id path bag)

  -- The loop of `doEnsureBagInStorage`.
  unfoldable pub poll : ℕ → ℕ → Bytes → M o.World (Option GoError)
  poll zero deadline bag_id = λ s. none
  poll (suc fuel) deadline bag_id = do
    bag ← run (o.get_bag bag_id)
    elim (is_ready bag) [
      | true ↦ pure none
      | false ↦ do
        t ← run o.now
        elim (ltb deadline t) [
          | true ↦ pure (some (plain_error (text "timeout waiting for bag header after 30s")))
          | false ↦ do
            cancelled ← run (o.wait bag_header_load_poll_interval)
            elim cancelled [ some e ↦ pure (some e) | none ↦ poll fuel deadline bag_id ]
        ]
    ]

  -- The wait of `doEnsureBagInStorage` for the header of a bag.
  unfoldable pub wait_for_header : Bytes → M o.World (Option GoError)
  wait_for_header bag_id = do t ← run o.now; poll poll_fuel (t + bag_header_load_timeout) bag_id

  unfoldable pub do_ensure_bag_in_storage : Bytes → M o.World (Option GoError)
  do_ensure_bag_in_storage bag_id = do
    _ ← run o.now
    added ← run (o.add_bag bag_id false)
    elim added [
      | none ↦ wait_for_header bag_id
      | some e ↦ do
        bag ← run (o.get_bag bag_id)
        elim bag [ err _ ↦ pure (some (wrap (text "add bag: ") e)) | ok _ ↦ wait_for_header bag_id ]
    ]

  unfoldable pub ensure_bag_in_storage : Bytes → M o.World (Option GoError)
  ensure_bag_in_storage bag_id = do
    mutex ← on_locks (get_ensure_lock bag_id)
    act (o.lock mutex)
    result ← do_ensure_bag_in_storage bag_id
    act (o.unlock mutex)
    pure result
