-- ===== src/Services/Files/Wired.antt =====
-- The service over the repository and the storage daemon that cmd/main.go gives it.
pub mod Banned
pub mod Ending
pub mod Ended
use mytonstorage_gateway.Common.{Bool, Option}
use mytonstorage_gateway.Clients.Remote.Listed.{list_files}
use mytonstorage_gateway.Clients.Storage.{StorageClient, Transport, add_bag, get_bag}
use mytonstorage_gateway.Models.{GoError, Result}
use mytonstorage_gateway.Repositories.{Cached, has_ban}
use mytonstorage_gateway.Repositories.Sql.{Statement, Tables, new_repository}
use mytonstorage_gateway.Services.Files.Ensure.{Outside}
use mytonstorage_gateway.Text.{Bytes, Unicode}

module _ ⦃u : Unicode⦄ (o : Outside) (fault : Statement → Tables → Option GoError) (h : Transport)
    (c : StorageClient) where
  -- The cached tables, the world of the daemon, and that of the remote client, the clock and the
  -- mutexes, which are those of `o`.
  pub record WiredWorld : Type 0 where
    pub files : Cached (new_repository fault)
    pub daemon : h.World
    pub rest : o.World

  unfoldable pub wired_has_ban : Bytes → WiredWorld → Result Bool × WiredWorld
  wired_has_ban bag_id w =
      let (t_get, rest) = o.now w.rest in
      let (t_set, rest') = o.now rest in
      let (answer, files) = has_ban (new_repository fault) t_get t_set bag_id w.files in
      (answer, record w { files = files; rest = rest' })

  -- A call of the rest, and of the daemon.
  abbrev pub in_rest : {A : Type 0} → (o.World → A × o.World) → WiredWorld → A × WiredWorld
  in_rest f w = let (a, rest) = f w.rest in (a, record w { rest = rest })

  abbrev pub in_daemon : {A : Type 0} → (h.World → A × h.World) → WiredWorld → A × WiredWorld
  in_daemon f w = let (a, daemon) = f w.daemon in (a, record w { daemon = daemon })

  -- What `NewService` is given.
  abbrev pub wire : Outside
  wire = record {
    World = WiredWorld;
    has_ban = wired_has_ban;
    get_bag = λ bag_id. in_daemon (get_bag h c bag_id);
    add_bag = λ bag_id download_all. in_daemon (add_bag h c bag_id download_all);
    remote_is_nil = o.remote_is_nil;
    list_files = λ bag_id. in_rest (o.list_files bag_id);
    remote_stream_file = λ bag_id path. in_rest (o.remote_stream_file bag_id path);
    now = in_rest o.now;
    wait = λ ms. in_rest (o.wait ms);
    lock = λ m w. record w { rest = o.lock m w.rest };
    unlock = λ m w. record w { rest = o.unlock m w.rest };
  }
