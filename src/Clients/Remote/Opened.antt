-- ===== src/Clients/Remote/Opened.antt =====
-- `NewClient` and `Close` of pkg/clients/remote-ton-storage/client.go: what they open and close.
use mathlib.Core.List.{reverse}
use mytonstorage_gateway.Common.{List, Option, [], arith, if◌then◌else◌, none, some, ◌++◌, ◌∷◌, ◌≡◌}
use mytonstorage_gateway.Clients.BagsCache.{BagsCache, CacheMetrics, with_metrics}
use mytonstorage_gateway.Clients.Remote.{Client, Network}
use mytonstorage_gateway.Models.{GoError, wrap}
use mytonstorage_gateway.Services.Files.Monad.{State}
use mytonstorage_gateway.Text.{Bytes, bytes_eq, text}

-- What a client holds: the network reader, the two gateways, the client of the DHT and the server.
pub data Resource : Type 0 where
  net_mgr dht_gateway dht_client storage_gate server : Resource

-- The errors of the steps of `NewClient`, where they have one.
pub record Faults : Type 0 where
  pub get_config : Bytes → Option GoError
  pub listen : Option GoError
  pub dht_key : Option GoError
  pub start_dht : Option GoError
  pub new_dht_client : Option GoError
  pub storage_key : Option GoError
  pub start_storage : Option GoError

-- The error of `NewClient`, and the resources in the order in which they are opened and closed.
pub record Started : Type 0 where
  pub failed : Option GoError
  pub opened : List Resource
  pub closed : List Resource

abbrev pub default_config_url : Bytes
default_config_url = text "https://ton-blockchain.github.io/global.config.json"

abbrev pub fails : Bytes → GoError → List Resource → List Resource → Started
fails m e opened closed = record { failed = some (wrap m e); opened = opened; closed = closed }

-- The start of the storage gateway, once the DHT is there.
unfoldable pub start_storage_gate : Faults → Started
start_storage_gate f = elim f.storage_key [
  | some e ↦
      fails (text "failed to generate storage key: ") e (net_mgr ∷ dht_gateway ∷ dht_client ∷ [])
        (dht_client ∷ dht_gateway ∷ net_mgr ∷ [])
  | none ↦ elim f.start_storage [
    | some e ↦
        fails (text "failed to start storage gateway: ") e (net_mgr ∷ dht_gateway ∷ dht_client ∷ [])
          (dht_client ∷ dht_gateway ∷ net_mgr ∷ [])
    | none ↦ record {
      failed = none;
      opened = net_mgr ∷ dht_gateway ∷ dht_client ∷ storage_gate ∷ server ∷ [];
      closed = [];
    }
  ]
]

-- The start of the DHT, once the network reader is there.
unfoldable pub start_dht_client : Faults → Started
start_dht_client f = elim f.dht_key [
  | some e ↦ fails (text "failed to generate dht key: ") e (net_mgr ∷ []) (net_mgr ∷ [])
  | none ↦ elim f.start_dht [
    | some e ↦ fails (text "failed to start dht gateway: ") e (net_mgr ∷ []) (net_mgr ∷ [])
    | none ↦ elim f.new_dht_client [
      | some e ↦
          fails (text "failed to init dht client: ") e (net_mgr ∷ dht_gateway ∷ [])
            (dht_gateway ∷ net_mgr ∷ [])
      | none ↦ start_storage_gate f
    ]
  ]
]

unfoldable pub new_client : Faults → Bytes → Started
new_client f config_url =
    elim (f.get_config (if bytes_eq config_url [] then default_config_url else config_url)) [
      | some e ↦ fails (text "failed to fetch TON global config: ") e [] []
      | none ↦ elim f.listen [
        | some e ↦ fails (text "failed to create adnl listener: ") e [] []
        | none ↦ start_dht_client f
      ]
    ]

-- `Close`: nothing of a client that was not made, which is nil.
unfoldable pub close : Started → Started
close s = elim s.failed [
  | some e ↦ s
  | none ↦ record s {
    closed = s.closed ++ server ∷ storage_gate ∷ dht_client ∷ dht_gateway ∷ net_mgr ∷ [];
  }
]

-- The client that `NewClient` returns, with its mutexes.
unfoldable pub new_state :
    (n : Network)
    → BagsCache (n.Torrent × n.Downloader)
    → Option CacheMetrics
    → n.World
    → State (Client n)
new_state n bags_cache metrics w = record {
  locks = record { mutexes = some []; allocated = 0 };
  world = record {
    bags_cache = elim metrics [ none ↦ bags_cache | some m ↦ with_metrics m bags_cache ];
    store = [];
    counts = elim metrics [ none ↦ none | some _ ↦ some [] ];
    active_streams = 0;
    world = w;
  };
}

-- Whichever step of `NewClient` fails, what was opened before it is closed, the last one first; if
-- none fails nothing is closed. `Close` then closes everything, again the last one first.
pub close-reverse :
    (f : Faults) (config_url : Bytes)
    → (close (new_client f config_url)).closed ≡ reverse (close (new_client f config_url)).opened
unfolding close new_client start_dht_client start_storage_gate
close-reverse f config_url = ground arith
