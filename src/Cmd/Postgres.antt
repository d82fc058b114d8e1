-- ===== src/Cmd/Postgres.antt =====
-- cmd/init.go: the connection string, the settings of the pool and the first connection. The driver
-- is a parameter; its callbacks, which only admit every connection, are left out.
pub mod Url
use mytonstorage_gateway.Common.{List, Option, [], none, some, ℕ, ◌++◌, ◌∷◌}
use mytonstorage_gateway.Cmd.Config.{Postgress}
use mytonstorage_gateway.Models.{GoError, Result, err, ok, wrap}
use mytonstorage_gateway.Text.{Bytes, text}
use mytonstorage_gateway.Text.Escape.{query_escape}

-- The settings of the pool, with what the driver has read from the connection string; the times are
-- in milliseconds.
pub record PoolConfig (Parsed : Type 0) : Type 0 where
  pub parsed : Parsed
  pub max_conns : ℕ
  pub min_conns : ℕ
  pub max_conn_lifetime : ℕ
  pub max_conn_idle_time : ℕ
  pub health_check_period : ℕ
  pub connect_timeout : ℕ

-- The driver: `ParseConfig`, and the errors of `NewWithConfig`, `Acquire` and `Ping`.
pub record Driver : Type 1 where
  pub Parsed : Type 0
  pub parse_config : Bytes → Result Parsed
  pub new_with_config : PoolConfig Parsed → Option GoError
  pub acquire : PoolConfig Parsed → Option GoError
  pub ping : PoolConfig Parsed → Option GoError

pub data DbResource : Type 0 where
  pool connection : DbResource

-- The error of `connectPostgres`, and what it has opened and closed.
pub record Connected : Type 0 where
  pub failed : Option GoError
  pub opened : List DbResource
  pub closed : List DbResource

unfoldable pub pg_url : Postgress → Bytes
pg_url db =
    text "postgres://"
    ++ (query_escape db.user
        ++ b':'
          ∷ (query_escape db.password ++ b'@' ∷ (db.host ++ b':' ∷ (db.port ++ b'/' ∷ db.name))))

module _ (d : Driver) where
  unfoldable pub new_postgres_config : Postgress → Result (PoolConfig d.Parsed)
  new_postgres_config db = elim (d.parse_config (pg_url db)) [
    | err e ↦ err (wrap (text "failed to parse Postgres connection string: ") e)
    | ok parsed ↦ ok (record {
      parsed = parsed;
      max_conns = 12;
      min_conns = 3;
      max_conn_lifetime = 3600000;
      max_conn_idle_time = 1800000;
      health_check_period = 60000;
      connect_timeout = 5000;
    })
  ]

  -- With the settings: the pool, a connection of it that is released in the end, and the ping.
  unfoldable pub open_pool : PoolConfig d.Parsed → Connected
  open_pool cfg = elim (d.new_with_config cfg) [
    | some e ↦ record {
      failed = some (wrap (text "failed to create a new Postgres connection pool: ") e);
      opened = [];
      closed = [];
    }
    | none ↦ elim (d.acquire cfg) [
      | some e ↦ record {
        failed = some (wrap (text "failed to acquire a connection from the Postgres pool: ") e);
        opened = pool ∷ [];
        closed = [];
      }
      | none ↦ elim (d.ping cfg) [
        | some e ↦ record {
          failed = some (wrap (text "failed to ping the Postgres database: ") e);
          opened = pool ∷ connection ∷ [];
          closed = connection ∷ [];
        }
        | none ↦ record { failed = none; opened = pool ∷ connection ∷ []; closed = connection ∷ [] }
      ]
    ]
  ]

  unfoldable pub connect_postgres : Postgress → Connected
  connect_postgres db = elim (new_postgres_config db) [
    | err e ↦ record { failed = some e; opened = []; closed = [] }
    | ok cfg ↦ open_pool cfg
  ]
