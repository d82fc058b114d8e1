-- ===== src/Cache.antt =====
-- pkg/cache/simple.go: a map whose entries expire. A method takes the time that it reads from the
-- clock as its first argument; the mutex makes each method one step.
pub mod Reads
use mytonstorage_gateway.Common.{
  Bool, List, Option, [], if◌then◌else◌, leb, ltb, none, some, ℕ, ◌+◌, ◌∷◌,
}
use mytonstorage_gateway.Dict.{delete, insert, keep_if, lookup}
use mytonstorage_gateway.Text.{Bytes}

pub record Item {ℓ} (V : Type ℓ) : Type ℓ where
  pub value : V
  pub expiry_time : ℕ

pub record SimpleCache {ℓ} (V : Type ℓ) : Type ℓ where
  pub items : List (Bytes × Item V)
  pub ttl : ℕ

module _ {ℓ} {V : Type ℓ} where
  unfoldable pub new_simple_cache : ℕ → SimpleCache V
  new_simple_cache ttl = record { items = []; ttl = ttl }

  -- The values of the entries that `GetAll` copies.
  abbrev pub live_items : ℕ → List (Bytes × Item V) → List (Bytes × V)
  live_items now [] = []
  live_items now ((k, it) ∷ items) =
      let rest = live_items now items in
      if ltb now it.expiry_time then (k, it.value) ∷ rest else rest

  unfoldable pub get_all : ℕ → SimpleCache V → List (Bytes × V)
  get_all now c = live_items now c.items

  unfoldable pub set : ℕ → Bytes → V → SimpleCache V → SimpleCache V
  set now key value c = record c {
    items = insert key (record { value = value; expiry_time = now + c.ttl }) c.items;
  }

  -- `!ok || time.Now().After(it.expiryTime)`, negated
  abbrev pub is_live : ℕ → Item V → Bool
  is_live now it = leb now it.expiry_time

  unfoldable pub get : ℕ → Bytes → SimpleCache V → Option V × SimpleCache V
  get now key c = elim (lookup key c.items) [
    | none ↦ (none, record c { items = delete key c.items })
    | some it ↦
        if is_live now it
        then (some it.value, c)
        else (none, record c { items = delete key c.items })
  ]

  unfoldable pub release : ℕ → Bytes → SimpleCache V → Option V × SimpleCache V
  release now key c = elim (lookup key c.items) [
    | none ↦ (none, record c { items = delete key c.items })
    | some it ↦
        if is_live now it
        then (some it.value, record c { items = delete key c.items })
        else (none, record c { items = delete key c.items })
  ]

  -- One tick of `cleanup`.
  unfoldable pub cleanup : ℕ → SimpleCache V → SimpleCache V
  cleanup now c = record c { items = keep_if (is_live now) c.items }
