-- ===== src/Clients/Remote/Stream.antt =====
-- `StreamFile` of pkg/clients/remote-ton-storage/client.go.
use mytonstorage_gateway.Common.{
  Bool, List, Option, [], drop, false, if◌then◌else◌, leb, length, ltb, none, some, suc, take, true,
  zero, ℕ, ◌%◌, ◌++◌, ◌+◌, ◌-◌, ◌==◌, ◌^◌, ◌∷◌,
}
use mytonstorage_gateway.Clients.Remote.{
  Client, FileInfo, Got, Network, ask, count_one, got, look, not_got, stream_file_req, tell,
}
use mytonstorage_gateway.Clients.Remote.Torrents.{get_torrent_of}
use mytonstorage_gateway.Models.{GoError, Result, err, err_timeout, is_timeout, ok, wrap}
use mytonstorage_gateway.Services.Files.Monad.{M, act, pure, ◌>>=◌, ◌>>◌}
use mytonstorage_gateway.Text.{Bytes, Unicode, text}
use mytonstorage_gateway.Text.Decimal.{decimal}

-- The result of the goroutine: what it wrote to the pipe, and the error that closed it.
pub record Piped : Type 0 where
  pub offered : Bytes
  pub closed_with : Option GoError

abbrev pub offer : Bytes → Piped → Piped
offer part p = record p { offered = part ++ p.offered }

-- `part[:k]` and `part[k:]`; `none` is a panic, also where `k` is within the capacity only.
abbrev pub slice_to : Bool → ℕ → Bytes → Option Bytes
slice_to false k part = some part
slice_to true k part = if ltb (length part) k then none else some (take k part)

abbrev pub slice_from : Bool → ℕ → Option Bytes → Option Bytes
slice_from last_one k none = none
slice_from false k (some part) = some part
slice_from true k (some part) = if ltb (length part) k then none else some (drop k part)

-- The part of a piece that belongs to the file.
unfoldable pub part_of : FileInfo → ℕ → Bytes → Option Bytes
part_of info p piece_bytes =
    slice_from (p == info.from_piece) info.from_piece_offset
      (slice_to (p == info.to_piece) info.to_piece_offset piece_bytes)

abbrev pub piece_then : ℕ → Option (List ℕ) → Option (List ℕ)
piece_then p none = none
piece_then p (some ps) = some (p ∷ ps)

-- The loop that lists the pieces, over 32-bit numbers. `none`: it did not end within its fuel.
unfoldable pub list_pieces : ℕ → ℕ → ℕ → Option (List ℕ)
list_pieces zero p to_piece = none
list_pieces (suc fuel) p to_piece =
    let rest = list_pieces fuel ((p + 1) % 2 ^ 32) to_piece in
    if leb p to_piece then piece_then p rest else some []

-- One round more than there are pieces.
abbrev pub piece_fuel : FileInfo → ℕ
piece_fuel info = info.to_piece - info.from_piece + 2

module _ (n : Network) where
  abbrev pub closed_by : GoError → M (Client n) Piped
  closed_by e = pure (record { offered = []; closed_with = some e })

  -- `none`: a slice is out of range.
  abbrev pub demand : {A : Type 0} → Option A → M (Client n) A
  demand none s = none
  demand (some a) s = some (a, s)

  -- One round of the loop of the goroutine of `StreamFile`, from its end to its start; `rest` is the
  -- rounds after it.
  unfoldable pub after_write : Option GoError → Bytes → M (Client n) Piped → M (Client n) Piped
  after_write (some e) part rest = closed_by e
  after_write none part rest = do piped ← rest; pure (offer part piped)

  unfoldable pub write_part : Bytes → M (Client n) Piped → M (Client n) Piped
  write_part [] rest = rest
  write_part (b ∷ bs) rest = do failed ← ask n (n.write (b ∷ bs)); after_write failed (b ∷ bs) rest

  unfoldable pub after_get : FileInfo → ℕ → Result Bytes → M (Client n) Piped → M (Client n) Piped
  after_get info p (err e) rest =
      closed_by (wrap (text "failed to download piece " ++ decimal p ++ text ": ") e)
  after_get info p (ok piece_bytes) rest = do
    part ← demand (part_of info p piece_bytes)
    write_part part rest

  unfoldable pub after_select :
      Option GoError → FileInfo → n.Fetcher → ℕ → M (Client n) Piped → M (Client n) Piped
  after_select (some e) info fetch p rest = closed_by e
  after_select none info fetch p rest = do
    piece ← ask n (n.get_piece fetch p)
    after_get info p piece rest

  -- The loop. `none`: it did not end within its fuel, or a slice is out of range.
  unfoldable pub pump : ℕ → FileInfo → n.Fetcher → ℕ → M (Client n) Piped
  pump zero info fetch p = λ s. none
  pump (suc fuel) info fetch p =
      let rest = pump fuel info fetch ((p + 1) % 2 ^ 32) in
      elim (leb p info.to_piece) [
        | false ↦ pure (record { offered = []; closed_with = none })
        | true ↦ do cancelled ← ask n n.cancelled; after_select cancelled info fetch p rest
      ]

  -- `FileStream` with the pipe that its reader reads.
  pub record Streamed : Type 0 where
    pub file_stream : Option Piped
    pub size : ℕ
    pub peers_count : ℕ

  abbrev pub no_stream : Streamed
  no_stream = record { file_stream = none; size = 0; peers_count = 0 }

  -- `StreamFile` without a torrent
  unfoldable pub stream_nothing :
      Option n.Torrent → GoError → M (Client n) (Streamed × Option GoError)
  stream_nothing (some t) e = elim (is_timeout e) [
    | true ↦ do
      peers ← look n (n.get_peers t)
      count_one n (stream_file_req (text "timeout"))
      pure (record no_stream { peers_count = peers }, some err_timeout)
    | false ↦ do count_one n (stream_file_req (text "error")); pure (no_stream, some e)
  ]
  stream_nothing none e = do count_one n (stream_file_req (text "error")); pure (no_stream, some e)

  -- `activeStreams.Inc()`
  abbrev pub begin_stream : Client n → Client n
  begin_stream c = elim c.counts [
    | none ↦ c
    | some _ ↦ record c { active_streams = c.active_streams + 1 }
  ]

  -- The goroutine from its start to its end, before which the call may have returned.
  unfoldable pub run_pump : FileInfo → n.Fetcher → M (Client n) Piped
  run_pump info fetch = do
    piped ← pump (piece_fuel info) info fetch info.from_piece
    tell n (n.stop_fetcher fetch)
    pure piped

  -- `StreamFile` once there is a torrent, after the lookup of the path in it
  unfoldable pub after_offsets :
      Result FileInfo → n.Torrent → n.Downloader → M (Client n) (Streamed × Option GoError)
  after_offsets (err e) t d = do
    count_one n (stream_file_req (text "not_found"))
    pure (no_stream, some e)
  after_offsets (ok info) t d = do
    pieces ← demand (list_pieces (piece_fuel info) info.from_piece info.to_piece)
    fetch ← ask n (n.new_pre_fetcher t d pieces)
    act begin_stream
    count_one n (stream_file_req (text "success"))
    peers ← look n (n.get_peers t)
    piped ← run_pump info fetch
    pure (record { file_stream = some piped; size = info.size; peers_count = peers }, none)

  unfoldable pub after_torrent : Got n → Bytes → M (Client n) (Streamed × Option GoError)
  after_torrent (not_got t e) path = stream_nothing t e
  after_torrent (got t d) path = do
    offsets ← look n (n.get_file_offsets t path)
    after_offsets offsets t d

  unfoldable pub stream_file :
      ⦃u : Unicode⦄ → Bytes → Bytes → M (Client n) (Streamed × Option GoError)
  stream_file bag_id path = do result ← get_torrent_of n bag_id; after_torrent result path
