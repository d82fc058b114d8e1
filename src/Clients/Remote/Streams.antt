-- ===== src/Clients/Remote/Streams.antt =====
-- What `StreamFile` returns for a file of a torrent that is there.
use mytonstorage_gateway.Common.{
  List, Option, arith, drop, none, refl, some, suc, take, zero, ℕ, ◌%◌, ◌++◌, ◌+◌, ◌-◌, ◌<◌, ◌^◌,
  ◌≡◌, ◌≢◌,
}
use mytonstorage_gateway.Clients.Remote.{Client, FileInfo, Network, got}
use mytonstorage_gateway.Clients.Remote.Content.{IsPlaced, pieces_from}
use mytonstorage_gateway.Clients.Remote.Delivered.{Delivered, Ends, IsServed, ends, run_pump-Ends}
use mytonstorage_gateway.Clients.Remote.Stream.{
  Piped, Streamed, after_offsets, after_torrent, list_pieces, piece_fuel,
}
use mytonstorage_gateway.Models.{GoError, ok}
use mytonstorage_gateway.Services.Files.Monad.{State, pure, ◌>>=◌}
use mytonstorage_gateway.Text.{Bytes}

-- `piece_fuel` is enough for the list of the pieces.
list_pieces-Returns :
    (k fuel p to_piece : ℕ)
    → p + k ≡ to_piece + 1
    → k < fuel
    → to_piece + 1 < 2 ^ 32
    → list_pieces fuel p to_piece ≢ none
unfolding list_pieces
list_pieces-Returns k zero p to_piece e lt h = ground (arith, lt)
list_pieces-Returns zero (suc fuel) p to_piece e lt h = ground (arith, e)
list_pieces-Returns (suc k) (suc fuel) p to_piece e lt h =
    let next : (p + 1) % 2 ^ 32 ≡ p + 1 = omega (arith, e, h) in
    ground (
      arith,
      list_pieces-Returns k fuel ((p + 1) % 2 ^ 32) to_piece (omega (arith, next, e))
          (omega (arith, lt)) h,
    )

-- A stream of that size that delivers that content, without an error.
pub data Streams (Fault : GoError → Type 0) {n : Network} (size : ℕ) (content : Bytes)
    : Option ((Streamed n × Option GoError) × State (Client n)) → Type 0 where
  streams :
      {piped : Piped} {peers : ℕ} {s : State (Client n)}
      → Delivered Fault piped content
      → Streams Fault size content
          (some ((record { file_stream = some piped; size = size; peers_count = peers }, none), s))

module _ (Fault : GoError → Type 0) (n : Network) where
  piped-Streams :
      (size peers : ℕ) (content : Bytes) (s : State (Client n))
      (result : Option (Piped × State (Client n)))
      → Ends Fault result content
      → Streams Fault size content (
          ((λ _. result) >>= (λ piped.
              pure (record { file_stream = some piped; size = size; peers_count = peers }, none)))
            s)
  piped-Streams size peers content s _ (ends d) = streams d

  module _ (piece : ℕ → Bytes) (info : FileInfo) (content : Bytes) where
    -- With the list of the pieces, whatever it is.
    demanded-Streams :
        (pieces : Option (List ℕ)) (t : n.Torrent) (d : n.Downloader) (s : State (Client n))
        → IsPlaced piece info
        → IsServed n piece Fault
        → take info.from_piece_offset (piece info.from_piece)
            ++ (content ++ drop info.to_piece_offset (piece info.to_piece))
          ≡ pieces_from piece info.from_piece (suc (info.to_piece - info.from_piece))
        → list_pieces (piece_fuel info) info.from_piece info.to_piece ≡ pieces
        → pieces ≢ none
        → Streams Fault info.size content (after_offsets n (ok info) t d s)
    unfolding after_offsets
    demanded-Streams none t d s placed served e listed h = absurd (h refl)
    demanded-Streams (some ps) t d s placed served e listed h = rw listed (
        piped-Streams info.size _ content s _
          (run_pump-Ends Fault n piece info _ _ content placed served e))

-- For a file that lies in the pieces of its bag, the last one below 2 ^ 32 - 1, and a network that
-- serves no other bytes than these pieces: `StreamFile` of a torrent that is there returns, without
-- an error and without a panic, a stream of the size of the file. The stream delivers the bytes of
-- the file, the ones that make up its pieces with the bytes before and after it, or else a
-- beginning of them and then an error of the context, of the fetcher or of the pipe, a `Fault`. If
-- there is none of these, the file is delivered as a whole.
pub after_torrent-Streams :
    (Fault : GoError → Type 0) (n : Network) (piece : ℕ → Bytes) (info : FileInfo)
    (content path : Bytes) (t : n.Torrent) (d : n.Downloader) (s : State (Client n))
    → n.get_file_offsets t path s.world.world ≡ ok info
    → IsPlaced piece info
    → IsServed n piece Fault
    → take info.from_piece_offset (piece info.from_piece)
        ++ (content ++ drop info.to_piece_offset (piece info.to_piece))
      ≡ pieces_from piece info.from_piece (suc (info.to_piece - info.from_piece))
    → Streams Fault info.size content (after_torrent n (got t d) path s)
unfolding after_torrent
after_torrent-Streams Fault n piece info content path t d s offsets placed served e = rw offsets (
    demanded-Streams Fault n piece info content
      (list_pieces (piece_fuel info) info.from_piece info.to_piece) t d s placed served e refl
      (list_pieces-Returns (suc (info.to_piece - info.from_piece)) (piece_fuel info) info.from_piece
        info.to_piece (omega (arith, placed.from-le-to)) (omega arith) placed.to-lt))
