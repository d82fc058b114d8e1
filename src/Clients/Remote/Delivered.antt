-- ===== src/Clients/Remote/Delivered.antt =====
-- What the goroutine of `StreamFile` delivers.
use mathlib.Core.List.{append_assoc, append_cancel_left, append_cancel_right}
use mathlib.Core.Path.{subst}
use mytonstorage_gateway.Common.{
  Option, [], arith, drop, false, leb, none, refl, some, suc, sym, take, true, zero, ℕ, ◌%◌, ◌++◌,
  ◌+◌, ◌-◌, ◌<◌, ◌^◌, ◌∙◌, ◌∷◌, ◌≡◌,
}
use mytonstorage_gateway.Clients.Remote.{Client, FileInfo, Network, tell}
use mytonstorage_gateway.Clients.Remote.Content.{
  IsPlaced, file_part, file_parts, file_parts_exact, part_of-file_part, pieces_from,
}
use mytonstorage_gateway.Clients.Remote.Stream.{
  Piped, after_get, after_select, after_write, offer, piece_fuel, pump, run_pump, write_part,
}
use mytonstorage_gateway.Models.{GoError, Result, err, ok, wrap}
use mytonstorage_gateway.Services.Files.Monad.{M, State, pure, ◌>>=◌, ◌>>◌}
use mytonstorage_gateway.Text.{Bytes, text}
use mytonstorage_gateway.Text.Decimal.{decimal}

-- How a network serves the pieces `piece p` of a bag: what `Get` of the fetcher returns is the piece,
-- and an error with which the goroutine closes the pipe is a `Fault`.
pub record IsServed (n : Network) (piece : ℕ → Bytes) (Fault : GoError → Type 0) : Type 0 where
  pub get-piece :
      (f : n.Fetcher) (p : ℕ) (w : n.World) (bs : Bytes)
      → (n.get_piece f p w).0 ≡ ok bs
      → bs ≡ piece p
  pub get-Fault :
      (f : n.Fetcher) (p : ℕ) (w : n.World) (e : GoError)
      → (n.get_piece f p w).0 ≡ err e
      → Fault (wrap (text "failed to download piece " ++ decimal p ++ text ": ") e)
  pub cancelled-Fault : (w : n.World) (e : GoError) → (n.cancelled w).0 ≡ some e → Fault e
  pub write-Fault :
      (part : Bytes) (w : n.World) (e : GoError) → (n.write part w).0 ≡ some e → Fault e

-- The bytes are all of the content, or a beginning of it and then an error.
pub data Delivered (Fault : GoError → Type 0) : Piped → Bytes → Type 0 where
  whole :
      {content : Bytes} → Delivered Fault (record { offered = content; closed_with = none }) content
  cut :
      {start : Bytes} {e : GoError} (rest : Bytes)
      → Fault e
      → Delivered Fault (record { offered = start; closed_with = some e }) (start ++ rest)

-- The loop ends without a panic, and delivers the content.
pub data Ends (Fault : GoError → Type 0) {S : Type 0} : Option (Piped × S) → Bytes → Type 0 where
  ends :
      {piped : Piped} {s : S} {content : Bytes}
      → Delivered Fault piped content
      → Ends Fault (some (piped, s)) content

module _ (Fault : GoError → Type 0) where
  offer-Delivered :
      (part : Bytes) (p : Piped) (content : Bytes)
      → Delivered Fault p content
      → Delivered Fault (offer part p) (part ++ content)
  offer-Delivered part _ _ whole = whole
  offer-Delivered part _ _ (cut {start} rest fault) =
      subst (Delivered Fault (offer part _)) (append_assoc part start rest) (cut rest fault)

  module _ (n : Network) (piece : ℕ → Bytes) (info : FileInfo) where
    -- What follows a round ends, and delivers its content, from any state.
    abbrev Finishes : M (Client n) Piped → Bytes → Type 0
    Finishes rest content = (s : State (Client n)) → Ends Fault (rest s) content

    offered-Ends :
        (part : Bytes) (s : State (Client n)) (result : Option (Piped × State (Client n)))
        (content : Bytes)
        → Ends Fault result content
        → Ends Fault (((λ _. result) >>= (λ piped. pure (offer part piped))) s) (part ++ content)
    offered-Ends part s _ content (ends d) = ends (offer-Delivered part _ content d)

    after_write-Finishes :
        (failed : Option GoError) (part : Bytes) (rest : M (Client n) Piped) (content : Bytes)
        → ((e : GoError) → failed ≡ some e → Fault e)
        → Finishes rest content
        → Finishes (after_write n failed part rest) (part ++ content)
    unfolding after_write
    after_write-Finishes (some e) part rest content f h s = ends (cut (part ++ content) (f e refl))
    after_write-Finishes none part rest content f h s = offered-Ends part s (rest s) content (h s)

    module _ (placed : IsPlaced piece info) (served : IsServed n piece Fault) where
      write_part-Finishes :
          (part : Bytes) (rest : M (Client n) Piped) (content : Bytes)
          → Finishes rest content
          → Finishes (write_part n part rest) (part ++ content)
      unfolding write_part
      write_part-Finishes [] rest content h s = h s
      write_part-Finishes (b ∷ bs) rest content h s =
          after_write-Finishes (n.write (b ∷ bs) s.world.world).0 (b ∷ bs) rest content
            (served.write-Fault (b ∷ bs) s.world.world) h _

      after_get-Finishes :
          (p : ℕ) (reply : Result Bytes) (rest : M (Client n) Piped) (content : Bytes)
          → ((bs : Bytes) → reply ≡ ok bs → bs ≡ piece p)
          → ((e : GoError)
              → reply ≡ err e
              → Fault (wrap (text "failed to download piece " ++ decimal p ++ text ": ") e))
          → Finishes rest content
          → Finishes (after_get n info p reply rest) (file_part piece info p ++ content)
      unfolding after_get
      after_get-Finishes p (err e) rest content h f k s = ends (cut _ (f e refl))
      after_get-Finishes p (ok bs) rest content h f k s =
          rw (h bs refl, part_of-file_part piece info p placed)
            (write_part-Finishes (file_part piece info p) rest content k s)

      after_select-Finishes :
          (cancelled : Option GoError) (fetch : n.Fetcher) (p : ℕ) (rest : M (Client n) Piped)
          (content : Bytes)
          → ((e : GoError) → cancelled ≡ some e → Fault e)
          → Finishes rest content
          → Finishes
              (after_select n cancelled info fetch p rest)
              (file_part piece info p ++ content)
      unfolding after_select
      after_select-Finishes (some e) fetch p rest content f k s = ends (cut _ (f e refl))
      after_select-Finishes none fetch p rest content f k s =
          after_get-Finishes p (n.get_piece fetch p s.world.world).0 rest content
            (served.get-piece fetch p s.world.world) (served.get-Fault fetch p s.world.world) k _

      pump-Finishes :
          (k fuel : ℕ) (fetch : n.Fetcher) (p : ℕ)
          → p + k ≡ info.to_piece + 1
          → k < fuel
          → Finishes (pump n fuel info fetch p) (file_parts piece info p k)
      unfolding pump file_parts
      pump-Finishes k zero fetch p e lt s = ground (arith, lt)
      pump-Finishes zero (suc fuel) fetch p e lt s =
          let past : leb p info.to_piece ≡ false = ground (arith, e) in rw (pump, past) (ends whole)
      pump-Finishes (suc k) (suc fuel) fetch p e lt s =
          let inside : leb p info.to_piece ≡ true = ground (arith, e) in
          let next : (p + 1) % 2 ^ 32 ≡ p + 1 = omega (arith, e, placed.to-lt) in
          rw (pump, inside, next)
            (after_select-Finishes (n.cancelled s.world.world).0 fetch p
              (pump n fuel info fetch (p + 1)) (file_parts piece info (p + 1) k)
              (served.cancelled-Fault s.world.world)
              (pump-Finishes k fuel fetch (p + 1) (omega (arith, e)) (omega (arith, lt))) _)

      -- The rest of the goroutine keeps what the loop delivers.
      stopped-Ends :
          (s : State (Client n)) (fetch : n.Fetcher) (result : Option (Piped × State (Client n)))
          (content : Bytes)
          → Ends Fault result content
          → Ends Fault
              (((λ _. result) >>= (λ piped. tell n (n.stop_fetcher fetch) >> pure piped)) s)
              content
      stopped-Ends s fetch _ content (ends d) = ends d

      run_pump-parts :
          (k : ℕ) (fetch : n.Fetcher) (s : State (Client n))
          → info.from_piece + k ≡ info.to_piece
          → Ends Fault (run_pump n info fetch s) (file_parts piece info info.from_piece (suc k))
      unfolding run_pump
      run_pump-parts k fetch s e =
          stopped-Ends s fetch (pump n (piece_fuel info) info fetch info.from_piece s) _ (
            pump-Finishes (suc k) (piece_fuel info) fetch info.from_piece (omega (arith, e))
              (omega (arith, e)) s)

-- For a file that lies in its pieces, with the last one below 2 ^ 32 - 1, and a network whose
-- pieces are those of the bag: the goroutine of a stream ends without a panic. What it has written
-- are the bytes of the file, the ones that make up its pieces with the bytes before and after it,
-- or else a beginning of them, and then it closes the pipe with an error of the context, of the
-- fetcher or of the pipe, a `Fault`. If there is none of these, the file is delivered as a whole.
pub run_pump-Ends :
    (Fault : GoError → Type 0) (n : Network) (piece : ℕ → Bytes) (info : FileInfo)
    (fetch : n.Fetcher) (s : State (Client n)) (content : Bytes)
    → IsPlaced piece info
    → IsServed n piece Fault
    → take info.from_piece_offset (piece info.from_piece)
        ++ (content ++ drop info.to_piece_offset (piece info.to_piece))
      ≡ pieces_from piece info.from_piece (suc (info.to_piece - info.from_piece))
    → Ends Fault (run_pump n info fetch s) content
run_pump-Ends Fault n piece info fetch s content placed served e =
    let k = info.to_piece - info.from_piece in
    let reached : info.from_piece + k ≡ info.to_piece = omega (arith, placed.from-le-to) in
    subst (Ends Fault (run_pump n info fetch s))
      (sym (
        append_cancel_right content (file_parts piece info info.from_piece (suc k))
          (drop info.to_piece_offset (piece info.to_piece))
          (append_cancel_left (take info.from_piece_offset (piece info.from_piece)) _ _
            (e ∙ sym (file_parts_exact piece info k placed reached)))))
      (run_pump-parts Fault n piece info placed served k fetch s reached)
