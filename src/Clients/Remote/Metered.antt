-- ===== src/Clients/Remote/Metered.antt =====
-- `meteredStream` of pkg/clients/remote-ton-storage/metrics_stream.go, with metrics. Of each
-- histogram only the number of observations is kept, and of the stream that it wraps what `Read`
-- returns and how often it is closed.
use mathlib.Core.Path.{subst}
use mytonstorage_gateway.Common.{
  Bool, List, [], arith, false, if◌then◌else◌, ltb, refl, true, ℕ, ◌+◌, ◌-◌, ◌||◌, ◌∷◌, ◌≡◌,
}

pub record MeteredStream : Type 0 where
  -- `firstByteOnce` and `ttfbObserved`, which change together, and `closed`
  pub ttfb_observed : Bool
  pub closed : Bool
  pub reader_closes : ℕ
  -- the collectors
  pub stream_file_ttfb : ℕ
  pub stream_file_bytes : ℕ
  pub stream_file_duration : ℕ
  pub active_streams : ℕ

-- The wrapper that `StreamFile` makes when `others` streams are active, itself counted.
abbrev pub new_metered_stream : ℕ → MeteredStream
new_metered_stream others = record {
  ttfb_observed = false;
  closed = false;
  reader_closes = 0;
  stream_file_ttfb = 0;
  stream_file_bytes = 0;
  stream_file_duration = 0;
  active_streams = others + 1;
}

-- `Read`, where the stream returns `n` bytes.
unfoldable pub read_metered : ℕ → MeteredStream → MeteredStream
read_metered n m =
    if ltb 0 n
    then record m {
      ttfb_observed = true;
      stream_file_ttfb = if m.ttfb_observed then m.stream_file_ttfb else m.stream_file_ttfb + 1;
      stream_file_bytes = m.stream_file_bytes + n;
    }
    else m

-- `Close`
unfoldable pub close_metered : MeteredStream → MeteredStream
close_metered m = if m.closed then m else record m {
  closed = true;
  reader_closes = m.reader_closes + 1;
  stream_file_duration = m.stream_file_duration + 1;
  active_streams = m.active_streams - 1;
}

pub data StreamCall : Type 0 where
  reads_bytes : ℕ → StreamCall
  closes_stream : StreamCall

unfoldable pub use_stream : List StreamCall → MeteredStream → MeteredStream
use_stream [] m = m
use_stream (reads_bytes n ∷ calls) m = use_stream calls (read_metered n m)
use_stream (closes_stream ∷ calls) m = use_stream calls (close_metered m)

-- The bytes that the calls read, and whether one of them closes the stream.
unfoldable pub total_read : List StreamCall → ℕ
total_read [] = 0
total_read (reads_bytes n ∷ calls) = n + total_read calls
total_read (closes_stream ∷ calls) = total_read calls

unfoldable pub is_closed_by : List StreamCall → Bool
is_closed_by [] = false
is_closed_by (reads_bytes n ∷ calls) = is_closed_by calls
is_closed_by (closes_stream ∷ calls) = true

-- The account of a stream of which `total` bytes were read, and that was closed or not.
pub record IsAccounted (others total : ℕ) (is_closed : Bool) (m : MeteredStream) : Type 0 where
  pub bytes : m.stream_file_bytes ≡ total
  pub ttfb : m.stream_file_ttfb ≡ (if ltb 0 total then 1 else 0)
  pub observed : m.ttfb_observed ≡ ltb 0 total
  pub closing : m.closed ≡ is_closed
  pub closes_once : m.reader_closes ≡ (if is_closed then 1 else 0)
  pub duration : m.stream_file_duration ≡ (if is_closed then 1 else 0)
  pub active : m.active_streams ≡ (if is_closed then others else others + 1)

module _ (others : ℕ) where
  read_metered-IsAccounted :
      (n total : ℕ) (is_closed : Bool) (m : MeteredStream)
      → IsAccounted others total is_closed m
      → IsAccounted others (total + n) is_closed (read_metered n m)
  unfolding read_metered
  read_metered-IsAccounted n total is_closed m h = record {
    bytes = ground (arith, h.bytes);
    ttfb = ground (arith, h.ttfb, h.observed);
    observed = ground (arith, h.observed);
    closing = ground (arith, h.closing);
    closes_once = ground (arith, h.closes_once);
    duration = ground (arith, h.duration);
    active = ground (arith, h.active);
  }

  close_metered-IsAccounted :
      (total : ℕ) (is_closed : Bool) (m : MeteredStream)
      → IsAccounted others total is_closed m
      → IsAccounted others total true (close_metered m)
  unfolding close_metered
  close_metered-IsAccounted total is_closed m h = record {
    bytes = ground (arith, h.bytes);
    ttfb = ground (arith, h.ttfb);
    observed = ground (arith, h.observed);
    closing = ground (arith, h.closing);
    closes_once = ground (arith, h.closes_once, h.closing);
    duration = ground (arith, h.duration, h.closing);
    active = ground (arith, h.active, h.closing);
  }

  use_stream-from :
      (calls : List StreamCall) (total : ℕ) (is_closed : Bool) (m : MeteredStream)
      → IsAccounted others total is_closed m
      → IsAccounted others
          (total + total_read calls)
          (is_closed || is_closed_by calls)
          (use_stream calls m)
  unfolding use_stream total_read is_closed_by
  use_stream-from [] total is_closed m h =
      let read : total + 0 ≡ total = omega arith in
      let same : (is_closed || false) ≡ is_closed = ground arith in rw (read, same) h
  use_stream-from (reads_bytes n ∷ calls) total is_closed m h =
      let read : total + (n + total_read calls) ≡ total + n + total_read calls = omega arith in
      rw read (
        use_stream-from calls (total + n) is_closed (read_metered n m)
          (read_metered-IsAccounted n total is_closed m h))
  use_stream-from (closes_stream ∷ calls) total is_closed m h =
      let same : (is_closed || true) ≡ true = ground arith in
      rw same (
        use_stream-from calls total true (close_metered m)
          (close_metered-IsAccounted total is_closed m h))

  -- However a stream is read and closed: the bytes that were read are counted, the time to the first
  -- byte is observed once if there was a byte, and if it was closed, once or more often, the stream
  -- below is closed once, one duration is observed and the gauge of active streams is as before the
  -- stream; otherwise it is still counted there.
  pub use_stream-IsAccounted :
      (calls : List StreamCall)
      → IsAccounted others
          (total_read calls)
          (is_closed_by calls)
          (use_stream calls (new_metered_stream others))
  use_stream-IsAccounted calls =
      let read : 0 + total_read calls ≡ total_read calls = omega arith in
      subst
        (λ total.
          IsAccounted others total (is_closed_by calls)
            (use_stream calls (new_metered_stream others)))
        read
        (use_stream-from calls 0 false (new_metered_stream others) (record {
          bytes = refl;
          ttfb = refl;
          observed = refl;
          closing = refl;
          closes_once = refl;
          duration = refl;
          active = refl;
        }))
