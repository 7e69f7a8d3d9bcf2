-- ===== src/Stream/Seek.antt =====
-- Where STFIFstream::seek of lib/stf_ifstream.cpp stops: behind the marker record that it counts to.
use stf_lib.Common.{
  ℕ, zero, suc, ◌+◌, ◌≤◌, ◌<◌, ◌≡◌, refl, ap, ◌∙◌, arith, Bool, if◌then◌else◌, List, [], ◌∷◌, ◌++◌,
  length, some, ok, err, Ensures, gives, Ensures-bind, Ensures-both, Ensures-any, Ensures-map,
  Ensures-ok, Ensures-equation, lt→ltb, ge→ltb,
}
use stf_lib.Record.{Record}
use stf_lib.Stream.{Fstream, StreamError}
use stf_lib.Stream.Parses.{Parses}
use stf_lib.Stream.Ranges.{AllInRange}
use stf_lib.Stream.Pack.{pack_record, pack_records}
use stf_lib.Stream.Unpack.{read_record}
use stf_lib.Stream.Trace.{seek_error, seek_loop, seek}
use stf_lib.Stream.TraceRoundTrip.{Parses-record}
use stf_lib.Stream.Effects.{is_marker_record, marker_records, Tracks, Tracks-record}

-- The records up to the marker record of this number, and those behind it.
abbrev add_front : Record → List Record × List Record → List Record × List Record
add_front rec (front, back) = (rec ∷ front, back)

unfoldable pub split_at_marker : ℕ → List Record → List Record × List Record
split_at_marker zero trace = ([], trace)
split_at_marker (suc n) [] = ([], [])
split_at_marker (suc n) (rec ∷ trace) =
    add_front rec (split_at_marker (if is_marker_record rec then n else suc n) trace)

-- A round of the loop.
pub seek_loop-stop :
    (fuel end : ℕ) (s : Fstream) (bytes : List ℕ)
    → end ≤ s.num_marker_records
    → seek_loop (suc fuel) end s bytes ≡ some (ok (s, bytes))
unfolding seek_loop
seek_loop-stop fuel end s bytes h = rw (ge→ltb (s.num_marker_records) end h) refl

pub seek_loop-record :
    (fuel end : ℕ) (s s' : Fstream) (rec : Record) (bytes rest : List ℕ)
    → s.num_marker_records < end
    → read_record s bytes ≡ ok (rec, s', rest)
    → seek_loop (suc fuel) end s bytes ≡ seek_loop fuel end s' rest
unfolding seek_loop
seek_loop-record fuel end s s' rec bytes rest h e =
    rw (lt→ltb (s.num_marker_records) end h) (rw e refl)

pub seek_loop-error :
    (fuel end : ℕ) (s : Fstream) (bytes : List ℕ) (e : StreamError)
    → s.num_marker_records < end
    → read_record s bytes ≡ err e
    → seek_loop (suc fuel) end s bytes ≡ some (err (seek_error e))
unfolding seek_loop
seek_loop-error fuel end s bytes e h failed =
    rw (lt→ltb (s.num_marker_records) end h) (rw failed refl)

-- A stream at `bytes`, which are what packing `trace` wrote, seeks `n` marker records forward.
pub record Lands (n : ℕ) (s : Fstream) (trace : List Record) (written : Fstream × List ℕ)
    : Type 0 where
  pub middle : Fstream
  pub front : List ℕ
  pub back : List ℕ
  pub before : pack_records s (split_at_marker n trace).0 ≡ ok (middle, front)
  pub behind : pack_records middle (split_at_marker n trace).1 ≡ ok (written.0, back)
  pub lands :
      (fuel : ℕ)
      → length trace < fuel
      → seek_loop fuel (s.num_marker_records + n) s written.1 ≡ some (ok (middle, back))

no_steps :
    (s : Fstream) (bytes : List ℕ) (steps fuel : ℕ)
    → steps < fuel
    → seek_loop fuel (s.num_marker_records + 0) s bytes ≡ some (ok (s, bytes))
no_steps s bytes steps zero h = absurd (omega (arith, h))
no_steps s bytes steps (suc fuel) h = seek_loop-stop fuel _ s bytes (omega arith)

Lands-here :
    (s : Fstream) (trace : List Record) (written : Fstream × List ℕ)
    → pack_records s trace ≡ ok written
    → Lands zero s trace written
unfolding split_at_marker pack_records
Lands-here s trace written packed = record {
  middle = s;
  front = [];
  back = written.1;
  before = refl;
  behind = packed;
  lands = λ fuel h. no_steps s written.1 (length trace) fuel h;
}

next_count : (b : Bool) (n a : ℕ) → a + (if b then 1 else 0) + (if b then n else suc n) ≡ a + suc n
next_count b n a = ground arith

still_enough :
    (b : Bool) (n m : ℕ) → suc n ≤ (if b then 1 else 0) + m → (if b then n else suc n) ≤ m
still_enough b n m h = ground arith

module _ (rec : Record) (trace : List Record) (n : ℕ) (s s' s'' : Fstream)
    (bytes rest : List ℕ) where
  abbrev rest_count : ℕ
  rest_count = if is_marker_record rec then n else suc n

  seek_loop-behind :
      Parses read_record s bytes rec s'
      → s'.num_marker_records ≡ s.num_marker_records + (if is_marker_record rec then 1 else 0)
      → (behind : Lands rest_count s' trace (s'', rest)) → (fuel : ℕ) → length (rec ∷ trace) < fuel
      → seek_loop fuel (s.num_marker_records + suc n) s (bytes ++ rest)
        ≡ some (ok (behind.middle, behind.back))
  seek_loop-behind h m behind zero enough = absurd (omega (arith, enough))
  seek_loop-behind h m behind (suc fuel) enough =
      seek_loop-record fuel (s.num_marker_records + suc n) s s' rec (bytes ++ rest) rest
        (omega arith) (h.parses rest)
      ∙ (ap (λ (end : ℕ). seek_loop fuel end s' rest)
            (omega (arith, m, next_count (is_marker_record rec) n s.num_marker_records))
          ∙ behind.lands fuel (omega (arith, enough)))

  Lands-next :
      Parses read_record s bytes rec s'
      → s'.num_marker_records ≡ s.num_marker_records + (if is_marker_record rec then 1 else 0)
      → pack_record s rec ≡ ok (s', bytes)
      → Lands rest_count s' trace (s'', rest)
      → Lands (suc n) s (rec ∷ trace) (s'', bytes ++ rest)
  unfolding split_at_marker pack_records
  Lands-next h m packed behind = record {
    middle = behind.middle;
    front = bytes ++ behind.front;
    back = behind.back;
    before = rw packed (rw behind.before refl);
    behind = behind.behind;
    lands = seek_loop-behind h m behind;
  }

pub seek_loop-Lands :
    (trace : List Record) (n : ℕ) (s : Fstream)
    → AllInRange (s.has_32bit_events) trace
    → n ≤ marker_records trace
    → Ensures (Lands n s trace) (pack_records s trace)
unfolding pack_records marker_records
seek_loop-Lands trace zero s h enough =
    Ensures-map _ (λ written (done, packed). Lands-here s trace written packed)
      (Ensures-equation (Ensures-any (pack_records s trace)))
seek_loop-Lands [] (suc n) s h enough = absurd (omega (arith, enough))
seek_loop-Lands (rec ∷ trace) (suc n) s (first, more) enough =
    Ensures-bind _
      (Ensures-equation
        (Ensures-both (Tracks s rec) (Parses-record s rec first) (Tracks-record s rec)))
      (λ (s', bytes) ((back, tracks), packed).
        Ensures-bind _
          (seek_loop-Lands trace (if is_marker_record rec then n else suc n) s'
            (rw back.events more)
            (still_enough (is_marker_record rec) n (marker_records trace) enough))
          (λ (s'', rest) behind.
            gives _
              (Lands-next rec trace n s s' s'' bytes rest back.reads tracks.markers packed behind)))

-- If a stream packs a list of records, in the ranges of their types and none a transaction,
-- that has at least n marker records, then a seek by n marker records from the state that it
-- began in stops right behind the n-th: in the state that the records up to it leave, before
-- the bytes of the records behind it. The fuel is more than the number of records.
pub seek-pack_records :
    (trace : List Record) (n : ℕ) (s s' : Fstream) (bytes : List ℕ) (fuel : ℕ)
    → AllInRange (s.has_32bit_events) trace
    → pack_records s trace ≡ ok (s', bytes)
    → n ≤ marker_records trace
    → length trace < fuel
    → (middle : Fstream) × (front : List ℕ) × (back : List ℕ) × (pack_records s
          (split_at_marker n trace).0
        ≡ ok (middle, front))
      × (pack_records middle (split_at_marker n trace).1 ≡ ok (s', back))
      × (seek fuel n s bytes ≡ some (ok (middle, back)))
unfolding seek
seek-pack_records trace n s s' bytes fuel h packed enough bound =
    let l = Ensures-ok (Lands n s trace) (seek_loop-Lands trace n s h enough) packed in
    (l.middle, l.front, l.back, l.before, l.behind, l.lands fuel bound)
