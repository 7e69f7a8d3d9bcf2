-- ===== src/Stream/Trace.antt =====
-- Reading a trace record by record, and STFIFstream::seek of lib/stf_ifstream.cpp. The loops run on
-- fuel.
use stf_lib.Common.{
  ℕ, zero, suc, ◌+◌, ltb, if◌then◌else◌, List, [], ◌∷◌, Option, none, some, Result, ok, err,
}
use stf_lib.Record.{Record}
use stf_lib.Stream.{Fstream, StreamError}
use stf_lib.Stream.Unpack.{read_record}

-- The records that `>>` reads one after the other, and the exception that ends them.
pub record ReadTrace : Type 0 where
  pub records : List Record
  pub last_state : Fstream
  pub exception : StreamError

abbrev pub add_record : Record → Option ReadTrace → Option ReadTrace
add_record rec none = none
add_record rec (some t) = some (record t { records = rec ∷ t.records })

-- A read of the loop, and the rest of the loop.
abbrev pub record_then :
    Fstream
    → Result StreamError (Record × Fstream × List ℕ)
    → (Fstream → List ℕ → Option ReadTrace)
    → Option ReadTrace
record_then s (err e) rest = some (record { records = []; last_state = s; exception = e })
record_then s (ok (rec, s', bytes)) rest = add_record rec (rest s' bytes)

unfoldable pub read_trace : ℕ → Fstream → List ℕ → Option ReadTrace
read_trace zero s bytes = none
read_trace (suc fuel) s bytes =
    record_then s (read_record s bytes) (λ s' rest. read_trace fuel s' rest)

pub data SeekError : Type 0 where
  past_the_end : SeekError
  unreadable : StreamError → SeekError

-- What `seek` makes of an exception.
abbrev pub seek_error : StreamError → SeekError
seek_error StreamError.end_of_file = past_the_end
seek_error e = unreadable e

abbrev pub Sought : Type 0
Sought = Option (Result SeekError (Fstream × List ℕ))

-- A round of the loop of `seek`, and the rest of the loop.
abbrev pub seek_then :
    Result StreamError (Record × Fstream × List ℕ) → (Fstream → List ℕ → Sought) → Sought
seek_then (err e) rest = some (err (seek_error e))
seek_then (ok (rec, s', bytes)) rest = rest s' bytes

-- The loop of `seek`, of an open stream.
unfoldable pub seek_loop : ℕ → ℕ → Fstream → List ℕ → Sought
seek_loop zero end_marker_num s bytes = none
seek_loop (suc fuel) end_marker_num s bytes =
    if ltb s.num_marker_records end_marker_num
    then seek_then (read_record s bytes) (λ s' rest. seek_loop fuel end_marker_num s' rest)
    else some (ok (s, bytes))

unfoldable pub seek : ℕ → ℕ → Fstream → List ℕ → Sought
seek fuel num_marker_records s bytes =
    seek_loop fuel (s.num_marker_records + num_marker_records) s bytes
