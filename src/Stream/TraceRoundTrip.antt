-- ===== src/Stream/TraceRoundTrip.antt =====
-- A trace of records is read back from its bytes.
use stf_lib.Common.{
  ℕ, zero, suc, ◌<◌, ◌≡◌, refl, ap, ◌∙◌, arith, List, [], ◌∷◌, ◌++◌, length, some, ok, err, Ensures,
  gives, Ensures-bind, Ensures-ok,
}
use stf_lib.Descriptor.{Descriptor, encoded, internal, descriptors}
use stf_lib.Descriptor.Conversion.{to_internal-encoded}
use stf_lib.Record.{Record, get_id}
use stf_lib.Stream.{Fstream, end_of_file}
use stf_lib.Stream.Reads.{◌>>=◌, read_object_id}
use stf_lib.Stream.Writes.{write_uint}
use stf_lib.Stream.Parses.{Parses, Parses-bind}
use stf_lib.Stream.Ranges.{InRange, AllInRange, events_after}
use stf_lib.Stream.Pack.{pack_record, pack_records}
use stf_lib.Stream.Unpack.{
  unpack_impl, constructor_at, constructed, construct, construct_at, read_record,
}
use stf_lib.Stream.RoundTrip.{Parses-impl}
use stf_lib.Stream.Trace.{add_record, read_trace}

constructor_at-internal : (d : Descriptor) → constructor_at (internal d) descriptors ≡ some d
unfolding constructor_at internal
constructor_at-internal Descriptor.reserved = refl
constructor_at-internal _ = refl

construct-encoded : (d : Descriptor) → construct (encoded d) ≡ unpack_impl d
unfolding construct construct_at
construct-encoded d =
    ap construct_at (to_internal-encoded d) ∙ ap constructed (constructor_at-internal d)

Parses-object_id :
    (d : Descriptor) (s : Fstream)
    → Parses read_object_id s (write_uint 1 (encoded d)) (encoded d) s
unfolding write_uint read_object_id encoded
Parses-object_id Descriptor.reserved s = record { parses = λ rest. refl }
Parses-object_id _ s = record { parses = λ rest. refl }

-- The bytes of a record, its descriptor included, and the state after it, as reading finds them.
pub record RecordBack (s : Fstream) (rec : Record) (written : Fstream × List ℕ) : Type 0 where
  pub reads : Parses read_record s written.1 rec written.0
  pub events : (written.0).has_32bit_events ≡ events_after s.has_32bit_events rec

pub Parses-record :
    (s : Fstream) (rec : Record)
    → InRange (s.has_32bit_events) rec
    → Ensures (RecordBack s rec) (pack_record s rec)
unfolding pack_record read_record
Parses-record s rec h = Ensures-bind _ (Parses-impl s rec h) (λ (s', bytes) back. gives _ (record {
  reads =
      Parses-bind _ (Parses-object_id (get_id rec) s)
        (rw (construct-encoded (get_id rec)) back.reads);
  events = back.events;
}))

pub read_record-end : (s : Fstream) → read_record s [] ≡ err end_of_file
unfolding read_record read_object_id ◌>>=◌
read_record-end s = refl

read_trace-end :
    (fuel : ℕ) (s : Fstream)
    → read_trace (suc fuel) s []
      ≡ some (record { records = []; last_state = s; exception = end_of_file })
unfolding read_trace
read_trace-end fuel s = rw (read_record-end s) refl

pub read_trace-record :
    (fuel : ℕ) (s s' : Fstream) (rec : Record) (bytes rest : List ℕ)
    → read_record s bytes ≡ ok (rec, s', rest)
    → read_trace (suc fuel) s bytes ≡ add_record rec (read_trace fuel s' rest)
unfolding read_trace
read_trace-record fuel s s' rec bytes rest e = rw e refl

-- What reading makes of the bytes of a trace, before more of it and alone.
pub record TraceBack (s : Fstream) (trace : List Record) (written : Fstream × List ℕ) : Type 0 where
  pub reads_trace :
      (fuel : ℕ)
      → length trace < fuel
      → read_trace fuel s written.1
        ≡ some (record { records = trace; last_state = written.0; exception = end_of_file })

first_of_fuel :
    (s : Fstream) (rec : Record) (s' : Fstream) (bytes rest : List ℕ) (trace : List Record)
    (s'' : Fstream)
    → read_record s (bytes ++ rest) ≡ ok (rec, s', rest)
    → TraceBack s' trace (s'', rest)
    → (fuel : ℕ) → length (rec ∷ trace) < fuel
    → read_trace fuel s (bytes ++ rest)
      ≡ some (record { records = rec ∷ trace; last_state = s''; exception = end_of_file })
first_of_fuel s rec s' bytes rest trace s'' e more zero enough = absurd (omega (arith, enough))
first_of_fuel s rec s' bytes rest trace s'' e more (suc fuel) enough =
    read_trace-record fuel s s' rec (bytes ++ rest) rest e
    ∙ ap (add_record rec) (more.reads_trace fuel (omega (arith, enough)))

no_records :
    (s : Fstream) (fuel : ℕ)
    → 0 < fuel
    → read_trace fuel s [] ≡ some (record { records = []; last_state = s; exception = end_of_file })
no_records s zero enough = absurd (omega (arith, enough))
no_records s (suc fuel) enough = read_trace-end fuel s

first_record :
    (s : Fstream) (rec : Record) (s' : Fstream) (bytes rest : List ℕ) (trace : List Record)
    (s'' : Fstream)
    → Parses read_record s bytes rec s'
    → TraceBack s' trace (s'', rest)
    → TraceBack s (rec ∷ trace) (s'', bytes ++ rest)
first_record s rec s' bytes rest trace s'' h more = record {
  reads_trace = first_of_fuel s rec s' bytes rest trace s'' (h.parses rest) more;
}

pack_records-TraceBack :
    (trace : List Record) (s : Fstream)
    → AllInRange (s.has_32bit_events) trace
    → Ensures (TraceBack s trace) (pack_records s trace)
unfolding pack_records
pack_records-TraceBack [] s h = gives _ (record { reads_trace = no_records s })
pack_records-TraceBack (rec ∷ trace) s (first, more) =
    Ensures-bind _ (Parses-record s rec first) (λ (s', bytes) back.
      Ensures-bind _ (pack_records-TraceBack trace s' (rw back.events more))
        (λ (s'', rest) rest_back.
          gives _ (first_record s rec s' bytes rest trace s'' back.reads rest_back)))

-- Packing a list of records to a stream, if no assertion fails, and reading the bytes from a
-- stream in the state that the first one began in gives the same records, the same state, and
-- then the end of the file. The members of the records have the ranges of their types, no
-- container is longer than the type of its size can say, no record is a transaction, and an
-- event that is written with 32 bits has only its two top bits and a number below 2 to the 30.
-- The fuel is more than the number of records.
pub read_trace-pack_records :
    (trace : List Record) (s s' : Fstream) (bytes : List ℕ) (fuel : ℕ)
    → AllInRange (s.has_32bit_events) trace
    → pack_records s trace ≡ ok (s', bytes)
    → length trace < fuel
    → read_trace fuel s bytes
      ≡ some (record { records = trace; last_state = s'; exception = end_of_file })
read_trace-pack_records trace s s' bytes fuel h packed enough =
    (Ensures-ok (TraceBack s trace) (pack_records-TraceBack trace s h) packed).reads_trace fuel
      enough
