-- ===== src/Stream.antt =====
-- The bytes of a trace: the state that both streams keep, STFFstream of stf-inc/stf_fstream.hpp, and
-- the codecs of the records of stf-inc/stf_record_types.hpp over it. The file is the list of its
-- bytes. `num_records_read_` is the length of the list of the records read.
pub mod Reads
pub mod Writes
pub mod Events
pub mod Pack
pub mod Unpack
pub mod Parses
pub mod Ranges
pub mod Structs
pub mod RoundTrip
pub mod Trace
pub mod TraceRoundTrip
pub mod Lengths
pub mod Termination
pub mod Effects
pub mod Seek
use stf_lib.Common.{ℕ, suc, Bool, false, ◌==◌, leb, Result, ok, assert, ◌>>=◌, ◌>>◌}
use stf_lib.PcTracker.{PcTracker, PcRecord, new_tracker, track}

-- Exceptions of the source, and where the model stops and the source goes on: a record that the end
-- of the bytes cuts off, a number that is no member of its enumeration, a transaction, and a
-- descriptor for which the factory reads beyond its table.
pub data StreamError : Type 0 where
  vlen_set_twice vlen_too_small vlen_missing vlen_mismatch : StreamError
  end_of_file invalid_descriptor : StreamError
  short_read unknown_value unread_transaction out_of_bounds : StreamError

pub record Fstream : Type 0 where
  pub pc_tracker : PcTracker
  pub num_marker_records : ℕ
  pub vlen : ℕ
  pub has_32bit_events : Bool
  pub protocol : ℕ

-- `protocols::ProtocolId::__RESERVED_END`
abbrev pub no_protocol : ℕ
no_protocol = 2

abbrev pub new_fstream : Fstream
new_fstream = record {
  pc_tracker = new_tracker 0 0;
  num_marker_records = 0;
  vlen = 0;
  has_32bit_events = false;
  protocol = no_protocol;
}

-- `setVLen`; 64 is the width of a register value.
unfoldable pub set_fstream_vlen : Fstream → ℕ → Result StreamError Fstream
set_fstream_vlen s vlen = do
  assert (s.vlen == 0) vlen_set_twice
  assert (leb 64 vlen) vlen_too_small
  ok (record s { vlen = vlen })

-- `trackPC`
abbrev pub track_pc : Fstream → PcRecord → Fstream
track_pc s rec = record s { pc_tracker = track (s.pc_tracker) rec }

-- `markerRecordCallback`
abbrev pub marker_record_callback : Fstream → Fstream
marker_record_callback s = record s { num_marker_records = suc (s.num_marker_records) }
