-- ===== src/Stream/Effects.antt =====
-- What a record does to the PC and to the number of marker records that a stream keeps.
use stf_lib.Common.{
  ℕ, ◌+◌, ◌≡◌, refl, sym, ap, ◌∙◌, arith, Bool, true, false, if◌then◌else◌, List, [], ◌∷◌, ◌++◌, ok,
  Ensures, gives, throws, Ensures-bind, Ensures-any, Ensures-ok, result_cases, inl, inr,
}
use stf_lib.PcTracker.{PcTracker, PcRecord, track, track_all}
use stf_lib.Record.{Record, Body}
use stf_lib.Stream.{Fstream, set_fstream_vlen}
use stf_lib.Stream.Pack.{pack_impl, pack_body, pack_record, pack_records, pack_inst_reg}

-- The records that the PC tracker inspects.
abbrev pub body_pc_records : Body → List PcRecord
body_pc_records (Body.inst_pc_target a) = PcRecord.pc_target_record a ∷ []
body_pc_records (Body.event_pc_target a) = PcRecord.pc_target_record a ∷ []
body_pc_records (Body.inst_opcode32 o) = PcRecord.opcode_record 4 ∷ []
body_pc_records (Body.inst_opcode16 o) = PcRecord.opcode_record 2 ∷ []
body_pc_records _ = []

abbrev pub pc_records_of : Record → List PcRecord
pc_records_of (Record.force_pc pc) = PcRecord.force_pc_record pc ∷ []
pc_records_of (Record.body b) = body_pc_records b
pc_records_of _ = []

unfoldable pub pc_records : List Record → List PcRecord
pc_records [] = []
pc_records (rec ∷ trace) = pc_records_of rec ++ pc_records trace

-- `isMarkerRecord`
abbrev pub is_marker_body : Body → Bool
is_marker_body (Body.inst_opcode32 o) = true
is_marker_body (Body.inst_opcode16 o) = true
is_marker_body (Body.transaction t) = true
is_marker_body _ = false

abbrev pub is_marker_record : Record → Bool
is_marker_record (Record.body b) = is_marker_body b
is_marker_record _ = false

unfoldable pub marker_records : List Record → ℕ
marker_records [] = 0
marker_records (rec ∷ trace) = (if is_marker_record rec then 1 else 0) + marker_records trace

pub record Tracks (s : Fstream) (rec : Record) (written : Fstream × List ℕ) : Type 0 where
  pub tracked : (written.0).pc_tracker ≡ track_all (s.pc_tracker) (pc_records_of rec)
  pub markers :
      (written.0).num_marker_records
      ≡ s.num_marker_records + (if is_marker_record rec then 1 else 0)

set_fstream_vlen-tracker :
    (s : Fstream) (v : ℕ)
    → Ensures
        (λ s'. (s'.pc_tracker ≡ s.pc_tracker) × (s'.num_marker_records ≡ s.num_marker_records))
        (set_fstream_vlen s v)
unfolding set_fstream_vlen
set_fstream_vlen-tracker s v = elim (result_cases (set_fstream_vlen s v)) [
  | inl (s', set) ↦ rw set (gives s' (ground (arith, set)))
  | inr (e, failed) ↦ rw failed (throws e)
]

module _ (s : Fstream) where
  Tracks-body : (b : Body) → Ensures (Tracks s (Record.body b)) (pack_body s b)
  unfolding pack_body track_all
  Tracks-body (Body.inst_reg r) =
      Ensures-bind _ (Ensures-any (pack_inst_reg s r))
        (λ bytes done. gives _ (record { tracked = refl; markers = omega arith }))
  Tracks-body (Body.inst_pc_target a) = gives _ (record { tracked = refl; markers = omega arith })
  Tracks-body _ = gives _ (record { tracked = refl; markers = omega arith })

  Tracks-vlen :
      (v : ℕ) → Ensures (Tracks s (Record.vlen_config v)) (pack_impl s (Record.vlen_config v))
  unfolding pack_impl track_all
  Tracks-vlen v = Ensures-bind _ (set_fstream_vlen-tracker s v) (λ s' (tracker, number).
      gives _ (record { tracked = tracker; markers = omega (arith, number) }))

  Tracks-impl : (rec : Record) → Ensures (Tracks s rec) (pack_impl s rec)
  unfolding pack_impl track_all
  Tracks-impl (Record.body b) = Tracks-body b
  Tracks-impl (Record.vlen_config v) = Tracks-vlen v
  Tracks-impl _ = gives _ (record { tracked = refl; markers = omega arith })

  pub Tracks-record : (rec : Record) → Ensures (Tracks s rec) (pack_record s rec)
  unfolding pack_record
  Tracks-record rec =
      Ensures-bind _ (Tracks-impl rec)
        (λ (s', bytes) h. gives _ (record { tracked = h.tracked; markers = h.markers }))

track_all-append :
    (t : PcTracker) (front back : List PcRecord)
    → track_all t (front ++ back) ≡ track_all (track_all t front) back
unfolding track_all
track_all-append t [] back = refl
track_all-append t (rec ∷ front) back = track_all-append (track t rec) front back

pub record TracksAll (s : Fstream) (trace : List Record) (written : Fstream × List ℕ) : Type 0 where
  pub tracked_all : (written.0).pc_tracker ≡ track_all (s.pc_tracker) (pc_records trace)
  pub all_markers : (written.0).num_marker_records ≡ s.num_marker_records + marker_records trace

Tracks-first :
    (s : Fstream) (rec : Record) (trace : List Record) (s' s'' : Fstream) (bytes rest all : List ℕ)
    → Tracks s rec (s', bytes)
    → TracksAll s' trace (s'', rest)
    → TracksAll s (rec ∷ trace) (s'', all)
unfolding pc_records marker_records
Tracks-first s rec trace s' s'' bytes rest all h more = record {
  tracked_all =
      more.tracked_all
      ∙ (ap (λ (t : PcTracker). track_all t (pc_records trace)) h.tracked
          ∙ sym (track_all-append (s.pc_tracker) (pc_records_of rec) (pc_records trace)));
  all_markers = omega (arith, h.markers, more.all_markers);
}

tracks_none : (s : Fstream) → TracksAll s [] (s, [])
unfolding pc_records marker_records track_all
tracks_none s = record { tracked_all = refl; all_markers = omega arith }

pub pack_records-Tracks :
    (trace : List Record) (s : Fstream) → Ensures (TracksAll s trace) (pack_records s trace)
unfolding pack_records
pack_records-Tracks [] s = gives _ (tracks_none s)
pack_records-Tracks (rec ∷ trace) s = Ensures-bind _ (Tracks-record s rec) (λ (s', bytes) h.
    Ensures-bind _ (pack_records-Tracks trace s')
      (λ (s'', rest) more. gives _ (Tracks-first s rec trace s' s'' bytes rest _ h more)))

-- After a stream packed a list of records, its PC tracker is where the PC records among them
-- lead the tracker that it had, and its number of marker records grew by that of the opcodes
-- and transactions among them.
pub pack_records-track_all :
    (trace : List Record) (s s' : Fstream) (bytes : List ℕ)
    → pack_records s trace ≡ ok (s', bytes)
    → (s'.pc_tracker ≡ track_all (s.pc_tracker) (pc_records trace))
      × (s'.num_marker_records ≡ s.num_marker_records + marker_records trace)
pack_records-track_all trace s s' bytes packed =
    let t = Ensures-ok (TracksAll s trace) (pack_records-Tracks trace s) packed in
    (t.tracked_all, t.all_markers)
