-- ===== src/Reader/Blocks.antt =====
-- The loop of `readHeader_` in lib/stf_reader.cpp, for each block of a header.
use stf_lib.Common.{ℕ, ◌≡◌, sym, ap, ◌∙◌, arith}
use stf_lib.Common.{List, [], ◌∷◌, ◌++◌, map, Option, none, some}
use stf_lib.Record.{Record, Text, TraceInfo, ProcessId}
use stf_lib.Writer.Header.{features_or_new}
use stf_lib.Writer.Blocks.{option_records}
use stf_lib.Writer.Stages.{VlenFits}
use stf_lib.Reader.{StfReader, unpack, accept, read_records}
use mathlib.Core.List.{append-nil, append_assoc}

pub read_records-comments :
    (cs : List Text) (rest : List Record) (rd : StfReader)
    → read_records (map Record.comment cs ++ rest) rd
      ≡ read_records rest (record rd { header_comments = rd.header_comments ++ cs })
unfolding read_records unpack accept
read_records-comments [] rest rd =
    ap (λ (t : List Text). read_records rest (record rd { header_comments = t }))
      (sym (append-nil (rd.header_comments)))
read_records-comments (c ∷ cs) rest rd =
    read_records-comments cs rest (record rd { header_comments = rd.header_comments ++ (c ∷ []) })
    ∙ ap (λ (t : List Text). read_records rest (record rd { header_comments = t }))
        (append_assoc (rd.header_comments) (c ∷ []) cs)

pub read_records-trace_info :
    (is : List TraceInfo) (rest : List Record) (rd : StfReader)
    → read_records (map Record.trace_info is ++ rest) rd
      ≡ read_records rest (record rd { trace_info_records = rd.trace_info_records ++ is })
unfolding read_records unpack accept
read_records-trace_info [] rest rd =
    ap (λ (t : List TraceInfo). read_records rest (record rd { trace_info_records = t }))
      (sym (append-nil (rd.trace_info_records)))
read_records-trace_info (c ∷ cs) rest rd =
    read_records-trace_info cs rest
      (record rd { trace_info_records = rd.trace_info_records ++ (c ∷ []) })
    ∙ ap (λ (t : List TraceInfo). read_records rest (record rd { trace_info_records = t }))
        (append_assoc (rd.trace_info_records) (c ∷ []) cs)

-- The records that may be missing, to a reader that has not read one.
module _ (rest : List Record) (rd : StfReader) where
  pub read_records-process_id :
      (o : Option ProcessId)
      → rd.initial_process_id ≡ none
      → read_records (option_records Record.process_id_ext o ++ rest) rd
        ≡ read_records rest (record rd { initial_process_id = o })
  unfolding read_records unpack accept
  read_records-process_id none e = ground (arith, e)
  read_records-process_id (some p) e = ground (arith, e)

  pub read_records-force_pc :
      (o : Option ℕ)
      → rd.initial_pc ≡ none
      → read_records (option_records Record.force_pc o ++ rest) rd
        ≡ read_records rest (record rd { initial_pc = o })
  unfolding read_records unpack accept
  read_records-force_pc none e = ground (arith, e)
  read_records-force_pc (some p) e = ground (arith, e)

  pub read_records-isa_extended :
      (o : Option Text)
      → rd.isa_extended ≡ none
      → read_records (option_records Record.isa_extended o ++ rest) rd
        ≡ read_records rest (record rd { isa_extended = o })
  unfolding read_records unpack accept
  read_records-isa_extended none e = ground (arith, e)
  read_records-isa_extended (some p) e = ground (arith, e)

  pub read_records-vlen :
      (o : Option ℕ)
      → VlenFits o
      → rd.vlen_config ≡ none
      → rd.stream_vlen ≡ 0
      → read_records (option_records Record.vlen_config o ++ rest) rd
        ≡ read_records rest (record rd { vlen_config = o; stream_vlen = features_or_new o })
  unfolding read_records unpack accept
  read_records-vlen none fits e z = ground (arith, e, z)
  read_records-vlen (some v) fits e z = ground arith
