-- ===== src/Lib.antt =====
-- The verification library of stf_lib, a C++ library that writes and reads traces of RISC-V
-- programs in the STF format.
--
-- The parts, and the files that model them:
--   ByteUtils    the bit fields of stf-inc/util.hpp: bitMask, BitExtractor, getBitRange, getBit,
--                signExtend. ByteUtils/Fields says what they extract in plain arithmetic.
--   Registers    stf-inc/stf_reg_def.hpp: Registers::Codec and the tests on the register type.
--   Descriptor   stf-inc/stf_descriptor.hpp: the encoded and the internal numbers of the record
--                types, the tables between them, and the sequence sorted by the encoded number.
--   Version      stf-inc/stf.hpp: checkVersion.
--   Branch       Branch/Decoder is stf-inc/stf_branch_decoder.hpp, which decides if an opcode is a
--                branch and where it goes; Branch/Item is STFBranch and its OperandMap from
--                stf-inc/stf_branch.hpp, which a decoded branch is stored into. Branch/Encoding
--                has the instruction formats of the ISA, independent of the code.
--   Record       the records of stf-inc/stf_record_types.hpp: those of the header, and as
--                Record/Bodies those of the trace behind it.
--   Stream       what the records are in bytes. Stream itself is the state of STFFstream of
--                stf-inc/stf_fstream.hpp; Stream/Writes and /Reads are the operators of
--                stf-inc/stf_ofstream.hpp, stf-inc/stf_ifstream.hpp and
--                stf-inc/stf_serializable_container.hpp; Stream/Pack and /Unpack are pack_impl and
--                unpack_impl of every record of stf-inc/stf_record_types.hpp and
--                stf-inc/stf_record_interfaces.hpp, with the factory of stf-inc/stf_factory.hpp;
--                Stream/Trace is reading in a loop and STFIFstream::seek of lib/stf_ifstream.cpp.
--                Stream/Ranges says which contents the types of the members can hold; the other
--                children prove what is read back, that it ends, and where the PC and a seek stand.
--   Writer       STFWriter of lib/stf_writer.cpp over STFWriterBase of lib/stf_writer_base.cpp:
--                operator<<, which checks the order of the records, the header operations and the
--                life of a writer.
--   Reader       STFReader of lib/stf_reader.cpp over STFReaderBase of lib/stf_reader_base.cpp: the
--                header as it is read, the life of a reader, and copyHeader, which fills a writer.
--   PageTable    PageTableMap of stf-inc/stf_page_table.hpp, with stf-inc/stf_virt_addr_modes.hpp:
--                the entries that the walks of a trace show, and the translation by them.
--                PageTable/Satp is stf-inc/stf_satp_decoder.hpp.
--   BufferedReader  STFBufferedReader of stf-inc/stf_buffered_reader.hpp, with the callback of
--                stf-inc/stf_user_mode_skipping_reader.hpp: the ring of items with its head and
--                tail, its refills, and base_iterator. BufferedReader/Window to /Move say what the
--                ring holds, /Begin what a loop sees, /Session and /Rewind what copied iterators do.
--   BranchReader  STFBranchReaderBase of stf-inc/stf_branch_reader.hpp: how records become branches,
--                with the skipping of stf-inc/stf_user_mode_skipping_reader.hpp.
--                BranchReader/Targets is about the opcode at the target of a taken branch.
--   PcTracker    PCTracker of stf-inc/stf_pc_tracker.hpp and lib/stf_pc_tracker.cpp.
--   RegState     STFRegState of stf-inc/stf_reg_state.hpp and lib/stf_reg_state.cpp: the values of
--                the registers and of their fields. RegState/Bank is initRegBank and
--                RegState/Parents what it sets up, RegState/Updates what an update leaves.
--   Tests        the theorems at concrete inputs.
-- The writer checks the order of the records by their encoded numbers from Descriptor, and its
-- header has the instruction encoding mode that the branch decoder takes. The reader takes the list
-- of records that a writer leaves. The branch reader decodes opcodes with Branch, and its branches
-- are the items of a buffer. The opcode at the target of a branch, which it writes into an item that
-- it has returned, is not in the items of the model: BranchReader.completed has those items.
--
-- A word of w bits is a natural number with its wrap-around written out; a register is its 32-bit
-- value; a reference parameter is a field of the result. A failed assertion is an error value of
-- the component's own, and the state after an exception is not modelled. The loops run over a list,
-- a table of fixed size or the levels of a page table; that of moveToNextItem_ has the size of the
-- buffer as its bound, and one round is enough in every window. Reading a trace and seeking in it
-- run on fuel; one unit for each byte and one more are enough. Integers are written in the byte
-- order of a little-endian machine. A read beyond the end of the file inside of a record is an error
-- of the model: the source does not test it, and goes on with what its variables hold. So is a number
-- that is no member of ISA or INST_IEM, a transaction, and a descriptor in a gap of the encoding, for
-- which the source reads beyond the array of its factory.
--
-- Not modelled: compression, file I/O, the metadata and the protocol data of a transaction, which
-- stands as its bytes and is not read back, seeking in a buffered reader, the instruction reader,
-- the choice of a page table by mode and SATP, transactions, printing, and the Python bindings.
pub mod Common
pub mod ByteUtils
pub mod Registers
pub mod Branch
pub mod Descriptor
pub mod Version
pub mod Record
pub mod Writer
pub mod Stream
pub mod RegState
pub mod Reader
pub mod PageTable
pub mod BufferedReader
pub mod BranchReader
pub mod PcTracker
mod Tests
