-- ===== src/Stream/Reads.antt =====
-- Reading from the stream: the operators `>>` of stf-inc/stf_ifstream.hpp and
-- stf-inc/stf_serializable_container.hpp. A read takes the state of the stream and the bytes that
-- are left. The source does not look at what `fread` returns: where the bytes end inside of a record
-- it goes on with what its variables hold, and the model stops with `short_read`.
use stf_lib.Common.{ℕ, zero, suc, ◌+◌, ◌*◌, Bool, true, false, List, [], ◌∷◌, Option, none, some}
use stf_lib.Common.{Result, ok, err}
use stf_lib.Stream.{Fstream, StreamError, short_read, end_of_file, unknown_value}

abbrev pub Read {ℓ} : Type ℓ → Type ℓ
Read A = Fstream → List ℕ → Result StreamError (A × Fstream × List ℕ)

unfoldable pub pure {ℓ} : {A : Type ℓ} → A → Read A
pure a s bytes = ok (a, s, bytes)

abbrev pub go_on {ℓ κ} :
    {A : Type ℓ} {B : Type κ}
    → Result StreamError (A × Fstream × List ℕ)
    → (A → Read B)
    → Result StreamError (B × Fstream × List ℕ)
go_on (err e) rest = err e
go_on (ok (a, s, bytes)) rest = rest a s bytes

infixl 5 ◌>>=◌ ◌>>◌
unfoldable pub ◌>>=◌ {ℓ κ} : {A : Type ℓ} {B : Type κ} → Read A → (A → Read B) → Read B
◌>>=◌ read rest s bytes = go_on (read s bytes) rest

unfoldable pub ◌>>◌ {ℓ} : {A : Type ℓ} → Read (Unit {0}) → Read A → Read A
◌>>◌ first rest s bytes = go_on (first s bytes) (λ done. rest)

-- The state of the stream, and a change of it that may throw.
unfoldable pub stream_state : Read Fstream
stream_state s bytes = ok (s, s, bytes)

abbrev pub changed :
    Result StreamError Fstream → List ℕ → Result StreamError (Unit {0} × Fstream × List ℕ)
changed (err e) bytes = err e
changed (ok s) bytes = ok (tt, s, bytes)

unfoldable pub change : (Fstream → Result StreamError Fstream) → Read (Unit {0})
change f s bytes = changed (f s) bytes

-- `stf_assert`
unfoldable pub check : Bool → StreamError → Read (Unit {0})
check true e s bytes = ok (tt, s, bytes)
check false e s bytes = err e

-- A member of an enumeration by its number.
unfoldable pub known {ℓ} : {A : Type ℓ} → Option A → Read A
known none s bytes = err unknown_value
known (some a) s bytes = ok (a, s, bytes)

unfoldable pub read_byte : Read ℕ
read_byte s [] = err short_read
read_byte s (b ∷ rest) = ok (b, s, rest)

-- The descriptor of a record. At the end of the file `read_` leaves the reserved descriptor, which
-- the factory refuses, and `checkStream_` then throws.
unfoldable pub read_object_id : Read ℕ
read_object_id s [] = err end_of_file
read_object_id s (b ∷ rest) = ok (b, s, rest)

-- An integer of so many bytes.
unfoldable pub read_uint : ℕ → Read ℕ
read_uint zero = pure 0
read_uint (suc w) = do low ← read_byte; high ← read_uint w; pure (low + 256 * high)

unfoldable pub read_elements {ℓ} : {A : Type ℓ} → ℕ → Read A → Read (List A)
read_elements zero read = pure []
read_elements (suc n) read = do x ← read; xs ← read_elements n read; pure (x ∷ xs)

-- `SerializableContainer::unpack`
unfoldable pub read_container {ℓ} : {A : Type ℓ} → ℕ → Read A → Read (List A)
read_container size_bytes read = do size ← read_uint size_bytes; read_elements size read
