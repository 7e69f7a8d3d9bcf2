-- ===== src/BufferedReader.antt =====
-- stf-inc/stf_buffered_reader.hpp: the sliding window of items that the instruction, branch and
-- transaction readers share, and its iterators; with the callbacks of
-- stf-inc/stf_user_mode_skipping_reader.hpp. What `readNext_` of a subclass builds from the records
-- is an entry of `source`; counters are not wrapped at 64 bits, buffer positions are. A skipped
-- item's index is the one of STFBranchReader; STFInstReader counts it as skipped first.
pub mod Slots
pub mod Window
pub mod Filling
pub mod Fill
pub mod Init
pub mod State
pub mod Refill
pub mod Ready
pub mod Move
pub mod Iterate
pub mod Begin
pub mod Session
pub mod Rewind
use stf_lib.Common.{ℕ, zero, suc, ◌+◌, ◌-◌, ◌/◌, ◌%◌, ◌^◌, bit_and}
use stf_lib.Common.{Bool, true, false, not, ◌&&◌, ◌||◌, ltb, leb, ◌==◌, if◌then◌else◌}
use stf_lib.Common.{Result, ok, err, assert, ◌>>=◌, ◌>>◌, Option, none, some, List, [], ◌∷◌}

-- An item that the subclass reads: one that it marks skipped, or one that it keeps.
pub data Entry {ℓ} (A : Type ℓ) : Type ℓ where
  hidden : A → Entry A
  kept : A → Entry A

-- STFItem and STFSkippableItem: an item of the buffer.
pub record Item {ℓ} (A : Type ℓ) : Type ℓ where
  pub index : ℕ
  pub skipped : Bool
  pub content : A

-- `num_read` is what `rawNumRead_` of the subclass returns, `state` what its callbacks
-- `skippedCleanup_` and `skippingDone_` act on.
pub record BufferedReader {ℓ} (A S : Type ℓ) : Type ℓ where
  pub buffer_size : ℕ
  pub buffer_mask : ℕ
  pub only_user_mode : Bool
  pub last_item_read : Bool
  pub buf : ℕ → Item A
  pub head : ℕ
  pub tail : ℕ
  pub num_items_read : ℕ
  pub buffer_is_empty : Bool
  pub num_skipped_items : ℕ
  pub num_read : ℕ
  pub state : S
  pub source : List (Entry A)

pub data BufferError : Type 0 where
  index_out_of_range increment_of_end out_of_rounds : BufferError

-- `base_iterator`, without its pointer to the reader.
pub record Iterator : Type 0 where
  pub index : ℕ
  pub loc : ℕ
  pub end : Bool

-- `size_t` subtraction of one.
abbrev pub previous : ℕ → ℕ
previous pos = (pos + (2 ^ 64 - 1)) % 2 ^ 64

unfoldable pub set_item {ℓ} : {A : Type ℓ} → (ℕ → Item A) → ℕ → Item A → ℕ → Item A
set_item buf pos item other = if other == pos then item else buf other

module _ {ℓ} {A S : Type ℓ} where
  -- The constructor: `blank` is a default-constructed item.
  unfoldable pub new_buffered_reader : ℕ → Bool → A → S → List (Entry A) → BufferedReader A S
  new_buffered_reader buffer_size only_user_mode blank state source = record {
    buffer_size = buffer_size;
    buffer_mask = buffer_size - 1;
    only_user_mode = only_user_mode;
    last_item_read = false;
    buf = λ pos. record { index = 0; skipped = false; content = blank };
    head = 0;
    tail = 0;
    num_items_read = 0;
    buffer_is_empty = true;
    num_skipped_items = 0;
    num_read = 0;
    state = state;
    source = source;
  }

  -- `numItemsReadFromReader_`
  abbrev pub num_items_read_from_reader : BufferedReader A S → ℕ
  num_items_read_from_reader r = r.num_read - r.num_skipped_items

  -- `readNextItem_` where the trace has another item: the subclass counts it, then
  -- `initItemIndex_`, then `countSkipped_`.
  abbrev pub read_next_item : BufferedReader A S → ℕ → A → Bool → BufferedReader A S
  read_next_item r pos content skipped = record r {
    buf = set_item r.buf pos (record {
      index = r.num_read + 1 - r.num_skipped_items;
      skipped = skipped;
      content = content;
    });
    num_read = r.num_read + 1;
    num_skipped_items = if skipped then r.num_skipped_items + 1 else r.num_skipped_items;
  }

  -- The end of `fillHalfBuffer_`.
  unfoldable pub adjust_head_and_tail : ℕ → BufferedReader A S → BufferedReader A S
  adjust_head_and_tail item_cnt r = if item_cnt == 0 then r else record r {
    tail = bit_and (r.tail + item_cnt) r.buffer_mask;
    head = bit_and (r.head + item_cnt) r.buffer_mask;
  }

-- `skipped_cleanup` and `skipping_done` are the subclass's callbacks; `leftover` is what `readNext_`
-- leaves in an item that it has reset when the trace ends.
module _ {ℓ} {A S : Type ℓ} (skipped_cleanup : A → S → S) (skipping_done : S → A → A × S)
    (leftover : A) where
  abbrev pub finish_skipping : Bool → S → A → A × S
  finish_skipping did_skip state content =
      if did_skip then skipping_done state content else (content, state)

  -- A round of the loops that reads a skipped item, and one that reads another item.
  abbrev pub skip_item : BufferedReader A S → ℕ → A → BufferedReader A S
  skip_item r pos x = record (read_next_item r pos x true) { state = skipped_cleanup x r.state }

  abbrev pub keep_item : Bool → BufferedReader A S → ℕ → A → BufferedReader A S
  keep_item did_skip r pos x =
      let finished : A × S = finish_skipping did_skip r.state x in
      record (read_next_item r pos finished.0 false) { state = finished.1 }

  -- `readNextItem_` where it throws EOFException.
  abbrev pub read_past_end : BufferedReader A S → ℕ → BufferedReader A S
  read_past_end r pos = record r {
    buf = set_item r.buf pos (record { index = 0; skipped = false; content = leftover });
    last_item_read = true;
    source = [];
  }

  -- The loop of `initItemBuffer_`, with `i` and `did_skip`.
  unfoldable pub init_loop : ℕ → Bool → BufferedReader A S → List (Entry A) → BufferedReader A S
  init_loop i did_skip r [] =
      if ltb i r.buffer_size then read_past_end r i else record r { source = [] }
  init_loop i did_skip r (hidden x ∷ entries) =
      if ltb i r.buffer_size
      then init_loop i true (skip_item r i x) entries
      else record r { source = hidden x ∷ entries }
  init_loop i did_skip r (kept x ∷ entries) =
      if ltb i r.buffer_size
      then init_loop (i + 1) false (record (keep_item did_skip r i x) { tail = r.tail + 1 }) entries
      else record r { source = kept x ∷ entries }

  -- `initItemBuffer_`
  unfoldable pub init_item_buffer : BufferedReader A S → Bool × BufferedReader A S
  init_item_buffer r =
      let r' : BufferedReader A S = init_loop 0 false r r.source in
      if r'.tail == 0
      then (false, record r' { buffer_is_empty = true })
      else (true, record r' { buffer_is_empty = false; tail = previous r'.tail; head = 0 })

  -- The loop of `fillHalfBuffer_`, with `pos` and `did_skip`.
  unfoldable pub fill_loop : ℕ → ℕ → Bool → BufferedReader A S → List (Entry A) → BufferedReader A S
  fill_loop max_item_cnt pos did_skip r [] =
      if ltb (num_items_read_from_reader r) max_item_cnt
      then read_past_end r (bit_and (pos + 1) r.buffer_mask)
      else record r { source = [] }
  fill_loop max_item_cnt pos did_skip r (hidden x ∷ entries) =
      let next = bit_and (pos + 1) r.buffer_mask in
      if ltb (num_items_read_from_reader r) max_item_cnt
      then fill_loop max_item_cnt (bit_and (previous next) r.buffer_mask) true (skip_item r next x)
          entries
      else record r { source = hidden x ∷ entries }
  fill_loop max_item_cnt pos did_skip r (kept x ∷ entries) =
      let next = bit_and (pos + 1) r.buffer_mask in
      if ltb (num_items_read_from_reader r) max_item_cnt
      then fill_loop max_item_cnt next false (keep_item did_skip r next x) entries
      else record r { source = kept x ∷ entries }

  -- `fillHalfBuffer_`, without the count that its caller does not use.
  unfoldable pub fill_half_buffer : BufferedReader A S → BufferedReader A S
  fill_half_buffer r =
      let init_item_cnt = num_items_read_from_reader r in
      let r' : BufferedReader A S =
        fill_loop (init_item_cnt + r.buffer_size / 2) r.tail false r r.source in
      adjust_head_and_tail (num_items_read_from_reader r' - init_item_cnt) r'

module _ {ℓ} {A S : Type ℓ} where
  -- `validateItemIndex_`
  unfoldable pub validate_item_index : BufferedReader A S → ℕ → Result BufferError (Unit {0})
  validate_item_index r index =
      let oldest : Item A = r.buf r.head in
      let newest : Item A = r.buf r.tail in
      assert (leb oldest.index index && (newest.skipped || leb index newest.index))
        index_out_of_range

  -- `getItem_`
  unfoldable pub get_item : BufferedReader A S → ℕ → ℕ → Result BufferError (Item A)
  get_item r index loc = validate_item_index r index >> ok (r.buf loc)

  -- `isLastItem_`
  unfoldable pub is_last_item : BufferedReader A S → ℕ → ℕ → Result BufferError Bool
  is_last_item r index loc = validate_item_index r index >> ok (r.last_item_read && loc == r.tail)

  -- `readerSkipCallback_` of STFUserModeSkippingReader; that of STFBufferedReader is the case where
  -- `only_user_mode` is false. The result is `skip_item` and the new index.
  unfoldable pub reader_skip_callback : BufferedReader A S → ℕ → ℕ → Result BufferError (Bool × ℕ)
  reader_skip_callback r index loc =
      if r.only_user_mode
      then (get_item r index loc >>= λ item.
          ok (item.skipped, if item.skipped then index - 1 else index))
      else ok (false, index)

-- What `moveToNextItem_` leaves: whether there is a next item, its index, its location, the reader.
abbrev pub Moved {ℓ} : Type ℓ → Type ℓ → Type ℓ
Moved A S = Bool × ℕ × ℕ × BufferedReader A S

module _ {ℓ} {A S : Type ℓ} (skipped_cleanup : A → S → S) (skipping_done : S → A → A × S)
    (leftover : A) where
  -- `moveToNextItem_`; `fuel` bounds the rounds of its loop, and `out_of_rounds` is not an error of
  -- the source.
  unfoldable pub move_to_next_item : ℕ → BufferedReader A S → ℕ → ℕ → Result BufferError (Moved A S)
  move_to_next_item zero r index loc = err out_of_rounds
  move_to_next_item (suc fuel) r index loc = do
    validate_item_index r index
    let r' : BufferedReader A S =
        if loc == previous r.tail
        then fill_half_buffer skipped_cleanup skipping_done leftover r
        else r
    let loc' = bit_and (loc + 1) r'.buffer_mask
    (if loc == r'.tail
        then ok (false, index, loc, r')
        else (reader_skip_callback r' (index + 1) loc' >>= λ (skip_item, index').
            (if skip_item
              then move_to_next_item fuel r' index' loc'
              else ok (true, index', loc', record r' { num_items_read = index' }))))

  -- `begin`: the iterator's constructor, on a reader whose buffer is not yet made.
  unfoldable pub begin : BufferedReader A S → Iterator × BufferedReader A S
  begin r =
      let (found, r') = init_item_buffer skipped_cleanup skipping_done leftover r in
      let oldest : Item A = r'.buf r'.head in
      (record { index = oldest.index; loc = 0; end = not found }, r')

  -- `operator++`
  unfoldable pub increment :
      Iterator → BufferedReader A S → Result BufferError (Iterator × BufferedReader A S)
  increment it r = do
    assert (not it.end) increment_of_end
    (found, index, loc, r') ← move_to_next_item (r.buffer_size) r it.index it.loc
    ok (record { index = index; loc = loc; end = not found }, r')

-- `current`
unfoldable pub current {ℓ} :
    {A S : Type ℓ} → Iterator → BufferedReader A S → Result BufferError (Option (Item A))
current it r = if it.end then ok none else (get_item r it.index it.loc >>= λ item. ok (some item))

-- `valid`
unfoldable pub valid {ℓ} : {A S : Type ℓ} → Iterator → BufferedReader A S → Bool
valid it r = elim (current it r) [ err e ↦ false | ok none ↦ false | ok (some item) ↦ true ]
