-- ===== src/Headers.antt =====
-- lib/trace/backend/riscure_trs.c: the tagged headers of a Riscure trace file.
-- The argument `alloc` says whether an allocation succeeds. Numbers of a header are the bytes of the
-- union `val`; a `float` is its bit pattern, and a negative `int` its two's complement.
pub mod Table
pub mod Defaults
pub mod Turns
pub mod Tags
mod Tests
use libtrs.Base.{
  ℕ, zero, suc, ◌+◌, ◌-◌, ◌*◌, ◌%◌, ◌^◌, ltb, leb, ◌==◌, if◌then◌else◌, Bool, true, false, ◌&&◌,
  ◌||◌, not, Option, none, some, List, [], ◌∷◌, ◌++◌, length, take, drop, get_or, replicate, inl,
  inr, einval, enomem, eio, done, blocked, fault,
}
use libtrs.Files.{
  File, Io, pure, fail, crash, ◌>>=◌, ◌>>◌, read_into, write_bytes, seek, tell, le, le_bytes,
}
use libtrs.Headers.Table.{ThType, th_int, th_flt, th_bool, th_str, th_byte, th_def, all_headers}

-- `header_t`, the tags that the code names.
abbrev pub number_traces : ℕ
number_traces = 0x41

abbrev pub number_samples : ℕ
number_samples = 0x42

abbrev pub sample_coding : ℕ
sample_coding = 0x43

abbrev pub length_data : ℕ
length_data = 0x44

abbrev pub title_space : ℕ
title_space = 0x45

abbrev pub offset_x : ℕ
offset_x = 0x48

abbrev pub scale_x : ℕ
scale_x = 0x4B

abbrev pub scale_y : ℕ
scale_y = 0x4C

abbrev pub trace_block : ℕ
trace_block = 0x5F

-- `struct th_data`: the eight bytes of the union, or the array that it points to.
pub data Val : Type 0 where
  raw : List ℕ → Val
  array : List ℕ → Val

pub record ThData : Type 0 where
  pub tag : ℕ
  pub val : Val

-- The fields of `struct trace_set` that stand in the headers.
pub record Info : Type 0 where
  pub num_traces : ℕ
  pub num_samples : ℕ
  pub title_size : ℕ
  pub data_size : ℕ
  pub datatype : ℕ
  pub xoffs : ℕ
  pub xscale : ℕ
  pub yscale : ℕ

-- `__read_tag_and_len`.
unfoldable pub read_tag_and_len : Io (ℕ × ℕ)
read_tag_and_len = do
  t ← read_into 1 1
  l ← read_into 1 1
  if ltb (get_or l 0 0) 128
      then pure (get_or t 0 0, get_or l 0 0)
      else (do xs ← read_into 4 (get_or l 0 0 - 128); pure (get_or t 0 0, le xs))

-- `strlen`; an array without a zero is read past its end.
unfoldable pub strlen : List ℕ → Option ℕ
strlen [] = none
strlen (x ∷ xs) =
    if x == 0 then some 0 else elim (strlen xs) [ none ↦ none | some n ↦ some (suc n) ]

-- The length of what is written for a tag.
unfoldable pub data_len : ℕ → List ℕ → Option ℕ
data_len tag bytes = elim (all_headers tag) [
  | none ↦ none
  | some (th_def _ _ len) ↦
      if (len == 0) && not (tag == trace_block) then strlen bytes else some len
]

-- The length, with its specifier where it is above 127.
unfoldable pub len_bytes : ℕ → List ℕ
len_bytes len =
    if leb len 127
    then len ∷ []
    else if leb len 255
    then 0x81 ∷ len ∷ []
    else if leb len 65535
    then 0x82 ∷ le_bytes 2 len
    else if leb len 4294967295
    then 0x84 ∷ le_bytes 4 len
    else 0x88 ∷ le_bytes 8 len

-- `__write_tag_len_data`, of the object or string `bytes`.
unfoldable pub write_tag_len_data : ℕ → List ℕ → Io (Unit {0})
write_tag_len_data tag bytes = elim (data_len tag bytes) [
  | none ↦ crash
  | some len ↦ do
    write_bytes (tag ∷ [])
    write_bytes (len_bytes len)
    if ltb (length bytes) len then crash else write_bytes (take len bytes)
]

-- The loop of `__num_headers`; `none` when the fuel does not last. `count`, an `int` of the source,
-- is no more than half the bytes of the file, so that files below 4 GB do not overflow it.
unfoldable pub count_headers : ℕ → ℕ → ℕ → Io (Option ℕ)
count_headers zero tag count = if tag == trace_block then pure (some count) else pure none
count_headers (suc fuel) tag count = if tag == trace_block then pure (some count) else (do
  (tag', len) ← read_tag_and_len
  if ltb 512 len
      then fail enomem
      else if len == 0
      then count_headers fuel tag' (count + 1)
      else (do xs ← read_into 512 len; count_headers fuel tag' (count + 1)))

-- `__num_headers`. A turn of the loop reads two bytes at least, so that one turn more than the file
-- has bytes is fuel enough.
unfoldable pub num_headers : Io ℕ
num_headers f =
    (do
      start ← tell
      n ← count_headers (suc (length f.bytes)) 0 0
      seek start
      elim n [ none ↦ crash | some count ↦ pure count ])
      f

-- An `int` that is stored in a `size_t`.
unfoldable pub size_of_int : ℕ → ℕ
size_of_int w = if ltb w (2 ^ 31) then w else w + (2 ^ 64 - 2 ^ 32)

-- `val.integer` and `val.floating`: the first four bytes.
abbrev pub word : List ℕ → ℕ
word bs = le (take 4 bs)

-- What `__parse_headers` stores for a header of eight bytes.
unfoldable pub set_field : ℕ → List ℕ → Info → Info
set_field tag bs i =
    if tag == number_traces
    then record i { num_traces = size_of_int (word bs) }
    else if tag == number_samples
    then record i { num_samples = size_of_int (word bs) }
    else if tag == title_space
    then record i { title_size = size_of_int (word bs) }
    else if tag == length_data
    then record i { data_size = size_of_int (word bs) }
    else if tag == sample_coding
    then record i { datatype = word bs; yscale = if word bs == 0x14 then 0x3F800000 else i.yscale }
    else if tag == offset_x
    then record i { xoffs = word bs }
    else if tag == scale_x
    then record i { xscale = word bs }
    else if tag == scale_y
    then record i { yscale = word bs }
    else i

-- Whether a tag's value is an array.
abbrev pub is_array : ThType → Bool
is_array th_int = false
is_array th_flt = false
is_array th_bool = false
is_array th_str = true
is_array th_byte = true

-- The value of header `i`. When the array of a header that is not the first cannot be read in full,
-- the loop at `__fail` frees that same array once for each header so far.
unfoldable pub read_val : Bool → ℕ → ThType → ℕ → Io Val
read_val alloc i type len f =
    if is_array type
    then (if alloc
        then elim (read_into len len f) [
          | done (f', inl e) ↦ if i == 0 then done (f', inl e) else fault
          | done (f', inr xs) ↦ done (f', inr (array (xs ++ (0 ∷ []))))
          | blocked ↦ blocked
          | fault ↦ fault
        ]
        else done (f, inl eio))
    else ((do xs ← read_into 8 len; pure (raw (xs ++ replicate (8 - len) 0))) f)

-- The loop of `__parse_headers`, for the `n` headers from header `i` on.
unfoldable pub parse_from : Bool → ℕ → ℕ → Info → Io (Info × List ThData)
parse_from alloc zero i info = pure (info, [])
parse_from alloc (suc n) i info = do
  (tag, len) ← read_tag_and_len
  elim (all_headers tag) [
    | none ↦ crash
    | some (th_def _ type _) ↦ do
      v ← read_val alloc i type len
      (info', hs) ←
          parse_from alloc n (i + 1) (elim v [ raw bs ↦ set_field tag bs info | array bs ↦ info ])
      pure (info', record { tag = tag; val = v } ∷ hs)
  ]

-- What `read_headers` leaves in the trace set and in the argument of its backend.
pub record Parsed : Type 0 where
  pub info : Info
  pub headers : List ThData
  pub trace_start : ℕ
  pub trace_length : ℕ

abbrev pub no_info : Info
no_info = record {
  num_traces = 2 ^ 64 - 1;
  num_samples = 2 ^ 64 - 1;
  title_size = 0;
  data_size = 0;
  datatype = 0xFF;
  xoffs = 0;
  xscale = 0;
  yscale = 0;
}

unfoldable pub length_of_trace : Info → ℕ
length_of_trace i = (i.num_samples * (i.datatype % 16) + i.data_size + i.title_size) % 2 ^ 64

-- The end of `__parse_headers`, with the file after the last header.
unfoldable pub check_info : Info × List ThData → Io Parsed
check_info (i, hs) =
    if (i.num_traces == 2 ^ 64 - 1) || ((i.num_samples == 2 ^ 64 - 1) || (i.datatype == 0xFF))
    then fail einval
    else (do
      start ← tell
      pure (record {
        info = i;
        headers = hs;
        trace_start = start;
        trace_length = length_of_trace i;
      }))

unfoldable pub parse_headers : Bool → ℕ → Io Parsed
parse_headers alloc n = parse_from alloc n 0 no_info >>= check_info

-- `read_headers`. The Booleans: the allocation of the headers, and those of their arrays, succeed.
unfoldable pub read_headers : Bool → Bool → Io Parsed
read_headers alloc alloc_arrays = do
  n ← num_headers
  if alloc then parse_headers alloc_arrays n else fail enomem

unfoldable pub write_default_headers : Info → Io (Unit {0})
write_default_headers i = do
  write_tag_len_data number_traces (le_bytes 8 i.num_traces)
  write_tag_len_data number_samples (le_bytes 8 i.num_samples)
  write_tag_len_data sample_coding (le_bytes 4 i.datatype)
  write_tag_len_data title_space (le_bytes 8 i.title_size)
  write_tag_len_data length_data (le_bytes 8 i.data_size)
  write_tag_len_data offset_x (le_bytes 4 i.xoffs)
  write_tag_len_data scale_x (le_bytes 4 i.xscale)
  write_tag_len_data scale_y (le_bytes 4 i.yscale)
  write_tag_len_data trace_block []

abbrev pub unknown_num_traces : ℕ
unknown_num_traces = 2 ^ 64 - 5

-- `val.integer = n`.
abbrev pub set_integer : ℕ → Val → Val
set_integer n (raw bs) = raw (le_bytes 4 n ++ drop 4 bs)
set_integer n (array bs) = raw (le_bytes 4 n ++ replicate 4 0)

-- The number of traces, in the header that has it.
unfoldable pub renumber : Info → ℕ → ThData → ThData
renumber i num_written h =
    if h.tag == number_traces
    then record h {
      val =
          set_integer (if i.num_traces == unknown_num_traces then num_written else i.num_traces)
            h.val;
    }
    else h

abbrev pub val_bytes : Val → List ℕ
val_bytes (raw bs) = bs
val_bytes (array bs) = bs

-- The loop of `finalize_headers`.
unfoldable pub rewrite : Info → ℕ → List ThData → Io (List ThData)
rewrite i num_written [] = pure []
rewrite i num_written (h ∷ hs) = do
  let h' = renumber i num_written h
  write_tag_len_data h'.tag (val_bytes h'.val)
  hs' ← rewrite i num_written hs
  pure (h' ∷ hs')

unfoldable pub finalize_headers : Info → ℕ → List ThData → Io (List ThData)
finalize_headers i num_written hs = do seek 0; rewrite i num_written hs
