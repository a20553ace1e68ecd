-- ===== src/Headers/Defaults.antt =====
-- The default headers of a new trace file, and reading them back.
use libtrs.Base.{
  length, ℕ, ◌-◌, ◌^◌, ◌≤◌, ◌<◌, ◌≡◌, ◌⊎◌, refl, ap, ◌∙◌, ◌==◌, if◌then◌else◌, Bool, true, false,
  none, List, [], ◌∷◌, ◌++◌, inl, inr, done, arith,
}
use libtrs.Files.{File, run_on, read_into, write_bytes, seek, le, le_bytes}
use libtrs.Headers.{
  ThData, raw, Info, no_info, strlen, data_len, len_bytes, write_tag_len_data, read_tag_and_len,
  write_default_headers, unknown_num_traces, renumber, rewrite, finalize_headers, read_headers,
  num_headers, count_headers, parse_headers, parse_from, read_val, set_field, size_of_int,
  check_info, length_of_trace,
}
use libtrs.Headers.Table.{all_headers}

-- A header of up to eight bytes, as it stands in a file: tag, length, value.
unfoldable pub header_bytes : Info → List ℕ
header_bytes i =
    (0x41 ∷ 4 ∷ le_bytes 4 i.num_traces)
    ++ ((0x42 ∷ 4 ∷ le_bytes 4 i.num_samples)
        ++ ((0x43 ∷ 1 ∷ le_bytes 1 i.datatype)
            ++ ((0x45 ∷ 1 ∷ le_bytes 1 i.title_size)
                ++ ((0x44 ∷ 2 ∷ le_bytes 2 i.data_size)
                    ++ ((0x48 ∷ 4 ∷ le_bytes 4 i.xoffs)
                        ++ ((0x4B ∷ 4 ∷ le_bytes 4 i.xscale)
                            ++ ((0x4C ∷ 4 ∷ le_bytes 4 i.yscale) ++ (0x5F ∷ 0 ∷ []))))))))

pub length-header_bytes : (i : Info) → length (header_bytes i) ≡ 42
unfolding header_bytes
length-header_bytes i = refl

abbrev pub empty_file : File
empty_file = record { bytes = []; pos = 0; limit = none; seekable = true }

write_default_headers-bytes :
    (i : Info)
    → write_default_headers i empty_file
      ≡ done (record { bytes = header_bytes i; pos = 42; limit = none; seekable = true }, inr tt)
unfolding header_bytes write_default_headers write_tag_len_data data_len len_bytes strlen
    all_headers write_bytes
write_default_headers-bytes i = refl

abbrev parsed_info : Info → Info
parsed_info i = record {
  num_traces = size_of_int (le (le_bytes 4 i.num_traces));
  num_samples = size_of_int (le (le_bytes 4 i.num_samples));
  title_size = size_of_int (le (le_bytes 1 i.title_size ++ (0 ∷ 0 ∷ 0 ∷ [])));
  data_size = size_of_int (le (le_bytes 2 i.data_size ++ (0 ∷ 0 ∷ [])));
  datatype = le (le_bytes 1 i.datatype ++ (0 ∷ 0 ∷ 0 ∷ []));
  xoffs = le (le_bytes 4 i.xoffs);
  xscale = le (le_bytes 4 i.xscale);
  yscale = le (le_bytes 4 i.yscale);
}

num_headers_default :
    (i : Info) (body : List ℕ)
    → num_headers
        (record { bytes = header_bytes i ++ body; pos = 0; limit = none; seekable = true })
      ≡ done
          (record { bytes = header_bytes i ++ body; pos = 0; limit = none; seekable = true }, inr 9)
unfolding header_bytes num_headers count_headers read_tag_and_len read_into seek
num_headers_default i body = refl

abbrev pub raw_header : ℕ → List ℕ → ThData
raw_header tag bs = record { tag = tag; val = raw bs }

-- The headers as they are kept.
unfoldable pub kept_headers : Info → List ThData
kept_headers i =
    raw_header 0x41 (le_bytes 4 i.num_traces ++ (0 ∷ 0 ∷ 0 ∷ 0 ∷ []))
    ∷ raw_header 0x42 (le_bytes 4 i.num_samples ++ (0 ∷ 0 ∷ 0 ∷ 0 ∷ []))
    ∷ raw_header 0x43 (le_bytes 1 i.datatype ++ (0 ∷ 0 ∷ 0 ∷ 0 ∷ 0 ∷ 0 ∷ 0 ∷ []))
    ∷ raw_header 0x45 (le_bytes 1 i.title_size ++ (0 ∷ 0 ∷ 0 ∷ 0 ∷ 0 ∷ 0 ∷ 0 ∷ []))
    ∷ raw_header 0x44 (le_bytes 2 i.data_size ++ (0 ∷ 0 ∷ 0 ∷ 0 ∷ 0 ∷ 0 ∷ []))
    ∷ raw_header 0x48 (le_bytes 4 i.xoffs ++ (0 ∷ 0 ∷ 0 ∷ 0 ∷ []))
    ∷ raw_header 0x4B (le_bytes 4 i.xscale ++ (0 ∷ 0 ∷ 0 ∷ 0 ∷ []))
    ∷ raw_header 0x4C (le_bytes 4 i.yscale ++ (0 ∷ 0 ∷ 0 ∷ 0 ∷ []))
    ∷ raw_header 0x5F (0 ∷ 0 ∷ 0 ∷ 0 ∷ 0 ∷ 0 ∷ 0 ∷ 0 ∷ [])
    ∷ []

parse_from_default :
    (alloc : Bool) (i : Info) (body : List ℕ)
    → parse_from alloc 9 0 no_info
        (record { bytes = header_bytes i ++ body; pos = 0; limit = none; seekable = true })
      ≡ done (
        record { bytes = header_bytes i ++ body; pos = 42; limit = none; seekable = true },
        inr (parsed_info i, kept_headers i),
      )
unfolding header_bytes kept_headers parse_from read_tag_and_len read_into read_val set_field
    all_headers
parse_from_default alloc i body = refl

-- The headers can say all of the fields: `int`s that are not negative but for the number of traces,
-- which may be unknown, a byte for the coding and for the title, two for the data.
pub record Fits (i : Info) : Type 0 where
  pub traces :
      (i.num_traces < 2 ^ 31) ⊎ ((2 ^ 64 - 2 ^ 31 ≤ i.num_traces) × (i.num_traces < 2 ^ 64 - 1))
  pub samples : i.num_samples < 2 ^ 31
  pub title : i.title_size < 256
  pub bytes : i.data_size < 65536
  pub coding : i.datatype < 255
  pub xoffs : i.xoffs < 2 ^ 32
  pub xscale : i.xscale < 2 ^ 32
  pub yscale : i.yscale < 2 ^ 32

le_four : (n : ℕ) → n < 2 ^ 32 → le (le_bytes 4 n) ≡ n
le_four n h = omega arith

size_of_int_small : (n : ℕ) → n < 2 ^ 31 → size_of_int (le (le_bytes 4 n)) ≡ n
unfolding size_of_int
size_of_int_small n h = ground arith

size_of_int_negative :
    (n : ℕ) → 2 ^ 64 - 2 ^ 31 ≤ n → n < 2 ^ 64 → size_of_int (le (le_bytes 4 n)) ≡ n
unfolding size_of_int
size_of_int_negative n l h =
    let w : le (le_bytes 4 n) ≡ n - (2 ^ 64 - 2 ^ 32) = omega arith in rw w (ground arith)

size_of_int_traces :
    (n : ℕ)
    → (n < 2 ^ 31) ⊎ ((2 ^ 64 - 2 ^ 31 ≤ n) × (n < 2 ^ 64 - 1))
    → size_of_int (le (le_bytes 4 n)) ≡ n
size_of_int_traces n (inl h) = size_of_int_small n h
size_of_int_traces n (inr (l, h)) = size_of_int_negative n l (omega arith)

size_of_int_byte : (n : ℕ) → n < 256 → size_of_int (le (le_bytes 1 n ++ (0 ∷ 0 ∷ 0 ∷ []))) ≡ n
unfolding size_of_int
size_of_int_byte n h = ground arith

size_of_int_short : (n : ℕ) → n < 65536 → size_of_int (le (le_bytes 2 n ++ (0 ∷ 0 ∷ []))) ≡ n
unfolding size_of_int
size_of_int_short n h = ground arith

parsed_info_lem : (i : Info) → Fits i → parsed_info i ≡ i
parsed_info_lem i h =
    let c : le (le_bytes 1 i.datatype ++ (0 ∷ 0 ∷ 0 ∷ [])) ≡ i.datatype = omega arith in
    rw (
      size_of_int_traces i.num_traces h.traces,
      size_of_int_small i.num_samples h.samples,
      size_of_int_byte i.title_size h.title,
      size_of_int_short i.data_size h.bytes,
      c,
      le_four i.xoffs h.xoffs,
      le_four i.xscale h.xscale,
      le_four i.yscale h.yscale,
    )

check_info_lem :
    (i : Info) (hs : List ThData) (f : File)
    → Fits i
    → check_info (i, hs) f
      ≡ done (
        f,
        inr (record {
          info = i;
          headers = hs;
          trace_start = f.pos;
          trace_length = length_of_trace i;
        }),
      )
unfolding check_info
check_info_lem i hs f h =
    let t : (i.num_traces == 2 ^ 64 - 1) ≡ false = ground (arith, h.traces) in
    let s : (i.num_samples == 2 ^ 64 - 1) ≡ false = ground (arith, h.samples) in
    let d : (i.datatype == 0xFF) ≡ false = ground (arith, h.coding) in rw (t, s, d)

-- Reading the headers that stand at the start of a file.
pub read_headers_default :
    (i : Info) (body : List ℕ)
    → Fits i
    → read_headers true true
        (record { bytes = header_bytes i ++ body; pos = 0; limit = none; seekable = true })
      ≡ done (
        record { bytes = header_bytes i ++ body; pos = 42; limit = none; seekable = true },
        inr (record {
          info = i;
          headers = kept_headers i;
          trace_start = 42;
          trace_length = length_of_trace i;
        }),
      )
unfolding read_headers parse_headers
read_headers_default i body h =
    let f : File = record {
      bytes = header_bytes i ++ body;
      pos = 42;
      limit = none;
      seekable = true;
    } in
    rw (num_headers_default i body, parse_from_default true i body)
      (ap (λ z. check_info (z, kept_headers i) f) (parsed_info_lem i h)
        ∙ check_info_lem i (kept_headers i) f h)

-- A new trace file on a disk with room: reading back the default headers gives the fields that were
-- written, if the headers can say them, with the traces starting after the 42 bytes of the headers.
pub read_headers-write_default_headers :
    (i : Info)
    → Fits i
    → run_on
        (run_on (write_default_headers i empty_file) (λ _. seek 0))
        (λ _. read_headers true true)
      ≡ done (
        record { bytes = header_bytes i; pos = 42; limit = none; seekable = true },
        inr (record {
          info = i;
          headers = kept_headers i;
          trace_start = 42;
          trace_length = length_of_trace i;
        }),
      )
unfolding seek header_bytes
read_headers-write_default_headers i h =
    rw (write_default_headers-bytes i) (read_headers_default i [] h)

-- The number of traces that goes into the file.
abbrev pub count_of : Info → ℕ → ℕ
count_of i n = if i.num_traces == unknown_num_traces then n else i.num_traces

abbrev pub with_count : Info → ℕ → Info
with_count i n = record i { num_traces = n }

-- finalize_headers overwrites the headers in place with the same ones, but for the number of traces.
pub finalize_headers-default :
    (i : Info) (m k n p : ℕ) (body : List ℕ)
    → finalize_headers i n (kept_headers (with_count i m)) (record {
      bytes = header_bytes (with_count i k) ++ body;
      pos = p;
      limit = none;
      seekable = true;
    })
      ≡ done (
        record {
          bytes = header_bytes (with_count i (count_of i n)) ++ body;
          pos = 42;
          limit = none;
          seekable = true;
        },
        inr (kept_headers (with_count i (count_of i n))),
      )
unfolding header_bytes kept_headers finalize_headers rewrite renumber seek write_tag_len_data
    data_len len_bytes all_headers write_bytes
finalize_headers-default i m k n p body = refl
