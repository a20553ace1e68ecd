-- ===== src/Trs/States.antt =====
-- What a set of traces holds, without the file: the contents of its traces, one after the other. And
-- the states of `backend_trs_arg` that hold such a set.
use libtrs.Base.{
  if◌then◌else◌, ℕ, ◌%◌, ◌^◌, ◌<◌, ◌≡◌, Bool, true, none, List, [], ◌∷◌, ◌++◌, map, length,
}
use libtrs.Types.{Trace}
use libtrs.Files.{File}
use libtrs.Headers.{Info, length_of_trace}
use libtrs.Headers.Defaults.{header_bytes, kept_headers, with_count}
use libtrs.Trs.{Trs, Floats, convert, expand, pack, buffer}

pub record Content : Type 0 where
  pub title : List ℕ
  pub bytes : List ℕ
  pub samples : List ℕ

-- The sizes are those of the set, and scaling the samples for the file and back changes nothing.
pub record IsContent (fl : Floats) (i : Info) (c : Content) : Type 0 where
  pub title : length c.title ≡ i.title_size
  pub bytes : length c.bytes ≡ i.data_size
  pub samples : length c.samples ≡ i.num_samples
  pub exact :
      map (expand fl i.datatype i.yscale) (map (convert fl i.datatype i.yscale) c.samples)
      ≡ c.samples

abbrev pub AreContents : Floats → Info → List Content → Type 0
AreContents fl i [] = Unit {0}
AreContents fl i (c ∷ cs) = IsContent fl i c × AreContents fl i cs

-- A cast gives an integer of as many bytes as are asked for, and a float has four.
pub record IsMachine (fl : Floats) : Type 0 where
  pub to_int : (w x : ℕ) → fl.to_int w x < 256 ^ w
  pub div : (x y : ℕ) → fl.div x y < 256 ^ 4

-- The types that a trace file can have.
pub data IsDatatype : ℕ → Type 0 where
  byte : IsDatatype 1
  short : IsDatatype 2
  int : IsDatatype 4
  float : IsDatatype 0x14

-- A trace with the content in its buffers.
abbrev pub with_content : Info → Content → Trace → Trace
with_content i c t = record t {
  title = buffer i.title_size c.title;
  bytes = buffer i.data_size c.bytes;
  samples = buffer i.num_samples c.samples;
}

-- The bytes of a trace in the file.
abbrev pub sample_bytes : Floats → Info → Content → List ℕ
sample_bytes fl i c = pack (i.datatype % 16) (map (convert fl i.datatype i.yscale) c.samples)

unfoldable pub record_bytes : Floats → Info → Content → List ℕ
record_bytes fl i c = c.title ++ (c.bytes ++ sample_bytes fl i c)

unfoldable pub records : Floats → Info → List Content → List ℕ
records fl i [] = []
records fl i (c ∷ cs) = record_bytes fl i c ++ records fl i cs

-- A trace set file with the number `k` in its header.
abbrev pub file_of : Floats → Info → ℕ → List Content → File
file_of fl i k cs = record {
  bytes = header_bytes (with_count i k) ++ records fl i cs;
  pos = 42;
  limit = none;
  seekable = true;
}

-- A set that is open, with the number `k` in the header of the file and `m` in the memory.
abbrev pub open_set : Bool → Floats → Info → ℕ → ℕ → List Content → Trs
open_set writes fl i k m cs = record {
  file = file_of fl i k cs;
  file_lock = 1;
  parsed = record {
    info = with_count i m;
    headers = kept_headers (with_count i k);
    trace_start = 42;
    trace_length = length_of_trace i;
  };
  num_written = if writes then length cs else 0;
  writes = writes;
}
