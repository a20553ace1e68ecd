-- ===== src/Trs.antt =====
-- lib/trace/backend/backend_trs.c: trace files that hold the traces one after the other.
-- The arguments `alloc`, `sem` say whether an allocation, or the creation of the semaphore, succeeds.
-- A `float` is its bit pattern, and its arithmetic and casts are the record `Floats`.
pub mod States
pub mod Sizes
pub mod Writing
pub mod Reading
pub mod RoundTrip
pub mod Locks
pub mod ShortWrites
pub mod Demo
mod Tests
use libtrs.Base.{
  ℕ, zero, suc, ◌+◌, ◌-◌, ◌*◌, ◌%◌, ◌^◌, ltb, leb, ◌==◌, if◌then◌else◌, Bool, true, false, ◌&&◌,
  ◌||◌, not, Option, none, some, List, [], ◌∷◌, ◌++◌, map, length, take, drop, replicate, ◌⊎◌, inl,
  inr, Errno, einval, enomem, eio, other, Status, ok, err, Outcome, done, blocked, fault, inc_size,
}
use libtrs.Types.{Trace}
use libtrs.Files.{
  File, Io, pure, fail, crash, run_on, ◌>>=◌, ◌>>◌, read_into, write_bytes, seek, le, le_bytes,
}
use libtrs.Headers.{ThData, Info, Parsed, read_headers, write_default_headers, finalize_headers}

-- `struct backend_trs_arg`, with the fields of the trace set that stand in its headers.
pub record Trs : Type 0 where
  pub file : File
  pub file_lock : ℕ
  pub parsed : Parsed
  pub num_written : ℕ
  pub writes : Bool

-- Division and multiplication of floats; the cast of a float to a signed integer of some bytes, in
-- two's complement, and back.
pub record Floats : Type 0 where
  pub div : ℕ → ℕ → ℕ
  pub mul : ℕ → ℕ → ℕ
  pub to_int : ℕ → ℕ → ℕ
  pub of_int : ℕ → ℕ → ℕ

-- `trace_data_type`.
abbrev pub dt_byte : ℕ
dt_byte = 1

abbrev pub dt_short : ℕ
dt_short = 2

abbrev pub dt_int : ℕ
dt_int = 4

abbrev pub dt_float : ℕ
dt_float = 0x14

abbrev pub dt_none : ℕ
dt_none = 0xFF

-- The bytes of a sample, of a type that the two switches know.
unfoldable pub width : ℕ → Option ℕ
width datatype =
    if datatype == dt_byte
    then some 1
    else if datatype == dt_short
    then some 2
    else if (datatype == dt_int) || (datatype == dt_float)
    then some 4
    else none

-- One sample, to the file and back.
unfoldable pub convert : Floats → ℕ → ℕ → ℕ → ℕ
convert fl datatype yscale x =
    if datatype == dt_float then fl.div x yscale else fl.to_int (datatype % 16) (fl.div x yscale)

unfoldable pub expand : Floats → ℕ → ℕ → ℕ → ℕ
expand fl datatype yscale x =
    if datatype == dt_float then fl.mul yscale x else fl.mul yscale (fl.of_int (datatype % 16) x)

-- An array of integers of `w` bytes.
abbrev pub pack : ℕ → List ℕ → List ℕ
pack w [] = []
pack w (x ∷ xs) = le_bytes w x ++ pack w xs

abbrev pub unpack : ℕ → ℕ → List ℕ → List ℕ
unpack w zero bs = []
unpack w (suc n) bs = le (take w bs) ∷ unpack w n (drop w bs)

-- `fseek` to a trace. The offset is a `long`.
unfoldable pub seek_trace : ℕ → Parsed → Io (Unit {0})
seek_trace index p =
    let offset = (p.trace_start + index * p.trace_length) % 2 ^ 64 in
    if leb (2 ^ 63) offset then fail eio else seek offset

-- The allocation `n` of `size` bytes; there is none when there is nothing to hold.
abbrev pub allocates : (ℕ → Bool) → ℕ → ℕ → Bool
allocates alloc n size = (size == 0) || alloc n

-- `fread` of `n` elements of `w` bytes.
unfoldable pub read_items : ℕ → ℕ → Io (List ℕ)
read_items w n = if (w == 0) && not (n == 0) then fail eio else read_into (w * n) (w * n)

-- What stands in the file for a trace: title, data and samples.
unfoldable pub read_record : ℕ → Parsed → Io (List ℕ × List ℕ × List ℕ)
read_record index p = do
  seek_trace index p
  title ← read_into p.info.title_size p.info.title_size
  bytes ← read_into p.info.data_size p.info.data_size
  temp ← read_items (p.info.datatype % 16) p.info.num_samples
  pure (title, bytes, temp)

-- The samples of a trace; those of a type that the switch does not name stay 0.
unfoldable pub expand_all : Floats → Info → List ℕ → List ℕ
expand_all fl i temp = elim (width i.datatype) [
  | none ↦ replicate i.num_samples 0
  | some w ↦ map (expand fl i.datatype i.yscale) (unpack w i.num_samples temp)
]

-- A buffer that was not allocated is NULL.
abbrev pub buffer : ℕ → List ℕ → Option (List ℕ)
buffer size xs = if size == 0 then none else some xs

-- The end of `backend_trs_read`. The counter of the loop is an `int`, which must not overflow. For
-- `dt_none`, the call goes to `__fail` with the 0 that `fseek` returned.
unfoldable pub fill_trace :
    Floats → Info → Trace → List ℕ × List ℕ × List ℕ → Outcome (Trace × Status)
fill_trace fl i t (title, bytes, temp) =
    if i.datatype == dt_none
    then done (t, ok)
    else if leb (2 ^ 31) i.num_samples
    then fault
    else done (
      record t {
        title = buffer i.title_size title;
        bytes = buffer i.data_size bytes;
        samples = buffer i.num_samples (expand_all fl i temp);
      },
      ok,
    )

-- `sem_acquire` and `sem_release` of `file_lock`.
abbrev pub acquire : Trs → Trs
acquire s = record s { file_lock = s.file_lock - 1 }

abbrev pub release : Trs → Trs
release s = record s { file_lock = s.file_lock + 1 }

abbrev pub with_file : File → Trs → Trs
with_file f s = record s { file = f }

-- The release of the lock, which the read makes once the samples are in memory.
abbrev pub after_fill : Trs → Outcome (Trace × Status) → Outcome (Trs × Trace × Status)
after_fill s (done (t, st)) = done (release s, t, st)
after_fill s blocked = blocked
after_fill s fault = fault

-- After the calls on the file, of which each failure is -EIO.
unfoldable pub end_read :
    Floats
    → Trace
    → Trs
    → Outcome (File × (Errno ⊎ (List ℕ × List ℕ × List ℕ)))
    → Outcome (Trs × Trace × Status)
end_read fl t s (done (f, inl e)) = done (release (with_file f s), t, err eio)
end_read fl t s (done (f, inr r)) = after_fill (with_file f s) (fill_trace fl s.parsed.info t r)
end_read fl t s blocked = blocked
end_read fl t s fault = fault

-- `backend_trs_read`.
unfoldable pub backend_trs_read : Floats → (ℕ → Bool) → Trace → Trs → Outcome (Trs × Trace × Status)
backend_trs_read fl alloc t s =
    let i = s.parsed.info in
    if allocates alloc 0 i.title_size
      && (allocates alloc 1 i.data_size
          && (allocates alloc 2 i.num_samples && allocates alloc 3 i.num_samples))
    then (if s.file_lock == 0
        then blocked
        else end_read fl t (acquire s) (read_record t.index s.parsed s.file))
    else done (s, t, err enomem)

-- The samples as they go to the file; `none` where they are read out of bounds.
unfoldable pub convert_all : Floats → Info → ℕ → Option (List ℕ) → Option (List ℕ)
convert_all fl i w samples =
    if i.num_samples == 0
    then some []
    else if leb (2 ^ 31) i.num_samples
    then none
    else elim samples [
      | none ↦ none
      | some xs ↦
          if ltb (length xs) i.num_samples
          then none
          else some (pack w (map (convert fl i.datatype i.yscale) (take i.num_samples xs)))
    ]

-- `fwrite` of a title or of data, where there is one.
unfoldable pub write_buffer : ℕ → Option (List ℕ) → Io (Unit {0})
write_buffer size none = pure tt
write_buffer size (some xs) = if ltb (length xs) size then crash else write_bytes (take size xs)

unfoldable pub write_record : Info → Trace → List ℕ → Io (Unit {0})
write_record i t temp = do
  write_buffer i.title_size t.title
  write_buffer i.data_size t.bytes
  write_bytes temp

-- `finalize_headers` of the trace set. After a failure the headers are the ones before: each call
-- sets the number again before it is used.
abbrev pub after_headers : Trs → Outcome (File × (Errno ⊎ List ThData)) → Outcome (Trs × Status)
after_headers s (done (f, inl e)) = done (with_file f s, err e)
after_headers s (done (f, inr hs)) =
    done (record s { file = f; parsed = record s.parsed { headers = hs } }, ok)
after_headers s blocked = blocked
after_headers s fault = fault

unfoldable pub finalize : Trs → Outcome (Trs × Status)
finalize s = after_headers s (finalize_headers s.parsed.info s.num_written s.parsed.headers s.file)

-- `finalize_headers` of a write, and the release of the lock, which both ends go through.
unfoldable pub end_finalize : Outcome (Trs × Status) → Outcome (Trs × Status)
end_finalize (done (s, st)) = done (release s, st)
end_finalize blocked = blocked
end_finalize fault = fault

-- After the bytes of the trace: a failure goes to `__free_temp`, past the release of the lock.
unfoldable pub end_record : Trs → Outcome (File × (Errno ⊎ Unit {0})) → Outcome (Trs × Status)
end_record s (done (f, inl e)) = done (with_file f s, err e)
end_record s (done (f, inr _)) =
    end_finalize (finalize (record s { file = f; num_written = inc_size s.num_written }))
end_record s blocked = blocked
end_record s fault = fault

-- After the `fseek`.
unfoldable pub end_seek :
    Trace → List ℕ → Trs → Outcome (File × (Errno ⊎ Unit {0})) → Outcome (Trs × Status)
end_seek t temp s (done (f, inl e)) = done (release (with_file f s), err other)
end_seek t temp s (done (f, inr _)) = end_record s (write_record s.parsed.info t temp f)
end_seek t temp s blocked = blocked
end_seek t temp s fault = fault

-- `backend_trs_write` with the buffer for the samples; a `calloc` whose size overflows fails.
unfoldable pub write_locked : Trace → List ℕ → Trs → Outcome (Trs × Status)
write_locked t temp s =
    if s.file_lock == 0
    then blocked
    else end_seek t temp (acquire s) (seek_trace t.index s.parsed s.file)

-- `backend_trs_write`.
unfoldable pub backend_trs_write : Floats → Bool → Trace → Trs → Outcome (Trs × Status)
backend_trs_write fl alloc t s =
    if not (t.index == s.num_written)
    then done (s, err einval)
    else elim (width s.parsed.info.datatype) [
      | none ↦ done (s, err einval)
      | some w ↦
          if not alloc
          then done (s, err enomem)
          else elim (convert_all fl s.parsed.info w t.samples) [
            | none ↦ fault
            | some temp ↦ write_locked t temp s
          ]
    ]

-- `p_sem_create` at 1, after the headers are read.
unfoldable pub end_open : Bool → Bool → Outcome (File × (Errno ⊎ Parsed)) → Outcome (Errno ⊎ Trs)
end_open sem writes (done (f, inl e)) = done (inl e)
end_open sem writes (done (f, inr p)) =
    if sem
    then done
        (inr (record { file = f; file_lock = 1; parsed = p; num_written = 0; writes = writes }))
    else done (inl other)
end_open sem writes blocked = blocked
end_open sem writes fault = fault

-- `backend_trs_open`, with what `fopen` gives.
unfoldable pub backend_trs_open : Option File → Bool → Bool → Bool → Outcome (Errno ⊎ Trs)
backend_trs_open none alloc alloc_arrays sem = done (inl other)
backend_trs_open (some f) alloc alloc_arrays sem =
    end_open sem false (read_headers alloc alloc_arrays f)

-- `backend_trs_create`, for a set with the fields `i`.
unfoldable pub backend_trs_create : Info → Option File → Bool → Bool → Bool → Outcome (Errno ⊎ Trs)
backend_trs_create i none alloc alloc_arrays sem = done (inl eio)
backend_trs_create i (some f) alloc alloc_arrays sem = end_open sem true (
    run_on (run_on (write_default_headers i f) (λ _. seek 0))
      (λ _. read_headers alloc alloc_arrays))

-- `backend_trs_close`: the file that is left.
unfoldable pub backend_trs_close : Trs → Outcome (File × Status)
backend_trs_close s =
    if s.file_lock == 0
    then blocked
    else if s.writes
    then elim (finalize (acquire s)) [
      | done (s', st) ↦ done (s'.file, st)
      | blocked ↦ blocked
      | fault ↦ fault
    ]
    else done (s.file, ok)
