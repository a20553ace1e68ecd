-- ===== src/Trs/Writing.antt =====
-- Creating a trace file and writing traces to it.
use mathlib.Core.List.{append-nil, append_assoc}
use libtrs.Base.{
  inc_size, ℕ, ◌+◌, ◌*◌, ◌%◌, ◌^◌, ◌<◌, ◌≡◌, refl, sym, ap, ◌∙◌, ltb, leb, ◌==◌, Bool, Bool-cases,
  true, false, Option, none, some, List, [], ◌∷◌, ◌++◌, map, length, length-append, take,
  take-append, inl, inr, done, ok, arith,
}
use libtrs.Types.{Trace}
use libtrs.Files.{seek}
use libtrs.Files.Places.{at_end, write_bytes_end}
use libtrs.Headers.{Info, length_of_trace, unknown_num_traces}
use libtrs.Headers.Defaults.{
  Fits, header_bytes, length-header_bytes, kept_headers, with_count, empty_file,
  finalize_headers-default, read_headers-write_default_headers,
}
use libtrs.Trs.{
  Trs, Floats, width, convert, pack, buffer, convert_all, write_buffer, write_record, write_locked,
  seek_trace, end_seek, end_record, after_headers, end_finalize, finalize, backend_trs_write,
  backend_trs_create, backend_trs_close, end_open,
}
use libtrs.Trs.States.{
  Content, IsContent, AreContents, IsDatatype, byte, short, int, float, file_of, with_content,
  sample_bytes, record_bytes, records, open_set,
}
use libtrs.Trs.Sizes.{length-records, records_end}

pub width_lem : (d : ℕ) → IsDatatype d → width d ≡ some (d % 16)
unfolding width
width_lem _ byte = refl
width_lem _ short = refl
width_lem _ int = refl
width_lem _ float = refl

pub no_elements : (xs : List ℕ) → length xs ≡ 0 → xs ≡ []
no_elements [] h = refl
no_elements (x ∷ xs) h = absurd (omega arith)

pub take-length : (n : ℕ) (xs : List ℕ) → length xs ≡ n → take n xs ≡ xs
take-length n xs h = rw (sym h) (ap (take (length xs)) (sym (append-nil xs)) ∙ take-append xs [])

pub convert_all_lem :
    (fl : Floats) (i : Info) (w : ℕ) (xs : List ℕ)
    → length xs ≡ i.num_samples
    → i.num_samples < 2 ^ 31
    → convert_all fl i w (buffer i.num_samples xs)
      ≡ some (pack w (map (convert fl i.datatype i.yscale) xs))
unfolding convert_all
convert_all_lem fl i w xs h b = elim (Bool-cases (i.num_samples == 0)) [
  | inl z ↦ let e : xs ≡ [] = no_elements xs (ground (arith, h, z)) in rw (z, e)
  | inr n ↦
      let l : leb (2 ^ 31) i.num_samples ≡ false = ground (arith, b) in
      let s : ltb (length xs) i.num_samples ≡ false = ground (arith, h) in
      rw (n, l, s, take-length i.num_samples xs h)
]

write_buffer_end :
    (b : Bool) (n : ℕ) (xs ys : List ℕ)
    → length xs ≡ n
    → write_buffer n (buffer n xs) (at_end b ys) ≡ done (at_end b (ys ++ xs), inr tt)
unfolding write_buffer
write_buffer_end b n xs ys h = elim (Bool-cases (n == 0)) [
  | inl z ↦ let e : xs ≡ [] = no_elements xs (ground (arith, h, z)) in rw (z, e, append-nil ys)
  | inr k ↦
      let s : ltb (length xs) n ≡ false = ground (arith, h) in
      rw (k, s, take-length n xs h) (write_bytes_end b ys xs)
]

write_record_end :
    (fl : Floats) (i : Info) (m : ℕ) (c : Content) (t : Trace) (ys : List ℕ)
    → IsContent fl i c
    → write_record (with_count i m) (with_content i c t) (sample_bytes fl i c) (at_end true ys)
      ≡ done (at_end true (ys ++ record_bytes fl i c), inr tt)
unfolding write_record record_bytes
write_record_end fl i m c t ys h =
    let s = sample_bytes fl i c in
    let e : ys ++ c.title ++ c.bytes ++ s ≡ ys ++ (c.title ++ (c.bytes ++ s)) =
      append_assoc (ys ++ c.title) c.bytes s ∙ append_assoc ys c.title (c.bytes ++ s) in
    rw (
      write_buffer_end true i.title_size c.title ys h.title,
      write_buffer_end true i.data_size c.bytes (ys ++ c.title) h.bytes,
      write_bytes_end true (ys ++ c.title ++ c.bytes) s,
      e,
    )

-- The place of the next trace is the end of the file.
pub seek_trace_end :
    (fl : Floats) (i : Info) (k m : ℕ) (cs : List Content) (limit : Option ℕ)
    → Fits i
    → IsDatatype i.datatype
    → AreContents fl i cs
    → 42 + length cs * length_of_trace i < 2 ^ 63
    → seek_trace
        (length cs)
        ((open_set true fl i k m cs).parsed)
        (record (open_set true fl i k m cs).file { limit = limit })
      ≡ done (
        record (at_end true (header_bytes (with_count i k) ++ records fl i cs)) { limit = limit },
        inr tt,
      )
unfolding seek_trace seek
seek_trace_end fl i k m cs limit f d a b =
    let n = length cs * length_of_trace i in
    let e : (42 + n) % 2 ^ 64 ≡ 42 + n = omega (arith, b) in
    let hd = length-header_bytes (with_count i k) in
    let l : leb (2 ^ 63) (42 + n) ≡ false = ground (arith, b) in
    let q : 42 + n ≡ length (header_bytes (with_count i k) ++ records fl i cs) = omega (
      arith,
      hd,
      length-append (header_bytes (with_count i k)) (records fl i cs),
      length-records fl i cs f d a,
    ) in
    rw (e, l, q)

-- A set that is written to, with `rest` after the headers.
abbrev writing : Info → ℕ → ℕ → ℕ → ℕ → List ℕ → Trs
writing i k n p l rest = record {
  file = record {
    bytes = header_bytes (with_count i k) ++ rest;
    pos = p;
    limit = none;
    seekable = true;
  };
  file_lock = l;
  parsed = record {
    info = with_count i unknown_num_traces;
    headers = kept_headers (with_count i k);
    trace_start = 42;
    trace_length = length_of_trace i;
  };
  num_written = n;
  writes = true;
}

finalize_lem :
    (i : Info) (n k p l : ℕ) (rest : List ℕ)
    → finalize (writing i k n p l rest) ≡ done (writing i n n 42 l rest, ok)
unfolding finalize
finalize_lem i n k p l rest =
    let u = with_count i unknown_num_traces in
    ap (after_headers (writing i k n p l rest)) (finalize_headers-default u k k n p rest)

write_locked_end :
    (fl : Floats) (i : Info) (k : ℕ) (cs : List Content) (c : Content) (t : Trace)
    → Fits i
    → IsDatatype i.datatype
    → AreContents fl i cs
    → IsContent fl i c
    → t.index ≡ length cs
    → length cs + 1 < 2 ^ 64
    → 42 + length cs * length_of_trace i < 2 ^ 63
    → write_locked
        (with_content i c t)
        (sample_bytes fl i c)
        (open_set true fl i k unknown_num_traces cs)
      ≡ done (
        writing i (length cs + 1) (length cs + 1) 42 1 (records fl i cs ++ record_bytes fl i c),
        ok,
      )
unfolding write_locked end_seek end_record end_finalize
write_locked_end fl i k cs c t f d all ac e m b =
    let n : inc_size (length cs) ≡ length cs + 1 = omega arith in
    let a = append_assoc (header_bytes (with_count i k)) (records fl i cs) (record_bytes fl i c) in
    let p = length (header_bytes (with_count i k) ++ (records fl i cs ++ record_bytes fl i c)) in
    let s = open_set true fl i k unknown_num_traces cs in
    let q =
      ap (λ j. seek_trace j s.parsed s.file) e
      ∙ seek_trace_end fl i k unknown_num_traces cs none f d all b in
    rw
      (
        q,
        write_record_end fl i unknown_num_traces c t
            (header_bytes (with_count i k) ++ records fl i cs) ac,
        n,
        a,
      )
      (ap end_finalize
        (finalize_lem i (length cs + 1) k p 0 (records fl i cs ++ record_bytes fl i c)))

-- A set that is written to on a disk with room, with sizes and a type that its headers can say, takes
-- the trace that is next, whose content has those sizes: the write returns 0, the file ends with that
-- trace and has its number in the headers, and the lock is free again.
pub backend_trs_write-next :
    (fl : Floats) (i : Info) (k : ℕ) (cs : List Content) (c : Content) (t : Trace)
    → Fits i
    → IsDatatype i.datatype
    → AreContents fl i cs
    → IsContent fl i c
    → t.index ≡ length cs
    → length cs + 1 < 2 ^ 64
    → 42 + length cs * length_of_trace i < 2 ^ 63
    → backend_trs_write fl true (with_content i c t) (open_set true fl i k unknown_num_traces cs)
      ≡ done (open_set true fl i (length cs + 1) unknown_num_traces (cs ++ (c ∷ [])), ok)
unfolding backend_trs_write
backend_trs_write-next fl i k cs c t f d all ac e m b =
    let o : (t.index == length cs) ≡ true = ground (arith, e) in
    let n : length (cs ++ (c ∷ [])) ≡ length cs + 1 = length-append cs (c ∷ []) in
    rw
      (
        o,
        width_lem i.datatype d,
        convert_all_lem fl (with_count i unknown_num_traces) (i.datatype % 16) c.samples ac.samples
            f.samples,
        records_end fl i cs c,
        n,
      )
      (write_locked_end fl i k cs c t f d all ac e m b)

pub backend_trs_create_lem :
    (fl : Floats) (i : Info)
    → Fits (with_count i unknown_num_traces)
    → backend_trs_create (with_count i unknown_num_traces) (some empty_file) true true true
      ≡ done (inr (open_set true fl i unknown_num_traces unknown_num_traces []))
unfolding backend_trs_create end_open records length_of_trace
backend_trs_create_lem fl i f =
    let u = with_count i unknown_num_traces in
    rw (read_headers-write_default_headers u f, append-nil (header_bytes u))

pub backend_trs_close_lem :
    (fl : Floats) (i : Info) (k : ℕ) (cs : List Content)
    → backend_trs_close (open_set true fl i k unknown_num_traces cs)
      ≡ done (file_of fl i (length cs) cs, ok)
unfolding backend_trs_close
backend_trs_close_lem fl i k cs = rw (finalize_lem i (length cs) k 42 0 (records fl i cs))
