-- ===== src/Trs/Reading.antt =====
-- Reading a trace from a trace file.
use mathlib.Core.List.{append_assoc}
use libtrs.Base.{
  ℕ, zero, suc, ◌+◌, ◌*◌, ◌%◌, ◌^◌, ◌<◌, ◌≡◌, refl, sym, ap, ◌∙◌, leb, ◌==◌, Bool, ◌||◌, true,
  false, some, List, [], ◌∷◌, ◌++◌, map, length, length-append, get_elem?, take, drop, take-append,
  drop-append, inr, done, ok, arith,
}
use libtrs.Types.{Trace}
use libtrs.Files.{File, seek, le_bytes}
use libtrs.Files.Places.{read_into-part, le-le_bytes, length-le_bytes}
use libtrs.Headers.{Info, length_of_trace}
use libtrs.Headers.Defaults.{Fits, header_bytes, length-header_bytes, with_count}
use libtrs.Trs.{
  Trs, Floats, convert, pack, unpack, seek_trace, read_items, read_record, expand_all, fill_trace,
  acquire, after_fill, end_read, backend_trs_read,
}
use libtrs.Trs.States.{
  Content, IsContent, AreContents, IsMachine, IsDatatype, byte, short, int, float, with_content,
  sample_bytes, record_bytes, records, open_set,
}
use libtrs.Trs.Writing.{width_lem}
use libtrs.Trs.Sizes.{length-record_bytes, length-records, length-sample_bytes}

pub or_true : (b : Bool) → (b || true) ≡ true
or_true true = refl
or_true false = refl

-- Every converted sample has as many bytes as it is given in the file.
convert_bound :
    (fl : Floats) (d y x : ℕ) → IsMachine fl → IsDatatype d → convert fl d y x < 256 ^ (d % 16)
unfolding convert
convert_bound fl _ y x h byte = h.to_int 1 (fl.div x y)
convert_bound fl _ y x h short = h.to_int 2 (fl.div x y)
convert_bound fl _ y x h int = h.to_int 4 (fl.div x y)
convert_bound fl _ y x h float = h.div x y

unpack-pack :
    (fl : Floats) (d y : ℕ) (xs : List ℕ)
    → IsMachine fl
    → IsDatatype d
    → unpack (d % 16) (length xs) (pack (d % 16) (map (convert fl d y) xs))
      ≡ map (convert fl d y) xs
unpack-pack fl d y [] h k = refl
unpack-pack fl d y (x ∷ xs) h k =
    let w = d % 16 in
    let bs = le_bytes w (convert fl d y x) in
    let rest = pack w (map (convert fl d y) xs) in
    let n : length bs ≡ w = length-le_bytes w (convert fl d y x) in
    let t : take w (bs ++ rest) ≡ bs =
      ap (λ n. take n (bs ++ rest)) (sym n) ∙ take-append bs rest in
    let r : drop w (bs ++ rest) ≡ rest =
      ap (λ n. drop n (bs ++ rest)) (sym n) ∙ drop-append bs rest in
    let v = le-le_bytes w (convert fl d y x) (convert_bound fl d y x h k) in
    rw (t, r, v, unpack-pack fl d y xs h k)

-- The bytes before and after one trace.
records_split :
    (fl : Floats) (i : Info) (cs : List Content) (j : ℕ) (c : Content)
    → Fits i
    → IsDatatype i.datatype
    → AreContents fl i cs
    → get_elem? cs j ≡ some c
    → (pre : List ℕ) × (post : List ℕ) × IsContent fl i c
      × (records fl i cs ≡ pre ++ (record_bytes fl i c ++ post))
      × (length pre ≡ j * length_of_trace i)
unfolding records
records_split fl i [] j c f d a e = absurd cc
records_split fl i (x ∷ cs) zero c f d (ax, rest) e =
    let q : x ≡ c = cc in ([], records fl i cs, rw (sym q) ax, rw q, omega arith)
records_split fl i (x ∷ cs) (suc j) c f d (ax, rest) e =
    let (pre, post, ac, eq, n) = records_split fl i cs j c f d rest e in
    let r = record_bytes fl i x in
    let l : suc j * length_of_trace i ≡ length_of_trace i + j * length_of_trace i = omega arith in
    (
      r ++ pre,
      post,
      ac,
      ap (◌++◌ r) eq ∙ sym (append_assoc r pre (record_bytes fl i c ++ post)),
      omega (arith, length-append r pre, length-record_bytes fl i x f d ax, n),
    )

no_zero : (d : ℕ) → IsDatatype d → (d % 16 == 0) ≡ false
no_zero _ byte = refl
no_zero _ short = refl
no_zero _ int = refl
no_zero _ float = refl

read_items_lem :
    (i : Info) (pre xs post : List ℕ) (f : File)
    → IsDatatype i.datatype
    → f.bytes ≡ pre ++ (xs ++ post)
    → f.pos ≡ length pre
    → length xs ≡ i.num_samples * (i.datatype % 16)
    → read_items (i.datatype % 16) i.num_samples f
      ≡ done (record f { pos = length (pre ++ xs) }, inr xs)
unfolding read_items
read_items_lem i pre xs post f d hb hp hn =
    let z : (i.datatype % 16 == 0) ≡ false = no_zero i.datatype d in
    let n : i.datatype % 16 * i.num_samples ≡ length xs = omega (arith, hn) in
    rw z (read_into-part pre xs post (i.datatype % 16 * i.num_samples) f hb hp n)

-- The bytes of a file that has the record of a trace after `pre`, split at each of its parts.
at_title :
    (fl : Floats) (i : Info) (c : Content) (pre post : List ℕ)
    → pre ++ (record_bytes fl i c ++ post)
      ≡ pre ++ (c.title ++ (c.bytes ++ (sample_bytes fl i c ++ post)))
unfolding record_bytes
at_title fl i c pre post =
    let s = sample_bytes fl i c in
    rw (append_assoc c.title (c.bytes ++ s) post, append_assoc c.bytes s post)

read_record_lem :
    (fl : Floats) (i : Info) (k m j p : ℕ) (b : Bool) (cs : List Content) (c : Content)
    → Fits i
    → IsDatatype i.datatype
    → AreContents fl i cs
    → get_elem? cs j ≡ some c
    → 42 + length cs * length_of_trace i < 2 ^ 63
    → (q : ℕ) × (read_record j
          ((open_set b fl i k m cs).parsed)
          (record (open_set b fl i k m cs).file { pos = p })
        ≡ done (
          record (open_set b fl i k m cs).file { pos = q },
          inr (c.title, c.bytes, sample_bytes fl i c),
        ))
unfolding read_record seek_trace seek
read_record_lem fl i k m j p b cs c f d all e bound =
    let (pre, post, ac, eq, n) = records_split fl i cs j c f d all e in
    let hd = header_bytes (with_count i k) in
    let s = sample_bytes fl i c in
    let full = hd ++ records fl i cs in
    let whole = length-records fl i cs f d all in
    let split = ap length eq ∙ length-append pre (record_bytes fl i c ++ post) in
    let small : 42 + j * length_of_trace i < 2 ^ 63 = omega (arith, whole, split, n, bound) in
    let o : (42 + j * length_of_trace i) % 2 ^ 64 ≡ 42 + j * length_of_trace i =
      omega (arith, small) in
    let l : leb (2 ^ 63) (42 + j * length_of_trace i) ≡ false = ground (arith, small) in
    let place : 42 + j * length_of_trace i ≡ length (hd ++ pre) =
      omega (arith, length-append hd pre, length-header_bytes (with_count i k), n) in
    let e1 : full ≡ hd ++ pre ++ (c.title ++ (c.bytes ++ (s ++ post))) =
      ap (◌++◌ hd) (eq ∙ at_title fl i c pre post)
      ∙ sym (append_assoc hd pre (c.title ++ (c.bytes ++ (s ++ post)))) in
    let e2 : full ≡ hd ++ pre ++ c.title ++ (c.bytes ++ (s ++ post)) =
      e1 ∙ sym (append_assoc (hd ++ pre) c.title (c.bytes ++ (s ++ post))) in
    let e3 : full ≡ hd ++ pre ++ c.title ++ c.bytes ++ (s ++ post) =
      e2 ∙ sym (append_assoc (hd ++ pre ++ c.title) c.bytes (s ++ post)) in
    let at : ℕ → File = λ q. record (open_set b fl i k m cs).file { pos = q } in
    let r1 =
      read_into-part (hd ++ pre) c.title (c.bytes ++ (s ++ post)) i.title_size
        (at (42 + j * length_of_trace i)) e1 place (sym ac.title) in
    let r2 =
      read_into-part (hd ++ pre ++ c.title) c.bytes (s ++ post) i.data_size
        (at (length (hd ++ pre ++ c.title))) e2 refl (sym ac.bytes) in
    let r3 =
      read_items_lem i (hd ++ pre ++ c.title ++ c.bytes) s post
        (at (length (hd ++ pre ++ c.title ++ c.bytes))) d e3 refl (length-sample_bytes fl i c ac) in
    (length (hd ++ pre ++ c.title ++ c.bytes ++ s), rw (o, l, r1, r2, r3))

expand_all_lem :
    (fl : Floats) (i : Info) (m : ℕ) (c : Content)
    → IsMachine fl
    → IsDatatype i.datatype
    → IsContent fl i c
    → expand_all fl (with_count i m) (sample_bytes fl i c) ≡ c.samples
unfolding expand_all
expand_all_lem fl i m c h d ac =
    let u : unpack (i.datatype % 16) i.num_samples (sample_bytes fl i c)
        ≡ map (convert fl i.datatype i.yscale) c.samples =
      ap (λ n. unpack (i.datatype % 16) n (sample_bytes fl i c)) (sym ac.samples)
      ∙ unpack-pack fl i.datatype i.yscale c.samples h d in
    rw (width_lem i.datatype d, expand_all, u) ac.exact

fill_trace_lem :
    (fl : Floats) (i : Info) (m : ℕ) (c : Content) (t : Trace)
    → IsMachine fl
    → Fits i
    → IsDatatype i.datatype
    → IsContent fl i c
    → fill_trace fl (with_count i m) t (c.title, c.bytes, sample_bytes fl i c)
      ≡ done (with_content i c t, ok)
unfolding fill_trace
fill_trace_lem fl i m c t h f d ac =
    let z : (i.datatype == 0xFF) ≡ false = ground (arith, f.coding) in
    let l : leb (2 ^ 31) i.num_samples ≡ false = ground (arith, f.samples) in
    rw (z, l, expand_all_lem fl i m c h d ac)

-- An open set whose file stands at `p`.
abbrev pub moved : ℕ → Trs → Trs
moved p s = record s { file = record s.file { pos = p } }

-- With memory at hand, the read of a trace that is in the set returns 0 and puts the content of that
-- trace in the buffers, wherever the file stands; apart from that place, the set stays as it was.
pub backend_trs_read-content :
    (fl : Floats) (i : Info) (k m p : ℕ) (b : Bool) (cs : List Content) (c : Content) (t : Trace)
    → IsMachine fl
    → Fits i
    → IsDatatype i.datatype
    → AreContents fl i cs
    → get_elem? cs t.index ≡ some c
    → 42 + length cs * length_of_trace i < 2 ^ 63
    → (q : ℕ) × (backend_trs_read fl (λ _. true) t (moved p (open_set b fl i k m cs))
        ≡ done (moved q (open_set b fl i k m cs), with_content i c t, ok))
unfolding backend_trs_read end_read
backend_trs_read-content fl i k m p b cs c t h f d all e bound =
    let (pre, post, ac, eq, n) = records_split fl i cs t.index c f d all e in
    let (q, r) = read_record_lem fl i k m t.index p b cs c f d all e bound in
    let one : (i.title_size == 0 || true) ≡ true = or_true (i.title_size == 0) in
    let two : (i.data_size == 0 || true) ≡ true = or_true (i.data_size == 0) in
    let three : (i.num_samples == 0 || true) ≡ true = or_true (i.num_samples == 0) in
    (
      q,
      rw (one, two, three, r)
          (ap (after_fill (acquire (moved q (open_set b fl i k m cs))))
            (fill_trace_lem fl i m c t h f d ac)),
    )
