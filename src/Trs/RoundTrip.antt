-- ===== src/Trs/RoundTrip.antt =====
-- A trace set from its creation to the reading of its traces: what a transformation that saves a set
-- does with the backend, and what a later program that opens the file does.
use mathlib.Core.List.{append-nil, append_assoc}
use native.Mathlib.Nat.{mul-le-mul_right}
use libtrs.Base.{
  ℕ, suc, ◌+◌, ◌*◌, ◌^◌, ◌<◌, ◌≡◌, refl, ap, ◌∙◌, true, false, none, some, List, [], ◌∷◌, ◌++◌,
  length, length-append, get_elem?, ◌⊎◌, inl, inr, ◌>>=◌, Outcome, done, blocked, fault, Status, ok,
  err, arith,
}
use libtrs.Types.{Trace}
use libtrs.Files.{File}
use libtrs.Headers.{Info, length_of_trace, unknown_num_traces}
use libtrs.Headers.Defaults.{Fits, with_count, empty_file, read_headers_default}
use libtrs.Trs.{
  Trs, Floats, end_open, backend_trs_open, backend_trs_create, backend_trs_read, backend_trs_write,
  backend_trs_close,
}
use libtrs.Trs.States.{
  Content, IsContent, AreContents, IsMachine, IsDatatype, with_content, records, file_of, open_set,
}
use libtrs.Trs.Writing.{backend_trs_write-next, backend_trs_create_lem, backend_trs_close_lem}
use libtrs.Trs.Reading.{backend_trs_read-content}

pub AreContents-end :
    (fl : Floats) (i : Info) (cs : List Content) (c : Content)
    → AreContents fl i cs
    → IsContent fl i c
    → AreContents fl i (cs ++ (c ∷ []))
AreContents-end fl i [] c a h = (h, tt)
AreContents-end fl i (d ∷ cs) c (x, a) h = (x, AreContents-end fl i cs c a h)

-- A trace that has no buffers yet.
abbrev pub blank : ℕ → Trace
blank j = record { addr = 0; owner = some 0; index = j; title = none; bytes = none; samples = none }

-- The call, if the one before returned 0.
abbrev pub if_ok :
    {A : Type 0} → Outcome (A × Status) → (A → Outcome (A × Status)) → Outcome (A × Status)
if_ok (done (a, ok)) k = k a
if_ok (done (a, err e)) k = done (a, err e)
if_ok blocked k = blocked
if_ok fault k = fault

-- The traces with these contents, written in order from index `j` on.
unfoldable pub write_all : Floats → Info → ℕ → List Content → Trs → Outcome (Trs × Status)
write_all fl i j [] s = done (s, ok)
write_all fl i j (c ∷ cs) s =
    if_ok (backend_trs_write fl true (with_content i c (blank j)) s) (write_all fl i (j + 1) cs)

-- A set that is created, written and closed: the file that is left.
unfoldable pub save : Floats → Info → List Content → Outcome (File × Status)
save fl i cs =
    backend_trs_create (with_count i unknown_num_traces) (some empty_file) true true true >>= λ r.
    elim r [
      | inl e ↦ done (empty_file, err e)
      | inr s ↦ write_all fl i 0 cs s >>= λ w. elim w.1 [
        | ok ↦ backend_trs_close w.0
        | err e ↦ done (w.0.file, err e)
      ]
    ]

-- A file that is opened, and one trace read.
unfoldable pub load : Floats → File → Trace → Outcome (Trace × Status)
load fl f t = backend_trs_open (some (record f { pos = 0 })) true true true >>= λ r. elim r [
  | inl e ↦ done (t, err e)
  | inr s ↦ backend_trs_read fl (λ _. true) t s >>= λ r. done (r.1, r.2)
]

write_all_lem :
    (fl : Floats) (i : Info) (k j : ℕ) (old cs : List Content)
    → Fits i
    → IsDatatype i.datatype
    → AreContents fl i old
    → AreContents fl i cs
    → j ≡ length old
    → length old + length cs < 2 ^ 64
    → 42 + (length old + length cs) * length_of_trace i < 2 ^ 63
    → (n : ℕ) × (write_all fl i j cs (open_set true fl i k unknown_num_traces old)
        ≡ done (open_set true fl i n unknown_num_traces (old ++ cs), ok))
unfolding write_all
write_all_lem fl i k j old [] f d ao ac e m b = (k, rw (append-nil old))
write_all_lem fl i k j old (c ∷ cs) f d ao (here, rest) e m b =
    let mono =
      mul-le-mul_right {m = length old} {n = length old + suc (length cs)} (length_of_trace i)
        (omega arith) in
    let step =
      backend_trs_write-next fl i k old c (blank j) f d ao here e (omega (arith, m))
        (omega (arith, mono, b)) in
    let n : length (old ++ (c ∷ [])) ≡ length old + 1 = length-append old (c ∷ []) in
    let w : length (old ++ (c ∷ [])) + length cs ≡ length old + suc (length cs) =
      omega (arith, n) in
    let (q, r) =
      write_all_lem fl i (length old + 1) (j + 1) (old ++ (c ∷ [])) cs f d
        (AreContents-end fl i old c ao here) rest (omega (arith, n, e)) (omega (arith, w, m))
        (rw w b) in
    let next : Outcome (Trs × Status) → Outcome (Trs × Status) =
      λ o. if_ok o (write_all fl i (j + 1) cs) in
    let last : List Content → Outcome (Trs × Status) =
      λ xs. done (open_set true fl i q unknown_num_traces xs, ok) in
    (q, ap next step ∙ r ∙ ap last (append_assoc old (c ∷ []) cs))

-- The headers can say any number of traces below 2^31, and that it is unknown.
Fits-with_count :
    (i : Info) (n : ℕ) → Fits i → (n < 2 ^ 31) ⊎ (n ≡ unknown_num_traces) → Fits (with_count i n)
Fits-with_count i n f h = record {
  traces = elim h [ inl l ↦ inl l | inr e ↦ inr (omega (arith, e), omega (arith, e)) ];
  samples = f.samples;
  title = f.title;
  bytes = f.bytes;
  coding = f.coding;
  xoffs = f.xoffs;
  xscale = f.xscale;
  yscale = f.yscale;
}

pub save_lem :
    (fl : Floats) (i : Info) (cs : List Content)
    → Fits i
    → IsDatatype i.datatype
    → AreContents fl i cs
    → length cs < 2 ^ 31
    → 42 + length cs * length_of_trace i < 2 ^ 63
    → save fl i cs ≡ done (file_of fl i (length cs) cs, ok)
unfolding save
save_lem fl i cs f d a m b =
    let u = Fits-with_count i unknown_num_traces f (inr refl) in
    let sum : 0 + length cs ≡ length cs = omega arith in
    let (n, w) =
      write_all_lem fl i unknown_num_traces 0 [] cs f d tt a refl (omega (arith, m)) (rw sum b) in
    rw (backend_trs_create_lem fl i u, w, backend_trs_close_lem fl i n cs)

pub open_lem :
    (fl : Floats) (i : Info) (cs : List Content)
    → Fits i
    → length cs < 2 ^ 31
    → backend_trs_open (some (record (file_of fl i (length cs) cs) { pos = 0 })) true true true
      ≡ done (inr (open_set false fl i (length cs) (length cs) cs))
unfolding backend_trs_open end_open length_of_trace
open_lem fl i cs f m = rw (
    read_headers_default (with_count i (length cs)) (records fl i cs)
      (Fits-with_count i (length cs) f (inl m)))

-- On a machine whose casts of a float give integers of the size asked for, with memory at hand and
-- a disk with room: a set of fewer than 2^31 traces, with sizes and a type that the headers can
-- say, and samples that the scaling does not change, whose file stays below 2^63 bytes. Creating
-- the file, writing the traces in order and closing it succeeds, and whoever opens the file finds
-- the number of traces, and reads for every index the title, the data and the samples that were
-- written for it.
pub load-save :
    (fl : Floats) (i : Info) (cs : List Content) (c : Content) (t : Trace)
    → IsMachine fl
    → Fits i
    → IsDatatype i.datatype
    → AreContents fl i cs
    → length cs < 2 ^ 31
    → 42 + length cs * length_of_trace i < 2 ^ 63
    → get_elem? cs t.index ≡ some c
    → (f : File) × (save fl i cs ≡ done (f, ok))
      × ((s : Trs) × (backend_trs_open (some (record f { pos = 0 })) true true true ≡ done (inr s))
          × (s.parsed.info.num_traces ≡ length cs))
      × (load fl f t ≡ done (with_content i c t, ok))
unfolding load
load-save fl i cs c t h f d a m b e =
    let n = length cs in
    let o = open_lem fl i cs f m in
    let (q, r) = backend_trs_read-content fl i n n 42 false cs c t h f d a e b in
    (
      file_of fl i n cs,
      save_lem fl i cs f d a m b,
      (open_set false fl i n n cs, o, refl),
      rw (o, r),
    )
