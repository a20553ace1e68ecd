-- ===== src/Trs/Sizes.antt =====
-- The lengths of traces in a trace file, and where they start.
use mathlib.Core.List.{append-nil, append_assoc}
use native.Mathlib.Nat.{mul-le-mul}
use libtrs.Base.{
  ℕ, suc, ◌+◌, ◌*◌, ◌%◌, ◌^◌, ◌<◌, ◌≤◌, ◌≡◌, refl, sym, ap, ◌∙◌, List, [], ◌∷◌, ◌++◌, map, length,
  length-append, arith,
}
use libtrs.Files.{le_bytes}
use libtrs.Files.Places.{length-le_bytes}
use libtrs.Headers.{Info, length_of_trace}
use libtrs.Headers.Defaults.{Fits}
use libtrs.Trs.{Floats, convert, pack}
use libtrs.Trs.States.{
  Content, IsContent, AreContents, IsDatatype, byte, short, int, float, sample_bytes, record_bytes,
  records,
}

pub length-map : (f : ℕ → ℕ) (xs : List ℕ) → length (map f xs) ≡ length xs
length-map f [] = refl
length-map f (x ∷ xs) = ap suc (length-map f xs)

length-pack : (w : ℕ) (xs : List ℕ) → length (pack w xs) ≡ length xs * w
length-pack w [] = omega arith
length-pack w (x ∷ xs) =
    let e : suc (length xs) * w ≡ w + length xs * w = omega arith in
    omega (arith, length-append (le_bytes w x) (pack w xs), length-le_bytes w x, length-pack w xs)

pub length-sample_bytes :
    (fl : Floats) (i : Info) (c : Content)
    → IsContent fl i c
    → length (sample_bytes fl i c) ≡ i.num_samples * (i.datatype % 16)
length-sample_bytes fl i c h =
    let conv = convert fl i.datatype i.yscale in
    length-pack (i.datatype % 16) (map conv c.samples)
    ∙ ap (λ n. n * (i.datatype % 16)) (length-map conv c.samples ∙ h.samples)

datatype_bound : (d : ℕ) → IsDatatype d → d % 16 ≤ 4
datatype_bound _ byte = omega arith
datatype_bound _ short = omega arith
datatype_bound _ int = omega arith
datatype_bound _ float = omega arith

size_bound : (n w : ℕ) → n < 2 ^ 31 → w ≤ 4 → n * w ≤ 2 ^ 33
size_bound n w h k =
    let l : n ≤ 2 ^ 31 = omega arith in
    let b : n * w ≤ 2 ^ 31 * 4 = mul-le-mul l k in omega (arith, b)

pub length_of_trace_lem :
    (i : Info)
    → Fits i
    → IsDatatype i.datatype
    → length_of_trace i ≡ i.num_samples * (i.datatype % 16) + i.data_size + i.title_size
unfolding length_of_trace
length_of_trace_lem i h d =
    let b = size_bound i.num_samples (i.datatype % 16) h.samples (datatype_bound i.datatype d) in
    omega (arith, b, h.title, h.bytes)

pub length-record_bytes :
    (fl : Floats) (i : Info) (c : Content)
    → Fits i
    → IsDatatype i.datatype
    → IsContent fl i c
    → length (record_bytes fl i c) ≡ length_of_trace i
unfolding record_bytes
length-record_bytes fl i c h d k =
    let s = sample_bytes fl i c in
    omega (
      arith,
      length-append c.title (c.bytes ++ s),
      length-append c.bytes s,
      length-sample_bytes fl i c k,
      length_of_trace_lem i h d,
      k.title,
      k.bytes,
    )

pub length-records :
    (fl : Floats) (i : Info) (cs : List Content)
    → Fits i
    → IsDatatype i.datatype
    → AreContents fl i cs
    → length (records fl i cs) ≡ length cs * length_of_trace i
unfolding records
length-records fl i [] h d k = omega arith
length-records fl i (c ∷ cs) h d (kc, ks) =
    let e : suc (length cs) * length_of_trace i
        ≡ length_of_trace i + length cs * length_of_trace i =
      omega arith in
    omega (
      arith,
      length-append (record_bytes fl i c) (records fl i cs),
      length-record_bytes fl i c h d kc,
      length-records fl i cs h d ks,
    )

pub records_end :
    (fl : Floats) (i : Info) (cs : List Content) (c : Content)
    → records fl i (cs ++ (c ∷ [])) ≡ records fl i cs ++ record_bytes fl i c
unfolding records
records_end fl i [] c = append-nil (record_bytes fl i c)
records_end fl i (d ∷ cs) c =
    ap (◌++◌ (record_bytes fl i d)) (records_end fl i cs c)
    ∙ sym (append_assoc (record_bytes fl i d) (records fl i cs) (record_bytes fl i c))
