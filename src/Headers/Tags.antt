-- ===== src/Headers/Tags.antt =====
-- The tag and the length of a header, written and read back.
use mathlib.Core.List.{append_assoc}
use libtrs.Base.{
  ◌⊎◌, some, take, drop, drop-append, ltb, ℕ, ◌+◌, ◌-◌, ◌%◌, ◌^◌, ◌<◌, ◌≤◌, ◌≡◌, refl, sym, ap, ◌∙◌,
  leb, Bool-cases, true, false, List, [], ◌∷◌, ◌++◌, length, inl, inr, done, arith,
}
use libtrs.Files.{File, le_bytes}
use libtrs.Files.Places.{at_end, write_bytes_end, read_into_part, length-le_bytes, le-le_bytes}
use libtrs.Headers.{read_tag_and_len, len_bytes, data_len, write_tag_len_data}

-- A length below 128 is one byte; another has a byte before it that says how many follow.
short_lem :
    (tag len : ℕ) (pre post : List ℕ) (f : File)
    → len < 128
    → f.bytes ≡ pre ++ (tag ∷ len ∷ post)
    → f.pos ≡ length pre
    → read_tag_and_len f
      ≡ done (record f { pos = length (pre ++ (tag ∷ []) ++ (len ∷ [])) }, inr (tag, len))
unfolding read_tag_and_len
short_lem tag len pre post f h hb hp =
    let l : ltb len 128 ≡ true = ground (arith, h) in
    let one = read_into_part 1 pre (tag ∷ []) (len ∷ post) 1 f hb hp refl (omega arith) in
    let two =
      read_into_part 1 (pre ++ (tag ∷ [])) (len ∷ []) post 1
        (record f { pos = length (pre ++ (tag ∷ [])) })
        (hb ∙ sym (append_assoc pre (tag ∷ []) (len ∷ post))) refl refl (omega arith) in
    rw (one, two, l)

long_lem :
    (tag w len : ℕ) (pre post : List ℕ) (f : File)
    → w ≤ 4
    → len < 256 ^ w
    → f.bytes ≡ pre ++ (tag ∷ (128 + w) ∷ (le_bytes w len ++ post))
    → f.pos ≡ length pre
    → read_tag_and_len f
      ≡ done (
        record f { pos = length (pre ++ (tag ∷ []) ++ ((128 + w) ∷ []) ++ le_bytes w len) },
        inr (tag, len),
      )
unfolding read_tag_and_len
long_lem tag w len pre post f h k hb hp =
    let l : ltb (128 + w) 128 ≡ false = ground arith in
    let d : 128 + w - 128 ≡ w = omega arith in
    let tail = le_bytes w len ++ post in
    let p1 = pre ++ (tag ∷ []) in
    let p2 = p1 ++ ((128 + w) ∷ []) in
    let e1 = hb ∙ sym (append_assoc pre (tag ∷ []) ((128 + w) ∷ tail)) in
    let e2 = e1 ∙ sym (append_assoc p1 ((128 + w) ∷ []) tail) in
    let one = read_into_part 1 pre (tag ∷ []) ((128 + w) ∷ tail) 1 f hb hp refl (omega arith) in
    let two =
      read_into_part 1 p1 ((128 + w) ∷ []) tail 1 (record f { pos = length p1 }) e1 refl refl
        (omega arith) in
    let three =
      read_into_part 4 p2 (le_bytes w len) post w (record f { pos = length p2 }) e2 refl
        (sym (length-le_bytes w len)) h in
    rw (one, two, l, d, three, le-le_bytes w len k)

-- The bytes of a header before its value.
abbrev pub tag_bytes : ℕ → ℕ → List ℕ
tag_bytes tag len = tag ∷ len_bytes len

len_bytes-forms :
    (len : ℕ)
    → len < 2 ^ 32
    → ((len < 128) × (len_bytes len ≡ len ∷ []))
      ⊎ ((w : ℕ) × (w ≤ 4) × (len < 256 ^ w) × (len_bytes len ≡ (128 + w) ∷ le_bytes w len))
unfolding len_bytes
len_bytes-forms len h = elim (Bool-cases (leb len 127)) [
  | inl a ↦ inl (ground (arith, a), rw a)
  | inr a ↦ elim (Bool-cases (leb len 255)) [
    | inl b ↦
        let m : len % 256 ≡ len = ground (arith, b) in
        inr (1, omega arith, ground (arith, b), rw (a, b, m))
    | inr b ↦ elim (Bool-cases (leb len 65535)) [
      | inl c ↦ inr (2, omega arith, ground (arith, c), rw (a, b, c))
      | inr c ↦
          let d : leb len 4294967295 ≡ true = ground (arith, h) in
          inr (4, omega arith, omega (arith, h), rw (a, b, c, d))
    ]
  ]
]

-- The tag and the length that stand in a file as they are written, for a length below 2^32.
read_tag_and_len-tag_bytes :
    (tag len : ℕ) (pre post : List ℕ) (f : File)
    → len < 2 ^ 32
    → f.bytes ≡ pre ++ (tag_bytes tag len ++ post)
    → f.pos ≡ length pre
    → read_tag_and_len f
      ≡ done (record f { pos = length (pre ++ tag_bytes tag len) }, inr (tag, len))
read_tag_and_len-tag_bytes tag len pre post f h hb hp = elim (len_bytes-forms len h) [
  | inl (a, e) ↦
      let q : length (pre ++ (tag ∷ []) ++ (len ∷ [])) ≡ length (pre ++ (tag ∷ len_bytes len)) =
        ap length (append_assoc pre (tag ∷ []) (len ∷ []) ∙ ap (λ b. pre ++ (tag ∷ b)) (sym e)) in
      short_lem tag len pre post f a (hb ∙ ap (λ b. pre ++ (tag ∷ (b ++ post))) e) hp
      ∙ ap (λ p. done (record f { pos = p }, inr (tag, len))) q
  | inr (w, a, b, e) ↦
      let xs = le_bytes w len in
      let q : length (pre ++ (tag ∷ []) ++ ((128 + w) ∷ []) ++ xs)
          ≡ length (pre ++ (tag ∷ len_bytes len)) =
        ap length (
          append_assoc (pre ++ (tag ∷ [])) ((128 + w) ∷ []) xs
          ∙ append_assoc pre (tag ∷ []) ((128 + w) ∷ xs)
          ∙ ap (λ b. pre ++ (tag ∷ b)) (sym e)) in
      long_lem tag w len pre post f a b (hb ∙ ap (λ b. pre ++ (tag ∷ (b ++ post))) e) hp
      ∙ ap (λ p. done (record f { pos = p }, inr (tag, len))) q
]

write_tag_len_data_end :
    (tag len : ℕ) (pre bytes : List ℕ)
    → data_len tag bytes ≡ some len
    → len ≤ length bytes
    → write_tag_len_data tag bytes (at_end true pre)
      ≡ done (at_end true (pre ++ (tag_bytes tag len ++ take len bytes)), inr tt)
unfolding write_tag_len_data
write_tag_len_data_end tag len pre bytes e h =
    let l : ltb (length bytes) len ≡ false = ground (arith, h) in
    let p1 = pre ++ (tag ∷ []) in
    let a : p1 ++ len_bytes len ++ take len bytes
        ≡ pre ++ (tag ∷ (len_bytes len ++ take len bytes)) =
      append_assoc p1 (len_bytes len) (take len bytes)
      ∙ append_assoc pre (tag ∷ []) (len_bytes len ++ take len bytes) in
    rw (
      e,
      write_tag_len_data,
      write_bytes_end true pre (tag ∷ []),
      write_bytes_end true p1 (len_bytes len),
      l,
      write_bytes_end true (p1 ++ len_bytes len) (take len bytes),
      a,
    )

-- A header of fewer than 2^32 bytes that __write_tag_len_data appends to a file on a disk with
-- room: __read_tag_and_len, from where the header starts, gives its tag and the length of its
-- value, and stands at the value.
pub read_tag_and_len-write_tag_len_data :
    (tag len : ℕ) (pre bytes : List ℕ)
    → data_len tag bytes ≡ some len
    → len ≤ length bytes
    → len < 2 ^ 32
    → (f : File) × (write_tag_len_data tag bytes (at_end true pre) ≡ done (f, inr tt))
      × (g : File) × (read_tag_and_len (record f { pos = length pre }) ≡ done (g, inr (tag, len)))
      × (drop g.pos g.bytes ≡ take len bytes)
read_tag_and_len-write_tag_len_data tag len pre bytes e h k =
    let f = at_end true (pre ++ (tag_bytes tag len ++ take len bytes)) in
    let d : drop (length (pre ++ tag_bytes tag len)) (pre ++ (tag_bytes tag len ++ take len bytes))
        ≡ take len bytes =
      ap (drop (length (pre ++ tag_bytes tag len)))
        (sym (append_assoc pre (tag_bytes tag len) (take len bytes)))
      ∙ drop-append (pre ++ tag_bytes tag len) (take len bytes) in
    (
      f,
      write_tag_len_data_end tag len pre bytes e h,
      record f { pos = length (pre ++ tag_bytes tag len) },
      read_tag_and_len-tag_bytes tag len pre (take len bytes) (record f { pos = length pre }) k refl
          refl,
      d,
    )
