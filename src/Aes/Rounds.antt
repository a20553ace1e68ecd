-- ===== src/Aes/Rounds.antt =====
-- The round functions on a state of 16 bytes, byte by byte.
use libtrs.Base.{
  ℕ, zero, suc, ◌+◌, ◌-◌, ◌*◌, ◌/◌, ◌%◌, ◌<◌, ◌≡◌, sym, ap, ◌∙◌, bit_xor, List, [], ◌∷◌, get_or,
  get_or-tabulate, tabulate, tabulate-get_or, length, arith, refl, Bool, true, ltb, ltb→lt, ◌&&◌,
  and_true,
}
use mathlib.Core.Path.{subst}
use libtrs.Aes.{
  add_key, sub_byte, sub_bytes, shift_rows, mix_cols, mix_col, mul2, mul3, shift_rows_indices,
  shift_rows_inv_indices,
}
use libtrs.Aes.Field.{times, mul2-times, mul3-times, times-one}

-- A state of 16 bytes, given by its bytes.
abbrev pub block : (ℕ → ℕ) → List ℕ
block g = tabulate 16 g

abbrev pub byte : List ℕ → ℕ → ℕ
byte s i = get_or s i 0

-- 16 bytes, each below 256.
pub record IsBlock (s : List ℕ) : Type 0 where
  pub sixteen : length s ≡ 16
  pub bounded : (i : ℕ) → byte s i < 256

unfoldable pub all_bytes : List ℕ → Bool
all_bytes [] = true
all_bytes (x ∷ xs) = ltb x 256 && all_bytes xs

pub all_bytes-bounded : (s : List ℕ) → all_bytes s ≡ true → (i : ℕ) → byte s i < 256
unfolding all_bytes
all_bytes-bounded [] h i = omega arith
all_bytes-bounded (x ∷ xs) h zero = ltb→lt x 256 ((and_true (ltb x 256) (all_bytes xs) h).0)
all_bytes-bounded (x ∷ xs) h (suc i) =
    all_bytes-bounded xs ((and_true (ltb x 256) (all_bytes xs) h).1) i

pub block-byte : (s : List ℕ) → length s ≡ 16 → block (byte s) ≡ s
block-byte s h = tabulate-get_or s 16 h

pub add_key-block :
    (s key : List ℕ) → length s ≡ 16 → add_key s key ≡ block (λ i. bit_xor (byte s i) (byte key i))
unfolding add_key
add_key-block s key h =
    let on_block : add_key (block (byte s)) key ≡ block (λ i. bit_xor (byte s i) (byte key i)) =
      refl in
    ap (λ t. add_key t key) (sym (block-byte s h)) ∙ on_block

pub sub_bytes-block : (s : List ℕ) → length s ≡ 16 → sub_bytes s ≡ block (λ i. sub_byte (byte s i))
unfolding sub_bytes
sub_bytes-block s h =
    let on_block : sub_bytes (block (byte s)) ≡ block (λ i. sub_byte (byte s i)) = refl in
    ap sub_bytes (sym (block-byte s h)) ∙ on_block

-- shift_rows of 16 bytes moves the byte at `shift_rows_indices[i]` to place i, and the byte of the
-- result at `shift_rows_inv_indices[i]` is the one that was at place i.
pub shift_rows_lem :
    (s : List ℕ)
    → length s ≡ 16
    → (shift_rows s ≡ block (λ i. byte s (byte shift_rows_indices i)))
      × (block (λ i. byte (shift_rows s) (byte shift_rows_inv_indices i)) ≡ s)
unfolding shift_rows
shift_rows_lem s h =
    let moved : shift_rows (block (byte s)) ≡ block (λ i. byte s (byte shift_rows_indices i)) =
      refl in
    let back : block (λ i. byte (shift_rows (block (byte s))) (byte shift_rows_inv_indices i))
        ≡ block (byte s) =
      refl in
    (
      ap shift_rows (sym (block-byte s h)) ∙ moved,
      subst (λ t. block (λ i. byte (shift_rows t) (byte shift_rows_inv_indices i)) ≡ t)
          (block-byte s h) back,
    )

-- Row r of a column of `mix_cols`, by the tables.
combine : ℕ → ℕ → ℕ → ℕ → ℕ → ℕ
combine zero a b c d = bit_xor (bit_xor (bit_xor (mul2 a) (mul3 b)) c) d
combine (suc zero) a b c d = bit_xor (bit_xor (bit_xor a (mul2 b)) (mul3 c)) d
combine (suc (suc zero)) a b c d = bit_xor (bit_xor (bit_xor a b) (mul2 c)) (mul3 d)
combine (suc (suc (suc _))) a b c d = bit_xor (bit_xor (bit_xor (mul3 a) b) c) (mul2 d)

-- The entry of the matrix of MixColumns: the circulant of 2, 3, 1, 1.
unfoldable pub matrix : ℕ → ℕ → ℕ
matrix r j = get_or (2 ∷ 3 ∷ 1 ∷ 1 ∷ []) ((j + 4 - r) % 4) 0

-- Row r of the product of the matrix with a column.
unfoldable pub row : ℕ → ℕ → ℕ → ℕ → ℕ → ℕ
row r a b c d =
    bit_xor (bit_xor (bit_xor (times (matrix r 0) a) (times (matrix r 1) b)) (times (matrix r 2) c))
      (times (matrix r 3) d)

xor4 :
    {a b c d a2 b2 c2 d2 : ℕ}
    → a ≡ a2
    → b ≡ b2
    → c ≡ c2
    → d ≡ d2
    → bit_xor (bit_xor (bit_xor a b) c) d ≡ bit_xor (bit_xor (bit_xor a2 b2) c2) d2
xor4 p q r s = cc

combine-row :
    (r a b c d : ℕ)
    → r < 4
    → a < 256
    → b < 256
    → c < 256
    → d < 256
    → combine r a b c d ≡ row r a b c d
unfolding combine row matrix
combine-row zero a b c d h ha hb hc hd =
    xor4 (mul2-times a ha) (mul3-times b hb) (sym (times-one c hc)) (sym (times-one d hd))
combine-row (suc zero) a b c d h ha hb hc hd =
    xor4 (sym (times-one a ha)) (mul2-times b hb) (mul3-times c hc) (sym (times-one d hd))
combine-row (suc (suc zero)) a b c d h ha hb hc hd =
    xor4 (sym (times-one a ha)) (sym (times-one b hb)) (mul2-times c hc) (mul3-times d hd)
combine-row (suc (suc (suc zero))) a b c d h ha hb hc hd =
    xor4 (mul3-times a ha) (sym (times-one b hb)) (sym (times-one c hc)) (mul2-times d hd)
combine-row (suc (suc (suc (suc r)))) a b c d h ha hb hc hd = absurd (omega arith)

abbrev mixed : (ℕ → ℕ) → ℕ → ℕ
mixed g i = let c = 4 * (i / 4) in combine (i % 4) (g c) (g (c + 1)) (g (c + 2)) (g (c + 3))

mix_cols-block : (g : ℕ → ℕ) → mix_cols (block g) ≡ block (mixed g)
unfolding mix_cols mix_col combine
mix_cols-block g = refl

-- Every byte of mix_cols of 16 bytes is the product of its row of the matrix 2, 3, 1, 1 with its
-- column, in the field of AES.
pub mix_cols-row :
    (s : List ℕ)
    → IsBlock s
    → (i : ℕ) → i < 16
    → byte (mix_cols s) i
      ≡ row
          (i % 4)
          (byte s (4 * (i / 4)))
          (byte s (4 * (i / 4) + 1))
          (byte s (4 * (i / 4) + 2))
          (byte s (4 * (i / 4) + 3))
mix_cols-row s h i l =
    let c = 4 * (i / 4) in
    ap (λ t. byte (mix_cols t) i) (sym (block-byte s h.sixteen))
    ∙ ap (λ t. byte t i) (mix_cols-block (byte s))
    ∙ get_or-tabulate (mixed (byte s)) 16 i l
    ∙ combine-row (i % 4) (byte s c) (byte s (c + 1)) (byte s (c + 2)) (byte s (c + 3))
        (omega arith) (h.bounded c) (h.bounded (c + 1)) (h.bounded (c + 2)) (h.bounded (c + 3))
