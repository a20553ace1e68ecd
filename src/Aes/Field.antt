-- ===== src/Aes/Field.antt =====
-- The tables against the field of 256 elements that they stand for, and the Hamming weight against
-- a count of bits. Every statement is about bytes, and is checked for each of them.
use libtrs.Base.{
  ℕ, zero, suc, ◌+◌, ◌-◌, ◌*◌, ◌/◌, ◌%◌, ◌<◌, ◌≡◌, bit_xor, true, ltb, ltb→lt, ◌==◌, ==_iff,
  if◌then◌else◌, all_below, all_below-true, refl,
}
use libtrs.Aes.{sub_byte, sub_byte_inv, mul2, mul3, hamming_weight}

-- The product with x modulo x^8 + x^4 + x^3 + x + 1.
unfoldable pub xtime : ℕ → ℕ
xtime b = if ltb b 128 then 2 * b else bit_xor (2 * b - 256) 27

-- The product of two elements, from the `n` lowest bits of the second.
unfoldable pub times_bits : ℕ → ℕ → ℕ → ℕ
times_bits zero a b = 0
times_bits (suc n) a b = bit_xor (if b % 2 == 1 then a else 0) (times_bits n (xtime a) (b / 2))

unfoldable pub times : ℕ → ℕ → ℕ
times a b = times_bits 8 a b

-- The power 254, which is the inverse of an element other than 0, and 0 at 0.
unfoldable pub inverse : ℕ → ℕ
inverse a =
    let a2 = times a a in
    let a4 = times a2 a2 in
    let a8 = times a4 a4 in
    let a16 = times a8 a8 in
    let a32 = times a16 a16 in
    let a64 = times a32 a32 in
    times (times a64 a64) (times a64 (times a32 (times a16 (times a8 (times a4 a2)))))

unfoldable pub rotate : ℕ → ℕ
rotate b = (2 * b) % 256 + b / 128

-- The affine map of the S-box.
unfoldable pub affine : ℕ → ℕ
affine b =
    let b1 = rotate b in
    let b2 = rotate b1 in
    let b3 = rotate b2 in bit_xor (bit_xor (bit_xor (bit_xor (bit_xor b b1) b2) b3) (rotate b3)) 99

-- The number of ones among the `n` lowest bits.
unfoldable pub ones : ℕ → ℕ → ℕ
ones zero b = 0
ones (suc n) b = b % 2 + ones n (b / 2)

-- An equation of bytes that holds at each of them.
every_byte : (f g : ℕ → ℕ) → all_below (λ b. f b == g b) 256 ≡ true → (b : ℕ) → b < 256 → f b ≡ g b
every_byte f g h b l = (==_iff (f b) (g b)).0 (all_below-true (λ b. f b == g b) 256 b h l)

-- For a byte b, the entry of the S-box is the affine map of the inverse of b, where the product of
-- the inverse with b is 1 unless b is 0; and the entry of the inverse S-box at that entry is b.
pub sub_byte_lem :
    (b : ℕ)
    → b < 256
    → (sub_byte b ≡ affine (inverse b))
      × (times b (inverse b) ≡ (if b == 0 then 0 else 1))
      × (sub_byte_inv (sub_byte b) ≡ b)
unfolding all_below affine inverse times times_bits xtime rotate sub_byte sub_byte_inv
sub_byte_lem b l = (
  every_byte sub_byte (λ b. affine (inverse b)) refl b l,
  every_byte (λ b. times b (inverse b)) (λ b. if b == 0 then 0 else 1) refl b l,
  every_byte (λ b. sub_byte_inv (sub_byte b)) (λ b. b) refl b l,
)

pub lt-sub_byte : (b : ℕ) → b < 256 → sub_byte b < 256
unfolding all_below sub_byte
lt-sub_byte b l = ltb→lt (sub_byte b) 256 (all_below-true (λ b. ltb (sub_byte b) 256) 256 b refl l)

pub mul2-times : (b : ℕ) → b < 256 → mul2 b ≡ times 2 b
unfolding all_below times times_bits xtime mul2
mul2-times b l = every_byte mul2 (times 2) refl b l

pub mul3-times : (b : ℕ) → b < 256 → mul3 b ≡ times 3 b
unfolding all_below times times_bits xtime mul3
mul3-times b l = every_byte mul3 (times 3) refl b l

pub times-one : (b : ℕ) → b < 256 → times 1 b ≡ b
unfolding all_below times times_bits xtime
times-one b l = every_byte (times 1) (λ b. b) refl b l

-- The Hamming weight of a byte is the number of ones among its eight bits.
pub hamming_weight-ones : (b : ℕ) → b < 256 → hamming_weight b ≡ ones 8 b
unfolding all_below hamming_weight ones
hamming_weight-ones b l = every_byte hamming_weight (ones 8) refl b l
