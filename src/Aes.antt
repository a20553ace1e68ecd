-- ===== src/Aes.antt =====
-- The round functions of lib/crypto/aes.c, and the Hamming weight and the key schedule of
-- transform/power_analysis/tfm_aes_knownkey.c. A byte is a number below 256, an array of bytes a
-- list; every loop runs over its counter as in the source.
mod Tables
pub mod Field
pub mod Rounds
pub mod Models
pub mod LastRound
pub mod KnownKey
mod Tests
use libtrs.Base.{
  ℕ, ◌+◌, ◌-◌, ◌*◌, ◌/◌, ◌%◌, bit_xor, bit_and, List, [], get_or, set, take, drop, ◌++◌, for_range,
}
pub use Tables.*

-- `sbox[val >> 4u][val & 0xfu]`, and the same of `sbox_inv`.
unfoldable pub sub_byte : ℕ → ℕ
sub_byte val = get_or (get_or sbox (val / 16) []) (val % 16) 0

unfoldable pub sub_byte_inv : ℕ → ℕ
sub_byte_inv val = get_or (get_or sbox_inv (val / 16) []) (val % 16) 0

unfoldable pub add_key : List ℕ → List ℕ → List ℕ
add_key state key = for_range 0 16 (λ i s. set s i (bit_xor (get_or s i 0) (get_or key i 0))) state

unfoldable pub sub_bytes : List ℕ → List ℕ
sub_bytes state = for_range 0 16 (λ i s. set s i (sub_byte (get_or s i 0))) state

-- The writes of `shift_rows`, in order: one row after the other.
unfoldable pub shift_rows : List ℕ → List ℕ
shift_rows state =
    let temp1 = get_or state 1 0 in
    let s1 = set state 1 (get_or state 5 0) in
    let s2 = set s1 5 (get_or s1 9 0) in
    let s3 = set s2 9 (get_or s2 13 0) in
    let s4 = set s3 13 temp1 in
    let temp3 = get_or s4 2 0 in
    let temp2 = get_or s4 14 0 in
    let s5 = set s4 2 (get_or s4 10 0) in
    let s6 = set s5 14 (get_or s5 6 0) in
    let s7 = set s6 10 temp3 in
    let s8 = set s7 6 temp2 in
    let temp4 = get_or s8 3 0 in
    let s9 = set s8 3 (get_or s8 15 0) in
    let s10 = set s9 15 (get_or s9 11 0) in let s11 = set s10 11 (get_or s10 7 0) in set s11 7 temp4

unfoldable pub mul2 : ℕ → ℕ
mul2 b = get_or mul2_lookup b 0

unfoldable pub mul3 : ℕ → ℕ
mul3 b = get_or mul3_lookup b 0

abbrev xor4 : ℕ → ℕ → ℕ → ℕ → ℕ
xor4 a b c d = bit_xor (bit_xor (bit_xor a b) c) d

-- One turn of the loop of `mix_cols`.
unfoldable pub mix_col : ℕ → List ℕ → List ℕ
mix_col i s =
    let r0 = get_or s (4 * i) 0 in
    let r1 = get_or s (4 * i + 1) 0 in
    let r2 = get_or s (4 * i + 2) 0 in
    let r3 = get_or s (4 * i + 3) 0 in
    let s0 = set s (4 * i + 0) (xor4 (mul2 r0) (mul3 r1) r2 r3) in
    let s1 = set s0 (4 * i + 1) (xor4 r0 (mul2 r1) (mul3 r2) r3) in
    let s2 = set s1 (4 * i + 2) (xor4 r0 r1 (mul2 r2) (mul3 r3)) in
    set s2 (4 * i + 3) (xor4 (mul3 r0) r1 r2 (mul2 r3))

unfoldable pub mix_cols : List ℕ → List ℕ
mix_cols state = for_range 0 4 mix_col state

-- The sums of an `uint8_t`.
unfoldable pub hamming_weight : ℕ → ℕ
hamming_weight n =
    let n1 = (bit_and n 170 / 2 + bit_and n 85) % 256 in
    let n2 = (bit_and n1 204 / 4 + bit_and n1 51) % 256 in
    (bit_and n2 240 / 16 + bit_and n2 15) % 256

unfoldable pub hamming_distance : ℕ → ℕ → ℕ
hamming_distance n0 n1 = hamming_weight (bit_xor n0 n1)

-- One turn of the loop of `expand_key`, at `i` from 1 to 10.
unfoldable pub expand_round : ℕ → List ℕ → List ℕ
expand_round i key_sched =
    let prev_key_base = 16 * (i - 1) in
    let key_base = 16 * i in
    let rotated =
      for_range 0 3 (λ j s. set s (key_base + j) (sub_byte (get_or s (prev_key_base + 13 + j) 0)))
        key_sched in
    let wrapped = set rotated (key_base + 3) (sub_byte (get_or rotated (prev_key_base + 12) 0)) in
    let marked =
      set wrapped key_base (bit_xor (get_or wrapped key_base 0) (get_or rc_lookup (i - 1) 0)) in
    let first =
      for_range 0 4
        (λ j s.
          set s (key_base + j)
            (bit_xor (get_or s (key_base + j) 0) (get_or s (prev_key_base + j) 0)))
        marked in
    for_range 4 12
      (λ j s.
        set s (key_base + j)
          (bit_xor (get_or s (key_base + j - 4) 0) (get_or s (prev_key_base + j) 0)))
      first

-- The 176 bytes of `key_sched` start as what the caller's array holds.
unfoldable pub expand_key : List ℕ → List ℕ → List ℕ
expand_key key key_sched = for_range 1 10 expand_round (take 16 key ++ drop 16 key_sched)
