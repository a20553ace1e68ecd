-- ===== src/Aes/Tests.antt =====
-- The theorems about AES at concrete inputs, and the vectors of FIPS 197.
use libtrs.Base.{ℕ, ◌≡◌, ◌++◌, List, [], ◌∷◌, replicate, refl, arith, done, drop}
use libtrs.Aes.{
  add_key, sub_byte, sub_byte_inv, sub_bytes, shift_rows, mix_cols, mix_col, mul2, mul3,
  hamming_weight, expand_key, expand_round,
}
use libtrs.Aes.Field.{affine, inverse, times, sub_byte_lem}
use libtrs.Aes.Rounds.{byte, IsBlock, all_bytes, all_bytes-bounded}
use libtrs.Aes.Models.{knownkey_models, knownkey_init}
use libtrs.Aes.LastRound.{last_round}
use libtrs.Aes.KnownKey.{encrypt, rounds, knownkey_models_lem, knownkey_models_total}

-- The key and the input of appendix B of FIPS 197.
abbrev fips_key : List ℕ
fips_key = 43 ∷ 126 ∷ 21 ∷ 22 ∷ 40 ∷ 174 ∷ 210 ∷ 166 ∷ 171 ∷ 247 ∷ 21 ∷ 136 ∷ 9 ∷ 207 ∷ 79 ∷ 60 ∷ []

abbrev fips_input : List ℕ
fips_input =
    50 ∷ 67 ∷ 246 ∷ 168 ∷ 136 ∷ 90 ∷ 48 ∷ 141 ∷ 49 ∷ 49 ∷ 152 ∷ 162 ∷ 224 ∷ 55 ∷ 7 ∷ 52 ∷ []

abbrev fips_output : List ℕ
fips_output =
    57 ∷ 37 ∷ 132 ∷ 29 ∷ 2 ∷ 220 ∷ 9 ∷ 251 ∷ 220 ∷ 17 ∷ 133 ∷ 151 ∷ 25 ∷ 106 ∷ 11 ∷ 50 ∷ []

encrypt_test : encrypt (expand_key fips_key (replicate 176 0)) fips_input ≡ fips_output
unfolding encrypt rounds last_round expand_key expand_round add_key sub_bytes shift_rows mix_cols
    mix_col mul2 mul3 sub_byte
encrypt_test = refl

fips_key-IsBlock : IsBlock fips_key
unfolding all_bytes
fips_key-IsBlock = record { sixteen = refl; bounded = all_bytes-bounded fips_key refl }

fips_input-IsBlock : IsBlock fips_input
unfolding all_bytes
fips_input-IsBlock = record { sixteen = refl; bounded = all_bytes-bounded fips_input refl }

sub_byte_lem_example :
    (sub_byte 83 ≡ affine (inverse 83)) × (times 83 (inverse 83) ≡ 1) × (sub_byte_inv 237 ≡ 83)
unfolding sub_byte
sub_byte_lem_example = sub_byte_lem 83 (omega arith)

abbrev known : List ℕ
known = fips_input ++ (fips_output ++ fips_key)

abbrev keys : List ℕ
keys = expand_key fips_key (replicate 176 0)

knownkey_models_lem_example :
    (knownkey_models (replicate 176 0) known 579
      ≡ done (hamming_weight (byte (rounds keys 9 fips_input) 3)))
    × (knownkey_models (replicate 176 0) known 595
        ≡ done (hamming_weight (byte (add_key (rounds keys 9 fips_input) (drop 144 keys)) 3)))
    × (knownkey_models (replicate 176 0) known 611
        ≡ done (
            hamming_weight
              (byte (sub_bytes (add_key (rounds keys 9 fips_input) (drop 144 keys))) 3)))
    × (knownkey_models (replicate 176 0) known 627
        ≡ done (
            hamming_weight (
              byte
                (shift_rows (sub_bytes (add_key (rounds keys 9 fips_input) (drop 144 keys))))
                3)))
    × (knownkey_models (replicate 176 0) known 643
        ≡ done (hamming_weight (byte (encrypt keys fips_input) 3)))
knownkey_models_lem_example =
    knownkey_models_lem known (replicate 176 0) 9 3 (omega arith) (omega arith)

knownkey_models_total_example : (h : ℕ) × (knownkey_models (replicate 176 0) known 655 ≡ done h)
unfolding knownkey_init
knownkey_models_total_example =
    knownkey_models_total known (replicate 176 0) 1000 7 81 (omega arith) (omega arith)
