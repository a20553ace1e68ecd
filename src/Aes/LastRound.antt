-- ===== src/Aes/LastRound.antt =====
-- The models of tfm_aes_intermediate.c against the rounds of AES: with the right guess of the key,
-- each is the Hamming weight, or distance, of bytes of the state that the cipher goes through.
use libtrs.Base.{
  ℕ, ◌+◌, ◌*◌, ◌/◌, ◌%◌, ◌<◌, ◌≡◌, sym, ap, ◌∙◌, bit_xor, List, ◌++◌, length, arith, refl,
  xor_cancel, all_below, all_below-true, ltb, ltb→lt, ◌==◌, ==_iff, get_or-append,
  get_or-append_left, get_or-tabulate,
}
use mathlib.Core.Path.{subst}
use libtrs.Aes.{
  add_key, sub_byte, sub_byte_inv, sub_bytes, shift_rows, shift_rows_indices,
  shift_rows_inv_indices, hamming_weight, hamming_distance,
}
use libtrs.Aes.Field.{sub_byte_lem, lt-sub_byte}
use libtrs.Aes.Rounds.{
  block, byte, block-byte, IsBlock, add_key-block, sub_bytes-block, shift_rows_lem,
}
use libtrs.Aes.Models.{
  round10_hw_sbox_in, round10_out_hd, round9_hw_mixcols_out, round0_hw_addkey_out,
  round0_hw_sbox_out, round0_round1_hd,
}

-- The last round: SubBytes, ShiftRows, and the last round key.
unfoldable pub last_round : List ℕ → List ℕ → List ℕ
last_round state key = add_key (shift_rows (sub_bytes state)) key

-- A byte of the output of the last round.
last_round-byte :
    (s key : List ℕ)
    → length s ≡ 16
    → last_round s key
      ≡ block (λ i. bit_xor (sub_byte (byte s (byte shift_rows_indices i))) (byte key i))
unfolding last_round add_key shift_rows sub_bytes
last_round-byte s key h =
    let on_block : last_round (block (byte s)) key
        ≡ block (λ i. bit_xor (sub_byte (byte s (byte shift_rows_indices i))) (byte key i)) =
      refl in
    ap (λ t. last_round t key) (sym (block-byte s h)) ∙ on_block

-- With the byte i of the state before the last round as x and a key byte k, what the models
-- compute from sub_byte x ^ k.
undo : (x k : ℕ) → x < 256 → k < 256 → sub_byte_inv (bit_xor (bit_xor (sub_byte x) k) k) ≡ x
undo x k hx hk =
    ap sub_byte_inv (xor_cancel (sub_byte x) k (lt-sub_byte x hx) hk) ∙ (sub_byte_lem x hx).2

-- The two tables of row shifts are inverse to each other, with entries below 16.
shift_indices :
    (i : ℕ)
    → i < 16
    → (byte shift_rows_inv_indices i < 16)
      × (byte shift_rows_indices i < 16)
      × (byte shift_rows_indices (byte shift_rows_inv_indices i) ≡ i)
unfolding all_below
shift_indices i l = (
  ltb→lt (byte shift_rows_inv_indices i) 16
      (all_below-true (λ i. ltb (byte shift_rows_inv_indices i) 16) 16 i refl l),
  ltb→lt (byte shift_rows_indices i) 16
      (all_below-true (λ i. ltb (byte shift_rows_indices i) 16) 16 i refl l),
  (==_iff (byte shift_rows_indices (byte shift_rows_inv_indices i)) i).0 (
      all_below-true (λ i. byte shift_rows_indices (byte shift_rows_inv_indices i) == i) 16 i refl
        l),
)

-- The data of a trace whose output comes from the state `s` by the last round.
abbrev pub observed : List ℕ → List ℕ → List ℕ → List ℕ → List ℕ
observed s key input rest = input ++ (last_round s key ++ rest)

module _ (s key input rest : List ℕ) (hs : IsBlock s) (hk : IsBlock key)
    (hi : length input ≡ 16) where
  output_byte :
      (j : ℕ)
      → j < 16
      → byte (observed s key input rest) (16 + j)
        ≡ bit_xor (sub_byte (byte s (byte shift_rows_indices j))) (byte key j)
  output_byte j l =
      let e : byte (last_round s key ++ rest) j ≡ byte (last_round s key) j =
        get_or-append_left (last_round s key) rest j 0
          (subst (λ t. j < length t) (sym (last_round-byte s key hs.sixteen)) l) in
      get_or-append input (last_round s key ++ rest) 16 j 0 hi
      ∙ e
      ∙ ap (λ t. byte t j) (last_round-byte s key hs.sixteen)
      ∙ get_or-tabulate (λ i. bit_xor (sub_byte (byte s (byte shift_rows_indices i))) (byte key i))
          16 j l

  -- The state's byte that a model reads out of the output, from the right guess of the key byte.
  undone :
      (j : ℕ)
      → j < 16
      → sub_byte_inv (bit_xor (byte (observed s key input rest) (16 + j)) (byte key j))
        ≡ byte s (byte shift_rows_indices j)
  undone j l =
      ap (λ x. sub_byte_inv (bit_xor x (byte key j))) (output_byte j l)
      ∙ undo (byte s (byte shift_rows_indices j)) (byte key j)
          (hs.bounded (byte shift_rows_indices j)) (hk.bounded j)

  undone_inv :
      (i : ℕ)
      → i < 16
      → sub_byte_inv (
          bit_xor
            (byte (observed s key input rest) (16 + byte shift_rows_inv_indices i))
            (byte key (byte shift_rows_inv_indices i)))
        ≡ byte s i
  undone_inv i l =
      undone (byte shift_rows_inv_indices i) ((shift_indices i l).0)
      ∙ ap (byte s) ((shift_indices i l).2)

  -- With the byte of the last round key that ShiftRows takes to place i as guess, the model is the
  -- Hamming weight of byte i of the state before the last round, for a trace whose output is the
  -- last round of that state.
  pub round10_hw_sbox_in_lem :
      (i : ℕ)
      → i < 16
      → round10_hw_sbox_in
          (observed s key input rest)
          (256 * i + byte key (byte shift_rows_inv_indices i))
        ≡ hamming_weight (byte s i)
  unfolding round10_hw_sbox_in
  round10_hw_sbox_in_lem i l =
      let b = hk.bounded (byte shift_rows_inv_indices i) in
      let k = byte key (byte shift_rows_inv_indices i) in
      let q : (256 * i + k) / 256 ≡ i = omega arith in
      let m : (256 * i + k) % 256 ≡ k = omega arith in rw (q, m, ap hamming_weight (undone_inv i l))

  -- With byte i of the last round key as guess, the model aes128_round10_out_hd is the Hamming
  -- distance from the byte of the state before the last round that is moved to place i, to the byte
  -- of the output at the place it came from.
  pub round10_out_hd_lem :
      (i : ℕ)
      → i < 16
      → round10_out_hd (observed s key input rest) (256 * i + byte key i)
        ≡ hamming_distance
            (byte s (byte shift_rows_indices i))
            (byte (observed s key input rest) (16 + byte shift_rows_indices i))
  unfolding round10_out_hd
  round10_out_hd_lem i l =
      let b = hk.bounded i in
      let q : (256 * i + byte key i) / 256 ≡ i = omega arith in
      let m : (256 * i + byte key i) % 256 ≡ byte key i = omega arith in
      rw (
        q,
        m,
        ap
            (λ x.
              hamming_distance x
                (byte (observed s key input rest) (16 + byte shift_rows_indices i)))
            (undone i l),
      )

  -- If the state before the last round is t with a round key added, then with byte i of that key
  -- and the byte of the last one that ShiftRows takes to place i as guesses, the model is the Hamming
  -- weight of byte i of t.
  pub round9_hw_mixcols_out_lem :
      (t key9 : List ℕ)
      → IsBlock t
      → IsBlock key9
      → s ≡ add_key t key9
      → (i : ℕ) → i < 16
      → round9_hw_mixcols_out
          (observed s key input rest)
          (65536 * i + (256 * byte key (byte shift_rows_inv_indices i) + byte key9 i))
        ≡ hamming_weight (byte t i)
  unfolding round9_hw_mixcols_out
  round9_hw_mixcols_out_lem t key9 ht h9 e i l =
      let k = byte key (byte shift_rows_inv_indices i) in
      let g = byte key9 i in
      let b = hk.bounded (byte shift_rows_inv_indices i) in
      let c = h9.bounded i in
      let q : (65536 * i + (256 * k + g)) / 65536 ≡ i = omega arith in
      let m : (65536 * i + (256 * k + g)) % 65536 / 256 % 256 ≡ k = omega arith in
      let n : (65536 * i + (256 * k + g)) % 65536 % 256 ≡ g = omega arith in
      let was : byte s i ≡ bit_xor (byte t i) g =
        ap (λ x. byte x i) (e ∙ add_key-block t key9 ht.sixteen)
        ∙ get_or-tabulate (λ i. bit_xor (byte t i) (byte key9 i)) 16 i l in
      rw (
        q,
        m,
        n,
        ap (λ x. hamming_weight (bit_xor x g)) (undone_inv i l ∙ was)
            ∙ ap hamming_weight (xor_cancel (byte t i) g (ht.bounded i) c),
      )

module _ (input key rest : List ℕ) (hi : length input ≡ 16) (hk : IsBlock key) where
  abbrev entered : List ℕ
  entered = add_key input key

  byte-entered : (i : ℕ) → i < 16 → byte entered i ≡ bit_xor (byte input i) (byte key i)
  byte-entered i l =
      ap (λ x. byte x i) (add_key-block input key hi)
      ∙ get_or-tabulate (λ i. bit_xor (byte input i) (byte key i)) 16 i l

  length-entered : length entered ≡ 16
  length-entered = ap length (add_key-block input key hi)

  subbed_byte : (i : ℕ) → i < 16 → byte (sub_bytes entered) i ≡ sub_byte (byte entered i)
  subbed_byte i l =
      ap (λ x. byte x i) (sub_bytes-block entered length-entered)
      ∙ get_or-tabulate (λ i. sub_byte (byte entered i)) 16 i l

  shifted_byte :
      (i : ℕ)
      → i < 16
      → byte (shift_rows (sub_bytes entered)) (byte shift_rows_inv_indices i)
        ≡ byte (sub_bytes entered) i
  shifted_byte i l =
      let r = ap length (sub_bytes-block entered length-entered) in
      ap (λ x. byte x (byte shift_rows_inv_indices i)) ((shift_rows_lem (sub_bytes entered) r).0)
      ∙ get_or-tabulate (λ i. byte (sub_bytes entered) (byte shift_rows_indices i)) 16
          (byte shift_rows_inv_indices i) ((shift_indices i l).0)
      ∙ ap (byte (sub_bytes entered)) ((shift_indices i l).2)

  -- With byte i of the key as guess, for i below 16, the models of the first round are the Hamming
  -- weights of byte i after AddRoundKey and after SubBytes, and the Hamming distance of input and
  -- state after ShiftRows at the place where byte i then is.
  pub first_round_models :
      (i : ℕ)
      → i < 16
      → (round0_hw_addkey_out (input ++ rest) (256 * i + byte key i)
          ≡ hamming_weight (byte entered i))
        × (round0_hw_sbox_out (input ++ rest) (256 * i + byte key i)
            ≡ hamming_weight (byte (sub_bytes entered) i))
        × (round0_round1_hd (input ++ rest) (256 * i + byte key i)
            ≡ hamming_distance
                (byte input (byte shift_rows_inv_indices i))
                (byte (shift_rows (sub_bytes entered)) (byte shift_rows_inv_indices i)))
  unfolding round0_hw_addkey_out round0_hw_sbox_out round0_round1_hd
  first_round_models i l =
      let b = hk.bounded i in
      let k = byte key i in
      let j = byte shift_rows_inv_indices i in
      let q : (256 * i + k) / 256 ≡ i = omega arith in
      let m : (256 * i + k) % 256 ≡ k = omega arith in
      let a : byte (input ++ rest) i ≡ byte input i =
        get_or-append_left input rest i 0 (omega (arith, hi)) in
      let c : byte (input ++ rest) j ≡ byte input j =
        get_or-append_left input rest j 0 (omega (arith, hi, (shift_indices i l).0)) in
      let x : bit_xor (byte (input ++ rest) i) k ≡ byte entered i =
        ap (λ u. bit_xor u k) a ∙ sym (byte-entered i l) in
      let y : sub_byte (bit_xor (byte (input ++ rest) i) k) ≡ byte (sub_bytes entered) i =
        ap sub_byte x ∙ sym (subbed_byte i l) in
      (
        rw (q, m, ap hamming_weight x),
        rw (q, m, ap hamming_weight y),
        rw (
          q,
          m,
          ap (λ u. hamming_distance u (sub_byte (bit_xor (byte (input ++ rest) i) k))) c
              ∙ ap (hamming_distance (byte input j)) (y ∙ sym (shifted_byte i l)),
        ),
      )
