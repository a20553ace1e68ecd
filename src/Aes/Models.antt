-- ===== src/Aes/Models.antt =====
-- The power models of transform/power_analysis/tfm_aes_intermediate.c and tfm_aes_knownkey.c: what
-- a model reads of the data of a trace (16 bytes of input, 16 of output, 16 of key) for an index of
-- the sample, as the Hamming weight that the source converts to a `float`.
use libtrs.Base.{
  ℕ, zero, suc, ◌+◌, ◌*◌, ◌/◌, ◌%◌, ◌^◌, ◌==◌, ltb, bit_xor, List, get_or, take, drop, Outcome,
  done, fault, ◌>>=◌, if◌then◌else◌,
}
use libtrs.Aes.{
  sub_byte, sub_byte_inv, shift_rows_indices, shift_rows_inv_indices, hamming_weight,
  hamming_distance, add_key, sub_bytes, shift_rows, mix_cols, expand_key,
}

abbrev at : List ℕ → ℕ → ℕ
at xs i = get_or xs i 0

unfoldable pub round9_hw_mixcols_out : List ℕ → ℕ → ℕ
round9_hw_mixcols_out bytes index =
    let key_index = index / (256 * 256) in
    let key_guess11 = (index % (256 * 256)) / 256 % 256 in
    let key_guess10 = index % (256 * 256) % 256 in
    let state = bit_xor (at bytes (16 + at shift_rows_inv_indices key_index)) key_guess11 in
    hamming_weight (bit_xor (sub_byte_inv state) key_guess10)

unfoldable pub round10_hw_sbox_in : List ℕ → ℕ → ℕ
round10_hw_sbox_in bytes index =
    let key_index = index / 256 in
    let key_guess = index % 256 in
    hamming_weight
      (sub_byte_inv (bit_xor (at bytes (16 + at shift_rows_inv_indices key_index)) key_guess))

unfoldable pub round10_out_hd : List ℕ → ℕ → ℕ
round10_out_hd bytes index =
    let key_index = index / 256 in
    let key_guess = index % 256 in
    hamming_distance (sub_byte_inv (bit_xor (at bytes (16 + key_index)) key_guess))
      (at bytes (16 + at shift_rows_indices key_index))

unfoldable pub round0_hw_sbox_out : List ℕ → ℕ → ℕ
round0_hw_sbox_out bytes index =
    let key_index = index / 256 in
    let key_guess = index % 256 in
    hamming_weight (sub_byte (bit_xor (at bytes key_index) key_guess))

unfoldable pub round0_hw_addkey_out : List ℕ → ℕ → ℕ
round0_hw_addkey_out bytes index =
    let key_index = index / 256 in
    let key_guess = index % 256 in hamming_weight (bit_xor (at bytes key_index) key_guess)

unfoldable pub round0_round1_hd : List ℕ → ℕ → ℕ
round0_round1_hd bytes index =
    let key_index = index / 256 in
    let key_guess = index % 256 in
    hamming_distance (at bytes (at shift_rows_inv_indices key_index))
      (sub_byte (bit_xor (at bytes key_index) key_guess))

-- `aes_state_t`.
pub data AesState : Type 0 where
  s_add_round_key s_sub_bytes s_shift_rows s_mix_cols : AesState

-- The variables of the loop of `aes128_knownkey_models`.
pub record Machine : Type 0 where
  pub aes_state : AesState
  pub round : ℕ
  pub state : List ℕ

abbrev pub machine : AesState → ℕ → List ℕ → Machine
machine a r s = record { aes_state = a; round = r; state = s }

-- One turn of the loop. Beyond the eleven round keys the source reads outside of `key_expanded`.
unfoldable pub turn : List ℕ → AesState → ℕ → List ℕ → Outcome Machine
turn key_expanded s_add_round_key round state =
    if ltb round 11
    then done (machine s_sub_bytes (round + 1) (add_key state (drop (16 * round) key_expanded)))
    else fault
turn key_expanded s_sub_bytes round state = done (machine s_shift_rows round (sub_bytes state))
turn key_expanded s_shift_rows round state =
    done (machine (if round == 10 then s_add_round_key else s_mix_cols) round (shift_rows state))
turn key_expanded s_mix_cols round state = done (machine s_add_round_key round (mix_cols state))

-- `n` turns of the loop.
unfoldable pub turns : List ℕ → ℕ → Machine → Outcome Machine
turns key_expanded zero m = done m
turns key_expanded (suc n) m =
    turn key_expanded m.aes_state m.round m.state >>= turns key_expanded n

-- `key_sched` is what the stack holds where `key_expanded` is placed.
unfoldable pub knownkey_models : List ℕ → List ℕ → ℕ → Outcome ℕ
knownkey_models key_sched bytes index =
    let byte_index = index % 16 in
    let byte_model = index / 16 in
    let key_expanded = expand_key (take 16 (drop 32 bytes)) key_sched in
    turns key_expanded byte_model (machine s_add_round_key 0 (take 16 bytes))
    >>= (λ m. done (hamming_weight (at m.state byte_index)))

-- `aes_leakage_t`.
pub data Leakage : Type 0 where
  r0_r1_hd_nomc r0_hw_addkey_out r0_hw_sbox_out r9_hw_mixcols_out r10_out_hd r10_hw_sboxin : Leakage

-- The sizes of a set of models: its traces, and its samples, as `size_t`.
pub record Sizes : Type 0 where
  pub num_traces : ℕ
  pub num_samples : ℕ

unfoldable pub intermediate_init : Leakage → ℕ → Sizes
intermediate_init r9_hw_mixcols_out prev_samples = record {
  num_traces = 1;
  num_samples = prev_samples * 4 * 256 * 256 % 2 ^ 64;
}
intermediate_init leakage prev_samples = record {
  num_traces = 1;
  num_samples = prev_samples * (64 * 16) % 2 ^ 64;
}

-- The choice of the model by `tfm_aes_intermediate`.
unfoldable pub select_model : Leakage → List ℕ → ℕ → ℕ
select_model r0_r1_hd_nomc = round0_round1_hd
select_model r0_hw_addkey_out = round0_hw_addkey_out
select_model r0_hw_sbox_out = round0_hw_sbox_out
select_model r9_hw_mixcols_out = round9_hw_mixcols_out
select_model r10_out_hd = round10_out_hd
select_model r10_hw_sboxin = round10_hw_sbox_in

-- `NUM_PMS` and `PMS_PER_THREAD`.
abbrev pub num_pms : ℕ
num_pms = 16 * (10 * 4 + 1)

abbrev pub pms_per_thread : ℕ
pms_per_thread = num_pms / 8

unfoldable pub knownkey_init : ℕ → Sizes
knownkey_init prev_samples = record {
  num_traces = num_pms / pms_per_thread;
  num_samples = prev_samples * pms_per_thread % 2 ^ 64;
}

-- The title of a model: the input, the output, or a step's output with its round and byte.
pub data StepName : Type 0 where
  no_step add_round_key sub_bytes_step shift_rows_step mix_cols_step : StepName

pub data Title : Type 0 where
  pt : ℕ → Title
  ct : ℕ → Title
  out : StepName → ℕ → ℕ → Title

-- The loop of `tfm_aes_knownkey_progress_title`.
unfoldable pub name_steps : ℕ → AesState → ℕ → StepName → StepName × ℕ
name_steps zero s round name = (name, round)
name_steps (suc n) s_add_round_key round name = name_steps n s_sub_bytes (round + 1) add_round_key
name_steps (suc n) s_sub_bytes round name = name_steps n s_shift_rows round sub_bytes_step
name_steps (suc n) s_shift_rows round name =
    name_steps n (if round == 10 then s_add_round_key else s_mix_cols) round shift_rows_step
name_steps (suc n) s_mix_cols round name = name_steps n s_add_round_key round mix_cols_step

unfoldable pub progress_title : ℕ → Title
progress_title index =
    let byte_index = index % 16 in
    let byte_model = index / 16 in
    let steps = name_steps byte_model s_add_round_key 0 no_step in
    if byte_model == 0
    then pt byte_index
    else if byte_model == 40
    then ct byte_index
    else out (steps.0) (steps.1) byte_index
