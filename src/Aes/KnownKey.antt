-- ===== src/Aes/KnownKey.antt =====
-- The loop of `aes128_knownkey_models` against the rounds of AES.
use libtrs.Base.{
  ℕ, zero, suc, ◌+◌, ◌*◌, ◌/◌, ◌%◌, ◌<◌, ◌≤◌, ◌≡◌, ap, ◌∙◌, List, drop, take, arith, refl, Outcome,
  done, blocked, fault, ◌>>=◌, ◌==◌, if◌then◌else◌, lt→ltb, lt_cases, ◌⊎◌, inl, inr,
}
use libtrs.Aes.{add_key, sub_bytes, shift_rows, mix_cols, expand_key, hamming_weight}
use libtrs.Aes.Rounds.{byte}
use libtrs.Aes.LastRound.{last_round}
use libtrs.Aes.Models.{
  s_add_round_key, s_sub_bytes, s_shift_rows, s_mix_cols, Machine, machine, turn, turns,
  knownkey_models, knownkey_init, pms_per_thread,
}

-- The state before round key `r` is added, by the rounds of the cipher.
unfoldable pub rounds : List ℕ → ℕ → List ℕ → List ℕ
rounds keys zero s = s
rounds keys (suc r) s =
    mix_cols (shift_rows (sub_bytes (add_key (rounds keys r s) (drop (16 * r) keys))))

-- AES-128 with the round keys given.
unfoldable pub encrypt : List ℕ → List ℕ → List ℕ
encrypt keys s = last_round (add_key (rounds keys 9 s) (drop 144 keys)) (drop 160 keys)

bind_ext :
    {A B C : Type 0} (o : Outcome A) (h : A → Outcome C) (f : A → Outcome B) (g : B → Outcome C)
    → ((a : A) → h a ≡ f a >>= g)
    → o >>= h ≡ (o >>= f) >>= g
bind_ext (done a) h f g e = e a
bind_ext blocked h f g e = refl
bind_ext fault h f g e = refl

module _ (keys : List ℕ) where
  turns-add : (m n : ℕ) (w : Machine) → turns keys (m + n) w ≡ turns keys m w >>= turns keys n
  unfolding turns
  turns-add zero n w = let e : 0 + n ≡ n = omega arith in ap (λ k. turns keys k w) e
  turns-add (suc m) n w =
      let e : suc m + n ≡ suc (m + n) = omega arith in
      ap (λ k. turns keys k w) e
      ∙ bind_ext (turn keys w.aes_state w.round w.state) (turns keys (m + n)) (turns keys m)
          (turns keys n) (turns-add m n)

  -- The four turns of a round but the last.
  full_round :
      (r : ℕ) (s : List ℕ)
      → r < 9
      → turns keys 4 (machine s_add_round_key r s)
        ≡ done (
            machine s_add_round_key
              (r + 1)
              (mix_cols (shift_rows (sub_bytes (add_key s (drop (16 * r) keys))))))
  unfolding turns turn
  full_round r s h = ground arith

  turns-rounds :
      (r : ℕ) (s : List ℕ)
      → r ≤ 9
      → turns keys (4 * r) (machine s_add_round_key 0 s)
        ≡ done (machine s_add_round_key r (rounds keys r s))
  unfolding rounds turns
  turns-rounds zero s h = refl
  turns-rounds (suc r) s h =
      let e : 4 * suc r ≡ 4 * r + 4 = omega arith in
      let f : r + 1 ≡ suc r = omega arith in
      ap (λ k. turns keys k (machine s_add_round_key 0 s)) e
      ∙ turns-add (4 * r) 4 (machine s_add_round_key 0 s)
      ∙ ap (λ o. o >>= turns keys 4) (turns-rounds r s (omega arith))
      ∙ full_round r (rounds keys r s) (omega arith)
      ∙ ap (λ k. done (machine s_add_round_key k (rounds keys (suc r) s))) f

  -- The four turns from the last full round on.
  last_turns :
      (s : List ℕ)
      → turns keys 4 (machine s_add_round_key 9 s)
        ≡ done (machine s_sub_bytes 11 (last_round (add_key s (drop 144 keys)) (drop 160 keys)))
  unfolding turns turn last_round
  last_turns s = refl

  -- `n` turns after the first 4 * r.
  after :
      (r n : ℕ) (s : List ℕ) (w : Machine)
      → r ≤ 9
      → turns keys n (machine s_add_round_key r (rounds keys r s)) ≡ done w
      → turns keys (4 * r + n) (machine s_add_round_key 0 s) ≡ done w
  after r n s w h e =
      turns-add (4 * r) n (machine s_add_round_key 0 s)
      ∙ ap (λ o. o >>= turns keys n) (turns-rounds r s h)
      ∙ e

  turn_one :
      (r : ℕ) (s : List ℕ)
      → r ≤ 9
      → turns keys 1 (machine s_add_round_key r s)
        ≡ done (machine s_sub_bytes (r + 1) (add_key s (drop (16 * r) keys)))
  unfolding turns turn
  turn_one r s h = ground arith

  turn_two :
      (r : ℕ) (s : List ℕ)
      → r ≤ 9
      → turns keys 2 (machine s_add_round_key r s)
        ≡ done (machine s_shift_rows (r + 1) (sub_bytes (add_key s (drop (16 * r) keys))))
  unfolding turns turn
  turn_two r s h = ground arith

  turn_three :
      (r : ℕ) (s : List ℕ)
      → r ≤ 9
      → turns keys 3 (machine s_add_round_key r s)
        ≡ done (
            machine
              (if r + 1 == 10 then s_add_round_key else s_mix_cols)
              (r + 1)
              (shift_rows (sub_bytes (add_key s (drop (16 * r) keys)))))
  unfolding turns turn
  turn_three r s h = rw (lt→ltb r 11 (omega arith))

quarters :
    (n : ℕ)
    → (n ≡ 16 * (4 * (n / 64) + 0) + n % 16)
      ⊎ ((n ≡ 16 * (4 * (n / 64) + 1) + n % 16)
          ⊎ ((n ≡ 16 * (4 * (n / 64) + 2) + n % 16) ⊎ (n ≡ 16 * (4 * (n / 64) + 3) + n % 16)))
quarters n = omega arith

module _ (bytes junk : List ℕ) where
  -- The input of the trace, and the round keys of its key.
  abbrev pub input : List ℕ
  input = take 16 bytes

  abbrev pub round_keys : List ℕ
  round_keys = expand_key (take 16 (drop 32 bytes)) junk

  at_turn :
      (n b : ℕ) (w : Machine)
      → b < 16
      → turns round_keys n (machine s_add_round_key 0 input) ≡ done w
      → knownkey_models junk bytes (16 * n + b) ≡ done (hamming_weight (byte w.state b))
  unfolding knownkey_models
  at_turn n b w l e =
      let q : (16 * n + b) / 16 ≡ n = omega arith in
      let m : (16 * n + b) % 16 ≡ b = omega arith in
      rw (q, m, ap (λ o. o >>= (λ u. done (hamming_weight (byte u.state b)))) e)

  -- The known key model at sample 16 * n + b, for n from 0 to 40 and b below 16, is the Hamming
  -- weight of byte b of the state that AES-128 has after n of its steps: before and after the
  -- addition of round key r for n = 4 * r and 4 * r + 1, after SubBytes for n = 4 * r + 2, after
  -- ShiftRows for n = 4 * r + 3, with r at most 9, and of the output for n = 40.
  pub knownkey_models_lem :
      (r b : ℕ)
      → r ≤ 9
      → b < 16
      → (knownkey_models junk bytes (16 * (4 * r + 0) + b)
          ≡ done (hamming_weight (byte (rounds round_keys r input) b)))
        × (knownkey_models junk bytes (16 * (4 * r + 1) + b)
            ≡ done (
                hamming_weight
                  (byte (add_key (rounds round_keys r input) (drop (16 * r) round_keys)) b)))
        × (knownkey_models junk bytes (16 * (4 * r + 2) + b)
            ≡ done (
                hamming_weight (
                  byte
                    (sub_bytes (add_key (rounds round_keys r input) (drop (16 * r) round_keys)))
                    b)))
        × (knownkey_models junk bytes (16 * (4 * r + 3) + b)
            ≡ done (
                hamming_weight (
                  byte
                    (shift_rows
                      (sub_bytes (add_key (rounds round_keys r input) (drop (16 * r) round_keys))))
                    b)))
        × (knownkey_models junk bytes (16 * 40 + b)
            ≡ done (hamming_weight (byte (encrypt round_keys input) b)))
  unfolding turns encrypt
  knownkey_models_lem r b h l =
      let s = rounds round_keys r input in
      (
        at_turn (4 * r + 0) b (machine s_add_round_key r s) l
            (after round_keys r 0 input (machine s_add_round_key r s) h refl),
        at_turn (4 * r + 1) b _ l (after round_keys r 1 input _ h (turn_one round_keys r s h)),
        at_turn (4 * r + 2) b _ l (after round_keys r 2 input _ h (turn_two round_keys r s h)),
        at_turn (4 * r + 3) b _ l (after round_keys r 3 input _ h (turn_three round_keys r s h)),
        at_turn 40 b _ l (
            after round_keys 9 4 input _ (omega arith)
              (last_turns round_keys (rounds round_keys 9 input))),
      )

  returns_at :
      (n m b : ℕ) (h : ℕ)
      → knownkey_models junk bytes (16 * m + b) ≡ done h
      → n ≡ 16 * m + b
      → (h : ℕ) × (knownkey_models junk bytes n ≡ done h)
  returns_at n m b h e q = (h, ap (knownkey_models junk bytes) q ∙ e)

  returns : (n : ℕ) → n < 656 → (h : ℕ) × (knownkey_models junk bytes n ≡ done h)
  returns n l =
      let r = n / 64 in
      let b = n % 16 in
      elim (lt_cases r 10) [
        | inr g ↦
            let (_, _, _, _, e) = knownkey_models_lem 0 b (omega arith) (omega arith) in
            returns_at n 40 b _ e (omega arith)
        | inl g ↦
            let (e0, e1, e2, e3, _) = knownkey_models_lem r b (omega arith) (omega arith) in
            elim (quarters n) [
              | inl q ↦ returns_at n (4 * r + 0) b _ e0 q
              | inr (inl q) ↦ returns_at n (4 * r + 1) b _ e1 q
              | inr (inr (inl q)) ↦ returns_at n (4 * r + 2) b _ e2 q
              | inr (inr (inr q)) ↦ returns_at n (4 * r + 3) b _ e3 q
            ]
      ]

-- Every known key model of every trace of the set that tfm_aes_knownkey_init lays out is computed
-- without a read outside of the round keys.
pub knownkey_models_total :
    (bytes junk : List ℕ) (prev_samples i j : ℕ)
    → i < (knownkey_init prev_samples).num_traces
    → j < pms_per_thread
    → (h : ℕ) × (knownkey_models junk bytes (pms_per_thread * i + j) ≡ done h)
unfolding knownkey_init
knownkey_models_total bytes junk prev_samples i j hi hj =
    returns bytes junk (82 * i + j) (omega arith)
