-- ===== src/Sockets/Transfers.antt =====
-- What the loops over `read` and `write` transfer, and what the encrypted transfers make of it.
use libtrs.Base.{
  ℕ, zero, suc, ◌+◌, ◌-◌, ◌<◌, ◌≤◌, ◌≡◌, ◌⊎◌, refl, sym, ap, ◌∙◌, ◌==◌, Bool-cases, inl, inr, List,
  [], ◌∷◌, ◌++◌, length, length-append, take, drop, arith,
}
use libtrs.Sockets.{Os, sent_some, write_loop, p_socket_write, got_some, read_loop, p_socket_read}

-- What the operating system documents of a stream: `write` takes a part of the bytes from the front, and
-- `read` gives what is next of those that come in, as many as asked for at most.
pub record Streams {S : Type 0} (os : Os S) (sent incoming : S → List ℕ) : Type 0 where
  pub write_some :
      (s : S) (xs : List ℕ)
      → ((os.write s xs).0 ≤ length xs)
        × (sent ((os.write s xs).1) ≡ sent s ++ take ((os.write s xs).0) xs)
  pub read_some :
      (s : S) (n : ℕ)
      → (length ((os.read s n).0) ≤ n)
        × (incoming s ≡ (os.read s n).0 ++ incoming ((os.read s n).1))

-- A transfer of so many of the bytes; where it is not whole, the system refused a rest.
pub record Sent {S : Type 0} (os : Os S) (sent : S → List ℕ) (xs : List ℕ) (s : S) (r : ℕ × S)
    : Type 0 where
  pub part : r.0 ≤ length xs
  pub bytes : sent (r.1) ≡ sent s ++ take (r.0) xs
  pub whole : (r.0 ≡ length xs) ⊎ ((t : S) × ((os.write t (drop (r.0) xs)).0 ≡ 0))

-- What came in is the front of what there was; where it is less than asked for, the system gave no more.
pub record Received {S : Type 0} (os : Os S) (incoming : S → List ℕ) (n : ℕ) (s : S)
    (r : List ℕ × S) : Type 0 where
  pub part : length (r.0) ≤ n
  pub bytes : incoming s ≡ r.0 ++ incoming (r.1)
  pub whole :
      (length (r.0) ≡ n)
      ⊎ ((t : S) × (incoming (r.1) ≡ incoming t)
          × (0 < n)
          × ((os.read t (n - length (r.0))).0 ≡ []))

pub append_nil : (xs : List ℕ) → xs ++ [] ≡ xs
append_nil [] = refl
append_nil (x ∷ xs) = ap (◌∷◌ x) (append_nil xs)

pub append_assoc : (xs ys zs : List ℕ) → (xs ++ ys) ++ zs ≡ xs ++ (ys ++ zs)
append_assoc [] ys zs = refl
append_assoc (x ∷ xs) ys zs = ap (◌∷◌ x) (append_assoc xs ys zs)

take_nil : (m : ℕ) (xs : List ℕ) → length xs ≡ 0 → take m xs ≡ []
take_nil zero xs e = refl
take_nil (suc m) [] e = refl
take_nil (suc m) (x ∷ xs) e = absurd (omega (arith, e))

take_add : (k m : ℕ) (xs : List ℕ) → take (k + m) xs ≡ take k xs ++ take m (drop k xs)
take_add zero m xs = ap (λ n. take n xs) (omega arith)
take_add (suc k) m [] = take_nil (suc k + m) [] refl ∙ sym (take_nil m [] refl)
take_add (suc k) m (x ∷ xs) =
    let e : suc k + m ≡ suc (k + m) = omega arith in
    ap (λ n. take n (x ∷ xs)) e ∙ ap (◌∷◌ x) (take_add k m xs)

pub length-drop : (k : ℕ) (xs : List ℕ) → length (drop k xs) ≡ length xs - k
length-drop zero xs = omega arith
length-drop (suc k) [] = omega arith
length-drop (suc k) (x ∷ xs) = omega (arith, length-drop k xs)

drop_nil : (m : ℕ) (xs : List ℕ) → length xs ≡ 0 → drop m xs ≡ []
drop_nil zero [] e = refl
drop_nil zero (x ∷ xs) e = absurd (omega (arith, e))
drop_nil (suc m) [] e = refl
drop_nil (suc m) (x ∷ xs) e = absurd (omega (arith, e))

drop_add : (k m : ℕ) (xs : List ℕ) → drop m (drop k xs) ≡ drop (k + m) xs
drop_add zero m xs = ap (λ n. drop n xs) (omega arith)
drop_add (suc k) m [] = drop_nil m [] refl ∙ sym (drop_nil (suc k + m) [] refl)
drop_add (suc k) m (x ∷ xs) =
    let e : suc k + m ≡ suc (k + m) = omega arith in
    drop_add k m xs ∙ sym (ap (λ n. drop n (x ∷ xs)) e)

module _ {S : Type 0} (os : Os S) (sent incoming : S → List ℕ) (h : Streams os sent incoming) where
  sent_some-Sent :
      (f : List ℕ → S → ℕ × S) (xs : List ℕ) (s : S) (r : ℕ × S)
      → os.write s xs ≡ r
      → (r.0 ≤ length xs)
      → sent (r.1) ≡ sent s ++ take (r.0) xs
      → (0 < r.0 → Sent os sent (drop (r.0) xs) (r.1) (f (drop (r.0) xs) (r.1)))
      → Sent os sent xs s (sent_some f xs r)
  sent_some-Sent f xs s (k, t) w le e rest = elim (Bool-cases (k == 0)) [
    | inl q ↦
        let z : k ≡ 0 = ground (arith, q) in
        rw q (record {
          part = omega arith;
          bytes = e ∙ ap (λ n. sent s ++ take n xs) z;
          whole = inr (s, ap (λ x. x.0) w ∙ z);
        })
    | inr q ↦
        let a = rest (ground (arith, q)) in
        let r = f (drop k xs) t in
        rw q (record {
          part = omega (arith, a.part, length-drop k xs, le);
          bytes =
              a.bytes
              ∙ ap (λ ys. ys ++ take (r.0) (drop k xs)) e
              ∙ append_assoc (sent s) (take k xs) (take (r.0) (drop k xs))
              ∙ ap (λ ys. sent s ++ ys) (sym (take_add k (r.0) xs));
          whole = elim a.whole [
            | inl all ↦ inl (omega (arith, all, length-drop k xs, le))
            | inr (u, z) ↦ inr (u, ap (λ ys. (os.write u ys).0) (sym (drop_add k (r.0) xs)) ∙ z)
          ];
        })
  ]

  write_loop-Sent :
      (n : ℕ) (xs : List ℕ) (s : S) → length xs ≤ n → Sent os sent xs s (write_loop os n xs s)
  unfolding write_loop
  write_loop-Sent zero [] s le = record {
    part = omega arith;
    bytes = sym (append_nil (sent s));
    whole = inl refl;
  }
  write_loop-Sent zero (x ∷ xs) s le = absurd (omega (arith, le))
  write_loop-Sent (suc n) [] s le = record {
    part = omega arith;
    bytes = sym (append_nil (sent s));
    whole = inl refl;
  }
  write_loop-Sent (suc n) (x ∷ xs) s le =
      let r = os.write s (x ∷ xs) in
      let (a, b) = h.write_some s (x ∷ xs) in
      sent_some-Sent (write_loop os n) (x ∷ xs) s r refl a b (λ pos.
        write_loop-Sent n (drop (r.0) (x ∷ xs)) (r.1)
          (omega (arith, pos, le, length-drop (r.0) (x ∷ xs))))

  -- Where write takes bytes from the front of those that it is given: what p_socket_write has sent
  -- is a front part of the buffer, of the length that it returns; and if that is not the whole
  -- buffer, the system took nothing of the rest.
  pub p_socket_write-Sent : (xs : List ℕ) (s : S) → Sent os sent xs s (p_socket_write os xs s)
  p_socket_write-Sent xs s = write_loop-Sent (length xs) xs s (omega arith)

  got_some-Received :
      (f : ℕ → S → List ℕ × S) (n : ℕ) (s : S) (r : List ℕ × S)
      → os.read s n ≡ r
      → 0 < n
      → length (r.0) ≤ n
      → incoming s ≡ r.0 ++ incoming (r.1)
      → (0 < length (r.0)
          → Received os incoming (n - length (r.0)) (r.1) (f (n - length (r.0)) (r.1)))
      → Received os incoming n s (got_some f n r)
  got_some-Received f n s ([], t) w pos le e rest = record {
    part = omega arith;
    bytes = e;
    whole =
        let m : n - 0 ≡ n = omega arith in
        inr (s, sym e, pos, ap (λ x. (os.read s x).0) m ∙ ap (λ x. x.0) w);
  }
  got_some-Received f n s (b ∷ bs, t) w pos le e rest =
      let a = rest (omega arith) in
      let k = length (b ∷ bs) in
      let r = f (n - k) t in
      let len = length-append (b ∷ bs) (r.0) in
      record {
        part = omega (arith, a.part, len, le);
        bytes =
            e
            ∙ ap (λ ys. (b ∷ bs) ++ ys) (a.bytes)
            ∙ sym (append_assoc (b ∷ bs) (r.0) (incoming (r.1)));
        whole = elim a.whole [
          | inl all ↦ inl (omega (arith, all, len, le))
          | inr (u, i, p, z) ↦
              let m : n - k - length (r.0) ≡ n - length ((b ∷ bs) ++ r.0) = omega (arith, len) in
              inr (u, i, pos, ap (λ x. (os.read u x).0) (sym m) ∙ z)
        ];
      }

  read_loop-Received :
      (n len : ℕ) (s : S) → len ≤ n → Received os incoming len s (read_loop os n len s)
  unfolding read_loop
  read_loop-Received zero len s le = record {
    part = omega arith;
    bytes = refl;
    whole = inl (omega (arith, le));
  }
  read_loop-Received (suc n) zero s le = record {
    part = omega arith;
    bytes = refl;
    whole = inl refl;
  }
  read_loop-Received (suc n) (suc len) s le =
      let r = os.read s (suc len) in
      let (a, b) = h.read_some s (suc len) in
      got_some-Received (read_loop os n) (suc len) s r refl (omega arith) a b
        (λ pos. read_loop-Received n (suc len - length (r.0)) (r.1) (omega (arith, pos, le)))

  pub p_socket_read-Received : (n : ℕ) (s : S) → Received os incoming n s (p_socket_read os n s)
  p_socket_read-Received n s = read_loop-Received n n s (omega arith)
