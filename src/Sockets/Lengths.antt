-- ===== src/Sockets/Lengths.antt =====
-- `p_safesocket_write` and `p_safesocket_read` compare the number of bytes of the length with 1.
use libtrs.Base.{
  lt_cases, ℕ, ◌+◌, ◌-◌, ◌<◌, ◌≤◌, ◌≡◌, refl, sym, ap, ◌∙◌, ◌==◌, inl, inr, false, List, [], ◌++◌,
  length, length-append, take, take-append, drop, arith,
}
use libtrs.Files.{le_bytes}
use libtrs.Files.Places.{length-le_bytes}
use libtrs.Sockets.{
  Os, p_socket_write, p_socket_read, minus, Codec, Room, no_arrival, compress_message,
  encrypt_message, sent_length, p_safesocket_write, p_safesocket_read,
}
use libtrs.Sockets.Transfers.{
  Streams, p_socket_write-Sent, p_socket_read-Received, append_nil, length-drop,
}

-- A system that takes and gives some bytes at each call, while there are any.
pub record Works {S : Type 0} (os : Os S) (sent incoming : S → List ℕ) : Type 0 where
  pub streams : Streams os sent incoming
  pub takes : (s : S) (xs : List ℕ) → 0 < length xs → 0 < (os.write s xs).0
  pub brings : (s : S) (n : ℕ) → 0 < n → 0 < length (incoming s) → 0 < length ((os.read s n).0)

pub take_all : (xs : List ℕ) (n : ℕ) → n ≡ length xs → take n xs ≡ xs
take_all xs n e =
    ap (λ m. take m xs) e ∙ ap (take (length xs)) (sym (append_nil xs)) ∙ take-append xs []

module _ {S : Type 0} (os : Os S) (sent incoming : S → List ℕ) (h : Works os sent incoming) where
  pub write_all :
      (xs : List ℕ) (s : S)
      → ((p_socket_write os xs s).0 ≡ length xs)
        × (sent ((p_socket_write os xs s).1) ≡ sent s ++ xs)
  write_all xs s =
      let r = p_socket_write os xs s in
      let a = p_socket_write-Sent os sent incoming h.streams xs s in
      let all : r.0 ≡ length xs = elim a.whole [
        | inl e ↦ e
        | inr (t, z) ↦ elim (lt_cases (r.0) (length xs)) [
          | inr ge ↦ omega (arith, ge, a.part)
          | inl lt ↦ absurd (
              omega (arith, z, h.takes t (drop (r.0) xs) (omega (arith, lt, length-drop (r.0) xs))))
        ]
      ] in
      (all, a.bytes ∙ ap (λ ys. sent s ++ ys) (take_all xs (r.0) all))

  -- Only the length is sent.
  sent_length_only :
      (ys xs : List ℕ) (s : S)
      → length xs ≡ 4
      → (sent ((sent_length os ys (p_socket_write os xs s)).1) ≡ sent s ++ xs)
        × ((sent_length os ys (p_socket_write os xs s)).0
            ≡ minus (os.errno ((sent_length os ys (p_socket_write os xs s)).1)))
  sent_length_only ys xs s four =
      let (n, b) = write_all xs s in
      let q : ((p_socket_write os xs s).0 == 1) ≡ false = ground (arith, n, four) in rw q (b, refl)

  -- Over a connection that takes some bytes at each call, p_safesocket_write of a message that zlib
  -- and OpenSSL encode sends the four bytes of its length and nothing of the message, and returns
  -- -errno.
  pub p_safesocket_write-length :
      (co : Codec) (room : Room) (xs ys : List ℕ) (s : S)
      → encrypt_message co room.second (compress_message co room.first xs) ≡ inr ys
      → (sent ((p_safesocket_write os co room xs s).1) ≡ sent s ++ le_bytes 4 (length ys))
        × ((p_safesocket_write os co room xs s).0
            ≡ minus (os.errno ((p_safesocket_write os co room xs s).1)))
  p_safesocket_write-length co room xs ys s e =
      rw e (sent_length_only ys (le_bytes 4 (length ys)) s (length-le_bytes 4 (length ys)))

  pub read_all :
      (n : ℕ) (s : S)
      → n ≤ length (incoming s)
      → (length ((p_socket_read os n s).0) ≡ n)
        × (incoming s ≡ (p_socket_read os n s).0 ++ incoming ((p_socket_read os n s).1))
  read_all n s le =
      let r = p_socket_read os n s in
      let a = p_socket_read-Received os sent incoming h.streams n s in
      let total = ap length a.bytes ∙ length-append (r.0) (incoming (r.1)) in
      let all : length (r.0) ≡ n = elim a.whole [
        | inl e ↦ e
        | inr (t, i, pos, z) ↦ elim (lt_cases (length (r.0)) n) [
          | inr ge ↦ omega (arith, ge, a.part)
          | inl lt ↦
              let left : 0 < length (incoming t) = omega (arith, total, le, lt, ap length i) in
              absurd
                (omega (arith, ap length z, h.brings t (n - length (r.0)) (omega (arith, lt)) left))
        ]
      ] in
      (all, a.bytes)

  -- Only the length is received.
  pub p_safesocket_read-length :
      (co : Codec) (room : Room) (stack : List ℕ) (n : ℕ) (s : S)
      → 4 ≤ length (incoming s)
      → ((p_safesocket_read os co room stack n s).0
          ≡ no_arrival (minus (os.errno ((p_safesocket_read os co room stack n s).1))))
        × (length (incoming ((p_safesocket_read os co room stack n s).1)) + 4 ≡ length (incoming s))
  p_safesocket_read-length co room stack n s le =
      let r = p_socket_read os 4 s in
      let (four, b) = read_all 4 s le in
      let q : (length (r.0) == 1) ≡ false = ground (arith, four) in
      let total = ap length b ∙ length-append (r.0) (incoming (r.1)) in
      rw q (refl, omega (arith, total, four))
