-- ===== src/Net/Reads.antt =====
-- What `backend_net_read` and `backend_net_open` give over a connection that works.
use mathlib.Core.Path.{subst}
use libtrs.Base.{
  Returns-bind, ℕ, ◌+◌, ◌*◌, ◌^◌, ◌<◌, ◌≤◌, ◌≡◌, ◌⊎◌, refl, sym, ap, ◌∙◌, ltb, ◌==◌, Bool-cases,
  inl, inr, true, false, List, length, length-replicate, take, drop, other, Status, ok, err, done,
  Returns, arith,
}
use libtrs.Files.{le_bytes}
use libtrs.Headers.{Info}
use libtrs.Transforms.{live, Target, Memory}
use libtrs.Sockets.{
  Os, p_socket_connect, minus, Codec, Room, Arrival, no_arrival, compress_message, encrypt_message,
  p_safesocket_write, p_safesocket_read,
}
use libtrs.Sockets.Lengths.{Works, p_safesocket_write-length, p_safesocket_read-length}
use libtrs.Net.{
  close_connection, NetArg, cmd_get, command, Rooms, read_after, send_after, send_request, received,
  trace_len, zeros, backend_net_read,
}

-- A trace of zero bytes only.
abbrev pub blank : Info → Target
blank ts = record {
  title = live (take ts.title_size (zeros (trace_len ts)));
  bytes = live (take ts.data_size (drop ts.title_size (zeros (trace_len ts))));
  samples =
      live (take (4 * ts.num_samples) (drop (ts.title_size + ts.data_size) (zeros (trace_len ts))));
}

abbrev pub all_memory : Memory
all_memory = record { for_title = true; for_bytes = true; for_samples = true }

-- A message that zlib and OpenSSL make something of, with memory at hand.
abbrev pub Encodes : Codec → Room → List ℕ → Type 0
Encodes co room xs =
    (ys : List ℕ) × (encrypt_message co room.second (compress_message co room.first xs) ≡ inr ys)

minus_cases : (n : ℕ) → (minus n ≡ ok) ⊎ (minus n ≡ err other)
minus_cases n = elim (Bool-cases (n == 0)) [ inl q ↦ inl (rw q refl) | inr q ↦ inr (rw q refl) ]

-- An error, with the trace as it was, or success with zero bytes.
abbrev pub Fails : Info → Target → Status × Target → Type 0
Fails ts t x = (x ≡ (err other, t)) ⊎ (x ≡ (ok, blank ts))

length-zeros : (n : ℕ) → length (zeros n) ≡ n
length-zeros n = length-replicate n 0

received_nothing :
    (ts : Info) (t : Target) (st : Status)
    → ts.title_size + ts.data_size + 4 * ts.num_samples < 2 ^ 64
    → (st ≡ ok) ⊎ (st ≡ err other)
    → Returns (received all_memory ts (trace_len ts) t (no_arrival st)) (Fails ts t)
received_nothing ts t ok small c =
    let n = ts.title_size + ts.data_size + 4 * ts.num_samples in
    let e : trace_len ts ≡ n = omega (arith, small) in
    let q : ltb (length (zeros (trace_len ts))) n ≡ false =
      ground (arith, length-zeros (trace_len ts), e) in
    rw q (inr refl)
received_nothing ts t (err x) small c = elim c [
  | inl q ↦ absurd cc
  | inr q ↦ inl (ap (λ y. (y, t)) q)
]

OkOrOther : Status → Type 0
OkOrOther st = (st ≡ ok) ⊎ (st ≡ err other)

minus-OkOrOther : (st : Status) (n : ℕ) → st ≡ minus n → OkOrOther st
unfolding OkOrOther
minus-OkOrOther st n e = elim (minus_cases n) [ inl q ↦ inl (e ∙ q) | inr q ↦ inr (e ∙ q) ]

-- What is read is an error with nothing in the buffer.
Nothing : Arrival → Type 0
Nothing a = (st : Status) × OkOrOther st × (a ≡ no_arrival st)

send_after-OkOrOther :
    {S : Type 0} (f : S → Status × S) (p : Status × S)
    → OkOrOther (p.0)
    → ((z : S) → OkOrOther ((f z).0))
    → OkOrOther ((send_after f p).0)
send_after-OkOrOther f (ok, s) h k = k s
send_after-OkOrOther f (err e, s) h k = h

read_after-Nothing :
    {S : Type 0} (f : S → Arrival × S) (p : Status × S)
    → OkOrOther (p.0)
    → Nothing ((f (p.1)).0)
    → Nothing ((read_after f p).0)
unfolding Nothing
read_after-Nothing f (ok, s) h k = k
read_after-Nothing f (err e, s) h k = (err e, h, refl)

module _ {S : Type 0} (os : Os S) (sent incoming : S → List ℕ) (h : Works os sent incoming)
    (co : Codec) where
  write-OkOrOther :
      (room : Room) (xs : List ℕ) (s : S)
      → Encodes co room xs
      → OkOrOther ((p_safesocket_write os co room xs s).0)
  write-OkOrOther room xs s (ys, e) =
      let r = p_safesocket_write os co room xs s in
      minus-OkOrOther (r.0) (os.errno (r.1))
        ((p_safesocket_write-length os sent incoming h co room xs ys s e).1)

  read-Nothing :
      (room : Room) (stack : List ℕ) (n : ℕ) (s : S)
      → 4 ≤ length (incoming s)
      → Nothing ((p_safesocket_read os co room stack n s).0)
  unfolding Nothing
  read-Nothing room stack n s le =
      let r = p_safesocket_read os co room stack n s in
      let st = minus (os.errno (r.1)) in
      (
        st,
        minus-OkOrOther st (os.errno (r.1)) refl,
        (p_safesocket_read-length os sent incoming h co room stack n s le).0,
      )

  module _ (rooms : Rooms) (stack : List ℕ) (arg : NetArg) (ts : Info) (index : ℕ)
      (t : Target) where
    -- Over a connection that takes and brings some bytes at each call and that is made, where zlib
    -- and OpenSSL encode the two messages, four bytes of an answer come in, there is memory, and
    -- the sizes of a trace stay below 2^64: whatever the server answers, backend_net_read either
    -- returns an error and leaves the trace as it was, or returns 0 with a trace whose bytes are
    -- all zero.
    pub backend_net_read-Fails :
        (s s' : S)
        → Encodes co (rooms 0) (command cmd_get)
        → Encodes co (rooms 1) (le_bytes 8 index)
        → ts.title_size + ts.data_size + 4 * ts.num_samples < 2 ^ 64
        → p_socket_connect os arg.serv_ip arg.serv_port s ≡ (ok, s')
        → 4 ≤ length (incoming ((send_request os co rooms index s').1))
        → Returns
            (backend_net_read os co rooms stack arg true all_memory ts index t s)
            (λ x. Fails ts t (x.0))
    unfolding Nothing OkOrOther
    backend_net_read-Fails s s' a b small e le =
        let p = send_request os co rooms index s' in
        let q =
          send_after-OkOrOther (p_safesocket_write os co (rooms 1) (le_bytes 8 index))
            (p_safesocket_write os co (rooms 0) (command cmd_get) s')
            (write-OkOrOther (rooms 0) (command cmd_get) s' a)
            (λ z. write-OkOrOther (rooms 1) (le_bytes 8 index) z b) in
        let (st, c, f) =
          read_after-Nothing (p_safesocket_read os co (rooms 2) stack (trace_len ts)) p q
            (read-Nothing (rooms 2) stack (trace_len ts) (p.1) le) in
        let r = read_after (p_safesocket_read os co (rooms 2) stack (trace_len ts)) p in
        rw e (
          Returns-bind (Fails ts t) (λ x. Fails ts t (x.0))
            (received all_memory ts (trace_len ts) t (r.0))
            (λ x. done (x, close_connection os co (rooms 3) (r.1)))
            (subst (λ y. Returns (received all_memory ts (trace_len ts) t y) (Fails ts t)) (sym f)
              (received_nothing ts t st small c))
            (λ x k. k))
