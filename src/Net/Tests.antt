-- ===== src/Net/Tests.antt =====
-- A connection that moves all bytes, and the network backend over it.
use mathlib.Core.Path.{subst}
use libtrs.Base.{
  Errno, ◌⊎◌, inr, false, ℕ, zero, suc, ◌<◌, ◌≤◌, ◌≡◌, refl, sym, ap, true, some, List, [], ◌∷◌,
  ◌++◌, length, take, drop, ok, done, Returns, arith,
}
use libtrs.Headers.{Info}
use libtrs.Files.{le_bytes}
use libtrs.Transforms.{null, live, Target}
use libtrs.Sockets.{
  Os, Codec, Room, p_socket_write, p_safesocket_write, write_loop, read_loop, minus,
}
use libtrs.Sockets.Transfers.{Sent, p_socket_write-Sent}
use libtrs.Sockets.Lengths.{Works, take_all, p_safesocket_write-length}
use libtrs.Traces.{Buffers}
use libtrs.Net.Export.{Export, export_turns}
use libtrs.Net.Serving.{Full, Balanced, export_turns-Balanced}
use libtrs.Net.{NetArg, backend_net_read}
use libtrs.Net.Reads.{Fails, all_memory, backend_net_read-Fails}

record Wire : Type 0 where
  out_bytes : List ℕ
  in_bytes : List ℕ
  last_errno : ℕ

abbrev wire : Os Wire
wire = record {
  write = λ w xs. (length xs, record w { out_bytes = w.out_bytes ++ xs });
  read = λ w n. (take n w.in_bytes, record w { in_bytes = drop n w.in_bytes });
  gethostbyname = λ w ip. (true, w);
  socket = λ w. (true, w);
  connect = λ w port. (true, w);
  close = λ w. w;
  errno = λ w. w.last_errno;
  h_errno = λ w. 1;
}

take-drop : (n : ℕ) (xs : List ℕ) → xs ≡ take n xs ++ drop n xs
take-drop zero xs = refl
take-drop (suc n) [] = refl
take-drop (suc n) (x ∷ xs) = ap (◌∷◌ x) (take-drop n xs)

take_le : (n : ℕ) (xs : List ℕ) → length (take n xs) ≤ n
take_le zero xs = omega arith
take_le (suc n) [] = omega arith
take_le (suc n) (x ∷ xs) = omega (arith, take_le n xs)

take_pos : (n : ℕ) (xs : List ℕ) → 0 < n → 0 < length xs → 0 < length (take n xs)
take_pos zero xs p q = absurd (omega (arith, p))
take_pos (suc n) [] p q = absurd (omega (arith, q))
take_pos (suc n) (x ∷ xs) p q = omega arith

wire-Works : Works wire (λ w. w.out_bytes) (λ w. w.in_bytes)
wire-Works = record {
  streams = record {
    write_some =
        λ w xs. (omega arith, ap (λ ys. w.out_bytes ++ ys) (sym (take_all xs (length xs) refl)));
    read_some = λ w n. (take_le n w.in_bytes, take-drop n w.in_bytes);
  };
  takes = λ w xs p. p;
  brings = λ w n p q. take_pos n w.in_bytes p q;
}

abbrev plain : Codec
plain = record {
  deflate = λ xs. some xs;
  inflate = λ xs n. some xs;
  encrypt = λ xs. xs;
  decrypt = λ xs. xs;
}

abbrev room : Room
room = record { first = true; second = true }

-- A trace of a title of one byte, two bytes of data and one sample comes in.
abbrev answering : Wire
answering = record {
  out_bytes = [];
  in_bytes = 7 ∷ 0 ∷ 0 ∷ 0 ∷ 65 ∷ 1 ∷ 2 ∷ 0 ∷ 0 ∷ 128 ∷ 63 ∷ [];
  last_errno = 0;
}

abbrev small_set : Info
small_set = record {
  num_traces = 10;
  num_samples = 1;
  title_size = 1;
  data_size = 2;
  datatype = 0;
  xoffs = 0;
  xscale = 0;
  yscale = 0;
}

abbrev server : NetArg
server = record { serv_ip = 49 ∷ []; serv_port = 7000 }

abbrev fresh : Target
fresh = record { title = null; bytes = null; samples = null }

p_socket_write-Sent_example :
    Sent wire (λ w. w.out_bytes) (1 ∷ 2 ∷ []) answering (p_socket_write wire (1 ∷ 2 ∷ []) answering)
p_socket_write-Sent_example =
    p_socket_write-Sent wire (λ w. w.out_bytes) (λ w. w.in_bytes) wire-Works.streams (1 ∷ 2 ∷ [])
      answering

p_safesocket_write-length_example :
    ((p_safesocket_write wire plain room (9 ∷ 8 ∷ []) answering).1.out_bytes ≡ [] ++ le_bytes 4 2)
    × ((p_safesocket_write wire plain room (9 ∷ 8 ∷ []) answering).0
        ≡ minus ((p_safesocket_write wire plain room (9 ∷ 8 ∷ []) answering).1.last_errno))
p_safesocket_write-length_example =
    p_safesocket_write-length wire (λ w. w.out_bytes) (λ w. w.in_bytes) wire-Works plain room
      (9 ∷ 8 ∷ []) (9 ∷ 8 ∷ []) answering refl

backend_net_read-Fails_example :
    Returns
      (backend_net_read wire plain
        (λ _. room)
        (0 ∷ 0 ∷ 0 ∷ 0 ∷ [])
        server
        true
        all_memory
        small_set
        3
        fresh
        answering)
      (λ x. Fails small_set fresh (x.0))
unfolding write_loop
backend_net_read-Fails_example =
    backend_net_read-Fails wire (λ w. w.out_bytes) (λ w. w.in_bytes) wire-Works plain (λ _. room)
      (0 ∷ 0 ∷ 0 ∷ 0 ∷ []) server small_set 3 fresh answering answering (_, refl) (_, refl)
      (omega arith) refl (omega arith)

-- It succeeds with zero bytes.
backend_net_read_blank :
    backend_net_read wire plain
      (λ _. room)
      (0 ∷ 0 ∷ 0 ∷ 0 ∷ [])
      server
      true
      all_memory
      small_set
      3
      fresh
      answering
    ≡ done (
      (
        ok,
        record {
          title = live (0 ∷ []);
          bytes = live (0 ∷ 0 ∷ []);
          samples = live (0 ∷ 0 ∷ 0 ∷ 0 ∷ []);
        },
      ),
      record {
        out_bytes = (4 ∷ 0 ∷ 0 ∷ 0 ∷ []) ++ ((8 ∷ 0 ∷ 0 ∷ 0 ∷ []) ++ (4 ∷ 0 ∷ 0 ∷ 0 ∷ []));
        in_bytes = 65 ∷ 1 ∷ 2 ∷ 0 ∷ 0 ∷ 128 ∷ 63 ∷ [];
        last_errno = 0;
      },
    )
unfolding write_loop read_loop
backend_net_read_blank = refl

-- The exported set has one trace at every index.
abbrev exported : ℕ → Errno ⊎ Buffers
exported i = inr (record {
  title = some (65 ∷ []);
  bytes = some (1 ∷ 2 ∷ []);
  samples = some (0 ∷ 0 ∷ 128 ∷ 63 ∷ []);
})

exported-Full : (i : ℕ) (b : Buffers) → exported i ≡ inr b → Full small_set b
exported-Full i b e =
    let q : record {
      title = some (65 ∷ []);
      bytes = some (1 ∷ 2 ∷ []);
      samples = some (0 ∷ 0 ∷ 128 ∷ 63 ∷ []);
    }
        ≡ b =
      cc in
    subst (Full small_set) q
      (record { title = omega arith; bytes = omega arith; samples = omega arith })

-- The thread finds the command 1 on its stack.
abbrev serving : Export Wire
serving = record {
  wire = answering;
  has_buf = false;
  cmd = 1 ∷ 0 ∷ 0 ∷ 0 ∷ [];
  index = 3 ∷ [];
  in_use = 5;
}

export_turns-Balanced_example :
    Returns
      (export_turns wire plain
        (λ _ _. room)
        (0 ∷ 0 ∷ 0 ∷ 0 ∷ [])
        small_set
        true
        []
        exported
        2
        serving)
      (Balanced serving)
export_turns-Balanced_example =
    export_turns-Balanced wire plain (λ _ _. room) (0 ∷ 0 ∷ 0 ∷ 0 ∷ []) small_set true [] exported
      exported-Full 2 serving
