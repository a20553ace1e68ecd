-- ===== src/Net/Serving.antt =====
-- The thread of the server gives back the traces that it gets.
use libtrs.Base.{
  Status-cases, ℕ, zero, suc, ◌+◌, ◌-◌, ◌*◌, ◌≤◌, ◌≡◌, ◌⊎◌, inl, inr, refl, ◌∙◌, ltb, ◌==◌,
  if◌then◌else◌, Bool, Returns-if, true, false, Option, none, some, List, length, Errno, einval,
  Status, ok, err, done, Returns, Returns-bind, Returns-imp, arith,
}
use libtrs.Files.{le}
use libtrs.Headers.{Info}
use libtrs.Traces.{Buffers}
use libtrs.Sockets.{Os, Codec, Arrival, p_safesocket_write, p_safesocket_read}
use libtrs.Net.{Rooms, contents_after}
use libtrs.Net.Export.{
  Export, Served, after_write, init_bytes, copy_from, copy_all_parts, send_trace, send_got,
  serve_get, serve, export_command, export_turn, then_turns, export_turns,
}

-- A buffer of so many bytes at least.
abbrev pub Has : ℕ → Option (List ℕ) → Type 0
Has n none = n ≡ 0
Has n (some xs) = n ≤ length xs

-- A trace with the buffers of its set.
pub record Full (ts : Info) (b : Buffers) : Type 0 where
  pub title : Has ts.title_size b.title
  pub bytes : Has ts.data_size b.bytes
  pub samples : Has (4 * ts.num_samples) b.samples

-- As many traces are in use.
abbrev pub Balanced : {S : Type 0} → Export S → Option Status × Export S → Type 0
Balanced x r = (r.1).in_use ≡ x.in_use

copy_from-Has : (n : ℕ) (o : Option (List ℕ)) → Has n o → Returns (copy_from n o) (λ _. Unit {0})
copy_from-Has n none h = rw h tt
copy_from-Has n (some xs) h = let q : ltb (length xs) n ≡ false = ground (arith, h) in rw q tt

copy_all_parts-Full :
    (ts : Info) (b : Buffers) → Full ts b → Returns (copy_all_parts ts b) (λ _. Unit {0})
copy_all_parts-Full ts b h =
    Returns-bind (λ _. Unit {0}) (λ _. Unit {0}) (copy_from ts.title_size b.title) _
      (copy_from-Has ts.title_size b.title h.title)
      (λ x _.
        Returns-bind (λ _. Unit {0}) (λ _. Unit {0}) (copy_from ts.data_size b.bytes) _
          (copy_from-Has ts.data_size b.bytes h.bytes)
          (λ y _.
            Returns-bind (λ _. Unit {0}) (λ _. Unit {0}) (copy_from (4 * ts.num_samples) b.samples)
              _ (copy_from-Has (4 * ts.num_samples) b.samples h.samples) (λ z _. tt)))

after_write-Balanced :
    {S : Type 0} (x y : Export S) (p : Status × S)
    → y.in_use ≡ x.in_use
    → Returns (after_write y p) (Balanced x)
after_write-Balanced x y (ok, s) e = e
after_write-Balanced x y (err z, s) e = e

module _ {S : Type 0} (os : Os S) (co : Codec) (rooms : Rooms) (stack : List ℕ) (ts : Info)
    (alloc : Bool) (pad : List ℕ) (source : ℕ → Errno ⊎ Buffers)
    (full : (i : ℕ) (b : Buffers) → source i ≡ inr b → Full ts b) where
  send_trace-Balanced :
      (b : Buffers) (x : Export S)
      → Full ts b
      → Returns
          (send_trace os co rooms stack ts b (record x { in_use = x.in_use + 1 }))
          (Balanced x)
  send_trace-Balanced b x h =
      Returns-bind (λ _. Unit {0}) (Balanced x) (copy_all_parts ts b) _ (copy_all_parts-Full ts b h)
        (λ bs _.
          after_write-Balanced x (record x { in_use = x.in_use + 1 - 1; has_buf = true })
            (p_safesocket_write os co (rooms 2) bs x.wire) (omega arith))

  send_got-Balanced :
      (r : Errno ⊎ Buffers) (x : Export S)
      → ((b : Buffers) → r ≡ inr b → Full ts b)
      → Returns (send_got os co rooms stack ts alloc r x) (Balanced x)
  send_got-Balanced (inl e) x h = refl
  send_got-Balanced (inr b) x h =
      let send = send_trace os co rooms stack ts b (record x { in_use = x.in_use + 1 }) in
      let sent = send_trace-Balanced b x (h b refl) in
      Returns-if (Balanced x) x.has_buf send (if alloc then send else done (some ok, x)) (λ _. sent)
        (λ _. Returns-if (Balanced x) alloc send (done (some ok, x)) (λ _. sent) (λ _. refl))

  serve_get-Balanced :
      (x : Export S) (p : Arrival × S)
      → Returns (serve_get os co rooms stack ts alloc source x p) (Balanced x)
  serve_get-Balanced x (a, s) = elim (Status-cases a.status) [
    | inl q ↦
        let index = contents_after x.index a in
        rw q (
          send_got-Balanced (source (le index)) (record x { wire = s; index = index })
            (full (le index)))
    | inr (e, q) ↦ rw q refl
  ]

  serve-Balanced :
      (x : Export S) → Returns (serve os co rooms stack ts alloc pad source x) (Balanced x)
  serve-Balanced x =
      let init = after_write x (p_safesocket_write os co (rooms 1) (init_bytes ts pad) x.wire) in
      let get =
        serve_get os co rooms stack ts alloc source x
          (p_safesocket_read os co (rooms 1) stack 8 x.wire) in
      let last = if le x.cmd == 2 then done (some ok, x) else done (some (err einval), x) in
      Returns-if (Balanced x) (le x.cmd == 0) init (if le x.cmd == 1 then get else last)
        (λ _.
          after_write-Balanced x x (p_safesocket_write os co (rooms 1) (init_bytes ts pad) x.wire)
            refl)
        (λ _.
          Returns-if (Balanced x) (le x.cmd == 1) get last
            (λ _. serve_get-Balanced x (p_safesocket_read os co (rooms 1) stack 8 x.wire))
            (λ _.
              Returns-if (Balanced x) (le x.cmd == 2) (done (some ok, x))
                (done (some (err einval), x)) (λ _. refl) (λ _. refl)))

  command-Balanced :
      (x : Export S) (p : Arrival × S)
      → Returns (export_command os co rooms stack ts alloc pad source x p) (Balanced x)
  command-Balanced x (a, s) = elim (Status-cases a.status) [
    | inl q ↦ rw q (serve-Balanced (record x { wire = s; cmd = contents_after x.cmd a }))
    | inr (e, q) ↦ rw q refl
  ]

then_turns-Balanced :
    {S : Type 0} (os : Os S) (f : Export S → Served S) (x : Export S) (r : Option Status × Export S)
    → ((y : Export S) → Returns (f y) (Balanced y))
    → Balanced x r
    → Returns (then_turns os f r) (Balanced x)
then_turns-Balanced os f x (some st, y) k h = h
then_turns-Balanced os f x (none, y) k h =
    Returns-imp (Balanced y) (Balanced x) (f y) (λ r e. e ∙ h) (k y)

module _ {S : Type 0} (os : Os S) (co : Codec) (rooms : ℕ → Rooms) (stack : List ℕ) (ts : Info)
    (alloc : Bool) (pad : List ℕ) (source : ℕ → Errno ⊎ Buffers)
    (full : (i : ℕ) (b : Buffers) → source i ≡ inr b → Full ts b) where
  -- Where every trace of the exported set has buffers of the sizes of the set: whatever comes in
  -- over whatever connection, and whatever memory there is, so many turns of the loop of
  -- __ts_export_thread, or fewer if the thread ends, return without a copy from NULL or past a
  -- buffer, and with as many traces in use as before.
  pub export_turns-Balanced :
      (n : ℕ) (x : Export S)
      → Returns (export_turns os co rooms stack ts alloc pad source n x) (Balanced x)
  unfolding export_turns
  export_turns-Balanced zero x = refl
  export_turns-Balanced (suc n) x =
      Returns-bind (Balanced x) (Balanced x)
        (export_turn os co (rooms n) stack ts alloc pad source x)
        (then_turns os (export_turns os co rooms stack ts alloc pad source n))
        (command-Balanced os co (rooms n) stack ts alloc pad source full x
          (p_safesocket_read os co (rooms n 0) stack 4 x.wire))
        (λ r h.
          then_turns-Balanced os (export_turns os co rooms stack ts alloc pad source n) x r
            (export_turns-Balanced n) h)
