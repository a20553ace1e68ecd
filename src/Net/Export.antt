-- ===== src/Net/Export.antt =====
-- lib/trace/frontend/export.c: the thread that serves a connection. `source` is `trace_get` of the
-- exported set, with the buffers of the trace.
use libtrs.Base.{
  ℕ, zero, suc, ◌+◌, ◌-◌, ◌*◌, ◌⊎◌, inl, inr, ltb, ◌==◌, if◌then◌else◌, Bool, true, Option, none,
  some, List, [], ◌++◌, length, take, drop, Errno, einval, Status, ok, err, Outcome, done, fault,
  ◌>>=◌,
}
use libtrs.Files.{le_bytes, le}
use libtrs.Headers.{Info}
use libtrs.Traces.{Buffers}
use libtrs.Sockets.{Os, Codec, Arrival, p_safesocket_write, p_safesocket_read}
use libtrs.Net.{Rooms, contents_after}

-- The thread between two commands: whether `trace_buf` is there, `cmd` and `index` as they are on the
-- stack, and the traces that were got and not given back.
pub record Export (S : Type 0) : Type 0 where
  pub wire : S
  pub has_buf : Bool
  pub cmd : List ℕ
  pub index : List ℕ
  pub in_use : ℕ

-- The return of the thread, if it ends.
abbrev pub Served : Type 0 → Type 0
Served S = Outcome (Option Status × Export S)

-- The state after a transfer, and whether the loop goes on.
abbrev pub after_write : {S : Type 0} → Export S → Status × S → Served S
after_write x (ok, s) = done (none, record x { wire = s })
after_write x (err e, s) = done (some (err e), record x { wire = s })

-- `struct bknd_net_init`, with the bytes between its fields.
abbrev pub init_bytes : Info → List ℕ → List ℕ
init_bytes ts pad =
    le_bytes 8 ts.num_traces
    ++ (le_bytes 8 ts.num_samples
        ++ (le_bytes 4 ts.datatype
            ++ (take 4 pad
                ++ (le_bytes 8 ts.title_size
                    ++ (le_bytes 8 ts.data_size ++ (le_bytes 4 ts.yscale ++ drop 4 pad))))))

-- `memcpy` of so many bytes of a buffer of the trace.
abbrev pub copy_from : ℕ → Option (List ℕ) → Outcome (List ℕ)
copy_from n none = if n == 0 then done [] else fault
copy_from n (some xs) = if ltb (length xs) n then fault else done (take n xs)

abbrev pub copy_all_parts : Info → Buffers → Outcome (List ℕ)
copy_all_parts ts b = copy_from ts.title_size b.title >>= λ x.
    copy_from ts.data_size b.bytes >>= λ y.
    copy_from (4 * ts.num_samples) b.samples >>= λ z. done (x ++ (y ++ z))

module _ {S : Type 0} (os : Os S) (co : Codec) (rooms : Rooms) (stack : List ℕ) (ts : Info) where
  -- The copy, `trace_free`, and the answer.
  abbrev pub send_trace : Buffers → Export S → Served S
  send_trace b x = copy_all_parts ts b >>= λ bs.
      after_write (record x { in_use = x.in_use - 1; has_buf = true })
        (p_safesocket_write os co (rooms 2) bs x.wire)

  -- `trace_buf` is made at the first trace; without memory for it the thread returns the 0 of `trace_get`.
  abbrev pub send_got : Bool → Errno ⊎ Buffers → Export S → Served S
  send_got alloc (inl e) x = done (some (err e), x)
  send_got alloc (inr b) x =
      if x.has_buf
      then send_trace b (record x { in_use = x.in_use + 1 })
      else if alloc
      then send_trace b (record x { in_use = x.in_use + 1 })
      else done (some ok, x)

  abbrev pub serve_get : Bool → (ℕ → Errno ⊎ Buffers) → Export S → Arrival × S → Served S
  serve_get alloc source x (a, s) = elim a.status [
    | err e ↦ done (some (err e), record x { wire = s })
    | ok ↦
        let index = contents_after x.index a in
        send_got alloc (source (le index)) (record x { wire = s; index = index })
  ]

  -- The `switch` over the command.
  abbrev pub serve : Bool → List ℕ → (ℕ → Errno ⊎ Buffers) → Export S → Served S
  serve alloc pad source x =
      if le x.cmd == 0
      then after_write x (p_safesocket_write os co (rooms 1) (init_bytes ts pad) x.wire)
      else if le x.cmd == 1
      then serve_get alloc source x (p_safesocket_read os co (rooms 1) stack 8 x.wire)
      else if le x.cmd == 2
      then done (some ok, x)
      else done (some (err einval), x)

  abbrev pub export_command :
      Bool → List ℕ → (ℕ → Errno ⊎ Buffers) → Export S → Arrival × S → Served S
  export_command alloc pad source x (a, s) = elim a.status [
    | err e ↦ done (some (err e), record x { wire = s })
    | ok ↦ serve alloc pad source (record x { wire = s; cmd = contents_after x.cmd a })
  ]

  -- One turn of the loop of `__ts_export_thread`.
  abbrev pub export_turn : Bool → List ℕ → (ℕ → Errno ⊎ Buffers) → Export S → Served S
  export_turn alloc pad source x =
      export_command alloc pad source x (p_safesocket_read os co (rooms 0) stack 4 x.wire)

-- After the loop the connection is closed.
abbrev pub then_turns :
    {S : Type 0} → Os S → (Export S → Served S) → Option Status × Export S → Served S
then_turns os f (none, x) = f x
then_turns os f (some st, x) = done (some st, record x { wire = os.close x.wire })

-- The thread for so many turns, with the memory of each: `none` if it still goes on.
unfoldable pub export_turns :
    {S : Type 0}
    → Os S
    → Codec
    → (ℕ → Rooms)
    → List ℕ
    → Info
    → Bool
    → List ℕ
    → (ℕ → Errno ⊎ Buffers)
    → ℕ
    → Export S
    → Served S
export_turns os co rooms stack ts alloc pad source zero x = done (none, x)
export_turns os co rooms stack ts alloc pad source (suc n) x =
    export_turn os co (rooms n) stack ts alloc pad source x
    >>= then_turns os (export_turns os co rooms stack ts alloc pad source n)
