-- ===== src/Net.antt =====
-- lib/trace/backend/backend_net.c: a trace set that a server holds, over the sockets of Sockets. The
-- layout of the messages is that of the types of include/net_types.h on a 64-bit machine.
pub mod Reads
pub mod Export
pub mod Serving
mod Tests
use libtrs.Base.{
  ℕ, zero, suc, ◌+◌, ◌*◌, ◌^◌, ◌%◌, ◌++◌, ltb, ◌==◌, if◌then◌else◌, Bool, true, false, Option, none,
  some, List, [], length, take, drop, replicate, Errno, einval, enomem, Status, ok, err, Outcome,
  done, fault, ◌>>=◌,
}
use libtrs.Files.{le_bytes, le}
use libtrs.Headers.{Info}
use libtrs.Transforms.{Buffer, null, live, dangling, Target, Memory, is_set}
use libtrs.Sockets.{
  Os, p_socket_connect, Codec, Room, Arrival, no_arrival, p_safesocket_write, p_safesocket_read,
}

-- `struct backend_net_arg`.
pub record NetArg : Type 0 where
  pub serv_ip : List ℕ
  pub serv_port : ℕ

-- `bknd_net_cmd_t`.
pub data Command : Type 0 where
  cmd_init cmd_get cmd_die : Command

abbrev pub code : Command → ℕ
code cmd_init = 0
code cmd_get = 1
code cmd_die = 2

abbrev pub command : Command → List ℕ
command c = le_bytes 4 (code c)

-- The memory for each of the transfers of a call, the third for the one of `__close_connection`.
abbrev pub Rooms : Type 0
Rooms = ℕ → Room

abbrev pub close_connection : {S : Type 0} → Os S → Codec → Room → S → S
close_connection os co room s = os.close ((p_safesocket_write os co room (command cmd_die) s).1)

abbrev pub read_after : {S : Type 0} → (S → Arrival × S) → Status × S → Arrival × S
read_after f (ok, s) = f s
read_after f (err e, s) = (no_arrival (err e), s)

-- What an object holds after a read into it, which can be shorter.
abbrev pub contents_after : List ℕ → Arrival → List ℕ
contents_after before a = elim a.buffer [ none ↦ before | some bs ↦ bs ++ drop (length bs) before ]

-- The fields that `struct bknd_net_init` gives.
abbrev pub set_info : List ℕ → Info → Info
set_info bs ts = record ts {
  num_traces = le (take 8 bs);
  num_samples = le (take 8 (drop 8 bs));
  datatype = le (take 4 (drop 16 bs));
  title_size = le (take 8 (drop 24 bs));
  data_size = le (take 8 (drop 32 bs));
  yscale = le (take 4 (drop 40 bs));
}

abbrev pub opened : List ℕ → Info → Arrival → Status × Info
opened stack ts a = elim a.status [
  | ok ↦ (ok, set_info (contents_after stack a) ts)
  | err e ↦ (err e, ts)
]

abbrev pub init_set :
    {S : Type 0} → Os S → Codec → Rooms → List ℕ → List ℕ → Info → Status × S → (Status × Info) × S
init_set os co rooms stack init ts (err e, s) = ((err e, ts), s)
init_set os co rooms stack init ts (ok, s) =
    let r =
      read_after (p_safesocket_read os co (rooms 1) stack 48)
        (p_safesocket_write os co (rooms 0) (command cmd_init) s) in
    (opened init ts (r.0), close_connection os co (rooms 2) (r.1))

-- `stack` and `init` are what `encrypted_len` and `init` hold before they are set.
abbrev pub backend_net_open :
    {S : Type 0} → Os S → Codec → Rooms → List ℕ → List ℕ → NetArg → Info → S → (Status × Info) × S
backend_net_open os co rooms stack init arg ts s =
    init_set os co rooms stack init ts (p_socket_connect os arg.serv_ip arg.serv_port s)

-- `memcpy` into an object of the size that is copied.
abbrev pub copy_into : Buffer → List ℕ → Outcome Buffer
copy_into (live old) xs = done (live xs)
copy_into null xs = if length xs == 0 then done null else fault
copy_into dangling xs = fault

-- What `calloc` gives.
abbrev pub zeros : ℕ → List ℕ
zeros n = replicate n 0

abbrev pub allocated : Bool → ℕ → Buffer
allocated alloc n = if alloc then live (zeros n) else null

-- The three allocations, each only after the one before.
abbrev pub allocate : Memory → Info → Target → Target
allocate m ts t =
    let title = allocated m.for_title ts.title_size in
    let bytes = if is_set title then allocated m.for_bytes ts.data_size else t.bytes in
    record {
      title = title;
      bytes = bytes;
      samples = if is_set bytes then allocated m.for_samples (4 * ts.num_samples) else t.samples;
    }

abbrev pub copy_parts : Info → List ℕ → Target → Outcome (Status × Target)
copy_parts ts buf t = copy_into t.title (take ts.title_size buf) >>= λ title.
    copy_into t.bytes (take ts.data_size (drop ts.title_size buf)) >>= λ bytes.
    copy_into t.samples (take (4 * ts.num_samples) (drop (ts.title_size + ts.data_size) buf))
    >>= λ samples. done (ok, record { title = title; bytes = bytes; samples = samples })

-- The copies out of the buffer, which is too short if the sum of the sizes has wrapped.
abbrev pub copy_trace : Info → List ℕ → Target → Outcome (Status × Target)
copy_trace ts buf t =
    if ltb (length buf) (ts.title_size + ts.data_size + 4 * ts.num_samples)
    then fault
    else copy_parts ts buf t

abbrev pub free_if : Buffer → Buffer
free_if b = if is_set b then dangling else b

-- Only the data is looked at, and what is returned without it is the 0 of the last read.
abbrev pub fill_net_trace : Info → List ℕ → Target → Outcome (Status × Target)
fill_net_trace ts buf t =
    if is_set t.bytes
    then copy_trace ts buf t
    else done (
      ok,
      record { title = free_if t.title; bytes = free_if t.bytes; samples = free_if t.samples },
    )

abbrev pub received : Memory → Info → ℕ → Target → Arrival → Outcome (Status × Target)
received m ts len t a = elim a.status [
  | ok ↦ fill_net_trace ts (contents_after (zeros len) a) (allocate m ts t)
  | err e ↦ done (err e, t)
]

abbrev pub send_after : {S : Type 0} → (S → Status × S) → Status × S → Status × S
send_after f (ok, s) = f s
send_after f (err e, s) = (err e, s)

abbrev pub send_request : {S : Type 0} → Os S → Codec → Rooms → ℕ → S → Status × S
send_request os co rooms index s =
    send_after (p_safesocket_write os co (rooms 1) (le_bytes 8 index))
      (p_safesocket_write os co (rooms 0) (command cmd_get) s)

-- The bytes of a trace.
abbrev pub trace_len : Info → ℕ
trace_len ts = (ts.title_size + ts.data_size + 4 * ts.num_samples) % 2 ^ 64

abbrev pub get_trace :
    {S : Type 0}
    → Os S
    → Codec
    → Rooms
    → List ℕ
    → Memory
    → Info
    → ℕ
    → Target
    → Status × S
    → Outcome ((Status × Target) × S)
get_trace os co rooms stack m ts index t (err e, s) = done ((err e, t), s)
get_trace os co rooms stack m ts index t (ok, s) =
    let r =
      read_after (p_safesocket_read os co (rooms 2) stack (trace_len ts))
        (send_request os co rooms index s) in
    received m ts (trace_len ts) t (r.0) >>= λ x. done (x, close_connection os co (rooms 3) (r.1))

-- `buf`: whether there is memory for the buffer of the whole trace, which is not freed if the
-- connection fails.
abbrev pub backend_net_read :
    {S : Type 0}
    → Os S
    → Codec
    → Rooms
    → List ℕ
    → NetArg
    → Bool
    → Memory
    → Info
    → ℕ
    → Target
    → S
    → Outcome ((Status × Target) × S)
backend_net_read os co rooms stack arg buf m ts index t s =
    if buf
    then get_trace os co rooms stack m ts index t (p_socket_connect os arg.serv_ip arg.serv_port s)
    else done ((err enomem, t), s)

-- The operations that a server does not offer.
abbrev pub backend_net_create : Status
backend_net_create = err einval

abbrev pub backend_net_write : Status
backend_net_write = err einval
