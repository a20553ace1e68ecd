-- ===== src/Sockets.antt =====
-- lib/platform/platform_socket.c and secure_socket.c, for Linux. The calls of the operating system are
-- the record Os over a state of its own, those of zlib and OpenSSL the record Codec; both are arguments.
pub mod Transfers
pub mod Lengths
use libtrs.Base.{
  ℕ, zero, suc, ◌+◌, ◌-◌, ◌*◌, ◌^◌, ltb, ◌==◌, if◌then◌else◌, Bool, true, false, Option, none, some,
  List, [], ◌∷◌, ◌++◌, length, take, drop, ◌⊎◌, inl, inr, Errno, einval, enomem, other, Status, ok,
  err,
}
use libtrs.Files.{le_bytes, le}

-- `write` gives the number of bytes taken and `read` the bytes; none of them on an error or at the end.
-- The other calls say whether they succeed.
pub record Os (S : Type 0) : Type 0 where
  pub write : S → List ℕ → ℕ × S
  pub read : S → ℕ → List ℕ × S
  pub gethostbyname : S → List ℕ → Bool × S
  pub socket : S → Bool × S
  pub connect : S → ℕ → Bool × S
  pub close : S → S
  pub errno : S → ℕ
  pub h_errno : S → ℕ

-- A return of `-errno`.
abbrev pub minus : ℕ → Status
minus n = if n == 0 then ok else err other

-- The rest of the loop after a call of `write` that took so many bytes.
abbrev pub sent_some : {S : Type 0} → (List ℕ → S → ℕ × S) → List ℕ → ℕ × S → ℕ × S
sent_some rest xs (k, s) = let r = rest (drop k xs) s in if k == 0 then (0, s) else (k + r.0, r.1)

-- The loop of `p_socket_write`, with a turn for each byte at most.
unfoldable pub write_loop : {S : Type 0} → Os S → ℕ → List ℕ → S → ℕ × S
write_loop os zero xs s = (0, s)
write_loop os (suc n) [] s = (0, s)
write_loop os (suc n) (x ∷ xs) s = sent_some (write_loop os n) (x ∷ xs) (os.write s (x ∷ xs))

abbrev pub p_socket_write : {S : Type 0} → Os S → List ℕ → S → ℕ × S
p_socket_write os xs s = write_loop os (length xs) xs s

abbrev pub got_some : {S : Type 0} → (ℕ → S → List ℕ × S) → ℕ → List ℕ × S → List ℕ × S
got_some rest len ([], s) = ([], s)
got_some rest len (b ∷ bs, s) = let r = rest (len - length (b ∷ bs)) s in ((b ∷ bs) ++ r.0, r.1)

-- The loop of `p_socket_read`: the bytes that it puts into the buffer, whose number it returns.
unfoldable pub read_loop : {S : Type 0} → Os S → ℕ → ℕ → S → List ℕ × S
read_loop os zero len s = ([], s)
read_loop os (suc n) zero s = ([], s)
read_loop os (suc n) (suc len) s = got_some (read_loop os n) (suc len) (os.read s (suc len))

abbrev pub p_socket_read : {S : Type 0} → Os S → ℕ → S → List ℕ × S
p_socket_read os len s = read_loop os len len s

abbrev pub connected : {S : Type 0} → Os S → Bool × S → Status × S
connected os (true, s) = (ok, s)
connected os (false, s) = (minus (os.errno s), os.close s)

abbrev pub with_socket : {S : Type 0} → Os S → ℕ → Bool × S → Status × S
with_socket os port (true, s) = connected os (os.connect s port)
with_socket os port (false, s) = (minus (os.errno s), s)

abbrev pub with_server : {S : Type 0} → Os S → ℕ → Bool × S → Status × S
with_server os port (true, s) = with_socket os port (os.socket s)
with_server os port (false, s) = (minus (os.h_errno s), s)

abbrev pub p_socket_connect : {S : Type 0} → Os S → List ℕ → ℕ → S → Status × S
p_socket_connect os ip port s = with_server os port (os.gethostbyname s ip)

-- `deflate` and `inflate` of whole inputs, the latter for a length; AES with the key of the source.
pub record Codec : Type 0 where
  pub deflate : List ℕ → Option (List ℕ)
  pub inflate : List ℕ → ℕ → Option (List ℕ)
  pub encrypt : List ℕ → List ℕ
  pub decrypt : List ℕ → List ℕ

-- Whether the two allocations of a call succeed.
pub record Room : Type 0 where
  pub first : Bool
  pub second : Bool

abbrev pub or_einval : Option (List ℕ) → Errno ⊎ List ℕ
or_einval none = inl einval
or_einval (some ys) = inr ys

-- `__compress` and `__encrypt`.
abbrev pub compress_message : Codec → Bool → List ℕ → Errno ⊎ List ℕ
compress_message co alloc xs = if alloc then or_einval (co.deflate xs) else inl enomem

abbrev pub encrypt_message : Codec → Bool → Errno ⊎ List ℕ → Errno ⊎ List ℕ
encrypt_message co alloc (inl e) = inl e
encrypt_message co alloc (inr ys) = if alloc then inr (co.encrypt ys) else inl enomem

abbrev pub sent_payload : {S : Type 0} → Os S → List ℕ → ℕ × S → Status × S
sent_payload os ys (n, s) = if n == length ys then (ok, s) else (minus (os.errno s), s)

abbrev pub sent_length : {S : Type 0} → Os S → List ℕ → ℕ × S → Status × S
sent_length os ys (n, s) =
    if n == 1 then sent_payload os ys (p_socket_write os ys s) else (minus (os.errno s), s)

abbrev pub send_encrypted : {S : Type 0} → Os S → Errno ⊎ List ℕ → S → Status × S
send_encrypted os (inl e) s = (err e, s)
send_encrypted os (inr ys) s = sent_length os ys (p_socket_write os (le_bytes 4 (length ys)) s)

abbrev pub p_safesocket_write : {S : Type 0} → Os S → Codec → Room → List ℕ → S → Status × S
p_safesocket_write os co room xs s =
    send_encrypted os (encrypt_message co room.second (compress_message co room.first xs)) s

-- What a read leaves: its status, and the buffer where it was written whole.
pub record Arrival : Type 0 where
  pub status : Status
  pub buffer : Option (List ℕ)

abbrev pub no_arrival : Status → Arrival
no_arrival st = record { status = st; buffer = none }

abbrev pub inflated : Option (List ℕ) → Arrival
inflated none = no_arrival (err einval)
inflated (some xs) = record { status = ok; buffer = some xs }

abbrev pub got_payload : {S : Type 0} → Os S → Codec → Bool → ℕ → ℕ → List ℕ × S → Arrival × S
got_payload os co alloc encrypted_len len (bs, s) =
    if length bs == encrypted_len
    then ((if alloc then inflated (co.inflate (co.decrypt bs) len) else no_arrival (err enomem)), s)
    else (no_arrival (minus (os.errno s)), s)

-- An `int` as the length of a loop, which a negative one does not enter.
abbrev pub int_len : ℕ → ℕ
int_len w = if ltb w (2 ^ 31) then w else 0

abbrev pub read_payload : {S : Type 0} → Os S → Codec → Room → ℕ → ℕ → S → Arrival × S
read_payload os co room w len s =
    if room.first
    then got_payload os co room.second w len (p_socket_read os (int_len w) s)
    else (no_arrival (err enomem), s)

-- `stack`: the bytes that `encrypted_len` has before the call.
abbrev pub got_length : {S : Type 0} → Os S → Codec → Room → List ℕ → ℕ → List ℕ × S → Arrival × S
got_length os co room stack len (bs, s) =
    if length bs == 1
    then read_payload os co room (le (bs ++ drop (length bs) stack)) len s
    else (no_arrival (minus (os.errno s)), s)

abbrev pub p_safesocket_read : {S : Type 0} → Os S → Codec → Room → List ℕ → ℕ → S → Arrival × S
p_safesocket_read os co room stack len s = got_length os co room stack len (p_socket_read os 4 s)
