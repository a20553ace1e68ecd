-- ===== src/Files.antt =====
-- The C library's files, as the source uses them: bytes, a position, and the place past which an
-- `fwrite` comes back short (`none`: a disk with room, where none does). Which `fwrite` it is that finds
-- out that a disk is full is the library's matter, which has a buffer of its own: bytes that it still
-- has there are bytes of the file here, and what an `fseek` or `fclose` finds when it writes them out
-- is left out. A write past the end fills the gap with zeros. Calls that can fail are a monad over
-- the file; the first failure ends a `do` block, as `return -EIO` does.
pub mod Places
use libtrs.Base.{
  ℕ, zero, suc, ◌+◌, ◌-◌, ltb, ◌==◌, if◌then◌else◌, Bool, true, false, Option, none, some, List, [],
  ◌∷◌, ◌++◌, length, take, drop, replicate, ◌⊎◌, inl, inr, Errno, eio, Outcome, done, blocked,
  fault,
}
use Prim.Native.Nat.{◌*◌, ◌/◌, ◌%◌, min}

pub record File : Type 0 where
  pub bytes : List ℕ
  pub pos : ℕ
  pub limit : Option ℕ
  pub seekable : Bool

-- `xs` over what stands from `p` on.
abbrev pub overwrite : ℕ → List ℕ → List ℕ → List ℕ
overwrite zero xs bs = xs ++ drop (length xs) bs
overwrite (suc p) xs [] = 0 ∷ overwrite p xs []
overwrite (suc p) xs (b ∷ bs) = b ∷ overwrite p xs bs

abbrev pub put : List ℕ → File → File
put xs f = record f { bytes = overwrite f.pos xs f.bytes; pos = f.pos + length xs }

-- `fread`: the bytes read, no more than there are.
abbrev pub fread : ℕ → File → List ℕ × File
fread n f = let xs = take n (drop f.pos f.bytes) in (xs, record f { pos = f.pos + length xs })

-- `fwrite`: the number of bytes that it says it has written, which is short past the limit.
abbrev pub fwrite : List ℕ → File → ℕ × File
fwrite xs f = elim f.limit [
  | none ↦ (length xs, put xs f)
  | some r ↦ let n = min (length xs) (r - f.pos) in (n, put (take n xs) f)
]

abbrev pub Io : Type 0 → Type 0
Io A = File → Outcome (File × (Errno ⊎ A))

abbrev pub pure : {A : Type 0} → A → Io A
pure a f = done (f, inr a)

abbrev pub fail : {A : Type 0} → Errno → Io A
fail e f = done (f, inl e)

abbrev pub crash : {A : Type 0} → Io A
crash f = fault

abbrev pub run_on :
    {A B : Type 0} → Outcome (File × (Errno ⊎ A)) → (A → Io B) → Outcome (File × (Errno ⊎ B))
run_on (done (f, inl e)) k = done (f, inl e)
run_on (done (f, inr a)) k = k a f
run_on blocked k = blocked
run_on fault k = fault

infixl 5 ◌>>=◌ ◌>>◌
abbrev pub ◌>>=◌ : {A B : Type 0} → Io A → (A → Io B) → Io B
(m >>= k) f = run_on (m f) k

abbrev pub ◌>>◌ : {B : Type 0} → Io (Unit {0}) → Io B → Io B
m >> k = m >>= λ _. k

-- `fread` of `n` bytes into an object of `size` bytes, and the test of what it returns.
unfoldable pub read_into : ℕ → ℕ → Io (List ℕ)
read_into size n f =
    let r = fread n f in
    if ltb size (length (r.0))
    then fault
    else if length (r.0) == n
    then done (r.1, inr (r.0))
    else done (r.1, inl eio)

-- `fwrite` of an object, and the test of what it returns.
unfoldable pub write_bytes : List ℕ → Io (Unit {0})
write_bytes xs f =
    let r = fwrite xs f in if r.0 == length xs then done (r.1, inr tt) else done (r.1, inl eio)

-- `fseek` from the start, and the test of what it returns.
unfoldable pub seek : ℕ → Io (Unit {0})
seek p f = if f.seekable then done (record f { pos = p }, inr tt) else done (f, inl eio)

-- `ftell`.
abbrev pub tell : Io ℕ
tell f = done (f, inr f.pos)

-- A number as the bytes of an object, lowest first, and back.
abbrev pub le_bytes : ℕ → ℕ → List ℕ
le_bytes zero n = []
le_bytes (suc w) n = (n % 256) ∷ le_bytes w (n / 256)

abbrev pub le : List ℕ → ℕ
le [] = 0
le (x ∷ xs) = x + 256 * le xs
