-- ===== src/Trs/ShortWrites.antt =====
-- A `backend_trs_write` of which an `fwrite` comes back short.
use libtrs.Base.{
  ℕ, ◌+◌, ◌≤◌, ◌≡◌, ◌⊎◌, true, some, List, ◌++◌, length, inl, inr, Errno, eio, Outcome, done,
}
use libtrs.Files.{File}
use libtrs.Trs.{Trs}

-- A file that ends at its position, where an `fwrite` past `r` bytes comes back short.
abbrev filled : ℕ → List ℕ → File
filled r ys = record { bytes = ys; pos = length ys; limit = some r; seekable = true }

-- The call fails with -EIO; or it succeeds, and then what it wrote ends below the limit.
abbrev Writes : ℕ → List ℕ → List ℕ → Outcome (File × (Errno ⊎ Unit {0})) → Type 0
Writes r ys xs m =
    ((f : File) × (m ≡ done (f, inl eio)))
    ⊎ ((length ys + length xs ≤ r) × (m ≡ done (filled r (ys ++ xs), inr tt)))

-- The set, with a file where an `fwrite` past `r` bytes comes back short.
abbrev pub with_limit : ℕ → Trs → Trs
with_limit r s = record s { file = record s.file { limit = some r } }
