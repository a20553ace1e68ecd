-- ===== src/Files/Places.antt =====
-- Reading and writing at places of a file that are known: at its end, or between two parts.
use libtrs.Base.{
  ◌≤◌, ℕ, zero, suc, ◌*◌, ◌/◌, ◌^◌, ◌<◌, ◌≡◌, refl, ap, ◌∙◌, ltb, ==_refl, Bool, false, none, List,
  [], ◌∷◌, ◌++◌, length, length-append, drop, take-append, drop-append, inr, done, arith,
}
use mathlib.Core.List.{append-nil}
use libtrs.Files.{File, overwrite, read_into, write_bytes, le, le_bytes}

drop-nil : (n : ℕ) → drop {A = ℕ} n [] ≡ []
drop-nil zero = refl
drop-nil (suc n) = refl

pub overwrite_end : (ys xs : List ℕ) (p : ℕ) → p ≡ length ys → overwrite p xs ys ≡ ys ++ xs
overwrite_end [] xs zero h = ap (◌++◌ xs) (drop-nil (length xs)) ∙ append-nil xs
overwrite_end [] xs (suc p) h = absurd (omega arith)
overwrite_end (y ∷ ys) xs zero h = absurd (omega arith)
overwrite_end (y ∷ ys) xs (suc p) h = ap (◌∷◌ y) (overwrite_end ys xs p (omega arith))

-- A file without a limit that ends at its position.
abbrev pub at_end : Bool → List ℕ → File
at_end seekable ys = record { bytes = ys; pos = length ys; limit = none; seekable = seekable }

pub write_bytes_end :
    (b : Bool) (ys xs : List ℕ) → write_bytes xs (at_end b ys) ≡ done (at_end b (ys ++ xs), inr tt)
unfolding write_bytes
write_bytes_end b ys xs =
    rw (==_refl (length xs), overwrite_end ys xs (length ys) refl, length-append ys xs)

pub read_into_part :
    (size : ℕ) (pre xs post : List ℕ) (n : ℕ) (f : File)
    → f.bytes ≡ pre ++ (xs ++ post)
    → f.pos ≡ length pre
    → n ≡ length xs
    → n ≤ size
    → read_into size n f ≡ done (record f { pos = length (pre ++ xs) }, inr xs)
unfolding read_into
read_into_part size pre xs post n f hb hp hn le =
    let s : ltb size (length xs) ≡ false = ground (arith, hn, le) in
    rw (
      hb,
      hp,
      hn,
      drop-append pre (xs ++ post),
      take-append xs post,
      s,
      ==_refl (length xs),
      length-append pre xs,
    )

pub read_into-part :
    (pre xs post : List ℕ) (n : ℕ) (f : File)
    → f.bytes ≡ pre ++ (xs ++ post)
    → f.pos ≡ length pre
    → n ≡ length xs
    → read_into n n f ≡ done (record f { pos = length (pre ++ xs) }, inr xs)
read_into-part pre xs post n f hb hp hn = read_into_part n pre xs post n f hb hp hn (omega arith)

div_lt : (n m : ℕ) → n < 256 * m → n / 256 < m
div_lt n m h = omega arith

pub le-le_bytes : (w n : ℕ) → n < 256 ^ w → le (le_bytes w n) ≡ n
le-le_bytes zero n h = omega arith
le-le_bytes (suc w) n h =
    let e : 256 ^ suc w ≡ 256 * 256 ^ w = omega arith in
    let q : n / 256 < 256 ^ w = div_lt n (256 ^ w) (omega arith) in
    omega (arith, le-le_bytes w (n / 256) q)

pub length-le_bytes : (w n : ℕ) → length (le_bytes w n) ≡ w
length-le_bytes zero n = refl
length-le_bytes (suc w) n = ap suc (length-le_bytes w (n / 256))
