-- ===== src/Headers/Turns.antt =====
-- The loop that counts the headers of a file comes to an end.
use libtrs.Base.{
  ℕ, zero, suc, ◌+◌, ◌-◌, ◌<◌, ◌≤◌, ◌≡◌, ◌⊎◌, ltb, ◌==◌, ==_iff, if◌then◌else◌, Bool-cases, Option,
  none, some, List, [], ◌∷◌, length, take, drop, length-take, get_or, inl, inr, Errno, enomem,
  Outcome, done, blocked, fault, arith,
}
use libtrs.Files.{File, Io, pure, run_on, ◌>>=◌, fail, read_into, le}
use libtrs.Headers.{read_tag_and_len, count_headers, trace_block}

length-drop : (n : ℕ) (xs : List ℕ) → length (drop n xs) ≡ length xs - n
length-drop zero xs = omega arith
length-drop (suc n) [] = omega arith
length-drop (suc n) (x ∷ xs) = omega (arith, length-drop n xs)

-- The bytes that are still to be read.
abbrev rest : File → ℕ
rest f = length f.bytes - f.pos

-- If the call succeeds, it has read `n` bytes at least.
abbrev Takes : {A : Type 0} → ℕ → File → Outcome (File × (Errno ⊎ A)) → Type 0
Takes n f (done (g, inr _)) = rest g + n ≤ rest f
Takes n f (done (g, inl _)) = Unit {0}
Takes n f blocked = Unit {0}
Takes n f fault = Unit {0}

read_into-Takes : (size n : ℕ) (f : File) → Takes n f (read_into size n f)
unfolding read_into
read_into-Takes size n f =
    let xs = take n (drop f.pos f.bytes) in
    elim (Bool-cases (ltb size (length xs))) [
      | inl q ↦ rw q tt
      | inr q ↦ elim (Bool-cases (length xs == n)) [
        | inl r ↦
            let e : length xs ≡ n = (==_iff (length xs) n).0 r in
            rw (q, r)
              (omega (arith, e, length-take n (drop f.pos f.bytes), length-drop f.pos f.bytes))
        | inr r ↦ rw (q, r) tt
      ]
    ]

Takes-le :
    {A : Type 0} (m n : ℕ) (f : File) (o : Outcome (File × (Errno ⊎ A)))
    → m ≤ n
    → Takes n f o
    → Takes m f o
Takes-le m n f (done (g, inr _)) h t = omega (arith, h, t)
Takes-le m n f (done (g, inl _)) h t = tt
Takes-le m n f blocked h t = tt
Takes-le m n f fault h t = tt

onward :
    {B : Type 0} (m n : ℕ) (f g : File) (o : Outcome (File × (Errno ⊎ B)))
    → rest g + m ≤ rest f
    → Takes n g o
    → Takes (m + n) f o
onward m n f g (done (x, inr _)) h t = omega (arith, h, t)
onward m n f g (done (x, inl _)) h t = tt
onward m n f g blocked h t = tt
onward m n f g fault h t = tt

run_on-Takes :
    {A B : Type 0} (m n : ℕ) (f : File) (o : Outcome (File × (Errno ⊎ A))) (k : A → Io B)
    → Takes m f o
    → ((a : A) (g : File) → Takes n g (k a g))
    → Takes (m + n) f (run_on o k)
run_on-Takes m n f (done (g, inr a)) k t h = onward m n f g (k a g) t (h a g)
run_on-Takes m n f (done (g, inl e)) k t h = tt
run_on-Takes m n f blocked k t h = tt
run_on-Takes m n f fault k t h = tt

read_tag_and_len-Takes : (f : File) → Takes 2 f (read_tag_and_len f)
unfolding read_tag_and_len
read_tag_and_len-Takes f =
    let last : List ℕ → List ℕ → Io (ℕ × ℕ) = λ t l.
      if ltb (get_or l 0 0) 128
      then pure (get_or t 0 0, get_or l 0 0)
      else (read_into 4 (get_or l 0 0 - 128) >>= λ xs. pure (get_or t 0 0, le xs)) in
    let len : List ℕ → Io (ℕ × ℕ) = λ t. read_into 1 1 >>= last t in
    let ends : (t l : List ℕ) (g : File) → Takes 0 g (last t l g) = λ t l g.
      elim (Bool-cases (ltb (get_or l 0 0) 128)) [
        | inl q ↦ rw q (omega arith)
        | inr q ↦
            let n = get_or l 0 0 - 128 in
            rw q (
              Takes-le 0 (n + 0) g (run_on (read_into 4 n g) (λ xs. pure (get_or t 0 0, le xs)))
                (omega arith)
                (run_on-Takes n 0 g (read_into 4 n g) (λ xs. pure (get_or t 0 0, le xs))
                  (read_into-Takes 4 n g) (λ xs h. omega arith)))
      ] in
    run_on-Takes 1 1 f (read_into 1 1 f) len (read_into-Takes 1 1 f)
      (λ t g. run_on-Takes 1 0 g (read_into 1 1 g) (last t) (read_into-Takes 1 1 g) (ends t))

-- The loop has not run out of fuel.
abbrev pub Ends : Outcome (File × (Errno ⊎ Option ℕ)) → Type 0
Ends (done (g, inr none)) = ⊥
Ends (done (g, inr (some n))) = Unit {0}
Ends (done (g, inl e)) = Unit {0}
Ends blocked = Unit {0}
Ends fault = Unit {0}

run_on-Ends :
    {A : Type 0} (n : ℕ) (f : File) (o : Outcome (File × (Errno ⊎ A))) (k : A → Io (Option ℕ))
    → Takes n f o
    → ((a : A) (g : File) → rest g + n ≤ rest f → Ends (k a g))
    → Ends (run_on o k)
run_on-Ends n f (done (g, inr a)) k t h = h a g t
run_on-Ends n f (done (g, inl e)) k t h = tt
run_on-Ends n f blocked k t h = tt
run_on-Ends n f fault k t h = tt

-- The loop of __num_headers ends, whatever the file holds and wherever it stands: given more turns
-- than there are bytes left in the file, it never comes to the end of its turns.
pub count_headers-Ends :
    (fuel tag count : ℕ) (f : File)
    → length f.bytes - f.pos < fuel
    → Ends (count_headers fuel tag count f)
unfolding count_headers
count_headers-Ends zero tag count f h = absurd (omega (arith, h))
count_headers-Ends (suc fuel) tag count f h = elim (Bool-cases (tag == trace_block)) [
  | inl q ↦ rw q tt
  | inr q ↦
      let k : ℕ × ℕ → Io (Option ℕ) = λ p.
        if ltb 512 (p.1)
        then fail enomem
        else if p.1 == 0
        then count_headers fuel (p.0) (count + 1)
        else (read_into 512 (p.1) >>= λ xs. count_headers fuel (p.0) (count + 1)) in
      let turn : (p : ℕ × ℕ) (g : File) → rest g + 2 ≤ rest f → Ends (k p g) = λ p g l.
        elim (Bool-cases (ltb 512 (p.1))) [
          | inl r ↦ rw r tt
          | inr r ↦ elim (Bool-cases (p.1 == 0)) [
            | inl z ↦ rw (r, z) (count_headers-Ends fuel (p.0) (count + 1) g (omega (arith, h, l)))
            | inr z ↦
                rw (r, z)
                  (run_on-Ends (p.1) g (read_into 512 (p.1) g)
                    (λ xs. count_headers fuel (p.0) (count + 1)) (read_into-Takes 512 (p.1) g)
                    (λ xs x m.
                      count_headers-Ends fuel (p.0) (count + 1) x (omega (arith, h, l, m))))
          ]
        ] in
      rw q (run_on-Ends 2 f (read_tag_and_len f) k (read_tag_and_len-Takes f) turn)
]
