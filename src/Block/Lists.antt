-- ===== src/Block/Lists.antt =====
-- What the searches of the list of blocks do to the sums over it.
use libtrs.Base.{
  ℕ, ◌+◌, ◌<◌, ◌≡◌, refl, sym, ap, Bool-cases, inl, inr, true, Option, none, some, List, [], ◌∷◌,
  ◌++◌, length, bit, total, Status, arith,
}
use libtrs.Block.{Consumer, MetaBlock, accumulated, behind_block, accumulate_into}
use libtrs.Block.Gets.{is_result, find_result, set_result, delete_result}

-- The entries of a list that are done, with an index.
abbrev pub results : {K : Type 0} → ℕ → MetaBlock K → ℕ
results i b = bit (is_result i b)

-- A list with the same indices.
pub record Alike {K : Type 0} (bs bs' : List (MetaBlock K)) : Type 0 where
  pub size : length bs' ≡ length bs
  pub sums : (i : ℕ) → total (results i) bs' ≡ total (results i) bs

-- What the search says, with the list that an `accumulate` leaves.
abbrev pub Joins : {K : Type 0} → List (MetaBlock K) → Option (Status × List (MetaBlock K)) → Type 0
Joins bs none = Unit {0}
Joins bs (some (st, bs')) = Alike bs bs'

accumulated-Joins :
    {K : Type 0} (b : MetaBlock K) (bs : List (MetaBlock K)) (r : Status × K)
    → Joins (b ∷ bs) (some (accumulated b bs r))
accumulated-Joins b bs (st, k) = record { size = refl; sums = λ i. refl }

behind_block-Joins :
    {K : Type 0} (b : MetaBlock K) (bs : List (MetaBlock K))
    (o : Option (Status × List (MetaBlock K)))
    → Joins bs o
    → Joins (b ∷ bs) (behind_block b o)
behind_block-Joins b bs none h = tt
behind_block-Joins b bs (some (st, bs')) h = record {
  size = omega (arith, h.size);
  sums = λ i. omega (arith, h.sums i);
}

pub accumulate_into-Joins :
    {T K R : Type 0} (c : Consumer T K R) (t : T) (bs : List (MetaBlock K))
    → Joins bs (accumulate_into c t bs)
unfolding accumulate_into
accumulate_into-Joins c t [] = tt
accumulate_into-Joins c t (b ∷ bs) = elim (Bool-cases (c.trace_matches t b.block)) [
  | inl q ↦ rw q (accumulated-Joins b bs (c.accumulate t b.block))
  | inr q ↦ rw q (behind_block-Joins b bs (accumulate_into c t bs) (accumulate_into-Joins c t bs))
]

module _ {K : Type 0} where
  pub total-append :
      (f : MetaBlock K → ℕ) (bs : List (MetaBlock K)) (b : MetaBlock K)
      → total f (bs ++ (b ∷ [])) ≡ total f bs + f b
  total-append f [] b = omega arith
  total-append f (x ∷ bs) b = omega (arith, total-append f bs b)

  pub length-append :
      (bs : List (MetaBlock K)) (b : MetaBlock K) → length (bs ++ (b ∷ [])) ≡ length bs + 1
  length-append [] b = refl
  length-append (x ∷ bs) b = omega (arith, length-append bs b)

  pub record Located (i : ℕ) (bs : List (MetaBlock K)) (b : MetaBlock K) : Type 0 where
    pub fits : is_result i b ≡ true
    pub set_size : (b' : MetaBlock K) → length (set_result i b' bs) ≡ length bs
    pub set_sums :
        (f : MetaBlock K → ℕ) (b' : MetaBlock K)
        → total f (set_result i b' bs) + f b ≡ total f bs + f b'
    pub del_size : length (delete_result i bs) + 1 ≡ length bs
    pub del_sums : (f : MetaBlock K → ℕ) → total f (delete_result i bs) + f b ≡ total f bs

  -- What the search finds is in the list, once.
  pub find_result-Located :
      (i : ℕ) (bs : List (MetaBlock K)) (b : MetaBlock K)
      → find_result i bs ≡ some b
      → Located i bs b
  unfolding find_result set_result delete_result
  find_result-Located i [] b e = absurd cc
  find_result-Located i (x ∷ bs) b e = elim (Bool-cases (is_result i x)) [
    | inl q ↦
        let same : x ≡ b = ground (arith, e, q) in
        rw (sym same) (record {
          fits = q;
          set_size = λ b'. rw q refl;
          set_sums = λ f b'. rw q (omega arith);
          del_size = rw q (omega arith);
          del_sums = λ f. rw q (omega arith);
        })
    | inr q ↦
        let h = find_result-Located i bs b (ground (arith, e, q)) in
        record {
          fits = h.fits;
          set_size = λ b'. rw q (omega (arith, h.set_size b'));
          set_sums = λ f b'. rw q (omega (arith, h.set_sums f b'));
          del_size = rw q (omega (arith, h.del_size));
          del_sums = λ f. rw q (omega (arith, h.del_sums f));
        }
  ]

  -- The entry that was set is the one that the search finds next.
  pub find_result-set_result :
      (i : ℕ) (bs : List (MetaBlock K)) (b b' : MetaBlock K)
      → find_result i bs ≡ some b
      → is_result i b' ≡ true
      → find_result i (set_result i b' bs) ≡ some b'
  unfolding find_result set_result
  find_result-set_result i [] b b' e h = absurd cc
  find_result-set_result i (x ∷ bs) b b' e h = elim (Bool-cases (is_result i x)) [
    | inl q ↦ rw (q, h) refl
    | inr q ↦ rw (q, q) (find_result-set_result i bs b b' (ground (arith, e, q)) h)
  ]

  -- The search finds an entry if there is one.
  pub find_result-some :
      (i : ℕ) (bs : List (MetaBlock K))
      → 0 < total (results i) bs
      → (b : MetaBlock K) × (find_result i bs ≡ some b)
  unfolding find_result
  find_result-some i [] h = absurd (omega (arith, h))
  find_result-some i (x ∷ bs) h = elim (Bool-cases (is_result i x)) [
    | inl q ↦ (x, rw q refl)
    | inr q ↦ let (b, e) = find_result-some i bs (omega (arith, h, ap bit q)) in (b, rw q e)
  ]
