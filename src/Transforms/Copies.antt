-- ===== src/Transforms/Copies.antt =====
-- Copies of buffers between sets of the same sizes, and `passthrough`, over a set that keeps its
-- promise.
use libtrs.Base.{
  ℕ, ◌+◌, ◌≡◌, refl, ap, sym, ◌∙◌, ltb, ==_refl, Bool, true, false, ◌||◌, not, Option, none, some,
  List, [], ◌∷◌, length, take, ◌⊎◌, inl, inr, Errno, enomem, Status, ok, err, done, ◌>>=◌, Returns,
  Returns-bind, arith,
}
use mathlib.Core.Path.{subst}
use libtrs.Types.{Trace}
use libtrs.Traces.{Buffers}
use libtrs.Transforms.{
  Buffer, null, live, dangling, Target, Memory, Geometry, Source, Written, copy, copy_title,
  copy_data, copy_samples, copy_all, free_buffer, hand_over, passthrough, passthrough_free,
  contents,
}
use libtrs.Transforms.Kinds.{empty}

-- A buffer that is there has the size of its set.
abbrev pub HasSize : ℕ → Option (List ℕ) → Type 0
HasSize n none = Unit
HasSize n (some xs) = length xs ≡ n

pub record IsSized (g : Geometry) (b : Buffers) : Type 0 where
  pub title : HasSize g.title_size b.title
  pub bytes : HasSize g.data_size b.bytes
  pub samples : HasSize g.num_samples b.samples

-- A set with a promise: what it gives for an index, `none` for an error. `users` counts the traces
-- that are handed out and not given back.
pub record IsLawful {S : Type 0} (src : Source S) : Type 1 where
  pub IsGood : S → Type 0
  pub users : S → ℕ
  pub promise : ℕ → Option Buffers
  pub sized : (i : ℕ) (b : Buffers) → promise i ≡ some b → IsSized src.geometry b
  pub get_law :
      (s : S) (i : ℕ)
      → IsGood s
      → Returns (src.get s i) (λ r.
        IsGood (r.0)
        × (((t : Trace) × (r.1 ≡ inr t)
              × (promise i ≡ some (contents t))
              × (users (r.0) ≡ users s + 1))
            ⊎ ((e : Errno) × (r.1 ≡ inl e) × (promise i ≡ none) × (users (r.0) ≡ users s))))
  pub release_law :
      (s : S) (t : Trace) (n : ℕ)
      → IsGood s
      → users s ≡ n + 1
      → Returns (src.release s t) (λ s'. IsGood s' × (users s' ≡ n))

-- A copy of a buffer, and of all three.
abbrev pub buffer_of : Option (List ℕ) → Buffer
buffer_of none = null
buffer_of (some xs) = live xs

abbrev pub copy_of : Buffers → Target
copy_of b = record {
  title = buffer_of b.title;
  bytes = buffer_of b.bytes;
  samples = buffer_of b.samples;
}

-- A buffer is there, and there is no memory for its copy.
abbrev pub lacks_for : Bool → Option (List ℕ) → Bool
lacks_for alloc none = false
lacks_for alloc (some xs) = not alloc

abbrev pub lacks : Memory → Buffers → Bool
lacks mem b =
    lacks_for mem.for_title b.title
    || (lacks_for mem.for_bytes b.bytes || lacks_for mem.for_samples b.samples)

take_all : (xs : List ℕ) → take (length xs) xs ≡ xs
take_all [] = refl
take_all (x ∷ xs) = ap (◌∷◌ x) (take_all xs)

copy_exact : (xs : List ℕ) → copy true (length xs) (length xs) null (some xs) ≡ done (ok, live xs)
unfolding copy
copy_exact xs =
    let t : ltb (length xs) (length xs) ≡ false = ground arith in
    rw (==_refl (length xs), t, take_all xs)

copy_whole :
    (n m : ℕ) (xs : List ℕ)
    → m ≡ n
    → length xs ≡ n
    → copy true m n null (some xs) ≡ done (ok, live xs)
copy_whole n m xs e h =
    ap (λ k. copy true k n null (some xs)) (e ∙ sym h)
    ∙ ap (λ k. copy true (length xs) k null (some xs)) (sym h)
    ∙ copy_exact xs

copy_starved :
    (n m : ℕ) (xs : List ℕ) → m ≡ n → copy false m n null (some xs) ≡ done (err enomem, null)
unfolding copy
copy_starved n m xs e = rw (e, ==_refl n)

pub copy-HasSize :
    (alloc : Bool) (n m : ℕ) (o : Option (List ℕ))
    → m ≡ n
    → HasSize n o
    → ((lacks_for alloc o ≡ false) × (copy alloc m n null o ≡ done (ok, buffer_of o)))
      ⊎ ((lacks_for alloc o ≡ true) × (copy alloc m n null o ≡ done (err enomem, null)))
unfolding copy
copy-HasSize alloc n m none e h = inl (refl, rw (e, ==_refl n))
copy-HasSize false n m (some xs) e h = inr (refl, copy_starved n m xs e)
copy-HasSize true n m (some xs) e h = inl (refl, copy_whole n m xs e h)

freeable : (o : Option (List ℕ)) → (x : Buffer) × (free_buffer (buffer_of o) ≡ done x)
unfolding free_buffer
freeable none = (null, refl)
freeable (some xs) = (dangling, refl)

-- What is copied can be freed.
pub passthrough_free-copy :
    (b : Buffers) → (freed : Target) × (passthrough_free (copy_of b) ≡ done freed)
unfolding passthrough_free
passthrough_free-copy b = (
  record {
    title = (freeable b.title).0;
    bytes = (freeable b.bytes).0;
    samples = (freeable b.samples).0;
  },
  rw ((freeable b.title).1, (freeable b.bytes).1, (freeable b.samples).1),
)

-- Copies can be made between the sets.
pub record SameSizes (to_set from_set : Geometry) : Type 0 where
  pub title : to_set.title_size ≡ from_set.title_size
  pub bytes : to_set.data_size ≡ from_set.data_size
  pub samples : to_set.num_samples ≡ from_set.num_samples

module _ (mem : Memory) (to_set from_set : Geometry) (b : Buffers)
    (same : SameSizes to_set from_set) (sized : IsSized from_set b) where
  pub copy_all_lem :
      ((lacks mem b ≡ false) × (copy_all mem to_set from_set empty b ≡ done (ok, copy_of b)))
      ⊎ ((lacks mem b ≡ true)
          × ((t : Target) × (copy_all mem to_set from_set empty b ≡ done (err enomem, t))
              × ((freed : Target) × (passthrough_free t ≡ done freed))))
  unfolding copy_title copy_data copy_samples
  copy_all_lem =
      elim (copy-HasSize mem.for_title from_set.title_size to_set.title_size b.title same.title
        sized.title) [
          | inr (l, e) ↦ inr (
            rw l,
            (
              empty,
              rw e,
              passthrough_free-copy (record b { title = none; bytes = none; samples = none }),
            ),
          )
          | inl (l, e) ↦
              elim (copy-HasSize mem.for_bytes from_set.data_size to_set.data_size b.bytes
                same.bytes sized.bytes) [
                  | inr (l', e') ↦ inr (
                    rw (l, l'),
                    (
                      record empty { title = buffer_of b.title },
                      rw (e, e'),
                      passthrough_free-copy (record b { bytes = none; samples = none }),
                    ),
                  )
                  | inl (l', e') ↦
                      elim (copy-HasSize mem.for_samples from_set.num_samples to_set.num_samples
                        b.samples same.samples sized.samples) [
                          | inr (l2, e2) ↦ inr (
                            rw (l, l', l2),
                            (
                              record (copy_of b) { samples = null },
                              rw (e, e', e2),
                              passthrough_free-copy (record b { samples = none }),
                            ),
                          )
                          | inl (l2, e2) ↦ inl (rw (l, l', l2), rw (e, e', e2))
                        ]
                ]
        ]

-- How a copying `get` can end, for a promise: the error of the set before, a copy, or no memory.
pub data Passed (mem : Memory) (p : Option Buffers) (status : Status) (target : Target)
    : Type 0 where
  missing : (e : Errno) → p ≡ none → status ≡ err e → target ≡ empty → Passed mem p status target
  copied :
      (b : Buffers)
      → p ≡ some b
      → lacks mem b ≡ false
      → status ≡ ok
      → target ≡ copy_of b
      → Passed mem p status target
  starved :
      (b : Buffers)
      → p ≡ some b
      → lacks mem b ≡ true
      → status ≡ err enomem
      → Passed mem p status target

module _ {S : Type 0} (src : Source S) (law : IsLawful src) (mem : Memory) (set : Geometry)
    (same : SameSizes set src.geometry) where
  -- Nothing is kept of what was taken.
  abbrev pub Kept : S → Written S → Type 0
  Kept s w = law.IsGood w.state × (law.users w.state ≡ law.users s)

  hand_over-Passed :
      (s s' : S) (i : ℕ) (t : Trace)
      → law.IsGood s'
      → law.promise i ≡ some (contents t)
      → law.users s' ≡ law.users s + 1
      → Returns
          (hand_over src set mem s' t empty)
          (λ w. Kept s w × Passed mem (law.promise i) w.status w.target)
  unfolding hand_over
  hand_over-Passed s s' i t good p u =
      elim (copy_all_lem mem set src.geometry (contents t) same (law.sized i (contents t) p)) [
        | inl (l, e) ↦ rw e (
            Returns-bind (λ z. law.IsGood z × (law.users z ≡ law.users s))
              (λ w. Kept s w × Passed mem (law.promise i) w.status w.target) (src.release s' t) _
              (law.release_law s' t (law.users s) good u)
              (λ z h. (h, copied (contents t) p l refl refl)))
        | inr (l, (t', e, (freed, f))) ↦
            rw (e, f)
              (Returns-bind (λ z. law.IsGood z × (law.users z ≡ law.users s))
                (λ w. Kept s w × Passed mem (law.promise i) w.status w.target) (src.release s' t) _
                (law.release_law s' t (law.users s) good u)
                (λ z h. (h, starved (contents t) p l refl)))
      ]

  pub passthrough-Passed :
      (s : S) (i : ℕ)
      → law.IsGood s
      → Returns
          (passthrough src set mem s i empty)
          (λ w. Kept s w × Passed mem (law.promise i) w.status w.target)
  unfolding passthrough
  passthrough-Passed s i good = Returns-bind _ _ (src.get s i) _ (law.get_law s i good) (λ r h.
      elim (h.1) [
        | inl (t, e, p, u) ↦ rw e (hand_over-Passed s (r.0) i t (h.0) p u)
        | inr (x, e, p, u) ↦ rw e ((h.0, u), missing x p refl refl)
      ])

  -- The title is copied, and there is no memory for the data.
  copy_all_starved :
      (b : Buffers) (title bytes : List ℕ)
      → IsSized src.geometry b
      → b.title ≡ some title
      → b.bytes ≡ some bytes
      → mem.for_title ≡ true
      → mem.for_bytes ≡ false
      → copy_all mem set src.geometry empty b
        ≡ done (err enomem, record { title = live title; bytes = null; samples = null })
  unfolding copy_title copy_data
  copy_all_starved b title bytes sized et eb mt mb =
      let l : length title ≡ src.geometry.title_size =
        subst (HasSize src.geometry.title_size) et sized.title in
      let w = copy_whole src.geometry.title_size set.title_size title same.title l in
      let v = copy_starved src.geometry.data_size set.data_size bytes same.bytes in
      rw (et, eb, mt, mb, w, v)

  pub hand_over_starved :
      (s : S) (t : Trace) (title bytes : List ℕ)
      → IsSized src.geometry (contents t)
      → t.title ≡ some title
      → t.bytes ≡ some bytes
      → mem.for_title ≡ true
      → mem.for_bytes ≡ false
      → hand_over src set mem s t empty ≡ (
          src.release s t >>= λ s'. done (record {
            state = s';
            status = err enomem;
            target = record { title = dangling; bytes = null; samples = null };
          }))
  unfolding hand_over passthrough_free free_buffer
  hand_over_starved s t title bytes sized et eb mt mb =
      rw (copy_all_starved (contents t) title bytes sized et eb mt mb)
