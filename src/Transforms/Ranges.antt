-- ===== src/Transforms/Ranges.antt =====
-- The transformations that change the extent of a set: append and narrow.
use libtrs.Base.{
  ℕ, ◌+◌, ◌-◌, ◌%◌, ◌^◌, ◌<◌, ◌≤◌, ◌≡◌, refl, ap, sym, ◌∙◌, ltb, lt→ltb, ◌==◌, ==_iff,
  if◌then◌else◌, Bool, true, false, ◌||◌, not, Option, none, some, List, length, take, drop, ◌⊎◌,
  inl, inr, Errno, einval, enomem, ok, err, done, ◌>>=◌, Returns, Returns-bind, arith,
}
use mathlib.Core.Option
use libtrs.Types.{Trace}
use libtrs.Traces.{Buffers}
use libtrs.Transforms.{
  Buffer, null, Target, Memory, Geometry, Source, Written, copy_title, copy_data, contents,
}
use libtrs.Transforms.Kinds.{
  Narrow, nop_init, empty, append_init, append_copy, append_get, narrow_init, narrow_samples,
  narrow_copy, narrow_get,
}
use libtrs.Transforms.Copies.{
  IsLawful, SameSizes, HasSize, Passed, missing, copied, starved, buffer_of, copy_of, lacks,
  lacks_for, copy_all_lem, copy-HasSize, IsSized, passthrough-Passed,
}

all_checks :
    {A : Type 0} (a b c : Bool) (e : Errno) (x y : A)
    → (if not a || (not b || not c) then inl e else inr x) ≡ inr y
    → (a ≡ true) × (b ≡ true) × (c ≡ true) × (x ≡ y)
all_checks true true true e x y h = (refl, refl, refl, cc)
all_checks true true false e x y h = absurd cc
all_checks true false c e x y h = absurd cc
all_checks false b c e x y h = absurd cc

-- The sizes of the set before an append, and of the appended set, are those of the result.
append_init-SameSizes :
    (app prev set : Geometry)
    → append_init (inr app) prev ≡ inr set
    → SameSizes set prev × SameSizes set app
unfolding append_init
append_init-SameSizes app prev set h =
    let (a, b, c, e) =
      all_checks (app.num_samples == prev.num_samples) (app.title_size == prev.title_size)
        (app.data_size == prev.data_size) einval _ set h in
    let a' = (==_iff app.num_samples prev.num_samples).0 a in
    let b' = (==_iff app.title_size prev.title_size).0 b in
    let c' = (==_iff app.data_size prev.data_size).0 c in
    (
      record {
        title = ap (λ x. x.title_size) (sym e);
        bytes = ap (λ x. x.data_size) (sym e);
        samples = ap (λ x. x.num_samples) (sym e);
      },
      record {
        title = ap (λ x. x.title_size) (sym e) ∙ sym b';
        bytes = ap (λ x. x.data_size) (sym e) ∙ sym c';
        samples = ap (λ x. x.num_samples) (sym e) ∙ sym a';
      },
    )

module _ {S : Type 0} (src app : Source S) (law : IsLawful src) (law' : IsLawful app) (mem : Memory)
    (set : Geometry) where
  append_copy-Passed :
      (s s' : S) (i : ℕ) (t : Trace)
      → SameSizes set app.geometry
      → law'.IsGood s'
      → law'.promise i ≡ some (contents t)
      → law'.users s' ≡ law'.users s + 1
      → Returns (append_copy app set mem s' t empty) (λ w.
        (law'.IsGood w.state × (law'.users w.state ≡ law'.users s))
        × Passed mem (law'.promise i) w.status w.target)
  unfolding append_copy
  append_copy-Passed s s' i t same good p u =
      elim (copy_all_lem mem set app.geometry (contents t) same (law'.sized i (contents t) p)) [
        | inl (l, e) ↦ rw e (
            Returns-bind _ _ (app.release s' t) _ (law'.release_law s' t (law'.users s) good u)
              (λ z h. (h, copied (contents t) p l refl refl)))
        | inr (l, (t', e, (freed, f))) ↦
            rw (e, f)
              (Returns-bind _ _ (app.release s' t) _ (law'.release_law s' t (law'.users s) good u)
                (λ z h. (h, starved (contents t) p l refl)))
      ]

  append_late :
      (s : S) (i : ℕ)
      → SameSizes set app.geometry
      → law'.IsGood s
      → Returns {A = Written S}
          (app.get s i >>= λ r. elim (r.1) [
            | inl e ↦ done (record { state = r.0; status = err e; target = empty })
            | inr prev_trace ↦ append_copy app set mem (r.0) prev_trace empty
          ])
          (λ w.
            (law'.IsGood w.state × (law'.users w.state ≡ law'.users s))
            × Passed mem (law'.promise i) w.status w.target)
  append_late s i same good = Returns-bind _ _ (app.get s i) _ (law'.get_law s i good) (λ r h.
      elim (h.1) [
        | inl (t, e, p, u) ↦ rw e (append_copy-Passed s (r.0) i t same (h.0) p u)
        | inr (x, e, p, u) ↦ rw e ((h.0, u), missing x p refl refl)
      ])

  -- At a set that tfm_append has joined from two of equal sizes, an index below the number of
  -- traces of the first is served from the first as by tfm_nop, and one from there on from the
  -- second, at the index less that number. Either way the call returns, and nothing is kept of what
  -- was taken.
  pub append_get-Passed :
      (s : S) (i : ℕ)
      → append_init (inr app.geometry) src.geometry ≡ inr set
      → (i < src.geometry.num_traces
          → law.IsGood s
          → Returns (append_get src app set mem s i empty) (λ w.
            (law.IsGood w.state × (law.users w.state ≡ law.users s))
            × Passed mem (law.promise i) w.status w.target))
        × (src.geometry.num_traces ≤ i
            → law'.IsGood s
            → Returns (append_get src app set mem s i empty) (λ w.
              (law'.IsGood w.state × (law'.users w.state ≡ law'.users s))
              × Passed mem (law'.promise (i - src.geometry.num_traces)) w.status w.target))
  unfolding append_get
  append_get-Passed s i joined =
      let sizes = append_init-SameSizes app.geometry src.geometry set joined in
      (
        λ l good.
            rw (lt→ltb i src.geometry.num_traces l)
              (passthrough-Passed src law mem set (sizes.0) s i good),
        λ l good.
            let n : ltb i src.geometry.num_traces ≡ false = ground arith in
            rw n (append_late s (i - src.geometry.num_traces) (sizes.1) good),
      )

-- The samples that narrow keeps.
abbrev pub narrowed : Narrow → Buffers → Buffers
narrowed tfm b = record b {
  samples = Option.map (λ xs. take tfm.num_samples (drop tfm.first_sample xs)) b.samples;
}

module _ {S : Type 0} (src : Source S) (law : IsLawful src) (mem : Memory) (tfm : Narrow) where
  -- The set that narrow_init lays out.
  abbrev narrow_set : Geometry
  narrow_set = narrow_init tfm src.geometry

  abbrev cut : Option (List ℕ) → Option (List ℕ)
  cut o = Option.map (λ xs. take tfm.num_samples (drop tfm.first_sample xs)) o

  narrow_samples_lem :
      (alloc : Bool) (x y : Buffer) (title bytes o : Option (List ℕ))
      → HasSize src.geometry.num_samples o
      → tfm.first_sample + tfm.num_samples ≤ src.geometry.num_samples
      → ((lacks_for alloc (cut o) ≡ false)
          × (narrow_samples alloc tfm narrow_set
                (record { title = x; bytes = y; samples = null })
                (record { title = title; bytes = bytes; samples = o })
              ≡ done (ok, record { title = x; bytes = y; samples = buffer_of (cut o) })))
        ⊎ ((lacks_for alloc (cut o) ≡ true)
            × (narrow_samples alloc tfm narrow_set
                  (record { title = x; bytes = y; samples = null })
                  (record { title = title; bytes = bytes; samples = o })
                ≡ done (err enomem, record { title = x; bytes = y; samples = null })))
  unfolding narrow_samples narrow_init
  narrow_samples_lem alloc x y title bytes none h fits = inl (refl, refl)
  narrow_samples_lem false x y title bytes (some xs) h fits = inr (refl, refl)
  narrow_samples_lem true x y title bytes (some xs) h fits =
      let f : ltb (length xs) (tfm.first_sample + tfm.num_samples) ≡ false = ground arith in
      inl (refl, rw f)

  narrow_copy_lem :
      (b : Buffers)
      → IsSized src.geometry b
      → tfm.first_sample + tfm.num_samples ≤ src.geometry.num_samples
      → ((lacks mem (narrowed tfm b) ≡ false)
          × (narrow_copy narrow_set src.geometry mem tfm empty b
              ≡ done (ok, copy_of (narrowed tfm b))))
        ⊎ ((lacks mem (narrowed tfm b) ≡ true)
            × ((t : Target) × (narrow_copy narrow_set src.geometry mem tfm empty b
                  ≡ done (err enomem, t))))
  unfolding narrow_copy copy_title copy_data narrow_init nop_init
  narrow_copy_lem b sized fits =
      let g = src.geometry in
      elim (copy-HasSize mem.for_title g.title_size g.title_size b.title refl sized.title) [
        | inr (l, e) ↦ inr (rw l, (empty, rw e))
        | inl (l, e) ↦
            elim (copy-HasSize mem.for_bytes g.data_size g.data_size b.bytes refl sized.bytes) [
              | inr (l', e') ↦
                  inr (rw (l, l'), (record empty { title = buffer_of b.title }, rw (e, e')))
              | inl (l', e') ↦
                  elim (narrow_samples_lem mem.for_samples (buffer_of b.title) (buffer_of b.bytes)
                    b.title b.bytes b.samples sized.samples fits) [
                      | inr (l2, e2) ↦
                          inr (
                            rw (l, l', l2),
                            (record (copy_of b) { samples = null }, rw (e, e', e2)),
                          )
                      | inl (l2, e2) ↦ inl (rw (l, l', l2), rw (e, e', e2))
                    ]
            ]
      ]

  -- If the samples that narrow keeps lie within those of the set before, tfm_narrow's get of a
  -- trace with no buffers returns, with as many traces of the set before in use as before; it ends
  -- as tfm_nop does for the trace that is first_trace further on, with the samples from
  -- first_sample on in place of all.
  pub narrow_get-Passed :
      (s : S) (i : ℕ)
      → law.IsGood s
      → tfm.first_sample + tfm.num_samples ≤ src.geometry.num_samples
      → Returns (narrow_get src (narrow_init tfm src.geometry) mem tfm s i empty) (λ w.
        (law.IsGood w.state × (law.users w.state ≡ law.users s))
        × Passed mem
            (Option.map (narrowed tfm) (law.promise ((i + tfm.first_trace) % 2 ^ 64)))
            w.status
            w.target)
  unfolding narrow_get
  narrow_get-Passed s i good fits =
      let j = (i + tfm.first_trace) % 2 ^ 64 in
      Returns-bind _ _ (src.get s j) _ (law.get_law s j good) (λ r h. elim (h.1) [
        | inl (t, e, p, u) ↦
            let q : Option.map (narrowed tfm) (law.promise j) ≡ some (narrowed tfm (contents t)) =
              ap (Option.map (narrowed tfm)) p in
            elim (narrow_copy_lem (contents t) (law.sized j (contents t) p) fits) [
              | inl (l, a) ↦
                  rw (e, a)
                    (Returns-bind _ _ (src.release (r.0) t) _
                      (law.release_law (r.0) t (law.users s) (h.0) u)
                      (λ z k. (k, copied (narrowed tfm (contents t)) q l refl refl)))
              | inr (l, (t', a)) ↦
                  rw (e, a)
                    (Returns-bind _ _ (src.release (r.0) t) _
                      (law.release_law (r.0) t (law.users s) (h.0) u)
                      (λ z k. (k, starved (narrowed tfm (contents t)) q l refl)))
            ]
        | inr (x, e, p, u) ↦ rw e ((h.0, u), missing x (ap (Option.map (narrowed tfm)) p) refl refl)
      ])
