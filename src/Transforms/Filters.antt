-- ===== src/Transforms/Filters.antt =====
-- The transformations that pass a trace or give an empty one: split_tvla and verify.
use libtrs.Base.{
  ℕ, ◌+◌, ◌≡◌, refl, ap, ◌∙◌, if◌then◌else◌, Bool, true, false, Bool-cases, none, some, List, ◌⊎◌,
  inl, inr, Errno, Status, ok, err, done, ◌>>=◌, Returns, Returns-bind, Returns-imp,
}
use mathlib.Core.Path.{subst}
use libtrs.Traces.{Buffers}
use libtrs.Transforms.{Target, Memory, Source, passthrough}
use libtrs.Transforms.Kinds.{
  empty, same, nop_init, get_trace_type, split_tvla_pass, split_tvla_init, split_tvla_get,
  verify_init, verify_generic, verify_get,
}
use libtrs.Transforms.Copies.{IsLawful, Passed, passthrough-Passed}
use libtrs.Transforms.Gets.{taken, nop_init-SameSizes}

-- An empty trace, which stands for one that is not in the set.
abbrev pub IsEmptied : Status → Target → Type 0
IsEmptied status target = (status ≡ ok) × (target ≡ empty)

module _ {S : Type 0} (src : Source S) (law : IsLawful src) (mem : Memory) where
  -- `passthrough` where the set before has the trace.
  passes :
      (s : S) (i : ℕ) (b : Buffers) (n : ℕ)
      → law.IsGood s
      → law.promise i ≡ some b
      → law.users s ≡ n
      → Returns (passthrough src (nop_init src.geometry) mem s i empty) (λ w.
        law.IsGood w.state × (law.users w.state ≡ n) × Passed mem (some b) w.status w.target)
  passes s i b n good p u =
      Returns-imp _ _ (passthrough src (nop_init src.geometry) mem s i empty)
        (λ w h. (h.0.0, h.0.1 ∙ u, subst (λ q. Passed mem q w.status w.target) p (h.1)))
        (passthrough-Passed src law mem (nop_init src.geometry) (nop_init-SameSizes src.geometry) s
          i good)

  -- How split_tvla ends for a type of the trace.
  abbrev pub Splits : Bool → Buffers → Errno ⊎ Bool → Status → Target → Type 0
  Splits which b (inl e) status target = status ≡ err e
  Splits which b (inr fixed) status target =
      if same fixed which then Passed mem (some b) status target else IsEmptied status target

  split_tvla_pass-Splits :
      (which : Bool) (s : S) (i : ℕ) (b : Buffers) (type : Errno ⊎ Bool)
      → law.IsGood s
      → law.promise i ≡ some b
      → Returns (split_tvla_pass src (split_tvla_init src.geometry) mem which s i empty type) (λ w.
        law.IsGood w.state
        × (law.users w.state ≡ law.users s)
        × Splits which b type w.status w.target)
  unfolding split_tvla_pass split_tvla_init
  split_tvla_pass-Splits which s i b (inl e) good p = (good, refl, refl)
  split_tvla_pass-Splits which s i b (inr fixed) good p = elim (Bool-cases (same fixed which)) [
    | inl y ↦ rw y (passes s i b (law.users s) good p refl)
    | inr n ↦ rw n (good, refl, (refl, refl))
  ]

  -- If the set before has the trace and its title is long enough to tell its type, tfm_split_tvla's
  -- get returns, with as many traces of the set before in use as before. It is EINVAL for a title
  -- of neither type; a trace of the type asked for ends as in tfm_nop, and one of the other is
  -- empty.
  pub split_tvla_get-Splits :
      (which : Bool) (s : S) (i : ℕ) (b : Buffers) (type : Errno ⊎ Bool)
      → law.IsGood s
      → law.promise i ≡ some b
      → get_trace_type b.title true ≡ done type
      → Returns (split_tvla_get src (split_tvla_init src.geometry) mem which s i empty) (λ w.
        law.IsGood w.state
        × (law.users w.state ≡ law.users s)
        × Splits which b type w.status w.target)
  unfolding split_tvla_get
  split_tvla_get-Splits which s i b type good p ty =
      taken src law mem s i b _
        (λ s' t. get_trace_type t.title true >>= λ type.
          split_tvla_pass src (split_tvla_init src.geometry) mem which s' i empty type >>= λ w.
          src.release w.state t >>= λ s''. done (record w { state = s'' }))
        _ good p
        (λ s' t good' c u. rw (ap (λ x. get_trace_type x.title true) c ∙ ty) (
          Returns-bind _ _
            (split_tvla_pass src (split_tvla_init src.geometry) mem which s' i empty type) _
            (split_tvla_pass-Splits which s' i b type good' p)
            (λ w h.
              Returns-bind _ _ (src.release w.state t) _
                (law.release_law w.state t (law.users s) (h.0) (h.1 ∙ u))
                (λ z k. (k.0, k.1, h.2)))))

  -- How verify ends for the data of the trace.
  abbrev pub Verifies : (List ℕ → Bool) → Buffers → List ℕ → Status → Target → Type 0
  Verifies check b bytes status target =
      if check bytes then Passed mem (some b) status target else IsEmptied status target

  verify_generic_checks :
      (check : List ℕ → Bool) (s : S) (i : ℕ) (b : Buffers) (bytes : List ℕ)
      → law.IsGood s
      → law.promise i ≡ some b
      → b.bytes ≡ some bytes
      → Returns
          (verify_generic src check s i)
          (λ r. law.IsGood (r.0) × (law.users (r.0) ≡ law.users s) × (r.1 ≡ inr (check bytes)))
  unfolding verify_generic
  verify_generic_checks check s i b bytes good p eb =
      taken src law mem s i b _
        (λ s' t. elim t.bytes [
          | some bytes ↦ src.release s' t >>= λ s''. done (s'', inr (check bytes))
          | none ↦ done (s', inr false)
        ])
        _ good p
        (λ s' t good' c u.
          let e : t.bytes ≡ some bytes = ap (λ x. x.bytes) c ∙ eb in
          rw e (
            Returns-bind _ _ (src.release s' t) _ (law.release_law s' t (law.users s) good' u)
              (λ z h. (h.0, h.1, refl))))

  verify_generic_leaks :
      (check : List ℕ → Bool) (s : S) (i : ℕ) (b : Buffers)
      → law.IsGood s
      → law.promise i ≡ some b
      → b.bytes ≡ none
      → Returns
          (verify_generic src check s i)
          (λ r. law.IsGood (r.0) × (law.users (r.0) ≡ law.users s + 1) × (r.1 ≡ inr false))
  unfolding verify_generic
  verify_generic_leaks check s i b good p eb =
      taken src law mem s i b _
        (λ s' t. elim t.bytes [
          | some bytes ↦ src.release s' t >>= λ s''. done (s'', inr (check bytes))
          | none ↦ done (s', inr false)
        ])
        _ good p
        (λ s' t good' c u.
          let e : t.bytes ≡ none = ap (λ x. x.bytes) c ∙ eb in rw e (good', u, refl))

  -- If the set before has the trace, with data, tfm_verify's get returns, with as many traces of
  -- the set before in use as before. A trace whose data passes the check ends as in tfm_nop, and
  -- one whose data does not is empty.
  pub verify_get-Verifies :
      (check : List ℕ → Bool) (s : S) (i : ℕ) (b : Buffers) (bytes : List ℕ)
      → law.IsGood s
      → law.promise i ≡ some b
      → b.bytes ≡ some bytes
      → Returns (verify_get src check (verify_init src.geometry) mem s i empty) (λ w.
        law.IsGood w.state
        × (law.users w.state ≡ law.users s)
        × Verifies check b bytes w.status w.target)
  unfolding verify_get verify_init
  verify_get-Verifies check s i b bytes good p eb =
      Returns-bind _ _ (verify_generic src check s i) _
        (verify_generic_checks check s i b bytes good p eb)
        (λ r h. elim (Bool-cases (check bytes)) [
          | inl y ↦ rw (h.2, y) (passes (r.0) i b (law.users s) (h.0) p (h.1))
          | inr n ↦ rw (h.2, n) (h.0, h.1, (refl, refl))
        ])

  -- If the set before has the trace, and it has no data, tfm_verify's get gives an empty trace and
  -- keeps the trace of the set before: it is in use for ever.
  pub verify_get_leak :
      (check : List ℕ → Bool) (s : S) (i : ℕ) (b : Buffers)
      → law.IsGood s
      → law.promise i ≡ some b
      → b.bytes ≡ none
      → Returns (verify_get src check (verify_init src.geometry) mem s i empty) (λ w.
        law.IsGood w.state × (law.users w.state ≡ law.users s + 1) × IsEmptied w.status w.target)
  unfolding verify_get verify_init
  verify_get_leak check s i b good p eb =
      Returns-bind _ _ (verify_generic src check s i) _ (verify_generic_leaks check s i b good p eb)
        (λ r h. rw (h.2) (h.0, h.1, (refl, refl)))
