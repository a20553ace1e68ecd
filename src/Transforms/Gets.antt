-- ===== src/Transforms/Gets.antt =====
-- What the copying transformations give, over a set that keeps its promise.
use libtrs.Base.{
  ℕ, ◌+◌, ◌≡◌, refl, ap, sym, ◌∙◌, true, false, some, List, inl, inr, Errno, enomem, err, Outcome,
  fault, ◌>>=◌, Returns, Returns-bind,
}
use mathlib.Core.Path.{subst}
use libtrs.Types.{Trace}
use libtrs.Traces.{Buffers}
use libtrs.Transforms.{
  Memory, Geometry, Source, free_buffer, hand_over, passthrough, passthrough_free, contents,
}
use libtrs.Transforms.Kinds.{empty, nop_init, nop_get}
use libtrs.Transforms.Copies.{
  IsLawful, IsSized, SameSizes, Passed, passthrough-Passed, hand_over_starved,
}

pub nop_init-SameSizes : (prev : Geometry) → SameSizes (nop_init prev) prev
unfolding nop_init
nop_init-SameSizes prev = record { title = refl; bytes = refl; samples = refl }

-- The trace that the transformations take first.
module _ {S : Type 0} (src : Source S) (law : IsLawful src) (mem : Memory) where
  -- tfm_nop's get of a trace with no buffers returns, with as many traces of the set before in use
  -- as before; it fails where the set before fails, runs out of memory exactly where a calloc of a
  -- buffer that is there fails, and else gives copies of the buffers of the set before.
  pub nop_get-Passed :
      (s : S) (i : ℕ)
      → law.IsGood s
      → Returns (nop_get src (nop_init src.geometry) mem s i empty) (λ w.
        (law.IsGood w.state × (law.users w.state ≡ law.users s))
        × Passed mem (law.promise i) w.status w.target)
  unfolding nop_get
  nop_get-Passed s i good =
      passthrough-Passed src law mem (nop_init src.geometry) (nop_init-SameSizes src.geometry) s i
        good

  -- A transformation that begins with a trace of the set before, where that one succeeds.
  pub taken :
      {A : Type 0} (s : S) (i : ℕ) (b : Buffers) (P : A → Type 0) (f : S → Trace → Outcome A)
      (g : S → Errno → Outcome A)
      → law.IsGood s
      → law.promise i ≡ some b
      → ((s' : S) (t : Trace)
          → law.IsGood s'
          → contents t ≡ b
          → law.users s' ≡ law.users s + 1
          → Returns (f s' t) P)
      → Returns (src.get s i >>= λ r. elim (r.1) [ inl e ↦ g (r.0) e | inr t ↦ f (r.0) t ]) P
  taken s i b P f g good p k = Returns-bind _ P (src.get s i) _ (law.get_law s i good) (λ r h.
      elim (h.1) [
        | inl (t, e, q, u) ↦ let c : contents t ≡ b = cc in rw e (k (r.0) t (h.0) c u)
        | inr (x, e, q, u) ↦ absurd cc
      ])

  -- If memory lasts for the title and not for the data, passthrough frees the title, returns ENOMEM
  -- and leaves the pointer to it; the free function of the transformation, which trace_get calls
  -- then, frees it again.
  pub passthrough_double_free :
      (s : S) (i : ℕ) (b : Buffers) (title bytes : List ℕ)
      → law.IsGood s
      → law.promise i ≡ some b
      → b.title ≡ some title
      → b.bytes ≡ some bytes
      → mem.for_title ≡ true
      → mem.for_bytes ≡ false
      → Returns
          (passthrough src (nop_init src.geometry) mem s i empty)
          (λ w. (w.status ≡ err enomem) × (passthrough_free w.target ≡ fault))
  unfolding passthrough passthrough_free free_buffer
  passthrough_double_free s i b title bytes good p et eb mt mb =
      taken s i b _ (λ s' t. hand_over src (nop_init src.geometry) mem s' t empty) _ good p
        (λ s' t good' c u.
          rw
            (hand_over_starved src law mem (nop_init src.geometry) (nop_init-SameSizes src.geometry)
              s' t title bytes (subst (IsSized src.geometry) (sym c) (law.sized i b p))
              (ap (λ x. x.title) c ∙ et) (ap (λ x. x.bytes) c ∙ eb) mt mb)
            (Returns-bind _ _ (src.release s' t) _ (law.release_law s' t (law.users s) good' u)
              (λ z h. (refl, refl))))
