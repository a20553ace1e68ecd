-- ===== src/Ways/Choice.antt =====
-- The two passes of `tc_store`: which way it takes.
use libtrs.Base.{
  ℕ, suc, ◌+◌, ◌≤◌, ◌≡◌, refl, Bool, forall-cons, true, false, none, some, List, [], ◌∷◌, get_elem?,
  arith, Bool-cases, inl, inr, ◌⊎◌, ◌≢◌, ◌&&◌, ◌↔◌, Option-cases,
}
use mathlib.Core.Path.{subst}
use mathlib.Core.Option.{some-injective}
use libtrs.Ways.{Way, Best, above, pass_from, is_empty, is_idle, choose_way}

module _ (p : Way → Bool) where
  pass_from-none :
      (i : ℕ) (ws : List Way) (best : Best)
      → pass_from p i ws best ≡ none
      → (best ≡ none) × ((j : ℕ) (w : Way) → get_elem? ws j ≡ some w → p w ≡ false)
  unfolding pass_from above
  pass_from-none i [] best e = (e, λ j w h. absurd (cc))
  pass_from-none i (w ∷ ws) best e = elim (Bool-cases (p w && above w.lru best)) [
    | inl t ↦ let ih = pass_from-none (i + 1) ws (some (i, w.lru)) (rw t at e) in absurd (cc (ih.0))
    | inr f ↦
        let ih = pass_from-none (i + 1) ws best (rw f at e) in
        let pw : p w ≡ false = ground (arith, f, ih.0) in
        (ih.0, forall-cons (λ u. p u ≡ false) w ws pw ih.1)
  ]

  -- What a pass over the ways from index `i` on has found, started at `best`.
  record Highest (i : ℕ) (ws : List Way) (best : Best) (k h : ℕ) : Type 0 where
    top : (j : ℕ) (w : Way) → get_elem? ws j ≡ some w → p w ≡ true → w.lru ≤ h
    start : (k0 h0 : ℕ) → best ≡ some (k0, h0) → h0 ≤ h
    at :
        (best ≡ some (k, h))
        ⊎ ((j : ℕ) × (v : Way) × (k ≡ i + j)
            × (get_elem? ws j ≡ some v)
            × (p v ≡ true)
            × (v.lru ≡ h))

  skipped_low :
      (w : Way) (best : Best) (h : ℕ)
      → (p w && above w.lru best) ≡ false
      → ((k0 h0 : ℕ) → best ≡ some (k0, h0) → h0 ≤ h)
      → p w ≡ true
      → w.lru ≤ h
  unfolding above
  skipped_low w none h f start t = absurd (ground (arith, f, t))
  skipped_low w (some (k0, h0)) h f start t = ground (arith, f, t, start k0 h0 refl)

  pass_from-some :
      (i : ℕ) (ws : List Way) (best : Best) (k h : ℕ)
      → pass_from p i ws best ≡ some (k, h)
      → Highest i ws best k h
  unfolding pass_from above
  pass_from-some i [] best k h e = record {
    top = λ j w e' _. absurd (cc);
    start = λ k0 h0 e'. ground arith;
    at = inl e;
  }
  pass_from-some i (w ∷ ws) best k h e = elim (Bool-cases (p w && above w.lru best)) [
    | inl t ↦
        let ih = pass_from-some (i + 1) ws (some (i, w.lru)) k h (rw t at e) in
        let hi = ih.start i w.lru refl in
        record {
          top = forall-cons (λ u. p u ≡ true → u.lru ≤ h) w ws (λ _. hi) ih.top;
          start = λ k0 h0 e'. ground (arith, t, hi);
          at = elim ih.at [
            | inl q ↦ inr (0, w, ground (arith, q), refl, ground (arith, t), ground (arith, q))
            | inr (j, v, a, b, c, d) ↦ inr (suc j, v, omega arith, b, c, d)
          ];
        }
    | inr f ↦
        let ih = pass_from-some (i + 1) ws best k h (rw f at e) in
        record {
          top =
              forall-cons (λ u. p u ≡ true → u.lru ≤ h) w ws (skipped_low w best h f ih.start)
                ih.top;
          start = ih.start;
          at = elim ih.at [
            | inl q ↦ inl q
            | inr (j, v, a, b, c, d) ↦ inr (suc j, v, omega arith, b, c, d)
          ];
        }
  ]

-- A pass that starts with nothing: the way that it finds passes the test, and is of highest rank
-- among those.
record Found (p : Way → Bool) (ws : List Way) (way h : ℕ) (v : Way) : Type 0 where
  stands : get_elem? ws way ≡ some v
  passes : p v ≡ true
  rank : v.lru ≡ h
  most : (j : ℕ) (w : Way) → get_elem? ws j ≡ some w → p w ≡ true → w.lru ≤ h

pass_from-Found :
    (p : Way → Bool) (ws : List Way) (way h : ℕ)
    → pass_from p 0 ws none ≡ some (way, h)
    → (v : Way) × Found p ws way h v
pass_from-Found p ws way h e =
    let s = pass_from-some p 0 ws none way h e in
    elim s.at [
      | inl q ↦ absurd (cc)
      | inr (j, v, a, b, c, d) ↦
          let same : j ≡ way = omega arith in
          (
            v,
            record {
              stands = subst (λ (k : ℕ). get_elem? ws k ≡ some v) same b;
              passes = c;
              rank = d;
              most = s.top;
            },
          )
    ]

-- What `tc_store` may take: an empty way, or, with none empty, one that nobody refers to. And it
-- takes the one of highest rank among those.
pub record Chosen (ws : List Way) (way h : ℕ) (v : Way) : Type 0 where
  pub stands : get_elem? ws way ≡ some v
  pub rank : v.lru ≡ h
  pub candidate :
      (v.valid ≡ false)
      ⊎ (((j : ℕ) (u : Way) → get_elem? ws j ≡ some u → u.valid ≡ true) × (v.refcount ≡ 0))
  pub most :
      (j : ℕ) (w : Way)
      → get_elem? ws j ≡ some w
      → (w.valid ≡ false) ⊎ ((v.valid ≡ true) × (w.refcount ≡ 0))
      → w.lru ≤ h

-- A way that the two passes of tc_store choose is empty, or no way is empty and nobody refers to
-- it; it has the highest rank among the empty ways, or among the unreferenced ones if none is
-- empty.
pub choose_way-some :
    (ws : List Way) (way h : ℕ) → choose_way ws ≡ some (way, h) → (v : Way) × Chosen ws way h v
unfolding choose_way is_empty is_idle
choose_way-some ws way h e = elim (Option-cases (pass_from is_empty 0 ws none)) [
  | inl n ↦
      let full = (pass_from-none is_empty 0 ws none n).1 in
      let (v, f) = pass_from-Found is_idle ws way h (rw (n, choose_way) at e) in
      (
        v,
        record {
          stands = f.stands;
          rank = f.rank;
          candidate = inr (λ j u g. ground (arith, full j u g), ground (arith, f.passes));
          most = λ j w g c. elim c [
            | inl q ↦ absurd (ground (arith, full j w g, q))
            | inr (_, q) ↦ f.most j w g (ground (arith, q))
          ];
        },
      )
  | inr (b, q) ↦
      let same : b ≡ (way, h) = some-injective _ _ (rw (q, choose_way) at e) in
      let (v, f) = pass_from-Found is_empty ws way h (rw same at q) in
      (
        v,
        record {
          stands = f.stands;
          rank = f.rank;
          candidate = inl (ground (arith, f.passes));
          most = λ j w g c. elim c [
            | inl r ↦ f.most j w g (ground (arith, r))
            | inr (r, _) ↦ absurd (ground (arith, r, f.passes))
          ];
        },
      )
]

-- The two passes of tc_store find no way exactly when every way of the set is valid and referred
-- to.
pub choose_way-none :
    (ws : List Way)
    → (choose_way ws ≡ none)
      ↔ ((j : ℕ) (w : Way) → get_elem? ws j ≡ some w → (w.valid ≡ true) × (w.refcount ≢ 0))
unfolding choose_way is_empty is_idle
choose_way-none ws = (to, from)
  where
    to :
        choose_way ws ≡ none
        → (j : ℕ) (w : Way) → get_elem? ws j ≡ some w
        → (w.valid ≡ true) × (w.refcount ≢ 0)
    to e j w g = elim (Option-cases (pass_from is_empty 0 ws none)) [
      | inl n ↦
          let a = (pass_from-none is_empty 0 ws none n).1 j w g in
          let b = (pass_from-none is_idle 0 ws none (rw (n, choose_way) at e)).1 j w g in
          (ground (arith, a), ground (arith, b))
      | inr (b, q) ↦ absurd (cc (rw (q, choose_way) at e))
    ]

    from :
        ((j : ℕ) (w : Way) → get_elem? ws j ≡ some w → (w.valid ≡ true) × (w.refcount ≢ 0))
        → choose_way ws ≡ none
    from all = elim (Option-cases (pass_from is_empty 0 ws none)) [
      | inl n ↦ elim (Option-cases (pass_from is_idle 0 ws none)) [
        | inl m ↦ rw (n, choose_way) m
        | inr (b, q) ↦
            let (v, f) = pass_from-Found is_idle ws b.0 b.1 q in
            absurd (ground (arith, all b.0 v f.stands, f.passes))
      ]
      | inr (b, q) ↦
          let (v, f) = pass_from-Found is_empty ws b.0 b.1 q in
          absurd (ground (arith, all b.0 v f.stands, f.passes))
    ]
