-- ===== src/Transforms/Kinds.antt =====
-- The copying transformations: transform/tfm_nop.c, transform/trace/tfm_narrow.c, tfm_append.c and
-- tfm_split_tvla.c, and transform/tfm_verify.c. An `int` parameter is a number that is not negative.
use libtrs.Base.{
  ℕ, ◌+◌, ◌*◌, ◌/◌, ◌%◌, ◌-◌, ◌^◌, ltb, ◌==◌, if◌then◌else◌, not, Bool, true, false, ◌||◌, Option,
  none, some, List, [], ◌∷◌, length, take, drop, ◌⊎◌, inl, inr, Errno, einval, enomem, Status, ok,
  err, Outcome, done, fault, ◌>>=◌,
}
use libtrs.Types.{Trace}
use libtrs.Traces.{Buffers}
use libtrs.Transforms.{
  null, live, Target, Memory, Geometry, Source, Written, copy_title, copy_data, copy_all, and_then,
  passthrough, passthrough_free, contents,
}

-- `__tfm_nop_init`, and with it the ones of split_tvla and verify, which are the same text.
unfoldable pub nop_init : Geometry → Geometry
nop_init prev = record {
  num_samples = prev.num_samples;
  num_traces = prev.num_traces;
  title_size = prev.title_size;
  data_size = prev.data_size;
  datatype = prev.datatype;
  yscale = prev.yscale;
}

unfoldable pub split_tvla_init : Geometry → Geometry
split_tvla_init prev = nop_init prev

unfoldable pub verify_init : Geometry → Geometry
verify_init prev = nop_init prev

-- `struct tfm_narrow`.
pub record Narrow : Type 0 where
  pub first_trace : ℕ
  pub num_traces : ℕ
  pub first_sample : ℕ
  pub num_samples : ℕ

unfoldable pub narrow_init : Narrow → Geometry → Geometry
narrow_init tfm prev = record (nop_init prev) {
  num_samples = tfm.num_samples;
  num_traces = tfm.num_traces;
}

-- `opened`: what `ts_open` of the path gives.
unfoldable pub append_init : Errno ⊎ Geometry → Geometry → Errno ⊎ Geometry
append_init (inl e) prev = inl e
append_init (inr append) prev =
    if not (append.num_samples == prev.num_samples)
      || (not (append.title_size == prev.title_size) || not (append.data_size == prev.data_size))
    then inl einval
    else inr (record {
      num_samples = prev.num_samples;
      num_traces = (prev.num_traces + append.num_traces) % 2 ^ 64;
      title_size = prev.title_size;
      data_size = prev.data_size;
      datatype = append.datatype;
      yscale = append.yscale;
    })

-- A `float` has four bytes.
unfoldable pub split_tvla_trace_size : Geometry → ℕ
split_tvla_trace_size ts = (ts.title_size + ts.data_size + ts.num_samples / 2 * 4) % 2 ^ 64

abbrev pub empty : Target
empty = record { title = null; bytes = null; samples = null }

-- `strncmp(title, pattern, strlen(pattern)) == 0`; a read past the end of the title is undefined.
unfoldable pub begins_with : List ℕ → List ℕ → Outcome Bool
begins_with [] title = done true
begins_with (p ∷ ps) [] = fault
begins_with (p ∷ ps) (c ∷ cs) = if p == c then begins_with ps cs else done false

-- "TVLA set Fixed" and "TVLA set Random".
abbrev pub str_fixed : List ℕ
str_fixed = 84 ∷ 86 ∷ 76 ∷ 65 ∷ 32 ∷ 115 ∷ 101 ∷ 116 ∷ 32 ∷ 70 ∷ 105 ∷ 120 ∷ 101 ∷ 100 ∷ []

abbrev pub str_rand : List ℕ
str_rand = 84 ∷ 86 ∷ 76 ∷ 65 ∷ 32 ∷ 115 ∷ 101 ∷ 116 ∷ 32 ∷ 82 ∷ 97 ∷ 110 ∷ 100 ∷ 111 ∷ 109 ∷ []

-- `true` is TVLA_FIXED. A trace with no title keeps the type that the caller began with.
unfoldable pub get_trace_type : Option (List ℕ) → Bool → Outcome (Errno ⊎ Bool)
get_trace_type none type = done (inr type)
get_trace_type (some title) type = begins_with str_fixed title >>= λ fixed.
    if fixed
    then done (inr true)
    else begins_with str_rand title >>= λ random.
        if random then done (inr false) else done (inl einval)

-- The samples of a narrowed trace; the source leaves the pointer alone if there are none.
unfoldable pub narrow_samples :
    Bool → Narrow → Geometry → Target → Buffers → Outcome (Status × Target)
narrow_samples alloc tfm set t prev = elim prev.samples [
  | none ↦ done (ok, t)
  | some xs ↦
      if alloc
      then if ltb (length xs) (tfm.first_sample + set.num_samples)
        then fault
        else done
            (ok, record t { samples = live (take set.num_samples (drop tfm.first_sample xs)) })
      else done (err enomem, t)
]

-- The three copies of `__tfm_narrow_get`.
unfoldable pub narrow_copy :
    Geometry → Geometry → Memory → Narrow → Target → Buffers → Outcome (Status × Target)
narrow_copy set from_set mem tfm t prev = copy_title mem.for_title set from_set t prev >>= λ a.
    and_then a (λ t. copy_data mem.for_bytes set from_set t prev) >>= λ b.
    and_then b (λ t. narrow_samples mem.for_samples tfm set t prev)

abbrev pub same : Bool → Bool → Bool
same true b = b
same false b = not b

module _ {S : Type 0} where
  unfoldable pub nop_get : Source S → Geometry → Memory → S → ℕ → Target → Outcome (Written S)
  nop_get src set mem s index t = passthrough src set mem s index t

  unfoldable pub narrow_get :
      Source S → Geometry → Memory → Narrow → S → ℕ → Target → Outcome (Written S)
  narrow_get src set mem tfm s index t = src.get s ((index + tfm.first_trace) % 2 ^ 64) >>= λ r.
      elim (r.1) [
        | inl e ↦ done (record { state = r.0; status = err e; target = t })
        | inr prev_trace ↦ narrow_copy set src.geometry mem tfm t (contents prev_trace) >>= λ c.
            src.release (r.0) prev_trace >>= λ s'.
            done (record { state = s'; status = c.0; target = c.1 })
      ]

  -- A trace of the set that is appended, at hand: on failure the copies are freed.
  unfoldable pub append_copy :
      Source S → Geometry → Memory → S → Trace → Target → Outcome (Written S)
  append_copy app set mem s prev_trace t =
      copy_all mem set app.geometry t (contents prev_trace) >>= λ r.
      elim (r.0) [ ok ↦ done (r.1) | err e ↦ passthrough_free (r.1) ] >>= λ t'.
      app.release s prev_trace >>= λ s'. done (record { state = s'; status = r.0; target = t' })

  -- The set before and the appended one work on one state.
  unfoldable pub append_get :
      Source S → Source S → Geometry → Memory → S → ℕ → Target → Outcome (Written S)
  append_get src app set mem s index t =
      if ltb index src.geometry.num_traces
      then passthrough src set mem s index t
      else app.get s (index - src.geometry.num_traces) >>= λ r. elim (r.1) [
        | inl e ↦ done (record { state = r.0; status = err e; target = t })
        | inr prev_trace ↦ append_copy app set mem (r.0) prev_trace t
      ]

  -- Once the type of the trace is known; `type` is the error of an unknown title otherwise.
  unfoldable pub split_tvla_pass :
      Source S → Geometry → Memory → Bool → S → ℕ → Target → Errno ⊎ Bool → Outcome (Written S)
  split_tvla_pass src set mem which s index t (inl e) =
      done (record { state = s; status = err e; target = t })
  split_tvla_pass src set mem which s index t (inr fixed) =
      if same fixed which
      then passthrough src set mem s index t
      else done (record { state = s; status = ok; target = empty })

  unfoldable pub split_tvla_get :
      Source S → Geometry → Memory → Bool → S → ℕ → Target → Outcome (Written S)
  split_tvla_get src set mem which s index t = src.get s index >>= λ r. elim (r.1) [
    | inl e ↦ done (record { state = r.0; status = err e; target = t })
    | inr prev_trace ↦ get_trace_type prev_trace.title true >>= λ type.
        split_tvla_pass src set mem which (r.0) index t type >>= λ w.
        src.release w.state prev_trace >>= λ s'. done (record w { state = s' })
  ]

  -- `verify_generic` for AES128, the one value of `crypto_t`: `check` is `verify_aes128`, which asks
  -- OpenSSL.
  unfoldable pub verify_generic : Source S → (List ℕ → Bool) → S → ℕ → Outcome (S × (Errno ⊎ Bool))
  verify_generic src check s index = src.get s index >>= λ r. elim (r.1) [
    | inl e ↦ done (r.0, inl e)
    | inr prev_trace ↦ elim prev_trace.bytes [
      | some bytes ↦ src.release (r.0) prev_trace >>= λ s'. done (s', inr (check bytes))
      | none ↦ done (r.0, inr false)
    ]
  ]

  unfoldable pub verify_get :
      Source S → (List ℕ → Bool) → Geometry → Memory → S → ℕ → Target → Outcome (Written S)
  verify_get src check set mem s index t = verify_generic src check s index >>= λ r. elim (r.1) [
    | inl e ↦ done (record { state = r.0; status = err e; target = t })
    | inr verified ↦
        if verified
        then passthrough src set mem (r.0) index t
        else done (record { state = r.0; status = ok; target = empty })
  ]
