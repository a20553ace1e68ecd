-- ===== src/Transforms/Duplicate.antt =====
-- lib/trace/trace.c: `trace_copy`, and `trace_free_memory` of a trace without an owner, which is
-- what `trace_copy` calls when it fails. `alloc`: the `calloc` of the trace itself succeeds.
use libtrs.Base.{
  ℕ, ◌≡◌, ltb, if◌then◌else◌, Bool, true, false, Option, none, some, List, length, take, enomem,
  Status, ok, err, Outcome, done, blocked, fault, ◌>>=◌,
}
use libtrs.Traces.{Buffers}
use libtrs.Transforms.{
  Buffer, null, live, dangling, Target, Memory, Geometry, and_then, free_buffer,
}
use libtrs.Transforms.Kinds.{empty}

-- One buffer of the new trace, of the size that the owner of the old one has for it.
unfoldable pub duplicate : Bool → ℕ → Option (List ℕ) → Outcome (Status × Buffer)
duplicate alloc size none = done (ok, null)
duplicate alloc size (some xs) =
    if alloc
    then if ltb (length xs) size then fault else done (ok, live (take size xs))
    else done (err enomem, null)

-- The three, up to the first that fails.
unfoldable pub duplicate_all : Memory → Geometry → Buffers → Outcome (Status × Target)
duplicate_all mem owner prev =
    (duplicate mem.for_title owner.title_size prev.title >>= λ r.
    done (r.0, record empty { title = r.1 }))
    >>= λ a.
        and_then a (λ t. duplicate mem.for_bytes owner.data_size prev.bytes >>= λ r.
        done (r.0, record t { bytes = r.1 }))
        >>= λ b. and_then b (λ t. duplicate mem.for_samples owner.num_samples prev.samples >>= λ r.
            done (r.0, record t { samples = r.1 }))

unfoldable pub free_memory : Target → Outcome Target
free_memory t = free_buffer t.title >>= λ a. free_buffer t.bytes >>= λ b.
    free_buffer t.samples >>= λ c. done (record { title = a; bytes = b; samples = c })

-- What a call of `trace_copy` returns, `*res` if it is written, and the trace that it made, as it is left.
pub record Copied : Type 0 where
  pub status : Status
  pub res : Option Target
  pub t_result : Option Target

unfoldable pub trace_copy : Bool → Memory → Geometry → Buffers → Outcome Copied
trace_copy alloc mem owner prev =
    if alloc
    then (duplicate_all mem owner prev >>= λ r. elim (r.0) [
      | ok ↦ done (record { status = ok; res = some (r.1); t_result = some (r.1) })
      | err e ↦
          free_memory (r.1) >>= λ t. done (record { status = err e; res = none; t_result = some t })
    ])
    else done (record { status = err enomem; res = none; t_result = none })

abbrev is_live : Buffer → Bool
is_live null = false
is_live (live xs) = true
is_live dangling = false

-- No memory of a trace is left that was not freed.
abbrev pub IsReleased : Option Target → Type 0
IsReleased none = Unit {0}
IsReleased (some t) =
    (is_live t.title ≡ false) × (is_live t.bytes ≡ false) × (is_live t.samples ≡ false)

abbrev Releases : Outcome Target → Type 0
Releases (done t) = IsReleased (some t)
Releases blocked = Unit {0}
Releases fault = Unit {0}
