-- ===== src/Transforms.antt =====
-- transform/tfm.c: what the transformations share that copy traces of the set before theirs, over an
-- interface of that set. A transformation's `get` writes the three buffers of a trace; a buffer that
-- has been given back to the allocator is `dangling`, and giving it back again is undefined.
-- `Memory` says which of the three `calloc`s of buffers succeed.
pub mod Kinds
pub mod Copies
pub mod Gets
pub mod Filters
pub mod Ranges
pub mod Duplicate
mod Tests
use libtrs.Base.{
  ℕ, ltb, ◌==◌, if◌then◌else◌, Bool, true, false, ◌||◌, Option, none, some, List, length, take, ◌⊎◌,
  inl, inr, Errno, einval, enomem, Status, ok, err, Outcome, done, fault, ◌>>=◌,
}
use libtrs.Types.{Trace}
use libtrs.Traces.{Buffers}

-- A pointer of a trace to one of its buffers.
pub data Buffer : Type 0 where
  null : Buffer
  live : List ℕ → Buffer
  dangling : Buffer

pub record Target : Type 0 where
  pub title : Buffer
  pub bytes : Buffer
  pub samples : Buffer

pub record Memory : Type 0 where
  pub for_title : Bool
  pub for_bytes : Bool
  pub for_samples : Bool

-- The fields of `struct trace_set` that the initialisations of these transformations write.
pub record Geometry : Type 0 where
  pub num_samples : ℕ
  pub num_traces : ℕ
  pub title_size : ℕ
  pub data_size : ℕ
  pub datatype : ℕ
  pub yscale : ℕ

-- The set before: its sizes, `trace_get` of it, and `trace_free` of one of its traces. `S` is all
-- state that these calls change.
pub record Source (S : Type 0) : Type 0 where
  pub geometry : Geometry
  pub get : S → ℕ → Outcome (S × (Errno ⊎ Trace))
  pub release : S → Trace → Outcome S

-- What a `get` leaves: the state of the set before, its status, and the buffers of the trace.
pub record Written (S : Type 0) : Type 0 where
  pub state : S
  pub status : Status
  pub target : Target

-- A copy between buffers of sizes `to_size` and `from_size`, over the pointer `to`.
unfoldable pub copy : Bool → ℕ → ℕ → Buffer → Option (List ℕ) → Outcome (Status × Buffer)
copy alloc to_size from_size to from =
    if to_size == from_size
    then elim from [
      | none ↦ done (ok, null)
      | some xs ↦
          if alloc
          then if ltb (length xs) to_size then fault else done (ok, live (take to_size xs))
          else done (err enomem, to)
    ]
    else done (err einval, to)

unfoldable pub copy_title :
    Bool → Geometry → Geometry → Target → Buffers → Outcome (Status × Target)
copy_title alloc to_set from_set to from =
    copy alloc to_set.title_size from_set.title_size to.title from.title >>= λ r.
    done (r.0, record to { title = r.1 })

unfoldable pub copy_data : Bool → Geometry → Geometry → Target → Buffers → Outcome (Status × Target)
copy_data alloc to_set from_set to from =
    copy alloc to_set.data_size from_set.data_size to.bytes from.bytes >>= λ r.
    done (r.0, record to { bytes = r.1 })

unfoldable pub copy_samples :
    Bool → Geometry → Geometry → Target → Buffers → Outcome (Status × Target)
copy_samples alloc to_set from_set to from =
    copy alloc to_set.num_samples from_set.num_samples to.samples from.samples >>= λ r.
    done (r.0, record to { samples = r.1 })

-- `if(ret >= 0) ret = …`.
abbrev pub and_then :
    Status × Target → (Target → Outcome (Status × Target)) → Outcome (Status × Target)
and_then r f = elim (r.0) [ ok ↦ f (r.1) | err e ↦ done (err e, r.1) ]

abbrev pub copy_all : Memory → Geometry → Geometry → Target → Buffers → Outcome (Status × Target)
copy_all mem to_set from_set to from = copy_title mem.for_title to_set from_set to from >>= λ r.
    and_then r (λ t. copy_data mem.for_bytes to_set from_set t from) >>= λ r'.
    and_then r' (λ t. copy_samples mem.for_samples to_set from_set t from)

-- `if(p) free(p)`.
unfoldable pub free_buffer : Buffer → Outcome Buffer
free_buffer null = done null
free_buffer (live xs) = done dangling
free_buffer dangling = fault

unfoldable pub passthrough_free : Target → Outcome Target
passthrough_free t = free_buffer t.title >>= λ a. free_buffer t.bytes >>= λ b.
    free_buffer t.samples >>= λ c. done (record { title = a; bytes = b; samples = c })

abbrev pub is_set : Buffer → Bool
is_set null = false
is_set (live xs) = true
is_set dangling = true

abbrev pub contents : Trace → Buffers
contents t = record { title = t.title; bytes = t.bytes; samples = t.samples }

module _ {S : Type 0} where
  -- The end of `passthrough`, with the trace of the set before at hand: on failure the copies are
  -- freed.
  unfoldable pub hand_over : Source S → Geometry → Memory → S → Trace → Target → Outcome (Written S)
  hand_over src set mem s prev_trace t =
      copy_all mem set src.geometry t (contents prev_trace) >>= λ r. elim (r.0) [
        | ok ↦ src.release s prev_trace >>= λ s'.
            done (record { state = s'; status = ok; target = r.1 })
        | err e ↦ passthrough_free (r.1) >>= λ freed. src.release s prev_trace >>= λ s'.
            done (record { state = s'; status = err e; target = freed })
      ]

  unfoldable pub passthrough : Source S → Geometry → Memory → S → ℕ → Target → Outcome (Written S)
  passthrough src set mem s index t =
      if is_set t.title || (is_set t.bytes || is_set t.samples)
      then done (record { state = s; status = err einval; target = t })
      else src.get s index >>= λ r. elim (r.1) [
        | inl e ↦ done (record { state = r.0; status = err e; target = t })
        | inr prev_trace ↦ hand_over src set mem (r.0) prev_trace t
      ]
