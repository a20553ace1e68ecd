-- ===== src/Types.antt =====
-- `struct trace` of include/trace.h. A pointer to a trace is the record that it points to, with
-- its address: the source compares such pointers (`tc_deref`) and never changes a trace that it
-- shares. A `char`, `uint8_t` or `float` of the three buffers is only moved: it is a number, the
-- float's bit pattern. `none` is NULL.
use libtrs.Base.{ℕ, List, Option}

pub record Trace : Type 0 where
  pub addr : ℕ
  pub owner : Option ℕ
  pub index : ℕ
  pub title : Option (List ℕ)
  pub bytes : Option (List ℕ)
  pub samples : Option (List ℕ)
