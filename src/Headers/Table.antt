-- ===== src/Headers/Table.antt =====
-- The table `all_headers` of lib/trace/backend/riscure_trs.c, without the names, the descriptions
-- and the defaults, which only a dump of the headers prints.
use libtrs.Base.{
  ℕ, ◌-◌, ltb, if◌then◌else◌, Bool, true, false, Option, some, List, [], ◌∷◌, get_elem?,
}

-- `enum th_type`.
pub data ThType : Type 0 where
  th_int th_flt th_bool th_str th_byte : ThType

-- `struct th_def`: `req`, `th_type` and `len`.
pub data ThDef : Type 0 where
  th_def : Bool → ThType → ℕ → ThDef

-- The entries from tag 0x40 on, up to 0x75. An entry that the initialiser leaves out is zero.
abbrev defined_headers : List ThDef
defined_headers =
    th_def false th_int 0
    ∷ th_def true th_int 4
    ∷ th_def true th_int 4
    ∷ th_def true th_int 1
    ∷ th_def false th_int 2
    ∷ th_def false th_int 1
    ∷ th_def false th_str 0
    ∷ th_def false th_str 0
    ∷ th_def false th_int 4
    ∷ th_def false th_str 0
    ∷ th_def false th_str 0
    ∷ th_def false th_flt 4
    ∷ th_def false th_flt 4
    ∷ th_def false th_int 4
    ∷ th_def false th_int 1
    ∷ th_def false th_int 0
    ∷ th_def false th_int 0
    ∷ th_def false th_int 0
    ∷ th_def false th_int 0
    ∷ th_def false th_int 0
    ∷ th_def false th_int 0
    ∷ th_def false th_flt 4
    ∷ th_def false th_int 4
    ∷ th_def false th_flt 4
    ∷ th_def false th_flt 4
    ∷ th_def false th_byte 0
    ∷ th_def false th_int 4
    ∷ th_def false th_flt 4
    ∷ th_def false th_flt 4
    ∷ th_def false th_int 0
    ∷ th_def false th_int 0
    ∷ th_def true th_int 0
    ∷ th_def false th_bool 1
    ∷ th_def false th_flt 4
    ∷ th_def false th_int 4
    ∷ th_def false th_int 4
    ∷ th_def false th_int 4
    ∷ th_def false th_bool 1
    ∷ th_def false th_flt 4
    ∷ th_def false th_int 4
    ∷ th_def false th_int 4
    ∷ th_def false th_bool 1
    ∷ th_def false th_bool 1
    ∷ th_def false th_int 4
    ∷ th_def false th_int 4
    ∷ th_def false th_int 4
    ∷ th_def false th_int 4
    ∷ th_def false th_int 4
    ∷ th_def false th_int 4
    ∷ th_def false th_int 4
    ∷ th_def false th_int 4
    ∷ th_def false th_int 4
    ∷ th_def false th_int 4
    ∷ th_def false th_int 4
    ∷ []

-- `all_headers[tag]`; `none` is past the end of the array.
unfoldable pub all_headers : ℕ → Option ThDef
all_headers tag =
    if ltb tag 64 then some (th_def false th_int 0) else get_elem? defined_headers (tag - 64)
