-- ===== src/Breakpoint.antt =====
-- Software breakpoints: jotunheimkernel/src/debug/breakpoint.rs. The table and the machine are the
-- state; each operation returns its result beside the new state.
pub mod Table
pub mod Search
pub mod Shadow
pub mod Removal
pub mod Hit
pub mod Int3
pub mod Runs
mod Examples
use jotunheim.Prelude.{
  ℕ, zero, suc, Bool, true, false, not, ◌&&◌, Option, none, some, List, [], ◌∷◌, ◌==◌,
  if◌then◌else◌,
}
use jotunheim.Prelude.Lists.{get_elem?, set, replicate}
use jotunheim.Prelude.Words.{sub64}
use jotunheim.Machine.{Machine, read_byte, write_byte, with_wp_disabled}

pub record Bp : Type 0 where
  pub addr : ℕ
  pub orig : ℕ
  pub armed : Bool

abbrev pub max_bp : ℕ
max_bp = 64

abbrev pub Slots : Type 0
Slots = List (Option Bp)

-- `BP_TABLE`, `REPLANT_AFTER_STEP` and the machine.
pub record Breaks : Type 0 where
  pub table : Slots
  pub replant_after_step : Option ℕ
  pub machine : Machine

unfoldable pub init : Machine → Breaks
init m = record { table = replicate max_bp none; replant_after_step = none; machine = m }

abbrev or_else : Option ℕ → ℕ → Option ℕ
or_else none i = some i
or_else (some j) i = some j

-- The loop of `find_slot`, from entry `i` on: `free` is the first free entry so far.
unfoldable pub find_from : ℕ → ℕ → Option ℕ → Slots → Option ℕ
find_from addr i free [] = free
find_from addr i free (some bp ∷ es) = elim (bp.addr == addr) [
  | true ↦ some i
  | false ↦ find_from addr (suc i) free es
]
find_from addr i free (none ∷ es) = find_from addr (suc i) (or_else free i) es

-- The entry that holds `addr`, else the first free entry.
unfoldable pub find_slot : ℕ → Slots → Option ℕ
find_slot addr table = find_from addr 0 none table

abbrev pub is_armed : Option (Option Bp) → Bool
is_armed none = false
is_armed (some none) = false
is_armed (some (some bp)) = bp.armed

-- Patch: read the original byte, write `int3`, and read it back.
unfoldable pub plant : ℕ → ℕ → Breaks → Bool × Breaks
plant addr idx s =
    let o = read_byte s.machine addr in
    let m = with_wp_disabled (write_byte addr 0xcc) s.machine in
    if not (read_byte m addr == 0xcc) then (false, record s { machine = m }) else (
      true,
      record s {
        table = set s.table idx (some (record { addr = addr; orig = o; armed = true }));
        machine = m;
      },
    )

unfoldable pub insert_at : ℕ → Option ℕ → Breaks → Bool × Breaks
insert_at addr none s = (false, s)
insert_at addr (some idx) s =
    if is_armed (get_elem? s.table idx) then (true, s) else plant addr idx s

unfoldable pub insert : ℕ → Breaks → Bool × Breaks
insert addr s = insert_at addr (find_slot addr s.table) s

-- The first entry that holds `addr`, and its index.
unfoldable pub find_bp : (Bp → Bool) → Slots → Option (ℕ × Bp)
find_bp wanted [] = none
find_bp wanted (none ∷ es) = elim (find_bp wanted es) [
  | none ↦ none
  | some (i, b) ↦ some (suc i, b)
]
find_bp wanted (some bp ∷ es) = elim (wanted bp) [
  | true ↦ some (0, bp)
  | false ↦ elim (find_bp wanted es) [ none ↦ none | some (i, b) ↦ some (suc i, b) ]
]

unfoldable pub remove : ℕ → Breaks → Bool × Breaks
remove addr s = elim (find_bp (λ bp. bp.addr == addr) s.table) [
  | none ↦ (false, s)
  | some (i, bp) ↦ (
    true,
    record s {
      table = set s.table i none;
      machine =
          if bp.armed then with_wp_disabled (write_byte addr bp.orig) s.machine else s.machine;
    },
  )
]

-- The breakpoint that was hit, the instruction pointer after it, and the state.
unfoldable pub on_breakpoint_enter : ℕ → Breaks → Option ℕ × ℕ × Breaks
on_breakpoint_enter rip s =
    let hit_addr = sub64 rip 1 in
    elim (find_bp (λ bp. bp.addr == hit_addr && bp.armed) s.table) [
      | none ↦ (none, rip, s)
      | some (i, bp) ↦ (
        some hit_addr,
        hit_addr,
        record s {
          table = set s.table i (some (record bp { armed = false }));
          machine = with_wp_disabled (write_byte hit_addr bp.orig) s.machine;
        },
      )
    ]

unfoldable pub on_resume_continue : Option ℕ → Breaks → Breaks
on_resume_continue none s = s
on_resume_continue (some addr) s = (insert addr s).1

unfoldable pub on_resume_step : Option ℕ → Breaks → Breaks
on_resume_step last_hit s = record s { replant_after_step = last_hit }
