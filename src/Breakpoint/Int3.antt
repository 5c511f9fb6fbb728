-- ===== src/Breakpoint/Int3.antt =====
-- A breakpoint that `insert` reports as set stands in memory.
use jotunheim.Prelude.{
  ℕ, ◌≡◌, inl, inr, true, none, some, arith, ◌==◌, ==→eq, Bool-cases, Option-cases,
}
use jotunheim.Prelude.Lists.{get_elem?, All-get_elem?}
use jotunheim.Machine.{read_byte}
use jotunheim.Breakpoint.{Breaks, is_armed, plant, insert_at, insert, find_slot}
use jotunheim.Breakpoint.Search.{Found, at_entry, at_free, nowhere, find_slot-Found}
use jotunheim.Breakpoint.Shadow.{IsPlanted, Inv, patched}

module _ (s : Breaks) (v : Inv s) (addr : ℕ) where
  armed_int3 :
      (idx : ℕ)
      → Found addr 0 none s.table (some idx)
      → is_armed (get_elem? s.table idx) ≡ true
      → s.machine.bytes addr ≡ 0xcc
  armed_int3 idx (at_entry j bp r g k) old =
      let same : j ≡ idx = ground arith in
      let g' : get_elem? s.table idx ≡ some (some bp) = rw same at g in
      let on : bp.armed ≡ true = rw g' at old in
      let (int3, lost) = All-get_elem? (IsPlanted s.machine) s.table idx v.planted g' on in
      rw k at int3
  armed_int3 idx (at_free j r g h) old = ground arith
  armed_int3 idx (nowhere r h) old = ground arith

  plant_int3 :
      (idx : ℕ) → (plant addr idx s).0 ≡ true → (plant addr idx s).1.machine.bytes addr ≡ 0xcc
  unfolding plant read_byte
  plant_int3 idx ok = elim (Bool-cases ((patched addr 0xcc s.machine).bytes addr == 0xcc)) [
    | inl good ↦ rw good (==→eq _ _ good)
    | inr bad ↦ ground arith
  ]

  -- Where `insert` succeeds on a well-formed table, `int3` stands in memory at the address.
  pub insert-int3 : (insert addr s).0 ≡ true → (insert addr s).1.machine.bytes addr ≡ 0xcc
  unfolding insert insert_at
  insert-int3 ok = elim (Option-cases (find_slot addr s.table)) [
    | inl e ↦ ground arith
    | inr (idx, e) ↦ elim (Bool-cases (is_armed (get_elem? s.table idx))) [
      | inl old ↦
          rw (e, insert_at, old) (armed_int3 idx (rw e at (find_slot-Found addr s.table)) old)
      | inr quiet ↦ rw (e, insert_at, quiet) (plant_int3 idx (rw (e, insert_at, quiet) at ok))
    ]
  ]
