-- ===== src/Breakpoint/Shadow.antt =====
-- The program text behind the breakpoints. The debugger patches memory; whatever it plants and
-- removes, the text that the breakpoints hide stays what it was.
use jotunheim.Prelude.{
  ℕ, zero, suc, ◌<◌, ◌≡◌, refl, ◌∙◌, inl, inr, true, false, Option, none, some, [], ◌∷◌, arith,
  ◌==◌, ==→eq, Bool-cases, Option-cases,
}
use jotunheim.Prelude.Lists.{
  length, get_elem?, get_elem?-lt, set, length-set, All, replicate, length-replicate,
}
use jotunheim.Machine.{Machine, read_byte, write_byte, with_wp_disabled, bytes-patch, ram-patch}
use jotunheim.Breakpoint.{
  Bp, Slots, Breaks, max_bp, init, is_armed, plant, insert_at, insert, find_slot,
}
use jotunheim.Breakpoint.Table.{
  NotAt, Absent, Distinct, AbsentBut, orig_at, Absent-AbsentBut, orig_at-Absent, Distinct-AbsentBut,
  orig_at_entry, orig_at_arm, Distinct-set,
}
use jotunheim.Breakpoint.Search.{Found, at_entry, at_free, nowhere, find_slot-Found}

-- The byte at `a` as the program has it: behind an armed breakpoint, the byte that it hides.
abbrev pub shadow : Breaks → ℕ → ℕ
shadow s a = elim (orig_at s.table a) [ none ↦ s.machine.bytes a | some o ↦ o ]

-- An armed breakpoint is in memory as `int3`; one that was planted where writes are lost hides an
-- `int3` of the program's own.
abbrev pub IsPlanted : Machine → Option Bp → Type 0
IsPlanted m none = Unit
IsPlanted m (some bp) =
    bp.armed ≡ true → (m.bytes bp.addr ≡ 0xcc) × (m.ram bp.addr ≡ false → bp.orig ≡ 0xcc)

pub record Inv (s : Breaks) : Type 0 where
  pub size : length s.table ≡ max_bp
  pub distinct : Distinct s.table
  pub planted : All (IsPlanted s.machine) s.table

-- The machine after a write at `addr`.
abbrev pub patched : ℕ → ℕ → Machine → Machine
patched addr v m = with_wp_disabled (write_byte addr v) m

IsPlanted-patch :
    (m : Machine) (addr v : ℕ) (e : Option Bp)
    → NotAt addr e
    → IsPlanted m e
    → IsPlanted (patched addr v m) e
IsPlanted-patch m addr v none ne h = tt
IsPlanted-patch m addr v (some bp) ne h =
    λ armed. ground (arith, bytes-patch m addr v bp.addr, ram-patch m addr v, h armed)

All-IsPlanted-patch :
    (m : Machine) (addr v : ℕ) (es : Slots)
    → Absent addr es
    → All (IsPlanted m) es
    → All (IsPlanted (patched addr v m)) es
All-IsPlanted-patch m addr v [] ne h = tt
All-IsPlanted-patch m addr v (e ∷ es) ne h =
    (IsPlanted-patch m addr v e ne.0 h.0, All-IsPlanted-patch m addr v es ne.1 h.1)

All-IsPlanted_lost :
    (m : Machine) (addr v : ℕ) (es : Slots)
    → m.ram addr ≡ false
    → All (IsPlanted m) es
    → All (IsPlanted (patched addr v m)) es
All-IsPlanted_lost m addr v [] r h = tt
All-IsPlanted_lost m addr v (none ∷ es) r h = (tt, All-IsPlanted_lost m addr v es r h.1)
All-IsPlanted_lost m addr v (some bp ∷ es) r h = (
  λ armed. ground (arith, bytes-patch m addr v bp.addr, ram-patch m addr v, h.0 armed),
  All-IsPlanted_lost m addr v es r h.1,
)

-- A write at the address of entry `i`, which becomes `e'`.
pub All-IsPlanted-set :
    (m : Machine) (addr v i : ℕ) (e' : Option Bp) (es : Slots)
    → AbsentBut i addr es
    → All (IsPlanted m) es
    → IsPlanted (patched addr v m) e'
    → All (IsPlanted (patched addr v m)) (set es i e')
All-IsPlanted-set m addr v i e' [] ne h h' = tt
All-IsPlanted-set m addr v zero e' (e ∷ es) ne h h' = (h', All-IsPlanted-patch m addr v es ne h.1)
All-IsPlanted-set m addr v (suc i) e' (e ∷ es) ne h h' =
    (IsPlanted-patch m addr v e ne.0 h.0, All-IsPlanted-set m addr v i e' es ne.1 h.1 h')

-- What `plant` relies on: entry `idx` is not armed, and no other entry holds `addr`.
record CanPlant (addr idx : ℕ) (s : Breaks) : Type 0 where
  inside : idx < length s.table
  quiet : is_armed (get_elem? s.table idx) ≡ false
  alone : AbsentBut idx addr s.table
  unarmed : orig_at s.table addr ≡ none

plant-Inv : (addr idx : ℕ) (s : Breaks) → CanPlant addr idx s → Inv s → Inv (plant addr idx s).1
unfolding plant read_byte
plant-Inv addr idx s c v = elim (Bool-cases ((patched addr 0xcc s.machine).bytes addr == 0xcc)) [
  | inl good ↦ rw good (record {
    size = length-set s.table idx _ ∙ v.size;
    distinct = Distinct-set _ idx s.table v.distinct c.alone;
    planted = All-IsPlanted-set s.machine addr 0xcc idx _ s.table c.alone v.planted λ _. (
      ==→eq _ _ good,
      λ r. ground (
        arith,
        ==→eq _ _ good,
        bytes-patch s.machine addr 0xcc addr,
        ram-patch s.machine addr 0xcc,
      ),
    );
  })
  | inr bad ↦ rw bad (record {
    size = v.size;
    distinct = v.distinct;
    planted =
        All-IsPlanted_lost s.machine addr 0xcc s.table
          (ground (arith, bytes-patch s.machine addr 0xcc addr)) v.planted;
  })
]

plant-shadow :
    (addr idx : ℕ) (s : Breaks) (a : ℕ)
    → CanPlant addr idx s
    → shadow (plant addr idx s).1 a ≡ shadow s a
unfolding plant read_byte
plant-shadow addr idx s a c = ground (
  arith,
  bytes-patch s.machine addr 0xcc a,
  bytes-patch s.machine addr 0xcc addr,
  orig_at_arm addr (s.machine.bytes addr) idx s.table a c.inside c.quiet c.unarmed,
  c.unarmed,
)

-- The entry that `find_slot` returns can be planted, unless it is armed.
find_slot-CanPlant :
    (addr idx : ℕ) (s : Breaks)
    → Inv s
    → find_slot addr s.table ≡ some idx
    → is_armed (get_elem? s.table idx) ≡ false
    → CanPlant addr idx s
find_slot-CanPlant addr idx s v e quiet = go (find_slot-Found addr s.table)
  where
    go : Found addr 0 none s.table (find_slot addr s.table) → CanPlant addr idx s
    go (at_entry j bp r g k) =
        let same : j ≡ idx = ground arith in
        let g' : get_elem? s.table idx ≡ some (some bp) = rw same at g in
        let off : bp.armed ≡ false = rw g' at quiet in
        let but : AbsentBut idx bp.addr s.table = Distinct-AbsentBut bp idx s.table v.distinct g' in
        let clear : orig_at s.table bp.addr ≡ none =
          ground (arith, orig_at_entry bp idx s.table but g') in
        record {
          inside = get_elem?-lt s.table idx g';
          quiet = quiet;
          alone = rw k at but;
          unarmed = rw k at clear;
        }
    go (at_free j r g h) =
        let same : j ≡ idx = ground arith in
        record {
          inside = rw same at (get_elem?-lt s.table j g);
          quiet = quiet;
          alone = Absent-AbsentBut idx addr s.table h;
          unarmed = orig_at-Absent addr s.table h;
        }
    go (nowhere r h) = ground arith

module _ (s : Breaks) (v : Inv s) (addr : ℕ) where
  -- What holds of the state as it is, and of a state in which an entry was planted, holds after
  -- `insert`.
  insert_cases {ℓ} :
      (P : Breaks → Type ℓ)
      → P s
      → ((idx : ℕ) → CanPlant addr idx s → P (plant addr idx s).1)
      → P (insert addr s).1
  unfolding insert insert_at
  insert_cases P same planted = elim (Option-cases (find_slot addr s.table)) [
    | inl e ↦ rw (e, insert_at) same
    | inr (idx, e) ↦ elim (Bool-cases (is_armed (get_elem? s.table idx))) [
      | inl old ↦ rw (e, insert_at, old) same
      | inr quiet ↦ rw (e, insert_at, quiet) (planted idx (find_slot-CanPlant addr idx s v e quiet))
    ]
  ]

  -- `insert` keeps the table well formed.
  pub insert-Inv : Inv (insert addr s).1
  insert-Inv = insert_cases Inv v (λ idx c. plant-Inv addr idx s c v)

  -- `insert` changes no byte of the text behind the breakpoints, whether it succeeds or fails.
  pub insert-shadow : (a : ℕ) → shadow (insert addr s).1 a ≡ shadow s a
  insert-shadow a =
      insert_cases (λ s'. shadow s' a ≡ shadow s a) refl (λ idx c. plant-shadow addr idx s a c)

free-Distinct : (n : ℕ) → Distinct (replicate n none)
free-Distinct zero = tt
free-Distinct (suc n) = free-Distinct n

free-IsPlanted : (m : Machine) (n : ℕ) → All (IsPlanted m) (replicate n none)
free-IsPlanted m zero = tt
free-IsPlanted m (suc n) = (tt, free-IsPlanted m n)

pub init-Inv : (m : Machine) → Inv (init m)
unfolding init
init-Inv m = record {
  size = length-replicate {A = Option Bp} max_bp none;
  distinct = free-Distinct max_bp;
  planted = free-IsPlanted m max_bp;
}
