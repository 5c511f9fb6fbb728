-- ===== src/Interrupts/Gates.antt =====
-- The descriptor table of interrupts: jotunheimkernel/src/arch/x86_64/tables/idt.rs. A handler is its
-- address. `none` stands for a write behind the table.
use jotunheim.Prelude.{
  ℕ, zero, suc, ◌+◌, ◌-◌, ◌*◌, ◌/◌, ◌%◌, ◌^◌, ◌<◌, ◌≡◌, refl, Option, none, some, List, [], ◌∷◌,
  arith, ltb, if◌then◌else◌, ◌>>=◌, bit_and, bit_or,
}
use jotunheim.Prelude.Lists.{set, replicate}
use jotunheim.Prelude.Bits.{bit_and-low}
use jotunheim.Interrupts.{Isr, Registry, init, entries}

pub record IdtEntry : Type 0 where
  pub offset_low : ℕ
  pub selector : ℕ
  pub ist : ℕ
  pub type_attr : ℕ
  pub offset_mid : ℕ
  pub offset_high : ℕ
  pub zero : ℕ

abbrev pub empty_entry : IdtEntry
empty_entry = record {
  offset_low = 0;
  selector = 0;
  ist = 0;
  type_attr = 0;
  offset_mid = 0;
  offset_high = 0;
  zero = 0;
}

-- The entry that `set_gate_raw` writes.
unfoldable pub gate : (handler ist dpl code : ℕ) → IdtEntry
gate h ist dpl code = record {
  offset_low = bit_and h 0xffff;
  selector = code;
  ist = bit_and ist 0x7;
  type_attr = bit_or 0x8e (bit_and dpl 0x3 * 2 ^ 5);
  offset_mid = bit_and (h / 2 ^ 16) 0xffff;
  offset_high = bit_and (h / 2 ^ 32) 0xffffffff;
  zero = 0;
}

abbrev pub Idt : Type 0
Idt = List IdtEntry

unfoldable pub set_gate : (idx handler ist dpl code : ℕ) → Idt → Option Idt
unfolding gate
set_gate idx handler ist dpl code idt =
    if ltb idx 256 then some (set idt idx (gate handler ist dpl code)) else none

-- `for v in 0..=255`: the rounds left, and the vector.
unfoldable pub set_defaults : (rounds v handler code : ℕ) → Idt → Option Idt
set_defaults zero v handler code idt = some idt
set_defaults (suc rounds) v handler code idt =
    set_gate v handler 0 0 code idt >>= set_defaults rounds (v + 1) handler code

abbrev pub index_or_zero : Option ℕ → ℕ
index_or_zero none = 0
index_or_zero (some index) = index

-- The closure on an entry; `index as u8`.
unfoldable pub set_isr : ℕ → Isr → Idt → Option Idt
set_isr code isr idt = elim isr.vector [
  | none ↦ some idt
  | some vec ↦ elim isr.stub [
    | none ↦ some idt
    | some stub ↦ set_gate vec stub (index_or_zero isr.index % 2 ^ 8) 0 code idt
  ]
]

unfoldable pub set_isrs : ℕ → List Isr → Idt → Option Idt
set_isrs code [] idt = some idt
set_isrs code (isr ∷ es) idt = set_isr code isr idt >>= set_isrs code es

-- All vectors with the default stub
unfoldable pub default_idt : (default_stub code : ℕ) → Option Idt
default_idt default_stub code = set_defaults 256 0 default_stub code (replicate 256 empty_entry)

-- The table that `init` and `ap_init` load.
unfoldable pub build_idt : (default_stub code : ℕ) → Registry → Option Idt
unfolding init
build_idt default_stub code t = default_idt default_stub code >>= set_isrs code (entries (init t))

-- `load_idt_ptr`: the limit is of 256 entries of 16 bytes.
unfoldable pub idtr_limit : ℕ
idtr_limit = 16 * 256 - 1

-- What the processor reads of an entry.
abbrev pub offset_of : IdtEntry → ℕ
offset_of e = e.offset_low + e.offset_mid * 2 ^ 16 + e.offset_high * 2 ^ 32

abbrev pub dpl_of : IdtEntry → ℕ
dpl_of e = e.type_attr / 2 ^ 5 % 4

-- An interrupt gate of 64 bits that is present: type 0xe, the bit above it clear, bit 7 set.
abbrev pub IsInterruptGate : IdtEntry → Type 0
IsInterruptGate e = (e.type_attr % 2 ^ 5 ≡ 0xe) × (e.type_attr / 2 ^ 7 ≡ 1)

type_attr_sum : (dpl : ℕ) → dpl < 4 → bit_or 0x8e (bit_and dpl 0x3 * 2 ^ 5) ≡ 0x8e + dpl * 32
type_attr_sum zero h = refl
type_attr_sum (suc zero) h = refl
type_attr_sum (suc (suc zero)) h = refl
type_attr_sum (suc (suc (suc zero))) h = refl
type_attr_sum (suc (suc (suc (suc n)))) h = absurd (omega arith)

low_word : (x : ℕ) → bit_and x 0xffff ≡ x % 2 ^ 16
low_word x = ground (arith, bit_and-low 16 (x / 2 ^ 16) (x % 2 ^ 16))

low_double : (x : ℕ) → x < 2 ^ 32 → bit_and x 0xffffffff ≡ x
low_double x h = ground (arith, bit_and-low 32 0 x)

pub offset_of-gate : (h ist dpl code : ℕ) → h < 2 ^ 64 → offset_of (gate h ist dpl code) ≡ h
unfolding gate
offset_of-gate h ist dpl code small =
    ground (arith, low_word h, low_word (h / 2 ^ 16), low_double (h / 2 ^ 32))

-- The processor reads back what was written: the address of the handler, the selector, the index of
-- the stack and the privilege level, of a present interrupt gate; an index below 8, a level below 4.
pub gate_read :
    (h ist dpl code : ℕ)
    → h < 2 ^ 64
    → ist < 8
    → dpl < 4
    → (offset_of (gate h ist dpl code) ≡ h)
      × ((gate h ist dpl code).selector ≡ code)
      × ((gate h ist dpl code).ist ≡ ist)
      × (dpl_of (gate h ist dpl code) ≡ dpl)
      × IsInterruptGate (gate h ist dpl code)
unfolding gate
gate_read h ist dpl code small few low = (
  offset_of-gate h ist dpl code small,
  refl,
  ground (arith, bit_and-low 3 0 ist),
  omega (arith, type_attr_sum dpl low),
  (omega (arith, type_attr_sum dpl low), omega (arith, type_attr_sum dpl low)),
)
