-- ===== src/Breakpoint/Table.antt =====
-- The breakpoint table: addresses stand in it once, and what the searches find.
use jotunheim.Prelude.{
  ℕ, zero, suc, ◌<◌, ◌≡◌, ◌≢◌, refl, sym, true, false, ◌&&◌, Option, none, some, [], ◌∷◌, arith,
  ◌==◌, if◌then◌else◌,
}
use jotunheim.Prelude.Lists.{length, get_elem?, set, All, All-set, All-get_elem?}
use jotunheim.Breakpoint.{Bp, Slots, is_armed}

abbrev pub NotAt : ℕ → Option Bp → Type 0
NotAt a none = Unit
NotAt a (some bp) = bp.addr ≢ a

abbrev pub Absent : ℕ → Slots → Type 0
Absent a = All (NotAt a)

-- No address stands in two entries.
abbrev pub Distinct : Slots → Type 0
Distinct [] = Unit
Distinct (none ∷ es) = Distinct es
Distinct (some bp ∷ es) = Absent bp.addr es × Distinct es

-- No entry but `i` holds the address `a`.
abbrev pub AbsentBut : ℕ → ℕ → Slots → Type 0
AbsentBut i a [] = Unit
AbsentBut zero a (e ∷ es) = Absent a es
AbsentBut (suc i) a (e ∷ es) = NotAt a e × AbsentBut i a es

-- The original byte behind the armed breakpoint at `a`, if there is one.
abbrev pub orig_at : Slots → ℕ → Option ℕ
orig_at [] a = none
orig_at (none ∷ es) a = orig_at es a
orig_at (some bp ∷ es) a = if bp.addr == a && bp.armed then some bp.orig else orig_at es a

pub Absent-AbsentBut : (i a : ℕ) (es : Slots) → Absent a es → AbsentBut i a es
Absent-AbsentBut i a [] h = tt
Absent-AbsentBut zero a (e ∷ es) h = h.1
Absent-AbsentBut (suc i) a (e ∷ es) h = (h.0, Absent-AbsentBut i a es h.1)

pub orig_at-Absent : (a : ℕ) (es : Slots) → Absent a es → orig_at es a ≡ none
orig_at-Absent a [] h = refl
orig_at-Absent a (none ∷ es) h = orig_at-Absent a es h.1
orig_at-Absent a (some bp ∷ es) h = ground (arith, orig_at-Absent a es)

module _ (bp : Bp) where
  pub Distinct-AbsentBut :
      (i : ℕ) (es : Slots) → Distinct es → get_elem? es i ≡ some (some bp) → AbsentBut i bp.addr es
  Distinct-AbsentBut i [] d e = tt
  Distinct-AbsentBut zero (none ∷ es) d e = ground arith
  Distinct-AbsentBut zero (some b ∷ es) d e = let same : b ≡ bp = ground arith in rw (← same) d.0
  Distinct-AbsentBut (suc i) (none ∷ es) d e = (tt, Distinct-AbsentBut i es d e)
  Distinct-AbsentBut (suc i) (some b ∷ es) d e =
      (λ k. All-get_elem? (NotAt b.addr) es i d.0 e (sym k), Distinct-AbsentBut i es d.1 e)

  -- What the table knows of the address of one of its entries.
  pub orig_at_entry :
      (i : ℕ) (es : Slots)
      → AbsentBut i bp.addr es
      → get_elem? es i ≡ some (some bp)
      → orig_at es bp.addr ≡ (if bp.armed then some bp.orig else none)
  orig_at_entry i [] d e = cc
  orig_at_entry zero (none ∷ es) d e = cc
  orig_at_entry zero (some b ∷ es) d e =
      let same : b ≡ bp = ground arith in rw same (ground (arith, orig_at-Absent bp.addr es))
  orig_at_entry (suc i) (none ∷ es) d e = orig_at_entry i es d.1 e
  orig_at_entry (suc i) (some b ∷ es) d e = ground (arith, orig_at_entry i es d.1 e)

-- Arming an entry changes the table at its address only.
pub orig_at_arm :
    (addr o i : ℕ) (es : Slots) (a : ℕ)
    → i < length es
    → is_armed (get_elem? es i) ≡ false
    → orig_at es addr ≡ none
    → orig_at (set es i (some (record { addr = addr; orig = o; armed = true }))) a
      ≡ (if addr == a then some o else orig_at es a)
orig_at_arm addr o i [] a lt quiet h = absurd (omega arith)
orig_at_arm addr o zero (none ∷ es) a lt quiet h = ground arith
orig_at_arm addr o zero (some b ∷ es) a lt quiet h = ground arith
orig_at_arm addr o (suc i) (none ∷ es) a lt quiet h =
    orig_at_arm addr o i es a (omega arith) quiet h
orig_at_arm addr o (suc i) (some b ∷ es) a lt quiet h = ground (arith, orig_at_arm addr o i es a)

-- An entry that is cleared or disarmed changes the table at its address only.
pub orig_at_disarm :
    (bp : Bp) (e' : Option Bp) (i : ℕ) (es : Slots) (a : ℕ)
    → is_armed (some e') ≡ false
    → AbsentBut i bp.addr es
    → get_elem? es i ≡ some (some bp)
    → orig_at (set es i e') a ≡ (if bp.addr == a then none else orig_at es a)
orig_at_disarm bp e' i [] a quiet d e = cc
orig_at_disarm bp e' zero (none ∷ es) a quiet d e = cc
orig_at_disarm bp none zero (some b ∷ es) a quiet d e =
    let same : b ≡ bp = ground arith in rw same (ground (arith, orig_at-Absent bp.addr es))
orig_at_disarm bp (some b') zero (some b ∷ es) a quiet d e =
    let same : b ≡ bp = ground arith in rw same (ground (arith, orig_at-Absent bp.addr es))
orig_at_disarm bp e' (suc i) (none ∷ es) a quiet d e = orig_at_disarm bp e' i es a quiet d.1 e
orig_at_disarm bp e' (suc i) (some b ∷ es) a quiet d e =
    ground (arith, orig_at_disarm bp e' i es a quiet d.1 e)

pub Distinct-set :
    (bp : Bp) (i : ℕ) (es : Slots)
    → Distinct es
    → AbsentBut i bp.addr es
    → Distinct (set es i (some bp))
Distinct-set bp i [] d b = tt
Distinct-set bp zero (none ∷ es) d b = (b, d)
Distinct-set bp zero (some b' ∷ es) d b = (b, d.1)
Distinct-set bp (suc i) (none ∷ es) d b = Distinct-set bp i es d b.1
Distinct-set bp (suc i) (some b' ∷ es) d b =
    (All-set (NotAt b'.addr) es i (some bp) d.0 (λ e. b.0 (sym e)), Distinct-set bp i es d.1 b.1)

pub Distinct-clear : (i : ℕ) (es : Slots) → Distinct es → Distinct (set es i none)
Distinct-clear i [] d = tt
Distinct-clear zero (none ∷ es) d = d
Distinct-clear zero (some b ∷ es) d = d.1
Distinct-clear (suc i) (none ∷ es) d = Distinct-clear i es d
Distinct-clear (suc i) (some b ∷ es) d =
    (All-set (NotAt b.addr) es i none d.0 tt, Distinct-clear i es d.1)
