-- ===== src/Rsp/Registers.antt =====
-- The registers as text: `write_g` and `read_g` of jotunheimkernel/src/debug/rsp/arch_x86_64.rs.
pub mod Bytes
pub mod Fields
pub mod Layout
pub mod RoundTrip
use jotunheim.Prelude.{
  ℕ, zero, suc, ◌+◌, ◌*◌, ◌/◌, ◌%◌, ◌^◌, Bool, true, false, Option, none, some, List, [], ◌∷◌, ◌++◌,
  ltb, ◌==◌, if◌then◌else◌, ◌>>=◌, bit_and, bit_or,
}
use jotunheim.Prelude.Lists.{replicate}
use jotunheim.Prelude.Buffer.{Buffer, poke}
use jotunheim.Prelude.Words.{not64}
use jotunheim.Frame.{TrapFrame}
use jotunheim.Rsp.Hex.{from_hex, hex_hi, hex_lo, join_nibbles}

abbrev pub g_hex_len : ℕ
g_hex_len = 572

-- The buffer, and how much of it is written.
pub record Cursor : Type 0 where
  pub buf : Buffer
  pub at : ℕ

unfoldable pub put8 : Cursor → ℕ → Cursor
put8 c v = record { buf = poke (poke c.buf c.at (hex_hi v)) (c.at + 1) (hex_lo v); at = c.at + 2 }

unfoldable pub put_all : Cursor → List ℕ → Cursor
put_all c [] = c
put_all c (b ∷ bs) = put_all (put8 c b) bs

-- `v.to_le_bytes()`, of `n` bytes.
unfoldable pub to_le_bytes : ℕ → ℕ → List ℕ
to_le_bytes zero v = []
to_le_bytes (suc n) v = v % 256 ∷ to_le_bytes n (v / 256)

abbrev pub general : TrapFrame → List ℕ
general t =
    t.rax ∷ t.rbx ∷ t.rcx ∷ t.rdx ∷ t.rsi ∷ t.rdi ∷ t.rbp ∷ t.rsp ∷ t.r8 ∷ t.r9 ∷ t.r10 ∷ t.r11
    ∷ t.r12 ∷ t.r13 ∷ t.r14 ∷ t.r15 ∷ t.rip ∷ []

-- `put64` and `put32` of the registers in turn.
unfoldable pub put_words : ℕ → Cursor → List ℕ → Cursor
put_words n c [] = c
put_words n c (v ∷ vs) = put_words n (put_all c (to_le_bytes n v)) vs

-- The control and status words of the x87 unit and the two bases are zero: six words of two bytes
-- and two of four, and two of eight.
abbrev pub tail_widths : List ℕ
tail_widths = 2 ∷ 2 ∷ 2 ∷ 2 ∷ 4 ∷ 2 ∷ 4 ∷ 2 ∷ 8 ∷ 8 ∷ []

unfoldable pub put_zeros : Cursor → List ℕ → Cursor
put_zeros c [] = c
put_zeros c (n ∷ ns) = put_zeros (put_all c (to_le_bytes n 0)) ns

unfoldable pub write_g : Buffer → TrapFrame → Cursor
write_g out t =
    let c₁ = put_words 8 (record { buf = out; at = 0 }) (general t) in
    let c₂ = put_words 4 c₁ (t.rflags ∷ t.cs ∷ t.ss ∷ 0 ∷ 0 ∷ 0 ∷ 0 ∷ []) in
    let c₃ = put_all c₂ (replicate 80 0) in put_zeros c₃ tail_widths

-- `p.get(i)?`, then `from_hex(..)?`
abbrev pub digit_at : Buffer → ℕ → ℕ → Option ℕ
digit_at p len i = if ltb i len then from_hex (p i) else none

-- `r64` and `r32`: `n` bytes from `idx` on, the lowest first.
unfoldable pub read_le : ℕ → Buffer → ℕ → ℕ → Option ℕ
read_le zero p len idx = some 0
read_le (suc n) p len idx = do
  hi ← digit_at p len idx
  lo ← digit_at p len (idx + 1)
  rest ← read_le n p len (idx + 2)
  some (join_nibbles hi lo + 256 * rest)

-- What `read_g` does with a value of so many bytes.
pub record Field : Type 0 where
  pub width : ℕ
  pub store : ℕ → TrapFrame → TrapFrame

abbrev pub ignored : ℕ → Field
ignored n = record { width = n; store = λ _ t. t }

abbrev reg : (ℕ → TrapFrame → TrapFrame) → Field
reg f = record { width = 8; store = f }

abbrev pub low_flags : ℕ → TrapFrame → TrapFrame
low_flags v t = record t { rflags = bit_or (bit_and t.rflags (not64 0xffff_ffff)) v }

abbrev pub fields : List Field
fields =
    reg (λ v t. record t { rax = v })
    ∷ reg (λ v t. record t { rbx = v })
    ∷ reg (λ v t. record t { rcx = v })
    ∷ reg (λ v t. record t { rdx = v })
    ∷ reg (λ v t. record t { rsi = v })
    ∷ reg (λ v t. record t { rdi = v })
    ∷ reg (λ v t. record t { rbp = v })
    ∷ reg (λ v t. record t { rsp = v })
    ∷ reg (λ v t. record t { r8 = v })
    ∷ reg (λ v t. record t { r9 = v })
    ∷ reg (λ v t. record t { r10 = v })
    ∷ reg (λ v t. record t { r11 = v })
    ∷ reg (λ v t. record t { r12 = v })
    ∷ reg (λ v t. record t { r13 = v })
    ∷ reg (λ v t. record t { r14 = v })
    ∷ reg (λ v t. record t { r15 = v })
    ∷ reg (λ v t. record t { rip = v })
    ∷ ignored 8
    ∷ record { width = 4; store = low_flags }
    ∷ ignored 4
    ∷ ignored 4
    ∷ ignored 4
    ∷ ignored 4
    ∷ ignored 4
    ∷ ignored 4
    ∷ ignored 8
    ∷ ignored 8
    ∷ []

-- The fields that are read before a failure stay written.
unfoldable pub read_fields : List Field → Buffer → ℕ → ℕ → TrapFrame → Bool × TrapFrame
read_fields [] p len idx t = (true, t)
read_fields (f ∷ fs) p len idx t = elim (read_le f.width p len idx) [
  | none ↦ (false, t)
  | some v ↦ read_fields fs p len (idx + 2 * f.width) (f.store v t)
]

unfoldable pub read_g : TrapFrame → Buffer → ℕ → Bool × TrapFrame
read_g t p len = if len == g_hex_len then read_fields fields p len 0 t else (false, t)
