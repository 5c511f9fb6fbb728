-- ===== src/Frame/TrapFlag.antt =====
-- `set_tf` and `clear_tf` change the trap flag, bit 8 of the flags, and no other bit.
use jotunheim.Prelude.{ℕ, ◌+◌, ◌-◌, ◌*◌, ap, ◌/◌, ◌%◌, ◌^◌, ◌<◌, ◌≡◌, arith, bit_and, bit_or}
use jotunheim.Prelude.Bits.{bit_and-fields, bit_and-low, bit_or-shift, bit_or-one, bit_and-zero}
use jotunheim.Prelude.Words.{u64_mod, not64}
use jotunheim.Frame.{TrapFrame, clear_tf, set_tf}

or_bit8 : (x : ℕ) → bit_or x 0x100 ≡ x / 512 * 512 + 256 + x % 256
or_bit8 x = ground (arith, bit_or-shift 8 (x / 256) (x % 256) 1, bit_or-one (x / 256))

and_not_bit8 : (x : ℕ) → x < u64_mod → bit_and x (not64 0x100) ≡ x / 512 * 512 + x % 256
and_not_bit8 x h = ground (
  arith,
  bit_and-fields 8 (x / 256) (x % 256) (2 ^ 56 - 2) 255,
  bit_and-fields 1 (x / 512) (x / 256 % 2) (2 ^ 55 - 1) 0,
  bit_and-low 55 0 (x / 512),
  bit_and-low 8 0 (x % 256),
  bit_and-zero (x / 256 % 2),
)

set_then_clear :
    (x : ℕ) → x < u64_mod → bit_and (bit_or x 0x100) (not64 0x100) ≡ bit_and x (not64 0x100)
set_then_clear x h =
    let set : bit_or x 0x100 ≡ x / 512 * 512 + 256 + x % 256 = or_bit8 x in
    omega (arith, and_not_bit8 x h, and_not_bit8 (bit_or x 0x100) (omega arith))

-- With the trap flag set, the bits below and above it are what they were, and bit 8 is one; with the
-- flag cleared, bit 8 is zero.
pub trap_flag :
    (tf : TrapFrame)
    → tf.rflags < u64_mod
    → ((set_tf tf).rflags ≡ tf.rflags / 512 * 512 + 256 + tf.rflags % 256)
      × ((clear_tf tf).rflags ≡ tf.rflags / 512 * 512 + tf.rflags % 256)
      × (clear_tf (set_tf tf) ≡ clear_tf tf)
unfolding set_tf clear_tf
trap_flag tf h = (
  or_bit8 tf.rflags,
  and_not_bit8 tf.rflags h,
  ap (λ (v : ℕ). record tf { rflags = v }) (set_then_clear tf.rflags h),
)
