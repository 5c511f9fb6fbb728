-- ===== src/Machine.antt =====
-- The machine that the kernel's raw reads and writes reach: the bytes of the address space, and
-- which of them are memory. A write elsewhere is lost, as in ROM or in a hole.
use jotunheim.Prelude.{ℕ, ◌≡◌, Bool, false, ◌==◌, arith, if◌then◌else◌}
use jotunheim.Prelude.Buffer.{Buffer, poke}

pub record Machine : Type 0 where
  pub bytes : Buffer
  pub ram : ℕ → Bool
  -- `CR0.WP`
  pub write_protect : Bool

-- `read_byte` of jotunheimkernel/src/debug/breakpoint.rs
unfoldable pub read_byte : Machine → ℕ → ℕ
read_byte m addr = m.bytes addr

-- `write_byte` of jotunheimkernel/src/debug/breakpoint.rs
unfoldable pub write_byte : ℕ → ℕ → Machine → Machine
write_byte addr v m = if m.ram addr then record m { bytes = poke m.bytes addr v } else m

-- `CR0.WP` is clear while `f` runs, and then what it was.
unfoldable pub with_wp_disabled : (Machine → Machine) → Machine → Machine
with_wp_disabled f m =
    if m.write_protect
    then record (f (record m { write_protect = false })) { write_protect = m.write_protect }
    else f m

module _ (m : Machine) (addr v : ℕ) where
  pub bytes-patch :
      (a : ℕ)
      → (with_wp_disabled (write_byte addr v) m).bytes a
        ≡ (if m.ram addr then if addr == a then v else m.bytes a else m.bytes a)
  unfolding with_wp_disabled write_byte
  bytes-patch a = ground arith

  pub ram-patch : (with_wp_disabled (write_byte addr v) m).ram ≡ m.ram
  unfolding with_wp_disabled write_byte
  ram-patch = ground arith

  -- Patching leaves write protection as it found it.
  pub write_protect-patch : (with_wp_disabled (write_byte addr v) m).write_protect ≡ m.write_protect
  unfolding with_wp_disabled write_byte
  write_protect-patch = ground arith
