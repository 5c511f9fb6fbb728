-- ===== src/Boot/Pages.antt =====
-- The firmware's page allocation, `boot::allocate_pages`, as an interface: the operation with what
-- the UEFI specification says of it, and the memory that holds the page tables.
use jotunheim.Prelude.{ℕ, ◌%◌, ◌^◌, ◌<◌, ◌≡◌, Option, none, some, ◌==◌, ◌&&◌, if◌then◌else◌, ◌>>=◌}

-- `AllocateType`
pub data AllocateType : Type 0 where
  any_pages : AllocateType
  max_address : ℕ → AllocateType

-- One page of loader data at a time: its address, and the firmware's state after the call.
pub record Firmware : Type 1 where
  pub State : Type 0
  pub allocate : AllocateType → State → Option (ℕ × State)
  pub Taken : State → ℕ → Type 0
  pub allocate-fresh :
      (k : AllocateType) (s s' : State) (p : ℕ) → allocate k s ≡ some (p, s') → ¬ Taken s p
  pub allocate-taken :
      (k : AllocateType) (s s' : State) (p : ℕ) → allocate k s ≡ some (p, s') → Taken s' p
  pub allocate-keeps :
      (k : AllocateType) (s s' : State) (p q : ℕ)
      → allocate k s ≡ some (p, s')
      → Taken s q
      → Taken s' q
  pub allocate-page :
      (k : AllocateType) (s s' : State) (p : ℕ)
      → allocate k s ≡ some (p, s')
      → (p % 4096 ≡ 0) × (p < 2 ^ 52)

-- The firmware can refuse a page.
abbrev pub Refused : Firmware → Type 0
Refused fw = (k : AllocateType) × (s : fw.State) × (fw.allocate k s ≡ none)

-- The entries of every page, by the page's physical address.
abbrev pub Memory : Type 0
Memory = ℕ → ℕ → ℕ

abbrev pub write_entry : Memory → ℕ → ℕ → ℕ → Memory
write_entry mem page i e q j = if (q == page) && (j == i) then e else mem q j

abbrev pub zero_page : Memory → ℕ → Memory
zero_page mem page q j = if q == page then 0 else mem q j

module _ (fw : Firmware) where
  pub record Store : Type 0 where
    pub firmware : fw.State
    pub mem : Memory

  -- The page and the store, with the page cleared.
  unfoldable pub take_page : AllocateType → Store → Option (ℕ × Store)
  take_page k st = fw.allocate k st.firmware >>= λ (p, f).
      some (p, record { firmware = f; mem = zero_page st.mem p })

  abbrev pub alloc_zero_page_low : Store → Option (ℕ × Store)
  alloc_zero_page_low = take_page (max_address 0x0000fffffffff000)

  abbrev pub alloc_zero_page : Store → Option (ℕ × Store)
  alloc_zero_page = take_page any_pages
