-- ===== src/Acpi/Tables.antt =====
-- System description tables: the checksum, the header, and the search of the root tables for a
-- signature, in jotunheimkernel/src/acpi/madt.rs.
use jotunheim.Prelude.{
  ℕ, zero, suc, ◌+◌, ◌-◌, ◌*◌, ◌/◌, ◌%◌, ◌≤◌, ◌<◌, ◌≡◌, refl, ap, sym, ◌∙◌, Bool, true, false, not,
  ◌&&◌, Option, none, some, List, [], ◌∷◌, arith, ltb, ◌==◌, if◌then◌else◌, ◌>>=◌, inl, inr,
  Bool-cases, Option-cases,
}
use jotunheim.Prelude.Buffer.{Buffer, window}
use jotunheim.Prelude.Words.{add64}

-- `u16`, `u32` and `u64::from_le_bytes` of `n` bytes from `a` on.
unfoldable pub le_at : ℕ → Buffer → ℕ → ℕ
le_at zero mem a = 0
le_at (suc n) mem a = mem a + 256 * le_at n mem (a + 1)

-- The fold of `checksum_ok` over `n` bytes from `a` on.
unfoldable pub sum_bytes : ℕ → Buffer → ℕ → ℕ → ℕ
sum_bytes zero mem a acc = acc
sum_bytes (suc n) mem a acc = sum_bytes n mem (a + 1) ((acc + mem a) % 256)

unfoldable pub checksum_ok : Buffer → ℕ → ℕ → Bool
checksum_ok mem a n = sum_bytes n mem a 0 == 0

-- The header, as far as the code uses it.
pub record SdtHeader : Type 0 where
  pub sig : List ℕ
  pub length : ℕ

abbrev pub sdt_header_size : ℕ
sdt_header_size = 36

abbrev pub header_at : Buffer → ℕ → SdtHeader
header_at mem a = record { sig = window mem a 4; length = le_at 4 mem (a + 4) }

unfoldable pub sdt_valid : Buffer → ℕ → ℕ → Option SdtHeader
sdt_valid mem hhdm phys =
    let a = add64 hhdm phys in
    let hdr = header_at mem a in
    if ltb hdr.length sdt_header_size
    then none
    else if not (checksum_ok mem a hdr.length)
    then none
    else some hdr

abbrev pub same_bytes : List ℕ → List ℕ → Bool
same_bytes [] [] = true
same_bytes [] (y ∷ ys) = false
same_bytes (x ∷ xs) [] = false
same_bytes (x ∷ xs) (y ∷ ys) = x == y && same_bytes xs ys

-- The loop over the pointers of a root table, of `width` bytes each, from the `i`-th on.
unfoldable pub search_pointers : ℕ → ℕ → Buffer → ℕ → ℕ → List ℕ → ℕ → Option (ℕ × ℕ)
search_pointers zero width mem hhdm root want i = none
search_pointers (suc left) width mem hhdm root want i =
    let rest = search_pointers left width mem hhdm root want (i + 1) in
    let table_phys = le_at width mem (add64 hhdm (add64 root (sdt_header_size + i * width))) in
    elim (sdt_valid mem hhdm table_phys) [
      | none ↦ rest
      | some thdr ↦ if same_bytes thdr.sig want then some (table_phys, thdr.length) else rest
    ]

-- `find_sdt_by_sig_xsdt` with a width of eight bytes, `find_sdt_by_sig_rsdt` with one of four.
unfoldable pub find_sdt_by_sig : ℕ → Buffer → ℕ → ℕ → List ℕ → Option (ℕ × ℕ)
find_sdt_by_sig width mem hhdm root want = sdt_valid mem hhdm root >>= λ sdt.
    search_pointers ((sdt.length - sdt_header_size) / width) width mem hhdm root want 0

same_bytes-eq : (xs ys : List ℕ) → same_bytes xs ys ≡ true → xs ≡ ys
same_bytes-eq [] [] h = refl
same_bytes-eq [] (y ∷ ys) h = cc
same_bytes-eq (x ∷ xs) [] h = cc
same_bytes-eq (x ∷ xs) (y ∷ ys) h = ground (arith, same_bytes-eq xs ys)

-- The sum of `n` bytes from `a` on.
abbrev pub total : ℕ → Buffer → ℕ → ℕ
total zero mem a = 0
total (suc n) mem a = mem a + total n mem (a + 1)

sum_bytes-total :
    (n : ℕ) (mem : Buffer) (a acc : ℕ) → sum_bytes n mem a (acc % 256) ≡ (acc + total n mem a) % 256
unfolding sum_bytes
sum_bytes-total zero mem a acc = omega arith
sum_bytes-total (suc n) mem a acc =
    let step : (acc % 256 + mem a) % 256 ≡ (acc + mem a) % 256 = omega arith in
    ap (λ (x : ℕ). sum_bytes n mem (a + 1) x) step
    ∙ sum_bytes-total n mem (a + 1) (acc + mem a)
    ∙ ap (λ (x : ℕ). x % 256) (omega arith)

checksum_ok-total : (mem : Buffer) (a n : ℕ) → checksum_ok mem a n ≡ true → total n mem a % 256 ≡ 0
unfolding checksum_ok
checksum_ok-total mem a n ok = ground (arith, sum_bytes-total n mem a 0)

-- A table that may be used: it has a header at least, its bytes sum to a multiple of 256, and its signature is the
-- one wanted.
pub record IsTable (mem : Buffer) (hhdm : ℕ) (want : List ℕ) (phys len : ℕ) : Type 0 where
  pub signature : window mem (add64 hhdm phys) 4 ≡ want
  pub sized : len ≡ le_at 4 mem (add64 hhdm phys + 4)
  pub long : sdt_header_size ≤ len
  pub sums : total len mem (add64 hhdm phys) % 256 ≡ 0

sdt_valid-header :
    (mem : Buffer) (hhdm phys : ℕ) (hdr : SdtHeader)
    → sdt_valid mem hhdm phys ≡ some hdr
    → IsTable mem hhdm hdr.sig phys hdr.length
unfolding sdt_valid
sdt_valid-header mem hhdm phys hdr e = elim (Bool-cases (ltb found.length sdt_header_size)) [
  | inl short ↦ ground arith
  | inr enough ↦ elim (Bool-cases (checksum_ok mem (add64 hhdm phys) found.length)) [
    | inr bad ↦ ground arith
    | inl good ↦
        let same : found ≡ hdr = ground arith in
        record {
          signature = ap (λ (h : SdtHeader). h.sig) same;
          sized = sym (ap (λ (h : SdtHeader). h.length) same);
          long = ground (arith, ap (λ (h : SdtHeader). h.length) same);
          sums =
              ap (λ (h : SdtHeader). total h.length mem (add64 hhdm phys) % 256) (sym same)
              ∙ checksum_ok-total mem (add64 hhdm phys) found.length good;
        }
  ]
]
  where
    found : SdtHeader
    found = header_at mem (add64 hhdm phys)

search_pointers-IsTable :
    (left width : ℕ) (mem : Buffer) (hhdm root : ℕ) (want : List ℕ) (i phys len : ℕ)
    → search_pointers left width mem hhdm root want i ≡ some (phys, len)
    → IsTable mem hhdm want phys len
      × (k : ℕ) × (i ≤ k)
      × (k < i + left)
      × (phys ≡ le_at width mem (add64 hhdm (add64 root (sdt_header_size + k * width))))
unfolding search_pointers
search_pointers-IsTable zero width mem hhdm root want i phys len e = cc
search_pointers-IsTable (suc left) width mem hhdm root want i phys len e =
    elim (Option-cases (sdt_valid mem hhdm here)) [
      | inl n ↦
          let (table, k, lo, hi, at) =
            search_pointers-IsTable left width mem hhdm root want (i + 1) phys len
              (rw (n, search_pointers) at e) in
          (table, k, omega arith, omega arith, at)
      | inr (hdr, valid) ↦ elim (Bool-cases (same_bytes hdr.sig want)) [
        | inr other ↦
            let (table, k, lo, hi, at) =
              search_pointers-IsTable left width mem hhdm root want (i + 1) phys len
                (rw (valid, search_pointers, other) at e) in
            (table, k, omega arith, omega arith, at)
        | inl same ↦
            let found : ◌≡◌ {A = Option (ℕ × ℕ)} (some (here, hdr.length)) (some (phys, len)) =
              rw (valid, search_pointers, same) at e in
            let same_phys : here ≡ phys = cc in
            let same_len : hdr.length ≡ len = cc in
            let table : IsTable mem hhdm hdr.sig here hdr.length =
              sdt_valid-header mem hhdm here hdr valid in
            (
              rw (same_bytes-eq hdr.sig want same, same_phys, same_len) at table,
              i,
              omega arith,
              omega arith,
              sym same_phys,
            )
      ]
    ]
  where
    here : ℕ
    here = le_at width mem (add64 hhdm (add64 root (sdt_header_size + i * width)))

-- What the search gives is named by one of the pointers of the root table, has the wanted signature,
-- and its bytes, as many as its header says, sum to a multiple of 256; and the root table is one whose
-- bytes do.
pub find_sdt_by_sig-IsTable :
    (width : ℕ) (mem : Buffer) (hhdm root : ℕ) (want : List ℕ) (phys len : ℕ)
    → find_sdt_by_sig width mem hhdm root want ≡ some (phys, len)
    → IsTable mem hhdm want phys len
      × (hdr : SdtHeader) × IsTable mem hhdm hdr.sig root hdr.length
      × (k : ℕ) × (k < (hdr.length - sdt_header_size) / width)
      × (phys ≡ le_at width mem (add64 hhdm (add64 root (sdt_header_size + k * width))))
unfolding find_sdt_by_sig
find_sdt_by_sig-IsTable width mem hhdm root want phys len e =
    elim (Option-cases (sdt_valid mem hhdm root)) [
      | inl n ↦ ground arith
      | inr (hdr, valid) ↦
          let (table, k, lo, hi, at) =
            search_pointers-IsTable ((hdr.length - sdt_header_size) / width) width mem hhdm root
              want 0 phys len (rw (valid) at e) in
          (table, hdr, sdt_valid-header mem hhdm root hdr valid, k, omega arith, at)
    ]
