-- ===== src/Mem/Mapping/Tables.antt =====
-- Page tables that are a function, with frames that never run out: an instance of the interfaces to the
-- crate that jotunheimkernel/src/mem/mod.rs maps with.
use jotunheim.Prelude.{
  ℕ, suc, ◌*◌, ◌≡◌, ◌≢◌, refl, sym, ap, Bool, Option, none, some, ◌==◌, if◌then◌else◌,
}
use jotunheim.Mem.Mapping.{FrameSource, Mapper, MapTo, mapped, already_mapped, Flag, State}

abbrev pub endless : FrameSource
endless = record { Frames = ℕ; allocate_frame = λ n. (some (n * 4096), suc n) }

abbrev pub Pages : Type 0
Pages = ℕ → Option ℕ

abbrev pub Space : Type 0
Space = Pages × ℕ

-- A page that has a frame already keeps it.
abbrev pub place_page : Option ℕ → ℕ → ℕ → Space → MapTo × Space
place_page (some old) page frame s = (already_mapped, s)
place_page none page frame s = (mapped, ((λ q. if page == q then some frame else s.0 q), s.1))

abbrev pub map_page : ℕ → ℕ → (Flag → Bool) → Space → MapTo × Space
map_page page frame flags s = place_page (s.0 page) page frame s

pub place_page-mapped :
    (o : Option ℕ) (page frame : ℕ) (s s' : Space)
    → place_page o page frame s ≡ (mapped, s')
    → (q : ℕ) → s'.0 q ≡ (if page == q then some frame else s.0 q)
place_page-mapped (some old) page frame s s' e q =
    absurd (let wrong : already_mapped ≡ mapped = ap (λ (r : MapTo × Space). r.0) e in cc)
place_page-mapped none page frame s s' e q = ap (λ (r : MapTo × Space). r.1.0 q) (sym e)

pub place_page-already :
    (o : Option ℕ) (page frame : ℕ) (s s' : Space)
    → s.0 page ≡ o
    → place_page o page frame s ≡ (already_mapped, s')
    → (s.0 page ≢ none) × ((q : ℕ) → s'.0 q ≡ s.0 q)
place_page-already (some old) page frame s s' at e =
    ((λ n. cc), λ q. ap (λ (r : MapTo × Space). r.1.0 q) (sym e))
place_page-already none page frame s s' at e =
    absurd (let wrong : mapped ≡ already_mapped = ap (λ (r : MapTo × Space). r.0) e in cc)

abbrev pub tables : Mapper endless
tables = record {
  Tables = Pages;
  translate = λ t q. t q;
  map_to = map_page;
  update_flags = λ page flags t. some t;
  map_to-mapped = λ page frame flags s s' e q. place_page-mapped (s.0 page) page frame s s' e q;
  map_to-already = λ page frame flags s s' e. place_page-already (s.0 page) page frame s s' refl e;
  update_flags-translate = λ page flags t t' e q.
      ap (λ (o : Option Pages). elim o [ none ↦ none | some r ↦ r q ]) (sym e);
}

abbrev pub nothing_mapped : State endless tables
nothing_mapped = ((λ q. none), 16)
