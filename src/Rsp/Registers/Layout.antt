-- ===== src/Rsp/Registers/Layout.antt =====
-- The bytes that `write_g` writes, and how `read_g` cuts them into fields.
use jotunheim.Prelude.{
  ℕ, zero, suc, ◌/◌, ◌%◌, ◌^◌, ◌<◌, ◌≡◌, refl, List, [], ◌∷◌, ◌++◌, append_assoc, arith,
}
use jotunheim.Prelude.Lists.{length, All, All-append, replicate}
use jotunheim.Prelude.Buffer.{Buffer}
use jotunheim.Prelude.Words.{u64_mod}
use jotunheim.Frame.{TrapFrame}
use jotunheim.Rsp.Registers.{put_all, to_le_bytes, general, tail_widths, write_g, fields}
use jotunheim.Rsp.Registers.Bytes.{
  put_all-append, words, put_words-words, zeros, put_zeros-zeros, from_le, from_le-to_le_bytes,
}
use jotunheim.Rsp.Registers.Fields.{concat, Encodes}

-- Every general register, and the instruction pointer, fits a machine word.
abbrev pub AreWords : TrapFrame → Type 0
AreWords t = All (λ v. v < u64_mod) (general t)

-- The bytes behind the general registers, as `read_g` cuts them.
abbrev pub flags_and_cs : TrapFrame → List ℕ
flags_and_cs t = to_le_bytes 4 t.rflags ++ to_le_bytes 4 t.cs

abbrev pub chunks : TrapFrame → List (List ℕ)
chunks t =
    to_le_bytes 8 t.rax
    ∷ to_le_bytes 8 t.rbx
    ∷ to_le_bytes 8 t.rcx
    ∷ to_le_bytes 8 t.rdx
    ∷ to_le_bytes 8 t.rsi
    ∷ to_le_bytes 8 t.rdi
    ∷ to_le_bytes 8 t.rbp
    ∷ to_le_bytes 8 t.rsp
    ∷ to_le_bytes 8 t.r8
    ∷ to_le_bytes 8 t.r9
    ∷ to_le_bytes 8 t.r10
    ∷ to_le_bytes 8 t.r11
    ∷ to_le_bytes 8 t.r12
    ∷ to_le_bytes 8 t.r13
    ∷ to_le_bytes 8 t.r14
    ∷ to_le_bytes 8 t.r15
    ∷ to_le_bytes 8 t.rip
    ∷ flags_and_cs t
    ∷ to_le_bytes 4 t.ss
    ∷ to_le_bytes 4 0
    ∷ to_le_bytes 4 0
    ∷ to_le_bytes 4 0
    ∷ to_le_bytes 4 0
    ∷ to_le_bytes 4 0
    ∷ to_le_bytes 4 0
    ∷ to_le_bytes 8 0
    ∷ to_le_bytes 8 0
    ∷ []

abbrev pub values : TrapFrame → List ℕ
values t =
    general t ++ from_le (flags_and_cs t) ∷ t.ss % 2 ^ 32 ∷ 0 ∷ 0 ∷ 0 ∷ 0 ∷ 0 ∷ 0 ∷ 0 ∷ 0 ∷ []

abbrev pub selectors : TrapFrame → List ℕ
selectors t = t.rflags ∷ t.cs ∷ t.ss ∷ 0 ∷ 0 ∷ 0 ∷ 0 ∷ []

-- All the bytes that `write_g` writes.
abbrev pub text : TrapFrame → List ℕ
text t = words 8 (general t) ++ (words 4 (selectors t) ++ (replicate 80 0 ++ zeros tail_widths))

pub write_g-text :
    (out : Buffer) (t : TrapFrame) → write_g out t ≡ put_all (record { buf = out; at = 0 }) (text t)
unfolding write_g
write_g-text out t = simp (put_words-words, put_zeros-zeros, put_all-append, append_assoc)

-- `write_g` writes 560 digits.
pub length-text : (t : TrapFrame) → length (text t) ≡ 280
unfolding to_le_bytes
length-text t = refl

pub length-chunks : (t : TrapFrame) → length (concat (chunks t)) ≡ 188
unfolding to_le_bytes
length-chunks t = refl

pub text-chunks : (t : TrapFrame) → text t ≡ concat (chunks t) ++ replicate 92 0
unfolding to_le_bytes
text-chunks t = refl

pub word8 : (v : ℕ) → v < u64_mod → from_le (to_le_bytes 8 v) ≡ v
word8 v h = from_le-to_le_bytes 8 v h

pub word4 : (v : ℕ) → from_le (to_le_bytes 4 v) ≡ v % 2 ^ 32
unfolding to_le_bytes
word4 v = omega arith

pub chunks-Encodes : (t : TrapFrame) → AreWords t → Encodes fields (chunks t) (values t)
unfolding to_le_bytes
chunks-Encodes t h = (
  refl,
  word8 t.rax h.0,
  (
    refl,
    word8 t.rbx h.1.0,
    (
      refl,
      word8 t.rcx h.1.1.0,
      (
        refl,
        word8 t.rdx h.1.1.1.0,
        (
          refl,
          word8 t.rsi h.1.1.1.1.0,
          (
            refl,
            word8 t.rdi h.1.1.1.1.1.0,
            (
              refl,
              word8 t.rbp h.1.1.1.1.1.1.0,
              (
                refl,
                word8 t.rsp h.1.1.1.1.1.1.1.0,
                (
                  refl,
                  word8 t.r8 h.1.1.1.1.1.1.1.1.0,
                  (
                    refl,
                    word8 t.r9 h.1.1.1.1.1.1.1.1.1.0,
                    (
                      refl,
                      word8 t.r10 h.1.1.1.1.1.1.1.1.1.1.0,
                      (
                        refl,
                        word8 t.r11 h.1.1.1.1.1.1.1.1.1.1.1.0,
                        (
                          refl,
                          word8 t.r12 h.1.1.1.1.1.1.1.1.1.1.1.1.0,
                          (
                            refl,
                            word8 t.r13 h.1.1.1.1.1.1.1.1.1.1.1.1.1.0,
                            (
                              refl,
                              word8 t.r14 h.1.1.1.1.1.1.1.1.1.1.1.1.1.1.0,
                              (
                                refl,
                                word8 t.r15 h.1.1.1.1.1.1.1.1.1.1.1.1.1.1.1.0,
                                (
                                  refl,
                                  word8 t.rip h.1.1.1.1.1.1.1.1.1.1.1.1.1.1.1.1.0,
                                  (
                                    refl,
                                    refl,
                                    (
                                      refl,
                                      word4 t.ss,
                                      (
                                        refl,
                                        refl,
                                        (
                                          refl,
                                          refl,
                                          (
                                            refl,
                                            refl,
                                            (
                                              refl,
                                              refl,
                                              (
                                                refl,
                                                refl,
                                                (refl, refl, (refl, refl, (refl, refl, (tt)))),
                                              ),
                                            ),
                                          ),
                                        ),
                                      ),
                                    ),
                                  ),
                                ),
                              ),
                            ),
                          ),
                        ),
                      ),
                    ),
                  ),
                ),
              ),
            ),
          ),
        ),
      ),
    ),
  ),
)

abbrev pub IsByte : ℕ → Type 0
IsByte b = b < 256

pub to_le_bytes-All : (n v : ℕ) → All IsByte (to_le_bytes n v)
unfolding to_le_bytes
to_le_bytes-All zero v = tt
to_le_bytes-All (suc n) v = (omega arith, to_le_bytes-All n (v / 256))

pub words-All : (n : ℕ) (vs : List ℕ) → All IsByte (words n vs)
words-All n [] = tt
words-All n (v ∷ vs) =
    All-append IsByte (to_le_bytes n v) (words n vs) (to_le_bytes-All n v) (words-All n vs)

pub zeros-All : (ns : List ℕ) → All IsByte (zeros ns)
zeros-All [] = tt
zeros-All (n ∷ ns) =
    All-append IsByte (to_le_bytes n 0) (zeros ns) (to_le_bytes-All n 0) (zeros-All ns)

pub replicate-All : (n : ℕ) → All IsByte (replicate n 0)
replicate-All zero = tt
replicate-All (suc n) = (omega arith, replicate-All n)

pub text-All : (t : TrapFrame) → All IsByte (text t)
text-All t = All-append IsByte (words 8 (general t)) _ (words-All 8 (general t)) (
    All-append IsByte (words 4 (selectors t)) (replicate 80 0 ++ zeros tail_widths)
      (words-All 4 (selectors t))
      (All-append IsByte (replicate 80 0) _ (replicate-All 80) (zeros-All tail_widths)))
