-- ===== src/Rsp/Packet/Fuel.antt =====
-- Each round of the receiver reads a byte, so a fuel above the bytes at hand is enough, and any such
-- fuel gives the same result.
use jotunheim.Prelude.{
  ℕ, zero, suc, ◌≤◌, ◌<◌, ◌≡◌, ◌≢◌, refl, Bool, Option, none, some, List, [], ◌∷◌, arith,
  Option-cases, inl, inr,
}
use jotunheim.Prelude.Lists.{length}
use jotunheim.Prelude.Buffer.{Buffer}
use jotunheim.Rsp.Hex.{from_hex}
use jotunheim.Rsp.Packet.{
  Wire, putc, Body, absorb, read_body, Round, again, ready, blocked, conclude, trailer, packet,
  first_byte, recv_round, Recv, packet_of, waiting, stuck, after_round, recv_loop, recv_pkt_len,
}

read_body-shorter :
    (cs : List ℕ) (b : Body) (rest : List ℕ) (b' : Body)
    → read_body cs b ≡ some (rest, b')
    → length rest < length cs
unfolding read_body
read_body-shorter [] b rest b' h = cc
read_body-shorter (c ∷ cs) b rest b' h = ground (arith, read_body-shorter cs (absorb b c) rest b')

-- A round that goes on leaves fewer than `n` bytes.
abbrev Below : ℕ → Round → Type 0
Below n (again buf w) = length w.incoming < n
Below n (ready len buf w) = length w.incoming < n
Below n blocked = Unit

Below-mono : {m : ℕ} (r : Round) (n : ℕ) → m ≤ n → Below m r → Below n r
Below-mono (again buf w') n h k = omega arith
Below-mono (ready len buf w') n h k = omega arith
Below-mono blocked n h k = tt

conclude-Below :
    (no_ack : Bool) (b : Body) (x y : Option ℕ) (w : Wire)
    → Below (suc (length w.incoming)) (conclude no_ack b x y w)
unfolding conclude putc
conclude-Below no_ack b (some x) (some y) w = ground arith
conclude-Below no_ack b (some x) none w = ground arith
conclude-Below no_ack b none y w = ground arith

trailer-Below :
    (no_ack : Bool) (b : Body) (rest : List ℕ) (w : Wire) (n : ℕ)
    → length rest < n
    → Below n (trailer no_ack b rest w)
unfolding trailer
trailer-Below no_ack b [] w n h = tt
trailer-Below no_ack b (h1 ∷ []) w n h = tt
trailer-Below no_ack b (h1 ∷ h2 ∷ rest) w n h =
    Below-mono _ n (omega arith)
      (conclude-Below no_ack b (from_hex h1) (from_hex h2) (record w { incoming = rest }))

packet-Below :
    (no_ack : Bool) (buf : Buffer) (w : Wire) (n : ℕ)
    → length w.incoming < n
    → Below n (packet no_ack buf w)
unfolding packet
packet-Below no_ack buf w n h = elim (Option-cases (read_body w.incoming start)) [
  | inl e ↦ rw (e, packet) tt
  | inr ((rest, b), e) ↦
      rw (e, packet)
        (trailer-Below no_ack b rest w n
          (omega (arith, read_body-shorter w.incoming start rest b e)))
]
  where
    start : Body
    start = record { buf = buf; len = 0; cks = 0 }

recv_round-Below :
    (no_ack : Bool) (buf : Buffer) (l : List ℕ) (w : Wire)
    → Below (length l) (recv_round no_ack buf l w)
unfolding recv_round first_byte
recv_round-Below no_ack buf [] w = tt
recv_round-Below no_ack buf (c ∷ rest) w =
    ground (arith, packet-Below no_ack buf (record w { incoming = rest }) (suc (length rest)))

after_round-agree :
    (k k' : Buffer → Wire → Recv) (r : Round) (n : ℕ)
    → Below n r
    → ((buf : Buffer) (w : Wire) → length w.incoming < n → k buf w ≡ k' buf w)
    → after_round k r ≡ after_round k' r
after_round-agree k k' (again buf w) n h same = same buf w h
after_round-agree k k' (ready len buf w) n h same = refl
after_round-agree k k' blocked n h same = refl

-- Two fuels above the bytes at hand agree.
pub recv_loop-agree :
    (f g : ℕ) (no_ack : Bool) (buf : Buffer) (w : Wire)
    → length w.incoming < f
    → length w.incoming < g
    → recv_loop f no_ack buf w ≡ recv_loop g no_ack buf w
unfolding recv_loop
recv_loop-agree zero g no_ack buf w p q = absurd (omega arith)
recv_loop-agree (suc f) zero no_ack buf w p q = absurd (omega arith)
recv_loop-agree (suc f) (suc g) no_ack buf w p q =
    after_round-agree _ _ _ (length w.incoming) (recv_round-Below no_ack buf w.incoming w)
      λ buf' w' h. recv_loop-agree f g no_ack buf' w' (omega arith) (omega arith)

after_round-ne-stuck :
    (k : Buffer → Wire → Recv) (r : Round) (n : ℕ)
    → Below n r
    → ((buf : Buffer) (w : Wire) → length w.incoming < n → k buf w ≢ stuck)
    → after_round k r ≢ stuck
after_round-ne-stuck k (again buf w) n h ends = ends buf w h
after_round-ne-stuck k (ready len buf w) n h ends = λ e. cc
after_round-ne-stuck k blocked n h ends = λ e. cc

recv_loop-ne-stuck :
    (f : ℕ) (no_ack : Bool) (buf : Buffer) (w : Wire)
    → length w.incoming < f
    → recv_loop f no_ack buf w ≢ stuck
unfolding recv_loop
recv_loop-ne-stuck zero no_ack buf w p = absurd (omega arith)
recv_loop-ne-stuck (suc f) no_ack buf w p =
    after_round-ne-stuck _ _ (length w.incoming) (recv_round-Below no_ack buf w.incoming w)
      λ buf' w' h. recv_loop-ne-stuck f no_ack buf' w' (omega arith)

-- The receiver always ends: with a packet, or in a wait for a byte once all that came is read.
pub recv_pkt_len-ne-stuck :
    (no_ack : Bool) (buf : Buffer) (w : Wire) → recv_pkt_len no_ack buf w ≢ stuck
unfolding recv_pkt_len
recv_pkt_len-ne-stuck no_ack buf w =
    recv_loop-ne-stuck (suc (length w.incoming)) no_ack buf w (omega arith)

-- Any fuel above the bytes at hand runs the receiver.
pub recv_loop-recv_pkt_len :
    (f : ℕ) (no_ack : Bool) (buf : Buffer) (w : Wire)
    → length w.incoming < f
    → recv_loop f no_ack buf w ≡ recv_pkt_len no_ack buf w
unfolding recv_pkt_len
recv_loop-recv_pkt_len f no_ack buf w h = recv_loop-agree f _ no_ack buf w h (omega arith)

-- A round that goes on uses up one of the fuel.
pub recv_loop_again :
    (f : ℕ) (no_ack : Bool) (buf buf' : Buffer) (w w' : Wire)
    → recv_round no_ack buf w.incoming w ≡ again buf' w'
    → recv_loop (suc f) no_ack buf w ≡ recv_loop f no_ack buf' w'
unfolding recv_loop
recv_loop_again f no_ack buf buf' w w' e = rw e

-- The bytes that a packet left.
abbrev Left : ℕ → Recv → Type 0
Left n (packet_of len buf w) = length w.incoming < n
Left n waiting = Unit
Left n stuck = Unit

after_round-Left :
    (k : Buffer → Wire → Recv) (r : Round) (n : ℕ)
    → Below n r
    → ((buf : Buffer) (w : Wire) → length w.incoming < n → Left n (k buf w))
    → Left n (after_round k r)
after_round-Left k (again buf w) n h left = left buf w h
after_round-Left k (ready len buf w) n h left = h
after_round-Left k blocked n h left = tt

Left-mono : {m : ℕ} (r : Recv) (n : ℕ) → m ≤ n → Left m r → Left n r
Left-mono (packet_of len buf w) n h k = omega arith
Left-mono waiting n h k = tt
Left-mono stuck n h k = tt

recv_loop-Left :
    (f : ℕ) (no_ack : Bool) (buf : Buffer) (w : Wire)
    → Left (length w.incoming) (recv_loop f no_ack buf w)
unfolding recv_loop
recv_loop-Left zero no_ack buf w = tt
recv_loop-Left (suc f) no_ack buf w =
    after_round-Left _ _ (length w.incoming) (recv_round-Below no_ack buf w.incoming w)
      λ buf' w' h. Left-mono _ _ (omega arith) (recv_loop-Left f no_ack buf' w')

-- A packet takes a byte at least.
pub recv_pkt_len-shorter :
    (no_ack : Bool) (buf : Buffer) (w : Wire) (len : ℕ) (buf' : Buffer) (w' : Wire)
    → recv_pkt_len no_ack buf w ≡ packet_of len buf' w'
    → length w'.incoming < length w.incoming
unfolding recv_pkt_len
recv_pkt_len-shorter no_ack buf w len buf' w' e =
    rw e at (recv_loop-Left (suc (length w.incoming)) no_ack buf w)
