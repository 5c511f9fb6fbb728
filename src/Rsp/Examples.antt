-- ===== src/Rsp/Examples.antt =====
-- The parsers and the stop reply at inputs that meet the theorems' hypotheses.
use jotunheim.Prelude.{ℕ, ◌≡◌, refl, none, some, List, [], codes, arith, ◌==◌, if◌then◌else◌}
use jotunheim.Prelude.Buffer.{Buffer}
use jotunheim.Rsp.Hex.{from_hex}
use jotunheim.Rsp.Packet.{Wire}
use jotunheim.Rsp.Packet.Send.{frame, written}
use jotunheim.Rsp.Parse.Numbers.{read_digits}
use jotunheim.Rsp.Stop.{send_t_stop}
use jotunheim.Rsp.Stop.Reply.{Digits, stop_payload, send_t_stop-frame}

-- `m1f,8`
abbrev request : Buffer
request n =
    if n == 0
    then b'm'
    else if n == 1
    then b'1'
    else if n == 2
    then b'f'
    else if n == 3
    then b','
    else b'8'

value_1f : read_digits 0 (codes "1f") ≡ some 0x1f
unfolding from_hex
value_1f = refl

value_8 : read_digits 0 (codes "8") ≡ some 8
unfolding from_hex
value_8 = refl

comma_stops : from_hex (request 3) ≡ none
unfolding from_hex
comma_stops = refl

abbrev idle_line : Wire
idle_line = record { incoming = []; outgoing = [] }

send_t_stop-frame_example :
    (ts : List ℕ) × (ps : List ℕ) × Digits 1 ts
    × Digits 0xffff_8000 ps
    × (send_t_stop idle_line 5 1 0xffff_8000
        ≡ some (written idle_line (frame (stop_payload 5 ts ps))))
send_t_stop-frame_example = send_t_stop-frame idle_line 5 1 0xffff_8000 (omega arith) (omega arith)
