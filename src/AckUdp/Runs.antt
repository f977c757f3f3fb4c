-- ===== src/AckUdp/Runs.antt =====
-- A message, its reply and the worker at small values.
use aionetiface.Prelude.{◌≡◌, refl, arith, true, none, some, [], ◌∷◌}
use aionetiface.Bytes.{Bytes, ok}
use aionetiface.AckUdp.{AckUdp, ack_udp, handle_ack, ack_send, message_buf, prune}
use aionetiface.AckUdp.Laws.{sees, handle_ack-ack_send}

-- A sender with another message out.
abbrev alice : AckUdp
alice = record { seq = (5, 0) ∷ []; set_events = []; next_event = 1 }

handle_ack-ack_send_example :
    (buf : Bytes) × (ack : Bytes) × (message_buf 77 (1 ∷ 2 ∷ []) ≡ ok buf)
    × (handle_ack ack_udp buf
        ≡ ok (record { status = 2; payload = some (1 ∷ 2 ∷ []); reply = some ack }, prune ack_udp))
    × (sees (ack_send alice 77).0 (handle_ack (ack_send alice 77).1 ack)
        ≡ ok (record { status = 0; payload = none; reply = none }, true))
    × (sees (ack_send alice 77).0 (handle_ack (ack_send alice 77).1 buf)
        ≡ ok (record { status = 1; payload = some (1 ∷ 2 ∷ []); reply = none }, true))
handle_ack-ack_send_example = handle_ack-ack_send alice ack_udp 77 (1 ∷ 2 ∷ []) (omega arith) refl
