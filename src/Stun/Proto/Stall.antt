-- ===== src/Stun/Proto/Stall.antt =====
-- A reply on which the loop of `stun_proto` stands still.
use aionetiface.Prelude.{ℕ, zero, suc, ◌+◌, ◌-◌, ◌≤◌, ◌≡◌, refl, arith, length, drop}
use aionetiface.Prelude.{none, some}
use aionetiface.Prelude.{ltb-eq_false, leb-eq_true, leb-eq_false, ==-eq_false, length-take}
use aionetiface.Prelude.{length-drop}
use aionetiface.Bytes.{Bytes, ok, slice, u16_at}
use aionetiface.Stun.Address.{Family}
use aionetiface.Stun.Message.{StunMsg, eof, read_attr, header_of, decode, unpack, stun_msg, binding}
use aionetiface.Stun.Message.{request, rfc3489}
use aionetiface.Stun.Proto.{stun_proc_attrs, take_attr, proto_loop, stun_proto}

-- Two or three bytes are no attribute and not the end either: a round changes nothing.
stays :
    (family : Family) (m : StunMsg)
    → 1 ≤ length m.msg
    → length m.msg ≤ 3
    → m.attr_cursor ≡ 0
    → m.rtup ≡ none
    → m.ctup ≡ none
    → take_attr family m ≡ ok m
unfolding take_attr read_attr stun_proc_attrs
stays family m h k start no_rtup no_ctup =
    rw (start, no_rtup, no_ctup, ltb-eq_false 3 (length m.msg) k)

loop_stays :
    (rounds : ℕ) (family : Family) (m : StunMsg)
    → 2 ≤ m.msg_len
    → take_attr family m ≡ ok m
    → m.attr_cursor ≡ 0
    → proto_loop rounds family m ≡ none
unfolding proto_loop eof
loop_stays zero family m h still start =
    rw (leb-eq_false (m.msg_len - 1) m.attr_cursor (omega arith))
loop_stays (suc rounds) family m h still start =
    rw (leb-eq_false (m.msg_len - 1) m.attr_cursor (omega arith), still)
      (loop_stays rounds family m h still start)

-- A reply whose length field says two or three, and that has these bytes, keeps `stun_proto` in
-- its loop for ever: no number of rounds is enough.
pub stun_proto_stalls :
    (rounds : ℕ) (fresh buf : Bytes) (family : Family)
    → 2 ≤ u16_at buf 2
    → u16_at buf 2 ≤ 3
    → 20 + u16_at buf 2 ≤ length buf
    → stun_proto rounds fresh buf family ≡ none
unfolding stun_proto unpack decode
stun_proto_stalls rounds fresh buf family two three whole =
    let len = u16_at buf 2 in
    let body = slice 20 (20 + len) buf in
    let m = record (header_of (stun_msg fresh binding request rfc3489) buf) {
      msg = body;
      af = some family;
    } in
    let size : length body ≡ len =
      omega (arith, length-take (20 + len - 20) (drop 20 buf), length-drop 20 buf) in
    let still = stays family m (omega arith) (omega arith) refl refl refl in
    rw (
      leb-eq_true 20 (length buf) (omega arith),
      ==-eq_false len 0 (λ e. absurd (omega arith)),
      leb-eq_true (20 + (len - 1)) (length buf - 1) (omega arith),
      loop_stays rounds family m two still refl,
    )
