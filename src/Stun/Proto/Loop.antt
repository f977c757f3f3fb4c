-- ===== src/Stun/Proto/Loop.antt =====
-- The loop of `stun_proto` over attributes that stand one after the other.
use aionetiface.Prelude.{ℕ, zero, suc, ◌+◌, ◌-◌, ◌≤◌, ◌≡◌, refl, ap, ◌∙◌}
use aionetiface.Prelude.{arith, [], ◌∷◌, ◌++◌, length, drop, Option, some, true, false}
use aionetiface.Prelude.{length-drop, drop-add, drop-append}
use aionetiface.Prelude.{leb-eq_true, leb-eq_false}
use aionetiface.Bytes.{Bytes, ok, err, Result, ◌>>=◌}
use aionetiface.Stun.Address.{Family, Addr}
use aionetiface.Stun.Message.{StunMsg, eof}
use aionetiface.Stun.Message.Reading.{
  attr_wire, content, wire_len, length-attr_wire, read_attr-wire,
}
use aionetiface.Stun.Message.Writing.{Attrs, attrs_wire}
use aionetiface.Stun.Proto.{
  settle, stun_proc_attrs, take_attr, go_on, proto_loop, find_rtup, find_ctup,
}

-- What the loop comes to: each attribute is processed in its turn, and the cursor stands behind
-- it.
abbrev pub moved : StunMsg → Bytes → StunMsg
moved m bytes = record m { attr_cursor = m.attr_cursor + wire_len bytes }

unfoldable pub read_all : Family → Attrs → StunMsg → Result StunMsg
read_all family [] m = ok m
read_all family ((code, bytes) ∷ attrs) m =
    stun_proc_attrs family (some code) (content bytes) (moved m bytes) >>= read_all family attrs

-- Whatever the two attributes become, the loop goes on as `rest` says.
go_on-settle :
    (next : StunMsg → Option (Result StunMsg)) (rest : StunMsg → Result StunMsg) (m : StunMsg)
    (mapped changed : Result (Option Addr))
    → ((found other : Option Addr)
        → next (record m { rtup = found; ctup = other })
          ≡ some (rest (record m { rtup = found; ctup = other })))
    → go_on next (settle m mapped changed) ≡ some (settle m mapped changed >>= rest)
go_on-settle next rest m (err e) changed agree = refl
go_on-settle next rest m (ok found) (err e) agree = refl
go_on-settle next rest m (ok found) (ok other) agree = agree found other

eof_at : (m : StunMsg) → m.msg_len ≡ length m.msg → drop m.attr_cursor m.msg ≡ [] → eof m ≡ true
unfolding eof
eof_at m full done =
    leb-eq_true (m.msg_len - 1) m.attr_cursor
      (omega (arith, ap length done, length-drop m.attr_cursor m.msg))

eof_before :
    (m : StunMsg) (code : ℕ) (bytes rest : Bytes)
    → m.msg_len ≡ length m.msg
    → drop m.attr_cursor m.msg ≡ attr_wire code bytes ++ rest
    → eof m ≡ false
unfolding eof
eof_before m code bytes rest full at =
    leb-eq_false (m.msg_len - 1) m.attr_cursor
      (omega (arith, ap length at, length-drop m.attr_cursor m.msg))

-- The loop over a message whose rest is these attributes, on enough rounds.
pub proto_loop-read_all :
    (rounds : ℕ) (family : Family) (attrs : Attrs) (m : StunMsg)
    → length attrs ≤ rounds
    → m.msg_len ≡ length m.msg
    → drop m.attr_cursor m.msg ≡ attrs_wire attrs
    → proto_loop rounds family m ≡ some (read_all family attrs m)
unfolding proto_loop read_all take_attr stun_proc_attrs
proto_loop-read_all zero family [] m enough full at = rw (eof_at m full at)
proto_loop-read_all (suc rounds) family [] m enough full at = rw (eof_at m full at)
proto_loop-read_all zero family (a ∷ attrs) m enough full at = absurd (omega arith)
proto_loop-read_all (suc rounds) family ((code, bytes) ∷ attrs) m enough full at =
    let rest : Bytes = attrs_wire attrs in
    let c = m.attr_cursor in
    let behind =
      drop-add c (wire_len bytes) m.msg
      ∙ ap (λ t. drop (wire_len bytes) t) at
      ∙ drop-append (wire_len bytes) (attr_wire code bytes) rest (length-attr_wire code bytes) in
    let next = moved m bytes in
    rw (eof_before m code bytes rest full at, read_attr-wire m code bytes rest at)
      (go_on-settle (proto_loop rounds family) (read_all family attrs) next
        (find_rtup family (some code) (content bytes) next m.rtup)
        (find_ctup family (some code) (content bytes) m.ctup)
        (λ found other.
          proto_loop-read_all rounds family attrs (record next { rtup = found; ctup = other })
            (omega arith) full behind))
