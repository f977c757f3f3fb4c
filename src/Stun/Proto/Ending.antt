-- ===== src/Stun/Proto/Ending.antt =====
-- When the loop of `stun_proto` ends, and when it does not.
use aionetiface.Prelude.{ℕ, zero, suc, ◌+◌, ◌-◌, ◌*◌, ◌%◌, ◌≤◌, ◌<◌, ◌≡◌, refl}
use aionetiface.Prelude.{
  arith, length, drop, length-take, length-drop, ==_iff, Option, none, some, true, false,
}
use aionetiface.Prelude.{ltb-eq_true, leb-eq_true, leb, ◌==◌, if_cases}
use aionetiface.Bytes.{Bytes, ok, err, plain_exception, Result, ◌>>=◌, slice, u16_at}
use aionetiface.Stun.Address.{Family, Addr}
use aionetiface.Stun.Message.{header_of, stun_msg, binding, request, rfc3489, decode, unpack}
use aionetiface.Stun.Message.{StunMsg, Attr, eof, read_attr, read_header, pad_len}
use aionetiface.Stun.Proto.{settle, stun_proc_attrs, take_attr, process, find_rtup, find_ctup}
use aionetiface.Stun.Proto.{go_on, proto_loop, run_loop, with_rest, stun_proto}

-- A round that goes on: the next state of the object is `n`.
abbrev pub Moves : StunMsg → StunMsg → Type 0
Moves m n =
    (n.msg_len ≡ m.msg_len)
    × (length n.msg ≡ length m.msg)
    × (m.attr_cursor + 4 ≤ n.attr_cursor)
    × (n.attr_cursor % 4 ≡ m.attr_cursor % 4)

-- Every result of a read that has a header to read moves by a multiple of four.
abbrev ReadMoves : StunMsg → Result (Attr × StunMsg) → Type 0
ReadMoves m (ok (attr, n)) = Moves m n
ReadMoves m (err e) = Unit {0}

padded_mod : (n : ℕ) → (n + pad_len n) % 4 ≡ 0
padded_mod n = ground arith

read_header-Moves : (m : StunMsg) (hdr : Bytes) → ReadMoves m (read_header m hdr)
read_header-Moves m hdr =
    let len = u16_at hdr 2 in
    let pad = padded_mod len in
    if_cases (ReadMoves m) (len == 0) (λ empty. (refl, refl, omega arith, omega arith))
      (λ some_data.
        if_cases (ReadMoves m) (leb (m.attr_cursor + 4 + (len - 1)) (length m.msg - 1))
          (λ fits. (refl, refl, omega arith, omega (arith, pad))) (λ cut. tt))

read_attr-Moves : (m : StunMsg) → m.attr_cursor + 3 < length m.msg → ReadMoves m (read_attr m)
unfolding read_attr
read_attr-Moves m h =
    rw (ltb-eq_true (m.attr_cursor + 3) (length m.msg) h)
      (read_header-Moves m (slice m.attr_cursor (m.attr_cursor + 4) m.msg))

-- A loop that is given a result.
abbrev Ends : Option (Result StunMsg) → Type 0
Ends o = (r : Result StunMsg) × (o ≡ some r)

go_on-Ends :
    (next : StunMsg → Option (Result StunMsg)) (m : StunMsg) (mapped changed : Result (Option Addr))
    → ((found other : Option Addr) → Ends (next (record m { rtup = found; ctup = other })))
    → Ends (go_on next (settle m mapped changed))
go_on-Ends next m (err e) changed ends = (err e, refl)
go_on-Ends next m (ok found) (err e) ends = (err e, refl)
go_on-Ends next m (ok found) (ok other) ends = ends found other

-- The same behind a read.
go_on_read :
    (family : Family) (m : StunMsg) (next : StunMsg → Option (Result StunMsg))
    (read : Result (Attr × StunMsg))
    → ReadMoves m read
    → ((n : StunMsg) (found other : Option Addr)
        → Moves m n
        → Ends (next (record n { rtup = found; ctup = other })))
    → Ends (go_on next (read >>= process family))
unfolding stun_proc_attrs
go_on_read family m next (err e) moves ends = (err e, refl)
go_on_read family m next (ok ((code, len, bytes), n)) moves ends =
    go_on-Ends next n (find_rtup family code bytes n n.rtup) (find_ctup family code bytes n.ctup)
      (λ found other. ends n found other moves)

-- From a cursor that is a multiple of four the loop ends, when the message is a multiple of four
-- long, or one byte longer.
proto_loop-Ends :
    (rounds : ℕ) (family : Family) (m : StunMsg)
    → m.msg_len ≡ length m.msg
    → m.msg_len % 4 ≤ 1
    → m.attr_cursor % 4 ≡ 0
    → m.msg_len ≤ m.attr_cursor + rounds * 4 + 1
    → Ends (proto_loop rounds family m)
unfolding proto_loop eof take_attr
proto_loop-Ends zero family m full even at enough =
    (ok m, rw (leb-eq_true (m.msg_len - 1) m.attr_cursor (omega arith)))
proto_loop-Ends (suc rounds) family m full even at enough =
    if_cases Ends (leb (m.msg_len - 1) m.attr_cursor) (λ done. (ok m, refl))
      (λ more.
        let before : m.attr_cursor < m.msg_len - 1 = ground arith in
        go_on_read family m (proto_loop rounds family) (read_attr m)
          (read_attr-Moves m (omega (arith, before)))
          (λ n found other (len, size, ahead, turn).
            proto_loop-Ends rounds family (record n { rtup = found; ctup = other }) (omega arith)
              (omega arith) (omega arith) (omega arith)))

-- A decoded message with what lies behind it, on which the loop ends.
abbrev RunEnds : ℕ → Family → Result (StunMsg × Option Bytes) → Type 0
RunEnds rounds family read =
    (r : Result (StunMsg × Option Bytes)) × (run_loop rounds family read ≡ some r)

run_loop-Ends :
    (rounds : ℕ) (family : Family) (m : StunMsg) (rest : Option Bytes)
    → m.msg_len ≡ length m.msg
    → m.msg_len % 4 ≤ 1
    → m.attr_cursor ≡ 0
    → m.msg_len ≤ rounds * 4 + 1
    → RunEnds rounds family (ok (m, rest))
run_loop-Ends rounds family m rest full even start enough =
    let (r, ends) =
      proto_loop-Ends rounds family (record m { af = some family }) full even (omega arith)
        (omega arith) in
    (with_rest r rest, rw ends)

body_len :
    (len : ℕ) (buf : Bytes)
    → len == 0 ≡ false
    → leb (20 + (len - 1)) (length buf - 1) ≡ true
    → len ≡ length (slice 20 (20 + len) buf)
body_len len buf some_len whole =
    let fits : (1 ≤ len) × (20 + (len - 1) ≤ length buf - 1) = (ground arith, ground arith) in
    omega (arith, fits.0, fits.1, length-take (20 + len - 20) (drop 20 buf), length-drop 20 buf)

-- The loop ends on every buffer whose length field is a multiple of four or one more, whatever
-- its bytes are, within a quarter of that length in rounds: with a message or an exception.
pub stun_proto_ends :
    (rounds : ℕ) (fresh buf : Bytes) (family : Family)
    → u16_at buf 2 % 4 ≤ 1
    → u16_at buf 2 ≤ rounds * 4 + 1
    → (r : Result (StunMsg × Option Bytes)) × (stun_proto rounds fresh buf family ≡ some r)
unfolding stun_proto unpack decode
stun_proto_ends rounds fresh buf family even enough =
    let len = u16_at buf 2 in
    let blank = stun_msg fresh binding request rfc3489 in
    let read = header_of blank buf in
    if_cases (RunEnds rounds family) (leb 20 (length buf))
      (λ header.
        if_cases (RunEnds rounds family) (len == 0)
          (λ nothing.
            run_loop-Ends rounds family read none ((==_iff len 0).0 nothing) even refl enough)
          (λ something.
            if_cases (RunEnds rounds family) (leb (20 + (len - 1)) (length buf - 1))
              (λ whole.
                run_loop-Ends rounds family (record read { msg = slice 20 (20 + len) buf })
                  (some (drop (20 + len) buf)) (body_len len buf something whole) even refl enough)
              (λ cut. (err plain_exception, refl))))
      (λ short.
        run_loop-Ends rounds family (record blank { attr_cursor = 0 }) none refl (omega arith) refl
          (omega arith))
