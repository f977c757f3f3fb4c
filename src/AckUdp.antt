-- ===== src/AckUdp.antt =====
-- The class `ACKUDP` of aionetiface/protocol/ack_udp.py: UDP messages with sequence numbers and
-- acknowledgements. An event is known by a number, and `set_events` holds those that are set, so
-- that a table entry and the caller of `ack_send` share one. The tasks are left out; what a task
-- sends is a value.
pub mod Laws
pub mod Worker
pub mod Runs
use aionetiface.Prelude.{
  ℕ, zero, suc, ◌+◌, ◌*◌, ◌/◌, ◌%◌, ◌^◌, Bool, true, false, Option, none, some,
}
use aionetiface.Prelude.{List, [], ◌∷◌, ◌++◌, length, drop, ltb, leb, ◌==◌, if◌then◌else◌}
use aionetiface.Bytes.{Bytes, Result, ok, err, ◌>>=◌, struct_error, be32, u32_at, byte_at}

abbrev pub udp_max_dict_len : ℕ
udp_max_dict_len = 1000

-- `struct.pack("!Q", n)` and `struct.unpack("!Q", data[0:8])`
unfoldable pub pack_u64 : ℕ → Result Bytes
pack_u64 n =
    if ltb n (2 ^ 64) then ok (be32 (n / 2 ^ 32) ++ be32 (n % 2 ^ 32)) else err struct_error

abbrev pub u64_at : Bytes → ℕ
u64_at bytes = u32_at bytes 0 * 2 ^ 32 + u32_at bytes 4

pub record AckUdp : Type 0 where
  pub seq : List (ℕ × ℕ)
  pub set_events : List ℕ
  pub next_event : ℕ

abbrev pub ack_udp : AckUdp
ack_udp = record { seq = []; set_events = []; next_event = 0 }

abbrev pub member : ℕ → List ℕ → Bool
member n [] = false
member n (m ∷ ms) = if m == n then true else member n ms

-- `self.seq[n]`, if it is there.
abbrev pub event_of : ℕ → List (ℕ × ℕ) → Option ℕ
event_of n [] = none
event_of n ((number, event) ∷ rest) = if number == n then some event else event_of n rest

abbrev pub is_set : AckUdp → ℕ → Bool
is_set self event = member event self.set_events

-- `self.seq[n].set()` where the number is in the table.
abbrev pub set_event : AckUdp → Option ℕ → AckUdp
set_event self none = self
set_event self (some event) = record self { set_events = event ∷ self.set_events }

unfoldable pub is_ack : Bytes → Option ℕ
is_ack bytes =
    if leb 9 (length bytes)
    then (if byte_at bytes 8 == 1 then some (u64_at bytes) else none)
    else none

-- `[seq, ack, payload]`
abbrev pub Ackable : Type 0
Ackable = Option ℕ × Option Bytes × Option Bytes

abbrev ack_for : ℕ → ℕ → Result (Option Bytes)
ack_for flag number =
    if flag == 0 then (pack_u64 number >>= λ head. ok (some (head ++ 1 ∷ []))) else ok none

unfoldable pub is_ackable : Bytes → Result Ackable
is_ackable bytes =
    if leb 9 (length bytes)
    then (ack_for (byte_at bytes 8) (u64_at bytes) >>= λ ack.
        ok (some (u64_at bytes), ack, some (drop 9 bytes)))
    else ok (none, none, none)

-- Entries whose event is set are dropped when the table is long.
abbrev pub drop_set : List ℕ → List (ℕ × ℕ) → List (ℕ × ℕ)
drop_set events [] = []
drop_set events ((number, event) ∷ rest) =
    if member event events then drop_set events rest else (number, event) ∷ drop_set events rest

abbrev pub prune : AckUdp → AckUdp
prune self =
    if ltb udp_max_dict_len (length self.seq)
    then record self { seq = drop_set self.set_events self.seq }
    else self

-- What `handle_ack` returns, and what its task sends.
pub record Handled : Type 0 where
  pub status : ℕ
  pub payload : Option Bytes
  pub reply : Option Bytes

-- The last part: an acknowledgement that is left is sent.
abbrev finish : Option Bytes → Option Bytes → Handled
finish (some ack) content = record { status = 2; payload = content; reply = some ack }
finish none content = record { status = 1; payload = content; reply = none }

-- A number of our own that comes back counts as its acknowledgement.
abbrev take_back : AckUdp → Option Bytes → Option Bytes → Option ℕ → Handled × AckUdp
take_back self (some ack) content (some event) =
    (finish none content, prune (set_event self (some event)))
take_back self ack content found = (finish ack content, prune self)

abbrev event_for : AckUdp → Option ℕ → Option ℕ
event_for self none = none
event_for self (some number) = event_of number self.seq

abbrev take_message : AckUdp → Ackable → Handled × AckUdp
take_message self (number, ack, none) = (record { status = 0; payload = none; reply = none }, self)
take_message self (number, ack, some content) =
    take_back self ack (some content) (event_for self number)

abbrev take_datagram : AckUdp → Bytes → Option ℕ → Result (Handled × AckUdp)
take_datagram self bytes (some number) =
    ok (
      record { status = 0; payload = none; reply = none },
      set_event self (event_of number self.seq),
    )
take_datagram self bytes none = is_ackable bytes >>= λ read. ok (take_message self read)

-- `handle_ack` with the tests of the class.
unfoldable pub handle_ack : AckUdp → Bytes → Result (Handled × AckUdp)
handle_ack self bytes = take_datagram self bytes (is_ack bytes)

abbrev put_seq : ℕ → ℕ → List (ℕ × ℕ) → List (ℕ × ℕ)
put_seq number event [] = (number, event) ∷ []
put_seq number event ((other, known) ∷ rest) =
    if other == number then (number, event) ∷ rest else (other, known) ∷ put_seq number event rest

-- What the worker of `ack_send` sends: the number, no flag and the data.
unfoldable pub message_buf : ℕ → Bytes → Result Bytes
message_buf number bytes = pack_u64 number >>= λ head. ok (head ++ (0 ∷ bytes))

-- `ack_send` up to the start of its worker, with a number that is given or drawn: the event, and
-- the object with the entry.
unfoldable pub ack_send : AckUdp → ℕ → ℕ × AckUdp
ack_send self number = (
  self.next_event,
  record self { seq = put_seq number self.next_event self.seq; next_event = self.next_event + 1 },
)

-- `is_unique_msg` of `BaseACKProto`: the numbers that `hash` gave the messages so far, most recent
-- first, and whether this one is new.
unfoldable pub is_unique_msg : (Bytes → ℕ) → ℕ → List ℕ → Bytes → Bytes → Bool × List ℕ
is_unique_msg hash max_msg_ids msg_ids client_ip bytes =
    let known = if ltb max_msg_ids (length msg_ids) then [] else msg_ids in
    let msg_id = hash (client_ip ++ bytes) in
    if member msg_id known then (false, known) else (true, msg_id ∷ known)
