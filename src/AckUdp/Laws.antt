-- ===== src/AckUdp/Laws.antt =====
-- A message, its acknowledgement, and the event that the sender waits for.
use aionetiface.Prelude.{ℕ, ◌+◌, ◌*◌, ◌/◌, ◌%◌, ◌^◌, ◌<◌, ◌≡◌, refl, ap, ◌∙◌, arith, Bool, true}
use aionetiface.Prelude.{List, [], ◌∷◌, ◌++◌, length, none, some, ltb, ◌==◌, ==_refl}
use aionetiface.Prelude.{missed, if_both, if_cases, leb-eq_true, ltb-eq_true, Bool-cases, inl, inr}
use aionetiface.Bytes.{Bytes, Result, ok, err, be32}
use aionetiface.AckUdp.{AckUdp, Handled, pack_u64, u64_at, is_ack, is_ackable, handle_ack, ack_send}
use aionetiface.AckUdp.{
  member, drop_set, message_buf, is_set, event_of, put_seq, prune, udp_max_dict_len,
}

abbrev pub wire64 : ℕ → Bytes
wire64 n = be32 (n / 2 ^ 32) ++ be32 (n % 2 ^ 32)

pack_u64-wire64 : (n : ℕ) → n < 2 ^ 64 → pack_u64 n ≡ ok (wire64 n)
unfolding pack_u64
pack_u64-wire64 n h = rw (ltb-eq_true n (2 ^ 64) h)

be32_read :
    (h : ℕ)
    → h / 2 ^ 24 * 2 ^ 24 + h / 2 ^ 16 % 256 * 2 ^ 16 + h / 2 ^ 8 % 256 * 2 ^ 8 + h % 256 ≡ h
be32_read h = omega arith

u64_read : (n : ℕ) (rest : Bytes) → u64_at (wire64 n ++ rest) ≡ n
u64_read n rest = omega (arith, be32_read (n / 2 ^ 32), be32_read (n % 2 ^ 32))

is_ack-reply : (n : ℕ) → is_ack (wire64 n ++ 1 ∷ []) ≡ some n
unfolding is_ack
is_ack-reply n = rw (u64_read n (1 ∷ []))

is_ack-message : (n : ℕ) (bytes : Bytes) → is_ack (wire64 n ++ 0 ∷ bytes) ≡ none
unfolding is_ack
is_ack-message n bytes = rw (leb-eq_true 9 (length (wire64 n ++ 0 ∷ bytes)) (omega arith))

is_ackable-message :
    (n : ℕ) (bytes : Bytes)
    → n < 2 ^ 64
    → is_ackable (wire64 n ++ 0 ∷ bytes) ≡ ok (some n, some (wire64 n ++ 1 ∷ []), some bytes)
unfolding is_ackable
is_ackable-message n bytes h = rw (
  leb-eq_true 9 (length (wire64 n ++ 0 ∷ bytes)) (omega arith),
  u64_read n (0 ∷ bytes),
  pack_u64-wire64 n h,
)

event_of-put_seq :
    (n event : ℕ) (seq : List (ℕ × ℕ)) → event_of n (put_seq n event seq) ≡ some event
event_of-put_seq n event [] = rw (==_refl n)
event_of-put_seq n event ((other, known) ∷ seq) = elim (Bool-cases (other == n)) [
  | inl same ↦ rw (same, ==_refl n)
  | inr differs ↦ rw (differs, differs, event_of-put_seq n event seq)
]

is_set-prune : (self : AckUdp) (event : ℕ) → is_set (prune self) event ≡ is_set self event
is_set-prune self event =
    if_both (λ t. is_set t event ≡ is_set self event) (ltb udp_max_dict_len (length self.seq)) refl
      refl

message_wire :
    (n : ℕ) (bytes : Bytes) → n < 2 ^ 64 → message_buf n bytes ≡ ok (wire64 n ++ 0 ∷ bytes)
unfolding message_buf
message_wire n bytes h = rw (pack_u64-wire64 n h)

-- A message with a number that is not waited for is acknowledged.
pub handle_ack-message :
    (self : AckUdp) (n : ℕ) (bytes : Bytes)
    → n < 2 ^ 64
    → event_of n self.seq ≡ none
    → handle_ack self (wire64 n ++ 0 ∷ bytes)
      ≡ ok (
        record { status = 2; payload = some bytes; reply = some (wire64 n ++ 1 ∷ []) },
        prune self,
      )
unfolding handle_ack
handle_ack-message self n bytes h absent =
    rw (is_ack-message n bytes, is_ackable-message n bytes h, absent)

event_of-drop_set :
    (n : ℕ) (events : List ℕ) (seq : List (ℕ × ℕ))
    → event_of n seq ≡ none
    → event_of n (drop_set events seq) ≡ none
event_of-drop_set n events [] absent = refl
event_of-drop_set n events ((other, event) ∷ seq) absent =
    let (differs, deeper) = missed (other == n) event (event_of n seq) absent in
    let later = event_of-drop_set n events seq deeper in
    if_both (λ (left : List (ℕ × ℕ)). event_of n left ≡ none) (member event events) later
      (rw differs later)

-- Pruning twice is pruning once, and makes no entry.
pub event_of-prune :
    (self : AckUdp) (n : ℕ) → event_of n self.seq ≡ none → event_of n (prune self).seq ≡ none
event_of-prune self n absent =
    if_both (λ (t : AckUdp). event_of n t.seq ≡ none) (ltb udp_max_dict_len (length self.seq))
      (event_of-drop_set n self.set_events self.seq absent) absent

drop_set_twice :
    (events : List ℕ) (seq : List (ℕ × ℕ))
    → drop_set events (drop_set events seq) ≡ drop_set events seq
drop_set_twice events [] = refl
drop_set_twice events ((number, event) ∷ seq) = elim (Bool-cases (member event events)) [
  | inl set ↦ rw (set, drop_set_twice events seq)
  | inr waits ↦ rw (waits, waits, drop_set_twice events seq)
]

pub prune_twice : (self : AckUdp) → prune (prune self) ≡ prune self
prune_twice self =
    if_cases (λ (t : AckUdp). prune t ≡ t) (ltb udp_max_dict_len (length self.seq))
      (λ long.
        if_both (λ (t : AckUdp). t ≡ record self { seq = drop_set self.set_events self.seq })
          (ltb udp_max_dict_len (length (drop_set self.set_events self.seq)))
          (ap (λ (seq : List (ℕ × ℕ)). record self { seq = seq })
            (drop_set_twice self.set_events self.seq))
          refl)
      (λ short. rw short)

-- The object after an answer, on which the caller's event can be asked.
abbrev pub sees : ℕ → Result (Handled × AckUdp) → Result (Handled × Bool)
sees event (ok (handled, self)) = ok (handled, is_set self event)
sees event (err e) = err e

-- A message that is sent reaches a receiver who has no message of the same number out: the
-- receiver has the payload and replies, and the reply sets the event that the sender waits for.
-- A message that comes back to its sender sets the event too and gets no reply. The number has
-- 64 bits.
pub handle_ack-ack_send :
    (alice bob : AckUdp) (n : ℕ) (bytes : Bytes)
    → n < 2 ^ 64
    → event_of n bob.seq ≡ none
    → (buf : Bytes) × (ack : Bytes) × (message_buf n bytes ≡ ok buf)
      × (handle_ack bob buf
          ≡ ok (record { status = 2; payload = some bytes; reply = some ack }, prune bob))
      × (sees (ack_send alice n).0 (handle_ack (ack_send alice n).1 ack)
          ≡ ok (record { status = 0; payload = none; reply = none }, true))
      × (sees (ack_send alice n).0 (handle_ack (ack_send alice n).1 buf)
          ≡ ok (record { status = 1; payload = some bytes; reply = none }, true))
unfolding handle_ack ack_send
handle_ack-ack_send alice bob n bytes h absent =
    let heard : AckUdp = record {
      seq = put_seq n alice.next_event alice.seq;
      set_events = alice.next_event ∷ alice.set_events;
      next_event = alice.next_event + 1;
    } in
    let own = event_of-put_seq n alice.next_event alice.seq in
    (
      wire64 n ++ 0 ∷ bytes,
      wire64 n ++ 1 ∷ [],
      message_wire n bytes h,
      handle_ack-message bob n bytes h absent,
      rw (is_ack-reply n, own, ==_refl alice.next_event),
      rw (is_ack-message n bytes, is_ackable-message n bytes h, own)
          (ap (λ t. ok (record { status = 1; payload = some bytes; reply = none }, t))
            (is_set-prune heard alice.next_event ∙ rw (==_refl alice.next_event))),
    )
