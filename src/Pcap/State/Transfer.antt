-- ===== src/Pcap/State/Transfer.antt =====
-- Data between two ends in agreement: a written block arrives, and its acknowledgement comes back.
use aionetiface.Prelude.{ℕ, ◌+◌, ◌^◌, ◌≤◌, ◌<◌, ◌≡◌, refl, sym, ap, ◌∙◌, arith, Bool, true, false}
use aionetiface.Prelude.{bit_or, ◌==◌, some}
use aionetiface.Prelude.{
  List, [], ◌∷◌, ◌++◌, append-nil, append_assoc, length, take, take_all, drop_all,
}
use aionetiface.Prelude.{if_cases}
use mathlib.Core.Bool.{false≢true}
use mathlib.Core.List.{flatten}
use aionetiface.Bytes.{Bytes, Result, ok, ◌>>=◌}
use aionetiface.Pcap.Segment.{TcpSegment, flag_rst, flag_ack, flag_psh}
use aionetiface.Pcap.Segment.{has_flag, segment_length}
use aionetiface.Pcap.State.{established, TcpState, is_empty, add32, sub32, seq_in_window, emit}
use aionetiface.Pcap.State.{emitted, emit_pure_ack, bare_ack, flush_send, write}
use aionetiface.Pcap.State.Inbound.{
  from_peer, on_segment, dispatch, acks_new, acceptable, covers_block,
}
use aionetiface.Pcap.State.Inbound.{read_payload, on_segment_established}
use aionetiface.Pcap.State.Accepts.{
  on_segment_passes, established_reads, established_clears, confirmed, cleared,
}
use aionetiface.Pcap.State.Handshake.{feed, drained, IsJoined}
use Prim.Native.String.{String}
use text.Mathlib.TextPositions.{eq_refl}

-- One block from `a` to `b`, with the acknowledgement; nobody draws a random number.
pub transfer : TcpState → TcpState → Bytes → Result (TcpState × TcpState)
transfer a b block = do
  a_sent ← write a block
  let b_fed = feed a_sent.outbox a.local_ip 0 b
  ok (feed b_fed.outbox b.local_ip 0 (drained a_sent), drained b_fed)

-- A block that one segment can carry.
abbrev pub FitsSegment : TcpState → Bytes → Type 0
FitsSegment t block = (0 < length block) × (length block ≤ t.peer_mss) × (length block < 2 ^ 32)

abbrev data_seg : TcpState → Bytes → TcpSegment
data_seg t block = emitted t (bit_or flag_ack flag_psh) block

abbrev sent : TcpState → Bytes → TcpState
sent t block = record t {
  send_buf = [];
  outbox = t.outbox ++ (data_seg t block ∷ []);
  snd_nxt = add32 t.snd_nxt (length block + 0 + 0);
  unacked_data = block;
  unacked_seq = sub32 (add32 t.snd_nxt (length block + 0 + 0)) (length block);
  have_unacked = true;
}

nonempty : (block : Bytes) → 0 < length block → is_empty block ≡ false
nonempty [] h = absurd (omega arith)
nonempty (x ∷ xs) h = refl

emit-sent :
    (t : TcpState) (block : Bytes)
    → is_empty block ≡ false
    → emit (record t { send_buf = [] }) (bit_or flag_ack flag_psh) block ≡ sent t block
unfolding emit segment_length
emit-sent t block h = rw h

flush-sent :
    (t : TcpState) (block : Bytes)
    → t.have_unacked ≡ false
    → FitsSegment t block
    → flush_send (record t { send_buf = block }) ≡ sent t block
unfolding flush_send
flush-sent t block idle (some_bytes, fits, small) =
    let full = nonempty block some_bytes in
    let P = λ (u : TcpState). u ≡ sent t block in
    let cut =
      ap
        (λ (x : Bytes).
          emit (record t { send_buf = x }) (bit_or flag_ack flag_psh) (take t.peer_mss block))
        (drop_all t.peer_mss block fits)
      ∙ ap (λ (x : Bytes). emit (record t { send_buf = [] }) (bit_or flag_ack flag_psh) x)
          (take_all t.peer_mss block fits)
      ∙ emit-sent t block full in
    if_cases P (is_empty block) (λ e. absurd (false≢true (sym full ∙ e)))
      (λ _. if_cases P t.have_unacked (λ e. absurd (false≢true (sym idle ∙ e))) (λ _. cut))

write-sent :
    (t : TcpState) (block : Bytes)
    → t.state ≡ established
    → t.send_buf ≡ []
    → t.have_unacked ≡ false
    → FitsSegment t block
    → write t block ≡ ok (sent t block)
unfolding write
write-sent t block up none_waiting idle fits = ground (
  arith,
  ap (λ (x : Bytes). flush_send (record t { send_buf = x ++ block })) none_waiting,
  flush-sent t block idle fits,
)

from_peer_ok :
    (t : TcpState) (seg : TcpSegment) (ip : String)
    → t.remote_port ≡ seg.src_port
    → t.remote_ip ≡ some ip
    → from_peer t seg ip ≡ true
unfolding from_peer
from_peer_ok t seg ip p q = ground (arith, eq_refl ip)

-- A segment of the peer reaches the handler of established connections.
reaches :
    (t : TcpState) (seg : TcpSegment) (ip : String) (iss : ℕ)
    → t.state ≡ established
    → t.remote_port ≡ seg.src_port
    → t.remote_ip ≡ some ip
    → has_flag seg flag_rst ≡ false
    → on_segment t seg ip iss ≡ on_segment_established t seg
unfolding dispatch
reaches t seg ip iss e p q r =
    ground (arith, on_segment_passes t seg ip iss (from_peer_ok t seg ip p q) r)

-- What the receiver of a block becomes, and what it answers.
abbrev fed : TcpState → TcpSegment → TcpState
fed t seg = record t {
  read_buf = t.read_buf ++ seg.payload;
  rcv_nxt = add32 t.rcv_nxt (length seg.payload);
}

abbrev answer : TcpState → TcpSegment → TcpSegment
answer t seg = bare_ack (fed t seg)

module _ {a b : TcpState} (j : IsJoined a b) (block : Bytes) (fits : FitsSegment a block) where
  abbrev seg : TcpSegment
  seg = data_seg a block

  in_window : acceptable b seg ≡ true
  unfolding acceptable segment_length seq_in_window
  in_window = ground (arith, j.here.in_step, j.here.nxt_lt, j.there.window)

  old_ack : acks_new b seg ≡ false
  unfolding acks_new seq_in_window
  old_ack = ground (arith, j.there.in_step, j.there.all_acked, j.there.nxt_lt)

  expected : (seg.seq == b.rcv_nxt) ≡ true
  expected = ground (arith, j.here.in_step, j.here.nxt_lt)

  empty_buffer : (t : TcpState) → t.send_buf ≡ [] → is_empty t.send_buf ≡ true
  empty_buffer t e = rw e

  receives : on_segment b seg a.local_ip 0 ≡ (read_payload b seg, true)
  unfolding has_flag
  receives =
      reaches b seg a.local_ip 0 j.there.up j.there.to_port j.there.to_ip refl
      ∙ established_reads b seg j.there.up in_window old_ack (nonempty block fits.0) expected refl
          (empty_buffer b j.there.none_waiting)

  abbrev ack : TcpSegment
  ack = answer b seg

  abbrev waiting : TcpState
  waiting = drained (sent a block)

  ack_acceptable : acceptable waiting ack ≡ true
  unfolding acceptable segment_length has_flag
  ack_acceptable = refl

  new_ack : acks_new waiting ack ≡ true
  unfolding acks_new seq_in_window
  new_ack = ground (arith, j.here.in_step, j.here.all_acked, j.here.nxt_lt, fits)

  covered : covers_block (confirmed waiting ack) ≡ true
  unfolding covers_block seq_in_window
  covered = ground (arith, j.here.in_step, j.here.nxt_lt, fits)

  confirms : on_segment waiting ack b.local_ip 0 ≡ (cleared waiting ack, true)
  unfolding has_flag
  confirms =
      reaches waiting ack b.local_ip 0 j.here.up j.here.to_port j.here.to_ip refl
      ∙ established_clears waiting ack j.here.up ack_acceptable refl new_ack refl covered refl refl
          refl

  received : feed (sent a block).outbox a.local_ip 0 b ≡ read_payload b seg
  unfolding feed
  received =
      ap (λ (q : List TcpSegment). feed (q ++ (seg ∷ [])) a.local_ip 0 b) j.here.queue_empty
      ∙ ap (λ (r : TcpState × Bool). r.0) receives

  confirmed_back : feed (read_payload b seg).outbox b.local_ip 0 waiting ≡ cleared waiting ack
  unfolding feed read_payload emit_pure_ack
  confirmed_back =
      ap (λ (q : List TcpSegment). feed (q ++ (ack ∷ [])) b.local_ip 0 waiting) j.there.queue_empty
      ∙ ap (λ (r : TcpState × Bool). r.0) confirms

  transfer-eq : transfer a b block ≡ ok (cleared waiting ack, drained (read_payload b seg))
  unfolding transfer
  transfer-eq =
      rw (write-sent a block j.here.up j.here.none_waiting j.here.idle fits)
        (rw received (rw confirmed_back))

  joined_after : IsJoined (cleared waiting ack) (drained (read_payload b seg))
  unfolding read_payload emit_pure_ack
  joined_after = record {
    here = record {
      up = j.here.up;
      to_ip = j.here.to_ip;
      to_port = j.here.to_port;
      in_step = omega (arith, j.here.in_step);
      all_acked = omega (arith, j.here.in_step);
      nxt_lt = omega arith;
      idle = refl;
      queue_empty = refl;
      none_waiting = refl;
      window = j.here.window;
      no_fin = j.here.no_fin;
    };
    there = record {
      up = j.there.up;
      to_ip = j.there.to_ip;
      to_port = j.there.to_port;
      in_step = j.there.in_step;
      all_acked = j.there.all_acked;
      nxt_lt = j.there.nxt_lt;
      idle = j.there.idle;
      queue_empty = refl;
      none_waiting = j.there.none_waiting;
      window = j.there.window;
      no_fin = j.there.no_fin;
    };
  }

  -- One block: after the write, the delivery and its acknowledgement the ends agree again, the
  -- receiver has read exactly the block behind what it had, and the sender has read nothing.
  pub transfer_one :
      (a' : TcpState) × (b' : TcpState) × (transfer a b block ≡ ok (a', b'))
      × IsJoined a' b'
      × (b'.read_buf ≡ b.read_buf ++ block)
      × (a'.read_buf ≡ a.read_buf)
      × (a'.peer_mss ≡ a.peer_mss)
  transfer_one = (
    cleared waiting ack,
    drained (read_payload b seg),
    transfer-eq,
    joined_after,
    unfold read_payload emit_pure_ack in refl,
    refl,
    refl,
  )

-- Blocks one after the other, each after the acknowledgement of the one before.
pub transfer_all : TcpState → TcpState → List Bytes → Result (TcpState × TcpState)
transfer_all a b [] = ok (a, b)
transfer_all a b (block ∷ blocks) = do (a', b') ← transfer a b block; transfer_all a' b' blocks

abbrev pub AllFitSegment : TcpState → List Bytes → Type 0
AllFitSegment t [] = Unit {0}
AllFitSegment t (block ∷ blocks) = FitsSegment t block × AllFitSegment t blocks

AllFit_same :
    (t u : TcpState) (blocks : List Bytes)
    → u.peer_mss ≡ t.peer_mss
    → AllFitSegment t blocks
    → AllFitSegment u blocks
AllFit_same t u [] e h = tt
AllFit_same t u (block ∷ blocks) e (f, fs) = (omega arith, AllFit_same t u blocks e fs)

-- Between ends that agree, any blocks that each fit a segment arrive whole and in order: the
-- receiver's buffer is what it was followed by all blocks joined, the sender's is unchanged, and
-- the ends agree again.
pub transfer_all-flatten :
    (a b : TcpState) (blocks : List Bytes)
    → IsJoined a b
    → AllFitSegment a blocks
    → (a' : TcpState) × (b' : TcpState) × (transfer_all a b blocks ≡ ok (a', b'))
      × IsJoined a' b'
      × (b'.read_buf ≡ b.read_buf ++ flatten blocks)
      × (a'.read_buf ≡ a.read_buf)
unfolding transfer_all flatten
transfer_all-flatten a b [] j h = (a, b, refl, j, sym (append-nil b.read_buf), refl)
transfer_all-flatten a b (block ∷ blocks) j (f, fs) =
    let (a1, b1, e, j1, r1, s1, m) = transfer_one j block f in
    let (a2, b2, e2, j2, r2, s2) =
      transfer_all-flatten a1 b1 blocks j1 (AllFit_same a a1 blocks m fs) in
    (
      a2,
      b2,
      rw e e2,
      j2,
      r2
          ∙ ap (λ (x : Bytes). x ++ flatten blocks) r1
          ∙ append_assoc b.read_buf block (flatten blocks),
      s2 ∙ s1,
    )
