-- ===== src/Pcap/State/Accepts.antt =====
-- The branches of `on_segment` that a segment of the peer takes, one lemma for each.
use aionetiface.Prelude.{ℕ, ◌≡◌, refl, ap, arith, [], Bool, true, false, ◌&&◌}
use aionetiface.Prelude.{◌==◌}
use aionetiface.Pcap.Segment.{TcpSegment, has_flag, flag_syn, flag_fin, flag_rst, flag_ack}
use aionetiface.Pcap.State.{established, syn_received, TcpState, is_empty, add32, push, bare_ack}
use aionetiface.Pcap.State.{flush_send, read_peer_mss, emit_pure_ack}
use aionetiface.Pcap.State.Inbound.{from_peer, on_segment, dispatch, acks_new, on_segment_syn_sent}
use aionetiface.Pcap.State.Inbound.{on_segment_syn_received, on_segment_established, acceptable}
use aionetiface.Pcap.State.Inbound.{
  syn_ack, take_ack, take_payload, take_fin, advance_close, covers_block,
}
use aionetiface.Pcap.State.Inbound.{flush_established, read_payload}
use Prim.Native.String.{String}

and_false : (b : Bool) → (b && false) ≡ false
and_false true = refl
and_false false = refl

module _ (t : TcpState) (seg : TcpSegment) where
  pub on_segment_passes :
      (src_ip : String) (iss : ℕ)
      → from_peer t seg src_ip ≡ true
      → has_flag seg flag_rst ≡ false
      → on_segment t seg src_ip iss ≡ dispatch t seg src_ip iss
  unfolding on_segment
  on_segment_passes src_ip iss p r = rw (p, r, on_segment) (ground arith)

  abbrev pub heard : TcpState
  heard = read_peer_mss (record t { irs = seg.seq; rcv_nxt = add32 seg.seq 1 }) seg

  abbrev pub acked : TcpState
  acked = record heard { snd_una = seg.ack; snd_wnd = seg.window }

  pub syn_sent_joins :
      has_flag seg flag_ack ≡ true
      → has_flag seg flag_syn ≡ true
      → acks_new t seg ≡ true
      → on_segment_syn_sent t seg
        ≡ (flush_send (record (push acked (bare_ack acked)) { state = established }), true)
  unfolding on_segment_syn_sent
  syn_sent_joins a s n = rw (a, s, n)

  pub syn_sent_crosses :
      has_flag seg flag_ack ≡ false
      → has_flag seg flag_syn ≡ true
      → on_segment_syn_sent t seg
        ≡ (record (push heard (syn_ack heard)) { state = syn_received }, true)
  unfolding on_segment_syn_sent
  syn_sent_crosses a s = rw (a, s)

  pub syn_received_joins :
      has_flag seg flag_ack ≡ true
      → (seg.ack == add32 t.iss 1) ≡ true
      → is_empty seg.payload ≡ true
      → has_flag seg flag_fin ≡ false
      → on_segment_syn_received t seg ≡ (
        flush_send (record t { snd_una = seg.ack; snd_wnd = seg.window; state = established }),
        true,
      )
  unfolding on_segment_syn_received
  syn_received_joins a e p f = rw (a, e, p, f) (rw (and_false (has_flag seg flag_syn)))

-- The stages of an established connection's handler that a segment without FIN goes through.
module _ (t : TcpState) (seg : TcpSegment) where
  take_ack-eq_self : acks_new t seg ≡ false → take_ack t seg ≡ t
  unfolding take_ack
  take_ack-eq_self n = ground arith

  take_payload-eq_read :
      is_empty seg.payload ≡ false
      → (seg.seq == t.rcv_nxt) ≡ true
      → take_payload t seg ≡ read_payload t seg
  unfolding take_payload
  take_payload-eq_read p s = rw (p, s)

  take_payload-eq_self : is_empty seg.payload ≡ true → take_payload t seg ≡ t
  unfolding take_payload
  take_payload-eq_self p = rw p

  take_fin-eq_self : has_flag seg flag_fin ≡ false → take_fin t seg ≡ t
  unfolding take_fin
  take_fin-eq_self f = rw f

  established_rest :
      has_flag seg flag_fin ≡ false
      → t.state ≡ established
      → is_empty t.send_buf ≡ true
      → flush_established (advance_close (take_fin t seg)) ≡ t
  unfolding advance_close flush_send
  established_rest f e s = ground (arith, take_fin-eq_self f)

abbrev pub confirmed : TcpState → TcpSegment → TcpState
confirmed t seg = record t { snd_una = seg.ack; snd_wnd = seg.window }

abbrev pub cleared : TcpState → TcpSegment → TcpState
cleared t seg = record (confirmed t seg) { unacked_data = []; have_unacked = false }

take_ack-eq_cleared :
    (t : TcpState) (seg : TcpSegment)
    → has_flag seg flag_ack ≡ true
    → acks_new t seg ≡ true
    → t.have_unacked ≡ true
    → covers_block (confirmed t seg) ≡ true
    → take_ack t seg ≡ cleared t seg
unfolding take_ack
take_ack-eq_cleared t seg k n u c = ground arith

module _ (t : TcpState) (seg : TcpSegment) where
  -- In-order data on an idle connection is read.
  pub established_reads :
      t.state ≡ established
      → acceptable t seg ≡ true
      → acks_new t seg ≡ false
      → is_empty seg.payload ≡ false
      → (seg.seq == t.rcv_nxt) ≡ true
      → has_flag seg flag_fin ≡ false
      → is_empty t.send_buf ≡ true
      → on_segment_established t seg ≡ (read_payload t seg, true)
  unfolding on_segment_established
  established_reads e a n p s f b =
      rw (a, take_ack-eq_self t seg n, take_payload-eq_read t seg p s)
        (ap (λ u. (u, true))
          (established_rest (read_payload t seg) seg f (unfold read_payload emit_pure_ack in e)
            (unfold read_payload emit_pure_ack in b)))

  -- An acknowledgement of the block in flight clears it.
  pub established_clears :
      t.state ≡ established
      → acceptable t seg ≡ true
      → has_flag seg flag_ack ≡ true
      → acks_new t seg ≡ true
      → t.have_unacked ≡ true
      → covers_block (confirmed t seg) ≡ true
      → is_empty seg.payload ≡ true
      → has_flag seg flag_fin ≡ false
      → is_empty t.send_buf ≡ true
      → on_segment_established t seg ≡ (cleared t seg, true)
  unfolding on_segment_established
  established_clears e a k n u c p f b =
      rw (a, take_ack-eq_cleared t seg k n u c, take_payload-eq_self (cleared t seg) seg p)
        (ap (λ u. (u, true)) (established_rest (cleared t seg) seg f e b))
