-- ===== src/Pcap/FourTuple.antt =====
-- net/pcap/tcp/simul_open.py: the four-tuple of a connection and the tests on a segment; and
-- net/pcap/tcp/congestion.py: the congestion window, counted in segments.
use aionetiface.Prelude.{ℕ, ◌+◌, ◌*◌, ◌/◌, max, Bool, false, not, ◌&&◌, ltb, ◌==◌, if◌then◌else◌}
use aionetiface.Pcap.Segment.{TcpSegment, has_flag, flag_syn, flag_ack}
use Prim.Native.String.{String}
use text.Mathlib.Text.{◌==◌ as str_eq}

pub record FourTuple : Type 0 where
  pub local_ip : String
  pub local_port : ℕ
  pub remote_ip : String
  pub remote_port : ℕ

unfoldable pub match_inbound : TcpSegment → String → String → FourTuple → Bool
match_inbound seg src_ip dst_ip ft =
    if not (str_eq dst_ip ft.local_ip)
    then false
    else if not (str_eq src_ip ft.remote_ip)
    then false
    else if not (seg.dst_port == ft.local_port)
    then false
    else (seg.src_port == ft.remote_port)

unfoldable is_bare_syn : TcpSegment → Bool
is_bare_syn seg = has_flag seg flag_syn && not (has_flag seg flag_ack)

pub record Congestion : Type 0 where
  pub mss : ℕ
  pub cwnd_segments : ℕ
  pub cap : ℕ

unfoldable cwnd_bytes : Congestion → ℕ
cwnd_bytes c = c.cwnd_segments * c.mss

unfoldable on_ack : Congestion → Congestion
on_ack c = if ltb c.cwnd_segments c.cap then record c { cwnd_segments = c.cwnd_segments + 1 } else c

unfoldable on_retransmit : Congestion → Congestion
on_retransmit c = record c { cwnd_segments = max 1 (c.cwnd_segments / 2) }
