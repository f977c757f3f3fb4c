-- ===== src/IpRange/Runs.antt =====
-- A /24 block and a single host, as the comments of net/ip_range.py have them.
use aionetiface.Prelude.{ℕ, ◌+◌, ◌*◌, ◌^◌, ◌≡◌, refl}
use aionetiface.Bytes.{ok}
use aionetiface.IpRange.{get_bits, IpRange, ip_range}

-- 192.168.1.0 with eight host bits.
abbrev network : ℕ
network = 192 * 2 ^ 24 + 168 * 2 ^ 16 + 256

abbrev block : IpRange
block = record {
  bitlen = 8;
  i_host = 0;
  i_nw = network;
  host_no = 255;
  r = (network, network + 255);
}

block_made : ip_range 32 network 8 ≡ ok block
unfolding ip_range get_bits
block_made = refl
