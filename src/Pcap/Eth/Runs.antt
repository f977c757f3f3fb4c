-- ===== src/Pcap/Eth/Runs.antt =====
-- The laws of frames and of the ARP cache at concrete values.
use aionetiface.Prelude.{◌≡◌, refl, arith, ◌==◌, true, some, [], ◌∷◌}
use aionetiface.Prelude.{if◌then◌else◌}
use aionetiface.Bytes.{Bytes, byte_at, ok}
use aionetiface.Pcap.Eth.{same_bytes, strip_link_layer}
use aionetiface.Pcap.Eth.{dlt_en10mb, eth_type_arp, build_arp_reply}
use aionetiface.Pcap.Eth.ArpLaws.{get-feed_arp}
use aionetiface.Pcap.Eth.Cache.{ArpCache, get, feed_arp, is_unicast}
use Prim.Native.String.{String}

abbrev here : Bytes
here = 2 ∷ 0 ∷ 0 ∷ 0 ∷ 0 ∷ 1 ∷ []

abbrev there : Bytes
there = 2 ∷ 0 ∷ 0 ∷ 0 ∷ 0 ∷ 2 ∷ []

abbrev cache : ArpCache
cache = record { ttl = 300; table = ("10.0.0.9", there, 50) ∷ [] }

-- A stand-in for the text of an address.
abbrev text_of : Bytes → String
text_of bs = if byte_at bs 3 == 1 then "10.0.0.1" else "10.0.0.2"

abbrev ip_one : Bytes
ip_one = 10 ∷ 0 ∷ 0 ∷ 1 ∷ []

abbrev ip_two : Bytes
ip_two = 10 ∷ 0 ∷ 0 ∷ 2 ∷ []

here_unicast : is_unicast here ≡ true
unfolding same_bytes
here_unicast = refl

get-feed_arp_example :
    (frame : Bytes) × (payload : Bytes) × (build_arp_reply here ip_one there ip_two ≡ ok frame)
    × (strip_link_layer dlt_en10mb frame ≡ ok (eth_type_arp, payload))
    × ((feed_arp text_of cache 10 payload).1 ≡ true)
    × ((get (feed_arp text_of cache 10 payload).0 20 "10.0.0.1").0 ≡ some here)
get-feed_arp_example =
    get-feed_arp here ip_one there ip_two refl refl refl refl text_of cache 10 20 here_unicast refl
      (omega arith)
