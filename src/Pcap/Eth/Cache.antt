-- ===== src/Pcap/Eth/Cache.antt =====
-- `ArpCache` of net/pcap/ip/eth.py: a table from addresses to hardware addresses with an expiry. An
-- address in the table is its text; `inet_ntoa`, which forms it, belongs to the socket library. The
-- table is a list of entries without repeated addresses, the latest written first.
use aionetiface.Prelude.{ℕ, ◌+◌, Bool, true, false, not, ◌&&◌, Option, none, some, List, [], ◌∷◌}
use aionetiface.Prelude.{ltb, ◌==◌, if◌then◌else◌}
use aionetiface.Bytes.{Bytes}
use aionetiface.Pcap.Eth.{same_bytes, mac_zero, mac_broadcast, arp_op_reply, Arp, parse_arp}
use Prim.Native.String.{String}
use text.Mathlib.Text.{◌==◌ as str_eq}

pub record ArpCache : Type 0 where
  pub ttl : ℕ
  pub table : List (String × Bytes × ℕ)

unfoldable pub find : String → List (String × Bytes × ℕ) → Option (Bytes × ℕ)
find ip [] = none
find ip ((key, mac, expiry) ∷ rest) = if str_eq ip key then some (mac, expiry) else find ip rest

unfoldable pub remove : String → List (String × Bytes × ℕ) → List (String × Bytes × ℕ)
remove ip [] = []
remove ip ((key, mac, expiry) ∷ rest) =
    let kept = remove ip rest in if str_eq ip key then kept else (key, mac, expiry) ∷ kept

unfoldable pub put : ArpCache → ℕ → String → Bytes → ArpCache
put cache now ip mac = record cache { table = (ip, mac, now + cache.ttl) ∷ remove ip cache.table }

-- What `get` does with the entry that it finds: one past its expiry is deleted.
abbrev pub unexpired : ArpCache → ℕ → String → Option (Bytes × ℕ) → Option Bytes × ArpCache
unexpired cache now ip none = (none, cache)
unexpired cache now ip (some (mac, expiry)) =
    if ltb expiry now
    then (none, record cache { table = remove ip cache.table })
    else (some mac, cache)

unfoldable pub get : ArpCache → ℕ → String → Option Bytes × ArpCache
get cache now ip = unexpired cache now ip (find ip cache.table)

-- Whether an address may be learnt: neither zero nor broadcast.
abbrev pub is_unicast : Bytes → Bool
is_unicast mac = not (same_bytes mac mac_zero) && not (same_bytes mac mac_broadcast)

module _ (inet_ntoa : Bytes → String) where
  -- What `feed_arp` does with a parsed packet.
  unfoldable pub learn : ArpCache → ℕ → Arp → ArpCache
  learn cache now arp =
      let sender =
        if is_unicast arp.smac then put cache now (inet_ntoa arp.sip) arp.smac else cache in
      if arp.op == arp_op_reply && is_unicast arp.tmac
      then put sender now (inet_ntoa arp.tip) arp.tmac
      else sender

  abbrev pub learn_parsed : ArpCache → ℕ → Option Arp → ArpCache × Bool
  learn_parsed cache now none = (cache, false)
  learn_parsed cache now (some arp) = (learn cache now arp, true)

  unfoldable pub feed_arp : ArpCache → ℕ → Bytes → ArpCache × Bool
  feed_arp cache now payload = learn_parsed cache now (parse_arp payload)
