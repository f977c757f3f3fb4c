-- ===== src/Topology/Parsing.antt =====
-- `parse_node_addr` of aionetiface/net/topology.py. What `ip_norm` and Python's `ipaddress` make of
-- the text of an address is the parameter `read_ip`: the number of bits of its family and the
-- address as a number, `none` for a `ValueError`.
use aionetiface.Prelude.{ℕ, Option, none, some}
use aionetiface.Prelude.{List, [], ◌∷◌, length, ltb, ◌==◌, if◌then◌else◌}
use aionetiface.Bytes.{Bytes, ok, err}
use aionetiface.IpRange.{IpRange, ip_range}
use aionetiface.Utility.Ranges.{ℤ, pos}
use aionetiface.Nat.{nat_info, delta_info}
use aionetiface.Text.{split, is_number, is_empty, to_n, inner}
use aionetiface.Topology.{Info, Infos, NodeAddr, validate_node_addr}
use aionetiface.Topology.Hints.{parse_server_hints}

infixl 5 ◌>>=◌
abbrev pub ◌>>=◌ : {A B : Type 0} → Option A → (A → Option B) → Option B
none >>= f = none
some a >>= f = f a

-- Digits are not negative.
abbrev pub whole : Option ℤ → Option ℕ
whole (some (pos n)) = some n
whole _ = none

-- `is_number`, then `to_n`.
unfoldable pub read_number : Bytes → Option ℕ
read_number text = if is_number text then whole (to_n text) else none

-- The prefix length and the port for the network card, where the entry has them.
abbrev pub Extras : Type 0
Extras = Option ℕ × Option ℕ

unfoldable pub read_extras : List Bytes → Option Extras
read_extras [] = some (none, none)
read_extras (subnet ∷ []) = read_number subnet >>= λ bits. some (some bits, none)
read_extras (subnet ∷ port ∷ []) =
    read_number subnet >>= λ bits. read_number port >>= λ n. some (some bits, some n)
read_extras _ = none

abbrev pub or_port : Option ℕ → ℕ → ℕ
or_port none port = port
or_port (some nic_port) port = nic_port

-- The dict of one entry.
abbrev pub info_from : ℕ → ℕ → IpRange → IpRange → ℕ → ℕ → ℕ → ℕ → Extras → Info
info_from netiface index ext_range nic_range listen nat_type delta_type delta_value extras =
    record {
      netiface_index = netiface;
      if_index = index;
      ext = record { range = ext_range; subnet = none };
      nic = record { range = nic_range; subnet = extras.0 };
      nat = nat_info (some nat_type) (some (delta_info delta_type delta_value)) none;
      port = listen;
      ext_port = listen;
      nic_port = or_port extras.1 listen;
    }

-- A place of the dict keeps its turn when it is written again.
abbrev pub put : ℕ → Info → Infos → Infos
put index info [] = (index, info) ∷ []
put index info ((other, old) ∷ infos) =
    if index == other then (index, info) ∷ infos else (other, old) ∷ put index info infos

abbrev pub save : Option Info → Infos → Infos
save none infos = infos
save (some info) infos = put info.if_index info infos

-- `to_s(af_parts[6])`, or `None` for the empty text.
abbrev pub os_of : Bytes → Option Bytes
os_of text = if is_empty text then none else some text

module _ (read_ip : Bytes → Option (ℕ × ℕ)) where
  -- `IPRange(text)`
  abbrev pub made_range : Option (ℕ × ℕ) → Option IpRange
  made_range none = none
  made_range (some (bits, number)) = elim (ip_range bits number 0) [ ok r ↦ some r | err e ↦ none ]

  unfoldable pub read_range : Bytes → Option IpRange
  read_range text = made_range (read_ip text)

  abbrev pub info_of : List Bytes → Option Info
  info_of (netiface ∷ index ∷ ext ∷ nic ∷ port ∷ nat_type ∷ delta_type ∷ delta_value ∷ more) = do
    a ← read_number netiface
    b ← read_number index
    e ← read_number port
    f ← read_number nat_type
    g ← read_number delta_type
    h ← read_number delta_value
    extras ← read_extras more
    c ← read_range ext
    d ← read_range nic
    some (info_from a b c d e f g h extras)
  info_of _ = none

  -- One round of the inner loop: what it saves, `none` where it goes on.
  unfoldable pub parse_info : Bytes → Option Info
  parse_info info = if ltb (length info) 2 then none else info_of (split b',' (inner info))

  abbrev pub parse_infos : List Bytes → Infos → Infos
  parse_infos [] infos = infos
  parse_infos (info ∷ more) infos = parse_infos more (save (parse_info info) infos)

  unfoldable pub parse_section : Bytes → Infos
  parse_section af_part = parse_infos (split b'|' af_part) []

  abbrev pub addr_of :
      Bytes → Bytes → Bytes → Bytes → Bytes → Bytes → Bytes → Option Bytes → NodeAddr
  addr_of text part4 part6 key machine mqtt turn system = record {
    ip4s = parse_section part4;
    ip6s = parse_section part6;
    pub_key_hex = key;
    machine_id = machine;
    bytes = text;
    mqtt_brokers = parse_server_hints mqtt;
    turn_servers = parse_server_hints turn;
    os = system;
  }

  -- Four, six or seven parts; a missing section of hints reads as an empty one.
  abbrev pub addr_parts : Bytes → List Bytes → Option NodeAddr
  addr_parts text (part4 ∷ part6 ∷ key ∷ machine ∷ []) =
      some (addr_of text part4 part6 key machine [] [] none)
  addr_parts text (part4 ∷ part6 ∷ key ∷ machine ∷ mqtt ∷ turn ∷ []) =
      some (addr_of text part4 part6 key machine mqtt turn none)
  addr_parts text (part4 ∷ part6 ∷ key ∷ machine ∷ mqtt ∷ turn ∷ system ∷ []) =
      some (addr_of text part4 part6 key machine mqtt turn (os_of system))
  addr_parts text _ = none

  -- The check is made, and its result is not used.
  abbrev pub sanity_check : Option NodeAddr → Option NodeAddr
  sanity_check none = none
  sanity_check (some out) = let verdict = validate_node_addr out in some out

  unfoldable pub parse_node_addr : Bytes → Option NodeAddr
  parse_node_addr text = sanity_check (addr_parts text (split b'^' text))
