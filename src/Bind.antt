-- ===== src/Bind.antt =====
-- The rules for bind addresses of aionetiface/net/bind/bind_rules.py and bind_utils.py. Whether
-- the text of an address is private is the argument `is_private`, which is `none` where `ip_f`
-- raises; what `getaddrinfo` gives is a list of texts and numbers. An interface is known by a text.
pub mod Rules
pub mod Runs
use Prim.Native.String.{String, ◌++◌ as joined}
use text.Mathlib.Text.{◌==◌ as str_eq}
use aionetiface.Prelude.{ℕ, zero, suc, Bool, true, false, not, ◌&&◌, ◌||◌, Option, none, some}
use aionetiface.Prelude.{List, [], ◌∷◌, length, ltb, if◌then◌else◌}
use aionetiface.Stun.Address.{Family, ip4, ip6}

abbrev pub is_among : String → List String → Bool
is_among ip [] = false
is_among ip (other ∷ others) = str_eq ip other || is_among ip others

abbrev pub same_family : Family → Family → Bool
same_family ip4 ip4 = true
same_family ip4 ip6 = false
same_family ip6 ip4 = false
same_family ip6 ip6 = true

abbrev pub valid_localhost : List String
valid_localhost = "localhost" ∷ "::1" ∷ "127.0.0.1" ∷ []

abbrev pub v6_valid_localhost : List String
v6_valid_localhost = "localhost" ∷ "::1" ∷ []

abbrev pub v4_valid_any : List String
v4_valid_any = "*" ∷ "0.0.0.0" ∷ "" ∷ []

abbrev pub v6_valid_any : List String
v6_valid_any = "*" ∷ "::" ∷ "::/0" ∷ "" ∷ "0000:0000:0000:0000:0000:0000:0000:0000" ∷ []

abbrev pub localhost_lookup : Family → String
localhost_lookup ip4 = "127.0.0.1"
localhost_lookup ip6 = "::1"

-- A part of a bind tuple.
pub data Part : Type 0 where
  name : String → Part
  number : ℕ → Part

pub data RuleType : Type 0 where
  ip_append ip_bind_tup : RuleType

-- The addresses that a rule is for.
pub data Hey : Type 0 where
  one_of : List String → Hey
  ip_private : Hey

-- A text to append, or `"nic_id"`; and a place with a number or `"nic_id"`.
pub data Change : Type 0 where
  ending : String → Change
  nic_id : Change
  place : ℕ → Part → Change
  nic_place : ℕ → Change

pub record BindRule : Type 0 where
  pub platform : String
  pub afs : List Family
  pub kind : RuleType
  pub hey : Hey
  pub norm : Option String
  pub change : Change

abbrev pub rule : String → List Family → RuleType → Hey → Option String → Change → BindRule
rule on families type addresses normal changed = record {
  platform = on;
  afs = families;
  kind = type;
  hey = addresses;
  norm = normal;
  change = changed;
}

abbrev pub get_bind_magic_table : Family → List BindRule
get_bind_magic_table af =
    rule "*" (ip4 ∷ ip6 ∷ []) ip_append (one_of valid_localhost) (some (localhost_lookup af))
      (ending "")
    ∷ rule "*" (ip6 ∷ []) ip_append (one_of v6_valid_any) (some "::") (ending "")
    ∷ rule "*" (ip4 ∷ []) ip_append (one_of v4_valid_any) (some "0.0.0.0") (ending "")
    ∷ rule "Windows" (ip6 ∷ []) ip_append ip_private (some "") nic_id
    ∷ rule "*" (ip6 ∷ []) ip_append ip_private (some "") nic_id
    ∷ rule "Windows" (ip6 ∷ []) ip_bind_tup (one_of v6_valid_any) none (place 3 (number 0))
    ∷ rule "*" (ip6 ∷ []) ip_bind_tup (one_of v6_valid_localhost) none (place 3 (number 0))
    ∷ rule "Windows" (ip6 ∷ []) ip_bind_tup ip_private none (nic_place 3)
    ∷ []

abbrev has_family : Family → List Family → Bool
has_family af [] = false
has_family af (other ∷ others) = same_family af other || has_family af others

abbrev same_type : RuleType → RuleType → Bool
same_type ip_append ip_append = true
same_type ip_append ip_bind_tup = false
same_type ip_bind_tup ip_append = false
same_type ip_bind_tup ip_bind_tup = true

-- A text that is no address counts as a match.
abbrev pub is_private_or_none : Option Bool → Bool
is_private_or_none none = true
is_private_or_none (some private) = private

abbrev matches_hey : (String → Option Bool) → String → Hey → Bool
matches_hey is_private ip (one_of addresses) = is_among ip addresses
matches_hey is_private ip ip_private = is_private_or_none (is_private ip)

abbrev pub match_bind_rule :
    (String → Option Bool) → String → Family → String → BindRule → RuleType → Bool
match_bind_rule is_private ip af plat bind_rule rule_type =
    same_type bind_rule.kind rule_type
    && has_family af bind_rule.afs
    && (str_eq bind_rule.platform "*" || str_eq bind_rule.platform plat)
    && matches_hey is_private ip bind_rule.hey

abbrev normed : Option String → String → String
normed none ip = ip
normed (some other) ip = if str_eq other "" then ip else other

-- The second half of a rule of this type; the other changes stand in rules of the other type.
abbrev appended : Change → String → String → String
appended (ending more) nic ip = joined ip more
appended nic_id nic ip = joined ip (joined "%" nic)
appended (place offset part) nic ip = ip
appended (nic_place offset) nic ip = ip

unfoldable pub resolve_bind_ip :
    (String → Option Bool) → String → Family → String → String → List BindRule → String
resolve_bind_ip is_private ip af nic plat [] = ip
resolve_bind_ip is_private ip af nic plat (bind_rule ∷ bind_magic) =
    if match_bind_rule is_private ip af plat bind_rule ip_append
    then appended bind_rule.change nic (normed bind_rule.norm ip)
    else resolve_bind_ip is_private ip af nic plat bind_magic

-- `bind_tup[offset] = val` where there is such a place.
abbrev pub put_at : ℕ → Part → List Part → List Part
put_at offset part [] = []
put_at zero part (x ∷ xs) = part ∷ xs
put_at (suc offset) part (x ∷ xs) = x ∷ put_at offset part xs

abbrev changed_tup : Change → String → List Part → List Part
changed_tup (place offset part) nic bind_tup = put_at offset part bind_tup
changed_tup (nic_place offset) nic bind_tup = put_at offset (name nic) bind_tup
changed_tup (ending more) nic bind_tup = bind_tup
changed_tup nic_id nic bind_tup = bind_tup

abbrev pub apply_rules :
    (String → Option Bool)
    → List Part
    → String
    → Family
    → String
    → String
    → List BindRule
    → List Part
apply_rules is_private bind_tup ip af nic plat [] = bind_tup
apply_rules is_private bind_tup ip af nic plat (bind_rule ∷ bind_magic) =
    if match_bind_rule is_private ip af plat bind_rule ip_bind_tup
    then changed_tup bind_rule.change nic bind_tup
    else apply_rules is_private bind_tup ip af nic plat bind_magic

-- `ip_strip_if` on the first part, where `strip` cuts a text at its first percent sign.
abbrev pub strip_first : (String → String) → List Part → List Part
strip_first strip [] = []
strip_first strip (name ip ∷ parts) = name (strip ip) ∷ parts
strip_first strip (number n ∷ parts) = number n ∷ parts

abbrev pub strip_ip6 : (String → String) → Family → List Part → List Part
strip_ip6 strip ip4 bind_tup = bind_tup
strip_ip6 strip ip6 bind_tup = strip_first strip bind_tup

unfoldable pub resolve_bind_tuple :
    (String → Option Bool)
    → (String → String)
    → List Part
    → String
    → Family
    → String
    → String
    → List BindRule
    → List Part
resolve_bind_tuple is_private strip initial_tup ip af nic plat bind_magic =
    strip_ip6 strip af (apply_rules is_private initial_tup ip af nic plat bind_magic)

-- `binder_sync`, and `binder_async` without its limit of time: `getaddrinfo` gives the first
-- tuple for an address and a port, if any.
unfoldable pub binder :
    (String → Option Bool)
    → (String → String)
    → (String → ℕ → Option (List Part))
    → Family
    → String
    → ℕ
    → String
    → String
    → Option (List Part)
binder is_private strip getaddrinfo af ip port nic plat =
    let bind_magic = get_bind_magic_table af in
    let resolved = resolve_bind_ip is_private ip af nic plat bind_magic in
    elim (getaddrinfo resolved port) [
      | none ↦ none
      | some initial_tup ↦
          some (resolve_bind_tuple is_private strip initial_tup resolved af nic plat bind_magic)
    ]
