-- ===== src/Bind/Rules.antt =====
-- What the table of rules comes to.
use Prim.Native.String.{String, ◌++◌ as joined}
use text.Mathlib.Text.{◌==◌ as str_eq}
use aionetiface.Prelude.{Bool, false, not, ◌&&◌, ◌||◌, Option, List}
use aionetiface.Prelude.{if◌then◌else◌}
use aionetiface.Stun.Address.{Family, ip4, ip6}
use aionetiface.Bind.{is_among, valid_localhost, v6_valid_localhost, v4_valid_any, v6_valid_any}
use aionetiface.Bind.{Part, name, number, is_private_or_none, put_at}

-- The address to look up, by cases.
abbrev pub lookup_ip : (String → Option Bool) → String → Family → String → String
lookup_ip is_private ip ip4 nic =
    if is_among ip valid_localhost
    then "127.0.0.1"
    else if is_among ip v4_valid_any
    then "0.0.0.0"
    else ip
lookup_ip is_private ip ip6 nic =
    if is_among ip valid_localhost
    then "::1"
    else (if is_among ip v6_valid_any
        then "::"
        else if is_private_or_none (is_private ip)
        then joined ip (joined "%" nic)
        else ip)

-- The scope in the tuple, by cases; only Windows sees the interface there.
abbrev pub with_scope :
    (String → Option Bool) → List Part → String → Family → String → String → List Part
with_scope is_private bind_tup ip ip4 nic plat = bind_tup
with_scope is_private bind_tup ip ip6 nic plat =
    if is_among ip v6_valid_any && str_eq "Windows" plat
    then put_at 3 (number 0) bind_tup
    else (if is_among ip v6_valid_localhost
        then put_at 3 (number 0) bind_tup
        else if is_private_or_none (is_private ip) && str_eq "Windows" plat
        then put_at 3 (name nic) bind_tup
        else bind_tup)

-- Only an IPv6 address that is neither a loopback nor a wildcard address has to do with an interface.
abbrev pub needs_nic : Family → String → Bool
needs_nic ip4 ip = false
needs_nic ip6 ip = not (is_among ip valid_localhost || is_among ip v6_valid_any)
