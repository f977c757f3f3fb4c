-- ===== src/Bind/Runs.antt =====
-- The rules on Windows, at a wildcard address and at a link-local one.
use Prim.Native.String.{String}
use aionetiface.Prelude.{ℕ, ◌≡◌, refl, Bool, true, Option, some, List, [], ◌∷◌}
use aionetiface.Stun.Address.{ip6}
use aionetiface.Bind.{Part, name, number, get_bind_magic_table, resolve_bind_ip, resolve_bind_tuple}
use aionetiface.Bind.{binder}

abbrev all_private : String → Option Bool
all_private ip = some true

abbrev unscoped : String → String
unscoped ip = "fe80::1"

abbrev found : List Part
found = name "fe80::1%4" ∷ number 80 ∷ number 0 ∷ number 0 ∷ []

-- Every text is found, as the first part of a tuple.
abbrev any_found : String → ℕ → Option (List Part)
any_found text port = some (name text ∷ number port ∷ number 0 ∷ number 7 ∷ [])

abbrev unchanged : String → String
unchanged ip = ip

any_bound :
    binder all_private unchanged any_found ip6 "" 80 "4" "Windows"
    ≡ some (name "::" ∷ number 80 ∷ number 0 ∷ number 0 ∷ [])
unfolding binder resolve_bind_ip resolve_bind_tuple
any_bound = refl

scoped_ip :
    resolve_bind_ip all_private "fe80::1" ip6 "4" "Windows" (get_bind_magic_table ip6) ≡ "fe80::1%4"
unfolding resolve_bind_ip
scoped_ip = refl

scoped_tuple :
    resolve_bind_tuple all_private unscoped found "fe80::1" ip6 "4" "Windows"
      (get_bind_magic_table ip6)
    ≡ name "fe80::1" ∷ number 80 ∷ number 0 ∷ name "4" ∷ []
unfolding resolve_bind_tuple
scoped_tuple = refl
