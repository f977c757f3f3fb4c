-- ===== src/Nat/Runs.antt =====
-- Two NATs at concrete values.
use aionetiface.Prelude.{true, false, ◌≤◌, ◌<◌, ◌≡◌, refl, arith, none, some}
use aionetiface.Bytes.{ok}
use aionetiface.Utility.Ranges.{Range, in_range}
use aionetiface.Nat.{
  Nat, nat_info, delta_info, full_cone, restrict_port_nat, random_delta, equal_delta,
  nats_can_predict, nats_intersect,
}
use aionetiface.Prelude.{ℕ, none, some, Option, List, [], ◌∷◌}
use aionetiface.Utility.Ranges.{field_dist}
use aionetiface.Nat.{independent_delta}
use aionetiface.Nat.Probing.{Probe, delta_test, get_delta_value}
use aionetiface.Nat.Laws.{nats_intersect-common}

abbrev strict : Nat
strict = record {
  nat_type = restrict_port_nat;
  delta = delta_info random_delta 0;
  range = (1, 65535);
  is_open = false;
  can_predict = true;
  is_hard = true;
  is_concurrent = true;
}

abbrev cone : Nat
cone = record {
  nat_type = full_cone;
  delta = delta_info equal_delta 0;
  range = (3000, 40000);
  is_open = false;
  can_predict = true;
  is_hard = false;
  is_concurrent = true;
}

-- The same as the code builds them.
strict_built : nat_info none (some (delta_info random_delta 0)) none ≡ strict
unfolding nat_info
strict_built = refl

cone_built : nat_info (some full_cone) none (some (3000, 40000)) ≡ cone
unfolding nat_info
cone_built = refl

strict_and_cone : nats_can_predict strict cone ≡ ok 1
unfolding nats_can_predict in_range
strict_and_cone = refl

nats_intersect-common_example :
    (r : Range) × (nats_intersect strict cone 8 ≡ (ok r, strict))
    × (nats_intersect cone strict 8 ≡ (ok r, cone))
    × (1024 < r.0)
    × (r.0 ≤ r.1)
    × (1 ≤ r.0)
    × (r.1 ≤ 65535)
    × (3000 ≤ r.0)
    × (r.1 ≤ 40000)
nats_intersect-common_example =
    nats_intersect-common strict cone 8 (omega arith) (omega arith) (omega arith) (omega arith)

-- Eight probes, of which two fail.
abbrev ports : List (Option ℕ)
ports = some 4001 ∷ none ∷ some 5123 ∷ some 60000 ∷ some 4500 ∷ none ∷ some 7000 ∷ some 7001 ∷ []

-- Ports that follow each other by three, whatever the local ports are.
abbrev by_three : List (Option Probe)
by_three =
    some (record { local_port = 4001; mapped_port = some 30000 })
    ∷ some (record { local_port = 9001; mapped_port = some 30003 })
    ∷ some (record { local_port = 5777; mapped_port = some 30006 })
    ∷ []

independent : delta_test 2 true by_three [] ≡ delta_info independent_delta 3
unfolding delta_test get_delta_value field_dist
independent = refl
