-- ===== src/Nat/Probing.antt =====
-- `delta_test` of aionetiface/nic/nat/nat_utils.py, from the results of its probes on: how the
-- results are counted, and what the counts say. The sockets that the results carry are left out.
pub mod Laws
use aionetiface.Prelude.{ℕ, zero, suc, ◌+◌, Bool, true, false, not, Option, none, some}
use aionetiface.Prelude.{List, [], ◌∷◌, ◌++◌, length, leb, ltb, ◌==◌, if◌then◌else◌}
use aionetiface.Utility.Ranges.{abs, field_dist}
use aionetiface.Nat.{Delta, delta_info, max_port}
use aionetiface.Nat.{equal_delta, preserv_delta, independent_delta, dependent_delta, random_delta}

-- `[local, mapped, socket]`
pub record Probe : Type 0 where
  pub local_port : ℕ
  pub mapped_port : Option ℕ

-- A dictionary of counts, in the order of insertion.
abbrev pub Counts : Type 0
Counts = List (ℕ × ℕ)

abbrev pub bump : ℕ → Counts → Counts
bump key [] = (key, 1) ∷ []
bump key ((other, n) ∷ counts) =
    if other == key then (other, n + 1) ∷ counts else (other, n) ∷ bump key counts

abbrev pub count_of : ℕ → Counts → ℕ
count_of key [] = 0
count_of key ((other, n) ∷ counts) = if other == key then n else count_of key counts

-- `preserv_dist` is used for its size only: `d[k] = 1`.
abbrev pub put_key : ℕ → List ℕ → List ℕ
put_key key [] = key ∷ []
put_key key (other ∷ keys) = if other == key then other ∷ keys else other ∷ put_key key keys

pub record Counters : Type 0 where
  pub delta_no : Counts
  pub dist_no : Counts
  pub local_dist : Counts
  pub preserv_dist : List ℕ

abbrev pub no_counts : Counters
no_counts = record { delta_no = []; dist_no = []; local_dist = []; preserv_dist = [] }

-- The previous result, where it has a mapping.
abbrev pub prev_ports : Option Probe → Option (ℕ × ℕ)
prev_ports none = none
prev_ports (some p) = elim p.mapped_port [ none ↦ none | some mapped ↦ some (p.local_port, mapped) ]

abbrev count_equal : ℕ → ℕ → Counters → Counters
count_equal local mapped c =
    if local == mapped then record c { delta_no = bump equal_delta c.delta_no } else c

-- The tests on the distances from the previous result.
abbrev count_dist : ℕ → ℕ → ℕ → ℕ → Counters → Counters
count_dist local mapped local_far mapped_far c =
    if mapped_far == local_far
    then (if mapped == local then c else record c {
      preserv_dist = put_key mapped_far c.preserv_dist;
      delta_no = bump preserv_delta c.delta_no;
    })
    else (if local_far == 1
        then record c { local_dist = bump mapped_far c.local_dist }
        else record c { dist_no = bump mapped_far c.dist_no })

abbrev compare_prev : ℕ → ℕ → Option (ℕ × ℕ) → Counters → Counters
compare_prev local mapped none c = c
compare_prev local mapped (some (prev_local, prev_mapped)) c =
    if prev_local == 0
    then c
    else (if prev_mapped == 0
        then c
        else count_dist local mapped (abs (field_dist local prev_local max_port))
            (abs (field_dist mapped prev_mapped max_port)) c)

abbrev count_mapped : ℕ → Option ℕ → Option (ℕ × ℕ) → Counters → Counters
count_mapped local none prev c = c
count_mapped local (some mapped) prev c =
    compare_prev local mapped prev (count_equal local mapped c)

abbrev count_result : Option Probe → Option Probe → Counters → Counters
count_result prev none c = c
count_result prev (some p) c = count_mapped p.local_port p.mapped_port (prev_ports prev) c

-- `get_delta_value`: the loop over the results, each with the one before.
unfoldable pub get_delta_value : Option Probe → List (Option Probe) → Counters → Counters
get_delta_value prev [] c = c
get_delta_value prev (result ∷ results) c =
    get_delta_value result results (count_result prev result c)

-- The first distance that was seen often enough.
abbrev pub frequent : ℕ → Counts → Option ℕ
frequent threshold [] = none
frequent threshold ((dist, n) ∷ counts) =
    if leb threshold n then some dist else frequent threshold counts

-- Results in turn leave out the probes that failed; results at once do not.
abbrev pub gathered : Bool → List (Option Probe) → List (Option Probe)
gathered true results = results
gathered false [] = []
gathered false (none ∷ results) = gathered false results
gathered false (some p ∷ results) = some p ∷ gathered false results

abbrev pub has_count : ℕ → ℕ → Counters → Bool
has_count threshold name c =
    if count_of name c.delta_no == 0 then false else leb threshold (count_of name c.delta_no)

-- The verdict of the probes of ports one apart.
abbrev second_round : ℕ → Counters → Delta
second_round threshold c = elim (frequent threshold c.local_dist) [
  | none ↦ delta_info random_delta 0
  | some dist ↦ delta_info dependent_delta dist
]

-- The verdict of the probes of random ports, or else that of the second round.
abbrev first_round : ℕ → Counters → Delta → Delta
first_round threshold c later =
    if has_count threshold equal_delta c
    then delta_info equal_delta 0
    else (if ltb 1 (length c.preserv_dist)
        then (if has_count threshold preserv_delta c
            then delta_info preserv_delta 0
            else elim (frequent threshold c.dist_no) [
              | none ↦ later
              | some dist ↦ delta_info independent_delta dist
            ])
        else elim (frequent threshold c.dist_no) [
          | none ↦ later
          | some dist ↦ delta_info independent_delta dist
        ])

unfoldable pub delta_test : ℕ → Bool → List (Option Probe) → List (Option Probe) → Delta
delta_test threshold concurrency results later_results =
    first_round threshold (get_delta_value none (gathered concurrency results) no_counts)
      (second_round threshold (get_delta_value none later_results no_counts))
