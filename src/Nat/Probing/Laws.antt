-- ===== src/Nat/Probing/Laws.antt =====
-- The verdict on a NAT that maps every port to itself.
use aionetiface.Prelude.{ℕ, suc, ◌+◌, ◌≤◌, ◌≡◌, refl, ap, ◌∙◌, arith, Bool, true, false}
use aionetiface.Prelude.{Option, none, some, List, [], ◌∷◌, ◌==◌, ==_refl, ==-eq_false, leb-eq_true}
use aionetiface.Prelude.{Bool-cases, inl, inr, if_both}
use aionetiface.Nat.{delta_info, equal_delta, max_port}
use aionetiface.Utility.Ranges.{abs, field_dist}
use aionetiface.Nat.Probing.{Probe, Counts, bump, count_of, Counters, no_counts, compare_prev}
use aionetiface.Nat.Probing.{get_delta_value, gathered, delta_test, count_result, prev_ports}

-- Probes of these ports that come back as they were sent, or not at all.
abbrev pub unmoved : Option ℕ → Option Probe
unmoved none = none
unmoved (some port) = some (record { local_port = port; mapped_port = some port })

abbrev pub all_unmoved : List (Option ℕ) → List (Option Probe)
all_unmoved [] = []
all_unmoved (port ∷ ports) = unmoved port ∷ all_unmoved ports

abbrev pub answered : List (Option ℕ) → ℕ
answered [] = 0
answered (none ∷ ports) = answered ports
answered (some port ∷ ports) = suc (answered ports)

count_of-bump :
    (key : ℕ) (counts : Counts) → count_of key (bump key counts) ≡ count_of key counts + 1
count_of-bump key [] = rw (==_refl key)
count_of-bump key ((other, n) ∷ counts) = elim (Bool-cases (other == key)) [
  | inl same ↦ rw (same, same)
  | inr differs ↦ rw (differs, differs, count_of-bump key counts)
]

-- Equal ports are equally far apart, and are not counted as preserving.
compare_unmoved :
    (prev : Option ℕ) (port : ℕ) (c : Counters)
    → compare_prev port port (prev_ports (unmoved prev)) c ≡ c
compare_unmoved none port c = refl
compare_unmoved (some before) port c =
    rw (==_refl (abs (field_dist port before max_port)), ==_refl port)
      (if_both (λ t. t ≡ c) (before == 0) refl (if_both (λ t. t ≡ c) (before == 0) refl refl))

count_unmoved :
    (prev : Option ℕ) (port : ℕ) (c : Counters)
    → count_result (unmoved prev) (unmoved (some port)) c
      ≡ record c { delta_no = bump equal_delta c.delta_no }
count_unmoved prev port c =
    rw (==_refl port)
      (compare_unmoved prev port (record c { delta_no = bump equal_delta c.delta_no }))

counted :
    (prev : Option ℕ) (ports : List (Option ℕ)) (c : Counters)
    → count_of equal_delta (get_delta_value (unmoved prev) (all_unmoved ports) c).delta_no
      ≡ count_of equal_delta c.delta_no + answered ports
unfolding get_delta_value
counted prev [] c = omega arith
counted prev (none ∷ ports) c = counted none ports c
counted prev (some port ∷ ports) c =
    let more = record c { delta_no = bump equal_delta c.delta_no } in
    ap
      (λ d.
        count_of equal_delta (get_delta_value (unmoved (some port)) (all_unmoved ports) d).delta_no)
      (count_unmoved prev port c)
    ∙ omega (arith, counted (some port) ports more, count_of-bump equal_delta c.delta_no)

-- Leaving out the failed probes leaves the answered ones.
gathered-all_unmoved :
    (concurrency : Bool) (ports : List (Option ℕ))
    → (kept : List (Option ℕ)) × (gathered concurrency (all_unmoved ports) ≡ all_unmoved kept)
      × (answered kept ≡ answered ports)
gathered-all_unmoved true ports = (ports, refl, refl)
gathered-all_unmoved false [] = ([], refl, refl)
gathered-all_unmoved false (none ∷ ports) = gathered-all_unmoved false ports
gathered-all_unmoved false (some port ∷ ports) =
    let (kept, same, size) = gathered-all_unmoved false ports in
    (some port ∷ kept, ap (λ t. unmoved (some port) ∷ t) same, ap suc size)

-- A NAT that maps every port to itself has an equal delta, when at least as many probes are
-- answered as the threshold says, which is not 0: whatever probes fail, in whatever order they
-- come, and whatever the second round would say.
pub delta_test-unmoved :
    (threshold : ℕ) (concurrency : Bool) (ports : List (Option ℕ)) (later : List (Option Probe))
    → 1 ≤ threshold
    → threshold ≤ answered ports
    → delta_test threshold concurrency (all_unmoved ports) later ≡ delta_info equal_delta 0
unfolding delta_test
delta_test-unmoved threshold concurrency ports later h k =
    let (kept, same, size) = gathered-all_unmoved concurrency ports in
    let count = count_of equal_delta (get_delta_value none (all_unmoved kept) no_counts).delta_no in
    let all = counted none kept no_counts in
    rw (
      same,
      ==-eq_false count 0 (λ e. absurd (omega arith)),
      leb-eq_true threshold count (omega arith),
    )
