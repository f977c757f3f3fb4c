-- ===== src/Utility/Consensus.antt =====
-- `concurrent_first_agree_or_best` of aionetiface/utility/pattern_factory.py: the results of the
-- tasks in the order in which they are looked at, with `none` for a task that failed or gave `None`.
-- A result is known by a number. The table of counts is a function.
use aionetiface.Prelude.{ℕ, ◌+◌, ◌≤◌, ◌<◌, ◌≡◌, refl, ap, arith, leb, ◌==◌}
use aionetiface.Prelude.{
  Option, none, some, List, [], ◌∷◌, ◌++◌, if◌then◌else◌, if_cases, ==_refl, ==_iff,
}

abbrev pub Counts : Type 0
Counts = ℕ → ℕ

-- `results[result] += 1`
abbrev pub count_up : ℕ → Counts → Counts
count_up result results other = if other == result then results other + 1 else results other

-- The loop, up to the first result that enough tasks gave.
unfoldable pub first_agree : ℕ → Counts → List (Option ℕ) → Option ℕ
first_agree min_agree results [] = none
first_agree min_agree results (none ∷ outcomes) = first_agree min_agree results outcomes
first_agree min_agree results (some result ∷ outcomes) =
    let counted = count_up result results in
    let later = first_agree min_agree counted outcomes in
    if leb min_agree (counted result) then some result else later

unfoldable pub concurrent_first_agree_or_best : ℕ → List (Option ℕ) → Option ℕ
concurrent_first_agree_or_best min_agree outcomes = first_agree min_agree (λ result. 0) outcomes

-- How often a result is among the outcomes.
abbrev pub votes : ℕ → List (Option ℕ) → ℕ
votes x [] = 0
votes x (none ∷ outcomes) = votes x outcomes
votes x (some result ∷ outcomes) = (if x == result then 1 else 0) + votes x outcomes

-- No result has enough votes; or one has them by its last vote, and none had them before.
abbrev pub Elects : ℕ → Counts → List (Option ℕ) → Option ℕ → Type 0
Elects min_agree results outcomes none = (x : ℕ) → results x + votes x outcomes < min_agree
Elects min_agree results outcomes (some winner) =
    (before : List (Option ℕ)) × (after : List (Option ℕ)) × (outcomes
      ≡ before ++ (some winner ∷ after))
    × (results winner + votes winner before + 1 ≡ min_agree)
    × ((x : ℕ) → results x + votes x before < min_agree)

count_up_eq :
    (result : ℕ) (results : Counts) (x : ℕ)
    → count_up result results x ≡ results x + (if x == result then 1 else 0)
count_up_eq result results x = ground arith

Elects-later :
    (min_agree result : ℕ) (results : Counts) (outcomes : List (Option ℕ)) (winner : Option ℕ)
    → Elects min_agree (count_up result results) outcomes winner
    → Elects min_agree results (some result ∷ outcomes) winner
Elects-later min_agree result results outcomes none h =
    λ x. omega (arith, h x, count_up_eq result results x)
Elects-later min_agree result results outcomes (some winner) (before, after, e, k, l) = (
  some result ∷ before,
  after,
  ap (λ t. some result ∷ t) e,
  omega (arith, k, count_up_eq result results winner),
  λ x. omega (arith, l x, count_up_eq result results x),
)

Elects-none :
    (min_agree : ℕ) (results : Counts) (outcomes : List (Option ℕ)) (winner : Option ℕ)
    → Elects min_agree results outcomes winner
    → Elects min_agree results (none ∷ outcomes) winner
Elects-none min_agree results outcomes none h = h
Elects-none min_agree results outcomes (some winner) (before, after, e, k, l) =
    (none ∷ before, after, ap (λ t. none ∷ t) e, k, l)

first_agree-Elects :
    (min_agree : ℕ) (results : Counts) (outcomes : List (Option ℕ))
    → ((x : ℕ) → results x < min_agree)
    → Elects min_agree results outcomes (first_agree min_agree results outcomes)
unfolding first_agree
first_agree-Elects min_agree results [] h = λ x. omega (arith, h x)
first_agree-Elects min_agree results (none ∷ outcomes) h =
    Elects-none min_agree results outcomes (first_agree min_agree results outcomes)
      (first_agree-Elects min_agree results outcomes h)
first_agree-Elects min_agree results (some result ∷ outcomes) h =
    if_cases (Elects min_agree results (some result ∷ outcomes))
      (leb min_agree (count_up result results result))
      (λ enough.
        ([], outcomes, refl, ground (arith, h result, ==_refl result), λ x. omega (arith, h x)))
      (λ few.
        Elects-later min_agree result results outcomes
          (first_agree min_agree (count_up result results) outcomes)
          (first_agree-Elects min_agree (count_up result results) outcomes
            (λ x. ground (arith, h x, ==_iff x result))))

-- For a number of votes of at least 1, the result that the first so many tasks agree on is given
-- back, and `None` just if no result gets so many votes.
pub concurrent_first_agree_or_best-Elects :
    (min_agree : ℕ) (outcomes : List (Option ℕ))
    → 1 ≤ min_agree
    → Elects min_agree (λ result. 0) outcomes (concurrent_first_agree_or_best min_agree outcomes)
unfolding concurrent_first_agree_or_best
concurrent_first_agree_or_best-Elects min_agree outcomes h =
    first_agree-Elects min_agree (λ result. 0) outcomes (λ x. omega arith)
