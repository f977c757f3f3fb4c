-- ===== src/Utility/Runs.antt =====
-- Votes at fixed results.
use aionetiface.Prelude.{ℕ, ◌≡◌, refl, arith, Option, none, some, List, [], ◌∷◌}
use aionetiface.Utility.Consensus.{
  first_agree, concurrent_first_agree_or_best, Elects, concurrent_first_agree_or_best-Elects,
}

abbrev outcomes : List (Option ℕ)
outcomes = some 3 ∷ none ∷ some 5 ∷ some 5 ∷ some 3 ∷ []

five_first : concurrent_first_agree_or_best 2 outcomes ≡ some 5
unfolding concurrent_first_agree_or_best first_agree
five_first = refl

nobody : concurrent_first_agree_or_best 3 outcomes ≡ none
unfolding concurrent_first_agree_or_best first_agree
nobody = refl

concurrent_first_agree_or_best-Elects_example :
    Elects 2 (λ result. 0) outcomes (concurrent_first_agree_or_best 2 outcomes)
concurrent_first_agree_or_best-Elects_example =
    concurrent_first_agree_or_best-Elects 2 outcomes (omega arith)
