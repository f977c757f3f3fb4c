-- ===== src/Nat/Testing/Runs.antt =====
-- NAT tests at fixed replies.
use aionetiface.Prelude.{ℕ, ◌≡◌, refl, inl, arith, none, some, List, [], ◌∷◌}
use aionetiface.Prelude.{◌==◌, ◌+◌}
use aionetiface.Nat.Testing.{
  test_one, test_two, test_three, test_four, Mapped, Event, came, non_symmetric_check,
  no_stun_resp_check, test_coro, nat_test_exec, run_phase, fast_nat_test, reply_source,
}
use aionetiface.Nat.Testing.Kinds.{symmetric, now, later, Behaves}
use aionetiface.Nat.Testing.Verdict.{fast_nat_test-code_of}

abbrev mapped_at : ℕ → Mapped
mapped_at port = record { rip = 9; rport = port }

-- From the address 7, a mapping for each server.
abbrev first_round : List Event
first_round = came test_two none ∷ came test_one (some (mapped_at 4000)) ∷ []

abbrev second_round : List Event
second_round =
    came test_three (some (mapped_at 4001))
    ∷ came test_one (some (mapped_at 4000))
    ∷ came test_four none
    ∷ []

symmetric-Behaves : Behaves symmetric 7 first_round second_round
symmetric-Behaves = (
  λ m. m.rport == 4000,
  ((refl, omega arith, refl), tt),
  ((refl, refl), ((refl, refl), tt)),
  inl (test_one, later _ _ (now _ _)),
)

fast_nat_test-code_of_example : fast_nat_test 7 first_round second_round ≡ 6
fast_nat_test-code_of_example =
    fast_nat_test-code_of symmetric 7 first_round second_round symmetric-Behaves

-- One mapping for both servers; the reply to the first test comes after the one to the third.
late_first :
    fast_nat_test 7 []
      (came test_three (some (mapped_at 4000)) ∷ came test_one (some (mapped_at 4000)) ∷ [])
    ≡ 6
unfolding fast_nat_test run_phase nat_test_exec test_coro non_symmetric_check no_stun_resp_check
late_first = refl

-- The reply to the second test comes from the other address and port, the one to the fourth from
-- the other port of the second address.
two_sources :
    (reply_source (λ i. (10 + i, 20 + i)) test_two ≡ (13, 23))
    × (reply_source (λ i. (10 + i, 20 + i)) test_four ≡ (12, 23))
unfolding reply_source
two_sources = (refl, refl)
