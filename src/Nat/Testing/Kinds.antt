-- ===== src/Nat/Testing/Kinds.antt =====
-- What comes back through a NAT of each kind, as the NAT test of nat_test.py sees it.
use aionetiface.Prelude.{ℕ, ◌≡◌, ◌≢◌, ◌⊎◌}
use aionetiface.Prelude.{Bool, true, false, none, some, List, [], ◌∷◌}
use aionetiface.Nat.{open_internet, full_cone, restrict_nat, restrict_port_nat}
use aionetiface.Nat.Testing.{
  symmetric_nat, no_reply_nat, Test, test_one, test_two, test_three, test_four, Mapped, Event, came,
  is_first_phase,
}

-- Every reply among the events is as stated.
abbrev pub Each : (Test → Mapped → Type 0) → List Event → Type 0
Each P [] = Unit {0}
Each P (came t none ∷ events) = Each P events
Each P (came t (some m) ∷ events) = P t m × Each P events

-- Some request of the test has a reply.
pub data Answers (t : Test) : List Event → Type 0 where
  now : (m : Mapped) (events : List Event) → Answers t (came t (some m) ∷ events)
  later : (e : Event) (events : List Event) → Answers t events → Answers t (e ∷ events)

abbrev pub Answered : List Event → Type 0
Answered events = (t : Test) × Answers t events

-- The requests that ask for no change of the server's address or port.
abbrev pub is_plain : Test → Bool
is_plain test_one = true
is_plain test_two = false
is_plain test_three = true
is_plain test_four = false

abbrev pub is_one : Test → Bool
is_one test_one = true
is_one test_two = false
is_one test_three = false
is_one test_four = false

pub data Kind : Type 0 where
  unfiltered cone restricted port_restricted symmetric silent : Kind

abbrev pub code_of : Kind → ℕ
code_of unfiltered = open_internet
code_of cone = full_cone
code_of restricted = restrict_nat
code_of port_restricted = restrict_port_nat
code_of symmetric = symmetric_nat
code_of silent = no_reply_nat

-- What comes back through a NAT of each kind, from the source address, in the two phases.
abbrev pub Behaves : Kind → ℕ → List Event → List Event → Type 0
Behaves unfiltered source a b =
    Each (λ t m. (is_first_phase t ≡ true) × (m.rip ≡ source)) a × Answered a
Behaves cone source a b =
    Each (λ t m. (is_first_phase t ≡ true) × (m.rip ≢ source)) a × Answers test_two a
Behaves restricted source a b =
    Each (λ t m. (is_one t ≡ true) × (m.rip ≢ source)) a × Answers test_four b
Behaves port_restricted source a b =
    (mapped : Mapped) × Each (λ t m. (is_one t ≡ true) × (m.rip ≢ source) × (m ≡ mapped)) a
    × Answers test_one a
    × Each (λ t m. (is_plain t ≡ true) × (m ≡ mapped)) b
    × Answers test_three b
Behaves symmetric source a b =
    (is_first : Mapped → Bool) × Each
      (λ t m. (is_one t ≡ true) × (m.rip ≢ source) × (is_first m ≡ true)) a
    × Each (λ t m. (is_plain t ≡ true) × (is_first m ≡ is_one t)) b
    × (Answered a ⊎ Answered b)
Behaves silent source a b = Each (λ t m. ⊥) a × Each (λ t m. ⊥) b
