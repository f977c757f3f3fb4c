-- ===== src/Nat/Testing/Range.antt =====
-- The type that the NAT test finds is one of the table; nat_test.py.
use aionetiface.Prelude.{ℕ, ◌≤◌, arith, Bool, true, false, Option, none, some, List, [], ◌∷◌}
use aionetiface.Prelude.{◌==◌, if_both}
use aionetiface.Nat.{open_internet, restrict_port_nat}
use aionetiface.Nat.Testing.{
  symmetric_nat, no_reply_nat, Test, test_one, test_two, test_three, test_four, Mapped, Event, came,
  QList, no_replies, no_stun_resp_check, non_symmetric_check, append_reply, test_coro,
  nat_test_exec, result_in, or_next, run_phase, finish_test, second_phase, fast_nat_test,
}

OneOf : ℕ → Type 0
OneOf kind = (open_internet ≤ kind) × (kind ≤ no_reply_nat)

Open : QList → Type 0
Open q = (restrict_port_nat ≤ q.verdict) × (q.verdict ≤ symmetric_nat)

Outcome : Option ℕ → QList → Type 0
Outcome none q = Open q
Outcome (some kind) q = OneOf kind

Result : Option ℕ × QList → Type 0
Result r = Outcome r.0 r.1

test_coro-Open :
    (source : ℕ) (t : Test) (m : Mapped) (q : QList) → Open q → Open (test_coro source t m q).1
unfolding Open test_coro
test_coro-Open source test_one m q h = h
test_coro-Open source test_two m q h = h
test_coro-Open source test_three m q h =
    if_both Open (non_symmetric_check q) (omega arith, omega arith) h
test_coro-Open source test_four m q h = h

test_coro-Outcome :
    (source : ℕ) (t : Test) (m : Mapped) (q q' : QList)
    → Open q'
    → Outcome (test_coro source t m q).0 q'
unfolding Outcome OneOf test_coro
test_coro-Outcome source test_one m q q' h =
    if_both (λ o. Outcome o q') (m.rip == source) (omega arith, omega arith) h
test_coro-Outcome source test_two m q q' h =
    if_both (λ o. Outcome o q') (m.rip == source) (omega arith, omega arith)
      (omega arith, omega arith)
test_coro-Outcome source test_three m q q' h = h
test_coro-Outcome source test_four m q q' h = (omega arith, omega arith)

result_in-Outcome :
    (first : Bool) (t : Test) (o : Option ℕ) (q : QList)
    → Open q
    → Outcome o q
    → Outcome (result_in first t o) q
unfolding Outcome
result_in-Outcome true t o q h k = k
result_in-Outcome false test_one o q h k = h
result_in-Outcome false test_two o q h k = h
result_in-Outcome false test_three o q h k = k
result_in-Outcome false test_four o q h k = k

append_reply-Open : (t : Test) (m : Mapped) (q : QList) → Open q → Open (append_reply t m q)
unfolding Open
append_reply-Open test_one m q h = h
append_reply-Open test_two m q h = h
append_reply-Open test_three m q h = h
append_reply-Open test_four m q h = h

or_next-Result :
    (o : Option ℕ) (q : QList) (next : Option ℕ × QList)
    → Outcome o q
    → Result next
    → Result (or_next o q next)
unfolding Result Outcome
or_next-Result none q next h k = k
or_next-Result (some kind) q next h k = h

run-Result :
    (first : Bool) (source : ℕ) (events : List Event) (q : QList)
    → Open q
    → Result (run_phase first source events q)
unfolding run_phase nat_test_exec Result Outcome
run-Result first source [] q h = h
run-Result first source (came t none ∷ events) q h =
    or_next-Result (result_in first t none) q (run_phase first source events q)
      (result_in-Outcome first t none q h h) (run-Result first source events q h)
run-Result first source (came t (some m) ∷ events) q h =
    let added : QList = append_reply t m q in
    let done : Option ℕ × QList = test_coro source t m added in
    let open_done : Open done.1 = test_coro-Open source t m added (append_reply-Open t m q h) in
    or_next-Result (result_in first t done.0) done.1 (run_phase first source events done.1)
      (result_in-Outcome first t done.0 done.1 open_done
        (test_coro-Outcome source t m added done.1 open_done))
      (run-Result first source events done.1 open_done)

finish-OneOf : (r : Option ℕ × QList) → Result r → OneOf (finish_test r)
unfolding Result Outcome OneOf Open
finish-OneOf (some kind, q) h = h
finish-OneOf (none, q) h =
    if_both OneOf (no_stun_resp_check q) (omega arith, omega arith) (omega arith, omega arith)

second-OneOf :
    (source : ℕ) (b : List Event) (r : Option ℕ × QList)
    → Result r
    → OneOf (second_phase source b r)
unfolding Result Outcome
second-OneOf source b (some kind, q) h = h
second-OneOf source b (none, q) h =
    finish-OneOf (run_phase false source b q) (run-Result false source b q h)

-- Whatever replies come in whatever order, the type that is found is between those of an open and
-- of a blocked NAT, the bounds that `validate_node_addr` puts on the type of a NAT.
pub fast_nat_test_within :
    (source : ℕ) (a b : List Event)
    → (open_internet ≤ fast_nat_test source a b) × (fast_nat_test source a b ≤ no_reply_nat)
unfolding fast_nat_test OneOf Open
fast_nat_test_within source a b =
    second-OneOf source b (run_phase true source a no_replies)
      (run-Result true source a no_replies (omega arith, omega arith))
