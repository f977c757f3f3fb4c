-- ===== src/Nat/Testing/Verdict.antt =====
-- What the NAT test makes of the kinds of NAT; aionetiface/nic/nat/nat_test.py.
use aionetiface.Prelude.{
  ℕ, ◌≡◌, ◌≢◌, ◌⊎◌, inl, inr, refl, ap, sym, ◌∙◌, arith, ◌++◌, append_assoc, append-nil,
}
use aionetiface.Prelude.{Bool, true, false, ◌&&◌, Option, none, some, List, [], ◌∷◌}
use aionetiface.Prelude.{Bool-cases, ==_refl, ==-eq_false}
use aionetiface.Nat.{open_internet, full_cone, restrict_nat, restrict_port_nat}
use aionetiface.Nat.Testing.{
  symmetric_nat, Test, test_one, test_two, test_three, test_four, Mapped, Event, came, QList,
  no_replies, same_mapping, non_symmetric_check, is_nil, no_stun_resp_check, append_reply,
  test_coro, nat_test_exec, is_first_phase, run_phase, finish_test, second_phase, fast_nat_test,
}
use aionetiface.Nat.Testing.Kinds.{
  Each, Answers, later, Answered, is_plain, is_one, Kind, unfiltered, cone, restricted,
  port_restricted, symmetric, silent, code_of, Behaves,
}

finish-some : (r : Option ℕ × QList) (kind : ℕ) → r.0 ≡ some kind → finish_test r ≡ kind
finish-some (none, q) kind h = absurd (ground arith)
finish-some (some k, q) kind h = ground arith

second_phase-some :
    (source : ℕ) (b : List Event) (r : Option ℕ × QList) (kind : ℕ)
    → r.0 ≡ some kind
    → second_phase source b r ≡ kind
second_phase-some source b (none, q) kind h = absurd (ground arith)
second_phase-some source b (some k, q) kind h = ground arith

run-unfiltered :
    (source : ℕ) (a : List Event) (q : QList)
    → Each (λ t m. (is_first_phase t ≡ true) × (m.rip ≡ source)) a
    → Answered a
    → (run_phase true source a q).0 ≡ some open_internet
unfolding run_phase nat_test_exec test_coro
run-unfiltered source [] q h (s, k) = elim k [ ]
run-unfiltered source (came test_one (some m) ∷ a) q h k = ground (arith, ==_refl source)
run-unfiltered source (came test_two (some m) ∷ a) q h k = ground (arith, ==_refl source)
run-unfiltered source (came test_three (some m) ∷ a) q h k = absurd (ground arith)
run-unfiltered source (came test_four (some m) ∷ a) q h k = absurd (ground arith)
run-unfiltered source (came t none ∷ a) q h (s, later _ _ k) = run-unfiltered source a q h (s, k)

run-cone :
    (source : ℕ) (a : List Event) (q : QList)
    → Each (λ t m. (is_first_phase t ≡ true) × (m.rip ≢ source)) a
    → Answers test_two a
    → (run_phase true source a q).0 ≡ some full_cone
unfolding run_phase nat_test_exec test_coro
run-cone source [] q h k = elim k [ ]
run-cone source (came test_one (some m) ∷ a) q h (later _ _ k) =
    rw (==-eq_false m.rip source h.0.1) (run-cone source a _ h.1 k)
run-cone source (came test_two (some m) ∷ a) q h k = rw (==-eq_false m.rip source h.0.1) refl
run-cone source (came test_three (some m) ∷ a) q h k = absurd (ground arith)
run-cone source (came test_four (some m) ∷ a) q h k = absurd (ground arith)
run-cone source (came t none ∷ a) q h (later _ _ k) = run-cone source a q h k

replies : List Event → List Mapped
replies [] = []
replies (came t none ∷ events) = replies events
replies (came t (some m) ∷ events) = m ∷ replies events

-- A first phase with plain replies alone ends with no result, and the replies in the first queue.
run_ones :
    (source : ℕ) (a : List Event) (q : QList)
    → Each (λ t m. (is_one t ≡ true) × (m.rip ≢ source)) a
    → run_phase true source a q ≡ (none, record q { q1 = q.q1 ++ replies a })
unfolding run_phase nat_test_exec test_coro replies
run_ones source [] q h = ap (λ t. (none, record q { q1 = t })) (sym (append-nil q.q1))
run_ones source (came test_one (some m) ∷ a) q h = rw (==-eq_false m.rip source h.0.1) (
    run_ones source a (record q { q1 = q.q1 ++ (m ∷ []) }) h.1
    ∙ ap (λ t. (none, record q { q1 = t })) (append_assoc q.q1 (m ∷ []) (replies a)))
run_ones source (came test_two (some m) ∷ a) q h = absurd (ground arith)
run_ones source (came test_three (some m) ∷ a) q h = absurd (ground arith)
run_ones source (came test_four (some m) ∷ a) q h = absurd (ground arith)
run_ones source (came t none ∷ a) q h = run_ones source a q h

-- A worker without a reply changes nothing.
run_quiet :
    (source : ℕ) (t : Test) (b : List Event) (q : QList)
    → run_phase false source (came t none ∷ b) q ≡ run_phase false source b q
unfolding run_phase nat_test_exec
run_quiet source test_one b q = refl
run_quiet source test_two b q = refl
run_quiet source test_three b q = refl
run_quiet source test_four b q = refl

run-restricted :
    (source : ℕ) (b : List Event) (q : QList)
    → Answers test_four b
    → (run_phase false source b q).0 ≡ some restrict_nat
unfolding run_phase nat_test_exec test_coro
run-restricted source [] q k = elim k [ ]
run-restricted source (came test_four (some m) ∷ b) q k = refl
run-restricted source (came test_one (some m) ∷ b) q (later _ _ k) = run-restricted source b _ k
run-restricted source (came test_two (some m) ∷ b) q (later _ _ k) = run-restricted source b _ k
run-restricted source (came test_three (some m) ∷ b) q (later _ _ k) = run-restricted source b _ k
run-restricted source (came t none ∷ b) q (later _ _ k) =
    ap (λ r. r.0) (run_quiet source t b q) ∙ run-restricted source b q k

-- What the first reply in a queue satisfies, if there is one.
HeadIs : (Mapped → Type 0) → List Mapped → Type 0
HeadIs P [] = Unit {0}
HeadIs P (m ∷ ms) = P m

head-append :
    (P : Mapped → Type 0) (ms : List Mapped) (m : Mapped)
    → HeadIs P ms
    → P m
    → HeadIs P (ms ++ (m ∷ []))
unfolding HeadIs
head-append P [] m h k = k
head-append P (x ∷ ms) m h k = h

is_nil-append : (ms : List Mapped) (m : Mapped) → is_nil (ms ++ (m ∷ [])) ≡ false
is_nil-append [] m = refl
is_nil-append (x ∷ ms) m = refl

same_mapping-heads :
    (mapped : Mapped) (q1 q3 : List Mapped)
    → is_nil q1 ≡ false
    → is_nil q3 ≡ false
    → HeadIs (λ m. m ≡ mapped) q1
    → HeadIs (λ m. m ≡ mapped) q3
    → same_mapping q1 q3 ≡ true
unfolding HeadIs
same_mapping-heads mapped [] q3 h k l n = absurd (ground arith)
same_mapping-heads mapped (a ∷ q1) [] h k l n = absurd (ground arith)
same_mapping-heads mapped (a ∷ q1) (b ∷ q3) h k l n =
    rw (l, n) (ground (arith, ==_refl mapped.rip, ==_refl mapped.rport))

skip_one :
    {V : Type 0} (m : Mapped) (b : List Event)
    → Answers test_three (came test_one (some m) ∷ b) ⊎ V
    → Answers test_three b ⊎ V
skip_one m b (inl (later _ _ k)) = inl k
skip_one m b (inr v) = inr v

skip_none :
    {V : Type 0} {t : Test} (s : Test) (b : List Event)
    → Answers t (came s none ∷ b) ⊎ V
    → Answers t b ⊎ V
skip_none s b (inl (later _ _ k)) = inl k
skip_none s b (inr v) = inr v

-- Plain replies that all have one mapping, with a reply to the first test at hand.
run-port_restricted :
    (source : ℕ) (mapped : Mapped) (b : List Event) (q : QList)
    → Each (λ t m. (is_plain t ≡ true) × (m ≡ mapped)) b
    → is_nil q.q1 ≡ false
    → HeadIs (λ m. m ≡ mapped) q.q1
    → HeadIs (λ m. m ≡ mapped) q.q3
    → Answers test_three b ⊎ (q.verdict ≡ restrict_port_nat)
    → finish_test (run_phase false source b q) ≡ restrict_port_nat
unfolding run_phase nat_test_exec test_coro no_stun_resp_check non_symmetric_check
run-port_restricted source mapped [] q h some1 h1 h3 (inl k) = elim k [ ]
run-port_restricted source mapped [] q h some1 h1 h3 (inr k) = rw some1 k
run-port_restricted source mapped (came test_one (some m) ∷ b) q h some1 h1 h3 k =
    run-port_restricted source mapped b (append_reply test_one m q) h.1 (is_nil-append q.q1 m)
      (head-append _ q.q1 m h1 h.0.1) h3 (skip_one m b k)
run-port_restricted source mapped (came test_two (some m) ∷ b) q h some1 h1 h3 k =
    absurd (ground arith)
run-port_restricted source mapped (came test_three (some m) ∷ b) q h some1 h1 h3 k =
    let agree : same_mapping q.q1 (q.q3 ++ (m ∷ [])) ≡ true =
      same_mapping-heads mapped q.q1 (q.q3 ++ (m ∷ [])) some1 (is_nil-append q.q3 m) h1
        (head-append _ q.q3 m h3 h.0.1) in
    rw agree (
      run-port_restricted source mapped b
        (record (append_reply test_three m q) { verdict = restrict_port_nat }) h.1 some1 h1
        (head-append _ q.q3 m h3 h.0.1) (inr refl))
run-port_restricted source mapped (came test_four (some m) ∷ b) q h some1 h1 h3 k =
    absurd (ground arith)
run-port_restricted source mapped (came t none ∷ b) q h some1 h1 h3 k =
    ap finish_test (run_quiet source t b q)
    ∙ run-port_restricted source mapped b q h some1 h1 h3 (skip_none t b k)

skip-Answered :
    {V : Type 0} (s : Test) (b : List Event) → Answered (came s none ∷ b) ⊎ V → Answered b ⊎ V
skip-Answered s b (inl (t, later _ _ k)) = inl (t, k)
skip-Answered s b (inr v) = inr v

mapped_eq : (a b : Mapped) → a.rip ≡ b.rip → a.rport ≡ b.rport → a ≡ b
mapped_eq a b h k =
    ap (λ x. record { rip = x; rport = a.rport }) h ∙ ap (λ y. record { rip = b.rip; rport = y }) k

same_mapping-apart :
    (is_first : Mapped → Bool) (q1 q3 : List Mapped)
    → HeadIs (λ m. is_first m ≡ true) q1
    → HeadIs (λ m. is_first m ≡ false) q3
    → same_mapping q1 q3 ≡ false
unfolding HeadIs
same_mapping-apart is_first [] q3 h k = refl
same_mapping-apart is_first (a ∷ q1) [] h k = refl
same_mapping-apart is_first (a ∷ q1) (b ∷ q3) h k =
    elim (Bool-cases (same_mapping (a ∷ q1) (b ∷ q3))) [
      | inl same ↦
          absurd (ground (arith, ap is_first (mapped_eq a b (ground arith) (ground arith))))
      | inr apart ↦ apart
    ]

-- Plain replies of which the mappings for the two tests differ.
run-symmetric :
    (source : ℕ) (is_first : Mapped → Bool) (b : List Event) (q : QList)
    → Each (λ t m. (is_plain t ≡ true) × (is_first m ≡ is_one t)) b
    → HeadIs (λ m. is_first m ≡ true) q.q1
    → HeadIs (λ m. is_first m ≡ false) q.q3
    → q.verdict ≡ symmetric_nat
    → Answered b ⊎ ((is_nil q.q1 && is_nil q.q3) ≡ false)
    → finish_test (run_phase false source b q) ≡ symmetric_nat
unfolding run_phase nat_test_exec test_coro no_stun_resp_check non_symmetric_check
run-symmetric source is_first [] q h h1 h3 v (inl (t, k)) = elim k [ ]
run-symmetric source is_first [] q h h1 h3 v (inr k) = ground arith
run-symmetric source is_first (came test_one (some m) ∷ b) q h h1 h3 v k =
    run-symmetric source is_first b (append_reply test_one m q) h.1 (head-append _ q.q1 m h1 h.0.1)
      h3 v (inr (rw (is_nil-append q.q1 m) refl))
run-symmetric source is_first (came test_two (some m) ∷ b) q h h1 h3 v k = absurd (ground arith)
run-symmetric source is_first (came test_three (some m) ∷ b) q h h1 h3 v k =
    rw (same_mapping-apart is_first q.q1 (q.q3 ++ (m ∷ [])) h1 (head-append _ q.q3 m h3 h.0.1)) (
      run-symmetric source is_first b (append_reply test_three m q) h.1 h1
        (head-append _ q.q3 m h3 h.0.1) v (inr (ground (arith, is_nil-append q.q3 m))))
run-symmetric source is_first (came test_four (some m) ∷ b) q h h1 h3 v k = absurd (ground arith)
run-symmetric source is_first (came t none ∷ b) q h h1 h3 v k =
    ap finish_test (run_quiet source t b q)
    ∙ run-symmetric source is_first b q h h1 h3 v (skip-Answered t b k)

run-silent :
    (first : Bool) (source : ℕ) (events : List Event) (q : QList)
    → Each (λ t m. ⊥) events
    → run_phase first source events q ≡ (none, q)
unfolding run_phase nat_test_exec
run-silent first source [] q h = refl
run-silent first source (came t (some m) ∷ events) q h = elim h.0 [ ]
run-silent true source (came t none ∷ events) q h = run-silent true source events q h
run-silent false source (came t none ∷ events) q h =
    run_quiet source t events q ∙ run-silent false source events q h

-- From the replies of a first phase with the first test alone, as `run_ones` leaves them.
replies-HeadIs :
    (P : Test → Mapped → Type 0) (Q : Mapped → Type 0) (a : List Event)
    → ((t : Test) (m : Mapped) → P t m → Q m)
    → Each P a
    → HeadIs Q (replies a)
unfolding replies HeadIs
replies-HeadIs P Q [] f h = tt
replies-HeadIs P Q (came t none ∷ a) f h = replies-HeadIs P Q a f h
replies-HeadIs P Q (came t (some m) ∷ a) f h = f t m h.0

replies-answered : (t : Test) (a : List Event) → Answers t a → is_nil (replies a) ≡ false
unfolding replies
replies-answered t [] k = elim k [ ]
replies-answered t (came s none ∷ a) (later _ _ k) = replies-answered t a k
replies-answered t (came s (some m) ∷ a) k = refl

weaken :
    (P Q : Test → Mapped → Type 0) (a : List Event)
    → ((t : Test) (m : Mapped) → P t m → Q t m)
    → Each P a
    → Each Q a
weaken P Q [] f h = tt
weaken P Q (came t none ∷ a) f h = weaken P Q a f h
weaken P Q (came t (some m) ∷ a) f h = (f t m h.0, weaken P Q a f h.1)

-- The queues behind a first phase with the first test alone.
abbrev after : List Event → QList
after a = record no_replies { q1 = replies a }

reply_at_hand :
    (a b : List Event)
    → Answered a ⊎ Answered b
    → Answered b ⊎ ((is_nil (replies a) && true) ≡ false)
reply_at_hand a b (inl (t, k)) = inr (rw (replies-answered t a k) refl)
reply_at_hand a b (inr k) = inl k

-- A NAT without replies is found blocked, and each other kind is found for what it is, in any
-- order of the replies within what follows and wherever the time ends the phases. The kinds answer
-- as RFC 3489 has it: without translation from the source address itself, through a cone to a
-- changed server in the first phase, through a restricted one to a changed port in the second,
-- through a port-restricted one with one mapping for both servers, and through a symmetric one
-- with mappings that differ. For a port-restricted one the replies to the first test must come
-- before the second phase and a reply to the third in it; in another order it may be found
-- symmetric.
pub fast_nat_test-code_of :
    (kind : Kind) (source : ℕ) (a b : List Event)
    → Behaves kind source a b
    → fast_nat_test source a b ≡ code_of kind
unfolding fast_nat_test HeadIs no_stun_resp_check
fast_nat_test-code_of unfiltered source a b (h, k) =
    second_phase-some source b (run_phase true source a no_replies) open_internet
      (run-unfiltered source a no_replies h k)
fast_nat_test-code_of cone source a b (h, k) =
    second_phase-some source b (run_phase true source a no_replies) full_cone
      (run-cone source a no_replies h k)
fast_nat_test-code_of restricted source a b (h, k) = rw (run_ones source a no_replies h) (
    finish-some (run_phase false source b (after a)) restrict_nat
      (run-restricted source b (after a) k))
fast_nat_test-code_of port_restricted source a b (mapped, h, one, k, three) =
    rw (run_ones source a no_replies (weaken _ _ a (λ t m p. (p.0, p.1)) h)) (
      run-port_restricted source mapped b (after a) k (replies-answered test_one a one)
        (replies-HeadIs _ _ a (λ t m p. p.2) h) tt (inl three))
fast_nat_test-code_of symmetric source a b (is_first, h, k, some_reply) =
    rw (run_ones source a no_replies (weaken _ _ a (λ t m p. (p.0, p.1)) h)) (
      run-symmetric source is_first b (after a) k (replies-HeadIs _ _ a (λ t m p. p.2) h) tt refl
        (reply_at_hand a b some_reply))
fast_nat_test-code_of silent source a b (h, k) =
    rw (run-silent true source a no_replies h, run-silent false source b no_replies k) refl
