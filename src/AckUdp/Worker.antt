-- ===== src/AckUdp/Worker.antt =====
-- The worker of `ack_send` in aionetiface/protocol/ack_udp.py, as the number of its sends. What
-- each wait comes to is an argument: the answers of the event, of the table and of the clock.
use aionetiface.Prelude.{ℕ, zero, suc, ◌+◌, ◌≤◌, ◌<◌, max, ◌≡◌, refl, ap, ◌∙◌, arith, Bool, ◌&&◌}
use aionetiface.Prelude.{
  Option, none, some, ltb, leb, leb-eq_true, leb-eq_false, if◌then◌else◌, if_cases,
}
use aionetiface.Prelude.{◌⊎◌, inl, inr}

-- A wait for the event that follows a send: the number is not in the table, the event is set, or
-- the three seconds pass, with the time since the start.
pub data Wait : Type 0 where
  gone acked : Wait
  timed_out : ℕ → Wait

-- `if sock_timeout: ... if elapsed >= sock_timeout: break`
abbrev is_over : ℕ → ℕ → Bool
is_over sock_timeout elapsed = ltb 0 sock_timeout && leb sock_timeout elapsed

abbrev after_wait : ℕ → ℕ → Option ℕ → Wait → Option ℕ
after_wait sock_timeout sent again gone = some sent
after_wait sock_timeout sent again acked = some sent
after_wait sock_timeout sent again (timed_out elapsed) =
    if is_over sock_timeout elapsed then some sent else again

-- The loop on `rounds` rounds, after `sent` sends; `none` when the rounds are spent.
pub worker : ℕ → ℕ → ℕ → (ℕ → Wait) → ℕ → Option ℕ
worker zero tries sock_timeout waits sent = none
worker (suc rounds) tries sock_timeout waits sent =
    if leb tries (sent + 1)
    then some (sent + 1)
    else after_wait sock_timeout (sent + 1) (worker rounds tries sock_timeout waits (sent + 1))
        (waits (sent + 1))

-- A number of sends that is more than `low`, and at most the tries when these are more.
abbrev Within : ℕ → ℕ → Option ℕ → Type 0
Within low tries o = (n : ℕ) × (o ≡ some n) × (low < n) × (n ≤ max tries (low + 1))

after_wait-Within :
    (sock_timeout sent tries : ℕ) (again : Option ℕ) (wait : Wait)
    → sent + 1 < tries
    → Within (sent + 1) tries again
    → Within sent tries (after_wait sock_timeout (sent + 1) again wait)
after_wait-Within sock_timeout sent tries again gone h w =
    (sent + 1, refl, omega arith, omega arith)
after_wait-Within sock_timeout sent tries again acked h w =
    (sent + 1, refl, omega arith, omega arith)
after_wait-Within sock_timeout sent tries again (timed_out elapsed) h (n, e, more, most) =
    if_cases (Within sent tries) (is_over sock_timeout elapsed)
      (λ over. (sent + 1, refl, omega arith, omega arith))
      (λ left. (n, e, omega arith, omega arith))

last_or_not : (tries sent : ℕ) → (tries ≤ sent + 1) ⊎ (sent + 1 < tries)
last_or_not tries sent = omega arith

worker-Within :
    (rounds tries sock_timeout : ℕ) (waits : ℕ → Wait) (sent : ℕ)
    → 1 ≤ rounds
    → tries ≤ sent + rounds
    → Within sent tries (worker rounds tries sock_timeout waits sent)
unfolding worker
worker-Within zero tries sock_timeout waits sent some_round enough = absurd (omega arith)
worker-Within (suc rounds) tries sock_timeout waits sent some_round enough =
    elim (last_or_not tries sent) [
      | inl last ↦ rw (leb-eq_true tries (sent + 1) last) (sent + 1, refl, omega arith, omega arith)
      | inr more ↦ rw (leb-eq_false tries (sent + 1) more) (
          after_wait-Within sock_timeout sent tries
            (worker rounds tries sock_timeout waits (sent + 1)) (waits (sent + 1)) more
            (worker-Within rounds tries sock_timeout waits (sent + 1) (omega arith) (omega arith)))
    ]

-- With no limit of time and no answer every try is used.
worker_unanswered :
    (rounds tries : ℕ) (elapsed : ℕ → ℕ) (sent : ℕ)
    → 1 ≤ rounds
    → tries ≤ sent + rounds
    → worker rounds tries 0 (λ i. timed_out (elapsed i)) sent ≡ some (max tries (sent + 1))
unfolding worker
worker_unanswered zero tries elapsed sent some_round enough = absurd (omega arith)
worker_unanswered (suc rounds) tries elapsed sent some_round enough =
    elim (last_or_not tries sent) [
      | inl last ↦
          let one : sent + 1 ≡ max tries (sent + 1) = omega arith in
          rw (leb-eq_true tries (sent + 1) last) (ap some one)
      | inr more ↦
          let same : max tries (sent + 1 + 1) ≡ max tries (sent + 1) = omega arith in
          rw (leb-eq_false tries (sent + 1) more) (
            worker_unanswered rounds tries elapsed (sent + 1) (omega arith) (omega arith)
            ∙ ap some same)
    ]

-- The worker ends within as many rounds as there are tries, or one when there are none: whatever
-- its waits come to, it sends at least once and at most so often. It uses every try when no
-- answer comes and there is no limit of time, and sends once when the answer comes at once.
pub worker_ends :
    (rounds tries sock_timeout : ℕ) (waits : ℕ → Wait) (elapsed : ℕ → ℕ)
    → max tries 1 ≤ rounds
    → ((n : ℕ) × (worker rounds tries sock_timeout waits 0 ≡ some n) × (1 ≤ n) × (n ≤ max tries 1))
      × (worker rounds tries 0 (λ i. timed_out (elapsed i)) 0 ≡ some (max tries 1))
      × (worker rounds tries sock_timeout (λ i. acked) 0 ≡ some 1)
unfolding worker
worker_ends zero tries sock_timeout waits elapsed enough = absurd (omega arith)
worker_ends (suc rounds) tries sock_timeout waits elapsed enough =
    let (n, done, more, most) =
      worker-Within (suc rounds) tries sock_timeout waits 0 (omega arith) (omega arith) in
    (
      (n, done, omega arith, omega arith),
      worker_unanswered (suc rounds) tries elapsed 0 (omega arith) (omega arith),
      if_cases (λ o. o ≡ some 1) (leb tries 1) (λ last. refl) (λ again. refl),
    )
