-- ===== src/Nat/Laws.antt =====
-- What the two peers may rely on.
use aionetiface.Prelude.{ℕ, ◌+◌, ◌-◌, ◌≤◌, ◌<◌, ◌≡◌, refl, ◌∙◌, arith, not, ◌&&◌, ◌||◌}
use aionetiface.Prelude.{min, max, leb-eq_true, leb-eq_false, ◌⊎◌, inl, inr, if◌then◌else◌}
use aionetiface.Bytes.{Result, ok, err, value_error}
use aionetiface.Utility.Ranges.{Range, in_range, intersect_range, intersect_range_ends}
use aionetiface.IpRange.Values.{range_intersects_iff}
use aionetiface.Nat.{
  Nat, use_range, common, check_shifted, is_strict, has_rand_delta, stun_port, nats_can_predict,
  nats_intersect,
}

-- Whether the prediction can be made, by who is strict: two strict sides need deltas that are not
-- random; a strict side whose delta is random needs a partner that is not hard and that can have
-- the port of STUN; all else is fine.
abbrev pub partner_verdict : Nat → Nat → Result ℕ
partner_verdict strict partner =
    if has_rand_delta strict
    then (if not partner.is_hard && in_range stun_port partner.range then ok 1 else err value_error)
    else ok 0

abbrev pub verdict : Nat → Nat → Result ℕ
verdict a b =
    if is_strict a
    then (if is_strict b
        then (if has_rand_delta a || has_rand_delta b then err value_error else ok 0)
        else partner_verdict a b)
    else (if is_strict b then partner_verdict b a else ok 0)

-- The verdict on two NATs is that of the table, and the two peers come to the same.
pub nats_can_predict-verdict :
    (a b : Nat)
    → (nats_can_predict a b ≡ verdict a b) × (nats_can_predict a b ≡ nats_can_predict b a)
unfolding nats_can_predict
nats_can_predict-verdict a b = (ground arith, ground arith)

-- The common part, with its ends as numbers.
use_range-common :
    (a b : Nat) (n lo hi : ℕ)
    → a.range.0 ≤ a.range.1
    → b.range.0 ≤ b.range.1
    → lo ≡ max a.range.0 b.range.0
    → hi ≡ min a.range.1 b.range.1
    → lo + n ≤ hi
    → use_range a b n ≡ common (lo, hi)
use_range-common a b n lo hi h k low top wide =
    let part : intersect_range a.range b.range ≡ (lo, hi) =
      intersect_range_ends a.range.0 a.range.1 b.range.0 b.range.1 h k (omega arith) (omega arith)
      ∙ rw (low, top) in
    rw (
      (range_intersects_iff a.range b.range h k).1
          (lo, omega arith, omega arith, omega arith, omega arith),
      part,
      leb-eq_true n (hi - lo) (omega arith),
    )

intersected :
    (a b : Nat) (n lo hi : ℕ) (r : Range)
    → use_range a b n ≡ common (lo, hi)
    → check_shifted (lo, hi) ≡ ok r
    → nats_intersect a b n ≡ (ok r, a)
unfolding nats_intersect
intersected a b n lo hi r h k = rw (h, k)

low_or_high : (n : ℕ) → (n ≤ 1024) ⊎ (1024 < n)
low_or_high n = omega arith

-- Low ports moved up.
check_shifted-Range :
    (lo hi : ℕ)
    → lo ≤ hi
    → 2000 < hi
    → (r : Range) × (check_shifted (lo, hi) ≡ ok r)
      × (1024 < r.0)
      × (r.0 ≤ r.1)
      × (lo ≤ r.0)
      × (r.1 ≤ hi)
check_shifted-Range lo hi h k = elim (low_or_high lo) [
  | inl low ↦ (
    (2000, hi),
    rw (leb-eq_true lo 1024 low, leb-eq_false hi 2000 k),
    omega arith,
    omega arith,
    omega arith,
    omega arith,
  )
  | inr high ↦
      ((lo, hi), rw (leb-eq_false lo 1024 high), omega arith, omega arith, omega arith, omega arith)
]

-- Two ranges whose common part is as long as the tests need and ends above 2000: a range in both is
-- agreed, with no low port and whichever side asks, and the descriptions stay as they are. Each
-- range ends no earlier than it starts.
pub nats_intersect-common :
    (our_nat their_nat : Nat) (test_no : ℕ)
    → our_nat.range.0 ≤ our_nat.range.1
    → their_nat.range.0 ≤ their_nat.range.1
    → max our_nat.range.0 their_nat.range.0 + test_no ≤ min our_nat.range.1 their_nat.range.1
    → 2000 < min our_nat.range.1 their_nat.range.1
    → (r : Range) × (nats_intersect our_nat their_nat test_no ≡ (ok r, our_nat))
      × (nats_intersect their_nat our_nat test_no ≡ (ok r, their_nat))
      × (1024 < r.0)
      × (r.0 ≤ r.1)
      × (our_nat.range.0 ≤ r.0)
      × (r.1 ≤ our_nat.range.1)
      × (their_nat.range.0 ≤ r.0)
      × (r.1 ≤ their_nat.range.1)
unfolding nats_intersect
nats_intersect-common our_nat their_nat test_no h k wide high =
    let (lo, hi) : ℕ × ℕ =
      (max our_nat.range.0 their_nat.range.0, min our_nat.range.1 their_nat.range.1) in
    let (r, checked, above, ordered, low, top) = check_shifted-Range lo hi (omega arith) high in
    let here = use_range-common our_nat their_nat test_no lo hi h k refl refl wide in
    let there =
      use_range-common their_nat our_nat test_no lo hi k h (omega arith) (omega arith) wide in
    (
      r,
      intersected our_nat their_nat test_no lo hi r here checked,
      intersected their_nat our_nat test_no lo hi r there checked,
      above,
      ordered,
      omega (arith, low),
      omega (arith, top),
      omega (arith, low),
      omega (arith, top),
    )
