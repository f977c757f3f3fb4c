-- ===== src/Utility/Ranges.antt =====
-- Ranges of numbers and distances on a circle, of aionetiface/utility/utils.py. A range is the
-- pair of its ends, both inside.
use aionetiface.Prelude.{
  ◌==◌, ==_iff, if_cases, zero, suc, refl, ◌-◌, ◌+◌, ℕ, ◌≤◌, min, max, ◌≡◌, arith, Bool,
}
use aionetiface.Prelude.{◌&&◌, List, [], ◌∷◌, leb, if◌then◌else◌}

abbrev pub Range : Type 0
Range = ℕ × ℕ

unfoldable pub in_range : ℕ → Range → Bool
in_range x (start, stop) = leb start x && leb x stop

-- `sorted`, by insertion.
abbrev pub insert : ℕ → List ℕ → List ℕ
insert x [] = x ∷ []
insert x (y ∷ ys) = if leb x y then x ∷ y ∷ ys else y ∷ insert x ys

abbrev pub sorted : List ℕ → List ℕ
sorted [] = []
sorted (x ∷ xs) = insert x (sorted xs)

-- `[all_endpoints[1], all_endpoints[2]]`
abbrev pub middle_two : List ℕ → Range
middle_two (a ∷ b ∷ c ∷ rest) = (b, c)
middle_two (a ∷ b ∷ []) = (b, b)
middle_two (a ∷ []) = (a, a)
middle_two [] = (0, 0)

unfoldable pub intersect_range : Range → Range → Range
intersect_range (a, b) (c, d) = middle_two (sorted (a ∷ b ∷ c ∷ d ∷ []))

-- A signed distance.
pub data ℤ : Type 0 where
  pos : ℕ → ℤ
  negsuc : ℕ → ℤ

abbrev pub negated : ℕ → ℤ
negated zero = pos 0
negated (suc n) = negsuc n

abbrev pub abs : ℤ → ℕ
abs (pos n) = n
abs (negsuc n) = suc n

-- For numbers up to `field`, as the ports are up to the highest; the differences of the source
-- are then no less than 0.
unfoldable pub field_dist : ℕ → ℕ → ℕ → ℤ
field_dist x y field =
    let dist = max x y - min x y in
    let ret = min dist (min x y + (field - max x y)) in
    if dist == 0 then pos 0 else if x == min x y then negated ret else pos ret

-- Of two ranges that meet the middle two of the four ends are those of the common part.
pub intersect_range_ends :
    (a b c d : ℕ)
    → a ≤ b
    → c ≤ d
    → a ≤ d
    → c ≤ b
    → intersect_range (a, b) (c, d) ≡ (max a c, min b d)
unfolding intersect_range
intersect_range_ends a b c d h k l m = ground arith

abs-negated : (n : ℕ) → abs (negated n) ≡ n
abs-negated zero = refl
abs-negated (suc n) = refl

abs-field_dist_eq :
    (x y field : ℕ)
    → x ≤ field
    → y ≤ field
    → abs (field_dist x y field) ≡ min (max x y - min x y) (field - (max x y - min x y))
unfolding field_dist
abs-field_dist_eq x y field h k =
    let dist = max x y - min x y in
    let ret = min dist (min x y + (field - max x y)) in
    let round : ℕ = min dist (field - dist) in
    if_cases (λ z. abs z ≡ round) (dist == 0) (λ same. grind (arith, (==_iff dist 0).0 same))
      (λ apart.
        if_cases (λ z. abs z ≡ round) (x == min x y) (λ lower. omega (arith, abs-negated ret))
          (λ upper. omega arith))

-- The absolute distance is the shorter of the two ways round a circle of `field` places, the same
-- from both ends.
pub abs-field_dist :
    (x y field : ℕ)
    → x ≤ field
    → y ≤ field
    → (abs (field_dist x y field) ≡ min (max x y - min x y) (field - (max x y - min x y)))
      × (abs (field_dist x y field) ≡ abs (field_dist y x field))
abs-field_dist x y field h k = (
  abs-field_dist_eq x y field h k,
  omega (arith, abs-field_dist_eq x y field h k, abs-field_dist_eq y x field k h),
)
