-- ===== src/SysClock/Truth.antt =====
-- What `marzullo_intersection` finds; sys_clock.py.
use mathlib.Core.Path.{subst}
use aionetiface.Prelude.{ℕ, suc, ◌+◌, ◌≤◌, ◌≡◌, refl, ap, arith}
use aionetiface.Prelude.{List, [], ◌∷◌, Option, none, some, Option-cases, inl, inr}
use aionetiface.SysClock.{
  Interval, Edge, edges, sort_edges, Sweep, start, sweep, union_of, best_or, marzullo_intersection,
}
use aionetiface.SysClock.Counting.{
  opens, closes, depth, AllOrdered, sort-Sorted, opens-sorted_edges,
}
use aionetiface.SysClock.Sweeping.{Best, Holds, sweep-Holds, start-Holds, ended}

-- A time behind all intervals.
past : List Interval → ℕ
past [] = 0
past ((lo, hi) ∷ intervals) = suc hi + past intervals

depth-past : (x : ℕ) (intervals : List Interval) → past intervals ≤ x → depth x intervals ≡ 0
unfolding depth past
depth-past x [] h = refl
depth-past x ((lo, hi) ∷ intervals) h = ground (arith, depth-past x intervals (omega arith))

depth_start :
    (lo hi : ℕ) (intervals : List Interval) → lo ≤ hi → 1 ≤ depth lo ((lo, hi) ∷ intervals)
unfolding depth
depth_start lo hi intervals h = ground arith

-- The number of intervals is the peak on the whole of the best one, and nowhere more.
abbrev IsDeepest : List Interval → ℕ → Option Interval → Type 0
IsDeepest intervals m none = ⊥
IsDeepest intervals m (some (lo, hi)) =
    (lo ≤ hi) × ((x : ℕ) → lo ≤ x → x ≤ hi → depth x intervals ≡ m)

abbrev swept : List Interval → Sweep
swept intervals = sweep (sort_edges (edges intervals)) start

module _ (i : Interval) (intervals : List Interval) (ordered : AllOrdered (i ∷ intervals)) where
  abbrev all : List Interval
  all = i ∷ intervals

  abbrev sorted : List Edge
  sorted = sort_edges (edges all)

  held :
      (po : ℕ → ℕ) × (pc : ℕ → ℕ) × Holds
        (λ x. opens x sorted)
        (λ x. closes x sorted)
        []
        (swept all)
        po
        pc
  held =
      sweep-Holds (λ x. opens x sorted) (λ x. closes x sorted) sorted start (λ x. 0) (λ x. 0)
        (sort-Sorted (edges all)) (start-Holds sorted)

  depth_most : (x : ℕ) → depth x all ≤ (swept all).max_count
  depth_most x =
      let (po, pc, k) = held in
      let (most, rest) = ended _ _ (swept all) po pc k in
      omega (arith, most x, opens-sorted_edges x all ordered)

  peak_pos : 1 ≤ (swept all).max_count
  peak_pos = omega (arith, depth_most i.0, depth_start i.0 i.1 intervals ordered.0)

  no_current_left : (lo : ℕ) → (swept all).cur_lo ≡ some lo → ⊥
  no_current_left lo e =
      let (po, pc, k) = held in
      let (most, rest) = ended _ _ (swept all) po pc k in
      let x : ℕ = lo + past all in
      omega (
        arith,
        rest lo e x (omega arith),
        opens-sorted_edges x all ordered,
        depth-past x all (omega arith),
        peak_pos,
      )

  deepest : (b : Option Interval) → (swept all).best ≡ b → IsDeepest all (swept all).max_count b
  deepest none e =
      let (po, pc, k) = held in
      elim (Option-cases (swept all).cur_lo) [
        | inl no_start ↦ omega (arith, peak_pos, k.some_best (rw (no_start, e) refl))
        | inr (lo, start_at) ↦ no_current_left lo start_at
      ]
  deepest (some best) e =
      let (po, pc, k) = held in
      let found : Best (some best) (λ x. opens x sorted) (λ x. closes x sorted)
          (swept all).max_count =
        subst (λ b. Best b (λ x. opens x sorted) (λ x. closes x sorted) (swept all).max_count) e
          k.best_is in
      (found.0, λ x from to. omega (arith, found.1 x from to, opens-sorted_edges x all ordered))

  from_best :
      (b : Option Interval)
      → (swept all).best ≡ b
      → IsDeepest all (swept all).max_count b
      → (best : Interval) × (marzullo_intersection all ≡ some best)
        × (best.0 ≤ best.1)
        × ((x y : ℕ) → best.0 ≤ x → x ≤ best.1 → depth y all ≤ depth x all)
  unfolding marzullo_intersection
  from_best none e h = elim h [ ]
  from_best (some best) e h = (
    best,
    ap (λ b. some (best_or b (union_of i intervals))) e,
    h.0,
    λ x y from to. omega (arith, h.1 x from to, depth_most y),
  )

  -- For intervals that start no later than they end, of which there is one at least, the sweep finds
  -- an interval that starts no later than it ends, and no time lies in more of the given intervals
  -- than each time of it does.
  pub marzullo_intersection-depth :
      (best : Interval) × (marzullo_intersection all ≡ some best)
      × (best.0 ≤ best.1)
      × ((x y : ℕ) → best.0 ≤ x → x ≤ best.1 → depth y all ≤ depth x all)
  marzullo_intersection-depth = from_best (swept all).best refl (deepest (swept all).best refl)
