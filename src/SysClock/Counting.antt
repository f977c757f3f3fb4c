-- ===== src/SysClock/Counting.antt =====
-- How many intervals hold a time, counted on their edges; sys_clock.py.
use aionetiface.Prelude.{ℕ, ◌+◌, ◌*◌, ◌≤◌, ◌<◌, ◌≡◌, refl, arith, Bool, true, false, ◌&&◌}
use aionetiface.Prelude.{List, [], ◌∷◌, leb, leb-eq_false, Bool-cases, inl, inr}
use aionetiface.SysClock.{Interval, Edge, opening, closing, edges, key, insert_edge, sort_edges}

abbrev pub tick : Bool → ℕ
tick true = 1
tick false = 0

-- Opening edges at a time or before it, and closing edges before it.
abbrev pub opens : ℕ → List Edge → ℕ
opens x [] = 0
opens x (opening t ∷ events) = tick (leb (2 * t) (2 * x)) + opens x events
opens x (closing t ∷ events) = opens x events

abbrev pub closes : ℕ → List Edge → ℕ
closes x [] = 0
closes x (opening t ∷ events) = closes x events
closes x (closing t ∷ events) = tick (leb (2 * t + 1) (2 * x)) + closes x events

-- The intervals that hold a time.
unfoldable pub depth : ℕ → List Interval → ℕ
depth x [] = 0
depth x ((lo, hi) ∷ intervals) = tick (leb lo x && leb x hi) + depth x intervals

abbrev pub AllOrdered : List Interval → Type 0
AllOrdered [] = Unit {0}
AllOrdered ((lo, hi) ∷ intervals) = (lo ≤ hi) × AllOrdered intervals

depth_edges :
    (x lo hi : ℕ)
    → lo ≤ hi
    → tick (leb (2 * lo) (2 * x)) ≡ tick (leb lo x && leb x hi) + tick (leb (2 * hi + 1) (2 * x))
depth_edges x lo hi h = ground arith

opens-depth :
    (x : ℕ) (intervals : List Interval)
    → AllOrdered intervals
    → opens x (edges intervals) ≡ depth x intervals + closes x (edges intervals)
unfolding depth
opens-depth x [] h = refl
opens-depth x ((lo, hi) ∷ intervals) h =
    omega (arith, depth_edges x lo hi h.0, opens-depth x intervals h.1)

opens-insert :
    (x : ℕ) (e : Edge) (events : List Edge) → opens x (insert_edge e events) ≡ opens x (e ∷ events)
opens-insert x e [] = refl
opens-insert x (opening t) (opening u ∷ events) = ground (arith, opens-insert x (opening t) events)
opens-insert x (opening t) (closing u ∷ events) = ground (arith, opens-insert x (opening t) events)
opens-insert x (closing t) (opening u ∷ events) = ground (arith, opens-insert x (closing t) events)
opens-insert x (closing t) (closing u ∷ events) = ground (arith, opens-insert x (closing t) events)

closes-insert :
    (x : ℕ) (e : Edge) (events : List Edge)
    → closes x (insert_edge e events) ≡ closes x (e ∷ events)
closes-insert x e [] = refl
closes-insert x (opening t) (opening u ∷ events) =
    ground (arith, closes-insert x (opening t) events)
closes-insert x (opening t) (closing u ∷ events) =
    ground (arith, closes-insert x (opening t) events)
closes-insert x (closing t) (opening u ∷ events) =
    ground (arith, closes-insert x (closing t) events)
closes-insert x (closing t) (closing u ∷ events) =
    ground (arith, closes-insert x (closing t) events)

opens-sort : (x : ℕ) (events : List Edge) → opens x (sort_edges events) ≡ opens x events
opens-sort x [] = refl
opens-sort x (opening t ∷ events) =
    omega (arith, opens-insert x (opening t) (sort_edges events), opens-sort x events)
opens-sort x (closing t ∷ events) =
    omega (arith, opens-insert x (closing t) (sort_edges events), opens-sort x events)

closes-sort : (x : ℕ) (events : List Edge) → closes x (sort_edges events) ≡ closes x events
closes-sort x [] = refl
closes-sort x (opening t ∷ events) =
    omega (arith, closes-insert x (opening t) (sort_edges events), closes-sort x events)
closes-sort x (closing t ∷ events) =
    omega (arith, closes-insert x (closing t) (sort_edges events), closes-sort x events)

-- Each later edge has no smaller key.
abbrev pub Below : Edge → List Edge → Type 0
Below e [] = Unit {0}
Below e (f ∷ events) = (key e ≤ key f) × Below e events

abbrev pub Sorted : List Edge → Type 0
Sorted [] = Unit {0}
Sorted (e ∷ events) = Below e events × Sorted events

Below-trans : (e f : Edge) (events : List Edge) → key e ≤ key f → Below f events → Below e events
Below-trans e f [] h k = tt
Below-trans e f (g ∷ events) h k = (omega arith, Below-trans e f events h k.1)

Below-insert :
    (e f : Edge) (events : List Edge)
    → key e ≤ key f
    → Below e events
    → Below e (insert_edge f events)
Below-insert e f [] h k = (h, tt)
Below-insert e f (g ∷ events) h k = elim (Bool-cases (leb (key f) (key g))) [
  | inl front ↦ rw front (h, k)
  | inr back ↦ rw back (k.0, Below-insert e f events h k.1)
]

insert-Sorted : (e : Edge) (events : List Edge) → Sorted events → Sorted (insert_edge e events)
insert-Sorted e [] h = (tt, tt)
insert-Sorted e (f ∷ events) h = elim (Bool-cases (leb (key e) (key f))) [
  | inl front ↦ rw front ((ground arith, Below-trans e f events (ground arith) h.0), h)
  | inr back ↦ rw back (Below-insert f e events (ground arith) h.0, insert-Sorted e events h.1)
]

pub sort-Sorted : (events : List Edge) → Sorted (sort_edges events)
sort-Sorted [] = tt
sort-Sorted (e ∷ events) = insert-Sorted e (sort_edges events) (sort-Sorted events)

-- The count behind the edges up to a time is the number of intervals that hold it.
pub opens-sorted_edges :
    (x : ℕ) (intervals : List Interval)
    → AllOrdered intervals
    → opens x (sort_edges (edges intervals))
      ≡ depth x intervals + closes x (sort_edges (edges intervals))
opens-sorted_edges x intervals h = omega (
  arith,
  opens-sort x (edges intervals),
  closes-sort x (edges intervals),
  opens-depth x intervals h,
)

-- Behind an edge that a time does not reach there are no more edges that it reaches.
pub opens-beyond :
    (x : ℕ) (e : Edge) (events : List Edge)
    → 2 * x < key e
    → Below e events
    → (opens x events ≡ 0) × (closes x events ≡ 0)
opens-beyond x e [] h k = (refl, refl)
opens-beyond x e (opening t ∷ events) h k =
    let later = opens-beyond x e events h k.1 in
    (rw (leb-eq_false (2 * t) (2 * x) (omega arith)) (omega (arith, later.0)), later.1)
opens-beyond x e (closing t ∷ events) h k =
    let later = opens-beyond x e events h k.1 in
    (later.0, rw (leb-eq_false (2 * t + 1) (2 * x) (omega arith)) (omega (arith, later.1)))
