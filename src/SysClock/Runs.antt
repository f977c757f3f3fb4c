-- ===== src/SysClock/Runs.antt =====
-- Readings of a clock at fixed values.
use aionetiface.Prelude.{ℕ, ◌≡◌, ◌≤◌, refl, arith, none, some, List, [], ◌∷◌}
use aionetiface.SysClock.{Interval, on_open, on_edge, marzullo_intersection}
use aionetiface.SysClock.Counting.{depth}
use aionetiface.SysClock.Truth.{marzullo_intersection-depth}

-- Two readings agree on [14, 16], with a third on [15, 16], and a fourth is far away.
abbrev readings : List Interval
readings = (14, 20) ∷ (15, 16) ∷ (30, 31) ∷ []

three_readings : marzullo_intersection ((10, 16) ∷ readings) ≡ some (15, 16)
unfolding marzullo_intersection on_edge on_open
three_readings = refl

no_readings : marzullo_intersection [] ≡ none
unfolding marzullo_intersection
no_readings = refl

-- Of two that are equally deep the narrower is taken.
narrower : marzullo_intersection ((0, 9) ∷ (20, 22) ∷ []) ≡ some (20, 22)
unfolding marzullo_intersection on_edge on_open
narrower = refl

marzullo_intersection-depth_example :
    (best : Interval) × (marzullo_intersection ((10, 16) ∷ readings) ≡ some best)
    × (best.0 ≤ best.1)
    × ((x y : ℕ)
        → best.0 ≤ x
        → x ≤ best.1
        → depth y ((10, 16) ∷ readings) ≤ depth x ((10, 16) ∷ readings))
marzullo_intersection-depth_example =
    marzullo_intersection-depth (10, 16) readings
      (omega arith, (omega arith, (omega arith, (omega arith, tt))))
