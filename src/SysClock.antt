-- ===== src/SysClock.antt =====
-- `marzullo_intersection` of aionetiface/utility/sys_clock.py. A time is a whole number of some unit
-- in which no difference of two times is rounded.
pub mod Counting
pub mod Sweeping
pub mod Truth
mod Runs
use aionetiface.Prelude.{
  ℕ, suc, ◌+◌, ◌-◌, ◌*◌, min, max, Bool, true, false, ◌&&◌, Option, none, some,
}
use aionetiface.Prelude.{List, [], ◌∷◌, ltb, leb, ◌==◌, if◌then◌else◌}

abbrev pub Interval : Type 0
Interval = ℕ × ℕ

-- `(lo, +1)` and `(hi, -1)`.
pub data Edge : Type 0 where
  opening closing : ℕ → Edge

abbrev pub edges : List Interval → List Edge
edges [] = []
edges ((lo, hi) ∷ intervals) = opening lo ∷ closing hi ∷ edges intervals

-- A number that is ordered as the sort key, the pair of the time and of the negated change.
abbrev pub key : Edge → ℕ
key (opening t) = 2 * t
key (closing t) = 2 * t + 1

-- `events.sort`, by insertion.
abbrev pub insert_edge : Edge → List Edge → List Edge
insert_edge e [] = e ∷ []
insert_edge e (f ∷ events) =
    let later = insert_edge e events in if leb (key e) (key f) then e ∷ f ∷ events else f ∷ later

abbrev pub sort_edges : List Edge → List Edge
sort_edges [] = []
sort_edges (e ∷ events) = insert_edge e (sort_edges events)

-- The variables of the loop. `count` is the number of the edges that opened less that of those that
-- closed; `best_lo` and `best_hi` are set together.
pub record Sweep : Type 0 where
  pub opened : ℕ
  pub closed : ℕ
  pub max_count : ℕ
  pub best : Option Interval
  pub cur_lo : Option ℕ

abbrev pub start : Sweep
start = record { opened = 0; closed = 0; max_count = 0; best = none; cur_lo = none }

abbrev pub is_none {ℓ} : {A : Type ℓ} → Option A → Bool
is_none none = true
is_none (some a) = false

-- An opening edge: a new peak, or the peak again.
unfoldable pub on_open : ℕ → Sweep → Sweep
on_open t s =
    if ltb (s.max_count + s.closed) (s.opened + 1)
    then record {
      opened = s.opened + 1;
      closed = s.closed;
      max_count = s.opened + 1 - s.closed;
      best = none;
      cur_lo = some t;
    }
    else (if (s.opened + 1 == s.max_count + s.closed) && is_none s.cur_lo
        then record s { opened = s.opened + 1; cur_lo = some t }
        else record s { opened = s.opened + 1 })

-- The narrowest candidate, of equal ones the first.
abbrev pub narrowest : Option Interval → Interval → Interval
narrowest none new = new
narrowest (some old) new = if ltb (new.1 - new.0) (old.1 - old.0) then new else old

abbrev pub close_from : Option ℕ → ℕ → Sweep → Sweep
close_from none t s = record s { closed = s.closed + 1 }
close_from (some lo) t s =
    if s.opened + 1 == s.max_count + (s.closed + 1)
    then record s { closed = s.closed + 1; best = some (narrowest s.best (lo, t)); cur_lo = none }
    else record s { closed = s.closed + 1 }

unfoldable pub on_edge : Edge → Sweep → Sweep
on_edge (opening t) s = on_open t s
on_edge (closing t) s = close_from s.cur_lo t s

abbrev pub sweep : List Edge → Sweep → Sweep
sweep [] s = s
sweep (e ∷ events) s = sweep events (on_edge e s)

-- The smallest start and the largest end of the intervals, of which there is one at least.
abbrev pub union_of : Interval → List Interval → Interval
union_of whole [] = whole
union_of (lo, hi) ((lo', hi') ∷ intervals) = union_of (min lo lo', max hi hi') intervals

abbrev pub best_or : Option Interval → Interval → Interval
best_or none whole = whole
best_or (some best) whole = best

unfoldable pub marzullo_intersection : List Interval → Option Interval
marzullo_intersection [] = none
marzullo_intersection (i ∷ intervals) =
    let s = sweep (sort_edges (edges (i ∷ intervals))) start in
    some (best_or s.best (union_of i intervals))
