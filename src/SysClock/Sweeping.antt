-- ===== src/SysClock/Sweeping.antt =====
-- What holds at each edge of the sweep of `marzullo_intersection`; sys_clock.py.
use mathlib.Core.Path.{subst}
use aionetiface.Prelude.{ℕ, ◌+◌, ◌-◌, ◌*◌, ◌≤◌, ◌≡◌, refl, ap, sym, arith, true, false, ◌&&◌}
use aionetiface.Prelude.{
  List, [], ◌∷◌, Option, none, some, ltb, leb, ◌==◌, leb-eq_true, leb-eq_false, if_both, ==_iff,
  if◌then◌else◌, Bool-cases, inl, inr,
}
use aionetiface.SysClock.{
  Interval, Edge, opening, closing, key, Sweep, start, is_none, on_open, narrowest, close_from,
  on_edge, sweep,
}
use aionetiface.SysClock.Counting.{tick, opens, closes, Below, Sorted, opens-beyond}

-- A time that reaches the next edge has met every edge so far.
abbrev Met : List Edge → (ℕ → ℕ) → (ℕ → ℕ) → ℕ → ℕ → Type 0
Met [] po pc o c = Unit {0}
Met (e ∷ events) po pc o c = (x : ℕ) → key e ≤ 2 * x → (po x ≡ o) × (pc x ≡ c)

abbrev NotAfter : ℕ → List Edge → Type 0
NotAfter lo [] = Unit {0}
NotAfter lo (e ∷ events) = 2 * lo ≤ key e

-- The peak is held from the current start on.
abbrev Current : Option ℕ → List Edge → (ℕ → ℕ) → (ℕ → ℕ) → ℕ → ℕ → ℕ → Type 0
Current none events po pc o c m = Unit {0}
Current (some lo) events po pc o c m =
    (o ≡ m + c) × ((x : ℕ) → lo ≤ x → (po x ≡ o) × (pc x ≡ c)) × NotAfter lo events

-- On the whole of the best interval the count is the peak.
abbrev pub Best : Option Interval → (ℕ → ℕ) → (ℕ → ℕ) → ℕ → Type 0
Best none O C m = Unit {0}
Best (some (lo, hi)) O C m = (lo ≤ hi) × ((x : ℕ) → lo ≤ x → x ≤ hi → O x ≡ m + C x)

-- `O` and `C` count all edges up to a time, `po` and `pc` those that were met.
pub record Holds (O C : ℕ → ℕ) (events : List Edge) (s : Sweep) (po pc : ℕ → ℕ) : Type 0 where
  pub peak : s.opened ≤ s.max_count + s.closed
  pub all_opens : (x : ℕ) → O x ≡ po x + opens x events
  pub all_closes : (x : ℕ) → C x ≡ pc x + closes x events
  pub met : Met events po pc s.opened s.closed
  pub current : Current s.cur_lo events po pc s.opened s.closed s.max_count
  pub best_is : Best s.best O C s.max_count
  pub some_best : (is_none s.cur_lo && is_none s.best) ≡ true → s.max_count ≡ 0
  pub cap : (x : ℕ) → po x ≤ s.max_count + pc x

abbrev and_open : ℕ → (ℕ → ℕ) → ℕ → ℕ
and_open t po x = tick (leb (2 * t) (2 * x)) + po x

abbrev and_close : ℕ → (ℕ → ℕ) → ℕ → ℕ
and_close t pc x = tick (leb (2 * t + 1) (2 * x)) + pc x

Met-open :
    (t : ℕ) (events : List Edge) (po pc : ℕ → ℕ) (o c : ℕ)
    → Below (opening t) events
    → Met (opening t ∷ events) po pc o c
    → Met events (and_open t po) pc (o + 1) c
Met-open t [] po pc o c h k = tt
Met-open t (f ∷ events) po pc o c h k = λ x reach.
    let before = k x (omega (arith, h.0)) in
    (rw (leb-eq_true (2 * t) (2 * x) (omega (arith, h.0))) (omega (arith, before.0)), before.1)

Met-close :
    (t : ℕ) (events : List Edge) (po pc : ℕ → ℕ) (o c : ℕ)
    → Below (closing t) events
    → Met (closing t ∷ events) po pc o c
    → Met events po (and_close t pc) o (c + 1)
Met-close t [] po pc o c h k = tt
Met-close t (f ∷ events) po pc o c h k = λ x reach.
    let before = k x (omega (arith, h.0)) in
    (before.0, rw (leb-eq_true (2 * t + 1) (2 * x) (omega (arith, h.0))) (omega (arith, before.1)))

cap_open :
    (t : ℕ) (events : List Edge) (po pc : ℕ → ℕ) (o c m m' : ℕ)
    → Met (opening t ∷ events) po pc o c
    → ((x : ℕ) → po x ≤ m + pc x)
    → m ≤ m'
    → o + 1 ≤ m' + c
    → (x : ℕ) → and_open t po x ≤ m' + pc x
cap_open t events po pc o c m m' k h l n x = elim (Bool-cases (leb (2 * t) (2 * x))) [
  | inl reach ↦ let before = k x (ground arith) in rw reach (omega (arith, before.0, before.1))
  | inr beyond ↦ rw beyond (omega (arith, h x))
]

NotAfter-open : (t : ℕ) (events : List Edge) → Below (opening t) events → NotAfter t events
NotAfter-open t [] h = tt
NotAfter-open t (f ∷ events) h = h.0

Current-open :
    (t : ℕ) (events : List Edge) (po pc : ℕ → ℕ) (o c : ℕ)
    → Below (opening t) events
    → Met (opening t ∷ events) po pc o c
    → ((x : ℕ) → t ≤ x → (and_open t po x ≡ o + 1) × (pc x ≡ c)) × NotAfter t events
Current-open t events po pc o c h k = (
  λ x later.
      let before = k x (omega arith) in
      (rw (leb-eq_true (2 * t) (2 * x) (omega arith)) (omega (arith, before.0)), before.1),
  NotAfter-open t events h,
)

-- With a current start the next opening edge is a new peak.
no-Current :
    (cur : Option ℕ) (events rest : List Edge) (po pc po' pc' : ℕ → ℕ) (o c m : ℕ)
    → Current cur events po pc o c m
    → ltb (m + c) (o + 1) ≡ false
    → Current cur rest po' pc' (o + 1) c m
no-Current none events rest po pc po' pc' o c m h k = tt
no-Current (some lo) events rest po pc po' pc' o c m h k = absurd (ground (arith, h.0))

not_higher :
    (O C : ℕ → ℕ) (t : ℕ) (events : List Edge) (s : Sweep) (po pc : ℕ → ℕ)
    → Below (opening t) events
    → Holds O C (opening t ∷ events) s po pc
    → ltb (s.max_count + s.closed) (s.opened + 1) ≡ false
    → Holds O C events
        (if (s.opened + 1 == s.max_count + s.closed) && is_none s.cur_lo
          then record s { opened = s.opened + 1; cur_lo = some t }
          else record s { opened = s.opened + 1 })
        (and_open t po)
        pc
not_higher O C t events s po pc h k lower =
    let now = Current-open t events po pc s.opened s.closed h k.met in
    elim (Bool-cases ((s.opened + 1 == s.max_count + s.closed) && is_none s.cur_lo)) [
      | inl again ↦ rw again (record {
        peak = ground arith;
        all_opens = λ x. omega (arith, k.all_opens x);
        all_closes = k.all_closes;
        met = Met-open t events po pc s.opened s.closed h k.met;
        current = (ground arith, now.0, now.1);
        best_is = k.best_is;
        some_best = λ e. absurd (ground arith);
        cap =
            cap_open t events po pc s.opened s.closed s.max_count s.max_count k.met k.cap
              (ground arith) (ground arith);
      })
      | inr other ↦ rw other (record {
        peak = ground arith;
        all_opens = λ x. omega (arith, k.all_opens x);
        all_closes = k.all_closes;
        met = Met-open t events po pc s.opened s.closed h k.met;
        current =
            no-Current s.cur_lo (opening t ∷ events) events po pc (and_open t po) pc s.opened
              s.closed s.max_count k.current lower;
        best_is = k.best_is;
        some_best = k.some_best;
        cap =
            cap_open t events po pc s.opened s.closed s.max_count s.max_count k.met k.cap
              (ground arith) (ground arith);
      })
    ]

open-Holds :
    (O C : ℕ → ℕ) (t : ℕ) (events : List Edge) (s : Sweep) (po pc : ℕ → ℕ)
    → Below (opening t) events
    → Holds O C (opening t ∷ events) s po pc
    → Holds O C events (on_open t s) (and_open t po) pc
unfolding on_open
open-Holds O C t events s po pc h k =
    elim (Bool-cases (ltb (s.max_count + s.closed) (s.opened + 1))) [
      | inl higher ↦ rw higher (record {
        peak = ground arith;
        all_opens = λ x. omega (arith, k.all_opens x);
        all_closes = k.all_closes;
        met = Met-open t events po pc s.opened s.closed h k.met;
        current = (
          ground arith,
          (Current-open t events po pc s.opened s.closed h k.met).0,
          (Current-open t events po pc s.opened s.closed h k.met).1,
        );
        best_is = tt;
        some_best = λ e. absurd (ground arith);
        cap =
            cap_open t events po pc s.opened s.closed s.max_count (s.opened + 1 - s.closed) k.met
              k.cap (ground arith) (ground arith);
      })
      | inr lower ↦ rw lower (not_higher O C t events s po pc h k lower)
    ]

Best-narrowest :
    (b : Option Interval) (new : Interval) (O C : ℕ → ℕ) (m : ℕ)
    → Best b O C m
    → Best (some new) O C m
    → Best (some (narrowest b new)) O C m
Best-narrowest none new O C m h k = k
Best-narrowest (some old) new O C m h k =
    if_both (λ i. Best (some i) O C m) (ltb (new.1 - new.0) (old.1 - old.0)) k h

-- From the current start to a closing edge the count is the peak.
Best-closed :
    (O C : ℕ → ℕ) (lo t : ℕ) (events : List Edge) (s : Sweep) (po pc : ℕ → ℕ)
    → Below (closing t) events
    → Holds O C (closing t ∷ events) s po pc
    → Current (some lo) (closing t ∷ events) po pc s.opened s.closed s.max_count
    → Best (some (lo, t)) O C s.max_count
Best-closed O C lo t events s po pc h k now = (
  omega (arith, now.2),
  λ x from to.
      let counts = now.1 x from in
      let none_left = opens-beyond x (closing t) events (omega arith) h in
      let closes_later : tick (leb (2 * t + 1) (2 * x)) ≡ 0 =
        ap tick (leb-eq_false (2 * t + 1) (2 * x) (omega arith)) in
      omega (
        arith,
        now.0,
        counts.0,
        counts.1,
        none_left.0,
        none_left.1,
        closes_later,
        k.all_opens x,
        k.all_closes x,
      ),
)

close_from-Holds :
    (O C : ℕ → ℕ) (cur : Option ℕ) (t : ℕ) (events : List Edge) (s : Sweep) (po pc : ℕ → ℕ)
    → s.cur_lo ≡ cur
    → Below (closing t) events
    → Holds O C (closing t ∷ events) s po pc
    → Holds O C events (close_from cur t s) po (and_close t pc)
close_from-Holds O C none t events s po pc e h k = record {
  peak = omega (arith, k.peak);
  all_opens = k.all_opens;
  all_closes = λ x. omega (arith, k.all_closes x);
  met = Met-close t events po pc s.opened s.closed h k.met;
  current =
      subst (λ c. Current c events po (and_close t pc) s.opened (s.closed + 1) s.max_count) (sym e)
        tt;
  best_is = k.best_is;
  some_best = k.some_best;
  cap = λ x. omega (arith, k.cap x);
}
close_from-Holds O C (some lo) t events s po pc e h k =
    let now : Current (some lo) (closing t ∷ events) po pc s.opened s.closed s.max_count =
      subst (λ c. Current c (closing t ∷ events) po pc s.opened s.closed s.max_count) e k.current in
    rw ((==_iff (s.opened + 1) (s.max_count + (s.closed + 1))).1 (omega (arith, now.0))) (record {
      peak = omega (arith, k.peak);
      all_opens = k.all_opens;
      all_closes = λ x. omega (arith, k.all_closes x);
      met = Met-close t events po pc s.opened s.closed h k.met;
      current = tt;
      best_is =
          Best-narrowest s.best (lo, t) O C s.max_count k.best_is
            (Best-closed O C lo t events s po pc h k now);
      some_best = λ impossible. absurd (ground arith);
      cap = λ x. omega (arith, k.cap x);
    })

-- What the whole sweep leaves.
pub sweep-Holds :
    (O C : ℕ → ℕ) (events : List Edge) (s : Sweep) (po pc : ℕ → ℕ)
    → Sorted events
    → Holds O C events s po pc
    → (po' : ℕ → ℕ) × (pc' : ℕ → ℕ) × Holds O C [] (sweep events s) po' pc'
unfolding on_edge
sweep-Holds O C [] s po pc h k = (po, pc, k)
sweep-Holds O C (opening t ∷ events) s po pc h k =
    sweep-Holds O C events (on_open t s) (and_open t po) pc h.1
      (open-Holds O C t events s po pc h.0 k)
sweep-Holds O C (closing t ∷ events) s po pc h k =
    sweep-Holds O C events (close_from s.cur_lo t s) po (and_close t pc) h.1
      (close_from-Holds O C s.cur_lo t events s po pc refl h.0 k)

start-Met : (events : List Edge) → Met events (λ x. 0) (λ x. 0) 0 0
start-Met [] = tt
start-Met (e ∷ events) = λ x reach. (refl, refl)

pub start-Holds :
    (events : List Edge)
    → Holds (λ x. opens x events) (λ x. closes x events) events start (λ x. 0) (λ x. 0)
start-Holds events = record {
  peak = omega arith;
  all_opens = λ x. omega arith;
  all_closes = λ x. omega arith;
  met = start-Met events;
  current = tt;
  best_is = tt;
  some_best = λ e. refl;
  cap = λ x. omega arith;
}

-- At the end all edges were met; a peak of which the start is still open stays open for ever.
pub ended :
    (O C : ℕ → ℕ) (s : Sweep) (po pc : ℕ → ℕ)
    → Holds O C [] s po pc
    → ((x : ℕ) → O x ≤ s.max_count + C x)
      × ((lo : ℕ) → s.cur_lo ≡ some lo → (x : ℕ) → lo ≤ x → O x ≡ s.max_count + C x)
ended O C s po pc k = (
  λ x. omega (arith, k.cap x, k.all_opens x, k.all_closes x),
  λ lo e x later.
      let now : Current (some lo) [] po pc s.opened s.closed s.max_count =
        subst (λ c. Current c [] po pc s.opened s.closed s.max_count) e k.current in
      let counts = now.1 x later in
      omega (arith, now.0, counts.0, counts.1, k.all_opens x, k.all_closes x),
)
