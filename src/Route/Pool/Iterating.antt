-- ===== src/Route/Pool/Iterating.antt =====
-- What the iterators of a pool give.
use native.Mathlib.Nat.{mod-eq_of_lt}
use aionetiface.Prelude.{
  ℕ, zero, suc, ◌+◌, ◌-◌, ◌%◌, ◌≤◌, ◌<◌, ◌≡◌, refl, sym, ap, ◌∙◌, arith, false,
}
use aionetiface.Prelude.{List, [], ◌∷◌, ◌++◌, length}
use aionetiface.Prelude.{leb-eq_true, leb-eq_false, ltb-eq_true, ltb-eq_false, ==-eq_false}
use aionetiface.Prelude.{◌⊎◌, inl, inr, length-append, append_assoc}
use aionetiface.Bytes.{ok}
use aionetiface.Utility.Search.{nth}
use aionetiface.Route.Pool.{sums_from, total, RoutePool, route_pool, HostRoute, get_route_info}
use aionetiface.Route.Pool.{prev_len, PoolIter, iter, advance, next_host, collect}

small_mod : (i n : ℕ) → i < n → i % n ≡ i
small_mod i n h = mod-eq_of_lt h

-- The hosts of one route, from the place `at` in its range on, and of all routes in order.
abbrev pub hosts_of : ℕ → ℕ → ℕ → ℕ → List HostRoute
hosts_of route before at zero = []
hosts_of route before at (suc left) =
    record { route_offset = route; host_offset = before + at; wan_index = at }
    ∷ hosts_of route before (at + 1) left

abbrev pub all_hosts : ℕ → ℕ → List ℕ → List HostRoute
all_hosts route before [] = []
all_hosts route before (size ∷ sizes) =
    hosts_of route before 0 size ++ all_hosts (route + 1) (before + size) sizes

abbrev pub NoneEmpty : List ℕ → Type 0
NoneEmpty [] = Unit {0}
NoneEmpty (size ∷ sizes) = (1 ≤ size) × NoneEmpty sizes

-- The entries of a pool where the routes of `front` stand before one of `size` hosts.
sum_at :
    (start size : ℕ) (front rest : List ℕ)
    → nth (sums_from start (front ++ size ∷ rest)) (length front) ≡ start + total front + size
sum_at start size [] rest = omega arith
sum_at start size (s ∷ front) rest = omega (arith, sum_at (start + s) size front rest)

size_at : (size : ℕ) (front rest : List ℕ) → nth (front ++ size ∷ rest) (length front) ≡ size
size_at size [] rest = refl
size_at size (s ∷ front) rest = size_at size front rest

sum_before :
    (start first : ℕ) (front rest : List ℕ)
    → nth (sums_from start (first ∷ front ++ rest)) (length front) ≡ start + first + total front
sum_before start first [] rest = omega arith
sum_before start first (s ∷ front) rest = omega (arith, sum_before (start + first) s front rest)

prev_len-front :
    (front rest : List ℕ) → prev_len (route_pool (front ++ rest)) (length front) ≡ total front
prev_len-front [] rest = refl
prev_len-front (s ∷ front) rest =
    let back : suc (length front) - 1 ≡ length front = omega arith in
    rw (==-eq_false (suc (length front)) 0 (λ e. absurd (omega arith)), back)
      (sum_before 0 s front rest ∙ omega arith)

total-append : (front rest : List ℕ) → total (front ++ rest) ≡ total front + total rest
total-append [] rest = omega arith
total-append (s ∷ front) rest = omega (arith, total-append front rest)

-- One call on a host of this route.
abbrev there : ℕ → ℕ → PoolIter
there host route = record { reverse = false; host_p = host; at_route = route }

info_at :
    (front rest : List ℕ) (size at : ℕ)
    → at < size
    → get_route_info (route_pool (front ++ size ∷ rest)) (length front) (total front + at)
      ≡ ok (record { route_offset = length front; host_offset = total front + at; wan_index = at })
unfolding get_route_info
info_at front rest size at h =
    let all : List ℕ = front ++ size ∷ rest in
    let sum = total-append front (size ∷ rest) in
    let long = length-append front (size ∷ rest) in
    let rel : total front + at - total front ≡ at = omega arith in
    rw (
      prev_len-front front (size ∷ rest),
      leb-eq_false (length all) (length front) (omega (arith, long)),
      sum_at 0 size front rest,
      leb-eq_false (total front + (0 + total front + size)) (total front + at) (omega arith),
      size_at size front rest,
      ==-eq_false size 0 (λ e. absurd (omega arith)),
      leb-eq_false (total front + total all) (total front + at) (omega (arith, sum)),
      leb-eq_true (total front) (total front + at) (omega arith),
      rel,
      small_mod at (total all) (omega (arith, sum)),
    )

collect_end :
    (rounds : ℕ) (rp : RoutePool) (it : PoolIter)
    → rp.wan_hosts ≤ it.host_p
    → collect rounds rp it ≡ ok []
unfolding collect next_host
collect_end zero rp it h = refl
collect_end (suc rounds) rp it h = rw (leb-eq_true rp.wan_hosts it.host_p h)

-- A call gives the host, and the calls after it the others.
collect_step :
    (rounds : ℕ) (front rest : List ℕ) (size at : ℕ) (after : PoolIter) (others : List HostRoute)
    → at < size
    → advance (route_pool (front ++ size ∷ rest)) (there (total front + at) (length front)) ≡ after
    → collect rounds (route_pool (front ++ size ∷ rest)) after ≡ ok others
    → collect
        (suc rounds)
        (route_pool (front ++ size ∷ rest))
        (there (total front + at) (length front))
      ≡ ok (
          record { route_offset = length front; host_offset = total front + at; wan_index = at }
          ∷ others)
unfolding collect next_host
collect_step rounds front rest size at after others h moved more =
    let sum = total-append front (size ∷ rest) in
    rw (
      leb-eq_false (total (front ++ size ∷ rest)) (total front + at) (omega (arith, sum)),
      info_at front rest size at h,
      moved,
      more,
    )

-- The pointers move on inside a route, to the next one, and stay at the last.
advance_inside :
    (front rest : List ℕ) (size at : ℕ)
    → at + 1 < size
    → advance (route_pool (front ++ size ∷ rest)) (there (total front + at) (length front))
      ≡ there (total front + (at + 1)) (length front)
advance_inside front rest size at h =
    let next : total front + at + 1 ≡ total front + (at + 1) = omega arith in
    rw (
      sum_at 0 size front rest,
      leb-eq_false (0 + total front + size) (total front + at + 1) (omega arith),
      next,
    )

advance_route :
    (front rest : List ℕ) (size next at : ℕ)
    → at + 1 ≡ size
    → advance (route_pool (front ++ size ∷ next ∷ rest)) (there (total front + at) (length front))
      ≡ there (total front + size) (length front + 1)
advance_route front rest size next at h =
    let long = length-append front (size ∷ next ∷ rest) in
    let behind : total front + at + 1 ≡ total front + size = omega arith in
    rw (
      sum_at 0 size front (next ∷ rest),
      leb-eq_true (0 + total front + size) (total front + at + 1) (omega arith),
      ltb-eq_true (length front) (length (front ++ size ∷ next ∷ rest) - 1) (omega (arith, long)),
      behind,
    )

advance_last :
    (front : List ℕ) (size at : ℕ)
    → at + 1 ≡ size
    → advance (route_pool (front ++ size ∷ [])) (there (total front + at) (length front))
      ≡ there (total front + size) (length front)
advance_last front size at h =
    let long = length-append front (size ∷ []) in
    let behind : total front + at + 1 ≡ total front + size = omega arith in
    rw (
      sum_at 0 size front [],
      leb-eq_true (0 + total front + size) (total front + at + 1) (omega arith),
      ltb-eq_false (length front) (length (front ++ size ∷ []) - 1) (omega (arith, long)),
      behind,
    )

inside_or_end : (at size : ℕ) → at < size → (at + 1 < size) ⊎ (at + 1 ≡ size)
inside_or_end at size h = omega arith

-- What is collected from the host `at` of a route on.
abbrev Collects : ℕ → List ℕ → List ℕ → ℕ → ℕ → Type 0
Collects rounds front rest size at =
    collect rounds (route_pool (front ++ size ∷ rest)) (there (total front + at) (length front))
    ≡ ok (
        hosts_of (length front) (total front) at (size - at)
        ++ all_hosts (length front + 1) (total front + size) rest)

-- The same with the pool and the pointers by other names.
collect_renamed :
    (rounds : ℕ) (all front rest : List ℕ) (size before host route : ℕ)
    → all ≡ front ++ size ∷ rest
    → before ≡ total front
    → host ≡ before
    → route ≡ length front
    → Collects rounds front rest size 0
    → collect rounds (route_pool all) (there host route) ≡ ok (all_hosts route before (size ∷ rest))
collect_renamed rounds all front rest size before host route same sum start place collects =
    let whole : size - 0 ≡ size = omega arith in
    let first : total front + 0 ≡ total front = omega arith in
    rw (same, start, sum, place)
      (ap (λ (p : ℕ). collect rounds (route_pool (front ++ size ∷ rest)) (there p (length front)))
          (sym first)
        ∙ collects
        ∙ ap
            (λ (n : ℕ). ok (
              hosts_of (length front) (total front) 0 n
              ++ all_hosts (length front + 1) (total front + size) rest))
            whole)

-- The last host of a route, when what follows is collected.
collect_last :
    (rounds : ℕ) (front rest : List ℕ) (size at : ℕ)
    → at < size
    → at + 1 ≡ size
    → NoneEmpty rest
    → total rest ≤ rounds
    → ((one : List ℕ) (next : ℕ) (others : List ℕ)
        → 1 ≤ next
        → NoneEmpty others
        → next + total others ≤ rounds
        → Collects rounds one others next 0)
    → Collects (suc rounds) front rest size at
collect_last rounds front [] size at h last full enough later =
    let one : size - at ≡ 1 = omega arith in
    rw one (
      collect_step rounds front [] size at _ [] h (advance_last front size at last) (
        collect_end rounds (route_pool (front ++ size ∷ []))
          (there (total front + size) (length front))
          (omega (arith, total-append front (size ∷ [])))))
collect_last rounds front (next ∷ rest) size at h last (some_hosts, full) enough later =
    let one : size - at ≡ 1 = omega arith in
    let longer : List ℕ = front ++ size ∷ [] in
    let more =
      collect_renamed rounds (front ++ size ∷ next ∷ rest) longer rest next (total front + size)
        (total front + size) (length front + 1) (sym (append_assoc front (size ∷ []) (next ∷ rest)))
        (omega (arith, total-append front (size ∷ []))) refl
        (omega (arith, length-append front (size ∷ [])))
        (later longer next rest some_hosts full (omega arith)) in
    rw one (
      collect_step rounds front (next ∷ rest) size at _ _ h
        (advance_route front rest size next at last) more)

collect_from :
    (rounds : ℕ) (front rest : List ℕ) (size at : ℕ)
    → at < size
    → NoneEmpty rest
    → size - at + total rest ≤ rounds
    → Collects rounds front rest size at
collect_from zero front rest size at h full enough = absurd (omega arith)
collect_from (suc rounds) front rest size at h full enough = elim (inside_or_end at size h) [
  | inl inside ↦
      let left : size - at ≡ suc (size - (at + 1)) = omega arith in
      rw left (
        collect_step rounds front rest size at _ _ h (advance_inside front rest size at inside)
          (collect_from rounds front rest size (at + 1) inside full (omega arith)))
  | inr last ↦
      collect_last rounds front rest size at h last full (omega arith)
        (λ one next others some_hosts none_empty few.
          collect_from rounds one others next 0 some_hosts none_empty (omega arith))
]

-- Forwards, the iterator gives every host of every route once and in order, each with its own
-- place in the range of its own route, and then ends, however often it is called after: any number
-- of calls that is not less than the number of hosts collects the same. No route is without hosts.
pub collect-iter :
    (sizes : List ℕ) (rounds : ℕ)
    → NoneEmpty sizes
    → total sizes ≤ rounds
    → collect rounds (route_pool sizes) (iter (route_pool sizes)) ≡ ok (all_hosts 0 0 sizes)
collect-iter [] rounds full enough =
    collect_end rounds (route_pool []) (iter (route_pool [])) (omega arith)
collect-iter (size ∷ sizes) rounds (some_hosts, full) enough =
    collect_renamed rounds (size ∷ sizes) [] sizes size 0 0 0 refl refl refl refl
      (collect_from rounds [] sizes size 0 some_hosts full (omega arith))
