-- ===== src/Route/Pool.antt =====
-- The class `RoutePool` of aionetiface/nic/route/route_pool.py and its iterator. Of a route the
-- number of its external addresses matters, which is 0 where `ext_ips` is empty; the routes are
-- without duplicates. A route for one host is known by the offsets that it is made from.
pub mod Iterating
use aionetiface.Prelude.{ℕ, zero, suc, ◌+◌, ◌-◌, ◌%◌, Bool, true, false, ◌&&◌, Option, none, some}
use aionetiface.Prelude.{List, [], ◌∷◌, length, leb, ltb, ◌==◌, if◌then◌else◌}
use aionetiface.Bytes.{Result, ok, err, ◌>>=◌, ◌>>◌, fail_if, assertion_error, index_error}
use aionetiface.Utility.Ranges.{ℤ, pos, negsuc}
use aionetiface.Utility.Search.{nth, sorted_search}

-- The running sums `len_list`.
abbrev pub sums_from : ℕ → List ℕ → List ℕ
sums_from wan_hosts [] = []
sums_from wan_hosts (size ∷ sizes) = (wan_hosts + size) ∷ sums_from (wan_hosts + size) sizes

abbrev pub total : List ℕ → ℕ
total [] = 0
total (size ∷ sizes) = size + total sizes

pub record RoutePool : Type 0 where
  pub sizes : List ℕ
  pub len_list : List ℕ
  pub wan_hosts : ℕ

abbrev pub route_pool : List ℕ → RoutePool
route_pool given = record { sizes = given; len_list = sums_from 0 given; wan_hosts = total given }

-- The route, the host's place in the pool, and its place in the route's range.
pub record HostRoute : Type 0 where
  pub route_offset : ℕ
  pub host_offset : ℕ
  pub wan_index : ℕ

abbrev pub prev_len : RoutePool → ℕ → ℕ
prev_len rp route_offset = if route_offset == 0 then 0 else nth rp.len_list (route_offset - 1)

-- `rel_host_offset % self.wan_hosts`, which is not negative for a negative offset either.
abbrev pub rel_index : RoutePool → ℕ → ℕ → ℕ
rel_index rp abs_host_offset before =
    if leb before abs_host_offset
    then (abs_host_offset - before) % rp.wan_hosts
    else (rp.wan_hosts - (before - abs_host_offset) % rp.wan_hosts) % rp.wan_hosts

-- The assertions on `rel_host_offset`; a negative offset passes them.
abbrev pub is_past : RoutePool → ℕ → ℕ → ℕ → Bool
is_past rp route_offset abs_host_offset before =
    leb (before + nth rp.len_list route_offset) abs_host_offset

-- The routes have an address of their own, so `route.nic_ips[0]` and the assertion on its length are
-- left out, as is the object that is made from the offsets.
unfoldable pub get_route_info : RoutePool → ℕ → ℕ → Result HostRoute
get_route_info rp route_offset abs_host_offset = do
  let before = prev_len rp route_offset
  fail_if (leb (length rp.sizes) route_offset) assertion_error
  fail_if (is_past rp route_offset abs_host_offset before) assertion_error
  fail_if (nth rp.sizes route_offset == 0) index_error
  fail_if (leb (before + rp.wan_hosts) abs_host_offset) assertion_error
  ok record {
    route_offset = route_offset;
    host_offset = abs_host_offset;
    wan_index = rel_index rp abs_host_offset before;
  }

-- The state of an iterator, forwards or in reverse.
pub record PoolIter : Type 0 where
  pub reverse : Bool
  pub host_p : ℕ
  pub at_route : ℕ

abbrev pub iter : RoutePool → PoolIter
iter rp = record { reverse = false; host_p = 0; at_route = 0 }

abbrev pub reversed : RoutePool → PoolIter
reversed rp = record { reverse = true; host_p = 0; at_route = length rp.sizes - 1 }

-- The pointers after a host.
abbrev pub advance : RoutePool → PoolIter → PoolIter
advance rp it =
    let host_p = it.host_p + 1 in
    let done = leb (nth rp.len_list it.at_route) host_p in
    let next =
      if it.reverse
      then (if done then it.at_route - 1 else it.at_route)
      else (if done && ltb it.at_route (length rp.sizes - 1)
          then it.at_route + 1
          else it.at_route) in
    record it { host_p = host_p; at_route = next }

abbrev pub host_at_step : RoutePool → PoolIter → ℕ
host_at_step rp it = if it.reverse then rp.wan_hosts - 1 - it.host_p else it.host_p

-- `__next__`, which is `none` where it raises `StopIteration`.
unfoldable pub next_host : RoutePool → PoolIter → Result (Option (HostRoute × PoolIter))
next_host rp it =
    if leb rp.wan_hosts it.host_p
    then ok none
    else (get_route_info rp it.at_route (host_at_step rp it) >>= λ route.
        ok (some (route, advance rp it)))

abbrev pub collect_more :
    (PoolIter → Result (List HostRoute)) → Option (HostRoute × PoolIter) → Result (List HostRoute)
collect_more rest none = ok []
collect_more rest (some (route, it)) = rest it >>= λ routes. ok (route ∷ routes)

-- The list of an iterator, on `rounds` calls at most.
unfoldable pub collect : ℕ → RoutePool → PoolIter → Result (List HostRoute)
collect zero rp it = ok []
collect (suc rounds) rp it = next_host rp it >>= collect_more (collect rounds rp)

-- `__getitem__` at an integer of a pool that has hosts: a negative key counts from the end.
abbrev pub positive_key : RoutePool → ℤ → ℕ
positive_key rp (pos key) = key
positive_key rp (negsuc key) = (rp.wan_hosts - (key + 1) % rp.wan_hosts) % rp.wan_hosts

abbrev host_found : RoutePool → ℕ → Option ℕ → Result (Option HostRoute)
host_found rp key none = ok none
host_found rp key (some route_offset) =
    get_route_info rp route_offset key >>= λ route. ok (some route)

unfoldable pub get_item : RoutePool → ℤ → Result (Option HostRoute)
get_item rp key =
    let host = positive_key rp key in sorted_search rp.len_list (host + 1) >>= host_found rp host

-- `pop`, with the pointer before and after.
pub pop : RoutePool → ℕ → Result (Option HostRoute × ℕ)
pop rp pop_pointer =
    if leb rp.wan_hosts pop_pointer
    then err index_error
    else (get_item rp (pos pop_pointer) >>= λ route. ok (route, pop_pointer + 1))
