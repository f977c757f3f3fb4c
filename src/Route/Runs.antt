-- ===== src/Route/Runs.antt =====
-- Pools of routes at concrete sizes.
use aionetiface.Prelude.{ℕ, ◌≡◌, refl, arith, some, List, [], ◌∷◌}
use aionetiface.Bytes.{ok, err, value_error}
use aionetiface.Utility.Ranges.{pos, negsuc}
use aionetiface.Utility.Search.{sorted_search, search_loop}
use aionetiface.Route.Pool.{
  route_pool, HostRoute, iter, reversed, collect, next_host, get_route_info, get_item,
}
use aionetiface.Route.Pool.Iterating.{all_hosts, collect-iter}

collect-iter_example :
    collect 7 (route_pool (2 ∷ 1 ∷ [])) (iter (route_pool (2 ∷ 1 ∷ [])))
    ≡ ok (all_hosts 0 0 (2 ∷ 1 ∷ []))
collect-iter_example = collect-iter (2 ∷ 1 ∷ []) 7 (omega arith, (omega arith, tt)) (omega arith)

abbrev host : ℕ → ℕ → ℕ → HostRoute
host route offset index = record { route_offset = route; host_offset = offset; wan_index = index }

-- In reverse the first route is never reached, and its hosts are looked up in the second.
reversed_hosts :
    collect 3 (route_pool (2 ∷ 1 ∷ [])) (reversed (route_pool (2 ∷ 1 ∷ [])))
    ≡ ok (host 1 2 0 ∷ host 1 1 2 ∷ host 1 0 1 ∷ [])
unfolding collect next_host get_route_info
reversed_hosts = refl

abbrev eight : List ℕ
eight = 10 ∷ 10 ∷ 10 ∷ 10 ∷ 10 ∷ 10 ∷ 10 ∷ 10 ∷ []

last_host : get_item (route_pool eight) (negsuc 0) ≡ ok (some (host 7 79 9))
unfolding get_item get_route_info sorted_search search_loop
last_host = refl

-- A host of a middle route of eight that the search does not find.
missed_host : get_item (route_pool eight) (pos 59) ≡ err value_error
unfolding get_item get_route_info sorted_search search_loop
missed_host = refl
