-- ===== src/Pipe/Accepting/Runs.antt =====
-- A server with a few clients.
use aionetiface.Prelude.{◌≡◌, refl, some, List, [], ◌∷◌, arith}
use aionetiface.Pipe.Accepting.{new_server, client, pending, key_error, lose_client}
use aionetiface.Pipe.Accepting.InOrder.{Event, arrives, awaits, run, outcomes_of}
use aionetiface.Pipe.Accepting.InOrder.{log_after, given_after, run-outcomes_of}
use aionetiface.Pipe.Accepting.Awaiting.{server_of}
use aionetiface.Pipe.Accepting.Losing.{without_next, run-lose_client}

-- An await that is there first, two clients, and three awaits.
abbrev events : List Event
events = awaits ∷ arrives 7 ∷ arrives 8 ∷ awaits ∷ awaits ∷ awaits ∷ []

run-outcomes_of_example :
    run 1000 new_server events
    ≡ some (outcomes_of [] 0 events, server_of (log_after [] events) (given_after [] 0 events))
run-outcomes_of_example = run-outcomes_of 1000 events (omega arith)

-- The first await is given the first client when it comes, and the second await gets it again.
given_twice : outcomes_of [] 0 events ≡ pending 0 ∷ client 7 ∷ client 8 ∷ pending 2 ∷ []
given_twice = refl

run-lose_client_example :
    run 1000 (lose_client (server_of (7 ∷ 8 ∷ []) 0) 0) (awaits ∷ arrives 9 ∷ awaits ∷ [])
    ≡ some (key_error ∷ key_error ∷ [], without_next (7 ∷ 8 ∷ 9 ∷ []) 0)
run-lose_client_example =
    run-lose_client 1000 (7 ∷ 8 ∷ []) 0 7 (awaits ∷ arrives 9 ∷ awaits ∷ []) refl (omega arith)
