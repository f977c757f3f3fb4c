-- ===== src/Pipe/Accepting/InOrder.antt =====
-- In which order those who await a server are given its clients.
use aionetiface.Prelude.{ℕ, suc, ◌+◌, ◌≤◌, ◌<◌, ◌≡◌, refl, ap, ◌∙◌, arith, Option, none, some}
use aionetiface.Prelude.{List, [], ◌∷◌, ◌++◌, length, get_elem?, length-append}
use aionetiface.Pipe.Accepting.{Server, new_server}
use aionetiface.Pipe.Accepting.{add_tcp_client, Awaited}
use aionetiface.Pipe.Accepting.{make_awaitable}
use aionetiface.Pipe.Accepting.Awaiting.{
  add_tcp_client-server_of, make_awaitable-server_of, moved, moved-le, next_client, server_of,
}

-- A client arrives, or the server is awaited.
pub data Event : Type 0 where
  arrives : ℕ → Event
  awaits : Event

abbrev pub note : Awaited → Option (List Awaited × Server) → Option (List Awaited × Server)
note outcome none = none
note outcome (some (outcomes, after)) = some (outcome ∷ outcomes, after)

-- What the awaits come to, in order, and the server after the events; none if one raises.
abbrev pub run : ℕ → Server → List Event → Option (List Awaited × Server)
run maxsize self [] = some ([], self)
run maxsize self (arrives accepted ∷ events) = elim (add_tcp_client maxsize self accepted) [
  | none ↦ none
  | some (entry, next) ↦ run maxsize next events
]
run maxsize self (awaits ∷ events) =
    let (outcome, next) = make_awaitable self in note outcome (run maxsize next events)

abbrev pub log_after : List ℕ → List Event → List ℕ
log_after log [] = log
log_after log (arrives accepted ∷ events) = log_after (log ++ accepted ∷ []) events
log_after log (awaits ∷ events) = log_after log events

abbrev pub given_after : List ℕ → ℕ → List Event → ℕ
given_after log given [] = given
given_after log given (arrives accepted ∷ events) = given_after (log ++ accepted ∷ []) given events
given_after log given (awaits ∷ events) = given_after log (moved given (get_elem? log given)) events

abbrev pub outcomes_of : List ℕ → ℕ → List Event → List Awaited
outcomes_of log given [] = []
outcomes_of log given (arrives accepted ∷ events) = outcomes_of (log ++ accepted ∷ []) given events
outcomes_of log given (awaits ∷ events) =
    next_client log (get_elem? log given)
    ∷ outcomes_of log (moved given (get_elem? log given)) events

abbrev pub arrivals : List Event → ℕ
arrivals [] = 0
arrivals (arrives accepted ∷ events) = suc (arrivals events)
arrivals (awaits ∷ events) = arrivals events

run-server_of :
    (maxsize : ℕ) (log : List ℕ) (given : ℕ) (events : List Event)
    → given ≤ length log
    → length log + arrivals events < maxsize
    → run maxsize (server_of log given) events
      ≡ some (
        outcomes_of log given events,
        server_of (log_after log events) (given_after log given events),
      )
run-server_of maxsize log given [] h k = refl
run-server_of maxsize log given (arrives accepted ∷ events) h k =
    let one_more = length-append log (accepted ∷ []) in
    let entered : suc (length log) < maxsize = omega arith in
    ap
      (λ (added : Option (ℕ × Server)). elim added [
        | none ↦ none
        | some (entry, next) ↦ run maxsize next events
      ])
      (add_tcp_client-server_of maxsize log given accepted entered)
    ∙ run-server_of maxsize (log ++ accepted ∷ []) given events (omega arith) (omega arith)
run-server_of maxsize log given (awaits ∷ events) h k =
    let found = get_elem? log given in
    let inside = moved-le log given found h refl in
    ap (λ (step : Awaited × Server). note step.0 (run maxsize step.1 events))
      (make_awaitable-server_of log given h)
    ∙ ap (note (next_client log found))
        (run-server_of maxsize log (moved given found) events inside k)

-- However the arrivals of clients and the awaits of a server follow each other: an await that
-- finds a client which is there gets the first in order of arrival that no such await has got,
-- and one that does not waits for the next to arrive, without moving the pointer. No await and no
-- arrival raises while there are fewer clients than `sys.maxsize`, and none are lost.
pub run-outcomes_of :
    (maxsize : ℕ) (events : List Event)
    → arrivals events < maxsize
    → run maxsize new_server events
      ≡ some (outcomes_of [] 0 events, server_of (log_after [] events) (given_after [] 0 events))
run-outcomes_of maxsize events h = run-server_of maxsize [] 0 events (omega arith) (omega arith)
