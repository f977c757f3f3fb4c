-- ===== src/Pipe/Accepting/Losing.antt =====
-- What becomes of the awaits of a server when a client is lost before it was given.
use aionetiface.Prelude.{ℕ, suc, ◌+◌, ◌%◌, ◌<◌, ◌≡◌, refl, ap, ◌∙◌, arith, Option, none, some}
use aionetiface.Prelude.{List, [], ◌∷◌, ◌++◌, length, get_elem?, length-append}
use aionetiface.Prelude.{==-eq_false}
use native.Mathlib.Nat.{mod-eq_of_lt}
use aionetiface.Pipe.Accepting.{Slot, Server, waiting, done, find_slot, put_slot, remove_slot}
use aionetiface.Pipe.Accepting.{add_tcp_client, Awaited, key_error, make_awaitable}
use aionetiface.Pipe.Accepting.{lose_client}
use aionetiface.Pipe.Accepting.Table.{
  drop_done-table_of, find_slot-grown, get_elem?-lt, grown_table, lost_slot, resolved_table,
  table_of,
}
use aionetiface.Pipe.Accepting.Awaiting.{server_of, first_round}
use aionetiface.Pipe.Accepting.InOrder.{Event, arrives, awaits, run, note, log_after, arrivals}

-- The server after these clients have arrived and the next one to be given was lost.
abbrev pub without_next : List ℕ → ℕ → Server
without_next log given = record (server_of log given) {
  client_futures = remove_slot given (table_of 0 log);
}

-- A KeyError for each await.
abbrev pub all_raise : List Event → List Awaited
all_raise [] = []
all_raise (arrives accepted ∷ events) = all_raise events
all_raise (awaits ∷ events) = key_error ∷ all_raise events

lose_client-server_of :
    (log : List ℕ) (given lost : ℕ)
    → get_elem? log given ≡ some lost
    → lose_client (server_of log given) given ≡ without_next log given
unfolding lose_client
lose_client-server_of log given lost h =
    ap (λ (table : List (ℕ × Slot)). record (server_of log given) { client_futures = table })
      (drop_done-table_of log given lost h)

-- Other entries are not touched by the deletion.
put_slot-remove_slot :
    (key gone : ℕ) (slot : Slot) (table : List (ℕ × Slot))
    → gone < key
    → put_slot key slot (remove_slot gone table) ≡ remove_slot gone (put_slot key slot table)
put_slot-remove_slot key gone slot [] h = rw (==-eq_false key gone (λ e. absurd (omega arith)))
put_slot-remove_slot key gone slot ((other, known) ∷ table) h =
    ground (arith, put_slot-remove_slot key gone slot table h)

find_slot-remove_slot :
    (key gone : ℕ) (table : List (ℕ × Slot))
    → gone < key
    → find_slot key (remove_slot gone table) ≡ find_slot key table
find_slot-remove_slot key gone [] h = refl
find_slot-remove_slot key gone ((other, known) ∷ table) h =
    ground (arith, find_slot-remove_slot key gone table h)

add_tcp_client-without_next :
    (maxsize : ℕ) (log : List ℕ) (given accepted : ℕ)
    → given < length log
    → suc (length log) < maxsize
    → add_tcp_client maxsize (without_next log given) accepted
      ≡ some (length log, without_next (log ++ accepted ∷ []) given)
unfolding add_tcp_client
add_tcp_client-without_next maxsize log given accepted below h =
    let size = length log in
    let next = suc size in
    let grown = table_of 0 log ++ (next, waiting) ∷ [] in
    let within : next % maxsize ≡ next = mod-eq_of_lt h in
    let longer : length (log ++ accepted ∷ []) ≡ next =
      omega (arith, length-append log (accepted ∷ [])) in
    rw (
      within,
      put_slot-remove_slot next given waiting (table_of 0 log) (omega arith),
      grown_table 0 next log (omega arith),
      find_slot-remove_slot size given grown below,
      find_slot-grown 0 size next log (omega arith),
      put_slot-remove_slot size given (done accepted) grown below,
      resolved_table 0 size next accepted log (omega arith) refl,
      longer,
    )

make_awaitable-without_next :
    (log : List ℕ) (given : ℕ)
    → given < length log
    → make_awaitable (without_next log given) ≡ (key_error, without_next log given)
make_awaitable-without_next log given below =
    first_round (without_next log given) none refl (omega arith)
      (lost_slot 0 given given log (omega arith) below)

run-without_next :
    (maxsize : ℕ) (log : List ℕ) (given : ℕ) (events : List Event)
    → given < length log
    → length log + arrivals events < maxsize
    → run maxsize (without_next log given) events
      ≡ some (all_raise events, without_next (log_after log events) given)
run-without_next maxsize log given [] below h = refl
run-without_next maxsize log given (arrives accepted ∷ events) below h =
    let one_more = length-append log (accepted ∷ []) in
    let entered : suc (length log) < maxsize = omega arith in
    ap
      (λ (added : Option (ℕ × Server)). elim added [
        | none ↦ none
        | some (entry, next) ↦ run maxsize next events
      ])
      (add_tcp_client-without_next maxsize log given accepted below entered)
    ∙ run-without_next maxsize (log ++ accepted ∷ []) given events (omega arith) (omega arith)
run-without_next maxsize log given (awaits ∷ events) below h =
    ap (λ (step : Awaited × Server). note step.0 (run maxsize step.1 events))
      (make_awaitable-without_next log given below)
    ∙ ap (note key_error) (run-without_next maxsize log given events below h)

-- When the client that is next to be given is lost before an await gets it, the entry of its future
-- is deleted, and from then on every await of the server raises a KeyError, however many clients
-- arrive and whichever wait behind it; the arrivals go on as before. Fewer clients than
-- `sys.maxsize` arrive.
pub run-lose_client :
    (maxsize : ℕ) (log : List ℕ) (given lost : ℕ) (events : List Event)
    → get_elem? log given ≡ some lost
    → length log + arrivals events < maxsize
    → run maxsize (lose_client (server_of log given) given) events
      ≡ some (all_raise events, without_next (log_after log events) given)
run-lose_client maxsize log given lost events h few =
    ap (λ (self : Server). run maxsize self events) (lose_client-server_of log given lost h)
    ∙ run-without_next maxsize log given events (get_elem?-lt log given lost h) few
