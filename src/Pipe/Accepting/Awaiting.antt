-- ===== src/Pipe/Accepting/Awaiting.antt =====
-- What one arrival and one await come to.
use aionetiface.Prelude.{ℕ, suc, ◌+◌, ◌%◌, ◌≤◌, ◌<◌, ◌≡◌, refl, ap, ◌∙◌, arith, Option, none, some}
use aionetiface.Prelude.{List, [], ◌∷◌, ◌++◌, length, get_elem?, length-append}
use aionetiface.Prelude.{if◌then◌else◌, Bool, true}
use native.Mathlib.Nat.{mod-eq_of_lt}
use aionetiface.Pipe.Accepting.{Slot, Server, find_slot}
use aionetiface.Pipe.Accepting.{add_tcp_client, Awaited, client, pending}
use aionetiface.Pipe.Accepting.{await_from, await_slot, itself, make_awaitable}
use aionetiface.Pipe.Accepting.Table.{
  find_slot-grown, find_slot-table_of, get_elem?-lt, get_elem?-none, grown_table, resolved_table,
  slot_at-get_elem?, slot_of, table_of,
}

-- The server after these clients have arrived, of which the first so many have been given away.
abbrev pub server_of : List ℕ → ℕ → Server
server_of log given = record {
  is_server = true;
  client_futures = table_of 0 log;
  p_client_insert = length log;
  p_client_get = given;
  tcp_clients = log;
}

-- A queue of the clients with a pointer: an await gets the next one and moves the pointer, or
-- waits for the next one to come and leaves it.
abbrev pub next_client : List ℕ → Option ℕ → Awaited
next_client log (some found) = client found
next_client log none = pending (length log)

abbrev pub moved : ℕ → Option ℕ → ℕ
moved given (some found) = suc given
moved given none = given

pub add_tcp_client-server_of :
    (maxsize : ℕ) (log : List ℕ) (given accepted : ℕ)
    → suc (length log) < maxsize
    → add_tcp_client maxsize (server_of log given) accepted
      ≡ some (length log, server_of (log ++ accepted ∷ []) given)
unfolding add_tcp_client
add_tcp_client-server_of maxsize log given accepted h =
    let within : suc (length log) % maxsize ≡ suc (length log) = mod-eq_of_lt h in
    let size : length (log ++ accepted ∷ []) ≡ suc (length log) =
      omega (arith, length-append log (accepted ∷ [])) in
    rw (
      within,
      grown_table 0 (suc (length log)) log (omega arith),
      find_slot-grown 0 (length log) (suc (length log)) log (omega arith),
      resolved_table 0 (length log) (suc (length log)) accepted log (omega arith) refl,
      size,
    )

place_of : (given size : ℕ) → given ≤ size → (given + 0) % (size + 1) ≡ given
place_of given size h =
    let bound : given + 0 < size + 1 = omega arith in mod-eq_of_lt bound ∙ omega arith

-- A round, where the entry that it looks at is known.
round_at :
    (self : Server) (bound p rounds place : ℕ) (slot : Option Slot)
    → (self.p_client_get + p) % bound ≡ place
    → find_slot place self.client_futures ≡ slot
    → await_from self bound p (suc rounds)
      ≡ await_slot self bound place (await_from self bound (suc p) rounds) slot
unfolding await_from
round_at self bound p rounds place slot h found =
    ap
      (λ (at : ℕ).
        await_slot self bound at (await_from self bound (suc p) rounds)
          (find_slot at self.client_futures))
      h
    ∙ ap (await_slot self bound place (await_from self bound (suc p) rounds)) found

pub first_round :
    (self : Server) (slot : Option Slot)
    → self.is_server ≡ true
    → self.p_client_get ≤ self.p_client_insert
    → find_slot self.p_client_get self.client_futures ≡ slot
    → make_awaitable self
      ≡ await_slot self
          (self.p_client_insert + 1)
          self.p_client_get
          (await_from self (self.p_client_insert + 1) 1 self.p_client_insert)
          slot
unfolding make_awaitable
first_round self slot h within found =
    let size = self.p_client_insert in
    let one_more : size + 1 ≡ suc size = omega arith in
    ap (λ (test : Bool). if test then await_from self (size + 1) 0 (size + 1) else (itself, self)) h
    ∙ ap (await_from self (size + 1) 0) one_more
    ∙ round_at self (size + 1) 0 size self.p_client_get slot
        (place_of self.p_client_get size within) found

-- The slot at the pointer, and what an await makes of it.
slot_outcome :
    (log : List ℕ) (given : ℕ) (later : Awaited × Server) (found : Option ℕ)
    → given ≤ length log
    → get_elem? log given ≡ found
    → await_slot (server_of log given) (length log + 1) given later (some (slot_of found))
      ≡ (next_client log found, server_of log (moved given found))
slot_outcome log given later (some found) h e =
    let within = get_elem?-lt log given found e in
    let bound : suc given < length log + 1 = omega arith in
    ap (λ (pointer : ℕ). (client found, server_of log pointer)) (mod-eq_of_lt bound)
slot_outcome log given later none h e =
    let at_end = get_elem?-none log given e in
    let same : given ≡ length log = omega arith in
    ap (λ (place : ℕ). (pending place, server_of log given)) same

pub make_awaitable-server_of :
    (log : List ℕ) (given : ℕ)
    → given ≤ length log
    → make_awaitable (server_of log given)
      ≡ (next_client log (get_elem? log given), server_of log (moved given (get_elem? log given)))
make_awaitable-server_of log given h =
    let found =
      find_slot-table_of 0 given given log (omega arith) ∙ slot_at-get_elem? log given h in
    first_round (server_of log given) (some (slot_of (get_elem? log given))) refl h found
    ∙ slot_outcome log given (await_from (server_of log given) (length log + 1) 1 (length log))
        (get_elem? log given) h refl

pub moved-le :
    (log : List ℕ) (given : ℕ) (found : Option ℕ)
    → given ≤ length log
    → get_elem? log given ≡ found
    → moved given found ≤ length log
moved-le log given none h e = h
moved-le log given (some found) h e = get_elem?-lt log given found e
