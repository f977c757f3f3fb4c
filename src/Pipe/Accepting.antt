-- ===== src/Pipe/Accepting.antt =====
-- The clients of a TCP server: the table of futures that the class `PipeEvents` of
-- aionetiface/net/pipe/pipe_events.py keeps for those who await the server, and what
-- pipe_tcp_events.py does to it when a client is lost. A client is known by a number; the greatest
-- index of a list, `sys.maxsize`, is an argument.
pub mod Table
pub mod Awaiting
pub mod InOrder
pub mod Losing
pub mod Runs
use aionetiface.Prelude.{ℕ, zero, suc, ◌+◌, ◌-◌, ◌%◌, Option, none, some, Bool, true, false}
use aionetiface.Prelude.{List, [], ◌∷◌, ◌++◌, ◌==◌, if◌then◌else◌}

-- An entry of the table, which may hold `None`; a future waits or is done.
pub data Slot : Type 0 where
  empty waiting : Slot
  done : ℕ → Slot

-- `client_futures` is a dictionary, in the order of insertion. `is_server` says that the type of
-- the endpoint is TYPE_TCP_SERVER.
pub record Server : Type 0 where
  pub is_server : Bool
  pub client_futures : List (ℕ × Slot)
  pub p_client_insert : ℕ
  pub p_client_get : ℕ
  pub tcp_clients : List ℕ

abbrev pub new_server : Server
new_server = record {
  is_server = true;
  client_futures = (0, waiting) ∷ [];
  p_client_insert = 0;
  p_client_get = 0;
  tcp_clients = [];
}

abbrev pub find_slot : ℕ → List (ℕ × Slot) → Option Slot
find_slot key [] = none
find_slot key ((other, slot) ∷ rest) = if other == key then some slot else find_slot key rest

abbrev pub put_slot : ℕ → Slot → List (ℕ × Slot) → List (ℕ × Slot)
put_slot key slot [] = (key, slot) ∷ []
put_slot key slot ((other, known) ∷ rest) =
    if other == key then (key, slot) ∷ rest else (other, known) ∷ put_slot key slot rest

abbrev pub remove_slot : ℕ → List (ℕ × Slot) → List (ℕ × Slot)
remove_slot key [] = []
remove_slot key ((other, known) ∷ rest) =
    if other == key then rest else (other, known) ∷ remove_slot key rest

-- `client_futures[entry].set_result(client)`: none if this raises, as it does on a missing entry
-- and on a future that is done.
abbrev resolve : ℕ → ℕ → List (ℕ × Slot) → Option Slot → Option (List (ℕ × Slot))
resolve key accepted table (some waiting) = some (put_slot key (done accepted) table)
resolve key accepted table (some (done known)) = none
resolve key accepted table (some empty) = none
resolve key accepted table none = none

abbrev store_client : Server → ℕ → ℕ → Option (List (ℕ × Slot)) → Option (ℕ × Server)
store_client self accepted next none = none
store_client self accepted next (some resolved) = some (
  self.p_client_insert,
  record self {
    client_futures = resolved;
    p_client_insert = next;
    tcp_clients = self.tcp_clients ++ accepted ∷ [];
  },
)

-- `add_tcp_client`: the client's `p_client_entry` is where the server stood.
unfoldable pub add_tcp_client : ℕ → Server → ℕ → Option (ℕ × Server)
add_tcp_client maxsize self accepted =
    let entry = self.p_client_insert in
    let next = suc entry % maxsize in
    let table = put_slot next waiting self.client_futures in
    store_client self accepted next (resolve entry accepted table (find_slot entry table))

-- What `make_awaitable` comes to: the pipe itself, a client, the wait for the future of a number,
-- or an exception.
pub data Awaited : Type 0 where
  itself key_error assertion_error : Awaited
  client pending : ℕ → Awaited

-- A round of the loop at an entry: an empty one is skipped, and the pointer moves past one that
-- is done.
abbrev pub await_slot : Server → ℕ → ℕ → Awaited × Server → Option Slot → Awaited × Server
await_slot self bound place later none = (key_error, self)
await_slot self bound place later (some empty) = later
await_slot self bound place later (some waiting) = (pending place, self)
await_slot self bound place later (some (done found)) =
    (client found, record self { p_client_get = suc place % bound })

-- The rest of the loop from the offset `p`, with so many rounds left.
unfoldable pub await_from : Server → ℕ → ℕ → ℕ → Awaited × Server
await_from self bound p zero = (assertion_error, self)
await_from self bound p (suc rounds) =
    let later = await_from self bound (suc p) rounds in
    let place = (self.p_client_get + p) % bound in
    await_slot self bound place later (find_slot place self.client_futures)

unfoldable pub make_awaitable : Server → Awaited × Server
make_awaitable self =
    let bound = self.p_client_insert + 1 in
    if self.is_server then await_from self bound 0 bound else (itself, self)

abbrev pub drop_done : ℕ → List (ℕ × Slot) → Option Slot → List (ℕ × Slot)
drop_done entry table (some (done known)) = remove_slot entry table
drop_done entry table (some waiting) = table
drop_done entry table (some empty) = table
drop_done entry table none = table

-- `connection_lost` of a client with this entry: its future is deleted when it is done.
unfoldable pub lose_client : Server → ℕ → Server
lose_client self entry = record self {
  client_futures = drop_done entry self.client_futures (find_slot entry self.client_futures);
}
