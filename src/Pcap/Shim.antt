-- ===== src/Pcap/Shim.antt =====
-- The class `PipeShim` of aionetiface/net/pcap/tcp/pipe_shim.py, which gives a connection over
-- captured frames the surface of a pipe. What the connection's `recv` and `close` come to is an
-- argument, and so is what the pump was at when it is cancelled. The calls of handlers and of the
-- firewall's teardown are values, in the order in which the code makes them; a handler that
-- changes the shim is left out, and what it raises is swallowed by the code.
pub mod Feeding
pub mod Closing
pub mod Reading
pub mod Runs
use aionetiface.Prelude.{ℕ, zero, suc, ◌+◌, Bool, true, false, not, ◌&&◌, ◌||◌, Option, none, some}
use aionetiface.Prelude.{List, [], ◌∷◌, ◌++◌, length, drop, leb, ◌==◌, if◌then◌else◌}
use aionetiface.Bytes.{Bytes}
use aionetiface.Pipe.Client.{Tup, Sub, Library, from_host, has_pattern, do_add}

-- `[client_tup, data]`, or the sentinel `[None, None]`
abbrev pub Item : Type 0
Item = Option (Option Tup × Bytes)

-- `[sub, asyncio.Queue(100), handler]`, where a handler is known by a number.
pub record Entry : Type 0 where
  pub sub : Sub
  pub queue : List Item
  pub handler : Option ℕ

abbrev pub Table : Type 0
Table = List (ℕ × Entry)

-- `subs` is the dictionary of `stream`, in the order of insertion. `is_pumping` says that the task
-- of the pump runs and `is_watched` that the one of `close_watcher` does. `torn_down` holds the
-- calls of the teardown, which is known by a number.
pub record Shim : Type 0 where
  pub client_tup : Option Tup
  pub subs : Table
  pub closed : Bool
  pub is_running : Bool
  pub on_close : Bool
  pub is_pumping : Bool
  pub is_watched : Bool
  pub firewall_teardown : Option ℕ
  pub torn_down : List ℕ

-- `asyncio.Queue(100)`
abbrev pub max_queue : ℕ
max_queue = 100

abbrev pub sub_all : Sub
sub_all = (none, none)

abbrev pub chosen_sub : Option Sub → Sub
chosen_sub none = sub_all
chosen_sub (some sub) = sub

abbrev pub hash_sub : Library → Sub → ℕ
hash_sub lib (pattern, none) = lib.hash_pattern pattern
hash_sub lib (pattern, some tup) = lib.hash_pattern pattern + lib.hash_tup tup

abbrev pub find_sub : ℕ → Table → Option Entry
find_sub offset [] = none
find_sub offset ((key, entry) ∷ rest) = if key == offset then some entry else find_sub offset rest

abbrev add_sub : Option Entry → ℕ → Entry → Table → Table
add_sub (some known) offset entry subs = subs
add_sub none offset entry subs = subs ++ (offset, entry) ∷ []

pub subscribe : Library → Shim → Option Sub → Option ℕ → ℕ × Shim
subscribe lib self wanted on_message =
    let chosen = chosen_sub wanted in
    let offset = hash_sub lib chosen in
    let fresh : Entry = record { sub = chosen; queue = []; handler = on_message } in
    (offset, record self { subs = add_sub (find_sub offset self.subs) offset fresh self.subs })

abbrev remove_sub : ℕ → Table → Table
remove_sub offset [] = []
remove_sub offset ((key, entry) ∷ rest) =
    if key == offset then rest else (key, entry) ∷ remove_sub offset rest

pub unsubscribe : Library → Shim → Sub → Shim
unsubscribe lib self wanted = record self { subs = remove_sub (hash_sub lib wanted) self.subs }

-- Without an address of the peer or in the subscription there is no filter.
abbrev pub is_peer : Option Tup → Option Tup → Bool
is_peer none peer = true
is_peer (some host) none = true
is_peer (some host) (some peer) = from_host (some host) peer

abbrev pub accepts : Library → Option Tup → Sub → Bytes → Bool
accepts lib peer (pattern, host) bytes = is_peer host peer && has_pattern lib pattern bytes

-- The calls of handlers, with what they are given.
abbrev pub Calls : Type 0
Calls = List (ℕ × Option Tup × Bytes)

abbrev hand_over : Entry → Option Tup → Bytes → Option ℕ → Entry × Calls
hand_over entry peer bytes (some called) = (entry, (called, peer, bytes) ∷ [])
hand_over entry peer bytes none =
    (record entry { queue = do_add max_queue (some (peer, bytes)) entry.queue }, [])

unfoldable pub offer : Library → Option Tup → Bytes → Entry → Entry × Calls
offer lib peer bytes entry =
    if accepts lib peer entry.sub bytes
    then hand_over entry peer bytes entry.handler
    else (entry, [])

unfoldable pub offer_all : Library → Option Tup → Bytes → Table → Table × Calls
offer_all lib peer bytes [] = ([], [])
offer_all lib peer bytes ((key, entry) ∷ rest) =
    let (changed, calls) = offer lib peer bytes entry in
    let (others, more) = offer_all lib peer bytes rest in ((key, changed) ∷ others, calls ++ more)

unfoldable pub dispatch : Library → Shim → Bytes → Shim × Calls
dispatch lib self bytes =
    let (changed, calls) = offer_all lib self.client_tup bytes self.subs in
    (record self { subs = changed }, calls)

-- The sentinel lands in a full queue as well, where the oldest item makes room.
abbrev pub end_queue : Entry → Entry
end_queue entry = record entry { queue = do_add max_queue none entry.queue }

abbrev pub end_all : Table → Table
end_all [] = []
end_all ((key, entry) ∷ rest) = (key, end_queue entry) ∷ end_all rest

unfoldable pub broadcast_close_sentinel : Shim → Shim
broadcast_close_sentinel self = record self { subs = end_all self.subs }

-- The rounds of `pump_loop`, where each `connection.recv` gives bytes or raises (`none`); after
-- the last the task is cancelled. The loop ends on an error and on no bytes, and the sentinel is
-- sent in each case.
unfoldable pub pump_rounds : Library → Shim → List (Option Bytes) → Shim × Calls
pump_rounds lib self [] = (self, [])
pump_rounds lib self (none ∷ later) = (self, [])
pump_rounds lib self (some [] ∷ later) = (self, [])
pump_rounds lib self (some (b ∷ bytes) ∷ later) =
    let (fed, calls) = dispatch lib self (b ∷ bytes) in
    let (done, more) = pump_rounds lib fed later in
    if self.closed then (self, []) else (done, calls ++ more)

unfoldable pub pump_loop : Library → Shim → List (Option Bytes) → Shim × Calls
pump_loop lib self received =
    let (pumped, calls) = pump_rounds lib self received in
    (record (broadcast_close_sentinel pumped) { is_pumping = false }, calls)

-- What `recv` comes to at once: it waits for an item (and returns None if none comes in time),
-- finds the sentinel, or returns a message.
pub data Received : Type 0 where
  waits closed : Received
  message : Option Tup → Bytes → Received

abbrev replace_sub : ℕ → Entry → Table → Table
replace_sub offset changed [] = []
replace_sub offset changed ((key, entry) ∷ rest) =
    if key == offset then (key, changed) ∷ rest else (key, entry) ∷ replace_sub offset changed rest

abbrev take_item : Shim → ℕ → Entry → List Item → Received × Shim
take_item self offset entry [] = (waits, self)
take_item self offset entry (none ∷ rest) =
    (closed, record self { subs = replace_sub offset (record entry { queue = rest }) self.subs })
take_item self offset entry (some (peer, bytes) ∷ rest) = (
  message peer bytes,
  record self { subs = replace_sub offset (record entry { queue = rest }) self.subs },
)

abbrev take_from : Shim → ℕ → Option Entry → Received × Shim
take_from self offset none = (waits, self)
take_from self offset (some entry) = take_item self offset entry entry.queue

-- A subscription that is missing is made first, so that one is found.
unfoldable pub recv : Library → Shim → Option Sub → Received × Shim
recv lib self wanted =
    let (offset, ready) = subscribe lib self (some (chosen_sub wanted)) none in
    take_from ready offset (find_sub offset ready.subs)

-- `send`, with what `connection.send` comes to: the count that it returns, or none if it raises.
-- The second part says whether the connection is called.
abbrev sent_count : Option ℕ → ℕ
sent_count none = 0
sent_count (some n) = n

pub send : Shim → Option ℕ → ℕ × Bool
send self outcome =
    if self.closed || not self.is_running then (0, false) else (sent_count outcome, true)

-- What `await self.connection.close()` comes to.
pub data Ending : Type 0 where
  ended failed cancelled : Ending

-- The pump is cancelled, and its last part sends the sentinel.
abbrev pub stop_pump : Shim → Shim
stop_pump self =
    if self.is_pumping then record (broadcast_close_sentinel self) { is_pumping = false } else self

-- `close_watcher`, once the connection is closed or the task is cancelled.
abbrev close_watcher : Shim → Shim
close_watcher self = record self { on_close = true; is_running = false; is_watched = false }

abbrev stop_watcher : Shim → Shim
stop_watcher self = if self.is_watched then close_watcher self else self

abbrev tear_down_with : Shim → Option ℕ → Shim
tear_down_with self none = self
tear_down_with self (some called) = record self {
  torn_down = self.torn_down ++ called ∷ [];
  firewall_teardown = none;
}

-- The end of both ways through `close`: readers are woken and the firewall is put back. What the
-- teardown raises is swallowed.
unfoldable pub finish_close : Shim → Shim
finish_close self =
    let woken = record (broadcast_close_sentinel self) { on_close = true } in
    tear_down_with woken woken.firewall_teardown

abbrev close_connection : Ending → Shim → Bool × Shim
close_connection cancelled self = (true, finish_close self)
close_connection ended self = (false, finish_close (stop_watcher self))
close_connection failed self = (false, finish_close (stop_watcher self))

-- `close`, and whether it raises `CancelledError`.
unfoldable pub close : Shim → Ending → Bool × Shim
close self ending =
    if self.closed
    then (false, self)
    else close_connection ending (stop_pump (record self { closed = true; is_running = false }))
