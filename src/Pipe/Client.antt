-- ===== src/Pipe/Client.antt =====
-- The class `PipeClient` of aionetiface/net/pipe/pipe_client.py: subscriptions, each with a queue
-- of the messages that match it. Addresses are made canonical, patterns searched and hashes taken
-- by the standard library, which is the argument `lib`. The calls of handlers are values, in the
-- order in which the code makes them; a handler that changes the subscriptions is left out.
pub mod Queues
pub mod Subscribing
use Prim.Native.String.{String}
use text.Mathlib.Text.{◌==◌ as str_eq}
use aionetiface.Prelude.{
  ℕ, zero, suc, ◌+◌, ◌-◌, ◌≤◌, Bool, true, false, not, ◌&&◌, Option, none, some,
}
use aionetiface.Prelude.{List, [], ◌∷◌, ◌++◌, length, drop, leb, ltb, ◌==◌, if◌then◌else◌}
use aionetiface.Bytes.{Bytes}

-- `(ip, port)`
abbrev pub Tup : Type 0
Tup = String × ℕ

-- `[b_msg_pattern, b_addr_pattern]`
abbrev pub Sub : Type 0
Sub = Option Bytes × Option Tup

pub record Library : Type 0 where
  pub ip_norm : String → String
  pub finds : Bytes → Bytes → Bool
  pub hash_pattern : Option Bytes → ℕ
  pub hash_tup : Tup → ℕ

-- `[client_tup, data]`; a pipe that is closed puts `[None, None]`.
abbrev pub Item : Type 0
Item = Option (Tup × Bytes)

-- `[sub, asyncio.Queue(max_qsize), handler]`, where a handler is known by a number.
pub record Entry : Type 0 where
  pub sub : Sub
  pub queue : List Item
  pub handler : Option ℕ

-- `subs` is in the order of insertion. A limit of 0 is none.
pub record PipeClient : Type 0 where
  pub max_qsize : ℕ
  pub subs : List (ℕ × Entry)

abbrev pub sub_all : Sub
sub_all = (none, none)

abbrev pub hash_sub : Library → Sub → ℕ
hash_sub lib (pattern, none) = lib.hash_pattern pattern
hash_sub lib (pattern, some tup) = lib.hash_pattern pattern + lib.hash_tup tup

abbrev pub client_tup_norm : Library → Tup → Tup
client_tup_norm lib (ip, port) = (lib.ip_norm ip, port)

abbrev pub norm_sub : Library → Sub → Sub
norm_sub lib (pattern, none) = (pattern, none)
norm_sub lib (pattern, some tup) = (pattern, some (client_tup_norm lib tup))

abbrev pub find_sub : ℕ → List (ℕ × Entry) → Option Entry
find_sub offset [] = none
find_sub offset ((key, entry) ∷ rest) = if key == offset then some entry else find_sub offset rest

abbrev add_sub : Option Entry → ℕ → Entry → List (ℕ × Entry) → List (ℕ × Entry)
add_sub (some known) offset entry subs = subs
add_sub none offset entry subs = subs ++ (offset, entry) ∷ []

pub subscribe : Library → PipeClient → Sub → Option ℕ → ℕ × PipeClient
subscribe lib self wanted on_message =
    let chosen = norm_sub lib wanted in
    let offset = hash_sub lib chosen in
    let fresh : Entry = record { sub = chosen; queue = []; handler = on_message } in
    (offset, record self { subs = add_sub (find_sub offset self.subs) offset fresh self.subs })

abbrev remove_sub : ℕ → List (ℕ × Entry) → List (ℕ × Entry)
remove_sub offset [] = []
remove_sub offset ((key, entry) ∷ rest) =
    if key == offset then rest else (key, entry) ∷ remove_sub offset rest

pub unsubscribe : Library → PipeClient → Sub → PipeClient
unsubscribe lib self wanted = record self { subs = remove_sub (hash_sub lib wanted) self.subs }

-- `q.full()`
abbrev pub is_full {ℓ} : {A : Type ℓ} → ℕ → List A → Bool
is_full limit queue = ltb 0 limit && leb limit (length queue)

-- `do_add`: the oldest message makes room.
unfoldable pub do_add {ℓ} : {A : Type ℓ} → ℕ → A → List A → List A
do_add limit item queue = (if is_full limit queue then drop 1 queue else queue) ++ item ∷ []

abbrev pub from_host : Option Tup → Tup → Bool
from_host none tup = true
from_host (some (host, port)) (ip, number) =
    if ltb 0 port then (str_eq host ip && port == number) else str_eq host ip

abbrev pub has_pattern : Library → Option Bytes → Bytes → Bool
has_pattern lib none bytes = true
has_pattern lib (some []) bytes = true
has_pattern lib (some (b ∷ pattern)) bytes = lib.finds (b ∷ pattern) bytes

abbrev pub accepts : Library → Sub → Tup → Bytes → Bool
accepts lib (pattern, host) tup bytes = from_host host tup && has_pattern lib pattern bytes

-- A message for one entry: its new queue, and the call of its handler.
abbrev pub Calls : Type 0
Calls = List (ℕ × Tup × Bytes)

abbrev hand_over : ℕ → Entry → Tup → Bytes → Option ℕ → Entry × Calls
hand_over limit entry tup bytes (some called) = (entry, (called, tup, bytes) ∷ [])
hand_over limit entry tup bytes none =
    (record entry { queue = do_add limit (some (tup, bytes)) entry.queue }, [])

unfoldable pub offer : Library → ℕ → Tup → Bytes → Entry → Entry × Calls
offer lib limit tup bytes entry =
    if accepts lib entry.sub tup bytes
    then hand_over limit entry tup bytes entry.handler
    else (entry, [])

unfoldable pub offer_all : Library → ℕ → Tup → Bytes → List (ℕ × Entry) → List (ℕ × Entry) × Calls
offer_all lib limit tup bytes [] = ([], [])
offer_all lib limit tup bytes ((key, entry) ∷ rest) =
    let (changed, calls) = offer lib limit tup bytes entry in
    let (others, more) = offer_all lib limit tup bytes rest in
    ((key, changed) ∷ others, calls ++ more)

unfoldable pub add_msg : Library → PipeClient → Bytes → Tup → PipeClient × Calls
add_msg lib self bytes client_tup =
    let (changed, calls) =
      offer_all lib self.max_qsize (client_tup_norm lib client_tup) bytes self.subs in
    (record self { subs = changed }, calls)

-- What `recv` comes to at once: it raises, waits for a message, finds the pipe closed, or returns
-- one, which it also gives to the handler.
pub data Received : Type 0 where
  lookup_error waits closed : Received
  message : Tup → Bytes → Received

abbrev recv_calls : Option ℕ → Tup → Bytes → Calls
recv_calls none tup bytes = []
recv_calls (some called) tup bytes = (called, tup, bytes) ∷ []

abbrev replace_sub : ℕ → Entry → List (ℕ × Entry) → List (ℕ × Entry)
replace_sub offset changed [] = []
replace_sub offset changed ((key, entry) ∷ rest) =
    if key == offset then (key, changed) ∷ rest else (key, entry) ∷ replace_sub offset changed rest

-- `q.get()` on the queue of an entry.
abbrev take_item : PipeClient → ℕ → Entry → List Item → (Received × Calls) × PipeClient
take_item self offset entry [] = ((waits, []), self)
take_item self offset entry (none ∷ rest) = (
  (closed, []),
  record self { subs = replace_sub offset (record entry { queue = rest }) self.subs },
)
take_item self offset entry (some (tup, bytes) ∷ rest) = (
  (message tup bytes, recv_calls entry.handler tup bytes),
  record self { subs = replace_sub offset (record entry { queue = rest }) self.subs },
)

abbrev take_from : PipeClient → ℕ → Option Entry → (Received × Calls) × PipeClient
take_from self offset none = ((lookup_error, []), self)
take_from self offset (some entry) = take_item self offset entry entry.queue

unfoldable pub recv : Library → PipeClient → Sub → (Received × Calls) × PipeClient
recv lib self wanted =
    let offset = hash_sub lib (norm_sub lib wanted) in
    take_from self offset (find_sub offset self.subs)
