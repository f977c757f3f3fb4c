-- ===== src/Pcap/Shim/Feeding.antt =====
-- What the pump of a shim leaves in the queues of its subscriptions.
use aionetiface.Prelude.{ℕ, ◌≡◌, refl, ap, Bool, true, false, Option, none, some, append-nil, ◌∙◌}
use aionetiface.Prelude.{List, [], ◌∷◌, ◌++◌, append_assoc, if◌then◌else◌}
use aionetiface.Bytes.{Bytes}
use aionetiface.Pipe.Client.{Tup, Library}
use aionetiface.Pipe.Client.Queues.{last_items, do_add-last_items}
use aionetiface.Pcap.Shim.{Item, Entry, Table, Shim, Calls, max_queue, accepts, hand_over, offer}
use aionetiface.Pcap.Shim.{offer_all, dispatch, end_all, broadcast_close_sentinel, pump_rounds}
use aionetiface.Pcap.Shim.{pump_loop}

-- What comes before the end of the stream: before the first error or the first empty read.
abbrev pub arrived : List (Option Bytes) → List Bytes
arrived [] = []
arrived (none ∷ later) = []
arrived (some [] ∷ later) = []
arrived (some (b ∷ bytes) ∷ later) = (b ∷ bytes) ∷ arrived later

abbrev item_for : Option ℕ → Option Tup → Bytes → List Item
item_for none peer bytes = some (peer, bytes) ∷ []
item_for (some called) peer bytes = []

-- The items that a subscription is due, in the order of arrival.
abbrev due_one : Library → Option Tup → Entry → Bytes → List Item
due_one lib peer entry bytes =
    if accepts lib peer entry.sub bytes then item_for entry.handler peer bytes else []

abbrev pub due : Library → Option Tup → Entry → List Bytes → List Item
due lib peer entry [] = []
due lib peer entry (bytes ∷ later) = due_one lib peer entry bytes ++ due lib peer entry later

-- The logs of all that was put on the queues, and what queues of the given size show of them.
abbrev pub log_all : Library → Option Tup → List Bytes → Table → Table
log_all lib peer chunks [] = []
log_all lib peer chunks ((key, entry) ∷ rest) =
    (key, record entry { queue = entry.queue ++ due lib peer entry chunks })
    ∷ log_all lib peer chunks rest

abbrev pub log_end : Table → Table
log_end [] = []
log_end ((key, entry) ∷ rest) =
    (key, record entry { queue = entry.queue ++ none ∷ [] }) ∷ log_end rest

abbrev pub show_all : Table → Table
show_all [] = []
show_all ((key, entry) ∷ rest) =
    (key, record entry { queue = last_items max_queue entry.queue }) ∷ show_all rest

abbrev shown : Entry → Entry
shown entry = record entry { queue = last_items max_queue entry.queue }

hand_over-last_items :
    (entry : Entry) (peer : Option Tup) (bytes : Bytes) (handled : Option ℕ)
    → (hand_over (shown entry) peer bytes handled).0
      ≡ record entry { queue = last_items max_queue (entry.queue ++ item_for handled peer bytes) }
hand_over-last_items entry peer bytes none =
    rw (do_add-last_items max_queue (some (peer, bytes)) entry.queue)
hand_over-last_items entry peer bytes (some called) = rw (append-nil entry.queue)

offer-last_items :
    (lib : Library) (peer : Option Tup) (bytes : Bytes) (entry : Entry)
    → (offer lib peer bytes (shown entry)).0
      ≡ record entry { queue = last_items max_queue (entry.queue ++ due_one lib peer entry bytes) }
unfolding offer
offer-last_items lib peer bytes entry =
    elim (accepts lib peer entry.sub bytes)
      as (λ wanted.
        (if wanted then hand_over (shown entry) peer bytes entry.handler else (shown entry, [])).0
        ≡ record entry {
          queue =
              last_items max_queue
                (entry.queue ++ (if wanted then item_for entry.handler peer bytes else []));
        }) [
          | true ↦ hand_over-last_items entry peer bytes entry.handler
          | false ↦ rw (append-nil entry.queue)
        ]

offer_all-show_all :
    (lib : Library) (peer : Option Tup) (bytes : Bytes) (logs : Table)
    → (offer_all lib peer bytes (show_all logs)).0 ≡ show_all (log_all lib peer (bytes ∷ []) logs)
unfolding offer_all
offer_all-show_all lib peer bytes [] = refl
offer_all-show_all lib peer bytes ((key, entry) ∷ logs) = rw (
  offer-last_items lib peer bytes entry,
  offer_all-show_all lib peer bytes logs,
  append-nil (due_one lib peer entry bytes),
)

log_all-cons :
    (lib : Library) (peer : Option Tup) (bytes : Bytes) (later : List Bytes) (logs : Table)
    → log_all lib peer later (log_all lib peer (bytes ∷ []) logs)
      ≡ log_all lib peer (bytes ∷ later) logs
log_all-cons lib peer bytes later [] = refl
log_all-cons lib peer bytes later ((key, entry) ∷ logs) =
    let one = due_one lib peer entry bytes in
    rw (
      append-nil one,
      append_assoc entry.queue one (due lib peer entry later),
      log_all-cons lib peer bytes later logs,
    )

log_all-nil : (lib : Library) (peer : Option Tup) (logs : Table) → log_all lib peer [] logs ≡ logs
log_all-nil lib peer [] = refl
log_all-nil lib peer ((key, entry) ∷ logs) = rw (append-nil entry.queue, log_all-nil lib peer logs)

pub end_all-show_all : (logs : Table) → end_all (show_all logs) ≡ show_all (log_end logs)
end_all-show_all [] = refl
end_all-show_all ((key, entry) ∷ logs) =
    rw (do_add-last_items max_queue none entry.queue, end_all-show_all logs)

passed :
    (test : Bool) (stop go : Shim × Calls) → test ≡ false → (if test then stop else go).0 ≡ go.0
passed test stop go h = rw h

pump_rounds-show_all :
    (lib : Library) (self : Shim) (received : List (Option Bytes)) (logs : Table)
    → self.closed ≡ false
    → (pump_rounds lib (record self { subs = show_all logs }) received).0
      ≡ record self { subs = show_all (log_all lib self.client_tup (arrived received) logs) }
unfolding pump_rounds dispatch
pump_rounds-show_all lib self [] logs h = rw (log_all-nil lib self.client_tup logs)
pump_rounds-show_all lib self (none ∷ later) logs h = rw (log_all-nil lib self.client_tup logs)
pump_rounds-show_all lib self (some [] ∷ later) logs h = rw (log_all-nil lib self.client_tup logs)
pump_rounds-show_all lib self (some (b ∷ bytes) ∷ later) logs h =
    let peer = self.client_tup in
    let once = log_all lib peer ((b ∷ bytes) ∷ []) logs in
    let fed : Shim = record self { subs = (offer_all lib peer (b ∷ bytes) (show_all logs)).0 } in
    let (done, more) = pump_rounds lib fed later in
    let (given, calls) = offer_all lib peer (b ∷ bytes) (show_all logs) in
    passed self.closed (record self { subs = show_all logs }, []) (done, calls ++ more) h
    ∙ ap (λ (subs : Table). (pump_rounds lib (record self { subs = subs }) later).0)
        (offer_all-show_all lib peer (b ∷ bytes) logs)
    ∙ pump_rounds-show_all lib self later once h
    ∙ ap (λ (subs : Table). record self { subs = show_all subs })
        (log_all-cons lib peer (b ∷ bytes) (arrived later) logs)

-- Whatever the connection's `recv` gives, the pump leaves in each queue the last 100 items of a
-- log that has grown by the chunks that the subscription accepts, whole and in order, unless a
-- handler has them, and by the sentinel at the end: no chunk is lost while there is room, and a
-- reader that waits is always woken. The shim has not been closed before.
pub pump_loop-show_all :
    (lib : Library) (self : Shim) (received : List (Option Bytes)) (logs : Table)
    → self.closed ≡ false
    → (pump_loop lib (record self { subs = show_all logs }) received).0 ≡ record self {
      subs = show_all (log_end (log_all lib self.client_tup (arrived received) logs));
      is_pumping = false;
    }
unfolding pump_loop broadcast_close_sentinel
pump_loop-show_all lib self received logs h = rw (
  pump_rounds-show_all lib self received logs h,
  end_all-show_all (log_all lib self.client_tup (arrived received) logs),
)
