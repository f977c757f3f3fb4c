-- ===== src/Pipe/Client/Queues.antt =====
-- What the queues of a pipe's subscriptions hold after any number of messages.
use aionetiface.Prelude.{ℕ, zero, suc, ◌+◌, ◌-◌, ◌≤◌, ◌≡◌, refl, ◌∙◌, arith, Option, none, some}
use aionetiface.Prelude.{
  List, [], ◌∷◌, ◌++◌, length, drop, ltb-eq_true, if◌then◌else◌, ◌⊎◌, inl, inr,
}
use aionetiface.Prelude.{true, false, append_assoc, append-nil}
use aionetiface.Prelude.{length-append, length-drop, drop-add, leb-eq_true, leb-eq_false}
use aionetiface.Bytes.{Bytes}
use aionetiface.Pipe.Client.{Library, hand_over, Tup, Item, Entry, PipeClient, do_add, accepts}
use aionetiface.Pipe.Client.{offer, offer_all, add_msg, client_tup_norm}

-- The abstract queue: of all the items that were ever put, the last `limit`, or all of them when
-- the limit is 0.
abbrev pub last_items {ℓ} : {A : Type ℓ} → ℕ → List A → List A
last_items zero items = items
last_items (suc n) items = drop (length items - suc n) items

drop-append_within {ℓ} :
    {A : Type ℓ} (n : ℕ) (xs ys : List A) → n ≤ length xs → drop n (xs ++ ys) ≡ drop n xs ++ ys
drop-append_within zero xs ys h = refl
drop-append_within (suc n) [] ys h = absurd (omega arith)
drop-append_within (suc n) (x ∷ xs) ys h = drop-append_within n xs ys (omega arith)

-- Putting one more item on the abstract queue is `do_add`.
put_full {ℓ} :
    {A : Type ℓ} (n : ℕ) (item : A) (items : List A)
    → suc n ≤ length items
    → do_add (suc n) item (drop (length items - suc n) items)
      ≡ drop (length (items ++ item ∷ []) - suc n) (items ++ item ∷ [])
unfolding do_add
put_full n item items h =
    let cut = length items - suc n in
    let size = length-drop cut items in
    let one_more : length (items ++ item ∷ []) - suc n ≡ cut + 1 =
      omega (arith, length-append items (item ∷ [])) in
    rw (
      ltb-eq_true 0 (suc n) (omega arith),
      leb-eq_true (suc n) (length (drop cut items)) (omega (arith, size)),
      one_more,
      drop-append_within (cut + 1) items (item ∷ []) (omega arith),
      drop-add cut 1 items,
    )

put_spare {ℓ} :
    {A : Type ℓ} (n : ℕ) (item : A) (items : List A)
    → length items ≤ n
    → do_add (suc n) item (drop (length items - suc n) items)
      ≡ drop (length (items ++ item ∷ []) - suc n) (items ++ item ∷ [])
unfolding do_add
put_spare n item items h =
    let none_cut : length items - suc n ≡ 0 = omega arith in
    let none_more : length (items ++ item ∷ []) - suc n ≡ 0 =
      omega (arith, length-append items (item ∷ [])) in
    rw (
      none_cut,
      none_more,
      ltb-eq_true 0 (suc n) (omega arith),
      leb-eq_false (suc n) (length items) (omega arith),
    )

within_or_over : (n size : ℕ) → (suc n ≤ size) ⊎ (size ≤ n)
within_or_over n size = omega arith

pub do_add-last_items {ℓ} :
    {A : Type ℓ} (limit : ℕ) (item : A) (items : List A)
    → do_add limit item (last_items limit items) ≡ last_items limit (items ++ item ∷ [])
unfolding do_add
do_add-last_items zero item items = refl
do_add-last_items (suc n) item items = elim (within_or_over n (length items)) [
  | inl full ↦ put_full n item items full
  | inr spare ↦ put_spare n item items spare
]

-- The items that a subscription is due, in the order of the messages: those that it accepts,
-- unless a handler has them.
abbrev item_for : Option ℕ → Tup → Bytes → List Item
item_for none tup bytes = some (tup, bytes) ∷ []
item_for (some called) tup bytes = []

abbrev due_one : Library → Entry → Tup → Bytes → List Item
due_one lib entry tup bytes =
    if accepts lib entry.sub tup bytes then item_for entry.handler tup bytes else []

abbrev pub due : Library → Entry → List (Tup × Bytes) → List Item
due lib entry [] = []
due lib entry ((tup, bytes) ∷ messages) =
    due_one lib entry (client_tup_norm lib tup) bytes ++ due lib entry messages

-- The abstract pipe, whose entries keep everything that they were ever due.
abbrev pub log_all : Library → List (Tup × Bytes) → List (ℕ × Entry) → List (ℕ × Entry)
log_all lib messages [] = []
log_all lib messages ((key, entry) ∷ rest) =
    (key, record entry { queue = entry.queue ++ due lib entry messages })
    ∷ log_all lib messages rest

-- What a pipe with this limit shows of it.
abbrev pub show_all : ℕ → List (ℕ × Entry) → List (ℕ × Entry)
show_all limit [] = []
show_all limit ((key, entry) ∷ rest) =
    (key, record entry { queue = last_items limit entry.queue }) ∷ show_all limit rest

-- The messages, one after the other.
abbrev pub add_all : Library → PipeClient → List (Tup × Bytes) → PipeClient
add_all lib self [] = self
add_all lib self ((tup, bytes) ∷ messages) = add_all lib (add_msg lib self bytes tup).0 messages

hand_over-last_items :
    (limit : ℕ) (entry : Entry) (tup : Tup) (bytes : Bytes) (handled : Option ℕ)
    → entry.handler ≡ handled
    → (hand_over limit (record entry { queue = last_items limit entry.queue }) tup bytes handled).0
      ≡ record entry { queue = last_items limit (entry.queue ++ item_for handled tup bytes) }
hand_over-last_items limit entry tup bytes none e =
    rw (do_add-last_items limit (some (tup, bytes)) entry.queue)
hand_over-last_items limit entry tup bytes (some called) e = rw (append-nil entry.queue)

offer-last_items :
    (lib : Library) (limit : ℕ) (tup : Tup) (bytes : Bytes) (entry : Entry)
    → (offer lib limit tup bytes (record entry { queue = last_items limit entry.queue })).0
      ≡ record entry { queue = last_items limit (entry.queue ++ due_one lib entry tup bytes) }
unfolding offer
offer-last_items lib limit tup bytes entry =
    elim (accepts lib entry.sub tup bytes)
      as (λ wanted.
        (if wanted
          then hand_over limit (record entry { queue = last_items limit entry.queue }) tup bytes
              entry.handler
          else (record entry { queue = last_items limit entry.queue }, [])).0
        ≡ record entry {
          queue =
              last_items limit
                (entry.queue ++ (if wanted then item_for entry.handler tup bytes else []));
        }) [
          | true ↦ hand_over-last_items limit entry tup bytes entry.handler refl
          | false ↦ rw (append-nil entry.queue)
        ]

offer_all-show_all :
    (lib : Library) (limit : ℕ) (tup : Tup) (bytes : Bytes) (logs : List (ℕ × Entry))
    → (offer_all lib limit (client_tup_norm lib tup) bytes (show_all limit logs)).0
      ≡ show_all limit (log_all lib ((tup, bytes) ∷ []) logs)
unfolding offer_all
offer_all-show_all lib limit tup bytes [] = refl
offer_all-show_all lib limit tup bytes ((key, entry) ∷ logs) = rw (
  offer-last_items lib limit (client_tup_norm lib tup) bytes entry,
  offer_all-show_all lib limit tup bytes logs,
  append-nil (due_one lib entry (client_tup_norm lib tup) bytes),
)

log_all-cons :
    (lib : Library) (tup : Tup) (bytes : Bytes) (messages : List (Tup × Bytes))
    (logs : List (ℕ × Entry))
    → log_all lib messages (log_all lib ((tup, bytes) ∷ []) logs)
      ≡ log_all lib ((tup, bytes) ∷ messages) logs
log_all-cons lib tup bytes messages [] = refl
log_all-cons lib tup bytes messages ((key, entry) ∷ logs) =
    let one = due_one lib entry (client_tup_norm lib tup) bytes in
    rw (
      append-nil one,
      append_assoc entry.queue one (due lib entry messages),
      log_all-cons lib tup bytes messages logs,
    )

log_all-nil : (lib : Library) (logs : List (ℕ × Entry)) → log_all lib [] logs ≡ logs
log_all-nil lib [] = refl
log_all-nil lib ((key, entry) ∷ logs) = rw (append-nil entry.queue, log_all-nil lib logs)

-- A pipe whose queues are the last items of logs stays one, whatever messages arrive: the logs
-- grow by what each subscription accepts, no message reaches a queue twice or out of order, the
-- subscriptions do not disturb each other, and only the oldest items are lost.
pub add_all-show_all :
    (lib : Library) (limit : ℕ) (messages : List (Tup × Bytes)) (logs : List (ℕ × Entry))
    → add_all lib (record { max_qsize = limit; subs = show_all limit logs }) messages
      ≡ record { max_qsize = limit; subs = show_all limit (log_all lib messages logs) }
unfolding add_msg
add_all-show_all lib limit [] logs = rw (log_all-nil lib logs)
add_all-show_all lib limit ((tup, bytes) ∷ messages) logs =
    rw (offer_all-show_all lib limit tup bytes logs) (
      add_all-show_all lib limit messages (log_all lib ((tup, bytes) ∷ []) logs)
      ∙ rw (log_all-cons lib tup bytes messages logs))
