-- ===== src/Pcap/Shim/Reading.antt =====
-- `recv_n` of the class `PipeShim`, and what a reader of everything gets after the pump.
use aionetiface.Prelude.{ℕ, zero, suc, ◌-◌, ◌≤◌, ◌<◌, ◌≡◌, refl, sym, ap, ◌∙◌, arith, Bool}
use aionetiface.Prelude.{true, false, Option, none, some, List, [], ◌∷◌, ◌++◌, length, drop}
use aionetiface.Prelude.{leb, ◌==◌, length-append, if_cases, if_both, if◌then◌else◌}
use aionetiface.Bytes.{Bytes}
use aionetiface.Pipe.Client.{Tup, Sub, Library}
use aionetiface.Pipe.Client.Queues.{last_items}
use aionetiface.Pcap.Shim.{Item, Entry, Table, Shim, Received, waits, closed, message, recv}
use aionetiface.Pcap.Shim.{subscribe, sub_all, chosen_sub, hash_sub, find_sub, replace_sub}
use aionetiface.Pcap.Shim.{add_sub, take_from, take_item, pump_loop, max_queue}
use aionetiface.Pcap.Shim.Feeding.{arrived, due, log_all, log_end, show_all, pump_loop-show_all}

-- A round of the loop: a wait in which nothing comes ends it, like the sentinel.
abbrev read_on : Bytes → (Shim → Bytes → Bytes × Shim) → Received × Shim → Bytes × Shim
read_on buf more (waits, next) = (buf, next)
read_on buf more (closed, next) = (buf, next)
read_on buf more (message peer bytes, next) = more next (buf ++ bytes)

unfoldable pub recv_rounds : Library → Shim → Option Sub → ℕ → Bytes → ℕ → Bytes × Shim
recv_rounds lib self wanted n buf zero = (buf, self)
recv_rounds lib self wanted n buf (suc rounds) =
    let more : Shim → Bytes → Bytes × Shim =
      λ next grown. recv_rounds lib next wanted n grown rounds in
    if leb n (length buf) then (buf, self) else read_on buf more (recv lib self wanted)

abbrev waiting_items : Option Entry → ℕ
waiting_items none = 0
waiting_items (some entry) = length entry.queue

-- Each round but the last takes an item.
unfoldable pub recv_n : Library → Shim → ℕ → Option Sub → Bytes × Shim
recv_n lib self n wanted =
    let offset = hash_sub lib (chosen_sub wanted) in
    recv_rounds lib self wanted n [] (suc (waiting_items (find_sub offset self.subs)))

-- What the loop makes of a queue, and of chunks.
abbrev gather : ℕ → Bytes → List Item → Bytes
gather n buf [] = buf
gather n buf (none ∷ queue) = buf
gather n buf (some (peer, bytes) ∷ queue) =
    if leb n (length buf) then buf else gather n (buf ++ bytes) queue

-- The shortest run of leading chunks that has `n` bytes, or all of them.
abbrev pub gather_chunks : ℕ → Bytes → List Bytes → Bytes
gather_chunks n buf [] = buf
gather_chunks n buf (bytes ∷ chunks) =
    if leb n (length buf) then buf else gather_chunks n (buf ++ bytes) chunks

-- `recv` on a subscription that is there.
recv-take_item :
    (lib : Library) (self : Shim) (wanted : Option Sub) (entry : Entry)
    → find_sub (hash_sub lib (chosen_sub wanted)) self.subs ≡ some entry
    → recv lib self wanted ≡ take_item self (hash_sub lib (chosen_sub wanted)) entry entry.queue
unfolding recv subscribe
recv-take_item lib self wanted entry found =
    let offset = hash_sub lib (chosen_sub wanted) in
    let fresh : Entry = record { sub = chosen_sub wanted; queue = []; handler = none } in
    ap (λ (subs : Table). take_from (record self { subs = subs }) offset (find_sub offset subs))
      (ap (λ (known : Option Entry). add_sub known offset fresh self.subs) found)
    ∙ ap (take_from self offset) found

find_sub-replace_sub :
    (offset : ℕ) (changed entry : Entry) (subs : Table)
    → find_sub offset subs ≡ some entry
    → find_sub offset (replace_sub offset changed subs) ≡ some changed
find_sub-replace_sub offset changed entry [] found = absurd (cc)
find_sub-replace_sub offset changed entry ((key, known) ∷ subs) found =
    if_cases (λ (replaced : Table). find_sub offset replaced ≡ some changed) (key == offset)
      (λ same. rw same refl)
      (λ other.
        let deeper : find_sub offset subs ≡ some entry =
          sym (ap (λ (test : Bool). if test then some known else find_sub offset subs) other)
          ∙ found in
        rw (other, find_sub-replace_sub offset changed entry subs deeper))

-- The first item of a queue, and the state without it.
recv-first :
    (lib : Library) (self : Shim) (wanted : Option Sub) (entry : Entry) (queue : List Item)
    → find_sub (hash_sub lib (chosen_sub wanted)) self.subs ≡ some entry
    → entry.queue ≡ queue
    → recv lib self wanted ≡ take_item self (hash_sub lib (chosen_sub wanted)) entry queue
recv-first lib self wanted entry queue found same =
    recv-take_item lib self wanted entry found
    ∙ ap (take_item self (hash_sub lib (chosen_sub wanted)) entry) same

recv_rounds-gather :
    (lib : Library) (self : Shim) (wanted : Option Sub) (n : ℕ) (buf : Bytes) (rounds : ℕ)
    (entry : Entry) (queue : List Item)
    → find_sub (hash_sub lib (chosen_sub wanted)) self.subs ≡ some entry
    → entry.queue ≡ queue
    → length queue < rounds
    → (recv_rounds lib self wanted n buf rounds).0 ≡ gather n buf queue
unfolding recv_rounds
recv_rounds-gather lib self wanted n buf zero entry queue found same h = absurd (omega arith)
recv_rounds-gather lib self wanted n buf (suc rounds) entry [] found same h =
    rw (recv-first lib self wanted entry [] found same)
      (if_both (λ (done : Bytes × Shim). done.0 ≡ buf) (leb n (length buf)) refl refl)
recv_rounds-gather lib self wanted n buf (suc rounds) entry (none ∷ queue) found same h =
    rw (recv-first lib self wanted entry (none ∷ queue) found same)
      (if_both (λ (done : Bytes × Shim). done.0 ≡ buf) (leb n (length buf)) refl refl)
recv_rounds-gather lib self wanted n buf (suc rounds) entry (some (peer, bytes) ∷ queue) found same
      h =
    let offset = hash_sub lib (chosen_sub wanted) in
    let taken : Entry = record entry { queue = queue } in
    let next : Shim = record self { subs = replace_sub offset taken self.subs } in
    let kept = find_sub-replace_sub offset taken entry self.subs found in
    let later =
      recv_rounds-gather lib next wanted n (buf ++ bytes) rounds taken queue kept refl
        (omega arith) in
    rw (recv-first lib self wanted entry (some (peer, bytes) ∷ queue) found same)
      (elim (leb n (length buf))
        as (λ test.
          (if test then (buf, self) else recv_rounds lib next wanted n (buf ++ bytes) rounds).0
          ≡ (if test then buf else gather n (buf ++ bytes) queue)) [ true ↦ refl | false ↦ later ])

recv_n-gather :
    (lib : Library) (self : Shim) (n : ℕ) (wanted : Option Sub) (entry : Entry)
    → find_sub (hash_sub lib (chosen_sub wanted)) self.subs ≡ some entry
    → (recv_n lib self n wanted).0 ≡ gather n [] entry.queue
unfolding recv_n
recv_n-gather lib self n wanted entry found =
    ap (λ (known : Option Entry). (recv_rounds lib self wanted n [] (suc (waiting_items known))).0)
      found
    ∙ recv_rounds-gather lib self wanted n [] (suc (length entry.queue)) entry entry.queue found
        refl (omega arith)

-- What the pump has made of an entry.
abbrev pumped : Library → Option Tup → List Bytes → Entry → Entry
pumped lib peer chunks entry = record entry {
  queue = last_items max_queue ((entry.queue ++ due lib peer entry chunks) ++ none ∷ []);
}

picked :
    (test : Bool) (first entry : Entry) (rest changed : Option Entry) (change : Entry → Entry)
    → (rest ≡ some entry → changed ≡ some (change entry))
    → (if test then some first else rest) ≡ some entry
    → (if test then some (change first) else changed) ≡ some (change entry)
picked true first entry rest changed change deeper h = ap (λ (e : Entry). some (change e)) (cc)
picked false first entry rest changed change deeper h = deeper h

find_sub-pumped :
    (lib : Library) (peer : Option Tup) (chunks : List Bytes) (offset : ℕ) (entry : Entry)
    (logs : Table)
    → find_sub offset logs ≡ some entry
    → find_sub offset (show_all (log_end (log_all lib peer chunks logs)))
      ≡ some (pumped lib peer chunks entry)
find_sub-pumped lib peer chunks offset entry [] found = absurd (cc)
find_sub-pumped lib peer chunks offset entry ((key, known) ∷ logs) found =
    picked (key == offset) known entry (find_sub offset logs)
      (find_sub offset (show_all (log_end (log_all lib peer chunks logs)))) (pumped lib peer chunks)
      (find_sub-pumped lib peer chunks offset entry logs) found

-- The items of a subscription to everything.
abbrev items_of : Option Tup → List Bytes → List Item
items_of peer [] = []
items_of peer (bytes ∷ chunks) = some (peer, bytes) ∷ items_of peer chunks

length-items_of :
    (peer : Option Tup) (chunks : List Bytes) → length (items_of peer chunks) ≡ length chunks
length-items_of peer [] = refl
length-items_of peer (bytes ∷ chunks) = ap suc (length-items_of peer chunks)

-- A subscription to everything without a handler, before the first chunk.
abbrev pub reader : Entry
reader = record { sub = sub_all; queue = []; handler = none }

due-reader :
    (lib : Library) (peer : Option Tup) (chunks : List Bytes)
    → due lib peer reader chunks ≡ items_of peer chunks
due-reader lib peer [] = refl
due-reader lib peer (bytes ∷ chunks) = rw (due-reader lib peer chunks)

gather-items_of :
    (n : ℕ) (buf : Bytes) (peer : Option Tup) (chunks : List Bytes)
    → gather n buf (items_of peer chunks ++ none ∷ []) ≡ gather_chunks n buf chunks
gather-items_of n buf peer [] = refl
gather-items_of n buf peer (bytes ∷ chunks) =
    ap (λ (rest : Bytes). if leb n (length buf) then buf else rest)
      (gather-items_of n (buf ++ bytes) peer chunks)

last_items_short :
    (items : List Item) → length items ≤ max_queue → last_items max_queue items ≡ items
last_items_short items h =
    let none_cut : length items - 100 ≡ 0 = omega arith in ap (λ (k : ℕ). drop k items) none_cut

-- A reader of everything who calls `recv_n` once the pump has ended gets the shortest run of the
-- chunks that arrived which has the wanted number of bytes, or all of them: the bytes of the
-- connection, in order and with none left out. The shim was open, the reader's queue was empty,
-- and fewer than 100 chunks arrived.
pub recv_n-pump_loop :
    (lib : Library) (self : Shim) (received : List (Option Bytes)) (logs : Table) (n : ℕ)
    → self.closed ≡ false
    → find_sub (hash_sub lib sub_all) logs ≡ some reader
    → length (arrived received) < 100
    → (recv_n lib (pump_loop lib (record self { subs = show_all logs }) received).0 n none).0
      ≡ gather_chunks n [] (arrived received)
recv_n-pump_loop lib self received logs n live found few =
    let chunks = arrived received in
    let peer = self.client_tup in
    let items = items_of peer chunks ++ none ∷ [] in
    let size : length items ≤ max_queue =
      omega
        (arith, length-items_of peer chunks, length-append (items_of peer chunks) (none ∷ [])) in
    let queue : (pumped lib peer chunks reader).queue ≡ items =
      ap (λ (due_items : List Item). last_items max_queue (due_items ++ none ∷ []))
        (due-reader lib peer chunks)
      ∙ last_items_short items size in
    let after : Shim = record self {
      subs = show_all (log_end (log_all lib peer chunks logs));
      is_pumping = false;
    } in
    ap (λ (done : Shim). (recv_n lib done n none).0)
      (pump_loop-show_all lib self received logs live)
    ∙ recv_n-gather lib after n none (pumped lib peer chunks reader)
        (find_sub-pumped lib peer chunks (hash_sub lib sub_all) reader logs found)
    ∙ ap (gather n []) queue
    ∙ gather-items_of n [] peer chunks
