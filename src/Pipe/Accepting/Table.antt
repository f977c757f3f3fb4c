-- ===== src/Pipe/Accepting/Table.antt =====
-- The table of futures after a number of clients have arrived.
use aionetiface.Prelude.{ℕ, zero, suc, ◌+◌, ◌≤◌, ◌<◌, ◌≡◌, refl, ap, ◌∙◌, arith, Option, none, some}
use aionetiface.Prelude.{List, [], ◌∷◌, ◌++◌, length, get_elem?, ==-eq_false}
use aionetiface.Prelude.{==_refl}
use aionetiface.Pipe.Accepting.{Slot, waiting, done, find_slot, put_slot}
use aionetiface.Pipe.Accepting.{drop_done, remove_slot}

-- The table after the clients of a list have arrived, from its entry `i` on.
abbrev pub table_of : ℕ → List ℕ → List (ℕ × Slot)
table_of i [] = (i, waiting) ∷ []
table_of i (accepted ∷ log) = (i, done accepted) ∷ table_of (suc i) log

-- The entry of the table at a distance from its start.
abbrev slot_at : List ℕ → ℕ → Option Slot
slot_at [] zero = some waiting
slot_at [] (suc k) = none
slot_at (accepted ∷ log) zero = some (done accepted)
slot_at (accepted ∷ log) (suc k) = slot_at log k

pub find_slot-table_of :
    (i k key : ℕ) (log : List ℕ) → key ≡ i + k → find_slot key (table_of i log) ≡ slot_at log k
find_slot-table_of i zero key [] h = ground arith
find_slot-table_of i zero key (accepted ∷ log) h = ground arith
find_slot-table_of i (suc k) key [] h = ground arith
find_slot-table_of i (suc k) key (accepted ∷ log) h =
    ground (arith, find_slot-table_of (suc i) k key log (omega arith))

-- The two changes that an arrival makes to the table.
pub grown_table :
    (i next : ℕ) (log : List ℕ)
    → next ≡ suc (i + length log)
    → put_slot next waiting (table_of i log) ≡ table_of i log ++ (next, waiting) ∷ []
grown_table i next [] h = ground arith
grown_table i next (accepted ∷ log) h =
    rw (==-eq_false i next (omega arith), grown_table (suc i) next log (omega arith))

pub resolved_table :
    (i key next newest : ℕ) (log : List ℕ)
    → key ≡ i + length log
    → next ≡ suc key
    → put_slot key (done newest) (table_of i log ++ (next, waiting) ∷ [])
      ≡ table_of i (log ++ newest ∷ [])
resolved_table i key next newest [] h k = let e : key ≡ i = omega arith in rw (k, e, ==_refl i)
resolved_table i key next newest (accepted ∷ log) h k =
    rw (==-eq_false i key (omega arith), resolved_table (suc i) key next newest log (omega arith) k)

pub find_slot-grown :
    (i key next : ℕ) (log : List ℕ)
    → key ≡ i + length log
    → find_slot key (table_of i log ++ (next, waiting) ∷ []) ≡ some waiting
find_slot-grown i key next [] h = ground arith
find_slot-grown i key next (accepted ∷ log) h =
    ground (arith, find_slot-grown (suc i) key next log (omega arith))

abbrev pub slot_of : Option ℕ → Slot
slot_of (some found) = done found
slot_of none = waiting

pub slot_at-get_elem? :
    (log : List ℕ) (k : ℕ) → k ≤ length log → slot_at log k ≡ some (slot_of (get_elem? log k))
slot_at-get_elem? [] zero h = refl
slot_at-get_elem? [] (suc k) h = absurd (omega arith)
slot_at-get_elem? (accepted ∷ log) zero h = refl
slot_at-get_elem? (accepted ∷ log) (suc k) h = slot_at-get_elem? log k (omega arith)

pub get_elem?-lt : (log : List ℕ) (k found : ℕ) → get_elem? log k ≡ some found → k < length log
get_elem?-lt [] k found h = absurd (cc)
get_elem?-lt (accepted ∷ log) zero found h = omega arith
get_elem?-lt (accepted ∷ log) (suc k) found h = omega (arith, get_elem?-lt log k found h)

pub get_elem?-none : (log : List ℕ) (k : ℕ) → get_elem? log k ≡ none → length log ≤ k
get_elem?-none [] k h = omega arith
get_elem?-none (accepted ∷ log) zero h = absurd (cc)
get_elem?-none (accepted ∷ log) (suc k) h = omega (arith, get_elem?-none log k h)

early_slot : (i key : ℕ) (log : List ℕ) → key < i → find_slot key (table_of i log) ≡ none
early_slot i key [] h = ground arith
early_slot i key (accepted ∷ log) h = ground (arith, early_slot (suc i) key log (omega arith))

pub lost_slot :
    (i k key : ℕ) (log : List ℕ)
    → key ≡ i + k
    → k < length log
    → find_slot key (remove_slot key (table_of i log)) ≡ none
lost_slot i k key [] h below = absurd (omega arith)
lost_slot i zero key (accepted ∷ log) h below =
    let same : i ≡ key = omega arith in
    rw (same, ==_refl key) (early_slot (suc key) key log (omega arith))
lost_slot i (suc k) key (accepted ∷ log) h below =
    let other = ==-eq_false i key (omega arith) in
    rw (other, other, lost_slot (suc i) k key log (omega arith) (omega arith))

pub drop_done-table_of :
    (log : List ℕ) (key lost : ℕ)
    → get_elem? log key ≡ some lost
    → drop_done key (table_of 0 log) (find_slot key (table_of 0 log))
      ≡ remove_slot key (table_of 0 log)
drop_done-table_of log key lost h =
    let below = get_elem?-lt log key lost h in
    let found = find_slot-table_of 0 key key log (omega arith) in
    ap (drop_done key (table_of 0 log))
      (found ∙ slot_at-get_elem? log key (omega arith) ∙ ap (λ (o : Option ℕ). some (slot_of o)) h)
