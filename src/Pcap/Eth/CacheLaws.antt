-- ===== src/Pcap/Eth/CacheLaws.antt =====
-- What the ARP cache gives back.
use aionetiface.Prelude.{
  ℕ, ◌+◌, ◌≤◌, ◌<◌, ◌≡◌, refl, ap, ◌∙◌, Bool, true, false, Option, none, some, List, [], ◌∷◌,
}
use aionetiface.Prelude.{ltb, ltb-eq_false, ltb-eq_true, if_cases, if◌then◌else◌}
use aionetiface.Bytes.{Bytes}
use aionetiface.Pcap.Eth.Cache.{ArpCache, unexpired, find, remove, put, get}
use Prim.Native.String.{String}
use text.Mathlib.Text.{◌==◌ as str_eq}
use text.Mathlib.TextPositions.{eq_refl}
use text.Mathlib.TextEquality.{eq_iff}
use mathlib.Core.Path.{subst}

find-remove_self :
    (ip : String) (table : List (String × Bytes × ℕ)) → find ip (remove ip table) ≡ none
unfolding find remove
find-remove_self ip [] = refl
find-remove_self ip ((key, mac, expiry) ∷ rest) =
    let kept = find-remove_self ip rest in
    if_cases (λ r. find ip r ≡ none) (str_eq ip key) (λ same. kept) (λ differs. rw differs kept)

find-remove_other :
    (ip other : String) (table : List (String × Bytes × ℕ))
    → str_eq other ip ≡ false
    → find other (remove ip table) ≡ find other table
unfolding find remove
find-remove_other ip other [] h = refl
find-remove_other ip other ((key, mac, expiry) ∷ rest) h =
    let kept = find-remove_other ip other rest h in
    if_cases (λ r. find other r ≡ find other ((key, mac, expiry) ∷ rest)) (str_eq ip key)
      (λ same.
        let here : ip ≡ key = (eq_iff ip key).0 same in
        let away : str_eq other key ≡ false = subst (λ k. str_eq other k ≡ false) here h in
        rw (away, kept) refl)
      (λ differs. rw kept refl)

found_put :
    (cache : ArpCache) (now : ℕ) (ip : String) (mac : Bytes)
    → find ip (put cache now ip mac).table ≡ some (mac, now + cache.ttl)
unfolding find put
found_put cache now ip mac = rw (eq_refl ip) refl

pub get_fresh :
    (cache : ArpCache) (now expiry : ℕ) (ip : String) (mac : Bytes)
    → find ip cache.table ≡ some (mac, expiry)
    → now ≤ expiry
    → get cache now ip ≡ (some mac, cache)
unfolding get
get_fresh cache now expiry ip mac e fresh =
    ap (unexpired cache now ip) e ∙ rw (ltb-eq_false expiry now fresh) refl

get_stale :
    (cache : ArpCache) (now expiry : ℕ) (ip : String) (mac : Bytes)
    → find ip cache.table ≡ some (mac, expiry)
    → expiry < now
    → get cache now ip ≡ (none, record cache { table = remove ip cache.table })
unfolding get
get_stale cache now expiry ip mac e late =
    ap (unexpired cache now ip) e ∙ rw (ltb-eq_true expiry now late) refl

-- Up to the end of its time, an entry that was put is what `get` gives.
pub get-put_fresh :
    (cache : ArpCache) (now later : ℕ) (ip : String) (mac : Bytes)
    → later ≤ now + cache.ttl
    → (get (put cache now ip mac) later ip).0 ≡ some mac
get-put_fresh cache now later ip mac fresh =
    ap (λ (r : Option Bytes × ArpCache). r.0)
      (get_fresh (put cache now ip mac) later (now + cache.ttl) ip mac (found_put cache now ip mac)
        fresh)

-- Past its time, `get` gives none for an entry that was put, and takes it out of the table.
get-put_expired :
    (cache : ArpCache) (now later : ℕ) (ip : String) (mac : Bytes)
    → now + cache.ttl < later
    → ((get (put cache now ip mac) later ip).0 ≡ none)
      × (find ip (get (put cache now ip mac) later ip).1.table ≡ none)
get-put_expired cache now later ip mac late =
    let written = put cache now ip mac in
    let gone = get_stale written later (now + cache.ttl) ip mac (found_put cache now ip mac) late in
    (
      ap (λ (r : Option Bytes × ArpCache). r.0) gone,
      ap (λ (r : Option Bytes × ArpCache). find ip r.1.table) gone
          ∙ find-remove_self ip written.table,
    )

-- An entry that was put is found up to the end of its time, and past it `get` gives none and
-- takes the entry out of the table.
pub get-put :
    (cache : ArpCache) (now soon late : ℕ) (ip : String) (mac : Bytes)
    → soon ≤ now + cache.ttl
    → now + cache.ttl < late
    → ((get (put cache now ip mac) soon ip).0 ≡ some mac)
      × ((get (put cache now ip mac) late ip).0 ≡ none)
      × (find ip (get (put cache now ip mac) late ip).1.table ≡ none)
get-put cache now soon late ip mac fresh stale =
    let (answer, gone) = get-put_expired cache now late ip mac stale in
    (get-put_fresh cache now soon ip mac fresh, answer, gone)

unexpired_answer :
    (one two : ArpCache) (now : ℕ) (ip : String) (found : Option (Bytes × ℕ))
    → (unexpired one now ip found).0 ≡ (unexpired two now ip found).0
unexpired_answer one two now ip none = refl
unexpired_answer one two now ip (some (mac, expiry)) =
    let branch : Bool → ArpCache → Option Bytes × ArpCache =
      λ k c. if k then (none, record c { table = remove ip c.table }) else (some mac, c) in
    elim (ltb expiry now) as (λ k. (branch k one).0 ≡ (branch k two).0) [
      | true ↦ refl
      | false ↦ refl
    ]

find-put_other :
    (cache : ArpCache) (now : ℕ) (ip other : String) (mac : Bytes)
    → str_eq other ip ≡ false
    → find other (put cache now ip mac).table ≡ find other cache.table
unfolding find put
find-put_other cache now ip other mac h = rw h (find-remove_other ip other cache.table h)

-- A `put` leaves what `get` gives for every other address as it was.
pub get-put_other :
    (cache : ArpCache) (now later : ℕ) (ip other : String) (mac : Bytes)
    → str_eq other ip ≡ false
    → (get (put cache now ip mac) later other).0 ≡ (get cache later other).0
unfolding get
get-put_other cache now later ip other mac h =
    let written = put cache now ip mac in
    ap (λ (e : Option (Bytes × ℕ)). (unexpired written later other e).0)
      (find-put_other cache now ip other mac h)
    ∙ unexpired_answer written cache later other (find other cache.table)
