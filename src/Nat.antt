-- ===== src/Nat.antt =====
-- NAT descriptions and what two peers conclude from them: aionetiface/nic/nat/nat_defs.py and
-- nat_utils.py. The types of NATs and of deltas are the source's numbers.
pub mod Laws
pub mod Probing
pub mod Testing
pub mod Runs
use aionetiface.Prelude.{ℕ, ◌+◌, ◌-◌, Bool, true, false, not, ◌&&◌, ◌||◌, Option, none, some}
use aionetiface.Prelude.{List, [], ◌∷◌, length, leb, ltb, ◌==◌, if◌then◌else◌}
use aionetiface.Bytes.{Result, ok, err, ◌>>=◌, value_error}
use aionetiface.IpRange.{range_intersects}
use aionetiface.Utility.Ranges.{Range, in_range, intersect_range}

abbrev pub max_port : ℕ
max_port = 65535

abbrev pub stun_port : ℕ
stun_port = 3478

abbrev pub max_map_no : ℕ
max_map_no = 100

abbrev pub open_internet : ℕ
open_internet = 1

abbrev pub symmetric_udp_firewall : ℕ
symmetric_udp_firewall = 2

abbrev pub full_cone : ℕ
full_cone = 3

abbrev pub restrict_nat : ℕ
restrict_nat = 4

abbrev pub restrict_port_nat : ℕ
restrict_port_nat = 5

abbrev pub equal_delta : ℕ
equal_delta = 2

abbrev pub preserv_delta : ℕ
preserv_delta = 3

abbrev pub independent_delta : ℕ
independent_delta = 4

abbrev pub dependent_delta : ℕ
dependent_delta = 5

abbrev pub random_delta : ℕ
random_delta = 6

-- `n in [...]`
abbrev pub is_in : ℕ → List ℕ → Bool
is_in n [] = false
is_in n (m ∷ ms) = n == m || is_in n ms

abbrev pub easy_nats : List ℕ
easy_nats = open_internet ∷ full_cone ∷ []

abbrev pub predictable_nats : List ℕ
predictable_nats = full_cone ∷ restrict_nat ∷ restrict_port_nat ∷ open_internet ∷ []

pub record Delta : Type 0 where
  pub delta_type : ℕ
  pub value : ℕ

pub record Nat : Type 0 where
  pub nat_type : ℕ
  pub delta : Delta
  pub range : Range
  pub is_open : Bool
  pub can_predict : Bool
  pub is_hard : Bool
  pub is_concurrent : Bool

abbrev pub delta_info : ℕ → ℕ → Delta
delta_info kind amount = record { delta_type = kind; value = amount }

abbrev pub f_is_open : ℕ → Delta → Bool
f_is_open n d = is_in n (open_internet ∷ symmetric_udp_firewall ∷ [])

abbrev pub f_can_predict : ℕ → Delta → Bool
f_can_predict n d = is_in n predictable_nats

abbrev pub f_is_hard : ℕ → Delta → Bool
f_is_hard n d =
    not (is_in n easy_nats) && not (is_in d.delta_type (preserv_delta ∷ equal_delta ∷ []))

abbrev pub or_else {ℓ} : {A : Type ℓ} → Option A → A → A
or_else none default = default
or_else (some x) default = x

-- `n or default`, which is the default for 0 as well. A delta and a range are never empty here.
abbrev nonzero_or : Option ℕ → ℕ → ℕ
nonzero_or none default = default
nonzero_or (some n) default = if n == 0 then default else n

unfoldable pub nat_info : Option ℕ → Option Delta → Option Range → Nat
nat_info kind delta map_range =
    let d = or_else delta (delta_info equal_delta 0) in
    let n = nonzero_or kind restrict_port_nat in
    let bad_delta = is_in d.delta_type (independent_delta ∷ dependent_delta ∷ []) in
    record {
      nat_type = n;
      delta = d;
      range = or_else map_range (1, max_port);
      is_open = f_is_open n d;
      can_predict = f_can_predict n d;
      is_hard = f_is_hard n d;
      is_concurrent = is_in n easy_nats || not bad_delta;
    }

pub valid_mappings_len : ℕ → ℕ
valid_mappings_len size = if size == 0 then 0 else if ltb max_map_no size then 0 else 1

-- The range that `nats_intersect` uses: the common part, which is a new list, or the list in our
-- description itself.
pub data UseRange : Type 0 where
  common : Range → UseRange
  ours : UseRange

abbrev pub use_range : Nat → Nat → ℕ → UseRange
use_range our_nat their_nat test_no =
    if range_intersects our_nat.range their_nat.range
    then (let r = intersect_range our_nat.range their_nat.range in
        if leb test_no (r.1 - r.0) then common r else ours)
    else ours

-- Low ports are moved up, in the list that is used; the bool says whether the range is not empty.
abbrev pub shifted : Range → Range
shifted (start, stop) = if leb start 1024 then (2000, stop) else (start, stop)

abbrev pub check_shifted : Range → Result Range
check_shifted (start, stop) =
    if leb start 1024
    then (if leb stop 2000 then err value_error else ok (2000, stop))
    else ok (start, stop)

abbrev finish_range : Nat → UseRange → Result Range × Nat
finish_range our_nat (common r) = (check_shifted r, our_nat)
finish_range our_nat ours =
    (check_shifted our_nat.range, record our_nat { range = shifted our_nat.range })

-- The range, and our description as the call leaves it.
unfoldable pub nats_intersect : Nat → Nat → ℕ → Result Range × Nat
nats_intersect our_nat their_nat test_no =
    finish_range our_nat (use_range our_nat their_nat test_no)

abbrev pub is_strict : Nat → Bool
is_strict nat = nat.nat_type == restrict_port_nat

abbrev pub has_rand_delta : Nat → Bool
has_rand_delta nat = nat.delta.delta_type == random_delta

-- The tests of the strict side against its partner.
abbrev pub satisfy : ℕ → Nat → Nat → Result ℕ
satisfy use_stun_port strict unrestrict =
    if has_rand_delta strict && unrestrict.is_hard
    then err value_error
    else (if has_rand_delta strict && not (in_range stun_port unrestrict.range)
        then err value_error
        else ok (if has_rand_delta strict then 1 else use_stun_port))

-- One round of the loop over the two orders of the sides.
abbrev pub one_order : ℕ → Nat → Nat → Result ℕ
one_order use_stun_port strict unrestrict =
    if is_strict unrestrict
    then satisfy use_stun_port unrestrict strict
    else satisfy use_stun_port strict unrestrict

unfoldable pub nats_can_predict : Nat → Nat → Result ℕ
nats_can_predict our_nat their_nat =
    if is_strict our_nat
      && is_strict their_nat
      && (has_rand_delta our_nat || has_rand_delta their_nat)
    then err value_error
    else (if is_strict our_nat || is_strict their_nat
        then (one_order 0 our_nat their_nat >>= λ use_stun_port.
            one_order use_stun_port their_nat our_nat)
        else ok 0)
