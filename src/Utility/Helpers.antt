-- ===== src/Utility/Helpers.antt =====
-- Small helpers of aionetiface/utility/utils.py on ports, ranges and lists. The elements of
-- `to_unique` and `find_intersect` are numbers, and a dict with one key that matters is what stands
-- under the key, `none` where it is missing.
use aionetiface.Prelude.{ℕ, ◌+◌, ◌-◌, ◌%◌, ◌≤◌, ◌≡◌, refl, arith, min, max}
use aionetiface.Prelude.{Bool, true, false, not, ◌&&◌, ◌||◌, Option, none, some, ltb, leb, ◌==◌}
use aionetiface.Prelude.{
  List, [], ◌∷◌, ◌++◌, ==_iff, ==_refl, ◌∙◌, if◌then◌else◌, Bool-cases, inl, inr,
}
use aionetiface.Utility.Ranges.{Range, ℤ, pos, negated}

unfoldable pub valid_port : ℕ → Bool
valid_port p = leb 1 p && leb p 65535

-- `(p % MAX_PORT) or 1`
unfoldable pub port_wrap : ℕ → ℕ
port_wrap p = if p % 65535 == 0 then 1 else p % 65535

-- For a range that starts no later than it ends.
unfoldable pub field_wrap : ℕ → Range → ℕ
field_wrap n (start_range, stop_range) = start_range + n % (stop_range - start_range + 1)

unfoldable pub numeric_distance : ℕ → ℕ → ℤ
numeric_distance x y = let raw = max x y - min x y in if ltb y x then negated raw else pos raw

abbrev pub is_member : ℕ → List ℕ → Bool
is_member x [] = false
is_member x (y ∷ ys) = x == y || is_member x ys

-- What is not in the list before it.
abbrev pub unique_from : List ℕ → List ℕ → List ℕ
unique_from before [] = []
unique_from before (x ∷ xs) =
    let rest = unique_from (x ∷ before) xs in if is_member x before then rest else x ∷ rest

unfoldable pub to_unique : List ℕ → List ℕ
to_unique xs = unique_from [] xs

abbrev pub strip_none {ℓ} : {A : Type ℓ} → List (Option A) → List A
strip_none [] = []
strip_none (none ∷ xs) = strip_none xs
strip_none (some x ∷ xs) = x ∷ strip_none xs

abbrev pub list_join {ℓ} : {A : Type ℓ} → List (List A) → List A
list_join [] = []
list_join (xs ∷ lists) = xs ++ list_join lists

abbrev pub excluded : ℕ → Option ℕ → Bool
excluded exclusion none = false
excluded exclusion (some value) = value == exclusion

unfoldable pub list_exclude_dict : ℕ → List (Option ℕ) → List (Option ℕ)
list_exclude_dict exclusion [] = []
list_exclude_dict exclusion (entry ∷ entries) =
    let rest = list_exclude_dict exclusion entries in
    if excluded exclusion entry then rest else entry ∷ rest

unfoldable pub list_get_dict : ℕ → List (Option ℕ) → Option (Option ℕ)
list_get_dict criteria [] = none
list_get_dict criteria (entry ∷ entries) =
    let later = list_get_dict criteria entries in
    if excluded criteria entry then some entry else later

-- Each match of the first list's elements in the second.
abbrev pub matches : ℕ → List ℕ → List ℕ
matches a [] = []
matches a (b ∷ bs) = let rest = matches a bs in if a == b then a ∷ rest else rest

unfoldable pub find_intersect : List ℕ → List ℕ → List ℕ
find_intersect [] list_b = []
find_intersect (a ∷ list_a) list_b = matches a list_b ++ find_intersect list_a list_b

-- A wrapped port is one that `valid_port` takes.
pub valid_port-port_wrap : (p : ℕ) → valid_port (port_wrap p) ≡ true
unfolding valid_port port_wrap
valid_port-port_wrap p = ground arith

-- A wrapped number is in the range.
pub field_wrap_within :
    (n start stop : ℕ)
    → start ≤ stop
    → (start ≤ field_wrap n (start, stop)) × (field_wrap n (start, stop) ≤ stop)
unfolding field_wrap
field_wrap_within n start stop h = (omega arith, omega arith)

-- An element is kept just if it is in the list and not among those before it.
unique_from-is_member :
    (x : ℕ) (before xs : List ℕ)
    → is_member x (unique_from before xs) ≡ (is_member x xs && not (is_member x before))
unique_from-is_member x before [] = refl
unique_from-is_member x before (y ∷ ys) =
    ground (arith, ==_iff x y, unique_from-is_member x (y ∷ before) ys)

-- No element twice.
abbrev pub Distinct : List ℕ → Type 0
Distinct [] = Unit {0}
Distinct (x ∷ xs) = (is_member x xs ≡ false) × Distinct xs

unique_from-Distinct : (before xs : List ℕ) → Distinct (unique_from before xs)
unique_from-Distinct before [] = tt
unique_from-Distinct before (x ∷ xs) = elim (Bool-cases (is_member x before)) [
  | inl seen ↦ rw seen (unique_from-Distinct (x ∷ before) xs)
  | inr fresh ↦ rw fresh (
    ground (arith, unique_from-is_member x (x ∷ before) xs, ==_refl x),
    unique_from-Distinct (x ∷ before) xs,
  )
]

and_true : (b : Bool) → (b && true) ≡ b
and_true true = refl
and_true false = refl

-- The same elements, and none of them twice.
pub to_unique-Distinct :
    (xs : List ℕ)
    → Distinct (to_unique xs) × ((x : ℕ) → is_member x (to_unique xs) ≡ is_member x xs)
unfolding to_unique
to_unique-Distinct xs =
    (unique_from-Distinct [] xs, λ x. unique_from-is_member x [] xs ∙ and_true (is_member x xs))

-- What is left out is what `list_get_dict` would find.
pub list_get_dict-list_exclude_dict :
    (criteria : ℕ) (entries : List (Option ℕ))
    → list_get_dict criteria (list_exclude_dict criteria entries) ≡ none
unfolding list_get_dict list_exclude_dict
list_get_dict-list_exclude_dict criteria [] = refl
list_get_dict-list_exclude_dict criteria (entry ∷ entries) =
    ground (arith, list_get_dict-list_exclude_dict criteria entries)
