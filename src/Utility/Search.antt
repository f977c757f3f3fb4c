-- ===== src/Utility/Search.antt =====
-- `sorted_search` of aionetiface/utility/utils.py.
use aionetiface.Prelude.{
  ℕ, zero, suc, ◌+◌, ◌-◌, ◌/◌, Option, none, some, List, [], ◌∷◌, length, leb, ltb,
}
use aionetiface.Prelude.{◌==◌, if◌then◌else◌, Bool, ◌&&◌}
use aionetiface.Bytes.{Result, ok, err, ◌>>=◌, value_error}

-- `list[i]`, inside the list.
abbrev pub nth : List ℕ → ℕ → ℕ
nth [] i = 0
nth (x ∷ xs) zero = x
nth (x ∷ xs) (suc i) = nth xs i

-- `int(index / 2) or 1`
abbrev pub jump : ℕ → ℕ
jump index = if index / 2 == 0 then 1 else index / 2

-- The index after a round that does not return.
abbrev pub jumped : List ℕ → ℕ → ℕ → ℕ
jumped n_list target index =
    if leb target (nth n_list index) then index - jump index else index + jump index

abbrev pub is_found : List ℕ → ℕ → ℕ → Bool
is_found n_list target index = leb target (nth n_list index) && ltb (nth n_list (index - 1)) target

unfoldable pub search_loop : ℕ → List ℕ → ℕ → ℕ → Result ℕ
search_loop zero n_list target index = err value_error
search_loop (suc rounds) n_list target index =
    if index == 0
    then ok 0
    else (if is_found n_list target index
        then ok index
        else (let next = jumped n_list target index in
            if leb (length n_list - 1) next
            then ok (length n_list - 1)
            else search_loop rounds n_list target next))

-- Without a start the search begins in the middle. An empty list gives `None`.
unfoldable pub sorted_search : List ℕ → ℕ → Result (Option ℕ)
sorted_search [] target = ok none
sorted_search (x ∷ xs) target =
    search_loop (length (x ∷ xs)) (x ∷ xs) target (length (x ∷ xs) / 2) >>= λ index. ok (some index)
