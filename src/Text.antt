-- ===== src/Text.antt =====
-- Texts as the wire formats hold them: the byte strings of aionetiface/utility/type_conv.py and
-- `is_number` of utility/utils.py, and what Python's `split`, `join`, `int` and `%d` do. A text is
-- its codes, and all are ASCII: there `to_s` and `to_b` change nothing, so they do not appear.
pub mod Splitting
pub mod Decimal
use aionetiface.Prelude.{ℕ, zero, suc, ◌+◌, ◌-◌, ◌*◌, ◌/◌, ◌%◌, Bool, true, false, ◌&&◌, ◌||◌, not}
use aionetiface.Prelude.{
  List, [], ◌∷◌, ◌++◌, length, Option, none, some, ltb, leb, ◌==◌, if◌then◌else◌,
}
use aionetiface.Bytes.{Bytes, byte_at, slice}
use aionetiface.Utility.Ranges.{ℤ, pos, negsuc, negated}

abbrev push : ℕ → List Bytes → List Bytes
push b [] = (b ∷ []) ∷ []
push b (piece ∷ pieces) = (b ∷ piece) ∷ pieces

-- `text.split(mark)`
abbrev pub split : ℕ → Bytes → List Bytes
split mark [] = [] ∷ []
split mark (b ∷ text) =
    let pieces = split mark text in if b == mark then [] ∷ pieces else push b pieces

-- `mark.join(pieces)`
abbrev pub join : ℕ → List Bytes → Bytes
join mark [] = []
join mark (piece ∷ []) = piece
join mark (piece ∷ next ∷ pieces) = piece ++ (mark ∷ join mark (next ∷ pieces))

-- `b"[%b]" % text`
abbrev pub bracketed : Bytes → Bytes
bracketed text = b'[' ∷ (text ++ (b']' ∷ []))

-- `text[:1] == b"[" and text[-1:] == b"]"`, for a text that is not empty.
unfoldable pub has_brackets : Bytes → Bool
has_brackets text = byte_at text 0 == b'[' && byte_at text (length text - 1) == b']'

-- `text[1:-1]`
unfoldable pub inner : Bytes → Bytes
inner text = slice 1 (length text - 1) text

-- Digits, high first; one round for each digit.
unfoldable pub digits : ℕ → ℕ → Bytes
digits zero n = []
digits (suc fuel) n =
    let front = digits fuel (n / 10) in
    if ltb n 10 then (b'0' + n) ∷ [] else front ++ ((b'0' + n % 10) ∷ [])

-- `b"%d" % n`
unfoldable pub decimal : ℕ → Bytes
decimal n = digits (suc n) n

unfoldable pub decimal_int : ℤ → Bytes
decimal_int (pos n) = decimal n
decimal_int (negsuc n) = b'-' ∷ decimal (suc n)

abbrev pub is_digit : ℕ → Bool
is_digit b = leb b'0' b && leb b b'9'

abbrev pub all_digits : Bytes → Bool
all_digits [] = true
all_digits (b ∷ text) = is_digit b && all_digits text

abbrev pub is_empty : Bytes → Bool
is_empty [] = true
is_empty (b ∷ text) = false

-- `to_s(x).isnumeric()`
unfoldable pub is_number : Bytes → Bool
is_number text = not (is_empty text) && all_digits text

-- The number that digits stand for, behind those that were read.
abbrev pub digits_value : ℕ → Bytes → ℕ
digits_value read [] = read
digits_value read (b ∷ text) = digits_value (read * 10 + (b - b'0')) text

-- White space of `int`.
abbrev pub is_space : ℕ → Bool
is_space b = b == b' ' || leb 9 b && leb b 13

abbrev pub strip_left : Bytes → Bytes
strip_left [] = []
strip_left (b ∷ text) = let rest = strip_left text in if is_space b then rest else b ∷ text

abbrev pub strip_right : Bytes → Bytes
strip_right [] = []
strip_right (b ∷ text) =
    let rest = strip_right text in if is_space b && is_empty rest then [] else b ∷ rest

-- Digits in which one underscore may stand between two; the first argument tells whether a digit
-- stands before.
abbrev pub grouped : Bool → ℕ → Bytes → Option ℕ
grouped true read [] = some read
grouped false read [] = none
grouped after read (b ∷ text) =
    let next = grouped true (read * 10 + (b - b'0')) text in
    let gap = grouped false read text in
    if is_digit b then next else if after && b == b'_' then gap else none

abbrev pub negative : Option ℕ → Option ℤ
negative none = none
negative (some n) = some (negated n)

abbrev pub positive : Option ℕ → Option ℤ
positive none = none
positive (some n) = some (pos n)

abbrev pub signed : Bytes → Option ℤ
signed [] = none
signed (b ∷ text) =
    if b == b'-'
    then negative (grouped false 0 text)
    else positive (grouped false 0 (if b == b'+' then text else b ∷ text))

-- `int(to_s(x), 10)`, with `none` for a `ValueError`.
unfoldable pub to_n : Bytes → Option ℤ
to_n text = signed (strip_right (strip_left text))
