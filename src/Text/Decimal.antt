-- ===== src/Text/Decimal.antt =====
-- Numbers printed in decimal are read back.
use aionetiface.Prelude.{ℕ, zero, suc, ◌+◌, ◌-◌, ◌*◌, ◌/◌, ◌%◌, ◌<◌, ◌≡◌, refl, ap, ◌∙◌, arith}
use aionetiface.Prelude.{[], ◌∷◌, ◌++◌, true, false, some}
use aionetiface.Prelude.{ltb, ◌==◌, Bool-cases, inl, inr}
use aionetiface.Bytes.{Bytes}
use aionetiface.Utility.Ranges.{ℤ, pos, negsuc}
use aionetiface.Text.{
  digits, decimal, decimal_int, is_digit, all_digits, is_empty, is_number, digits_value, strip_left,
  strip_right, grouped, signed, to_n,
}
use aionetiface.Text.Splitting.{lacks}

all_digits-append :
    (xs ys : Bytes) → all_digits xs ≡ true → all_digits ys ≡ true → all_digits (xs ++ ys) ≡ true
all_digits-append [] ys h k = k
all_digits-append (x ∷ xs) ys h k = ground (arith, all_digits-append xs ys)

digits_value-append :
    (read : ℕ) (xs : Bytes) (d : ℕ)
    → digits_value read (xs ++ (d ∷ [])) ≡ digits_value read xs * 10 + (d - b'0')
digits_value-append read [] d = refl
digits_value-append read (x ∷ xs) d = digits_value-append (read * 10 + (x - b'0')) xs d

digits-all_digits : (fuel n : ℕ) → all_digits (digits fuel n) ≡ true
unfolding digits
digits-all_digits zero n = refl
digits-all_digits (suc fuel) n = elim (Bool-cases (ltb n 10)) [
  | inl small ↦ rw small (ground arith)
  | inr large ↦ rw large (
      all_digits-append (digits fuel (n / 10)) ((b'0' + n % 10) ∷ [])
        (digits-all_digits fuel (n / 10)) (ground arith))
]

digits-value : (fuel n : ℕ) → n < fuel → digits_value 0 (digits fuel n) ≡ n
unfolding digits
digits-value zero n h = absurd (omega arith)
digits-value (suc fuel) n h = elim (Bool-cases (ltb n 10)) [
  | inl small ↦ rw small (omega arith)
  | inr large ↦ rw large (
      digits_value-append 0 (digits fuel (n / 10)) (b'0' + n % 10)
      ∙ ground (arith, digits-value fuel (n / 10)))
]

is_empty-append : (xs : Bytes) (d : ℕ) → is_empty (xs ++ (d ∷ [])) ≡ false
is_empty-append [] d = refl
is_empty-append (x ∷ xs) d = refl

digits-is_empty : (fuel n : ℕ) → is_empty (digits (suc fuel) n) ≡ false
unfolding digits
digits-is_empty fuel n = elim (Bool-cases (ltb n 10)) [
  | inl small ↦ rw small refl
  | inr large ↦ rw large (is_empty-append (digits fuel (n / 10)) (b'0' + n % 10))
]

pub decimal-all_digits : (n : ℕ) → all_digits (decimal n) ≡ true
unfolding decimal
decimal-all_digits n = digits-all_digits (suc n) n

pub decimal-is_empty : (n : ℕ) → is_empty (decimal n) ≡ false
unfolding decimal
decimal-is_empty n = digits-is_empty n n

pub decimal-is_number : (n : ℕ) → is_number (decimal n) ≡ true
unfolding is_number
decimal-is_number n = rw (decimal-is_empty n, decimal-all_digits n)

pub digits_value-decimal : (n : ℕ) → digits_value 0 (decimal n) ≡ n
unfolding decimal
digits_value-decimal n = digits-value (suc n) n (omega arith)

strip_left-digits : (text : Bytes) → all_digits text ≡ true → strip_left text ≡ text
strip_left-digits [] h = refl
strip_left-digits (b ∷ text) h = ground arith

strip_right-digits : (text : Bytes) → all_digits text ≡ true → strip_right text ≡ text
strip_right-digits [] h = refl
strip_right-digits (b ∷ text) h = ground (arith, strip_right-digits text)

grouped-digits :
    (read : ℕ) (text : Bytes)
    → all_digits text ≡ true
    → grouped true read text ≡ some (digits_value read text)
grouped-digits read [] h = refl
grouped-digits read (b ∷ text) h = ground (arith, grouped-digits (read * 10 + (b - b'0')) text)

grouped-number :
    (text : Bytes)
    → is_empty text ≡ false
    → all_digits text ≡ true
    → grouped false 0 text ≡ some (digits_value 0 text)
grouped-number [] h k = absurd (ground arith)
grouped-number (b ∷ text) h k = ground (arith, grouped-digits (0 * 10 + (b - b'0')) text)

signed-number :
    (text : Bytes)
    → is_empty text ≡ false
    → all_digits text ≡ true
    → signed text ≡ some (pos (digits_value 0 text))
signed-number [] h k = absurd (ground arith)
signed-number (b ∷ text) h k = ground (arith, grouped-number (b ∷ text))

-- What passes `is_number` is the number of its digits for `to_n`.
pub to_n-is_number :
    (text : Bytes) → is_number text ≡ true → to_n text ≡ some (pos (digits_value 0 text))
unfolding is_number to_n
to_n-is_number text h = rw (
  strip_left-digits text (ground arith),
  strip_right-digits text (ground arith),
  signed-number text (ground arith) (ground arith),
)

lacks-digits :
    (mark : ℕ) (text : Bytes)
    → is_digit mark ≡ false
    → all_digits text ≡ true
    → lacks mark text ≡ true
lacks-digits mark [] h k = refl
lacks-digits mark (b ∷ text) h k = ground (arith, lacks-digits mark text)

pub lacks-decimal : (mark n : ℕ) → is_digit mark ≡ false → lacks mark (decimal n) ≡ true
lacks-decimal mark n h = lacks-digits mark (decimal n) h (decimal-all_digits n)

to_n-minus : (n : ℕ) → to_n (b'-' ∷ decimal (suc n)) ≡ some (negsuc n)
unfolding to_n
to_n-minus n = rw (
  strip_right-digits (decimal (suc n)) (decimal-all_digits (suc n)),
  grouped-number (decimal (suc n)) (decimal-is_empty (suc n)) (decimal-all_digits (suc n)),
  digits_value-decimal (suc n),
)

-- A whole number that is printed is read back.
pub to_n-decimal_int : (z : ℤ) → to_n (decimal_int z) ≡ some z
unfolding decimal_int
to_n-decimal_int (pos n) =
    to_n-is_number (decimal n) (decimal-is_number n)
    ∙ ap (λ t. some (pos t)) (digits_value-decimal n)
to_n-decimal_int (negsuc n) = to_n-minus n

pub lacks-decimal_int :
    (mark : ℕ) (z : ℤ)
    → is_digit mark ≡ false
    → (mark == b'-') ≡ false
    → lacks mark (decimal_int z) ≡ true
unfolding decimal_int
lacks-decimal_int mark (pos n) h k = lacks-decimal mark n h
lacks-decimal_int mark (negsuc n) h k = ground (arith, lacks-decimal mark (suc n) h)
