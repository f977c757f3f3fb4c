-- ===== src/Http/Search.antt =====
-- What the search in the headers finds does not change with what follows; http_client_lib.py.
use aionetiface.Prelude.{ℕ, ◌≡◌, refl, arith}
use aionetiface.Prelude.{true, Option, none, some}
use aionetiface.Prelude.{[], ◌∷◌, ◌++◌}
use aionetiface.Bytes.{Bytes}
use aionetiface.Text.Splitting.{lacks}
use aionetiface.Http.{
  ◌>>=◌, after_text, after_either, after_spaces, leading_digits, number_of, ontent, ength,
  match_length, or_else, search_length,
}

abbrev pub followed : Bytes → Option Bytes → Option Bytes
followed more none = none
followed more (some rest) = some (rest ++ more)

-- A text without a line end does not match across one.
after_text-append :
    (ps text more : Bytes)
    → lacks 13 ps ≡ true
    → after_text ps (text ++ (13 ∷ more)) ≡ followed (13 ∷ more) (after_text ps text)
after_text-append [] text more h = refl
after_text-append (p ∷ ps) [] more h = ground arith
after_text-append (p ∷ ps) (b ∷ text) more h =
    ground (arith, after_text-append ps text more (ground arith))

after_either-append :
    (p q : ℕ) (text more : Bytes)
    → lacks 13 (p ∷ q ∷ []) ≡ true
    → after_either p q (text ++ (13 ∷ more)) ≡ followed (13 ∷ more) (after_either p q text)
after_either-append p q [] more h = ground arith
after_either-append p q (b ∷ text) more h = ground arith

after_spaces-append :
    (text more : Bytes) → after_spaces (text ++ (13 ∷ more)) ≡ after_spaces text ++ (13 ∷ more)
after_spaces-append [] more = refl
after_spaces-append (b ∷ text) more = ground (arith, after_spaces-append text more)

leading_digits-append :
    (text more : Bytes) → leading_digits (text ++ (13 ∷ more)) ≡ leading_digits text
leading_digits-append [] more = refl
leading_digits-append (b ∷ text) more = ground (arith, leading_digits-append text more)

-- One more step of a match that does not look past a line end.
step-followed :
    (more : Bytes) (o : Option Bytes) (f : Bytes → Option Bytes)
    → ((t : Bytes) → f (t ++ more) ≡ followed more (f t))
    → (followed more o >>= f) ≡ followed more (o >>= f)
step-followed more none f h = refl
step-followed more (some t) f h = h t

last-followed :
    (more : Bytes) (o : Option Bytes) (f : Bytes → Option ℕ)
    → ((t : Bytes) → f (t ++ more) ≡ f t)
    → (followed more o >>= f) ≡ (o >>= f)
last-followed more none f h = refl
last-followed more (some t) f h = h t

number_append :
    (text more : Bytes)
    → number_of (leading_digits (after_spaces (text ++ (13 ∷ more))))
      ≡ number_of (leading_digits (after_spaces text))
number_append text more =
    rw (after_spaces-append text more, leading_digits-append (after_spaces text) more) refl

later_length :
    (here : Option ℕ) (later later' : Option ℕ) (n : ℕ)
    → or_else here later ≡ some n
    → (later ≡ some n → later' ≡ some n)
    → or_else here later' ≡ some n
later_length none later later' n h f = f h
later_length (some m) later later' n h f = h

match_length-append : (text more : Bytes) → match_length (text ++ (13 ∷ more)) ≡ match_length text
unfolding match_length
match_length-append text more = rw (
  after_either-append b'c' b'C' text more refl,
  step-followed (13 ∷ more) (after_either b'c' b'C' text) (λ t. after_text ontent t)
      (λ t. after_text-append ontent t more refl),
  step-followed (13 ∷ more) (after_either b'c' b'C' text >>= (λ t. after_text ontent t))
      (λ t. after_either b'l' b'L' t) (λ t. after_either-append b'l' b'L' t more refl),
  step-followed (13 ∷ more)
      (after_either b'c' b'C' text
        >>= (λ t. after_text ontent t)
        >>= (λ t. after_either b'l' b'L' t))
      (λ t. after_text ength t) (λ t. after_text-append ength t more refl),
  last-followed (13 ∷ more)
      (after_either b'c' b'C' text
        >>= (λ t. after_text ontent t)
        >>= (λ t. after_either b'l' b'L' t)
        >>= (λ t. after_text ength t))
      (λ t. number_of (leading_digits (after_spaces t))) (λ t. number_append t more),
)

-- A length that the headers have is found whatever comes behind them.
pub search_length-append :
    (text more : Bytes) (n : ℕ)
    → search_length text ≡ some n
    → search_length (text ++ (13 ∷ more)) ≡ some n
unfolding search_length
search_length-append [] more n h = absurd (ground arith)
search_length-append (b ∷ text) more n h = rw (match_length-append (b ∷ text) more) (
    later_length (match_length (b ∷ text)) (search_length text)
      (search_length (text ++ (13 ∷ more))) n h (search_length-append text more n))
