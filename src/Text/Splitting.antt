-- ===== src/Text/Splitting.antt =====
-- A text that was joined with a mark comes apart at the mark.
use aionetiface.Prelude.{ℕ, zero, suc, ◌+◌, ◌≡◌, refl, ap, ◌∙◌, arith, Bool, true, false, not, ◌&&◌}
use aionetiface.Prelude.{List, [], ◌∷◌, ◌++◌, ◌==◌}
use aionetiface.Prelude.{length, length-append, ◌-◌, ltb, ltb-eq_false, take-append}
use aionetiface.Bytes.{Bytes, byte_at}
use aionetiface.Text.{split, join, bracketed, has_brackets, inner}

abbrev pub lacks : ℕ → Bytes → Bool
lacks mark [] = true
lacks mark (b ∷ text) = not (b == mark) && lacks mark text

abbrev pub all_lack : ℕ → List Bytes → Bool
all_lack mark [] = true
all_lack mark (piece ∷ pieces) = lacks mark piece && all_lack mark pieces

pub lacks-append :
    (mark : ℕ) (xs ys : Bytes)
    → lacks mark xs ≡ true
    → lacks mark ys ≡ true
    → lacks mark (xs ++ ys) ≡ true
lacks-append mark [] ys h k = k
lacks-append mark (x ∷ xs) ys h k = ground (arith, lacks-append mark xs ys)

-- A text without the mark is one piece.
pub split-lacks : (mark : ℕ) (text : Bytes) → lacks mark text ≡ true → split mark text ≡ text ∷ []
split-lacks mark [] h = refl
split-lacks mark (b ∷ text) h = ground (arith, split-lacks mark text)

split-append :
    (mark : ℕ) (piece rest : Bytes)
    → lacks mark piece ≡ true
    → split mark (piece ++ (mark ∷ rest)) ≡ piece ∷ split mark rest
split-append mark [] rest h = ground arith
split-append mark (b ∷ piece) rest h = ground (arith, split-append mark piece rest)

-- Pieces without the mark, at least one, come back from their join.
pub split-join :
    (mark : ℕ) (piece : Bytes) (pieces : List Bytes)
    → all_lack mark (piece ∷ pieces) ≡ true
    → split mark (join mark (piece ∷ pieces)) ≡ piece ∷ pieces
split-join mark piece [] h = split-lacks mark piece (ground arith)
split-join mark piece (next ∷ pieces) h =
    split-append mark piece (join mark (next ∷ pieces)) (ground arith)
    ∙ ap (λ t. piece ∷ t) (split-join mark next pieces (ground arith))

pub lacks-join :
    (mark sep : ℕ) (pieces : List Bytes)
    → (sep == mark) ≡ false
    → all_lack mark pieces ≡ true
    → lacks mark (join sep pieces) ≡ true
lacks-join mark sep [] h k = refl
lacks-join mark sep (piece ∷ []) h k = ground arith
lacks-join mark sep (piece ∷ next ∷ pieces) h k =
    lacks-append mark piece (sep ∷ join sep (next ∷ pieces)) (ground arith)
      (ground (arith, lacks-join mark sep (next ∷ pieces)))

pub lacks-bracketed :
    (mark : ℕ) (text : Bytes)
    → (b'[' == mark) ≡ false
    → (b']' == mark) ≡ false
    → lacks mark text ≡ true
    → lacks mark (bracketed text) ≡ true
lacks-bracketed mark text h k l = ground (arith, lacks-append mark text (b']' ∷ []) l)

byte_at-last : (text : Bytes) (b i : ℕ) → i ≡ length text → byte_at (text ++ (b ∷ [])) i ≡ b
byte_at-last [] b zero h = refl
byte_at-last [] b (suc i) h = absurd (omega arith)
byte_at-last (x ∷ text) b zero h = absurd (omega arith)
byte_at-last (x ∷ text) b (suc i) h = byte_at-last text b i (omega arith)

length-bracketed : (text : Bytes) → length (bracketed text) ≡ length text + 2
length-bracketed text = omega (arith, length-append text (b']' ∷ []))

pub has_brackets-bracketed : (text : Bytes) → has_brackets (bracketed text) ≡ true
unfolding has_brackets
has_brackets-bracketed text = ground (
  arith,
  byte_at-last (b'[' ∷ text) b']' (length (bracketed text) - 1)
      (omega (arith, length-bracketed text)),
)

pub inner-bracketed : (text : Bytes) → inner (bracketed text) ≡ text
unfolding inner
inner-bracketed text =
    take-append (length (bracketed text) - 1 - 1) text (b']' ∷ [])
      (omega (arith, length-bracketed text))

pub is_short-bracketed : (text : Bytes) → ltb (length (bracketed text)) 2 ≡ false
is_short-bracketed text =
    ltb-eq_false (length (bracketed text)) 2 (omega (arith, length-bracketed text))
