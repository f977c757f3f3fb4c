-- ===== src/Pcap/Checksum/Sum.antt =====
-- The checksum in closed form: one's-complement addition is addition modulo 2 ^ 16 - 1 with two
-- names for zero, and the loop keeps the name 0 only for a sum of nothing but zeros.
use aionetiface.Prelude.{ℕ, zero, suc, ◌+◌, ◌-◌, ◌*◌, ◌%◌, ◌<◌, ◌≡◌, refl, arith}
use aionetiface.Prelude.{
  ◌≢◌, ◌⊎◌, ap, ◌∙◌, false, inl, inr, Bool-cases, ==_iff, length-append, [], ◌∷◌, ◌++◌, length,
  ◌==◌, if◌then◌else◌,
}
use aionetiface.Prelude.Bits.{bit_or-shifted}
use aionetiface.Bytes.{Bytes, IsBytes, be16}
use aionetiface.Bytes.Laws.{IsBytes-append}
use aionetiface.Pcap.Checksum.{fold_carry, add_words, fold_all, pad_even, checksum16}

-- The sum of the 16-bit words of a string; a byte left over is the high half of a word.
pub sum16 : Bytes → ℕ
sum16 [] = 0
sum16 (b ∷ []) = b * 256
sum16 (b ∷ c ∷ rest) = b * 256 + c + sum16 rest

-- The representative of a sum in 1 .. 2 ^ 16 - 1, and 0 for 0.
pub canon : ℕ → ℕ
canon n = if n == 0 then 0 else (n - 1) % 65535 + 1

fold-canon : (t w : ℕ) → w < 65536 → fold_carry (canon t + w) ≡ canon (t + w)
unfolding canon
fold-canon t w h = ground arith

canon-add : (t s : ℕ) → canon (canon t + s) ≡ canon (t + s)
unfolding canon
canon-add t s = ground arith

pub canon-lt : (n : ℕ) → canon n < 65536
unfolding canon
canon-lt n = ground arith

add_words-canon :
    (buf : Bytes) (t : ℕ)
    → IsBytes buf
    → length buf % 2 ≡ 0
    → add_words buf (canon t) ≡ canon (t + sum16 buf)
unfolding add_words sum16
add_words-canon [] t h even = ap canon (omega arith)
add_words-canon (b ∷ []) t h even = absurd (omega arith)
add_words-canon (b ∷ c ∷ rest) t h even =
    rw (bit_or-shifted 8 b c h.1.0, fold-canon t (b * 256 + c) (omega arith))
      (add_words-canon rest (t + (b * 256 + c)) h.1.1 (omega arith) ∙ ap canon (omega arith))

sum16-pad : (buf : Bytes) → length buf % 2 ≢ 0 → sum16 (buf ++ (0 ∷ [])) ≡ sum16 buf
unfolding sum16
sum16-pad [] odd = absurd (odd refl)
sum16-pad (b ∷ []) odd = omega arith
sum16-pad (b ∷ c ∷ rest) odd = omega (arith, sum16-pad rest (λ e. odd (omega arith)))

-- Padding makes the length even, keeps every element a byte and keeps the sum.
pad_even_lem :
    (buf : Bytes)
    → IsBytes buf
    → IsBytes (pad_even buf) × (length (pad_even buf) % 2 ≡ 0) × (sum16 (pad_even buf) ≡ sum16 buf)
unfolding pad_even
pad_even_lem buf h = elim (Bool-cases (length buf % 2 == 0)) [
  | inl e ↦ rw e (h, (==_iff _ 0).0 e, refl)
  | inr e ↦ rw e (
    IsBytes-append buf (0 ∷ []) h (omega arith),
    omega (arith, length-append buf (0 ∷ []), odd e),
    sum16-pad buf (odd e),
  )
]
  where
    odd : (length buf % 2 == 0) ≡ false → length buf % 2 ≢ 0
    odd e p = ground arith

-- The carry folds end at once: the running total stays below 2 ^ 16.
fold_all_small : (fuel total : ℕ) → total < 65536 → fold_all fuel total ≡ total
unfolding fold_all
fold_all_small zero total h = refl
fold_all_small (suc fuel) total h = ground arith

-- The checksum of a byte string is the complement of the canonical sum of its words.
pub checksum16-canon : (buf : Bytes) → IsBytes buf → checksum16 buf ≡ 65535 - canon (sum16 buf)
unfolding checksum16 canon
checksum16-canon buf h =
    let (bytes, even, same) = pad_even_lem buf h in
    let total : add_words (pad_even buf) 0 ≡ canon (sum16 buf) =
      add_words-canon (pad_even buf) 0 bytes even ∙ ap canon (omega arith) in
    rw (total, fold_all_small (canon (sum16 buf)) (canon (sum16 buf)) (canon-lt _))
      (omega (arith, canon-lt (sum16 buf)))

pub sum16-append :
    (front back : Bytes) → length front % 2 ≡ 0 → sum16 (front ++ back) ≡ sum16 front + sum16 back
unfolding sum16
sum16-append [] back even = omega arith
sum16-append (b ∷ []) back even = absurd (omega arith)
sum16-append (b ∷ c ∷ rest) back even = omega (arith, sum16-append rest back (omega arith))

pub sum16-be16 : (w : ℕ) (back : Bytes) → sum16 (be16 w ++ back) ≡ w + sum16 back
unfolding sum16
sum16-be16 w back = omega arith

pub canon_complement : (s : ℕ) → 65535 - canon (s + (65535 - canon s)) ≡ 0
unfolding canon
canon_complement s = ground arith

-- Two words below 2 ^ 16 that one sum accepts are equal, or are the two names of zero.
pub canon_same :
    (s v w : ℕ)
    → v < 65536
    → w < 65536
    → 65535 - canon (s + v) ≡ 0
    → 65535 - canon (s + w) ≡ 0
    → (v ≡ w) ⊎ ((v ≡ 0) × (w ≡ 65535)) ⊎ ((v ≡ 65535) × (w ≡ 0))
unfolding canon
canon_same s v w hv hw p q = ground arith
