-- ===== src/Pcap/Checksum/Verify.antt =====
-- A checksum that `checksum16` computed over a string with a zero field, written into that field,
-- makes the whole string sum to the value that the receiver's test accepts.
mod Examples
use aionetiface.Prelude.{
  ℕ, ◌+◌, ◌-◌, ◌*◌, ◌/◌, ◌%◌, ◌<◌, ◌≡◌, arith, ap, sym, ◌∙◌, ◌⊎◌, ◌==◌, if◌then◌else◌,
}
use aionetiface.Prelude.{[], ◌∷◌, ◌++◌, length}
use aionetiface.Bytes.{Bytes, IsBytes, be16}
use aionetiface.Bytes.Laws.{IsBytes-append}
use aionetiface.Pcap.Checksum.{checksum16}
use aionetiface.Pcap.Checksum.Sum.{
  canon, canon_complement, canon_same, sum16, sum16-append, sum16-be16, checksum16-canon,
}

-- The value fits 16 bits.
pub checksum16-lt : (buf : Bytes) → IsBytes buf → checksum16 buf < 65536
checksum16-lt buf h = omega (arith, checksum16-canon buf h)

-- A string with a 16-bit word at an even place.
abbrev pub with_word : Bytes → ℕ → Bytes → Bytes
with_word front w back = front ++ (be16 w ++ back)

with_word-IsBytes :
    (front back : Bytes) (w : ℕ)
    → IsBytes front
    → IsBytes back
    → w < 65536
    → IsBytes (with_word front w back)
with_word-IsBytes front back w hf hb hw =
    IsBytes-append front (be16 w ++ back) hf (omega arith, (omega arith, hb))

sum16-with_word :
    (front back : Bytes) (w : ℕ)
    → length front % 2 ≡ 0
    → sum16 (with_word front w back) ≡ sum16 front + w + sum16 back
sum16-with_word front back w even =
    omega (arith, sum16-append front (be16 w ++ back) even, sum16-be16 w back)

-- Filling in the checksum of a string whose checksum word, at an even offset, is zero, makes the
-- checksum of the whole string zero.
pub checksum16-filled :
    (front back : Bytes)
    → IsBytes front
    → IsBytes back
    → length front % 2 ≡ 0
    → checksum16 (with_word front (checksum16 (with_word front 0 back)) back) ≡ 0
checksum16-filled front back hf hb even =
    let empty = with_word front 0 back in
    let bytes : IsBytes empty = with_word-IsBytes front back 0 hf hb (omega arith) in
    let w = checksum16 empty in
    let value : w ≡ 65535 - canon (sum16 front + sum16 back) =
      checksum16-canon empty bytes
      ∙ ap (λ (t : ℕ). 65535 - canon t) (omega (arith, sum16-with_word front back 0 even)) in
    checksum16-canon (with_word front w back)
      (with_word-IsBytes front back w hf hb (checksum16-lt empty bytes))
    ∙ ap (λ (t : ℕ). 65535 - canon t) (omega (arith, value, sum16-with_word front back w even))
    ∙ canon_complement (sum16 front + sum16 back)

-- An error in one 16-bit word is seen: of two strings that differ in one word at an even offset
-- and both pass the test, the words are equal, or one is 0 and the other 0xffff.
pub checksum16_detects_word :
    (front back : Bytes) (v w : ℕ)
    → IsBytes front
    → IsBytes back
    → length front % 2 ≡ 0
    → v < 65536
    → w < 65536
    → checksum16 (with_word front v back) ≡ 0
    → checksum16 (with_word front w back) ≡ 0
    → (v ≡ w) ⊎ ((v ≡ 0) × (w ≡ 65535)) ⊎ ((v ≡ 65535) × (w ≡ 0))
checksum16_detects_word front back v w hf hb even hv hw p q =
    canon_same (sum16 front + sum16 back) v w hv hw (as_sum v hv p) (as_sum w hw q)
  where
    as_sum :
        (x : ℕ)
        → x < 65536
        → checksum16 (with_word front x back) ≡ 0
        → 65535 - canon (sum16 front + sum16 back + x) ≡ 0
    as_sum x hx z =
        ap (λ (t : ℕ). 65535 - canon t) (omega (arith, sum16-with_word front back x even))
        ∙ sym (checksum16-canon (with_word front x back) (with_word-IsBytes front back x hf hb hx))
        ∙ z
