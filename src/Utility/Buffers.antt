-- ===== src/Utility/Buffers.antt =====
-- Operations on whole byte strings, of aionetiface/utility/utils.py: `b_and` and `b_or` stop at
-- the shorter string, `xor_bufs` runs over both in cycles and cuts the result.
use aionetiface.Prelude.{ℕ, zero, suc, ◌+◌, ◌%◌, ◌≤◌, ◌<◌, min, max, bit_and, bit_or, bit_xor}
use native.Mathlib.Nat.{mod-eq_of_lt}
use aionetiface.Prelude.{◌≡◌, refl, ap, ◌∙◌, [], ◌∷◌, length, take, arith}
use aionetiface.Prelude.{if◌then◌else◌, ◌==◌}
use aionetiface.Prelude.Xor.{bit_xor_twice, bit_xor-lt}
use aionetiface.Bytes.{Bytes, IsBytes, Result, ok, err, ◌>>=◌, zero_division_error, byte_at}

-- `bytes(map(f, a, b))`
abbrev pub map2 : (ℕ → ℕ → ℕ) → Bytes → Bytes → Bytes
map2 f [] b = []
map2 f (x ∷ a) [] = []
map2 f (x ∷ a) (y ∷ b) = f x y ∷ map2 f a b

unfoldable pub b_and : Bytes → Bytes → Bytes
b_and a b = map2 bit_and a b

unfoldable pub b_or : Bytes → Bytes → Bytes
b_or a b = map2 bit_or a b

-- `buf[i % len(buf)]`
cycle_at : Bytes → ℕ → Result ℕ
cycle_at buf i =
    if length buf == 0 then err zero_division_error else ok (byte_at buf (i % length buf))

-- `rounds` rounds of the loop, from the index `i`.
xor_cycles : ℕ → ℕ → Bytes → Bytes → Result Bytes
xor_cycles zero i a b = ok []
xor_cycles (suc rounds) i a b = do
  x ← cycle_at a i
  y ← cycle_at b i
  rest ← xor_cycles rounds (suc i) a b
  ok (bit_xor x y ∷ rest)

pub xor_bufs : Bytes → Bytes → Result Bytes
xor_bufs a b = do
  result ← xor_cycles (max (length a) (length b)) 0 a b
  ok (take (min (length a) (length b)) result)

-- What the loop collects when neither string is empty.
cycled : ℕ → ℕ → Bytes → Bytes → Bytes
cycled zero i a b = []
cycled (suc rounds) i a b =
    bit_xor (byte_at a (i % length a)) (byte_at b (i % length b)) ∷ cycled rounds (suc i) a b

cycle_at-byte :
    (buf : Bytes) (i : ℕ) → 1 ≤ length buf → cycle_at buf i ≡ ok (byte_at buf (i % length buf))
unfolding cycle_at
cycle_at-byte buf i h = ground arith

xor_cycles-cycled :
    (rounds i : ℕ) (a b : Bytes)
    → 1 ≤ length a
    → 1 ≤ length b
    → xor_cycles rounds i a b ≡ ok (cycled rounds i a b)
unfolding xor_cycles cycled
xor_cycles-cycled zero i a b h k = refl
xor_cycles-cycled (suc rounds) i a b h k =
    rw (cycle_at-byte a i h, cycle_at-byte b i k, xor_cycles-cycled rounds (suc i) a b h k)

-- Pairs at equal places, from place `i` on.
paired : ℕ → ℕ → Bytes → Bytes → Bytes
paired zero i a b = []
paired (suc n) i a b = bit_xor (byte_at a i) (byte_at b i) ∷ paired n (suc i) a b

below_mod : (i n : ℕ) → i < n → i % n ≡ i
below_mod i n h = mod-eq_of_lt h

take-cycled :
    (n rounds i : ℕ) (a b : Bytes)
    → n ≤ rounds
    → i + n ≤ length a
    → i + n ≤ length b
    → take n (cycled rounds i a b) ≡ paired n i a b
unfolding cycled paired
take-cycled zero rounds i a b h k l = refl
take-cycled (suc n) zero i a b h k l = absurd (omega arith)
take-cycled (suc n) (suc rounds) i a b h k l = rw (
  below_mod i (length a) (omega arith),
  below_mod i (length b) (omega arith),
  take-cycled n rounds (suc i) a b (omega arith) (omega arith) (omega arith),
)

paired_next : (n i x y : ℕ) (a b : Bytes) → paired n (suc i) (x ∷ a) (y ∷ b) ≡ paired n i a b
unfolding paired
paired_next zero i x y a b = refl
paired_next (suc n) i x y a b =
    ap (λ t. bit_xor (byte_at a i) (byte_at b i) ∷ t) (paired_next n (suc i) x y a b)

paired-map2 :
    (n : ℕ) (a b : Bytes) → n ≡ min (length a) (length b) → paired n 0 a b ≡ map2 bit_xor a b
unfolding paired
paired-map2 zero [] b h = refl
paired-map2 zero (x ∷ a) [] h = refl
paired-map2 zero (x ∷ a) (y ∷ b) h = absurd (omega arith)
paired-map2 (suc n) [] b h = absurd (omega arith)
paired-map2 (suc n) (x ∷ a) [] h = absurd (omega arith)
paired-map2 (suc n) (x ∷ a) (y ∷ b) h =
    ap (λ t. bit_xor x y ∷ t) (paired_next n 0 x y a b ∙ paired-map2 n a b (omega arith))

-- Two strings of which neither is empty are xored byte by byte, up to the end of the shorter.
pub xor_bufs-map2 :
    (a b : Bytes) → 1 ≤ length a → 1 ≤ length b → xor_bufs a b ≡ ok (map2 bit_xor a b)
unfolding xor_bufs
xor_bufs-map2 a b h k =
    let (n, rounds) : ℕ × ℕ = (min (length a) (length b), max (length a) (length b)) in
    rw (
      xor_cycles-cycled rounds 0 a b h k,
      take-cycled n rounds 0 a b (omega arith) (omega arith) (omega arith),
      paired-map2 n a b refl,
    )

-- The same mask a second time takes the first away, and the result is again of bytes.
pub map2-bit_xor_twice :
    (a mask : Bytes) → length a ≤ length mask → map2 bit_xor (map2 bit_xor a mask) mask ≡ a
map2-bit_xor_twice [] mask h = refl
map2-bit_xor_twice (x ∷ a) [] h = absurd (omega arith)
map2-bit_xor_twice (x ∷ a) (y ∷ mask) h =
    rw (bit_xor_twice x y, map2-bit_xor_twice a mask (omega arith))

pub length-map2 : (f : ℕ → ℕ → ℕ) (a b : Bytes) → length (map2 f a b) ≡ min (length a) (length b)
length-map2 f [] b = omega arith
length-map2 f (x ∷ a) [] = omega arith
length-map2 f (x ∷ a) (y ∷ b) = omega (arith, length-map2 f a b)

pub map2-bit_xor-IsBytes : (a b : Bytes) → IsBytes a → IsBytes b → IsBytes (map2 bit_xor a b)
map2-bit_xor-IsBytes [] b h k = tt
map2-bit_xor-IsBytes (x ∷ a) [] h k = tt
map2-bit_xor-IsBytes (x ∷ a) (y ∷ b) h k =
    (bit_xor-lt 8 x y h.0 k.0, map2-bit_xor-IsBytes a b h.1 k.1)
