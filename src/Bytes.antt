-- ===== src/Bytes.antt =====
-- Byte strings, Python's exceptions as values, and the part of Python's `struct` that the packet
-- code uses. A byte string is a list of numbers below 256; network order is high byte first.
pub mod Laws
use aionetiface.Prelude.{ℕ, zero, suc, ◌+◌, ◌-◌, ◌*◌, ◌/◌, ◌%◌, ◌^◌, ◌<◌}
use aionetiface.Prelude.{
  Bool, true, false, List, [], ◌∷◌, ◌++◌, length, take, drop, replicate, ltb, if◌then◌else◌,
}

-- The exceptions that the modelled code raises: its own `ValueError` and plain `Exception`,
-- `struct.error` for a number that does not fit its field, `ConnectionError2` of a connection,
-- and Python's own for a remainder by zero, an operation on `None`, a failed system call, an
-- assertion, an index out of range and a missing attribute.
pub data Error : Type 0 where
  value_error struct_error connection_error : Error
  plain_exception zero_division_error type_error os_error : Error
  assertion_error index_error attribute_error : Error

pub data Result {ℓ} (A : Type ℓ) : Type ℓ where
  ok : A → Result A
  err : Error → Result A

infixl 5 ◌>>=◌ ◌>>◌
abbrev pub ◌>>=◌ {ℓ κ} : {A : Type ℓ} {B : Type κ} → Result A → (A → Result B) → Result B
ok a >>= f = f a
err e >>= f = err e

abbrev pub ◌>>◌ {ℓ κ} : {A : Type ℓ} {B : Type κ} → Result A → Result B → Result B
m >> k = m >>= λ _. k

-- `if b: raise e`
abbrev pub fail_if : Bool → Error → Result (Unit {0})
fail_if true e = err e
fail_if false e = ok tt

abbrev pub Bytes : Type 0
Bytes = List ℕ

abbrev pub IsBytes : Bytes → Type 0
IsBytes [] = Unit {0}
IsBytes (b ∷ bs) = (b < 256) × IsBytes bs

-- One item of a `struct.pack` call with a big-endian format: `B`, `H`, `I` and `<n>s`.
pub data Field : Type 0 where
  u8 u16 u32 : ℕ → Field
  chars : ℕ → Bytes → Field

abbrev pub be16 : ℕ → Bytes
be16 n = n / 256 ∷ n % 256 ∷ []

abbrev pub be32 : ℕ → Bytes
be32 n = n / 2 ^ 24 ∷ n / 2 ^ 16 % 256 ∷ n / 2 ^ 8 % 256 ∷ n % 256 ∷ []

-- `<n>s` cuts a longer string and fills a shorter one with zero bytes.
abbrev pub fit_to : ℕ → Bytes → Bytes
fit_to n bs = take n bs ++ replicate (n - length bs) 0

pub encode : Field → Result Bytes
encode (u8 n) = if ltb n 256 then ok (n ∷ []) else err struct_error
encode (u16 n) = if ltb n (2 ^ 16) then ok (be16 n) else err struct_error
encode (u32 n) = if ltb n (2 ^ 32) then ok (be32 n) else err struct_error
encode (chars n bs) = ok (fit_to n bs)

-- `struct.pack("!...", ...)`.
pub pack : List Field → Result Bytes
pack [] = ok []
pack (f ∷ fs) = do head ← encode f; rest ← pack fs; ok (head ++ rest)

-- `struct.unpack` reads fixed places; these are `B`, `H`, `I` at an offset. The code checks the
-- length before it unpacks, so the value past the end does not matter.
abbrev pub byte_at : Bytes → ℕ → ℕ
byte_at [] i = 0
byte_at (b ∷ bs) zero = b
byte_at (b ∷ bs) (suc i) = byte_at bs i

abbrev pub u16_at : Bytes → ℕ → ℕ
u16_at bs i = byte_at bs i * 256 + byte_at bs (i + 1)

abbrev pub u32_at : Bytes → ℕ → ℕ
u32_at bs i =
    byte_at bs i * 2 ^ 24
    + byte_at bs (i + 1) * 2 ^ 16
    + byte_at bs (i + 2) * 2 ^ 8
    + byte_at bs (i + 3)

-- `buf[i:j]`
abbrev pub slice : ℕ → ℕ → Bytes → Bytes
slice i j bs = take (j - i) (drop i bs)
