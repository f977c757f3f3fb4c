-- ===== src/Bytes/Laws.antt =====
-- Laws of byte strings and of `pack`.
use aionetiface.Prelude.{ℕ, zero, suc, ◌+◌, ◌-◌, ◌^◌, ◌<◌, ◌≡◌, refl, ap, ◌∙◌, arith}
use aionetiface.Prelude.{List, [], ◌∷◌, ◌++◌, append-nil, length, take, drop, replicate, take_all}
use aionetiface.Bytes.{Bytes, IsBytes, ok, Field, u8, u16, u32, chars, be16, be32, fit_to}
use aionetiface.Bytes.{encode, pack, byte_at}

pub IsBytes-append : (xs ys : Bytes) → IsBytes xs → IsBytes ys → IsBytes (xs ++ ys)
IsBytes-append [] ys h k = k
IsBytes-append (x ∷ xs) ys h k = (h.0, IsBytes-append xs ys h.1 k)

pub IsBytes-take : (n : ℕ) (xs : Bytes) → IsBytes xs → IsBytes (take n xs)
IsBytes-take zero xs h = tt
IsBytes-take (suc n) [] h = tt
IsBytes-take (suc n) (x ∷ xs) h = (h.0, IsBytes-take n xs h.1)

pub IsBytes-drop : (n : ℕ) (xs : Bytes) → IsBytes xs → IsBytes (drop n xs)
IsBytes-drop zero xs h = h
IsBytes-drop (suc n) [] h = tt
IsBytes-drop (suc n) (x ∷ xs) h = IsBytes-drop n xs h.1

pub IsBytes-replicate : (n a : ℕ) → a < 256 → IsBytes (replicate n a)
IsBytes-replicate zero a h = tt
IsBytes-replicate (suc n) a h = (h, IsBytes-replicate n a h)

pub byte_at-lt : (bs : Bytes) (i : ℕ) → IsBytes bs → byte_at bs i < 256
byte_at-lt [] i h = omega arith
byte_at-lt (b ∷ bs) zero h = h.0
byte_at-lt (b ∷ bs) (suc i) h = byte_at-lt bs i h.1

pub fit_to_exact : (n : ℕ) (bs : Bytes) → length bs ≡ n → fit_to n bs ≡ bs
fit_to_exact n bs h =
    let e : n - length bs ≡ 0 = omega arith in rw (take_all n bs (omega arith), e, append-nil)

-- The fields that `pack` accepts, and what it writes for them.
abbrev pub Fits : Field → Type 0
Fits (u8 n) = n < 256
Fits (u16 n) = n < 2 ^ 16
Fits (u32 n) = n < 2 ^ 32
Fits (chars n bs) = length bs ≡ n

abbrev pub AllFit : List Field → Type 0
AllFit [] = Unit {0}
AllFit (f ∷ fs) = Fits f × AllFit fs

abbrev pub written : Field → Bytes
written (u8 n) = n ∷ []
written (u16 n) = be16 n
written (u32 n) = be32 n
written (chars n bs) = bs

abbrev pub all_written : List Field → Bytes
all_written [] = []
all_written (f ∷ fs) = written f ++ all_written fs

encode-written : (f : Field) → Fits f → encode f ≡ ok (written f)
unfolding encode
encode-written (u8 n) h = ground arith
encode-written (u16 n) h = ground arith
encode-written (u32 n) h = ground arith
encode-written (chars n bs) h = ap ok (fit_to_exact n bs h)

pub pack-written : (fs : List Field) → AllFit fs → pack fs ≡ ok (all_written fs)
unfolding pack
pack-written [] h = refl
pack-written (f ∷ fs) h = rw (encode-written f h.0, pack-written fs h.1)

next : (n i : ℕ) → suc (n + i) ≡ suc n + i
next n i = omega arith

-- Reading in what is left after a cut.
pub byte_at-drop : (n i : ℕ) (bs : Bytes) → byte_at (drop n bs) i ≡ byte_at bs (n + i)
byte_at-drop zero i bs = ap (λ (k : ℕ). byte_at bs k) (omega arith)
byte_at-drop (suc n) i [] = refl
byte_at-drop (suc n) i (b ∷ bs) =
    byte_at-drop n i bs ∙ ap (λ (k : ℕ). byte_at (b ∷ bs) k) (next n i)
