-- ===== src/Stun/Message/Reading.antt =====
-- What `read_attr` reads where an attribute stands in the message.
use aionetiface.Prelude.{ℕ, suc, ◌+◌, ◌-◌, ◌*◌, ◌/◌, ◌%◌, ◌≤◌, ◌≡◌, refl, ap, ◌∙◌}
use aionetiface.Prelude.{arith, [], ◌∷◌, ◌++◌, length, take, drop, replicate, Option, none, some}
use aionetiface.Prelude.{length-append, length-replicate, length-drop, take-append, drop-add}
use aionetiface.Prelude.{ltb-eq_true, leb-eq_true, ==-eq_false, append_assoc}
use aionetiface.Bytes.{Bytes, be16, ok, slice}
use aionetiface.Stun.Message.{StunMsg, pad_len, read_attr}

-- An attribute on the wire: the code, the length, the bytes and the filling.
abbrev pub attr_wire : ℕ → Bytes → Bytes
attr_wire code bytes =
    be16 code ++ (be16 (length bytes) ++ (bytes ++ replicate (pad_len (length bytes)) 0))

-- The data that `read_attr` gives for these bytes.
abbrev pub content : Bytes → Option Bytes
content [] = none
content (x ∷ xs) = some (x ∷ xs)

abbrev pub wire_len : Bytes → ℕ
wire_len bytes = 4 + (length bytes + pad_len (length bytes))

pub length-attr_wire : (code : ℕ) (bytes : Bytes) → length (attr_wire code bytes) ≡ wire_len bytes
length-attr_wire code bytes =
    let pad = pad_len (length bytes) in
    omega (arith, length-append bytes (replicate pad 0), length-replicate {A = ℕ} pad 0)

pub slice_after : (i n : ℕ) (buf : Bytes) → slice i (i + n) buf ≡ take n (drop i buf)
slice_after i n buf = let e : i + n - i ≡ n = omega arith in rw e

-- Where a part of the message is known, the message is long enough for it.
reaches : (c n : ℕ) (buf : Bytes) → 1 ≤ n → length (drop c buf) ≡ n → length buf ≡ c + n
reaches c n buf h k = omega (arith, length-drop c buf)

pub number_read : (code : ℕ) → code / 256 * 256 + code % 256 ≡ code
number_read code = omega arith

pub read_attr-wire :
    (m : StunMsg) (code : ℕ) (bytes rest : Bytes)
    → drop m.attr_cursor m.msg ≡ attr_wire code bytes ++ rest
    → read_attr m
      ≡ ok (
        (some code, some (length bytes), content bytes),
        record m { attr_cursor = m.attr_cursor + wire_len bytes },
      )
unfolding read_attr
read_attr-wire m code [] rest at =
    let c = m.attr_cursor in
    let long = reaches c (length (attr_wire code [] ++ rest)) m.msg (omega arith) (ap length at) in
    rw (
      ltb-eq_true (c + 3) (length m.msg) (omega arith),
      slice_after c 4 m.msg,
      at,
      number_read code,
    )
read_attr-wire m code (x ∷ xs) rest at =
    let c = m.attr_cursor in
    let n = suc (length xs) in
    let pad : Bytes = replicate (pad_len n) 0 in
    let sizes : length (xs ++ pad ++ rest) ≡ length xs + length pad + length rest =
      length-append (xs ++ pad) rest ∙ ap (λ (k : ℕ). k + length rest) (length-append xs pad) in
    let cut : take (length xs) (xs ++ pad ++ rest) ≡ xs =
      ap (λ (t : Bytes). take (length xs) t) (append_assoc xs pad rest)
      ∙ take-append (length xs) xs (pad ++ rest) refl in
    let whole = attr_wire code (x ∷ xs) ++ rest in
    let long = reaches c (length whole) m.msg (omega arith) (ap length at) in
    let behind : c + 4 + (n + pad_len n) ≡ c + wire_len (x ∷ xs) = omega arith in
    rw (
      ltb-eq_true (c + 3) (length m.msg) (omega arith),
      slice_after c 4 m.msg,
      at,
      number_read code,
      number_read n,
      ==-eq_false n 0 (λ e. absurd (omega arith)),
      leb-eq_true (c + 4 + (n - 1)) (length m.msg - 1) (omega (arith, sizes)),
      slice_after (c + 4) n m.msg,
      drop-add c 4 m.msg,
      at,
      cut,
      behind,
    )
