-- ===== src/Pcap/Segment/Options.antt =====
-- The option parser against a plain encoding of option lists, and its termination.
use aionetiface.Prelude.{ℕ, zero, suc, ◌+◌, ◌-◌, ◌%◌, ◌^◌, ◌≤◌, ◌<◌, ◌≡◌, refl, ap, ◌∙◌, arith}
use aionetiface.Prelude.{false, inl, inr, Bool-cases, ◌⊎◌, some}
use aionetiface.Prelude.{[], ◌∷◌, ◌++◌, length, drop, ltb, ◌==◌, if◌then◌else◌}
use aionetiface.Prelude.{length-append, length-drop, take-append, drop-append}
use aionetiface.Bytes.{Bytes, ok, u8, u16, pack, be16}
use aionetiface.Bytes.Laws.{pack-written}
use aionetiface.Pcap.Segment.{opt_nop, opt_mss, build_mss_option}
use aionetiface.Pcap.Segment.{Parsed, parse_options_loop, parse_options, get_option}

-- `struct.pack("!BBH", OPT_MSS, 4, int(mss) & 0xffff)` writes those four bytes.
pub pack-build_mss_option :
    (mss : ℕ) → pack (u8 opt_mss ∷ u8 4 ∷ u16 (mss % 2 ^ 16) ∷ []) ≡ ok (build_mss_option mss)
unfolding build_mss_option
pack-build_mss_option mss = pack-written (u8 opt_mss ∷ u8 4 ∷ u16 (mss % 2 ^ 16) ∷ []) (omega arith)

-- An entry that stands for bytes on the wire: a NOP, or a kind above 1 with a body that a length
-- byte can count. `EOL` ends a list and is no entry.
abbrev pub IsOption : ℕ × Bytes → Type 0
IsOption (k, body) = ((k ≡ 1) × (length body ≡ 0)) ⊎ ((2 ≤ k) × (length body + 2 < 256))

abbrev pub AllOptions : Parsed → Type 0
AllOptions [] = Unit {0}
AllOptions (p ∷ ps) = IsOption p × AllOptions ps

pub encode_option : ℕ × Bytes → Bytes
encode_option (k, body) = if k == opt_nop then k ∷ [] else k ∷ (length body + 2) ∷ body

pub encode_options : Parsed → Bytes
encode_options [] = []
encode_options (p ∷ ps) = encode_option p ++ encode_options ps

-- One round on a NOP, and on an option with a body.
loop_nop :
    (fuel : ℕ) (rest : Bytes)
    → parse_options_loop (suc fuel) (1 ∷ rest) ≡ (1, []) ∷ parse_options_loop fuel rest
unfolding parse_options_loop
loop_nop fuel [] = refl
loop_nop fuel (b ∷ rest) = refl

loop_option :
    (fuel k : ℕ) (body rest : Bytes)
    → 2 ≤ k
    → parse_options_loop (suc fuel) (k ∷ (length body + 2) ∷ (body ++ rest))
      ≡ (k, body) ∷ parse_options_loop fuel rest
unfolding parse_options_loop
loop_option fuel k body rest h =
    let two : length body + 2 ≡ suc (suc (length body)) = omega arith in
    let left : suc (suc (length body)) - 2 ≡ length body = omega arith in
    rw two (
      rw left (
        rw (take-append (length body) body rest refl, drop-append (length body) body rest refl)
          (ground (arith, length-append body rest))))

loop_encode :
    (fuel : ℕ) (ps : Parsed)
    → AllOptions ps
    → length (encode_options ps) ≤ fuel
    → parse_options_loop fuel (encode_options ps) ≡ ps
unfolding encode_options encode_option
loop_encode fuel [] h le = unfold parse_options_loop in refl
loop_encode zero ((k, body) ∷ ps) h le = absurd (ground arith)
loop_encode (suc fuel) ((k, []) ∷ ps) (inl (one, empty), hs) le =
    rw one (loop_nop fuel _ ∙ ap (λ t. (1, []) ∷ t) (loop_encode fuel ps hs (ground arith)))
loop_encode (suc fuel) ((k, b ∷ body) ∷ ps) (inl (one, empty), hs) le = absurd (omega arith)
loop_encode (suc fuel) ((k, body) ∷ ps) (inr (two, short), hs) le =
    let kind : (k == opt_nop) ≡ false = ground arith in
    let left : length (encode_options ps) ≤ fuel =
      ground (arith, length-append ((length body + 2) ∷ body) (encode_options ps)) in
    rw kind (
      loop_option fuel k body (encode_options ps) two
      ∙ ap (λ t. (k, body) ∷ t) (loop_encode fuel ps hs left))

-- A list of well-formed options, written one after the other, is parsed back to that list.
pub parse-encode_options : (ps : Parsed) → AllOptions ps → parse_options (encode_options ps) ≡ ps
unfolding parse_options
parse-encode_options ps h = loop_encode (length (encode_options ps)) ps h (omega arith)

-- The fuel does not matter once it covers the buffer: the loop has ended by then.
pub parse_options_fuel :
    (f g : ℕ) (buf : Bytes)
    → length buf ≤ f
    → length buf ≤ g
    → parse_options_loop f buf ≡ parse_options_loop g buf
unfolding parse_options_loop
parse_options_fuel zero zero buf hf hg = refl
parse_options_fuel zero (suc g) [] hf hg = refl
parse_options_fuel zero (suc g) (k ∷ rest) hf hg = absurd (omega arith)
parse_options_fuel (suc f) zero [] hf hg = refl
parse_options_fuel (suc f) zero (k ∷ rest) hf hg = absurd (omega arith)
parse_options_fuel (suc f) (suc g) [] hf hg = refl
parse_options_fuel (suc f) (suc g) (k ∷ []) hf hg = refl
parse_options_fuel (suc f) (suc g) (k ∷ len ∷ rest) hf hg = elim (Bool-cases (ltb len 2)) [
  | inl short ↦ rw (short, parse_options_fuel f g (len ∷ rest) (omega arith) (omega arith))
  | inr long ↦
      let two : 2 ≤ len = ground arith in
      let left : length (drop len (k ∷ len ∷ rest)) ≤ length rest =
        omega (arith, length-drop len (k ∷ len ∷ rest)) in
      rw (
        parse_options_fuel f g (len ∷ rest) (omega arith) (omega arith),
        parse_options_fuel f g (drop len (k ∷ len ∷ rest)) (omega arith) (omega arith),
      )
]

-- The MSS option that a SYN carries is found again.
pub get-mss_option :
    (mss : ℕ)
    → get_option (parse_options (build_mss_option mss)) opt_mss ≡ some (be16 (mss % 2 ^ 16))
unfolding get_option parse_options parse_options_loop build_mss_option
get-mss_option mss = refl
