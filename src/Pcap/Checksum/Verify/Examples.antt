-- ===== src/Pcap/Checksum/Verify/Examples.antt =====
-- The checksum on concrete strings, and the theorems at concrete inputs.
use aionetiface.Prelude.{ℕ, ◌≡◌, refl, arith, ◌⊎◌, [], ◌∷◌}
use aionetiface.Bytes.{Bytes}
use aionetiface.Pcap.Checksum.{add_words, fold_all, pad_even, checksum16}
use aionetiface.Pcap.Checksum.Verify.{with_word, checksum16-filled, checksum16_detects_word}

-- The header of RFC 1071's usual example, with its checksum b861.
abbrev front : Bytes
front = 0x45 ∷ 0x00 ∷ 0x00 ∷ 0x73 ∷ 0x00 ∷ 0x00 ∷ 0x40 ∷ 0x00 ∷ 0x40 ∷ 0x11 ∷ []

abbrev back : Bytes
back = 0xc0 ∷ 0xa8 ∷ 0x00 ∷ 0x01 ∷ 0xc0 ∷ 0xa8 ∷ 0x00 ∷ 0xc7 ∷ []

checksum16_header : checksum16 (with_word front 0 back) ≡ 0xb861
unfolding checksum16 add_words fold_all pad_even
checksum16_header = refl

checksum16_odd : checksum16 (1 ∷ 2 ∷ 3 ∷ []) ≡ 0xfbfd
unfolding checksum16 add_words fold_all pad_even
checksum16_odd = refl

filled : checksum16 (with_word front 0xb861 back) ≡ 0
unfolding checksum16 add_words fold_all pad_even
filled = refl

checksum16-filled_example :
    checksum16 (with_word front (checksum16 (with_word front 0 back)) back) ≡ 0
checksum16-filled_example = checksum16-filled front back (omega arith) (omega arith) refl

checksum16_detects_word_example :
    (◌≡◌ {A = ℕ} 0xb861 0xb861)
    ⊎ ((◌≡◌ {A = ℕ} 0xb861 0) × (◌≡◌ {A = ℕ} 0xb861 65535))
    ⊎ ((◌≡◌ {A = ℕ} 0xb861 65535) × (◌≡◌ {A = ℕ} 0xb861 0))
checksum16_detects_word_example =
    checksum16_detects_word front back 0xb861 0xb861 (omega arith) (omega arith) refl (omega arith)
      (omega arith) filled filled
