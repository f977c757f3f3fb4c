-- ===== src/Topology/Hints/Laws.antt =====
-- Hints that were encoded are read back; topology.py.
use aionetiface.Prelude.{ℕ, ◌≡◌, refl, arith, Bool, true, false, not, ◌&&◌, ◌||◌}
use aionetiface.Prelude.{List, [], ◌∷◌, Option, none, some, ◌==◌}
use aionetiface.Bytes.{Bytes}
use aionetiface.Utility.Ranges.{ℤ}
use aionetiface.Text.{join, decimal_int, is_empty}
use aionetiface.Text.Splitting.{
  lacks, all_lack, split-join, lacks-bracketed, lacks-join, has_brackets-bracketed, inner-bracketed,
  is_short-bracketed,
}
use aionetiface.Text.Decimal.{to_n-decimal_int, lacks-decimal_int}
use aionetiface.Topology.{Hint}
use aionetiface.Topology.Hints.{
  is_zero_mark, is_zero, hint_of, parse_hint, add_hint, parse_hints, parse_server_hints, GivenHint,
  complete, usable_hints, encode_hint, encode_hints, joined_or_zero, encode_server_hints,
}

-- The marks between entries and between sections.
abbrev pub is_outer : ℕ → Bool
is_outer mark = mark == b'|' || mark == b'^'

abbrev pub hosts_lack : ℕ → List Hint → Bool
hosts_lack mark [] = true
hosts_lack mark (hint ∷ hints) = lacks mark hint.host && hosts_lack mark hints

abbrev pub can_send : Hint → Bool
can_send hint = not (is_empty hint.host || is_zero hint.port)

abbrev pub all_can_send : List Hint → Bool
all_can_send [] = true
all_can_send (hint ∷ hints) = can_send hint && all_can_send hints

complete-can_send :
    (af : Option ℤ) (host : Option Bytes) (port : Option ℤ) (hints : List Hint)
    → all_can_send hints ≡ true
    → all_can_send (add_hint (complete af host port) hints) ≡ true
complete-can_send none host port hints h = h
complete-can_send (some af) none port hints h = h
complete-can_send (some af) (some host) none hints h = h
complete-can_send (some af) (some host) (some port) hints h = ground arith

usable_hints-can_send : (hints : List GivenHint) → all_can_send (usable_hints hints) ≡ true
usable_hints-can_send [] = refl
usable_hints-can_send (given ∷ hints) =
    complete-can_send given.af given.host given.port (usable_hints hints)
      (usable_hints-can_send hints)

lacks-encode_hint :
    (mark : ℕ) (hint : Hint)
    → is_outer mark ≡ true
    → lacks mark hint.host ≡ true
    → lacks mark (encode_hint hint) ≡ true
lacks-encode_hint mark hint h k =
    let texts : List Bytes = decimal_int hint.af ∷ hint.host ∷ decimal_int hint.port ∷ [] in
    lacks-bracketed mark (join b',' texts) (ground arith) (ground arith) (
      lacks-join mark b',' texts (ground arith) (
        ground (
          arith,
          lacks-decimal_int mark hint.af (ground arith) (ground arith),
          lacks-decimal_int mark hint.port (ground arith) (ground arith),
        )))

lacks-encode_hints :
    (mark : ℕ) (hints : List Hint)
    → is_outer mark ≡ true
    → hosts_lack mark hints ≡ true
    → all_lack mark (encode_hints hints) ≡ true
lacks-encode_hints mark [] h k = refl
lacks-encode_hints mark (hint ∷ hints) h k = ground (
  arith,
  lacks-encode_hint mark hint h (ground arith),
  lacks-encode_hints mark hints h (ground arith),
)

pub lacks-joined_or_zero :
    (mark : ℕ) (parts : List Bytes)
    → (b'|' == mark) ≡ false
    → (b'0' == mark) ≡ false
    → all_lack mark parts ≡ true
    → lacks mark (joined_or_zero parts) ≡ true
lacks-joined_or_zero mark [] h k l = ground arith
lacks-joined_or_zero mark (part ∷ parts) h k l = lacks-join mark b'|' (part ∷ parts) h l

-- No mark between sections gets into a section of hints.
pub lacks-encode_server_hints :
    (hints : List GivenHint)
    → hosts_lack b'^' (usable_hints hints) ≡ true
    → lacks b'^' (encode_server_hints hints) ≡ true
unfolding encode_server_hints
lacks-encode_server_hints hints h =
    lacks-joined_or_zero b'^' (encode_hints (usable_hints hints)) refl refl
      (lacks-encode_hints b'^' (usable_hints hints) refl h)

hint_of-texts :
    (hint : Hint)
    → can_send hint ≡ true
    → hint_of (decimal_int hint.af ∷ hint.host ∷ decimal_int hint.port ∷ []) ≡ some hint
hint_of-texts hint h = rw (to_n-decimal_int hint.af, to_n-decimal_int hint.port) (ground arith)

parse-encode_hint :
    (hint : Hint)
    → can_send hint ≡ true
    → lacks b',' hint.host ≡ true
    → parse_hint (encode_hint hint) ≡ some hint
unfolding parse_hint
parse-encode_hint hint h k =
    let texts : List Bytes = decimal_int hint.af ∷ hint.host ∷ decimal_int hint.port ∷ [] in
    rw (
      is_short-bracketed (join b',' texts),
      has_brackets-bracketed (join b',' texts),
      inner-bracketed (join b',' texts),
      split-join b',' (decimal_int hint.af) (hint.host ∷ decimal_int hint.port ∷ []) (
          ground (
            arith,
            lacks-decimal_int b',' hint.af refl refl,
            lacks-decimal_int b',' hint.port refl refl,
          )),
      hint_of-texts hint h,
    )

parse-encode_hints :
    (hints : List Hint)
    → all_can_send hints ≡ true
    → hosts_lack b',' hints ≡ true
    → parse_hints (encode_hints hints) ≡ hints
parse-encode_hints [] h k = refl
parse-encode_hints (hint ∷ hints) h k = rw (
  parse-encode_hint hint (ground arith) (ground arith),
  parse-encode_hints hints (ground arith) (ground arith),
)

is_zero_mark-bracket :
    (text : Bytes) → (is_empty (b'[' ∷ text) || is_zero_mark (b'[' ∷ text)) ≡ false
is_zero_mark-bracket [] = refl
is_zero_mark-bracket (b ∷ text) = refl

joined-is_zero_mark :
    (hint : Hint) (hints : List Hint)
    → (is_empty (joined_or_zero (encode_hints (hint ∷ hints)))
        || is_zero_mark (joined_or_zero (encode_hints (hint ∷ hints))))
      ≡ false
joined-is_zero_mark hint [] = is_zero_mark-bracket _
joined-is_zero_mark hint (next ∷ hints) = is_zero_mark-bracket _

parse-joined :
    (hints : List Hint)
    → all_can_send hints ≡ true
    → hosts_lack b',' hints ≡ true
    → hosts_lack b'|' hints ≡ true
    → parse_server_hints (joined_or_zero (encode_hints hints)) ≡ hints
unfolding parse_server_hints
parse-joined [] h k l = refl
parse-joined (hint ∷ hints) h k l = rw (
  joined-is_zero_mark hint hints,
  split-join b'|' (encode_hint hint) (encode_hints hints)
      (lacks-encode_hints b'|' (hint ∷ hints) refl l),
  parse-encode_hints (hint ∷ hints) h k,
)

-- The hints that have all three parts come back, if no host has a comma or a bar in it.
pub parse-encode_server_hints :
    (hints : List GivenHint)
    → hosts_lack b',' (usable_hints hints) ≡ true
    → hosts_lack b'|' (usable_hints hints) ≡ true
    → parse_server_hints (encode_server_hints hints) ≡ usable_hints hints
unfolding encode_server_hints
parse-encode_server_hints hints h k =
    parse-joined (usable_hints hints) (usable_hints-can_send hints) h k
