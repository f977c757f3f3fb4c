-- ===== src/Topology/Hints.antt =====
-- The server hints of a node address: `parse_server_hints` and `encode_server_hints` of
-- aionetiface/net/topology.py.
pub mod Laws
use aionetiface.Prelude.{ℕ, ◌≡◌, refl, ap, ◌∙◌, arith, Bool, true, false, not, ◌&&◌, ◌||◌}
use aionetiface.Prelude.{List, [], ◌∷◌, ◌++◌, Option, none, some, length, ltb, ◌==◌, if◌then◌else◌}
use aionetiface.Bytes.{Bytes}
use aionetiface.Utility.Ranges.{ℤ, pos, negsuc}
use aionetiface.Text.{split, join, bracketed, has_brackets, inner, decimal_int, is_empty, to_n}
use aionetiface.Text.Splitting.{
  lacks, all_lack, split-join, lacks-bracketed, lacks-join, has_brackets-bracketed, inner-bracketed,
  is_short-bracketed,
}
use aionetiface.Text.Decimal.{to_n-decimal_int, lacks-decimal_int}
use aionetiface.Topology.{Hint}

abbrev pub is_zero_mark : Bytes → Bool
is_zero_mark [] = false
is_zero_mark (b ∷ []) = b == b'0'
is_zero_mark (b ∷ c ∷ text) = false

abbrev pub is_zero : ℤ → Bool
is_zero (pos n) = n == 0
is_zero (negsuc n) = false

-- The numbers that were read, or `none` for a `ValueError`.
abbrev pub read_hint : Option ℤ → Bytes → Option ℤ → Option Hint
read_hint none host port = none
read_hint (some af) host none = none
read_hint (some af) host (some port) =
    if is_empty host || is_zero port
    then none
    else some record { af = af; host = host; port = port }

abbrev pub hint_of : List Bytes → Option Hint
hint_of (af ∷ host ∷ port ∷ []) = read_hint (to_n af) host (to_n port)
hint_of _ = none

-- One round of the loop.
unfoldable pub parse_hint : Bytes → Option Hint
parse_hint entry =
    if ltb (length entry) 2
    then none
    else hint_of (split b',' (if has_brackets entry then inner entry else entry))

abbrev pub add_hint : Option Hint → List Hint → List Hint
add_hint none hints = hints
add_hint (some hint) hints = hint ∷ hints

abbrev pub parse_hints : List Bytes → List Hint
parse_hints [] = []
parse_hints (entry ∷ entries) = add_hint (parse_hint entry) (parse_hints entries)

unfoldable pub parse_server_hints : Bytes → List Hint
parse_server_hints buf =
    if is_empty buf || is_zero_mark buf then [] else parse_hints (split b'|' buf)

-- A dict of which every key may be missing.
pub record GivenHint : Type 0 where
  pub af : Option ℤ
  pub host : Option Bytes
  pub port : Option ℤ

-- The guard of the loop in `encode_server_hints`.
abbrev pub complete : Option ℤ → Option Bytes → Option ℤ → Option Hint
complete (some af) (some host) (some port) =
    if is_empty host || is_zero port
    then none
    else some record { af = af; host = host; port = port }
complete _ _ _ = none

abbrev pub usable_hints : List GivenHint → List Hint
usable_hints [] = []
usable_hints (given ∷ hints) =
    add_hint (complete given.af given.host given.port) (usable_hints hints)

abbrev pub encode_hint : Hint → Bytes
encode_hint hint =
    bracketed (join b',' (decimal_int hint.af ∷ hint.host ∷ decimal_int hint.port ∷ []))

abbrev pub encode_hints : List Hint → List Bytes
encode_hints [] = []
encode_hints (hint ∷ hints) = encode_hint hint ∷ encode_hints hints

-- `b"|".join(parts) if parts else b"0"`
abbrev pub joined_or_zero : List Bytes → Bytes
joined_or_zero [] = b'0' ∷ []
joined_or_zero (part ∷ parts) = join b'|' (part ∷ parts)

unfoldable pub encode_server_hints : List GivenHint → Bytes
encode_server_hints hints = joined_or_zero (encode_hints (usable_hints hints))
