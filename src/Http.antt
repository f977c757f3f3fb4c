-- ===== src/Http.antt =====
-- Requests and replies of HTTP, of aionetiface/protocol/http/http_client_lib.py. What `recv` gives
-- is the list of chunks, which ends where it gives nothing more.
pub mod Search
pub mod Reading
pub mod Request
mod Runs
use aionetiface.Prelude.{
  ℕ, zero, suc, ◌+◌, ◌-◌, Bool, true, false, not, ◌&&◌, ◌||◌, Option, none, some,
}
use aionetiface.Prelude.{List, [], ◌∷◌, ◌++◌, length, ltb, ◌==◌, if◌then◌else◌}
use aionetiface.Bytes.{Bytes}
use aionetiface.Text.{is_digit, is_empty, digits_value}

infixl 5 ◌>>=◌
abbrev pub ◌>>=◌ : {A B : Type 0} → Option A → (A → Option B) → Option B
none >>= f = none
some a >>= f = f a

-- What follows a fixed text.
abbrev pub after_text : Bytes → Bytes → Option Bytes
after_text [] text = some text
after_text (p ∷ ps) [] = none
after_text (p ∷ ps) (b ∷ text) = let rest = after_text ps text in if b == p then rest else none

abbrev pub after_either : ℕ → ℕ → Bytes → Option Bytes
after_either p q [] = none
after_either p q (b ∷ text) = if b == p || b == q then some text else none

abbrev pub after_spaces : Bytes → Bytes
after_spaces [] = []
after_spaces (b ∷ text) = let rest = after_spaces text in if b == b' ' then rest else b ∷ text

abbrev pub leading_digits : Bytes → Bytes
leading_digits [] = []
leading_digits (b ∷ text) = let rest = leading_digits text in if is_digit b then b ∷ rest else []

abbrev pub number_of : Bytes → Option ℕ
number_of text = if is_empty text then none else some (digits_value 0 text)

abbrev pub ontent : Bytes
ontent = b'o' ∷ b'n' ∷ b't' ∷ b'e' ∷ b'n' ∷ b't' ∷ b'-' ∷ []

abbrev pub ength : Bytes
ength = b'e' ∷ b'n' ∷ b'g' ∷ b't' ∷ b'h' ∷ b':' ∷ []

-- The pattern `[cC]ontent-[lL]ength: *([0-9]+)` at the start of a text.
unfoldable pub match_length : Bytes → Option ℕ
match_length text =
    after_either b'c' b'C' text
    >>= (λ t. after_text ontent t)
    >>= (λ t. after_either b'l' b'L' t)
    >>= (λ t. after_text ength t)
    >>= (λ t. number_of (leading_digits (after_spaces t)))

abbrev pub or_else : Option ℕ → Option ℕ → Option ℕ
or_else none later = later
or_else (some n) later = some n

-- `re.search`
unfoldable pub search_length : Bytes → Option ℕ
search_length [] = none
search_length (b ∷ text) = or_else (match_length (b ∷ text)) (search_length text)

abbrev pub blank_line : Bytes
blank_line = 13 ∷ 10 ∷ 13 ∷ 10 ∷ []

abbrev pub put_before : ℕ → Option (Bytes × Bytes) → Option (Bytes × Bytes)
put_before b none = none
put_before b (some (head, rest)) = some (b ∷ head, rest)

abbrev pub cut_here : ℕ → Option Bytes → Option (Bytes × Bytes) → Option (Bytes × Bytes)
cut_here b none later = put_before b later
cut_here b (some rest) later = some ([], rest)

-- `re.split(b"\r\n\r\n", out, maxsplit=1)`, with `none` where there is no blank line.
unfoldable pub cut_blank : Bytes → Option (Bytes × Bytes)
cut_blank [] = none
cut_blank (b ∷ text) = cut_here b (after_text blank_line (b ∷ text)) (cut_blank text)

-- What the first loop leaves: the bytes, the length that it found or 0, and the chunks to come.
pub record Head : Type 0 where
  pub out : Bytes
  pub content_len : ℕ
  pub chunks : List Bytes

abbrev pub head : Bytes → ℕ → List Bytes → Head
head text n rest = record { out = text; content_len = n; chunks = rest }

-- The test for the end of the headers, and what the search found in them.
abbrev pub stop_or : Option (Bytes × Bytes) → Option ℕ → Bytes → List Bytes → Head → Head
stop_or none found out chunks next = next
stop_or (some parts) none out chunks next = next
stop_or (some parts) (some n) out chunks next = head out n chunks

unfoldable pub read_head : List Bytes → Bytes → Head
read_head [] out = head out 0 []
read_head ([] ∷ chunks) out = head out 0 chunks
read_head ((b ∷ buf) ∷ chunks) out =
    let more = out ++ (b ∷ buf) in
    stop_or (cut_blank more) (search_length more) more chunks (read_head chunks more)

unfoldable pub read_body : ℕ → List Bytes → Bytes → Bytes
read_body content_len [] content = content
read_body content_len ([] ∷ chunks) content = content
read_body content_len ((b ∷ buf) ∷ chunks) content =
    let more = read_body content_len chunks (content ++ (b ∷ buf)) in
    if ltb (length content) content_len then more else content

-- Header block and body; `none` if the headers never ended. A length of 0 reads nothing more.
abbrev pub finish_read : Head → Option (Bytes × Bytes) → Option (Bytes × Bytes)
finish_read h none = none
finish_read h (some (headers, content)) = some (headers, read_body h.content_len h.chunks content)

-- `do_web_req` from the first `recv` on.
unfoldable pub read_reply : List Bytes → Option (Bytes × Bytes)
read_reply chunks = let h = read_head chunks [] in finish_read h (cut_blank h.out)

-- The whole of `do_web_req`: none of it is done without a connection, or if the request does not
-- go out.
unfoldable pub do_web_req : Bool → Bool → List Bytes → Option (Bytes × Bytes)
do_web_req connected sent chunks = if connected && sent then read_reply chunks else none
