-- ===== src/Http/Request.antt =====
-- `http_req_buf` and `get_hdr` of aionetiface/protocol/http/http_client_lib.py, on ASCII texts.
-- The list of headers that the caller gives is extended in place: the result has the list as the
-- call leaves it.
use aionetiface.Prelude.{ℕ, suc, ◌+◌, ◌-◌, Bool, true, false, ◌&&◌, ◌||◌, Option, none, some}
use aionetiface.Prelude.{List, [], ◌∷◌, ◌++◌, length, take, leb, ◌==◌, if◌then◌else◌}
use aionetiface.Bytes.{Bytes}
use aionetiface.Stun.Address.{Family, ip4, ip6}
use aionetiface.Text.{bracketed, decimal}
use aionetiface.Http.{blank_line}

abbrev pub Header : Type 0
Header = Bytes × Bytes

abbrev pub same_text : Bytes → Bytes → Bool
same_text [] [] = true
same_text [] (b ∷ text) = false
same_text (a ∷ text) [] = false
same_text (a ∷ text) (b ∷ other) = a == b && same_text text other

abbrev pub lower_byte : ℕ → ℕ
lower_byte b = if leb b'A' b && leb b b'Z' then b + 32 else b

abbrev pub lower : Bytes → Bytes
lower [] = []
lower (b ∷ text) = lower_byte b ∷ lower text

abbrev pub host_name : Bytes
host_name = b'h' ∷ b'o' ∷ b's' ∷ b't' ∷ []

abbrev pub line_end : Bytes
line_end = 13 ∷ 10 ∷ []

-- `b"%s: %s\r\n" % (n, v)`
abbrev pub header_line : Bytes → Bytes → Bytes
header_line n v = n ++ (b':' ∷ b' ' ∷ (v ++ line_end))

abbrev pub is_seen : Bytes → List Bytes → Bool
is_seen n [] = false
is_seen n (other ∷ names) = same_text n other || is_seen n names

-- The loop over the headers, with the names that were written.
abbrev pub header_lines : List Header → List Bytes → Bytes
header_lines [] hdrs = []
header_lines ((n, v) ∷ headers) hdrs =
    let skipped = header_lines headers hdrs in
    let written = header_line n v ++ header_lines headers (n ∷ hdrs) in
    if same_text (lower n) host_name || is_seen n hdrs then skipped else written

abbrev pub host_text : Family → Bytes → Bytes
host_text ip4 host = host
host_text ip6 host = bracketed host

abbrev pub version : Bytes
version = b' ' ∷ b'H' ∷ b'T' ∷ b'T' ∷ b'P' ∷ b'/' ∷ b'1' ∷ b'.' ∷ b'0' ∷ line_end

abbrev pub content_length : Bytes
content_length =
    b'C' ∷ b'o' ∷ b'n' ∷ b't' ∷ b'e' ∷ b'n' ∷ b't' ∷ b'-' ∷ b'L' ∷ b'e' ∷ b'n' ∷ b'g' ∷ b't' ∷ b'h'
    ∷ []

abbrev pub length_line : Option Bytes → Bytes
length_line none = []
length_line (some payload) = header_line content_length (decimal (length payload))

abbrev pub payload_text : Option Bytes → Bytes
payload_text none = []
payload_text (some payload) = payload

-- `headers += HTTP_HEADERS`, or the default list itself.
abbrev pub all_headers : List Header → Option (List Header) → List Header
all_headers http_headers none = http_headers
all_headers http_headers (some headers) = headers ++ http_headers

-- Up to the last line end, which is cut off.
abbrev pub request_lines : List Header → Family → Bytes → Bytes → Bytes → Option Bytes → Bytes
request_lines headers af host path method payload =
    (method ++ (b' ' ∷ (path ++ version)))
    ++ ((b'H' ∷ b'o' ∷ b's' ∷ b't' ∷ b':' ∷ b' ' ∷ (host_text af host ++ line_end))
        ++ (header_lines headers [] ++ length_line payload))

unfoldable pub http_req_buf :
    List Header
    → Family
    → Bytes
    → Bytes
    → Bytes
    → Option Bytes
    → Option (List Header)
    → Bytes × List Header
http_req_buf http_headers af host path method payload headers =
    let given = all_headers http_headers headers in
    let lines = request_lines given af host path method payload in
    (take (length lines - 2) lines ++ (blank_line ++ payload_text payload), given)

abbrev one_on : Option (ℕ × Bytes) → Option (ℕ × Bytes)
one_on none = none
one_on (some found) = some (suc found.0, found.1)

-- The place and the value of the first header of a name, in any case.
unfoldable pub get_hdr : Bytes → List Header → Option (ℕ × Bytes)
get_hdr name [] = none
get_hdr name ((n, v) ∷ hdrs) =
    let later = one_on (get_hdr name hdrs) in
    if same_text (lower n) (lower name) then some (0, v) else later
