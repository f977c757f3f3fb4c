-- ===== src/Http/Runs.antt =====
-- Requests and replies at fixed texts.
use Prim.Native.Char.{code}
use Prim.Native.String.{String}
use aionetiface.Prelude.{◌≡◌, refl, true, some, List, [], ◌∷◌, ◌++◌}
use aionetiface.Bytes.{Bytes}
use aionetiface.Stun.Address.{ip6}
use aionetiface.Text.{digits, decimal}
use aionetiface.Http.{
  match_length, search_length, cut_blank, read_head, read_body, read_reply, do_web_req, blank_line,
}
use aionetiface.Http.Reading.{do_web_req-joined}
use aionetiface.Http.Request.{Header, http_req_buf, get_hdr}

abbrev codes : String → Bytes
codes String.[] = []
codes (String.◌∷◌ c s) = code c ∷ codes s

abbrev ok_headers : Bytes
ok_headers = codes "HTTP/1.0 200 OK" ++ (13 ∷ 10 ∷ codes "content-Length:  5")

-- Cut inside the number and inside the blank line.
abbrev chunks : List Bytes
chunks =
    (codes "HTTP/1.0 200 OK" ++ (13 ∷ 10 ∷ codes "content-Length:  "))
    ∷ (codes "5" ++ (13 ∷ 10 ∷ 13 ∷ []))
    ∷ (10 ∷ codes "he")
    ∷ codes "llo"
    ∷ []

headers_end : cut_blank (ok_headers ++ blank_line) ≡ some (ok_headers, [])
unfolding cut_blank
headers_end = refl

headers_length : search_length ok_headers ≡ some 5
unfolding search_length match_length
headers_length = refl

do_web_req-joined_example : do_web_req true true chunks ≡ some (ok_headers, codes "hello")
do_web_req-joined_example =
    do_web_req-joined ok_headers (codes "hello") chunks headers_end headers_length
      (refl, (refl, (refl, (refl, tt)))) refl

-- Without a length the body ends with the connection.
no_length :
    do_web_req true true ((codes "A: b" ++ blank_line) ∷ codes "x" ∷ codes "yz" ∷ [])
    ≡ some (codes "A: b", codes "xyz")
unfolding do_web_req read_reply read_head read_body cut_blank search_length match_length
no_length = refl

-- The body of a request comes back from the same reader; a name that was written is left out.
abbrev default_headers : List Header
default_headers = (codes "Accept", codes "*/*") ∷ []

request :
    http_req_buf default_headers ip6
      (codes "::1")
      (codes "/x")
      (codes "POST")
      (some (codes "abc"))
      (some ((codes "HOST", codes "h") ∷ (codes "Accept", codes "q") ∷ []))
    ≡ (
      codes "POST /x HTTP/1.0"
          ++ (13
              ∷ 10
              ∷ (codes "Host: [::1]"
                  ++ (13
                      ∷ 10
                      ∷ (codes "Accept: q"
                          ++ (13
                              ∷ 10
                              ∷ (codes "Content-Length: 3" ++ (blank_line ++ codes "abc"))))))),
      (codes "HOST", codes "h") ∷ (codes "Accept", codes "q") ∷ default_headers,
    )
unfolding http_req_buf decimal digits
request = refl

any_case : get_hdr (codes "aCCept") ((codes "A", []) ∷ default_headers) ≡ some (1, codes "*/*")
unfolding get_hdr
any_case = refl
