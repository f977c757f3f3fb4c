-- ===== src/Http/Reading.antt =====
-- A reply is read whole, however the network cuts it; http_client_lib.py.
use aionetiface.Prelude.{ℕ, suc, ◌≤◌, ◌≡◌, refl, ap, sym, ◌∙◌, arith, append-nil, append_assoc}
use aionetiface.Prelude.{Bool, true, false, Option, none, some, Bool-cases, inl, inr}
use aionetiface.Prelude.{List, [], ◌∷◌, ◌++◌, length, length-append, ltb-eq_true}
use aionetiface.Bytes.{Bytes}
use aionetiface.Text.{is_empty}
use aionetiface.Http.{
  after_text, search_length, blank_line, put_before, cut_here, cut_blank, Head, stop_or, read_head,
  read_body, finish_read, read_reply, do_web_req,
}
use aionetiface.Http.Search.{followed, search_length-append}

-- On a text that is long enough, more text changes no match.
after_text-longer :
    (ps text more : Bytes)
    → length ps ≤ length text
    → after_text ps (text ++ more) ≡ followed more (after_text ps text)
after_text-longer [] text more h = refl
after_text-longer (p ∷ ps) [] more h = absurd (omega arith)
after_text-longer (p ∷ ps) (b ∷ text) more h =
    ground (arith, after_text-longer ps text more (omega arith))

after_text-length :
    (ps text rest : Bytes) → after_text ps text ≡ some rest → length ps ≤ length text
after_text-length [] text rest h = omega arith
after_text-length (p ∷ ps) [] rest h = absurd (ground arith)
after_text-length (p ∷ ps) (b ∷ text) rest h = ground (arith, after_text-length ps text rest)

abbrev found : Option (Bytes × Bytes) → Bool
found none = false
found (some parts) = true

abbrev longer : Bytes → Option (Bytes × Bytes) → Option (Bytes × Bytes)
longer more none = none
longer more (some (headers, rest)) = some (headers, rest ++ more)

found_here :
    (b : ℕ) (o : Option Bytes) (later : Option (Bytes × Bytes)) (n m : ℕ)
    → found (cut_here b o later) ≡ true
    → ((rest : Bytes) → o ≡ some rest → n ≤ suc m)
    → (found later ≡ true → n ≤ m)
    → n ≤ suc m
found_here b (some rest) later n m h f g = f rest refl
found_here b none (some parts) n m h f g = omega (arith, g refl)
found_here b none none n m h f g = absurd (ground arith)

cut_blank-length : (text : Bytes) → found (cut_blank text) ≡ true → 4 ≤ length text
unfolding cut_blank
cut_blank-length [] h = absurd (ground arith)
cut_blank-length (b ∷ text) h =
    found_here b (after_text blank_line (b ∷ text)) (cut_blank text) 4 (length text) h
      (after_text-length blank_line (b ∷ text)) (cut_blank-length text)

longer_here :
    (b : ℕ) (o : Option Bytes) (later later' : Option (Bytes × Bytes)) (more : Bytes)
    → found (cut_here b o later) ≡ true
    → (found later ≡ true → later' ≡ longer more later)
    → cut_here b (followed more o) later' ≡ longer more (cut_here b o later)
longer_here b (some rest) later later' more h f = refl
longer_here b none none later' more h f = absurd (ground arith)
longer_here b none (some parts) later' more h f = ap (put_before b) (f refl)

-- The headers end where they ended, whatever comes behind the blank line.
cut_blank-longer :
    (text more : Bytes)
    → found (cut_blank text) ≡ true
    → cut_blank (text ++ more) ≡ longer more (cut_blank text)
unfolding cut_blank
cut_blank-longer [] more h = absurd (ground arith)
cut_blank-longer (b ∷ text) more h =
    rw (after_text-longer blank_line (b ∷ text) more (cut_blank-length (b ∷ text) h)) (
      longer_here b (after_text blank_line (b ∷ text)) (cut_blank text) (cut_blank (text ++ more))
        more h (cut_blank-longer text more))

abbrev pub joined : List Bytes → Bytes
joined [] = []
joined (chunk ∷ chunks) = chunk ++ joined chunks

-- What `recv` gives until the connection ends.
abbrev pub AllSome : List Bytes → Type 0
AllSome [] = Unit {0}
AllSome (chunk ∷ chunks) = (is_empty chunk ≡ false) × AllSome chunks

read_body-joined :
    (n : ℕ) (chunks : List Bytes) (content : Bytes)
    → AllSome chunks
    → length (content ++ joined chunks) ≡ n
    → read_body n chunks content ≡ content ++ joined chunks
unfolding read_body
read_body-joined n [] content some_bytes h = sym (append-nil content)
read_body-joined n ([] ∷ chunks) content some_bytes h = absurd (ground arith)
read_body-joined n ((b ∷ buf) ∷ chunks) content some_bytes h =
    rw
      (ltb-eq_true (length content) n
        (omega (arith, h, length-append content (b ∷ (buf ++ joined chunks)))))
      (read_body-joined n chunks (content ++ (b ∷ buf)) some_bytes.1
          (ap length (append_assoc content (b ∷ buf) (joined chunks)) ∙ h)
        ∙ append_assoc content (b ∷ buf) (joined chunks))

after_text_sound : (ps text rest : Bytes) → after_text ps text ≡ some rest → text ≡ ps ++ rest
after_text_sound [] text rest h = ground arith
after_text_sound (p ∷ ps) [] rest h = absurd (ground arith)
after_text_sound (p ∷ ps) (b ∷ text) rest h = ground (arith, after_text_sound ps text rest)

abbrev headers_of : Option (Bytes × Bytes) → Bytes
headers_of none = []
headers_of (some parts) = parts.0

abbrev rest_of : Option (Bytes × Bytes) → Bytes
rest_of none = []
rest_of (some parts) = parts.1

sound_here :
    (b : ℕ) (text : Bytes) (o : Option Bytes) (later : Option (Bytes × Bytes))
    → found (cut_here b o later) ≡ true
    → ((rest : Bytes) → o ≡ some rest → b ∷ text ≡ blank_line ++ rest)
    → (found later ≡ true → text ≡ headers_of later ++ (blank_line ++ rest_of later))
    → b ∷ text ≡ headers_of (cut_here b o later) ++ (blank_line ++ rest_of (cut_here b o later))
sound_here b text (some rest) later h f g = f rest refl
sound_here b text none none h f g = absurd (ground arith)
sound_here b text none (some parts) h f g = ap (λ t. b ∷ t) (g refl)

-- The parts of a text that is cut make up the text.
cut_blank_sound :
    (text : Bytes)
    → found (cut_blank text) ≡ true
    → text ≡ headers_of (cut_blank text) ++ (blank_line ++ rest_of (cut_blank text))
unfolding cut_blank
cut_blank_sound [] h = absurd (ground arith)
cut_blank_sound (b ∷ text) h =
    sound_here b text (after_text blank_line (b ∷ text)) (cut_blank text) h
      (after_text_sound blank_line (b ∷ text)) (cut_blank_sound text)

cut_blank-whole :
    (headers body : Bytes)
    → cut_blank (headers ++ blank_line) ≡ some (headers, [])
    → cut_blank (headers ++ (blank_line ++ body)) ≡ some (headers, body)
cut_blank-whole headers body h =
    ap cut_blank (sym (append_assoc headers blank_line body))
    ∙ cut_blank-longer (headers ++ blank_line) body (ap found h)
    ∙ ap (longer body) h

headers_of-longer :
    (more : Bytes) (o : Option (Bytes × Bytes)) → headers_of (longer more o) ≡ headers_of o
headers_of-longer more none = refl
headers_of-longer more (some parts) = refl

rest_of-longer :
    (more : Bytes) (o : Option (Bytes × Bytes))
    → found o ≡ true
    → rest_of (longer more o) ≡ rest_of o ++ more
rest_of-longer more none h = absurd (ground arith)
rest_of-longer more (some parts) h = refl

some_parts : (o : Option (Bytes × Bytes)) → found o ≡ true → o ≡ some (headers_of o, rest_of o)
some_parts none h = absurd (ground arith)
some_parts (some parts) h = refl

not_found : (o : Option (Bytes × Bytes)) → found o ≡ false → o ≡ none
not_found none h = refl
not_found (some parts) h = absurd (ground arith)

-- What was read by the time that the headers have ended.
cut_parts :
    (headers body out more : Bytes)
    → cut_blank (headers ++ blank_line) ≡ some (headers, [])
    → out ++ more ≡ headers ++ (blank_line ++ body)
    → found (cut_blank out) ≡ true
    → (cut_blank out ≡ some (headers, rest_of (cut_blank out)))
      × (rest_of (cut_blank out) ++ more ≡ body)
      × (out ≡ headers ++ (blank_line ++ rest_of (cut_blank out)))
cut_parts headers body out more h whole ended =
    let cut : longer more (cut_blank out) ≡ some (headers, body) =
      sym (cut_blank-longer out more ended) ∙ ap cut_blank whole ∙ cut_blank-whole headers body h in
    let same : headers_of (cut_blank out) ≡ headers =
      sym (headers_of-longer more (cut_blank out)) ∙ ap headers_of cut in
    (
      some_parts (cut_blank out) ended ∙ ap (λ t. some (t, rest_of (cut_blank out))) same,
      sym (rest_of-longer more (cut_blank out) ended) ∙ ap rest_of cut,
      cut_blank_sound out ended ∙ ap (λ t. t ++ (blank_line ++ rest_of (cut_blank out))) same,
    )

abbrev finished : Head → Option (Bytes × Bytes)
finished h = finish_read h (cut_blank h.out)

finish_step :
    (more headers rest body : Bytes) (chunks : List Bytes) (next : Head)
    → cut_blank more ≡ some (headers, rest)
    → search_length more ≡ some (length body)
    → rest ++ joined chunks ≡ body
    → AllSome chunks
    → finished (stop_or (cut_blank more) (search_length more) more chunks next)
      ≡ some (headers, body)
finish_step more headers rest body chunks next cut number whole some_bytes =
    rw (cut, number, cut)
      (ap (λ t. some (headers, t))
        (read_body-joined (length body) chunks rest some_bytes (ap length whole) ∙ whole))

read_head-finished :
    (headers body : Bytes) (chunks : List Bytes) (out : Bytes)
    → cut_blank (headers ++ blank_line) ≡ some (headers, [])
    → search_length headers ≡ some (length body)
    → AllSome chunks
    → found (cut_blank out) ≡ false
    → out ++ joined chunks ≡ headers ++ (blank_line ++ body)
    → finished (read_head chunks out) ≡ some (headers, body)
unfolding read_head
read_head-finished headers body [] out h k some_bytes before whole = absurd (
    ground (
      arith,
      ap found (ap cut_blank (sym (append-nil out) ∙ whole) ∙ cut_blank-whole headers body h),
    ))
read_head-finished headers body ([] ∷ chunks) out h k some_bytes before whole =
    absurd (ground arith)
read_head-finished headers body ((b ∷ buf) ∷ chunks) out h k some_bytes before whole =
    let more : Bytes = out ++ (b ∷ buf) in
    let all : more ++ joined chunks ≡ headers ++ (blank_line ++ body) =
      append_assoc out (b ∷ buf) (joined chunks) ∙ whole in
    elim (Bool-cases (found (cut_blank more))) [
      | inl ended ↦
          let (cut, rest, text) = cut_parts headers body more (joined chunks) h all ended in
          finish_step more headers (rest_of (cut_blank more)) body chunks (read_head chunks more)
            cut (ap search_length text ∙ search_length-append headers _ (length body) k) rest
            some_bytes.1
      | inr still ↦
          rw (not_found (cut_blank more) still)
            (read_head-finished headers body chunks more h k some_bytes.1 still all)
    ]

-- A reply whose headers have no blank line in them and name the length of the body is read in two
-- parts, the headers and the body, into whatever chunks the network cuts it: a connection that is
-- open and takes the request gives both.
pub do_web_req-joined :
    (headers body : Bytes) (chunks : List Bytes)
    → cut_blank (headers ++ blank_line) ≡ some (headers, [])
    → search_length headers ≡ some (length body)
    → AllSome chunks
    → joined chunks ≡ headers ++ (blank_line ++ body)
    → do_web_req true true chunks ≡ some (headers, body)
unfolding do_web_req read_reply cut_blank
do_web_req-joined headers body chunks h k some_bytes whole =
    read_head-finished headers body chunks [] h k some_bytes refl whole
