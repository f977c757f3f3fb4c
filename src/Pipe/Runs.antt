-- ===== src/Pipe/Runs.antt =====
-- A pipe with three subscriptions and a few messages.
use aionetiface.Prelude.{ℕ, ◌≡◌, refl, Option, none, some, List, [], ◌∷◌, true, false}
use aionetiface.Prelude.{Bool, ◌==◌, if◌then◌else◌}
use aionetiface.Bytes.{Bytes}
use aionetiface.Pipe.Client.{
  Library, Tup, Entry, PipeClient, subscribe, unsubscribe, hash_sub, norm_sub, recv, message,
  add_msg, offer_all, offer, do_add,
}
use aionetiface.Pipe.Client.Queues.{add_all, show_all, log_all, add_all-show_all}
use aionetiface.Pipe.Client.Subscribing.{unsubscribe-subscribe}

-- A search for the first byte of the pattern at the start of the message, and hashes of ports.
abbrev starts : Bytes → Bytes → Bool
starts [] bytes = true
starts (a ∷ pattern) [] = false
starts (a ∷ pattern) (b ∷ bytes) = a == b

abbrev first_byte : Option Bytes → ℕ
first_byte none = 0
first_byte (some []) = 0
first_byte (some (a ∷ pattern)) = a

abbrev port_of : Tup → ℕ
port_of (ip, port) = port

abbrev lib : Library
lib = record { ip_norm = λ ip. ip; finds = starts; hash_pattern = first_byte; hash_tup = port_of }

abbrev peer : Tup
peer = ("192.0.2.1", 5000)

abbrev by_pattern : Entry
by_pattern = record { sub = (some (7 ∷ []), none); queue = []; handler = none }

abbrev by_host : Entry
by_host = record { sub = (none, some peer); queue = []; handler = none }

abbrev handled : Entry
handled = record { sub = (none, none); queue = []; handler = some 1 }

abbrev entries : List (ℕ × Entry)
entries = (7, by_pattern) ∷ (5000, by_host) ∷ (0, handled) ∷ []

abbrev messages : List (Tup × Bytes)
messages =
    (peer, 7 ∷ 1 ∷ [])
    ∷ (("192.0.2.9", 5000), 7 ∷ 2 ∷ [])
    ∷ (peer, 8 ∷ [])
    ∷ (peer, 7 ∷ 3 ∷ [])
    ∷ []

add_all-show_all_example :
    add_all lib (record { max_qsize = 2; subs = show_all 2 entries }) messages
    ≡ record { max_qsize = 2; subs = show_all 2 (log_all lib messages entries) }
add_all-show_all_example = add_all-show_all lib 2 messages entries

-- Of the three messages for its host the second subscription has the last two.
last_two :
    (recv lib
      (add_all lib (record { max_qsize = 2; subs = entries }) messages)
      (none, some peer)).0.0
    ≡ message peer (8 ∷ [])
unfolding recv add_msg offer_all offer do_add
last_two = refl

abbrev quiet : PipeClient
quiet = record { max_qsize = 2; subs = entries }

unsubscribe-subscribe_example :
    unsubscribe lib
      (subscribe lib quiet (some (9 ∷ []), some peer) none).1
      (some (9 ∷ []), some peer)
    ≡ (if hash_sub lib (norm_sub lib (some (9 ∷ []), some peer))
          == hash_sub lib (some (9 ∷ []), some peer)
        then quiet
        else (subscribe lib quiet (some (9 ∷ []), some peer) none).1)
unsubscribe-subscribe_example =
    unsubscribe-subscribe lib quiet (some (9 ∷ []), some peer) none refl refl
