-- ===== src/Pcap/Shim/Runs.antt =====
-- A shim with three subscriptions, fed and closed.
use aionetiface.Prelude.{
  arith, ℕ, ◌≡◌, refl, Option, none, some, List, [], ◌∷◌, true, false, ◌==◌, Bool,
}
use aionetiface.Bytes.{Bytes}
use aionetiface.Pipe.Client.{Library, Tup, do_add}
use aionetiface.Pcap.Shim.{Table, Shim, ended, failed, cancelled, pump_loop, recv}
use aionetiface.Pcap.Shim.{message, pump_rounds, dispatch, offer_all, offer, sub_all}
use aionetiface.Pcap.Shim.{broadcast_close_sentinel, subscribe}
use aionetiface.Pcap.Shim.Feeding.{arrived, log_all, log_end, show_all, pump_loop-show_all}
use aionetiface.Pcap.Shim.Reading.{recv_n, gather_chunks, recv_n-pump_loop}
use aionetiface.Pcap.Shim.Closing.{close_all, IsShut, close_all-IsShut}

abbrev starts : Bytes → Bytes → Bool
starts [] bytes = true
starts (a ∷ pattern) [] = false
starts (a ∷ pattern) (b ∷ bytes) = a == b

abbrev first_byte : Option Bytes → ℕ
first_byte none = 0
first_byte (some []) = 0
first_byte (some (a ∷ pattern)) = a

abbrev port_of : Tup → ℕ
port_of (ip, port) = port

abbrev lib : Library
lib = record { ip_norm = λ ip. ip; finds = starts; hash_pattern = first_byte; hash_tup = port_of }

abbrev peer : Tup
peer = ("192.0.2.1", 5000)

abbrev entries : Table
entries =
    (0, record { sub = sub_all; queue = []; handler = none })
    ∷ (7, record { sub = (some (7 ∷ []), some ("192.0.2.1", 0)); queue = []; handler = none })
    ∷ (8, record { sub = (some (8 ∷ []), none); queue = []; handler = some 3 })
    ∷ []

abbrev open_shim : Shim
open_shim = record {
  client_tup = some peer;
  subs = show_all entries;
  closed = false;
  is_running = true;
  on_close = false;
  is_pumping = true;
  is_watched = true;
  firewall_teardown = some 9;
  torn_down = [];
}

abbrev received : List (Option Bytes)
received = some (7 ∷ 1 ∷ []) ∷ some (8 ∷ 2 ∷ []) ∷ some [] ∷ some (7 ∷ 3 ∷ []) ∷ []

pump_loop-show_all_example : (pump_loop lib open_shim received).0 ≡ record open_shim {
  subs = show_all (log_end (log_all lib (some peer) (arrived received) entries));
  is_pumping = false;
}
pump_loop-show_all_example = pump_loop-show_all lib open_shim received entries refl

-- The first message is there for the reader of everything, and the handler has had the second.
read_first :
    (recv lib (pump_loop lib open_shim received).0 none).0 ≡ message (some peer) (7 ∷ 1 ∷ [])
unfolding recv pump_loop pump_rounds dispatch offer_all offer do_add broadcast_close_sentinel
    subscribe
read_first = refl

handled_second : (pump_loop lib open_shim received).1 ≡ (3, some peer, 8 ∷ 2 ∷ []) ∷ []
unfolding pump_loop pump_rounds dispatch offer_all offer do_add broadcast_close_sentinel
handled_second = refl

close_all-IsShut_example : IsShut open_shim (close_all open_shim (cancelled ∷ ended ∷ failed ∷ []))
close_all-IsShut_example = close_all-IsShut open_shim cancelled (ended ∷ failed ∷ []) refl

recv_n-pump_loop_example :
    (recv_n lib (pump_loop lib open_shim received).0 3 none).0
    ≡ gather_chunks 3 [] (arrived received)
recv_n-pump_loop_example = recv_n-pump_loop lib open_shim received entries 3 refl refl (omega arith)

-- Three bytes are two chunks.
both_chunks : gather_chunks 3 [] (arrived received) ≡ 7 ∷ 1 ∷ 8 ∷ 2 ∷ []
both_chunks = refl
