-- ===== src/Pipe/Events/Runs.antt =====
-- A pipe of the protocol RUDP with one subscription and a few callbacks.
use aionetiface.Prelude.{ℕ, ◌+◌, ◌≡◌, refl, [], ◌∷◌, none, some, true, false}
use aionetiface.Bytes.{Bytes}
use aionetiface.AckUdp.{ack_udp}
use aionetiface.Pipe.Client.{Library, Tup, PipeClient}
use aionetiface.Pipe.Events.{Env, calls, PipeEvents, close, run_handlers}
use aionetiface.Pipe.Events.{connection_lost, add_end_cb}

abbrev sum : Bytes → ℕ
sum [] = 0
sum (b ∷ bytes) = b + sum bytes

abbrev lib : Library
lib = record {
  ip_norm = λ ip. ip;
  finds = λ pattern bytes. true;
  hash_pattern = λ pattern. 0;
  hash_tup = λ tup. 1;
}

abbrev env : Env
env = record { lib = lib; to_b = λ ip. 192 ∷ 0 ∷ 2 ∷ 1 ∷ []; hash = sum }

abbrev client : PipeClient
client = record {
  max_qsize = 0;
  subs = (0, record { sub = (none, none); queue = []; handler = none }) ∷ [];
}

abbrev peer : Tup
peer = ("192.0.2.1", 5000)

abbrev pipe : PipeEvents
pipe = record {
  is_running = true;
  has_transport = true;
  client_tup = some peer;
  max_qsize = 0;
  stream = some client;
  acks = ack_udp;
  has_acks = true;
  enable_msg_ids = true;
  max_msg_ids = 1000;
  msg_ids = 4 ∷ [];
  pipes = 6 ∷ [];
  parent_pipes = 5 ∷ [];
  msg_cbs = 2 ∷ [];
  end_cbs = 3 ∷ [];
  up_cbs = [];
  stream_ready = true;
  on_close = false;
}

-- A pipe that the other side closes does call it.
end_called : (connection_lost (record pipe { parent_pipes = [] })).0 ≡ calls 3 (some peer) none ∷ []
unfolding connection_lost run_handlers
end_called = refl

-- A new callback on a pipe that is closed does not run.
end_not_called : (add_end_cb (close pipe) 9).0 ≡ []
unfolding add_end_cb run_handlers close
end_not_called = refl
