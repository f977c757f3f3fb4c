-- ===== src/Pipe/Events/Silence.antt =====
-- What a pipe that is closed still does.
use aionetiface.Prelude.{ℕ, ◌≡◌, Bool, true, false, ◌&&◌, Option, some}
use aionetiface.Prelude.{List, [], ◌∷◌, ◌++◌}
use aionetiface.Bytes.{Bytes, ok, err, ◌>>=◌}
use aionetiface.Pipe.Client.{Tup, PipeClient}
use aionetiface.Pipe.Events.{Env, Effect, calls, relays, replies, leaves, PipeEvents, Stepped}
use aionetiface.Pipe.Events.{connection_made}
use aionetiface.Pipe.Events.{connection_lost, datagram_received, data_received, add_end_cb}
use aionetiface.Pipe.Events.{add_msg_cb, add_up_cb, close}

-- What may reach a pipe: the events of its transport, new callbacks, and `close`.
pub data Input : Type 0 where
  made : Bool → Option Tup → Input
  lost closes : Input
  datagram : Bytes → Tup → Input
  segment : Bytes → Option Tup → Input
  on_msg on_up on_end : ℕ → Input

unfoldable pub step : Env → PipeEvents → Input → Stepped
step env self (made has_transport peer) = ok (connection_made self has_transport peer)
step env self lost = ok (connection_lost self)
step env self closes = ok ([], close self)
step env self (datagram content tup) = datagram_received env self content tup
step env self (segment content peer) = data_received env self content peer
step env self (on_msg cb) = ok ([], add_msg_cb self cb)
step env self (on_up cb) = ok ([], add_up_cb self cb)
step env self (on_end cb) = ok (add_end_cb self cb)

-- Any number of inputs, with all that the code starts on them.
abbrev pub run : Env → PipeEvents → List Input → Stepped
run env self [] = ok ([], self)
run env self (input ∷ inputs) = step env self input >>= λ first.
    (run env first.1 inputs >>= λ rest. ok (first.0 ++ rest.0, rest.1))

abbrev pub is_leaving : Effect → Bool
is_leaving (calls handler tup content) = false
is_leaving (relays pipe content) = false
is_leaving (replies ack tup) = false
is_leaving (leaves parent) = true

abbrev pub all_leaving : List Effect → Bool
all_leaving [] = true
all_leaving (effect ∷ effects) = is_leaving effect && all_leaving effects

-- No exception, and nothing started but that the pipe leaves its parents.
abbrev pub only_leaves : Stepped → Bool
only_leaves (err e) = false
only_leaves (ok (effects, self)) = all_leaving effects

record IsSilent (self : PipeEvents) : Type 0 where
  stopped : self.is_running ≡ false
  unplugged : self.has_transport ≡ false
  held : PipeClient
  has_stream : self.stream ≡ some held

abbrev StaysSilent : Stepped → Type 0
StaysSilent (err e) = ⊥
StaysSilent (ok (effects, self)) = (all_leaving effects ≡ true) × IsSilent self
