-- ===== src/Pipe/Events/Once.antt =====
-- A reliable message and its copies, at a pipe that drops duplicates.
use aionetiface.Prelude.{ℕ, zero, suc, ◌≤◌, ◌≡◌, true}
use aionetiface.Prelude.{none, some, List, [], ◌∷◌, ◌++◌, length}
use aionetiface.Bytes.{Bytes, ok, ◌>>=◌}
use aionetiface.AckUdp.{AckUdp, member, event_of, prune}
use aionetiface.AckUdp.Laws.{wire64}
use aionetiface.Pipe.Client.{Tup, PipeClient, client_tup_norm}
use aionetiface.Pipe.Events.{Env, Effect, replies, PipeEvents, Stepped, route_msg}
use aionetiface.Pipe.Events.{datagram_received}

-- The same datagram, so many times.
abbrev pub receive_copies : Env → PipeEvents → Bytes → Tup → ℕ → Stepped
receive_copies env self buf tup zero = ok ([], self)
receive_copies env self buf tup (suc k) = datagram_received env self buf tup >>= λ first.
    (receive_copies env first.1 buf tup k >>= λ rest. ok (first.0 ++ rest.0, rest.1))

-- A pipe of the protocol RUDP that keeps the ids of messages, with room for one more.
pub record IsReliable (self : PipeEvents) : Type 0 where
  pub plugged : self.has_transport ≡ true
  pub acking : self.has_acks ≡ true
  pub keeping : self.enable_msg_ids ≡ true
  pub held : PipeClient
  pub set : self.stream ≡ some held

-- The id of a message from an address.
abbrev pub id_of : Env → Tup → Bytes → ℕ
id_of env (ip, port) content = env.hash (env.to_b (env.lib.ip_norm ip) ++ content)

-- What becomes of the table of numbers and the ids when a new message arrives.
abbrev pub noted : Env → PipeEvents → Tup → Bytes → PipeEvents
noted env self tup content = record self {
  acks = prune self.acks;
  msg_ids = id_of env tup content ∷ self.msg_ids;
}

-- The acknowledgement of a number, and what follows it.
abbrev pub reply_to : Env → ℕ → Tup → Effect
reply_to env n tup = replies (wire64 n ++ 1 ∷ []) (client_tup_norm env.lib tup)

abbrev after_reply : Effect → Stepped → Stepped
after_reply reply routed = routed >>= λ done. ok (reply ∷ done.0, done.1)

-- Routing does not raise where there is a stream, and changes nothing else.
record Routes (env : Env) (self : PipeEvents) (content : Bytes) (tup : Tup) : Type 0 where
  effects : List Effect
  fed : PipeClient
  routes : route_msg env self content tup ≡ ok (effects, record self { stream = some fed })

-- A pipe at which another copy changes nothing.
record IsSettled (env : Env) (self : PipeEvents) (n : ℕ) (content : Bytes) (tup : Tup)
    : Type 0 where
  reliable : IsReliable self
  pruned : prune self.acks ≡ self.acks
  absent : event_of n self.acks.seq ≡ none
  room : length self.msg_ids ≤ self.max_msg_ids
  seen : member (id_of env tup content) self.msg_ids ≡ true
