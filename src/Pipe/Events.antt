-- ===== src/Pipe/Events.antt =====
-- The class `PipeEvents` of aionetiface/net/pipe/pipe_events.py: what a pipe does on the events of
-- its transport, and its sets of callbacks, which are lists here, in some order of iteration. Pipes
-- and callbacks are known by numbers, and what the code starts (callbacks, sends to other pipes,
-- acknowledgements) is a value. The stream and its acknowledgements are those of Pipe/Client and
-- AckUdp. The table of a server's clients is in Pipe/Accepting. Tasks, locks, sockets and the send
-- methods are left out.
pub mod Once
pub mod Silence
pub mod Runs
use Prim.Native.String.{String}
use aionetiface.Prelude.{ℕ, Bool, true, false, not, ◌&&◌, ◌||◌, Option, none, some}
use aionetiface.Prelude.{List, [], ◌∷◌, ◌++◌, ◌==◌, if◌then◌else◌}
use aionetiface.Bytes.{Bytes, Result, ok, err, attribute_error, ◌>>=◌}
use aionetiface.Pipe.Client.{Tup, Item, Library, PipeClient, Entry, Calls, add_msg, is_full}
use aionetiface.Pipe.Client.{client_tup_norm}
use aionetiface.AckUdp.{AckUdp, Handled, ack_udp, handle_ack, is_unique_msg, member}

-- The standard library, with `to_b` of an address and the hash of a message.
pub record Env : Type 0 where
  pub lib : Library
  pub to_b : String → Bytes
  pub hash : Bytes → ℕ

-- What the code starts: a callback or the handler of a subscription, with what it is given; a send
-- to a linked pipe; an acknowledgement; and `pipe.del_pipe(self)` on a parent.
pub data Effect : Type 0 where
  calls : ℕ → Option Tup → Option Bytes → Effect
  relays : ℕ → Bytes → Effect
  replies : Bytes → Tup → Effect
  leaves : ℕ → Effect

-- `has_acks` says that `set_ack_handlers` was called with the tests of the stream, as it is for
-- the protocol RUDP. The table of `acks` is the stream's.
pub record PipeEvents : Type 0 where
  pub is_running : Bool
  pub has_transport : Bool
  pub client_tup : Option Tup
  pub max_qsize : ℕ
  pub stream : Option PipeClient
  pub acks : AckUdp
  pub has_acks : Bool
  pub enable_msg_ids : Bool
  pub max_msg_ids : ℕ
  pub msg_ids : List ℕ
  pub pipes : List ℕ
  pub parent_pipes : List ℕ
  pub msg_cbs : List ℕ
  pub end_cbs : List ℕ
  pub up_cbs : List ℕ
  pub stream_ready : Bool
  pub on_close : Bool

abbrev call_each : List ℕ → Option Tup → Option Bytes → List Effect
call_each [] tup content = []
call_each (handler ∷ handlers) tup content =
    calls handler tup content ∷ call_each handlers tup content

unfoldable pub run_handlers : PipeEvents → List ℕ → Option Tup → Option Bytes → List Effect
run_handlers self handlers tup content =
    if not self.is_running then [] else call_each handlers tup content

-- `set.add` and `set.discard`
abbrev pub add_cb : ℕ → List ℕ → List ℕ
add_cb cb known = if member cb known then known else known ++ cb ∷ []

abbrev pub discard_cb : ℕ → List ℕ → List ℕ
discard_cb cb [] = []
discard_cb cb (other ∷ known) = if other == cb then known else other ∷ discard_cb cb known

pub add_msg_cb : PipeEvents → ℕ → PipeEvents
add_msg_cb self cb = record self { msg_cbs = add_cb cb self.msg_cbs }

pub del_msg_cb : PipeEvents → ℕ → PipeEvents
del_msg_cb self cb = record self { msg_cbs = discard_cb cb self.msg_cbs }

pub add_up_cb : PipeEvents → ℕ → PipeEvents
add_up_cb self cb = record self { up_cbs = add_cb cb self.up_cbs }

pub del_up_cb_cb : PipeEvents → ℕ → PipeEvents
del_up_cb_cb self cb = record self { up_cbs = discard_cb cb self.up_cbs }

-- A pipe that is closed runs a new callback at once, or tries to.
unfoldable pub add_end_cb : PipeEvents → ℕ → List Effect × PipeEvents
add_end_cb self cb =
    let was_present = member cb self.end_cbs in
    let added = record self { end_cbs = add_cb cb self.end_cbs } in
    (
      if not self.is_running && not was_present then run_handlers added (cb ∷ []) none none else [],
      added,
    )

pub del_end_cb : PipeEvents → ℕ → PipeEvents
del_end_cb self cb = record self { end_cbs = discard_cb cb self.end_cbs }

-- `add_pipe`, on this side and on the other pipe, which is given.
pub add_pipe : PipeEvents → ℕ → ℕ → PipeEvents → PipeEvents × PipeEvents
add_pipe self name other pipe = (
  record self { pipes = self.pipes ++ other ∷ [] },
  record pipe { parent_pipes = pipe.parent_pipes ++ name ∷ [] },
)

pub del_pipe : PipeEvents → ℕ → PipeEvents
del_pipe self pipe = record self { pipes = discard_cb pipe self.pipes }

abbrev pub made_stream : PipeEvents → Bool → Option Tup → Option PipeClient → PipeEvents
made_stream self has_transport peer (some known) = self
made_stream self has_transport peer none = record self {
  has_transport = self.has_transport || has_transport;
  client_tup = if has_transport then peer else self.client_tup;
  stream = some (record { max_qsize = self.max_qsize; subs = [] });
  acks = ack_udp;
  stream_ready = true;
}

-- `connection_made`, with what `get_client_tup` comes to.
unfoldable pub connection_made : PipeEvents → Bool → Option Tup → List Effect × PipeEvents
connection_made self has_transport peer =
    let made = made_stream self has_transport peer self.stream in
    (run_handlers made made.up_cbs none none, made)

abbrev pub leave_each : List ℕ → List Effect
leave_each [] = []
leave_each (parent ∷ parents) = leaves parent ∷ leave_each parents

unfoldable pub connection_lost : PipeEvents → List Effect × PipeEvents
connection_lost self = (
  leave_each self.parent_pipes ++ run_handlers self self.end_cbs self.client_tup none,
  record self { on_close = true },
)

abbrev pub relay_each : List ℕ → Bytes → List Effect
relay_each [] content = []
relay_each (pipe ∷ pipes) content = relays pipe content ∷ relay_each pipes content

abbrev pub sub_calls : Calls → List Effect
sub_calls [] = []
sub_calls ((handler, tup, content) ∷ rest) =
    calls handler (some tup) (some content) ∷ sub_calls rest

abbrev pub Stepped : Type 0
Stepped = Result (List Effect × PipeEvents)

abbrev pub add_to_stream :
    Env → PipeEvents → Bytes → Tup → List Effect → Option PipeClient → Stepped
add_to_stream env self content tup started none = err attribute_error
add_to_stream env self content tup started (some stream) =
    let (fed, called) = add_msg env.lib stream content tup in
    ok (started ++ sub_calls called, record self { stream = some fed })

-- Linked pipes, then callbacks, then subscriptions; no data are not routed.
unfoldable pub route_msg : Env → PipeEvents → Bytes → Tup → Stepped
route_msg env self [] tup = ok ([], self)
route_msg env self (b ∷ content) tup =
    let started =
      relay_each self.pipes (b ∷ content)
      ++ run_handlers self self.msg_cbs (some tup) (some (b ∷ content)) in
    add_to_stream env self (b ∷ content) tup started self.stream

-- The second half of `handle_data`: a duplicate is dropped, where ids are kept.
abbrev pub route_checked : Env → PipeEvents → Bytes → Tup → Bool → Bool × List ℕ → Stepped
route_checked env self content tup false (unique, known) = route_msg env self content tup
route_checked env self content tup true (false, known) = ok ([], record self { msg_ids = known })
route_checked env self content tup true (true, known) =
    route_msg env (record self { msg_ids = known }) content tup

unfoldable pub route_unique : Env → PipeEvents → Bytes → Tup → Stepped
route_unique env self content (ip, port) =
    route_checked env self content (ip, port) self.enable_msg_ids
      (is_unique_msg env.hash self.max_msg_ids self.msg_ids (env.to_b ip) content)

abbrev reply_effects : Tup → Option Bytes → List Effect
reply_effects tup none = []
reply_effects tup (some ack) = replies ack tup ∷ []

abbrev prepend : List Effect → List Effect × PipeEvents → List Effect × PipeEvents
prepend started (effects, self) = (started ++ effects, self)

-- Status 0 is a message that goes no further: an acknowledgement, or one that is too short. The
-- others have a payload.
abbrev pub route_handled : Env → PipeEvents → Tup → Handled → Option Bytes → Stepped
route_handled env self tup handled none = ok (reply_effects tup handled.reply, self)
route_handled env self tup handled (some content) =
    if handled.status == 0
    then ok (reply_effects tup handled.reply, self)
    else (route_unique env self content tup >>= λ routed.
        ok (prepend (reply_effects tup handled.reply) routed))

abbrev pub take_acked : Env → PipeEvents → Bytes → Tup → Option PipeClient → Stepped
take_acked env self content tup none = err attribute_error
take_acked env self content tup (some stream) = handle_ack self.acks content >>= λ outcome.
    route_handled env (record self { acks = outcome.1 }) tup outcome.0 outcome.0.payload

unfoldable pub handle_data : Env → PipeEvents → Bytes → Tup → Stepped
handle_data env self content client_tup =
    let tup = client_tup_norm env.lib client_tup in
    if self.has_acks
    then take_acked env self content tup self.stream
    else route_unique env self content tup

unfoldable pub datagram_received : Env → PipeEvents → Bytes → Tup → Stepped
datagram_received env self content tup =
    if self.has_transport then handle_data env self content tup else ok ([], self)

-- `data_received`, with what `getpeername` gives, or none when it raises.
unfoldable pub data_received : Env → PipeEvents → Bytes → Option Tup → Stepped
data_received env self content none = ok ([], self)
data_received env self content (some tup) = datagram_received env self content tup

-- `put_nowait([None, None])`, which raises on a full queue; the code passes over it.
abbrev pub end_all : ℕ → List (ℕ × Entry) → List (ℕ × Entry)
end_all limit [] = []
end_all limit ((key, entry) ∷ rest) =
    (
      key,
      record entry {
        queue = if is_full limit entry.queue then entry.queue else entry.queue ++ none ∷ [];
      },
    )
    ∷ end_all limit rest

abbrev pub end_stream : Option PipeClient → Option PipeClient
end_stream none = none
end_stream (some stream) = some (record stream { subs = end_all stream.max_qsize stream.subs })

-- The start and the end of `close`, in between which it awaits the transport, the clients of a
-- server and the tasks; what happens then is left out.
abbrev stop : PipeEvents → PipeEvents
stop self = record self { is_running = false; stream = end_stream self.stream }

abbrev drop_transport : PipeEvents → PipeEvents
drop_transport self = record self { has_transport = false }

unfoldable pub close : PipeEvents → PipeEvents
close self = if not self.is_running then self else drop_transport (stop self)
