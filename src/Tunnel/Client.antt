-- ===== src/Tunnel/Client.antt =====
-- `TunnelClient` of client/core/tunnel.py: its table of streams. A step that awaits ends a function
-- here; other steps may run before the next one. Frames that are handed to `_send` are results, and
-- whether `_send` succeeds is an argument.

pub mod Demux
pub mod Payloads
pub mod Steps
pub mod Connecting
mod Tests
use vpnself.Prelude.{
  ℕ, zero, suc, ◌+◌, ◌-◌, ◌*◌, ◌^◌, Bool, true, false, not, ◌&&◌, ◌||◌, Option, none, some, List,
  [], ◌∷◌, ◌++◌, map, if◌then◌else◌, ltb, leb, length, take, drop, nat_eq,
}
use vpnself.Prelude.Dict.{Dict, get, put, remove}
use vpnself.Protocol.{Cmd, Frame, frame_of, max_frame_size, frame_header_size}
use vpnself.Tunnel.Stream.{TunnelStream, new_stream, feed_data, close, is_empty}

-- `_connect_future`: None, or a Future that is pending, has a result or an exception.
pub data Future : Type 0 where
  no_future pending resolved failed : Future

-- A stream with the two attributes that the client uses.
pub record Entry : Type 0 where
  pub stream : TunnelStream
  pub connect_future : Future
  pub bytes_sent : ℕ

pub record TunnelClient : Type 0 where
  pub connected : Bool
  pub authenticated : Bool
  pub running : Bool
  pub has_writer : Bool
  pub optimistic_connect : Bool
  pub streams : Dict ℕ Entry
  pub next_stream_id : ℕ
  pub frame_rx : ℕ
  pub last_rx_time : ℕ

-- The property `connected`.
abbrev pub is_connected : TunnelClient → Bool
is_connected c = c.connected && c.authenticated

-- `if self._next_stream_id >= 2**32 - 1: self._next_stream_id = 1`
abbrev pub next_id : ℕ → ℕ
next_id sid = if leb (2 ^ 32 - 1) (sid + 1) then 1 else sid + 1

abbrev pub new_entry : Bool → Entry
new_entry optimistic = record {
  stream = new_stream;
  connect_future = if optimistic then no_future else pending;
  bytes_sent = 0;
}

-- `create_stream` up to the sending of CONNECT: the id, or `none` where there is no connection.
unfoldable pub open_stream : TunnelClient → Option (ℕ × TunnelClient)
open_stream c =
    if is_connected c && c.has_writer
    then some (
      c.next_stream_id,
      record c {
        next_stream_id = next_id c.next_stream_id;
        streams = put c.next_stream_id (new_entry c.optimistic_connect) c.streams;
      },
    )
    else none

-- `set_result(None)` and `set_exception(...)` on a Future that is pending.
abbrev pub resolve : Future → Future
resolve pending = resolved
resolve future = future

abbrev pub fail : Future → Future
fail pending = failed
fail future = future

abbrev pub settle : Entry → Entry
settle e = record e { connect_future = resolve e.connect_future }

-- What a frame does to the stream that it names.
unfoldable pub on_frame : Cmd → List ℕ → Entry → Entry
on_frame Cmd.connect_ok payload e = settle e
on_frame Cmd.connect_fail payload e = settle (record e { stream = close e.stream })
on_frame Cmd.data_frame payload e = record e { stream = feed_data payload e.stream }
on_frame Cmd.close payload e = record e { stream = close e.stream }
on_frame cmd payload e = e

-- `stream = self._streams.get(sid); if stream: ...`
unfoldable pub deliver : Frame → Dict ℕ Entry → Dict ℕ Entry
deliver f streams = elim (get f.stream_id streams) [
  | none ↦ streams
  | some e ↦ put f.stream_id (on_frame f.cmd f.payload e) streams
]

-- A PING is answered by a PONG.
abbrev pub answers : Cmd → List Frame
answers Cmd.ping = frame_of 0 Cmd.pong [] ∷ []
answers cmd = []

-- One frame in `_read_loop` that is read at `now`: the frames to send, and the client.
unfoldable pub receive : ℕ → Frame → TunnelClient → List Frame × TunnelClient
receive now f c = (
  answers f.cmd,
  record c { streams = deliver f c.streams; frame_rx = c.frame_rx + 1; last_rx_time = now },
)

-- The frames of the loop, each with the time at which it is read.
abbrev pub receive_all : List (ℕ × Frame) → TunnelClient → List Frame × TunnelClient
receive_all [] c = ([], c)
receive_all ((now, f) ∷ fs) c =
    let (sent, c') = receive now f c in let (more, c'') = receive_all fs c' in (sent ++ more, c'')

abbrev pub max_payload : ℕ
max_payload = max_frame_size - frame_header_size

-- `data[i:i + max_payload]` for i in `range(0, len(data), max_payload)`. Each round takes a byte at
-- least, so fuel of the length of the data is enough.
unfoldable pub pieces : ℕ → List ℕ → List (List ℕ)
pieces zero bytes = []
pieces (suc fuel) bytes =
    if is_empty bytes then [] else take max_payload bytes ∷ pieces fuel (drop max_payload bytes)

-- The payloads of the DATA frames in `send_data`.
unfoldable pub payloads : List ℕ → List (List ℕ)
payloads bytes = if leb (length bytes) max_payload then bytes ∷ [] else pieces (length bytes) bytes

-- The frames handed to `_send` in a loop that stops behind the first one that fails; `ok` says which
-- ones succeed.
abbrev pub until_failure : (ℕ → Bool) → ℕ → List Frame → List Frame
until_failure ok i [] = []
until_failure ok i (f ∷ fs) = f ∷ (if ok i then until_failure ok (suc i) fs else [])

abbrev pub data_frames : ℕ → List (List ℕ) → List Frame
data_frames sid ps = map (frame_of sid Cmd.data_frame) ps

unfoldable pub send_data : (ℕ → Bool) → ℕ → List ℕ → TunnelClient → List Frame × TunnelClient
send_data ok sid bytes c = elim (get sid c.streams) [
  | none ↦ ([], c)
  | some e ↦
      if is_connected c && not e.stream.closed
      then (
        until_failure ok 0 (data_frames sid (payloads bytes)),
        record c {
          streams = put sid (record e { bytes_sent = e.bytes_sent + length bytes }) c.streams;
        },
      )
      else ([], c)
]

-- `close_stream`: the frames to send, the closed stream, and the client.
unfoldable pub close_stream : ℕ → TunnelClient → List Frame × Option Entry × TunnelClient
close_stream sid c = elim (get sid c.streams) [
  | none ↦ ([], none, c)
  | some e ↦ (
    if is_connected c then frame_of sid Cmd.close [] ∷ [] else [],
    some (record e { stream = close e.stream }),
    record c { streams = remove sid c.streams },
  )
]

-- A stream that `disconnect` drops: a pending connect fails, and the stream is closed.
abbrev pub dropped : Entry → Entry
dropped e = record e { connect_future = fail e.connect_future; stream = close e.stream }

-- `disconnect`: the streams that it drops, and the client.
unfoldable pub disconnect : TunnelClient → List Entry × TunnelClient
disconnect c = (
  map (λ kv. dropped kv.1) c.streams,
  record c {
    running = false;
    connected = false;
    authenticated = false;
    has_writer = false;
    streams = [];
  },
)
