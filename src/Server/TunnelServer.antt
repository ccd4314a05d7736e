-- ===== src/Server/TunnelServer.antt =====
-- server/tunnel_server.py: what `_handle_client` does on a frame, and the tasks that `_handle_connect`
-- starts. A step ends where the code awaits; other steps may run before the next one.

pub mod Auth
pub mod Bounds
pub mod Delivery
pub mod Isolation
pub mod Phases
pub mod Streams
pub mod CleanUp
pub mod Emptied
pub mod Release
use vpnself.Prelude.{
  ℕ, ◌+◌, ◌*◌, ◌==◌, Bool, true, false, not, Option, none, some, List, [], ◌∷◌, ◌++◌, if◌then◌else◌,
  ltb, length, any, filter, codes, nat_eq, text_beq, Text,
}
use vpnself.Prelude.Dict.{Dict, get, put, remove, contains}
use vpnself.Protocol.{Cmd, Frame, unpack_connect}
use vpnself.Server.Relay.{Sent, connect_ok, connect_fail, pong, ForwardRelay}
use vpnself.Server.ForwardProxy.{ForwardProxy, make_key, get_relay, remove_relay, register}

-- MAX_PENDING_BYTES
abbrev pub max_pending_bytes : ℕ
max_pending_bytes = 256 * 1024

-- What a task of `active_streams` runs: `_handle_connect`, or the relay's loop.
pub data Task : Type 0 where
  connects relays : Task

-- The locals of `_handle_client`, and the proxy that all clients share.
pub record Connection : Type 0 where
  pub authenticated : Bool
  pub active_streams : Dict ℕ Task
  pub pending_data : Dict ℕ (List (List ℕ))
  pub deferred_close : List ℕ
  pub proxy : ForwardProxy

-- What a step does besides: a frame to write, a task to start or to cancel, and a relay that has been
-- closed.
pub data Effect : Type 0 where
  send : Sent → Effect
  start_connect : ℕ → Text → ℕ → Effect
  cancel : ℕ → Effect
  close_target : ForwardRelay → Effect

-- How the loop over the frames goes on: with the next frame, with the next read, or not at all.
pub data Verdict : Type 0 where
  next pause stop : Verdict

abbrev pub new_connection : ForwardProxy → Connection
new_connection p = record {
  authenticated = false;
  active_streams = [];
  pending_data = [];
  deferred_close = [];
  proxy = p;
}

-- `sum(len(d) for d in buffered)`
abbrev pub total : List (List ℕ) → ℕ
total [] = 0
total (d ∷ ds) = length d + total ds

abbrev pub or_empty : Option (List (List ℕ)) → List (List ℕ)
or_empty none = []
or_empty (some ds) = ds

-- `pending_data.get(stream_id, [])`
abbrev pub buffered : ℕ → Connection → List (List ℕ)
buffered stream_id c = or_empty (get stream_id c.pending_data)

-- The writes to the target of a relay, which is the object in the table.
unfoldable pub write_relay : ℕ → ℕ → List (List ℕ) → ForwardProxy → ForwardProxy
write_relay client_id stream_id ds p = elim (get_relay client_id stream_id p) [
  | none ↦ p
  | some r ↦ record p {
    active_relays =
        put (make_key client_id stream_id) (record r { written = r.written ++ ds }) p.active_relays;
  }
]

-- `deferred_close.add` and `deferred_close.discard`
abbrev pub is_deferred : ℕ → List ℕ → Bool
is_deferred stream_id sids = any (λ i. i == stream_id) sids

abbrev pub add : ℕ → List ℕ → List ℕ
add stream_id sids = if is_deferred stream_id sids then sids else stream_id ∷ sids

abbrev pub discard : ℕ → List ℕ → List ℕ
discard stream_id sids = filter (λ i. not (i == stream_id)) sids

-- The task that `active_streams.pop` finds is cancelled.
abbrev pub cancelled : ℕ → Connection → List Effect
cancelled stream_id c = if contains stream_id c.active_streams then cancel stream_id ∷ [] else []

-- The relay that `remove_relay` finds is closed.
abbrev pub closes : Option ForwardRelay → List Effect
closes none = []
closes (some r) = close_target r ∷ []

-- The result of a frame, and that of the frames behind it.
abbrev pub and_then :
    List Effect × Verdict × Connection
    → List Effect × Verdict × Connection
    → List Effect × Verdict × Connection
and_then (effects, next, c) (more, verdict, c') = (effects ++ more, verdict, c')
and_then (effects, pause, c) rest = (effects, pause, c)
and_then (effects, stop, c) rest = (effects, stop, c)

-- The end of the `finally` block, behind the loop.
abbrev pub clear : Connection → Connection
clear c = record c { pending_data = []; deferred_close = [] }

-- What may happen on a connection between two awaits.
pub data Event : Type 0 where
  frame : Bool → Frame → Event
  stalled : ℕ → Event
  connects_to : ℕ → ForwardRelay → Event
  ends_flush : ℕ → Event
  fails_to_connect : ℕ → Event
  ends_stream : ℕ → Event
  drops : ℕ → Event
  ends : Event

module _ (client_id : ℕ) where
  -- A relay and its task go: the proxy closes the one, and the other is popped.
  abbrev pub drop_stream : ℕ → Connection → List Effect × Connection
  drop_stream stream_id c =
      let (closed, p) = remove_relay client_id stream_id c.proxy in
      (closes closed, record c { active_streams = remove stream_id c.active_streams; proxy = p })

  -- The same, and the task is cancelled: the round of the `finally` block's loop for a key, up to the
  -- await of the task.
  abbrev pub cancel_stream : ℕ → Connection → List Effect × Connection
  cancel_stream stream_id c =
      let (closed, c') = drop_stream stream_id c in (closed ++ cancelled stream_id c, c')

  -- CONNECT
  unfoldable pub on_connect : ℕ → List ℕ → Connection → List Effect × Connection
  on_connect stream_id payload c = elim (unpack_connect payload) [
    | none ↦ ([], c)
    | some target ↦ (
      start_connect stream_id target.0 target.1 ∷ [],
      record c { active_streams = put stream_id connects c.active_streams },
    )
  ]

  -- DATA for a stream whose CONNECT is pending.
  unfoldable pub buffer_data : ℕ → List ℕ → Connection → Connection
  buffer_data stream_id payload c =
      if ltb max_pending_bytes (total (buffered stream_id c) + length payload)
      then record c {
        pending_data = remove stream_id c.pending_data;
        deferred_close = add stream_id c.deferred_close;
      }
      else record c {
        pending_data = put stream_id (buffered stream_id c ++ (payload ∷ [])) c.pending_data;
      }

  -- DATA, up to the drain of the target.
  unfoldable pub on_data : ℕ → List ℕ → Connection → Connection
  on_data stream_id payload c = elim (get_relay client_id stream_id c.proxy) [
    | some r ↦ record c { proxy = write_relay client_id stream_id (payload ∷ []) c.proxy }
    | none ↦ if contains stream_id c.active_streams then buffer_data stream_id payload c else c
  ]

  -- The drain of the target behind DATA has not ended in DRAIN_TIMEOUT.
  unfoldable pub drain_stalled : ℕ → Connection → List Effect × Connection
  drain_stalled stream_id c = cancel_stream stream_id c

  -- CLOSE
  unfoldable pub on_close : ℕ → Connection → List Effect × Connection
  on_close stream_id c = elim (get_relay client_id stream_id c.proxy) [
    | some r ↦
        let (effects, c') = cancel_stream stream_id c in
        (effects, record c' { pending_data = remove stream_id c.pending_data })
    | none ↦ (
      [],
      if contains stream_id c.active_streams
          then record c { deferred_close = add stream_id c.deferred_close }
          else c,
    )
  ]

  -- A frame of a client that is authenticated; `ok` says whether the write of a PONG succeeds. Where
  -- it fails, the loop over the frames is left, and the next read takes the rest up again.
  unfoldable pub on_frame : Bool → Frame → Connection → List Effect × Verdict × Connection
  on_frame ok f c = elim f.cmd [
    | Cmd.ping ↦ (send pong ∷ [], if ok then next else pause, c)
    | Cmd.connect ↦ let (effects, c') = on_connect f.stream_id f.payload c in (effects, next, c')
    | Cmd.data_frame ↦ ([], next, on_data f.stream_id f.payload c)
    | Cmd.close ↦ let (effects, c') = on_close f.stream_id c in (effects, next, c')
    | _ ↦ ([], next, c)
  ]

  -- A frame of a client that is not; `ok` is for the answer to a correct AUTH.
  unfoldable pub on_first_frame :
      List ℕ → Bool → Frame → Connection → List Effect × Verdict × Connection
  on_first_frame psk ok f c = elim f.cmd [
    | Cmd.auth ↦
        if text_beq f.payload psk
        then (
          send (connect_ok 0) ∷ [],
          if ok then next else stop,
          record c { authenticated = true },
        )
        else (send (connect_fail 0 (codes "Auth failed")) ∷ [], stop, c)
    | _ ↦ (send (connect_fail 0 (codes "Not authenticated")) ∷ [], stop, c)
  ]

  abbrev pub handle_frame : List ℕ → Bool → Frame → Connection → List Effect × Verdict × Connection
  handle_frame psk ok f c = if c.authenticated then on_frame ok f c else on_first_frame psk ok f c

  -- The loop over the frames of one read.
  abbrev pub handle_frames :
      List ℕ → List (Bool × Frame) → Connection → List Effect × Verdict × Connection
  handle_frames psk [] c = ([], next, c)
  handle_frames psk ((ok, f) ∷ fs) c =
      let result = handle_frame psk ok f c in and_then result (handle_frames psk fs result.2)

  -- `_handle_connect` where `connect_target` returns the relay that it has just registered, up to
  -- the drain.
  unfoldable pub connected : ℕ → ForwardRelay → Connection → Connection
  connected stream_id r c = record c {
    proxy =
        write_relay client_id stream_id (buffered stream_id c)
          (register client_id stream_id r c.proxy);
    pending_data = remove stream_id c.pending_data;
  }

  -- `_handle_connect` behind the drain.
  unfoldable pub flushed : ℕ → Connection → List Effect × Connection
  flushed stream_id c =
      if is_deferred stream_id c.deferred_close
      then (
        closes (remove_relay client_id stream_id c.proxy).0,
        record c {
          deferred_close = discard stream_id c.deferred_close;
          proxy = (remove_relay client_id stream_id c.proxy).1;
        },
      )
      else ([], record c { active_streams = put stream_id relays c.active_streams })

  -- `_handle_connect` where `connect_target` returns None.
  unfoldable pub not_connected : ℕ → Connection → Connection
  not_connected stream_id c = record c {
    active_streams = remove stream_id c.active_streams;
    pending_data = remove stream_id c.pending_data;
    deferred_close = discard stream_id c.deferred_close;
  }

  -- `_on_stream_done`
  abbrev pub on_stream_done : ℕ → Connection → List Effect × Connection
  on_stream_done = drop_stream

  unfoldable pub handle_event : List ℕ → Event → Connection → Connection
  handle_event psk (frame ok f) c = (handle_frame psk ok f c).2
  handle_event psk (stalled stream_id) c = (drain_stalled stream_id c).1
  handle_event psk (connects_to stream_id r) c = connected stream_id r c
  handle_event psk (ends_flush stream_id) c = (flushed stream_id c).1
  handle_event psk (fails_to_connect stream_id) c = not_connected stream_id c
  handle_event psk (ends_stream stream_id) c = (on_stream_done stream_id c).1
  handle_event psk (drops stream_id) c = (cancel_stream stream_id c).1
  handle_event psk ends c = clear c

  abbrev pub handle_events : List ℕ → List Event → Connection → Connection
  handle_events psk [] c = c
  handle_events psk (e ∷ es) c = handle_events psk es (handle_event psk e c)
