-- ===== src/Server/TunnelServer/Bounds.antt =====
-- The memory of a connection in server/tunnel_server.py: the buffers of the streams whose CONNECT is
-- pending.
use vpnself.Prelude.{
  ℕ, ◌+◌, ◌≤◌, ◌≡◌, sym, Bool, List, [], ◌∷◌, ◌++◌, inl, inr, All, arith, nat_eq, length, if_both,
  Option-cases, ltb,
}
use mathlib.Core.Path.{subst}
use vpnself.Prelude.Dict.{All-put, All-remove}
use vpnself.Protocol.{Cmd, Frame, unpack_connect}
use vpnself.Server.ForwardProxy.{get_relay}
use vpnself.Server.TunnelServer.{
  Connection, Effect, Verdict, Event, frame, stalled, connects_to, ends_flush, fails_to_connect,
  ends_stream, drops, ends, total, buffered, max_pending_bytes, on_connect, on_data, on_close,
  buffer_data, on_frame, on_first_frame, handle_event, handle_events, drain_stalled, connected,
  flushed, not_connected,
}

-- No stream has more than MAX_PENDING_BYTES in its buffer.
abbrev pub IsBounded : Connection → Type 0
IsBounded c = All (λ kv. total kv.1 ≤ max_pending_bytes) c.pending_data

pub total-append : (xs ys : List (List ℕ)) → total (xs ++ ys) ≡ total xs + total ys
total-append [] ys = omega arith
total-append (x ∷ xs) ys = ground (arith, total-append xs ys)

buffer_data-IsBounded :
    (client_id sid : ℕ) (payload : List ℕ) (c : Connection)
    → IsBounded c
    → IsBounded (buffer_data client_id sid payload c)
unfolding buffer_data
buffer_data-IsBounded client_id sid payload c h =
    if_both IsBounded (ltb max_pending_bytes (total (buffered sid c) + length payload)) _ _
      (λ over. All-remove (λ kv. total kv.1 ≤ max_pending_bytes) sid c.pending_data h)
      (λ fits.
        All-put (λ ds. total ds ≤ max_pending_bytes) sid (buffered sid c ++ (payload ∷ []))
          c.pending_data (ground (arith, total-append (buffered sid c) (payload ∷ []), fits)) h)

on_data-IsBounded :
    (client_id sid : ℕ) (payload : List ℕ) (c : Connection)
    → IsBounded c
    → IsBounded (on_data client_id sid payload c)
unfolding on_data
on_data-IsBounded client_id sid payload c h =
    elim (Option-cases (get_relay client_id sid c.proxy)) [
      | inl q ↦
          rw (q, on_data)
            (if_both IsBounded _ _ _ (λ _. buffer_data-IsBounded client_id sid payload c h)
              (λ _. h))
      | inr (r, q) ↦ rw (q, on_data) h
    ]

on_close-IsBounded :
    (client_id sid : ℕ) (c : Connection) → IsBounded c → IsBounded (on_close client_id sid c).1
unfolding on_close
on_close-IsBounded client_id sid c h = elim (Option-cases (get_relay client_id sid c.proxy)) [
  | inl q ↦ rw (q, on_close) (if_both IsBounded _ _ _ (λ _. h) (λ _. h))
  | inr (r, q) ↦
      rw (q, on_close) (All-remove (λ kv. total kv.1 ≤ max_pending_bytes) sid c.pending_data h)
]

on_connect-IsBounded :
    (client_id sid : ℕ) (payload : List ℕ) (c : Connection)
    → IsBounded c
    → IsBounded (on_connect client_id sid payload c).1
unfolding on_connect
on_connect-IsBounded client_id sid payload c h = elim (Option-cases (unpack_connect payload)) [
  | inl q ↦ rw (q, on_connect) h
  | inr (t, q) ↦ rw (q, on_connect) h
]

on_frame-IsBounded :
    (client_id : ℕ) (ok : Bool) (sid : ℕ) (cmd : Cmd) (payload : List ℕ) (c : Connection)
    → IsBounded c
    → IsBounded
        (on_frame client_id ok (record { stream_id = sid; cmd = cmd; payload = payload }) c).2
unfolding on_frame
on_frame-IsBounded client_id ok sid Cmd.connect payload c h =
    on_connect-IsBounded client_id sid payload c h
on_frame-IsBounded client_id ok sid Cmd.data_frame payload c h =
    on_data-IsBounded client_id sid payload c h
on_frame-IsBounded client_id ok sid Cmd.close payload c h = on_close-IsBounded client_id sid c h
on_frame-IsBounded client_id ok sid Cmd.connect_ok payload c h = h
on_frame-IsBounded client_id ok sid Cmd.connect_fail payload c h = h
on_frame-IsBounded client_id ok sid Cmd.auth payload c h = h
on_frame-IsBounded client_id ok sid Cmd.auth_ok payload c h = h
on_frame-IsBounded client_id ok sid Cmd.auth_fail payload c h = h
on_frame-IsBounded client_id ok sid Cmd.ping payload c h = h
on_frame-IsBounded client_id ok sid Cmd.pong payload c h = h

-- A frame of a client that is not authenticated leaves the streams alone.
pub on_first_frame-kept :
    (client_id : ℕ) (psk : List ℕ) (ok : Bool) (f : Frame) (c : Connection)
    → let c' = (on_first_frame client_id psk ok f c).2 in
      (c'.active_streams ≡ c.active_streams)
      × (c'.pending_data ≡ c.pending_data)
      × (c'.deferred_close ≡ c.deferred_close)
      × (c'.proxy ≡ c.proxy)
unfolding on_first_frame
on_first_frame-kept client_id psk ok f c = ground arith

handle_event-IsBounded :
    (client_id : ℕ) (psk : List ℕ) (e : Event) (c : Connection)
    → IsBounded c
    → IsBounded (handle_event client_id psk e c)
unfolding handle_event drain_stalled connected flushed not_connected
handle_event-IsBounded client_id psk (frame ok f) c h =
    if_both (λ (r : List Effect × Verdict × Connection). IsBounded r.2) c.authenticated _ _
      (λ _. on_frame-IsBounded client_id ok f.stream_id f.cmd f.payload c h)
      (λ _.
        subst (λ d. All (λ kv. total kv.1 ≤ max_pending_bytes) d)
          (sym (on_first_frame-kept client_id psk ok f c).1) h)
handle_event-IsBounded client_id psk (stalled sid) c h = h
handle_event-IsBounded client_id psk (connects_to sid r) c h =
    All-remove (λ kv. total kv.1 ≤ max_pending_bytes) sid c.pending_data h
handle_event-IsBounded client_id psk (ends_flush sid) c h =
    if_both (λ (r : List Effect × Connection). IsBounded r.1) _ _ _ (λ _. h) (λ _. h)
handle_event-IsBounded client_id psk (fails_to_connect sid) c h =
    All-remove (λ kv. total kv.1 ≤ max_pending_bytes) sid c.pending_data h
handle_event-IsBounded client_id psk (ends_stream sid) c h = h
handle_event-IsBounded client_id psk (drops sid) c h = h
handle_event-IsBounded client_id psk ends c h = tt

-- Whatever happens on a connection, no stream ever has more than MAX_PENDING_BYTES in its buffer.
pub handle_events-IsBounded :
    (client_id : ℕ) (psk : List ℕ) (es : List Event) (c : Connection)
    → IsBounded c
    → IsBounded (handle_events client_id psk es c)
handle_events-IsBounded client_id psk [] c h = h
handle_events-IsBounded client_id psk (e ∷ es) c h =
    handle_events-IsBounded client_id psk es (handle_event client_id psk e c)
      (handle_event-IsBounded client_id psk e c h)
