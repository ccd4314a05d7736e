-- ===== src/Server/TunnelServer/Isolation.antt =====
-- The clients of server/tunnel_server.py share one proxy: what the connection of one client does to
-- the relays of another.
use vpnself.Prelude.{
  ℕ, ◌+◌, ◌≡◌, ◌≢◌, ◌∙◌, refl, sym, Bool, List, [], ◌∷◌, ◌++◌, inl, inr, arith, nat_eq, if_both,
  Option-cases, ==_iff, ltb, length, ap,
}
use vpnself.Prelude.Dict.{get, put, get-put, get-remove, contains}
use vpnself.Protocol.{Cmd, unpack_connect}
use vpnself.Server.Relay.{ForwardRelay}
use vpnself.Server.ForwardProxy.{ForwardProxy, make_key, get_relay, remove_relay, register}
use vpnself.Server.TunnelServer.{
  Connection, Effect, Verdict, Event, frame, stalled, connects_to, ends_flush, fails_to_connect,
  ends_stream, drops, ends, write_relay, on_connect, on_data, on_close, buffer_data, on_frame,
  handle_event, handle_events, drain_stalled, connected, flushed, not_connected, total, buffered,
  max_pending_bytes, is_deferred,
}
use vpnself.Server.TunnelServer.Bounds.{on_first_frame-kept}

-- What the operations of the proxy on one key leave under another.
module _ (k client_id stream_id : ℕ) (other : k ≢ make_key client_id stream_id)
    (p : ForwardProxy) where
  pub get-remove_relay :
      get k (remove_relay client_id stream_id p).1.active_relays ≡ get k p.active_relays
  unfolding remove_relay
  get-remove_relay = ground (
    arith,
    get-remove k (make_key client_id stream_id) p.active_relays,
    ==_iff (make_key client_id stream_id) k,
    other,
  )

  pub get-register :
      (r : ForwardRelay)
      → get k (register client_id stream_id r p).active_relays ≡ get k p.active_relays
  unfolding register
  get-register r = ground (
    arith,
    get-put k (make_key client_id stream_id) r p.active_relays,
    ==_iff (make_key client_id stream_id) k,
    other,
  )

  get-put_written :
      (r : ForwardRelay)
      → get k (put (make_key client_id stream_id) r p.active_relays) ≡ get k p.active_relays
  get-put_written r = ground (
    arith,
    get-put k (make_key client_id stream_id) r p.active_relays,
    ==_iff (make_key client_id stream_id) k,
    other,
  )

  pub get-write_relay :
      (ds : List (List ℕ))
      → get k (write_relay client_id stream_id ds p).active_relays ≡ get k p.active_relays
  unfolding write_relay
  get-write_relay ds = elim (Option-cases (get_relay client_id stream_id p)) [
    | inl q ↦ rw (q, write_relay) refl
    | inr (r, q) ↦ rw (q, write_relay) (get-put_written (record r { written = r.written ++ ds }))
  ]

-- Two clients never share a key, whatever their stream ids are.
pub make_key_differs : (c s c' s' : ℕ) → c ≢ c' → make_key c s ≢ make_key c' s'
unfolding make_key
make_key_differs c s c' s' differ = ground arith

-- The steps of a connection whose client has no key `k`.
module _ (client_id k : ℕ) (others : (sid : ℕ) → k ≢ make_key client_id sid) where
  abbrev Keeps : Connection → Connection → Type 0
  Keeps c c' = get k c'.proxy.active_relays ≡ get k c.proxy.active_relays

  on_data-Keeps :
      (sid : ℕ) (payload : List ℕ) (c : Connection) → Keeps c (on_data client_id sid payload c)
  unfolding buffer_data on_data
  on_data-Keeps sid payload c = elim (Option-cases (get_relay client_id sid c.proxy)) [
    | inl q ↦
        rw (q, on_data)
          (if_both (Keeps c) (contains sid c.active_streams) _ _
            (λ _.
              if_both (Keeps c) (ltb max_pending_bytes (total (buffered sid c) + length payload)) _
                _ (λ _. refl) (λ _. refl))
            (λ _. refl))
    | inr (r, q) ↦
        rw (q, on_data) (get-write_relay k client_id sid (others sid) c.proxy (payload ∷ []))
  ]

  on_close-Keeps : (sid : ℕ) (c : Connection) → Keeps c (on_close client_id sid c).1
  unfolding on_close
  on_close-Keeps sid c = elim (Option-cases (get_relay client_id sid c.proxy)) [
    | inl q ↦ rw (q, on_close) (if_both (Keeps c) _ _ _ (λ _. refl) (λ _. refl))
    | inr (r, q) ↦ rw (q, on_close) (get-remove_relay k client_id sid (others sid) c.proxy)
  ]

  on_connect-Keeps :
      (sid : ℕ) (payload : List ℕ) (c : Connection) → Keeps c (on_connect client_id sid payload c).1
  unfolding on_connect
  on_connect-Keeps sid payload c = elim (Option-cases (unpack_connect payload)) [
    | inl q ↦ rw (q, on_connect) refl
    | inr (t, q) ↦ rw (q, on_connect) refl
  ]

  on_frame-Keeps :
      (ok : Bool) (sid : ℕ) (cmd : Cmd) (payload : List ℕ) (c : Connection)
      → Keeps c
          (on_frame client_id ok (record { stream_id = sid; cmd = cmd; payload = payload }) c).2
  unfolding on_frame
  on_frame-Keeps ok sid Cmd.connect payload c = on_connect-Keeps sid payload c
  on_frame-Keeps ok sid Cmd.data_frame payload c = on_data-Keeps sid payload c
  on_frame-Keeps ok sid Cmd.close payload c = on_close-Keeps sid c
  on_frame-Keeps ok sid Cmd.connect_ok payload c = refl
  on_frame-Keeps ok sid Cmd.connect_fail payload c = refl
  on_frame-Keeps ok sid Cmd.auth payload c = refl
  on_frame-Keeps ok sid Cmd.auth_ok payload c = refl
  on_frame-Keeps ok sid Cmd.auth_fail payload c = refl
  on_frame-Keeps ok sid Cmd.ping payload c = refl
  on_frame-Keeps ok sid Cmd.pong payload c = refl

  handle_event-Keeps :
      (psk : List ℕ) (e : Event) (c : Connection) → Keeps c (handle_event client_id psk e c)
  unfolding handle_event drain_stalled connected flushed not_connected
  handle_event-Keeps psk (frame ok f) c =
      if_both (λ (r : List Effect × Verdict × Connection). Keeps c r.2) c.authenticated _ _
        (λ _. on_frame-Keeps ok f.stream_id f.cmd f.payload c)
        (λ _.
          ap (λ (p : ForwardProxy). get k p.active_relays)
            (on_first_frame-kept client_id psk ok f c).3)
  handle_event-Keeps psk (stalled sid) c = get-remove_relay k client_id sid (others sid) c.proxy
  handle_event-Keeps psk (connects_to sid r) c =
      get-write_relay k client_id sid (others sid) (register client_id sid r c.proxy)
        (buffered sid c)
      ∙ get-register k client_id sid (others sid) c.proxy r
  handle_event-Keeps psk (ends_flush sid) c =
      if_both (λ (r : List Effect × Connection). Keeps c r.1) (is_deferred sid c.deferred_close) _ _
        (λ _. get-remove_relay k client_id sid (others sid) c.proxy) (λ _. refl)
  handle_event-Keeps psk (fails_to_connect sid) c = refl
  handle_event-Keeps psk (ends_stream sid) c = get-remove_relay k client_id sid (others sid) c.proxy
  handle_event-Keeps psk (drops sid) c = get-remove_relay k client_id sid (others sid) c.proxy
  handle_event-Keeps psk ends c = refl

  handle_events-Keeps :
      (psk : List ℕ) (es : List Event) (c : Connection) → Keeps c (handle_events client_id psk es c)
  handle_events-Keeps psk [] c = refl
  handle_events-Keeps psk (e ∷ es) c =
      handle_events-Keeps psk es (handle_event client_id psk e c) ∙ handle_event-Keeps psk e c

-- Whatever happens on the connection of one client, its end included, the relays of every other
-- client stay as they are.
pub get_relay-handle_events :
    (client_id other_id stream_id : ℕ) (psk : List ℕ) (es : List Event) (c : Connection)
    → client_id ≢ other_id
    → get_relay other_id stream_id (handle_events client_id psk es c).proxy
      ≡ get_relay other_id stream_id c.proxy
unfolding get_relay
get_relay-handle_events client_id other_id stream_id psk es c differ =
    handle_events-Keeps client_id (make_key other_id stream_id)
      (λ sid. make_key_differs other_id stream_id client_id sid (λ same. differ (sym same))) psk es
      c
