-- ===== src/Server/TunnelServer/Delivery.antt =====
-- The data of a stream in server/tunnel_server.py: buffered while its CONNECT is pending, flushed to
-- the target, and written to it directly from then on.
use vpnself.Prelude.{
  ℕ, ◌^◌, ◌<◌, ◌≤◌, ◌≡◌, ◌≢◌, ◌∙◌, refl, sym, ap, Bool, true, false, none, some, List, [], ◌∷◌,
  ◌++◌, inl, inr, arith, nat_eq, Option-cases, ==_iff, All,
}
use mathlib.Core.Path.{subst}
use mathlib.Core.List.{append-nil}
use vpnself.Prelude.Dict.{get, put, get-put, contains}
use vpnself.Protocol.{Cmd, unpack_connect}
use vpnself.Server.Relay.{ForwardRelay, new_relay}
use vpnself.Server.ForwardProxy.{make_key, get_relay, register}
use vpnself.Server.TunnelServer.{
  Connection, Event, on_connect, on_data, buffer_data, on_frame, handle_events, connected, flushed,
  total, buffered, or_empty, max_pending_bytes, is_deferred, connects, relays, write_relay,
}
use vpnself.Server.TunnelServer.Bounds.{total-append}
use vpnself.Server.TunnelServer.Streams.{IsSame}
use vpnself.Server.TunnelServer.Phases.{data_of, received, Spares, handle_events-phase}

module _ (client_id sid : ℕ) where
  -- The CONNECT of the stream is pending, and `ds` is in its buffer.
  abbrev pub IsWaiting : List (List ℕ) → Connection → Type 0
  IsWaiting ds c =
      (c.authenticated ≡ true)
      × (get_relay client_id sid c.proxy ≡ none)
      × (contains sid c.active_streams ≡ true)
      × (buffered sid c ≡ ds)
      × (is_deferred sid c.deferred_close ≡ false)

  -- The stream has a relay, and `ds` has been written to its target.
  abbrev pub IsFlowing : List (List ℕ) → Connection → Type 0
  IsFlowing ds c =
      (c.authenticated ≡ true)
      × ((r : ForwardRelay) × (get_relay client_id sid c.proxy ≡ some r) × (r.written ≡ ds))
      × (is_deferred sid c.deferred_close ≡ false)

  IsWaiting-IsSame :
      (ds : List (List ℕ)) (c c' : Connection)
      → IsWaiting ds c
      → IsSame client_id sid c c'
      → IsWaiting ds c'
  IsWaiting-IsSame ds c c' (a, g, t, b, d) (a', g', t', b', d') =
      (a' ∙ a, g' ∙ g, t' ∙ t, ap or_empty b' ∙ b, d' ∙ d)

  IsFlowing-IsSame :
      (ds : List (List ℕ)) (c c' : Connection)
      → IsFlowing ds c
      → IsSame client_id sid c c'
      → IsFlowing ds c'
  IsFlowing-IsSame ds c c' (a, (r, g, w), d) (a', g', t', b', d') = (a' ∙ a, (r, g' ∙ g, w), d' ∙ d)

  on_data-IsWaiting :
      (payload : List ℕ) (ds : List (List ℕ)) (c : Connection)
      → IsWaiting ds c
      → total (ds ++ (payload ∷ [])) ≤ max_pending_bytes
      → IsWaiting (ds ++ (payload ∷ [])) (on_data client_id sid payload c)
  unfolding on_data buffer_data
  on_data-IsWaiting payload ds c (a, g, t, b, d) fits = ground (
    arith,
    total-append ds (payload ∷ []),
    get-put sid sid (buffered sid c ++ (payload ∷ [])) c.pending_data,
    ==_iff sid sid,
  )

  contains-put_self : (c : Connection) → contains sid (put sid connects c.active_streams) ≡ true
  contains-put_self c = ground (arith, get-put sid sid connects c.active_streams, ==_iff sid sid)

  on_connect-IsWaiting :
      (payload : List ℕ) (ds : List (List ℕ)) (c : Connection)
      → IsWaiting ds c
      → IsWaiting ds (on_connect client_id sid payload c).1
  unfolding on_connect
  on_connect-IsWaiting payload ds c (a, g, t, b, d) = elim (Option-cases (unpack_connect payload)) [
    | inl q ↦ rw (q, on_connect) (a, g, t, b, d)
    | inr (target, q) ↦ rw (q, on_connect) (a, g, contains-put_self c, b, d)
  ]

  on_data-IsFlowing :
      (payload : List ℕ) (ds : List (List ℕ)) (c : Connection)
      → IsFlowing ds c
      → IsFlowing (ds ++ (payload ∷ [])) (on_data client_id sid payload c)
  unfolding on_data write_relay get_relay
  on_data-IsFlowing payload ds c (a, (r, g, w), d) =
      let r' : ForwardRelay = record r { written = r.written ++ (payload ∷ []) } in
      let key = make_key client_id sid in
      rw (g, on_data, write_relay)
        (
          a,
          (
            r',
            ground (arith, get-put key key r' c.proxy.active_relays, ==_iff key key),
            ap (λ x. x ++ (payload ∷ [])) w,
          ),
          d,
        )

  on_connect-IsFlowing :
      (payload : List ℕ) (ds : List (List ℕ)) (c : Connection)
      → IsFlowing ds c
      → IsFlowing ds (on_connect client_id sid payload c).1
  unfolding on_connect
  on_connect-IsFlowing payload ds c h = elim (Option-cases (unpack_connect payload)) [
    | inl q ↦ rw (q, on_connect) h
    | inr (target, q) ↦ rw (q, on_connect) h
  ]

  -- The stream's own frames.
  on_frame-IsWaiting :
      (ok : Bool) (cmd : Cmd) (payload : List ℕ) (ds : List (List ℕ)) (c : Connection)
      → cmd ≢ Cmd.close
      → IsWaiting ds c
      → total (ds ++ data_of cmd payload) ≤ max_pending_bytes
      → IsWaiting
          (ds ++ data_of cmd payload)
          (on_frame client_id ok (record { stream_id = sid; cmd = cmd; payload = payload }) c).2
  unfolding on_frame
  on_frame-IsWaiting ok Cmd.data_frame payload ds c kept h fits =
      on_data-IsWaiting payload ds c h fits
  on_frame-IsWaiting ok Cmd.connect payload ds c kept h fits =
      subst (λ x. IsWaiting x (on_connect client_id sid payload c).1) (sym (append-nil ds))
        (on_connect-IsWaiting payload ds c h)
  on_frame-IsWaiting ok Cmd.close payload ds c kept h fits = elim (kept refl) [ ]
  on_frame-IsWaiting ok Cmd.connect_ok payload ds c kept h fits = rw (append-nil ds) h
  on_frame-IsWaiting ok Cmd.connect_fail payload ds c kept h fits = rw (append-nil ds) h
  on_frame-IsWaiting ok Cmd.auth payload ds c kept h fits = rw (append-nil ds) h
  on_frame-IsWaiting ok Cmd.auth_ok payload ds c kept h fits = rw (append-nil ds) h
  on_frame-IsWaiting ok Cmd.auth_fail payload ds c kept h fits = rw (append-nil ds) h
  on_frame-IsWaiting ok Cmd.ping payload ds c kept h fits = rw (append-nil ds) h
  on_frame-IsWaiting ok Cmd.pong payload ds c kept h fits = rw (append-nil ds) h

  on_frame-IsFlowing :
      (ok : Bool) (cmd : Cmd) (payload : List ℕ) (ds : List (List ℕ)) (c : Connection)
      → cmd ≢ Cmd.close
      → IsFlowing ds c
      → IsFlowing
          (ds ++ data_of cmd payload)
          (on_frame client_id ok (record { stream_id = sid; cmd = cmd; payload = payload }) c).2
  unfolding on_frame
  on_frame-IsFlowing ok Cmd.data_frame payload ds c kept h = on_data-IsFlowing payload ds c h
  on_frame-IsFlowing ok Cmd.connect payload ds c kept h =
      subst (λ x. IsFlowing x (on_connect client_id sid payload c).1) (sym (append-nil ds))
        (on_connect-IsFlowing payload ds c h)
  on_frame-IsFlowing ok Cmd.close payload ds c kept h = elim (kept refl) [ ]
  on_frame-IsFlowing ok Cmd.connect_ok payload ds c kept h = rw (append-nil ds) h
  on_frame-IsFlowing ok Cmd.connect_fail payload ds c kept h = rw (append-nil ds) h
  on_frame-IsFlowing ok Cmd.auth payload ds c kept h = rw (append-nil ds) h
  on_frame-IsFlowing ok Cmd.auth_ok payload ds c kept h = rw (append-nil ds) h
  on_frame-IsFlowing ok Cmd.auth_fail payload ds c kept h = rw (append-nil ds) h
  on_frame-IsFlowing ok Cmd.ping payload ds c kept h = rw (append-nil ds) h
  on_frame-IsFlowing ok Cmd.pong payload ds c kept h = rw (append-nil ds) h

  flushed-keeps :
      (c : Connection)
      → is_deferred sid c.deferred_close ≡ false
      → (flushed client_id sid c).1 ≡ record c { active_streams = put sid relays c.active_streams }
  unfolding flushed
  flushed-keeps c d = rw d refl

  flushed-IsWaiting :
      (ds : List (List ℕ)) (c : Connection)
      → IsWaiting ds c
      → IsWaiting ds (flushed client_id sid c).1
  flushed-IsWaiting ds c (a, g, t, b, d) =
      subst (IsWaiting ds) (sym (flushed-keeps c d))
        (a, g, ground (arith, get-put sid sid relays c.active_streams, ==_iff sid sid), b, d)

  flushed-IsFlowing :
      (ds : List (List ℕ)) (c : Connection)
      → IsFlowing ds c
      → IsFlowing ds (flushed client_id sid c).1
  flushed-IsFlowing ds c (a, r, d) = subst (IsFlowing ds) (sym (flushed-keeps c d)) (a, r, d)

  connected-IsFlowing :
      (ds : List (List ℕ)) (c : Connection)
      → IsWaiting ds c
      → IsFlowing ds (connected client_id sid (new_relay sid) c)
  unfolding connected write_relay get_relay register
  connected-IsFlowing ds c (a, g, t, b, d) =
      let key = make_key client_id sid in
      let fresh : ForwardRelay = new_relay sid in
      let relay : ForwardRelay = record fresh { written = buffered sid c } in
      let found : get key (put key fresh c.proxy.active_relays) ≡ some fresh =
        ground (arith, get-put key key fresh c.proxy.active_relays, ==_iff key key) in
      rw (found, connected, write_relay)
        (
          a,
          (
            relay,
            ground (
              arith,
              get-put key key relay (put key fresh c.proxy.active_relays),
              ==_iff key key,
            ),
            b,
          ),
          d,
        )

  total-front :
      (xs ys : List (List ℕ)) → total (xs ++ ys) ≤ max_pending_bytes → total xs ≤ max_pending_bytes
  total-front xs ys h = ground (arith, total-append xs ys)

  -- The CONNECT of the stream is pending and nothing is buffered. Whatever happens to other streams
  -- in between, and whenever the connection is made, the target is given the payloads of the
  -- stream's DATA frames, all of them and in order, as long as those before the connection fit in
  -- MAX_PENDING_BYTES and the stream is not ended.
  pub connected-delivers :
      (psk : List ℕ) (es es' : List Event) (c : Connection)
      → sid < 2 ^ 32
      → IsWaiting [] c
      → All (λ e. Spares sid e) es
      → All (λ e. Spares sid e) es'
      → total (received sid es) ≤ max_pending_bytes
      → IsFlowing (received sid es ++ received sid es') (
          handle_events client_id psk es'
            (connected client_id sid (new_relay sid) (handle_events client_id psk es c)))
  connected-delivers psk es es' c small h spares spares' fits =
      handle_events-phase client_id sid IsFlowing (λ _. Unit) (λ xs ys _. tt) (λ ds c h. h.0)
        IsFlowing-IsSame (λ ok cmd payload ds c k h _. on_frame-IsFlowing ok cmd payload ds c k h)
        flushed-IsFlowing psk small es' (received sid es)
        (connected client_id sid (new_relay sid) (handle_events client_id psk es c)) spares'
        (connected-IsFlowing (received sid es) (handle_events client_id psk es c) (
          handle_events-phase client_id sid IsWaiting (λ ds. total ds ≤ max_pending_bytes)
            total-front (λ ds c h. h.0) IsWaiting-IsSame on_frame-IsWaiting flushed-IsWaiting psk
            small es [] c spares h fits))
        tt
