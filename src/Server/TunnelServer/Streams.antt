-- ===== src/Server/TunnelServer/Streams.antt =====
-- The streams of one client in server/tunnel_server.py: an event of one stream and the others.
use vpnself.Prelude.{
  ℕ, ◌+◌, ◌^◌, ◌<◌, ◌≡◌, ◌≢◌, ◌∙◌, refl, sym, Bool, true, List, [], ◌∷◌, ◌++◌, inl, inr, arith,
  nat_eq, if_both, Option-cases, ==_iff, ltb, length,
}
use mathlib.Core.Path.{subst}
use vpnself.Prelude.Dict.{Dict, get, put, remove, get-put, get-remove, contains}
use vpnself.Protocol.{Cmd, unpack_connect}
use vpnself.Server.Relay.{ForwardRelay}
use vpnself.Server.ForwardProxy.{ForwardProxy, make_key, get_relay, remove_relay, register}
use vpnself.Server.TunnelServer.{
  Connection, Effect, Verdict, Event, frame, stalled, connects_to, ends_flush, fails_to_connect,
  ends_stream, drops, ends, on_connect, on_data, on_close, buffer_data, on_frame, handle_event,
  drain_stalled, connected, flushed, not_connected, drop_stream, total, buffered, max_pending_bytes,
  is_deferred, add, discard, connects, relays, Task,
}
use vpnself.Server.TunnelServer.Isolation.{get-remove_relay, get-register, get-write_relay}

-- The stream that an event is about.
unfoldable pub IsAbout : ℕ → Event → Type 0
IsAbout i (frame ok f) = f.stream_id ≡ i
IsAbout i (stalled j) = j ≡ i
IsAbout i (connects_to j r) = j ≡ i
IsAbout i (ends_flush j) = j ≡ i
IsAbout i (fails_to_connect j) = j ≡ i
IsAbout i (ends_stream j) = j ≡ i
IsAbout i (drops j) = j ≡ i
IsAbout i ends = ⊥

module _ (client_id sid : ℕ) where
  -- What a stream has is as it was: its relay, its task, its buffer, its mark.
  abbrev pub IsSame : Connection → Connection → Type 0
  IsSame c c' =
      (c'.authenticated ≡ c.authenticated)
      × (get_relay client_id sid c'.proxy ≡ get_relay client_id sid c.proxy)
      × (contains sid c'.active_streams ≡ contains sid c.active_streams)
      × (get sid c'.pending_data ≡ get sid c.pending_data)
      × (is_deferred sid c'.deferred_close ≡ is_deferred sid c.deferred_close)

  module _ (i : ℕ) (differ : i ≢ sid) where
    get-put_other {ℓ} : {V : Type ℓ} (v : V) (d : Dict ℕ V) → get sid (put i v d) ≡ get sid d
    get-put_other v d = ground (arith, get-put sid i v d, ==_iff i sid, differ)

    get-remove_other {ℓ} : {V : Type ℓ} (d : Dict ℕ V) → get sid (remove i d) ≡ get sid d
    get-remove_other d = ground (arith, get-remove sid i d, ==_iff i sid, differ)

    contains-put_other : (t : Task) (d : Dict ℕ Task) → contains sid (put i t d) ≡ contains sid d
    contains-put_other t d = ground (arith, get-put_other t d)

    contains-remove_other : (d : Dict ℕ Task) → contains sid (remove i d) ≡ contains sid d
    contains-remove_other d = ground (arith, get-remove_other d)

    is_deferred-add : (ds : List ℕ) → is_deferred sid (add i ds) ≡ is_deferred sid ds
    is_deferred-add ds = ground (arith, ==_iff i sid, differ)

    is_deferred-discard : (ds : List ℕ) → is_deferred sid (discard i ds) ≡ is_deferred sid ds
    is_deferred-discard [] = refl
    is_deferred-discard (d ∷ ds) =
        ground (arith, is_deferred-discard ds, ==_iff d i, ==_iff d sid, differ)

    module _ (small : i < 2 ^ 32) (small_sid : sid < 2 ^ 32) where
      make_key_other : make_key client_id sid ≢ make_key client_id i
      unfolding make_key
      make_key_other = ground (arith, differ)

      get_relay-remove_relay :
          (p : ForwardProxy)
          → get_relay client_id sid (remove_relay client_id i p).1 ≡ get_relay client_id sid p
      unfolding get_relay
      get_relay-remove_relay p =
          get-remove_relay (make_key client_id sid) client_id i make_key_other p

      buffer_data-IsSame :
          (payload : List ℕ) (c : Connection) → IsSame c (buffer_data client_id i payload c)
      unfolding buffer_data
      buffer_data-IsSame payload c =
          if_both (IsSame c) (ltb max_pending_bytes (total (buffered i c) + length payload)) _ _
            (λ _.
              (refl, refl, refl, get-remove_other c.pending_data, is_deferred-add c.deferred_close))
            (λ _. (
              refl,
              refl,
              refl,
              get-put_other (buffered i c ++ (payload ∷ [])) c.pending_data,
              refl,
            ))

      on_data-IsSame :
          (payload : List ℕ) (c : Connection) → IsSame c (on_data client_id i payload c)
      unfolding on_data get_relay
      on_data-IsSame payload c = elim (Option-cases (get_relay client_id i c.proxy)) [
        | inl q ↦
            rw (q, on_data)
              (if_both (IsSame c) (contains i c.active_streams) _ _
                (λ _. buffer_data-IsSame payload c) (λ _. (refl, refl, refl, refl, refl)))
        | inr (r, q) ↦
            rw (q, on_data)
              (
                refl,
                get-write_relay (make_key client_id sid) client_id i make_key_other c.proxy
                    (payload ∷ []),
                refl,
                refl,
                refl,
              )
      ]

      on_close-IsSame : (c : Connection) → IsSame c (on_close client_id i c).1
      unfolding on_close
      on_close-IsSame c = elim (Option-cases (get_relay client_id i c.proxy)) [
        | inl q ↦
            rw (q, on_close)
              (if_both (IsSame c) (contains i c.active_streams) _ _
                (λ _. (refl, refl, refl, refl, is_deferred-add c.deferred_close))
                (λ _. (refl, refl, refl, refl, refl)))
        | inr (r, q) ↦
            rw (q, on_close)
              (
                refl,
                get_relay-remove_relay c.proxy,
                contains-remove_other c.active_streams,
                get-remove_other c.pending_data,
                refl,
              )
      ]

      on_connect-IsSame :
          (payload : List ℕ) (c : Connection) → IsSame c (on_connect client_id i payload c).1
      unfolding on_connect
      on_connect-IsSame payload c = elim (Option-cases (unpack_connect payload)) [
        | inl q ↦ rw (q, on_connect) (refl, refl, refl, refl, refl)
        | inr (t, q) ↦
            rw (q, on_connect)
              (refl, refl, contains-put_other connects c.active_streams, refl, refl)
      ]

      on_frame-IsSame :
          (ok : Bool) (cmd : Cmd) (payload : List ℕ) (c : Connection)
          → IsSame c
              (on_frame client_id ok (record { stream_id = i; cmd = cmd; payload = payload }) c).2
      unfolding on_frame
      on_frame-IsSame ok Cmd.connect payload c = on_connect-IsSame payload c
      on_frame-IsSame ok Cmd.data_frame payload c = on_data-IsSame payload c
      on_frame-IsSame ok Cmd.close payload c = on_close-IsSame c
      on_frame-IsSame ok Cmd.connect_ok payload c = (refl, refl, refl, refl, refl)
      on_frame-IsSame ok Cmd.connect_fail payload c = (refl, refl, refl, refl, refl)
      on_frame-IsSame ok Cmd.auth payload c = (refl, refl, refl, refl, refl)
      on_frame-IsSame ok Cmd.auth_ok payload c = (refl, refl, refl, refl, refl)
      on_frame-IsSame ok Cmd.auth_fail payload c = (refl, refl, refl, refl, refl)
      on_frame-IsSame ok Cmd.ping payload c = (refl, refl, refl, refl, refl)
      on_frame-IsSame ok Cmd.pong payload c = (refl, refl, refl, refl, refl)

      drop_stream-IsSame : (c : Connection) → IsSame c (drop_stream client_id i c).1
      drop_stream-IsSame c =
          (refl, get_relay-remove_relay c.proxy, contains-remove_other c.active_streams, refl, refl)

      connected-IsSame : (r : ForwardRelay) (c : Connection) → IsSame c (connected client_id i r c)
      unfolding connected get_relay
      connected-IsSame r c = (
        refl,
        get-write_relay (make_key client_id sid) client_id i make_key_other
              (register client_id i r c.proxy) (buffered i c)
            ∙ get-register (make_key client_id sid) client_id i make_key_other c.proxy r,
        refl,
        get-remove_other c.pending_data,
        refl,
      )

      flushed-IsSame : (c : Connection) → IsSame c (flushed client_id i c).1
      unfolding flushed
      flushed-IsSame c =
          if_both (λ (r : List Effect × Connection). IsSame c r.1) (is_deferred i c.deferred_close)
            _ _
            (λ _. (
              refl,
              get_relay-remove_relay c.proxy,
              refl,
              refl,
              is_deferred-discard c.deferred_close,
            ))
            (λ _. (refl, refl, contains-put_other relays c.active_streams, refl, refl))

      not_connected-IsSame : (c : Connection) → IsSame c (not_connected client_id i c)
      unfolding not_connected
      not_connected-IsSame c = (
        refl,
        refl,
        contains-remove_other c.active_streams,
        get-remove_other c.pending_data,
        is_deferred-discard c.deferred_close,
      )

  handle_frame-IsSame :
      (psk : List ℕ) (ok : Bool) (i : ℕ) (cmd : Cmd) (payload : List ℕ) (c : Connection)
      → c.authenticated ≡ true
      → IsSame c
          (on_frame client_id ok (record { stream_id = i; cmd = cmd; payload = payload }) c).2
      → IsSame c (
          handle_event client_id psk
            (frame ok (record { stream_id = i; cmd = cmd; payload = payload }))
            c)
  unfolding handle_event
  handle_frame-IsSame psk ok i cmd payload c auth h =
      if_both (λ (r : List Effect × Verdict × Connection). IsSame c r.2) c.authenticated _ _
        (λ _. h) (λ q. cc)

  -- An event of one stream leaves every other stream of an authenticated client as it is, for stream
  -- ids of 32 bits.
  pub handle_event-IsSame :
      (psk : List ℕ) (e : Event) (i : ℕ) (c : Connection)
      → c.authenticated ≡ true
      → IsAbout i e
      → i ≢ sid
      → i < 2 ^ 32
      → sid < 2 ^ 32
      → IsSame c (handle_event client_id psk e c)
  unfolding handle_event IsAbout drain_stalled
  handle_event-IsSame psk (frame ok f) i c auth about differ small small_sid =
      handle_frame-IsSame psk ok f.stream_id f.cmd f.payload c auth (
        on_frame-IsSame f.stream_id (subst (λ j. j ≢ sid) (sym about) differ)
          (subst (λ j. j < 2 ^ 32) (sym about) small) small_sid ok f.cmd f.payload c)
  handle_event-IsSame psk (stalled j) i c auth about differ small small_sid =
      subst (λ j. IsSame c (drop_stream client_id j c).1) (sym about)
        (drop_stream-IsSame i differ small small_sid c)
  handle_event-IsSame psk (connects_to j r) i c auth about differ small small_sid =
      subst (λ j. IsSame c (connected client_id j r c)) (sym about)
        (connected-IsSame i differ small small_sid r c)
  handle_event-IsSame psk (ends_flush j) i c auth about differ small small_sid =
      subst (λ j. IsSame c (flushed client_id j c).1) (sym about)
        (flushed-IsSame i differ small small_sid c)
  handle_event-IsSame psk (fails_to_connect j) i c auth about differ small small_sid =
      subst (λ j. IsSame c (not_connected client_id j c)) (sym about)
        (not_connected-IsSame i differ small small_sid c)
  handle_event-IsSame psk (ends_stream j) i c auth about differ small small_sid =
      subst (λ j. IsSame c (drop_stream client_id j c).1) (sym about)
        (drop_stream-IsSame i differ small small_sid c)
  handle_event-IsSame psk (drops j) i c auth about differ small small_sid =
      subst (λ j. IsSame c (drop_stream client_id j c).1) (sym about)
        (drop_stream-IsSame i differ small small_sid c)
  handle_event-IsSame psk ends i c auth about differ small small_sid = elim about [ ]
