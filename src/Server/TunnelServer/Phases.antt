-- ===== src/Server/TunnelServer/Phases.antt =====
-- A phase in the life of one stream of server/tunnel_server.py, and the events that keep it.
use vpnself.Prelude.{
  ℕ, ◌^◌, ◌<◌, ◌≡◌, ◌≢◌, ◌==◌, refl, sym, ap, Bool, true, List, [], ◌∷◌, ◌++◌, inl, inr, arith,
  nat_eq, if_both, if◌then◌else◌, Bool-cases, ==_iff, All,
}
use mathlib.Core.Path.{subst}
use mathlib.Core.List.{append_assoc, append-nil}
use vpnself.Protocol.{Cmd, Frame}
use vpnself.Server.TunnelServer.{
  Connection, Event, frame, stalled, connects_to, ends_flush, fails_to_connect, ends_stream, drops,
  ends, on_frame, handle_event, handle_events, flushed, Effect, Verdict,
}
use vpnself.Server.TunnelServer.Streams.{IsSame, IsAbout, handle_event-IsSame}

-- The payload of a DATA frame.
abbrev pub data_of : Cmd → List ℕ → List (List ℕ)
data_of Cmd.data_frame payload = payload ∷ []
data_of cmd payload = []

-- What an event brings for the stream.
abbrev pub payloads_for : ℕ → Event → List (List ℕ)
payloads_for sid (frame ok f) = if f.stream_id == sid then data_of f.cmd f.payload else []
payloads_for sid e = []

abbrev pub received : ℕ → List Event → List (List ℕ)
received sid [] = []
received sid (e ∷ es) = payloads_for sid e ++ received sid es

-- An event that neither connects the stream nor ends it.
unfoldable pub Spares : ℕ → Event → Type 0
Spares sid (frame ok f) = (f.stream_id < 2 ^ 32) × (f.stream_id ≡ sid → f.cmd ≢ Cmd.close)
Spares sid (stalled i) = (i < 2 ^ 32) × (i ≢ sid)
Spares sid (connects_to i r) = (i < 2 ^ 32) × (i ≢ sid)
Spares sid (ends_flush i) = i < 2 ^ 32
Spares sid (fails_to_connect i) = (i < 2 ^ 32) × (i ≢ sid)
Spares sid (ends_stream i) = (i < 2 ^ 32) × (i ≢ sid)
Spares sid (drops i) = (i < 2 ^ 32) × (i ≢ sid)
Spares sid ends = ⊥

module _ (client_id sid : ℕ) where
  -- A phase `P` of the stream that its events keep, as long as what they bring fits.
  module _ (P : List (List ℕ) → Connection → Type 0) (Fits : List (List ℕ) → Type 0)
      (fits_front : (xs ys : List (List ℕ)) → Fits (xs ++ ys) → Fits xs)
      (authenticated : (ds : List (List ℕ)) (c : Connection) → P ds c → c.authenticated ≡ true)
      (kept_same : (ds : List (List ℕ)) (c c' : Connection)
        → P ds c
        → IsSame client_id sid c c'
        → P ds c')
      (kept_own : (ok : Bool) (cmd : Cmd) (payload : List ℕ) (ds : List (List ℕ)) (c : Connection)
        → cmd ≢ Cmd.close
        → P ds c
        → Fits (ds ++ data_of cmd payload)
        → P
            (ds ++ data_of cmd payload)
            (on_frame client_id ok (record { stream_id = sid; cmd = cmd; payload = payload }) c).2)
      (kept_flush : (ds : List (List ℕ)) (c : Connection)
        → P ds c
        → P ds (flushed client_id sid c).1)
      (psk : List ℕ) (small_sid : sid < 2 ^ 32) where
    -- An event that brings nothing.
    silent : (ds : List (List ℕ)) (c : Connection) → P ds c → P (ds ++ []) c
    silent ds c h = subst (λ x. P x c) (sym (append-nil ds)) h

    other_event :
        (e : Event) (i : ℕ) (ds : List (List ℕ)) (c : Connection)
        → IsAbout i e
        → (i < 2 ^ 32) × (i ≢ sid)
        → P ds c
        → P (ds ++ []) (handle_event client_id psk e c)
    other_event e i ds c about (small, differ) h = silent ds _ (
        kept_same ds c _ h (
          handle_event-IsSame client_id sid psk e i c (authenticated ds c h) about differ small
            small_sid))

    own_frame :
        (ok : Bool) (f : Frame) (ds : List (List ℕ)) (c : Connection)
        → f.stream_id ≡ sid
        → f.cmd ≢ Cmd.close
        → P ds c
        → Fits (ds ++ data_of f.cmd f.payload)
        → P (ds ++ data_of f.cmd f.payload) (handle_event client_id psk (frame ok f) c)
    unfolding handle_event
    own_frame ok f ds c same cmd h fits =
        if_both (λ (r : List Effect × Verdict × Connection). P (ds ++ data_of f.cmd f.payload) r.2)
          c.authenticated _ _
          (λ _.
            subst
              (λ i.
                P (ds ++ data_of f.cmd f.payload)
                  (on_frame client_id ok
                    (record { stream_id = i; cmd = f.cmd; payload = f.payload }) c).2)
              (sym same) (kept_own ok f.cmd f.payload ds c cmd h fits))
          (λ q. let a : c.authenticated ≡ true = authenticated ds c h in cc)

    own_flush :
        (ds : List (List ℕ)) (c : Connection)
        → P ds c
        → P (ds ++ []) (handle_event client_id psk (ends_flush sid) c)
    unfolding handle_event
    own_flush ds c h = silent ds _ (kept_flush ds c h)

    handle_event-phase :
        (e : Event) (ds : List (List ℕ)) (c : Connection)
        → Spares sid e
        → P ds c
        → Fits (ds ++ payloads_for sid e)
        → P (ds ++ payloads_for sid e) (handle_event client_id psk e c)
    unfolding Spares IsAbout
    handle_event-phase (frame ok f) ds c (small, kept) h fits =
        elim (Bool-cases (f.stream_id == sid)) [
          | inl q ↦
              let same : f.stream_id ≡ sid = (==_iff f.stream_id sid).0 q in
              let brings : payloads_for sid (frame ok f) ≡ data_of f.cmd f.payload =
                ap (λ b. if b then data_of f.cmd f.payload else []) q in
              subst (λ x. P (ds ++ x) (handle_event client_id psk (frame ok f) c)) (sym brings)
                (own_frame ok f ds c same (kept same) h (subst (λ x. Fits (ds ++ x)) brings fits))
          | inr q ↦
              let differ : f.stream_id ≢ sid = ground (arith, ==_iff f.stream_id sid, q) in
              let brings : payloads_for sid (frame ok f) ≡ [] =
                ap (λ b. if b then data_of f.cmd f.payload else []) q in
              subst (λ x. P (ds ++ x) (handle_event client_id psk (frame ok f) c)) (sym brings)
                (other_event (frame ok f) f.stream_id ds c refl (small, differ) h)
        ]
    handle_event-phase (stalled i) ds c s h fits = other_event (stalled i) i ds c refl s h
    handle_event-phase (connects_to i r) ds c s h fits =
        other_event (connects_to i r) i ds c refl s h
    handle_event-phase (ends_flush i) ds c small h fits = elim (Bool-cases (i == sid)) [
      | inl q ↦
          subst (λ j. P (ds ++ []) (handle_event client_id psk (ends_flush j) c))
            (sym ((==_iff i sid).0 q)) (own_flush ds c h)
      | inr q ↦ other_event (ends_flush i) i ds c refl (small, ground (arith, ==_iff i sid, q)) h
    ]
    handle_event-phase (fails_to_connect i) ds c s h fits =
        other_event (fails_to_connect i) i ds c refl s h
    handle_event-phase (ends_stream i) ds c s h fits = other_event (ends_stream i) i ds c refl s h
    handle_event-phase (drops i) ds c s h fits = other_event (drops i) i ds c refl s h
    handle_event-phase ends ds c s h fits = elim s [ ]

    pub handle_events-phase :
        (es : List Event) (ds : List (List ℕ)) (c : Connection)
        → All (λ e. Spares sid e) es
        → P ds c
        → Fits (ds ++ received sid es)
        → P (ds ++ received sid es) (handle_events client_id psk es c)
    handle_events-phase [] ds c s h fits = silent ds c h
    handle_events-phase (e ∷ es) ds c (s, ss) h fits =
        let both = append_assoc ds (payloads_for sid e) (received sid es) in
        let fits' = subst Fits (sym both) fits in
        let c' = handle_event client_id psk e c in
        subst (λ x. P x (handle_events client_id psk es c')) both
          (handle_events-phase es (ds ++ payloads_for sid e) c' ss
            (handle_event-phase e ds c s h (fits_front _ _ fits')) fits')
