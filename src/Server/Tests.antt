-- ===== src/Server/Tests.antt =====
-- The theorems about the server at concrete calls and frames.
use vpnself.Prelude.{
  ℕ, ◌≡◌, ◌≢◌, ◌⊎◌, refl, true, false, none, some, List, [], ◌∷◌, ◌++◌, All, any, ◌==◌, Text,
  text_beq, text_eq, nat_eq, codes, arith, if◌then◌else◌,
}
use vpnself.Net.{in_network}
use vpnself.Net.Sample.{sample}
use vpnself.Protocol.{Cmd, frame_of}
use vpnself.Server.Relay.{ForwardRelay, new_relay}
use vpnself.Server.DnsCache.{dns_cache_get}
use vpnself.Server.ForwardProxy.{
  Resolver, addresses, os_error, new_proxy, begin_connect, resolved, resolve, checked_ip, refused,
  make_key, get_relay, opened, Opened, remove_relay, register,
}
use vpnself.Server.ForwardProxy.Attempts.{Stage, Attempt, System, Step, here, step, begins}
use vpnself.Server.ForwardProxy.Public.{IsPublic}
use vpnself.Server.ForwardProxy.Safety.{IsSafe, Steps-IsPublic}
use vpnself.Server.TunnelServer.{
  Connection, Event, Effect, close_target, cancel, frame, drops, ends, ends_flush, new_connection,
  handle_frames, handle_event, handle_events, connects, connected, cancel_stream, clear,
  write_relay,
}
use vpnself.Server.TunnelServer.Auth.{IsRefused, handle_frames-gate}
use vpnself.Server.TunnelServer.Bounds.{IsBounded, handle_events-IsBounded}
use vpnself.Server.TunnelServer.Isolation.{get_relay-handle_events}
use vpnself.Server.TunnelServer.Streams.{IsSame, IsAbout, handle_event-IsSame}
use vpnself.Server.TunnelServer.CleanUp.{CleansUp, ends_loop, round, waits, connects_late, Closes}
use vpnself.Server.TunnelServer.Release.{CleansUp-releases}
use vpnself.Server.TunnelServer.Phases.{Spares}
use vpnself.Server.TunnelServer.Delivery.{IsFlowing, connected-delivers}

abbrev host : Text
host = codes "a.example"

abbrev ip : Text
ip = codes "1.2.3.4"

-- One name, and 10.0.0.0/8 as the private addresses.
abbrev resolver : Resolver
resolver = record {
  getaddrinfo = λ name. if text_beq name host then addresses (ip ∷ []) else os_error;
  is_private = λ a. in_network a (record { is_v4 = true; first = 167772160; last = 184549375 });
  is_loopback = λ a. false;
  is_link_local = λ a. false;
  is_reserved = λ a. false;
  is_multicast = λ a. false;
  is_unspecified = λ a. false;
}

abbrev idle : System
idle = record { proxy = new_proxy 2; attempts = [] }

-- A call that asks the resolver and opens the answer.
abbrev call : Stage → Attempt
call stage = record { client_id = 1; stream_id = 5; host = host; stage = stage }

abbrev asking : System
asking = record { proxy = new_proxy 2; attempts = call Stage.resolves ∷ [] }

abbrev opening : System
opening = record {
  proxy = (resolved sample resolver true 10 5 host (new_proxy 2)).1;
  attempts = call (Stage.opens ip) ∷ [];
}

abbrev given_up : System
given_up = record { proxy = opening.proxy; attempts = [] }

asks : Step sample resolver idle [] asking
unfolding begin_connect dns_cache_get
asks = begins 0 (call Stage.answers) idle

answered : Step sample resolver asking [] opening
unfolding resolved resolve checked_ip refused
answered = Step.resolves true 10 (call Stage.resolves) [] [] asking refl refl

times_out : Step sample resolver opening (ip ∷ []) given_up
unfolding opened
times_out = Step.opens Opened.timed_out ip (call (Stage.opens ip)) [] [] opening refl refl

Steps-IsPublic_example : IsSafe sample resolver given_up × All (IsPublic sample resolver) (ip ∷ [])
Steps-IsPublic_example =
    Steps-IsPublic sample resolver idle given_up (ip ∷ [])
      (step idle asking given_up [] (ip ∷ []) asks (
        step asking opening given_up [] (ip ∷ []) answered
          (step opening given_up given_up (ip ∷ []) [] times_out (here given_up))))
      (tt, tt)

abbrev psk : List ℕ
psk = 1 ∷ 2 ∷ []

-- A client that has sent no frame, and one that is authenticated and has the relay of stream 7.
abbrev stranger : Connection
stranger = new_connection (new_proxy 2)

abbrev known : Connection
known = record {
  authenticated = true;
  active_streams = (5, connects) ∷ (7, connects) ∷ [];
  pending_data = [];
  deferred_close = [];
  proxy = record {
    max_connections = 2;
    active_relays = (4294967303, new_relay 7) ∷ [];
    total_connections = 1;
    dns_cache = [];
  };
}

abbrev data_for : ℕ → List ℕ → Event
data_for stream_id payload = frame true (frame_of stream_id Cmd.data_frame payload)

handle_frames-gate_example :
    ((Cmd.ping ≡ Cmd.auth) × ([] ≡ psk))
    ⊎ IsRefused (handle_frames 1 psk ((true, frame_of 0 Cmd.ping []) ∷ []) stranger) stranger
handle_frames-gate_example = handle_frames-gate 1 psk true (frame_of 0 Cmd.ping []) [] stranger refl

handle_events-IsBounded_example :
    IsBounded (handle_events 1 psk (data_for 5 (1 ∷ []) ∷ data_for 5 (2 ∷ []) ∷ []) known)
handle_events-IsBounded_example =
    handle_events-IsBounded 1 psk (data_for 5 (1 ∷ []) ∷ data_for 5 (2 ∷ []) ∷ []) known tt

get_relay-handle_events_example :
    get_relay 1 7 (handle_events 2 psk (data_for 7 (1 ∷ []) ∷ drops 7 ∷ ends ∷ []) known).proxy
    ≡ get_relay 1 7 known.proxy
get_relay-handle_events_example =
    get_relay-handle_events 2 1 7 psk (data_for 7 (1 ∷ []) ∷ drops 7 ∷ ends ∷ []) known
      (λ q. omega arith)

handle_event-IsSame_example : IsSame 1 5 known (handle_event 1 psk (data_for 7 (1 ∷ [])) known)
unfolding IsAbout
handle_event-IsSame_example =
    handle_event-IsSame 1 5 psk (data_for 7 (1 ∷ [])) 7 known refl refl (λ q. omega arith)
      (omega arith) (omega arith)

connected-delivers_example : IsFlowing 1 5 (((1 ∷ []) ∷ (2 ∷ []) ∷ []) ++ ((3 ∷ []) ∷ [])) (
    handle_events 1 psk (ends_flush 5 ∷ data_for 5 (3 ∷ []) ∷ []) (
      connected 1 5 (new_relay 5) (
        handle_events 1 psk
          (data_for 5 (1 ∷ []) ∷ data_for 7 (9 ∷ []) ∷ data_for 5 (2 ∷ []) ∷ [])
          known)))
unfolding Spares get_relay make_key
connected-delivers_example =
    connected-delivers 1 5 psk
      (data_for 5 (1 ∷ []) ∷ data_for 7 (9 ∷ []) ∷ data_for 5 (2 ∷ []) ∷ [])
      (ends_flush 5 ∷ data_for 5 (3 ∷ []) ∷ []) known (omega arith) (refl, refl, refl, refl, refl)
      ((omega arith, data_spares), ((omega arith, data_spares), ((omega arith, data_spares), tt)))
      (omega arith, ((omega arith, data_spares), tt)) (omega arith)
  where
    data_spares : {i : ℕ} → i ≡ 5 → Cmd.data_frame ≢ Cmd.close
    data_spares _ = λ (q : Cmd.data_frame ≡ Cmd.close). cc

-- The end of a connection whose stream 5 connects while the loop waits.
abbrev late : Connection
late = connected 1 5 (new_relay 5) known

abbrev without_5 : Connection
without_5 = (cancel_stream 1 5 late).1

abbrev without_7 : Connection
without_7 = (cancel_stream 1 7 without_5).1

abbrev done_at_end : List Effect
done_at_end = (cancel_stream 1 5 late).0 ++ ((cancel_stream 1 7 without_5).0 ++ [])

known_ends : CleansUp 1 (5 ∷ 7 ∷ []) known done_at_end (clear without_7)
unfolding get_relay make_key
known_ends =
    waits (5 ∷ 7 ∷ []) known ([], late) done_at_end (clear without_7)
      (connects_late 5 (new_relay 5) refl refl)
      (round 5 (7 ∷ []) late ((cancel_stream 1 7 without_5).0 ++ []) (clear without_7)
        (round 7 [] without_5 [] (clear without_7) (ends_loop without_7)))

-- Both relays are closed, that of stream 5 too, which is registered on the way.
closed_at_end :
    done_at_end
    ≡ close_target (record { stream_id = 5; written = []; active = false })
      ∷ cancel 5
      ∷ close_target (record { stream_id = 7; written = []; active = false })
      ∷ cancel 7
      ∷ []
unfolding connected remove_relay make_key write_relay get_relay register
closed_at_end = refl

CleansUp-releases_example :
    (((clear without_7).active_streams ≡ [])
      × ((clear without_7).pending_data ≡ [])
      × ((clear without_7).deferred_close ≡ []))
    × ((sid : ℕ)
        → any (λ i. i == sid) (5 ∷ 7 ∷ []) ≡ true
        → ((r : ForwardRelay) → get_relay 1 sid known.proxy ≡ some r → Closes r done_at_end)
          × (get_relay 1 sid (clear without_7).proxy ≡ none))
CleansUp-releases_example = CleansUp-releases 1 known done_at_end (clear without_7) known_ends
