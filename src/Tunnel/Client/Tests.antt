-- ===== src/Tunnel/Client/Tests.antt =====
-- The theorems about the tunnel client at concrete frames.
use vpnself.Prelude.{ℕ, ◌≡◌, refl, [], ◌∷◌, List, some, true, arith, nat_eq}
use vpnself.Prelude.Dict.{get}
use vpnself.Protocol.{Cmd, Frame, frame_of, pack_frame}
use vpnself.Protocol.Reader.{server_feed}
use vpnself.Protocol.Reader.Chunks.{Delivers, encoded, concat}
use vpnself.Tunnel.Stream.{new_stream}
use vpnself.Tunnel.Client.{
  TunnelClient, Entry, no_future, receive, receive_all, send_data, payloads, close_stream,
}
use vpnself.Tunnel.Client.Demux.{on_frames, map_option, bytes_of, get-receive_all}
use vpnself.Tunnel.Client.Steps.{IsValid, step, here, receives, closes, Steps-IsValid}
use vpnself.Tunnel.Client.Payloads.{send_data_arrives}

abbrev entry : Entry
entry = record { stream = new_stream; connect_future = no_future; bytes_sent = 0 }

abbrev client : TunnelClient
client = record {
  connected = true;
  authenticated = true;
  running = true;
  has_writer = true;
  optimistic_connect = true;
  streams = (1, entry) ∷ (2, entry) ∷ [];
  next_stream_id = 3;
  frame_rx = 0;
  last_rx_time = 0;
}

-- DATA of two streams, interleaved, with a PING.
abbrev arrivals : List (ℕ × Frame)
arrivals =
    (5, frame_of 1 Cmd.data_frame (7 ∷ []))
    ∷ (5, frame_of 2 Cmd.data_frame (9 ∷ []))
    ∷ (6, frame_of 0 Cmd.ping [])
    ∷ (6, frame_of 1 Cmd.data_frame (8 ∷ []))
    ∷ []

pinged : (receive_all arrivals client).0 ≡ frame_of 0 Cmd.pong [] ∷ []
unfolding receive
pinged = refl

get-receive_all_example :
    get 1 (receive_all arrivals client).1.streams
    ≡ map_option
        (on_frames (frame_of 1 Cmd.data_frame (7 ∷ []) ∷ frame_of 1 Cmd.data_frame (8 ∷ []) ∷ []))
        (some entry)
get-receive_all_example = get-receive_all 1 arrivals client

abbrev reads : List (List ℕ)
reads = (0 ∷ 0 ∷ 0 ∷ 11 ∷ 0 ∷ []) ∷ (0 ∷ 0 ∷ 1 ∷ 2 ∷ 5 ∷ 6 ∷ []) ∷ []

sent_wire : encoded (send_data (λ k. true) 1 (5 ∷ 6 ∷ []) client).0 ≡ some (concat reads)
unfolding send_data payloads pack_frame
sent_wire = refl

send_data_arrives_example :
    Delivers server_feed reads (send_data (λ k. true) 1 (5 ∷ 6 ∷ []) client).0
    × (bytes_of (send_data (λ k. true) 1 (5 ∷ 6 ∷ []) client).0 ≡ 5 ∷ 6 ∷ [])
send_data_arrives_example =
    send_data_arrives (λ k. true) 1 (5 ∷ 6 ∷ []) entry client reads refl refl refl (omega arith)
      (λ k. refl) sent_wire

client-IsValid : IsValid client
client-IsValid = (
  (omega arith, omega arith),
  (
    (refl, (refl, tt)),
    (
      ((omega arith, omega arith), (refl, omega arith)),
      (((omega arith, omega arith), (refl, omega arith)), tt),
    ),
  ),
)

Steps-IsValid_example :
    IsValid (close_stream 1 (receive 7 (frame_of 1 Cmd.data_frame (7 ∷ [])) client).1).2
Steps-IsValid_example =
    Steps-IsValid client
      (close_stream 1 (receive 7 (frame_of 1 Cmd.data_frame (7 ∷ [])) client).1).2
      (step _ _ _ (receives 7 (frame_of 1 Cmd.data_frame (7 ∷ [])) client)
        (step _ _ _ (closes 1 (receive 7 (frame_of 1 Cmd.data_frame (7 ∷ [])) client).1) (here _)))
      client-IsValid
