-- ===== src/Protocol/Tests.antt =====
-- Runs of the protocol functions, and the theorems about them at concrete inputs.
use vpnself.Prelude.{
  ℕ, ◌+◌, ◌<◌, ◌≡◌, refl, none, some, List, [], ◌∷◌, ◌++◌, length, take, arith, Text, codes,
}
use vpnself.Bytes.Utf8.{encode, decode}
use vpnself.Protocol.{
  Cmd, Frame, frame_of, pack_frame, unpack_frame, unpack_header, unpack_body, cmd_of_byte,
  connect_payload, pack_connect, unpack_connect, max_frame_size,
}
use vpnself.Protocol.Connect.{pack_connect_arrives}
use vpnself.Protocol.Reader.{empty_buffer, client_feed, server_feed, feed_all}
use vpnself.Protocol.Reader.Chunks.{
  client_feed-encoded, server_feed-encoded, client_feed_bounded, server_feed_bounded, Delivers,
  encoded,
}

abbrev ping_bytes : List ℕ
ping_bytes = 0 ∷ 0 ∷ 0 ∷ 9 ∷ 0 ∷ 0 ∷ 0 ∷ 0 ∷ 9 ∷ []

abbrev data_bytes : List ℕ
data_bytes = 0 ∷ 0 ∷ 0 ∷ 11 ∷ 0 ∷ 0 ∷ 1 ∷ 2 ∷ 2 ∷ 70 ∷ 71 ∷ []

abbrev hello : Frame
hello = frame_of 258 Cmd.data_frame (70 ∷ 71 ∷ [])

abbrev two_frames : List Frame
two_frames = frame_of 0 Cmd.ping [] ∷ hello ∷ []

-- Reads that cut both frames.
abbrev reads : List (List ℕ)
reads =
    take 4 ping_bytes
    ∷ (0 ∷ 0 ∷ 0 ∷ 0 ∷ 9 ∷ 0 ∷ 0 ∷ [])
    ∷ (0 ∷ 11 ∷ 0 ∷ 0 ∷ 1 ∷ 2 ∷ 2 ∷ 70 ∷ 71 ∷ [])
    ∷ []

pack_hello : pack_frame 258 Cmd.data_frame (70 ∷ 71 ∷ []) ≡ some data_bytes
unfolding pack_frame
pack_hello = refl

encoded_two : encoded two_frames ≡ some (ping_bytes ++ data_bytes)
unfolding pack_frame
encoded_two = refl

-- A header with an absurd length is skipped as an empty PONG.
unpack_corrupt :
    unpack_frame (255 ∷ 0 ∷ 0 ∷ 0 ∷ 0 ∷ 0 ∷ 0 ∷ 5 ∷ 1 ∷ []) 0 ≡ some (frame_of 5 Cmd.pong [])
unfolding unpack_frame unpack_body unpack_header
unpack_corrupt = refl

-- An unknown command is a CLOSE.
unpack_unknown :
    unpack_frame (0 ∷ 0 ∷ 0 ∷ 9 ∷ 0 ∷ 0 ∷ 0 ∷ 5 ∷ 77 ∷ []) 0 ≡ some (frame_of 5 Cmd.close [])
unfolding unpack_frame unpack_body unpack_header cmd_of_byte
unpack_unknown = refl

abbrev host : Text
host = codes "a.bc"

abbrev connect_bytes : List ℕ
connect_bytes = 0 ∷ 0 ∷ 0 ∷ 17 ∷ 0 ∷ 0 ∷ 0 ∷ 3 ∷ 1 ∷ 0 ∷ 4 ∷ 97 ∷ 46 ∷ 98 ∷ 99 ∷ 1 ∷ 187 ∷ []

pack_host : pack_connect 3 host 443 ≡ some connect_bytes
unfolding pack_connect connect_payload pack_frame encode
pack_host = refl

unpack_host : unpack_connect (0 ∷ 4 ∷ 97 ∷ 46 ∷ 98 ∷ 99 ∷ 1 ∷ 187 ∷ []) ≡ some (host, 443)
unfolding unpack_connect decode
unpack_host = refl

unpack_no_port : unpack_connect (0 ∷ 4 ∷ 97 ∷ 46 ∷ 98 ∷ 99 ∷ 0 ∷ 0 ∷ []) ≡ none
unfolding unpack_connect decode
unpack_no_port = refl

pack_connect_arrives_example :
    (f : Frame) × (unpack_frame (connect_bytes ++ (8 ∷ [])) 0 ≡ some f)
    × (f.stream_id ≡ 3)
    × (f.cmd ≡ Cmd.connect)
    × (unpack_connect f.payload ≡ some (host, 443))
pack_connect_arrives_example =
    pack_connect_arrives 3 b'a' (codes ".bc") 443 connect_bytes (8 ∷ []) (omega arith) pack_host

client_feed-encoded_example : Delivers client_feed reads two_frames
client_feed-encoded_example = client_feed-encoded two_frames reads (omega arith) encoded_two

server_feed-encoded_example : Delivers server_feed reads two_frames
server_feed-encoded_example = server_feed-encoded two_frames reads (omega arith) encoded_two

client_feed_bounded_example :
    let (_, b) = feed_all client_feed empty_buffer reads in
    length (client_feed b (1 ∷ [])).1.buf < max_frame_size + 1
client_feed_bounded_example = client_feed_bounded reads (1 ∷ [])

server_feed_bounded_example :
    let (_, b) = feed_all server_feed empty_buffer reads in
    length (server_feed b (1 ∷ [])).1.buf < max_frame_size + 65536 + 1
server_feed_bounded_example = server_feed_bounded reads (1 ∷ [])
