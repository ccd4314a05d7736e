-- ===== src/Protocol.antt =====
-- common/protocol.py: the frames of the tunnel and the payload of CONNECT. The exceptions of the
-- `pack_` functions (`struct.error`, `UnicodeEncodeError`) and the `None` of the `unpack_` functions
-- are `none`.
pub mod Frames
pub mod Connect
pub mod Reader
mod Tests
use vpnself.Prelude.{
  ℕ, ◌+◌, ◌-◌, ◌*◌, ◌≡◌, refl, Bool, ◌||◌, Option, none, some, List, [], ◌∷◌, ◌++◌, if◌then◌else◌,
  ◌>>=◌, ltb, ◌==◌, length, take, drop, Text,
}
use vpnself.Bytes.{pack_u32, pack_u16, unpack_u16, join4}
use vpnself.Bytes.Utf8.{encode, decode}

abbrev pub frame_header_size : ℕ
frame_header_size = 9

abbrev pub max_frame_size : ℕ
max_frame_size = 4 * 1024 * 1024

pub data Cmd : Type 0 where
  connect data_frame close connect_ok connect_fail auth auth_ok auth_fail ping pong : Cmd

-- `int(cmd)`
abbrev pub cmd_value : Cmd → ℕ
cmd_value Cmd.connect = 1
cmd_value Cmd.data_frame = 2
cmd_value Cmd.close = 3
cmd_value Cmd.connect_ok = 4
cmd_value Cmd.connect_fail = 5
cmd_value Cmd.auth = 6
cmd_value Cmd.auth_ok = 7
cmd_value Cmd.auth_fail = 8
cmd_value Cmd.ping = 9
cmd_value Cmd.pong = 10

-- `Cmd(cmd_byte)`, and CLOSE where that raises `ValueError`.
unfoldable pub cmd_of_byte : ℕ → Cmd
cmd_of_byte b =
    if b == 1
    then Cmd.connect
    else if b == 2
    then Cmd.data_frame
    else if b == 4
    then Cmd.connect_ok
    else if b == 5
    then Cmd.connect_fail
    else if b == 6
    then Cmd.auth
    else if b == 7
    then Cmd.auth_ok
    else if b == 8
    then Cmd.auth_fail
    else if b == 9
    then Cmd.ping
    else if b == 10
    then Cmd.pong
    else Cmd.close

-- What `unpack_frame` returns: `(stream_id, cmd, payload)`.
pub record Frame : Type 0 where
  pub stream_id : ℕ
  pub cmd : Cmd
  pub payload : List ℕ

abbrev pub frame_of : ℕ → Cmd → List ℕ → Frame
frame_of sid c p = record { stream_id = sid; cmd = c; payload = p }

-- `struct.pack("!IIB", total_len, stream_id, int(cmd)) + payload`
unfoldable pub pack_frame : ℕ → Cmd → List ℕ → Option (List ℕ)
pack_frame stream_id cmd payload = do
  len_bytes ← pack_u32 (frame_header_size + length payload)
  sid_bytes ← pack_u32 stream_id
  some (len_bytes ++ sid_bytes ++ (cmd_value cmd ∷ []) ++ payload)

-- `struct.unpack("!IIB", data)`
unfoldable pub unpack_header : List ℕ → Option (ℕ × ℕ × ℕ)
unpack_header (a ∷ b ∷ c ∷ d ∷ e ∷ f ∷ g ∷ h ∷ cmd ∷ []) = some (join4 a b c d, join4 e f g h, cmd)
unpack_header _ = none

-- The rest of `unpack_frame`, once the header has been read.
unfoldable pub unpack_body : List ℕ → ℕ → ℕ × ℕ × ℕ → Option Frame
unpack_body data_bytes offset (total_len, stream_id, cmd_byte) =
    if ltb max_frame_size total_len || ltb total_len frame_header_size
    then some (frame_of stream_id Cmd.pong [])
    else if ltb (length data_bytes - offset) total_len
    then none
    else some (
        frame_of stream_id (cmd_of_byte cmd_byte)
          (take (total_len - frame_header_size) (drop (offset + frame_header_size) data_bytes)))

-- `data[i:j]` is `take (j - i) (drop i data)`. Offsets are never negative.
unfoldable pub unpack_frame : List ℕ → ℕ → Option Frame
unpack_frame data_bytes offset =
    if ltb (length data_bytes - offset) frame_header_size
    then none
    else unpack_header (take frame_header_size (drop offset data_bytes))
      >>= unpack_body data_bytes offset

-- By how much every reader advances: `FRAME_HEADER_SIZE + len(payload)`.
abbrev pub consumed : Frame → ℕ
consumed f = frame_header_size + length f.payload

unfoldable pub pack_auth : Text → Option (List ℕ)
pack_auth token = encode token >>= pack_frame 0 Cmd.auth

-- The payload of CONNECT: 2-byte host length, host, 2-byte port.
unfoldable pub connect_payload : Text → ℕ → Option (List ℕ)
connect_payload host port = do
  host_bytes ← encode host
  len_bytes ← pack_u16 (length host_bytes)
  port_bytes ← pack_u16 port
  some (len_bytes ++ host_bytes ++ port_bytes)

unfoldable pub pack_connect : ℕ → Text → ℕ → Option (List ℕ)
pack_connect stream_id host port = connect_payload host port >>= pack_frame stream_id Cmd.connect

-- `not host or port == 0`
abbrev checked_target : Text → ℕ → Option (Text × ℕ)
checked_target [] port = none
checked_target (c ∷ cs) port = if port == 0 then none else some (c ∷ cs, port)

unfoldable pub unpack_connect : List ℕ → Option (Text × ℕ)
unpack_connect payload = if ltb (length payload) 4 then none else do
  host_len ← unpack_u16 (take 2 payload)
  host ← decode (take host_len (drop 2 payload))
  port ← unpack_u16 (take 2 (drop (2 + host_len) payload))
  checked_target host port

unfoldable pub pack_connect_ok : ℕ → Option (List ℕ)
pack_connect_ok stream_id = pack_frame stream_id Cmd.connect_ok []

unfoldable pub pack_connect_fail : ℕ → Text → Option (List ℕ)
pack_connect_fail stream_id reason = encode reason >>= pack_frame stream_id Cmd.connect_fail

unfoldable pub pack_data : ℕ → List ℕ → Option (List ℕ)
pack_data stream_id payload = pack_frame stream_id Cmd.data_frame payload

unfoldable pub pack_close : ℕ → Option (List ℕ)
pack_close stream_id = pack_frame stream_id Cmd.close []

unfoldable pub pack_ping : Option (List ℕ)
pack_ping = pack_frame 0 Cmd.ping []

unfoldable pub pack_auth_ok : Option (List ℕ)
pack_auth_ok = pack_frame 0 Cmd.auth_ok []

unfoldable pub pack_pong : Option (List ℕ)
pack_pong = pack_frame 0 Cmd.pong []
