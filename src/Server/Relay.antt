-- ===== src/Server/Relay.antt =====
-- `ForwardRelay` of server/forward_proxy.py, and the frames that the server sends.
use vpnself.Prelude.{
  ℕ, ◌+◌, Bool, true, false, List, [], ◌∷◌, ◌++◌, if◌then◌else◌, Text, text_eq, nat_eq,
}

-- The frames that the server packs for the client.
pub data Sent : Type 0 where
  connect_ok : ℕ → Sent
  connect_fail : ℕ → Text → Sent
  data_frame : ℕ → List ℕ → Sent
  close_frame : ℕ → Sent
  pong : Sent

-- `ForwardRelay`; `written` is what `target_writer` has been given, oldest first.
pub record ForwardRelay : Type 0 where
  pub stream_id : ℕ
  pub written : List (List ℕ)
  pub active : Bool

-- `ForwardRelay(...)`
abbrev pub new_relay : ℕ → ForwardRelay
new_relay stream_id = record { stream_id = stream_id; written = []; active = true }

-- `ForwardRelay.close`
abbrev pub close_relay : ForwardRelay → ForwardRelay
close_relay r = record r { active = false }

-- How a read of the target ends: bytes, or the end by EOF or by an error.
pub data TargetRead : Type 0 where
  bytes : List ℕ → TargetRead
  eof : TargetRead
  error : TargetRead

-- The loop of `relay_target_to_tunnel` while the relay is active, on what the reads return; `ok`
-- says which writes succeed. The result says whether the target has ended.
abbrev pub relay_loop : (ℕ → Bool) → ℕ → ℕ → List TargetRead → List Sent × Bool
relay_loop ok i stream_id [] = ([], false)
relay_loop ok i stream_id (eof ∷ rs) = ([], true)
relay_loop ok i stream_id (error ∷ rs) = ([], true)
relay_loop ok i stream_id (bytes [] ∷ rs) = ([], true)
relay_loop ok i stream_id (bytes (b ∷ bs) ∷ rs) =
    let (more, ended) = relay_loop ok (i + 1) stream_id rs in
    if ok i
    then (data_frame stream_id (b ∷ bs) ∷ more, ended)
    else (data_frame stream_id (b ∷ bs) ∷ [], false)

-- `relay_target_to_tunnel` up to `on_close`: the frames that it hands to `send_frame_locked`.
unfoldable pub relay_target_to_tunnel : (ℕ → Bool) → ℕ → List TargetRead → List Sent
relay_target_to_tunnel ok stream_id rs =
    let (sent, ended) = relay_loop ok 0 stream_id rs in
    sent ++ (if ended then close_frame stream_id ∷ [] else [])
