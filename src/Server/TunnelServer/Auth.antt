-- ===== src/Server/TunnelServer/Auth.antt =====
-- The gate of `_handle_client` in server/tunnel_server.py: the first frame of a client.
use vpnself.Prelude.{
  ℕ, ◌≡◌, ◌⊎◌, inl, inr, refl, ap, ◌∙◌, Bool, false, List, ◌∷◌, [], Text, text_beq, text_beq_iff,
  Bool-cases, codes, if◌then◌else◌,
}
use vpnself.Protocol.{Cmd, Frame}
use vpnself.Server.Relay.{connect_fail}
use vpnself.Server.TunnelServer.{
  Connection, Effect, Verdict, send, stop, on_first_frame, on_frame, and_then, handle_frames,
}

-- A frame is an AUTH with the key, or it is refused: CONNECT_FAIL is sent, the loop stops, and
-- nothing else changes.
abbrev pub IsRefused : List Effect × Verdict × Connection → Connection → Type 0
IsRefused r c = (reason : Text) × (r ≡ (send (connect_fail 0 reason) ∷ [], stop, c))

on_first_frame-gate :
    (client_id : ℕ) (psk : List ℕ) (ok : Bool) (sid : ℕ) (cmd : Cmd) (payload : List ℕ)
    (c : Connection)
    → ((cmd ≡ Cmd.auth) × (payload ≡ psk))
      ⊎ IsRefused
          (on_first_frame client_id psk ok
            (record { stream_id = sid; cmd = cmd; payload = payload })
            c)
          c
unfolding on_first_frame
on_first_frame-gate client_id psk ok sid Cmd.auth payload c =
    elim (Bool-cases (text_beq payload psk)) [
      | inl same ↦ inl (refl, (text_beq_iff payload psk).0 same)
      | inr other ↦ inr (codes "Auth failed", rw other refl)
    ]
on_first_frame-gate client_id psk ok sid Cmd.connect payload c =
    inr (codes "Not authenticated", refl)
on_first_frame-gate client_id psk ok sid Cmd.data_frame payload c =
    inr (codes "Not authenticated", refl)
on_first_frame-gate client_id psk ok sid Cmd.close payload c = inr (codes "Not authenticated", refl)
on_first_frame-gate client_id psk ok sid Cmd.connect_ok payload c =
    inr (codes "Not authenticated", refl)
on_first_frame-gate client_id psk ok sid Cmd.connect_fail payload c =
    inr (codes "Not authenticated", refl)
on_first_frame-gate client_id psk ok sid Cmd.auth_ok payload c =
    inr (codes "Not authenticated", refl)
on_first_frame-gate client_id psk ok sid Cmd.auth_fail payload c =
    inr (codes "Not authenticated", refl)
on_first_frame-gate client_id psk ok sid Cmd.ping payload c = inr (codes "Not authenticated", refl)
on_first_frame-gate client_id psk ok sid Cmd.pong payload c = inr (codes "Not authenticated", refl)

handle_frames-stop :
    (client_id : ℕ) (psk : List ℕ) (ok : Bool) (f : Frame) (fs : List (Bool × Frame))
    (c : Connection)
    → c.authenticated ≡ false
    → IsRefused (on_first_frame client_id psk ok f c) c
    → IsRefused (handle_frames client_id psk ((ok, f) ∷ fs) c) c
handle_frames-stop client_id psk ok f fs c new (reason, h) = (
  reason,
  ap (λ (r : List Effect × Verdict × Connection). and_then r (handle_frames client_id psk fs r.2))
      (ap (λ b. if b then on_frame client_id ok f c else on_first_frame client_id psk ok f c) new
        ∙ h),
)

-- However many frames a client sends before it is authenticated: the first one is an AUTH with the
-- pre-shared key, or the server answers CONNECT_FAIL, stops reading, and nothing else changes.
pub handle_frames-gate :
    (client_id : ℕ) (psk : List ℕ) (ok : Bool) (f : Frame) (fs : List (Bool × Frame))
    (c : Connection)
    → c.authenticated ≡ false
    → ((f.cmd ≡ Cmd.auth) × (f.payload ≡ psk))
      ⊎ IsRefused (handle_frames client_id psk ((ok, f) ∷ fs) c) c
handle_frames-gate client_id psk ok f fs c new =
    elim (on_first_frame-gate client_id psk ok f.stream_id f.cmd f.payload c) [
      | inl right ↦ inl right
      | inr wrong ↦ inr (handle_frames-stop client_id psk ok f fs c new wrong)
    ]
