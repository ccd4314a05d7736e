-- ===== src/Tunnel/Client/Payloads.antt =====
-- `TunnelClient.send_data` of client/core/tunnel.py: what goes into the DATA frames.
use vpnself.Prelude.{
  ℕ, zero, suc, ◌≤◌, ◌≡◌, refl, sym, ap, ◌∙◌, inl, inr, Bool, true, false, some, List, [], ◌∷◌,
  ◌++◌, leb, length, take, drop, All, arith, Bool-cases, length-take, length-drop, take-append-drop,
  nat_eq, leb→le,
}
use mathlib.Core.Path.{subst}
use mathlib.Core.List.{append_assoc, append-nil}
use vpnself.Prelude.Dict.{get}
use vpnself.Bytes.{IsU32}
use vpnself.Protocol.{Frame}
use vpnself.Protocol.Reader.{server_feed}
use vpnself.Protocol.Reader.Chunks.{IsAllowed, encoded, concat, Delivers, server_feed-encoded}
use vpnself.Tunnel.Client.{
  TunnelClient, Entry, is_connected, max_payload, pieces, payloads, until_failure, data_frames,
  send_data,
}
use vpnself.Tunnel.Client.Demux.{bytes_of}

-- The payloads are these bytes, in frames that the protocol allows.
abbrev Carries : List ℕ → List (List ℕ) → Type 0
Carries bytes ps = (concat ps ≡ bytes) × All (λ p. length p ≤ max_payload) ps

pieces-Carries :
    (fuel : ℕ) (bytes : List ℕ) → length bytes ≤ fuel → Carries bytes (pieces fuel bytes)
unfolding pieces
pieces-Carries zero [] h = (refl, tt)
pieces-Carries zero (b ∷ bs) h = absurd (omega arith)
pieces-Carries (suc fuel) [] h = (refl, tt)
pieces-Carries (suc fuel) (b ∷ bs) h =
    let (same, small) =
      pieces-Carries fuel (drop max_payload (b ∷ bs))
        (omega (arith, h, length-drop max_payload (b ∷ bs))) in
    (
      ap (λ z. take max_payload (b ∷ bs) ++ z) same ∙ take-append-drop max_payload (b ∷ bs),
      (ground (arith, length-take max_payload (b ∷ bs)), small),
    )

payloads-Carries : (bytes : List ℕ) → Carries bytes (payloads bytes)
unfolding payloads
payloads-Carries bytes = elim (Bool-cases (leb (length bytes) max_payload)) [
  | inl e ↦ rw e (append-nil bytes, (leb→le (length bytes) max_payload e, tt))
  | inr e ↦ rw e (pieces-Carries (length bytes) bytes (omega arith))
]

bytes_of-data_frames : (sid : ℕ) (ps : List (List ℕ)) → bytes_of (data_frames sid ps) ≡ concat ps
bytes_of-data_frames sid [] = refl
bytes_of-data_frames sid (p ∷ ps) = ap (λ z. p ++ z) (bytes_of-data_frames sid ps)

data_frames-IsAllowed :
    (sid : ℕ) (ps : List (List ℕ))
    → IsU32 sid
    → All (λ p. length p ≤ max_payload) ps
    → All IsAllowed (data_frames sid ps)
data_frames-IsAllowed sid [] u a = tt
data_frames-IsAllowed sid (p ∷ ps) u a =
    ((u, omega (arith, a.0)), data_frames-IsAllowed sid ps u a.1)

until_failure_none :
    (ok : ℕ → Bool) (i : ℕ) (fs : List Frame) → ((k : ℕ) → ok k ≡ true) → until_failure ok i fs ≡ fs
until_failure_none ok i [] h = refl
until_failure_none ok i (f ∷ fs) h = rw (h i) (ap (λ z. f ∷ z) (until_failure_none ok (suc i) fs h))

until_failure_front :
    (ok : ℕ → Bool) (i : ℕ) (fs : List Frame)
    → (rest : List Frame) × (fs ≡ until_failure ok i fs ++ rest)
until_failure_front ok i [] = ([], refl)
until_failure_front ok i (f ∷ fs) =
    let (rest, e) = until_failure_front ok (suc i) fs in
    elim (Bool-cases (ok i)) [ inl h ↦ rw h (rest, ap (λ z. f ∷ z) e) | inr h ↦ rw h (fs, refl) ]

send_data_open :
    (ok : ℕ → Bool) (sid : ℕ) (bytes : List ℕ) (e : Entry) (c : TunnelClient)
    → get sid c.streams ≡ some e
    → is_connected c ≡ true
    → e.stream.closed ≡ false
    → (send_data ok sid bytes c).0 ≡ until_failure ok 0 (data_frames sid (payloads bytes))
unfolding send_data
send_data_open ok sid bytes e c g h o = ground (arith, g, h, o)

bytes_of-append : (fs gs : List Frame) → bytes_of (fs ++ gs) ≡ bytes_of fs ++ bytes_of gs
bytes_of-append [] gs = refl
bytes_of-append (f ∷ fs) gs =
    ap (λ z. f.payload ++ z) (bytes_of-append fs gs)
    ∙ sym (append_assoc f.payload (bytes_of fs) (bytes_of gs))

bytes_of-payloads : (sid : ℕ) (bytes : List ℕ) → bytes_of (data_frames sid (payloads bytes)) ≡ bytes
bytes_of-payloads sid bytes = bytes_of-data_frames sid (payloads bytes) ∙ (payloads-Carries bytes).0

send_data_whole :
    (ok : ℕ → Bool) (sid : ℕ) (bytes : List ℕ) (e : Entry) (c : TunnelClient)
    → get sid c.streams ≡ some e
    → is_connected c ≡ true
    → e.stream.closed ≡ false
    → ((k : ℕ) → ok k ≡ true)
    → (send_data ok sid bytes c).0 ≡ data_frames sid (payloads bytes)
send_data_whole ok sid bytes e c g h o all =
    send_data_open ok sid bytes e c g h o
    ∙ until_failure_none ok 0 (data_frames sid (payloads bytes)) all

-- On an open stream of a connected tunnel `send_data` hands over, in order, DATA frames of the
-- stream whose payloads are the front of the data, and all of it where no `_send` fails.
pub send_data_front :
    (ok : ℕ → Bool) (sid : ℕ) (bytes : List ℕ) (e : Entry) (c : TunnelClient)
    → get sid c.streams ≡ some e
    → is_connected c ≡ true
    → e.stream.closed ≡ false
    → ((rest : List ℕ) × (bytes ≡ bytes_of (send_data ok sid bytes c).0 ++ rest))
      × (((k : ℕ) → ok k ≡ true) → bytes_of (send_data ok sid bytes c).0 ≡ bytes)
send_data_front ok sid bytes e c g h o =
    let (rest, q) = until_failure_front ok 0 (data_frames sid (payloads bytes)) in
    (
      (
        bytes_of rest,
        sym (bytes_of-payloads sid bytes)
            ∙ ap bytes_of q
            ∙ bytes_of-append (until_failure ok 0 (data_frames sid (payloads bytes))) rest
            ∙ ap (λ z. bytes_of z ++ bytes_of rest) (sym (send_data_open ok sid bytes e c g h o)),
      ),
      λ all. ap bytes_of (send_data_whole ok sid bytes e c g h o all) ∙ bytes_of-payloads sid bytes,
    )

-- What `send_data` hands over on an open stream of a connected tunnel, where no `_send` fails, comes
-- out of the server's read loop as frames with the same payloads, however the reads cut it: no
-- frame is above the size that the server takes, for data of any length.
pub send_data_arrives :
    (ok : ℕ → Bool) (sid : ℕ) (bytes : List ℕ) (e : Entry) (c : TunnelClient)
    (reads : List (List ℕ))
    → get sid c.streams ≡ some e
    → is_connected c ≡ true
    → e.stream.closed ≡ false
    → IsU32 sid
    → ((k : ℕ) → ok k ≡ true)
    → encoded (send_data ok sid bytes c).0 ≡ some (concat reads)
    → Delivers server_feed reads (send_data ok sid bytes c).0
      × (bytes_of (send_data ok sid bytes c).0 ≡ bytes)
send_data_arrives ok sid bytes e c reads g h o u all w =
    let whole = send_data_whole ok sid bytes e c g h o all in
    (
      server_feed-encoded (send_data ok sid bytes c).0 reads
          (subst (All IsAllowed) (sym whole)
            (data_frames-IsAllowed sid (payloads bytes) u (payloads-Carries bytes).1))
          w,
      ap bytes_of whole ∙ bytes_of-payloads sid bytes,
    )
