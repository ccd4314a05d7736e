-- ===== src/Tunnel/Client/Demux.antt =====
-- `TunnelClient._read_loop` of client/core/tunnel.py: each stream gets its own frames.
use vpnself.Prelude.{
  inl, inr, All, length-append, ℕ, ◌+◌, ◌≤◌, ◌≡◌, refl, sym, ap, ◌∙◌, false, Option, none, some,
  List, [], ◌∷◌, ◌++◌, ◌==◌, if◌then◌else◌, arith, Bool-cases, Option-cases, ==_iff, nat_eq, length,
  ltb,
}
use mathlib.Core.Path.{subst}
use mathlib.Core.List.{append_assoc, append-nil}
use vpnself.Prelude.Dict.{Dict, get, put, get-put}
use vpnself.Protocol.{Cmd, Frame}
use vpnself.Tunnel.Stream.{TunnelStream, max_buffer}
use vpnself.Tunnel.Stream.Bytes.{content, feed_in, in_lem}
use vpnself.Tunnel.Client.{TunnelClient, Entry, on_frame, deliver, receive, receive_all}

-- The frames that name stream `j`.
abbrev pub frames_of : ℕ → List (ℕ × Frame) → List Frame
frames_of j [] = []
frames_of j ((now, f) ∷ fs) = if f.stream_id == j then f ∷ frames_of j fs else frames_of j fs

-- What a list of frames does to a stream.
abbrev pub on_frames : List Frame → Entry → Entry
on_frames [] e = e
on_frames (f ∷ fs) e = on_frames fs (on_frame f.cmd f.payload e)

abbrev pub map_option {ℓ κ} : {A : Type ℓ} {B : Type κ} → (A → B) → Option A → Option B
map_option g none = none
map_option g (some a) = some (g a)

pub deliver_absent : (f : Frame) (d : Dict ℕ Entry) → get f.stream_id d ≡ none → deliver f d ≡ d
unfolding deliver
deliver_absent f d q = ground (arith, q)

pub deliver_present :
    (f : Frame) (d : Dict ℕ Entry) (e : Entry)
    → get f.stream_id d ≡ some e
    → deliver f d ≡ put f.stream_id (on_frame f.cmd f.payload e) d
unfolding deliver
deliver_present f d e q = ground (arith, q)

get-deliver :
    (j : ℕ) (f : Frame) (d : Dict ℕ Entry)
    → get j (deliver f d)
      ≡ (if f.stream_id == j then map_option (on_frame f.cmd f.payload) (get j d) else get j d)
get-deliver j f d = elim (Option-cases (get f.stream_id d)) [
  | inl q ↦ ap (get j) (deliver_absent f d q) ∙ ground (arith, q, ==_iff f.stream_id j)
  | inr (e, q) ↦
      ap (get j) (deliver_present f d e q)
      ∙ get-put j f.stream_id (on_frame f.cmd f.payload e) d
      ∙ ground (arith, q, ==_iff f.stream_id j)
]

streams-receive :
    (now : ℕ) (f : Frame) (c : TunnelClient) → (receive now f c).1.streams ≡ deliver f c.streams
unfolding receive
streams-receive now f c = refl

on_frames_step :
    (j : ℕ) (f : Frame) (fs : List Frame) (o : Option Entry)
    → map_option
        (on_frames fs)
        (if f.stream_id == j then map_option (on_frame f.cmd f.payload) o else o)
      ≡ map_option (on_frames (if f.stream_id == j then f ∷ fs else fs)) o
on_frames_step j f fs none = elim (Bool-cases (f.stream_id == j)) [
  | inl e ↦ rw e refl
  | inr e ↦ rw e refl
]
on_frames_step j f fs (some a) = elim (Bool-cases (f.stream_id == j)) [
  | inl e ↦ rw e refl
  | inr e ↦ rw e refl
]

-- Whatever frames of other streams come between, each stream of the table gets exactly the frames
-- that name it, in order, and no stream is added or dropped.
pub get-receive_all :
    (j : ℕ) (fs : List (ℕ × Frame)) (c : TunnelClient)
    → get j (receive_all fs c).1.streams ≡ map_option (on_frames (frames_of j fs)) (get j c.streams)
get-receive_all j [] c = ground arith
get-receive_all j ((now, f) ∷ fs) c =
    get-receive_all j fs (receive now f c).1
    ∙ ap (λ d. map_option (on_frames (frames_of j fs)) (get j d)) (streams-receive now f c)
    ∙ ap (map_option (on_frames (frames_of j fs))) (get-deliver j f c.streams)
    ∙ on_frames_step j f (frames_of j fs) (get j c.streams)

-- The payloads, one behind the other.
abbrev pub bytes_of : List Frame → List ℕ
bytes_of [] = []
bytes_of (f ∷ fs) = f.payload ++ bytes_of fs

-- An open stream behind `feed_data` of a chunk that fits.
abbrev with_chunk : List ℕ → Entry → Entry
with_chunk chunk e = record e {
  stream = record e.stream {
    buffered_bytes = e.stream.buffered_bytes + length chunk;
    buffer = e.stream.buffer ++ (some chunk ∷ []);
  };
}

on_frame_data :
    (f : Frame) (e : Entry)
    → f.cmd ≡ Cmd.data_frame
    → e.stream.closed ≡ false
    → ltb max_buffer (e.stream.buffered_bytes + length f.payload) ≡ false
    → on_frame f.cmd f.payload e ≡ with_chunk f.payload e
unfolding on_frame
on_frame_data f e k o l =
    ap (λ cmd. on_frame cmd f.payload e) k
    ∙ ap (λ (s : TunnelStream). record e { stream = s }) (feed_in f.payload e.stream o l)

on_data :
    (fs : List Frame) (e : Entry)
    → All (λ f. f.cmd ≡ Cmd.data_frame) fs
    → e.stream.closed ≡ false
    → e.stream.buffered_bytes + length (bytes_of fs) ≤ max_buffer
    → (content (on_frames fs e).stream ≡ content e.stream ++ bytes_of fs)
      × ((on_frames fs e).stream.closed ≡ false)
on_data [] e a o m = (sym (append-nil (content e.stream)), o)
on_data (f ∷ fs) e a o m =
    let long : length (f.payload ++ bytes_of fs) ≡ length f.payload + length (bytes_of fs) =
      length-append f.payload (bytes_of fs) in
    let step : on_frame f.cmd f.payload e ≡ with_chunk f.payload e =
      on_frame_data f e a.0 o (ground (arith, m, long)) in
    let (held, still) = on_data fs (with_chunk f.payload e) a.1 o (omega (arith, m, long)) in
    subst
      (λ e'.
        (content (on_frames fs e').stream ≡ content e.stream ++ (f.payload ++ bytes_of fs))
        × ((on_frames fs e').stream.closed ≡ false))
      (sym step)
      (
        held
            ∙ ap (λ z. z ++ bytes_of fs) (in_lem f.payload e.stream)
            ∙ append_assoc (content e.stream) f.payload (bytes_of fs),
        still,
      )

-- A stream of the table that is open, to which only DATA is sent and which has room for it, holds
-- these payloads behind its bytes when the frames are read, whatever else the tunnel carries.
pub receive_all_data :
    (j : ℕ) (e : Entry) (fs : List (ℕ × Frame)) (c : TunnelClient)
    → get j c.streams ≡ some e
    → All (λ f. f.cmd ≡ Cmd.data_frame) (frames_of j fs)
    → e.stream.closed ≡ false
    → e.stream.buffered_bytes + length (bytes_of (frames_of j fs)) ≤ max_buffer
    → (e' : Entry) × (get j (receive_all fs c).1.streams ≡ some e')
      × (content e'.stream ≡ content e.stream ++ bytes_of (frames_of j fs))
      × (e'.stream.closed ≡ false)
receive_all_data j e fs c g a o m =
    let (held, still) = on_data (frames_of j fs) e a o m in
    (
      on_frames (frames_of j fs) e,
      get-receive_all j fs c ∙ ap (map_option (on_frames (frames_of j fs))) g,
      held,
      still,
    )
