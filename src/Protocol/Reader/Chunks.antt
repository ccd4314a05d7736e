-- ===== src/Protocol/Reader/Chunks.antt =====
-- The frames that arrive do not depend on how TCP cuts the stream into reads, and the receive
-- buffers stay bounded whatever the peer sends.
use vpnself.Prelude.{
  ◌>>=◌, ℕ, ◌+◌, ◌≤◌, ◌<◌, ◌≡◌, refl, inl, inr, Option, some, List, [], ◌∷◌, ◌++◌, ltb, length,
  drop, arith, length-append, length-drop, Bool-cases, Option-cases, All, drop-append_exact,
}
use vpnself.Bytes.{IsU32}
use vpnself.Protocol.{Frame, unpack_frame, consumed, max_frame_size, pack_frame}
use vpnself.Protocol.Frames.{unpack_frame_full, unpack_frame-wire, wire, pack_frame-wire}
use vpnself.Protocol.Reader.{Buffer, empty_buffer, client_feed, server_feed, feed_all}
use vpnself.Protocol.Reader.Parses.{
  Parses, done, next, Parses-unique, Parses-append, IsReading, unread, Continues,
  client_feed-Continues, server_feed-Continues,
}
use mathlib.Core.List.{append_assoc, append-nil}
use mathlib.Core.Path.{subst}

abbrev pub concat : List (List ℕ) → List ℕ
concat [] = []
concat (c ∷ cs) = c ++ concat cs

empty_buffer-IsReading : IsReading empty_buffer
unfolding unpack_frame
empty_buffer-IsReading = record { inside = omega arith; waiting = refl }

feed_all-Parses :
    (feed : Buffer → List ℕ → List Frame × Buffer)
    → ((b : Buffer) (chunk : List ℕ) → IsReading b → Continues b chunk (feed b chunk))
    → (chunks : List (List ℕ)) (b : Buffer) → IsReading b
    → let (fs, b') = feed_all feed b chunks in
      Parses (unread b ++ concat chunks) fs (unread b') × IsReading b'
unfolding feed_all
feed_all-Parses feed h [] b v = (rw append-nil (done v.waiting), v)
feed_all-Parses feed h (c ∷ cs) b v =
    let (p, v') = h b c v in
    let (q, v'') = feed_all-Parses feed h cs (feed b c).1 v' in
    (rw (← append_assoc) (Parses-append (concat cs) p q), v'')

-- Every stream of frames that one side packs.
abbrev pub encoded : List Frame → Option (List ℕ)
encoded [] = some []
encoded (f ∷ fs) = do
  front ← pack_frame f.stream_id f.cmd f.payload
  back ← encoded fs
  some (front ++ back)

-- A frame that the protocol allows.
abbrev pub IsAllowed : Frame → Type 0
IsAllowed f = IsU32 f.stream_id × (consumed f ≤ max_frame_size)

encoded-Parses :
    (fs : List Frame) (bs : List ℕ) → All IsAllowed fs → encoded fs ≡ some bs → Parses bs fs []
encoded-Parses [] bs h e =
    let nil : [] ≡ bs = cc in subst (λ t. Parses t [] []) nil (done empty_buffer-IsReading.waiting)
encoded-Parses (f ∷ fs) bs h e = elim (Option-cases (encoded fs)) [
  | inl none_left ↦ ground (arith, packed)
  | inr (back, e') ↦
      let split : front ++ back ≡ bs = ground (arith, packed) in
      let skip : drop (consumed f) (front ++ back) ≡ back =
        drop-append_exact front back (consumed f) (omega arith) in
      subst (λ t. Parses t (f ∷ fs) []) split
        (next f (unpack_frame-wire f.stream_id f.cmd f.payload back h.0.0 h.0.1)
          (rw skip (encoded-Parses fs back h.1 e')))
]
  where
    front : List ℕ
    front = wire f.stream_id f.cmd f.payload

    packed : pack_frame f.stream_id f.cmd f.payload ≡ some front
    packed = pack_frame-wire f.stream_id f.cmd f.payload h.0.0 h.0.1

-- A read loop gets exactly these frames out of these reads, and no byte is left over.
abbrev pub Delivers : (Buffer → List ℕ → List Frame × Buffer) → List (List ℕ) → List Frame → Type 0
Delivers feed chunks fs =
    ((feed_all feed empty_buffer chunks).0 ≡ fs)
    × (unread (feed_all feed empty_buffer chunks).1 ≡ [])

delivers :
    (feed : Buffer → List ℕ → List Frame × Buffer)
    → ((b : Buffer) (chunk : List ℕ) → IsReading b → Continues b chunk (feed b chunk))
    → (fs : List Frame) (chunks : List (List ℕ)) → All IsAllowed fs
    → encoded fs ≡ some (concat chunks)
    → Delivers feed chunks fs
delivers feed h fs chunks ok e =
    Parses-unique (feed_all-Parses feed h chunks empty_buffer empty_buffer-IsReading).0
      (encoded-Parses fs (concat chunks) ok e)

-- Whatever the sizes of its reads, the client's read loop decodes a stream of packed frames, each of
-- at most MAX_FRAME_SIZE bytes and with a 32-bit stream id, to exactly these frames, in order, and
-- has no byte left at the end.
pub client_feed-encoded :
    (fs : List Frame) (chunks : List (List ℕ))
    → All IsAllowed fs
    → encoded fs ≡ some (concat chunks)
    → Delivers client_feed chunks fs
client_feed-encoded = delivers client_feed client_feed-Continues

-- Whatever the sizes of its reads, the server's read loop decodes a stream of packed frames, each of
-- at most MAX_FRAME_SIZE bytes and with a 32-bit stream id, to exactly these frames, in order, and
-- has no byte left at the end, though it drops the bytes it has read only now and then.
pub server_feed-encoded :
    (fs : List Frame) (chunks : List (List ℕ))
    → All IsAllowed fs
    → encoded fs ≡ some (concat chunks)
    → Delivers server_feed chunks fs
server_feed-encoded = delivers server_feed server_feed-Continues

unread_small : (b : Buffer) → IsReading b → length (unread b) < max_frame_size
unread_small b v = elim (Bool-cases (ltb (length (unread b)) max_frame_size)) [
  | inl small ↦ ground arith
  | inr big ↦ absurd (unpack_frame_full (unread b) 0 (ground arith) v.waiting)
]

-- In any run over any bytes the client's receive buffer stays below MAX_FRAME_SIZE and one read: a
-- hostile length field cannot make it wait for more.
pub client_feed_bounded :
    (chunks : List (List ℕ)) (chunk : List ℕ)
    → let (_, b) = feed_all client_feed empty_buffer chunks in
      length (client_feed b chunk).1.buf < max_frame_size + length chunk
unfolding client_feed
client_feed_bounded chunks chunk =
    let b = (feed_all client_feed empty_buffer chunks).1 in
    let v =
      (feed_all-Parses client_feed client_feed-Continues chunks empty_buffer
        empty_buffer-IsReading).1 in
    ground (
      arith,
      unread_small b v,
      length-drop b.pos b.buf,
      length-append b.buf chunk,
      length-append (unread b) chunk,
    )

-- In any run over any bytes the server's receive buffer stays below MAX_FRAME_SIZE, 64 KiB of read
-- bytes that it has not dropped yet, and one read.
pub server_feed_bounded :
    (chunks : List (List ℕ)) (chunk : List ℕ)
    → let (_, b) = feed_all server_feed empty_buffer chunks in
      length (server_feed b chunk).1.buf < max_frame_size + 65536 + length chunk
unfolding server_feed
server_feed_bounded chunks chunk =
    let b = (feed_all server_feed empty_buffer chunks).1 in
    let v =
      (feed_all-Parses server_feed server_feed-Continues chunks empty_buffer
        empty_buffer-IsReading).1 in
    ground (
      arith,
      unread_small b v,
      length-drop b.pos b.buf,
      length-append b.buf chunk,
      length-append (unread b) chunk,
    )
