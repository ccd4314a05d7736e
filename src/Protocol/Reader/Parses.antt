-- ===== src/Protocol/Reader/Parses.antt =====
-- What a byte stream means as a sequence of frames, and that the read loops compute it.
use vpnself.Prelude.{
  ℕ, zero, suc, ◌+◌, ◌≤◌, ◌<◌, ◌≡◌, refl, inl, inr, none, some, List, [], ◌∷◌, ◌++◌, ltb, length,
  drop, arith, Option-cases, drop-append_le, drop-drop, length-append, Bool-cases,
}
use vpnself.Protocol.{Frame, unpack_frame, consumed}
use vpnself.Protocol.Frames.{unpack_frame-drop, unpack_frame_within, unpack_frame-append}
use vpnself.Protocol.Reader.{Buffer, drain, client_feed, server_feed, drain_all, compacts}

-- `bs` holds the frames `fs`, and `rest` is the beginning of a frame that has not arrived whole.
pub data Parses : List ℕ → List Frame → List ℕ → Type 0 where
  done : {bs : List ℕ} → unpack_frame bs 0 ≡ none → Parses bs [] bs
  next :
      {bs rest : List ℕ} {fs : List Frame} (f : Frame)
      → unpack_frame bs 0 ≡ some f
      → Parses (drop (consumed f) bs) fs rest
      → Parses bs (f ∷ fs) rest

-- A stream has one reading.
pub Parses-unique :
    {bs r r' : List ℕ} {fs gs : List Frame}
    → Parses bs fs r
    → Parses bs gs r'
    → (fs ≡ gs) × (r ≡ r')
Parses-unique (done e) (done e') = (refl, refl)
Parses-unique (done e) (next f e' p) = cc
Parses-unique (next f e p) (done e') = cc
Parses-unique {bs} (next {rest = r} {fs = fs} f e p) (next {rest = r'} {fs = gs} g e' q) =
    let same : f ≡ g = cc in
    let q' : Parses (drop (consumed f) bs) gs r' = rw same q in
    let (a, b) = Parses-unique p q' in (cc, b)

-- More bytes continue the reading where it stopped.
pub Parses-append :
    (more : List ℕ) {bs r r' : List ℕ} {fs gs : List Frame}
    → Parses bs fs r
    → Parses (r ++ more) gs r'
    → Parses (bs ++ more) (fs ++ gs) r'
Parses-append more (done e) q = q
Parses-append more {bs} (next f e p) q = next f (unpack_frame-append bs more f e) (
    rw (drop-append_le (consumed f) bs more (omega (arith, unpack_frame_within bs 0 f e)))
      (Parses-append more p q))

pub Parses-rest : {bs r : List ℕ} {fs : List Frame} → Parses bs fs r → unpack_frame r 0 ≡ none
Parses-rest (done e) = e
Parses-rest (next f e p) = Parses-rest p

drain_stop :
    (fuel : ℕ) (buf : List ℕ) (pos : ℕ)
    → unpack_frame buf pos ≡ none
    → drain (suc fuel) buf pos ≡ ([], pos)
unfolding drain
drain_stop fuel buf pos e = ground arith

drain_step :
    (fuel : ℕ) (buf : List ℕ) (pos : ℕ) (f : Frame)
    → unpack_frame buf pos ≡ some f
    → drain (suc fuel) buf pos
      ≡ (let (fs, pos') = drain fuel buf (pos + consumed f) in (f ∷ fs, pos'))
unfolding drain
drain_step fuel buf pos f e = ground arith

-- The inner loop reads on from its position, and its fuel is enough.
pub drain-Parses :
    (fuel : ℕ) (buf : List ℕ) (pos : ℕ)
    → length buf < fuel + pos
    → pos ≤ length buf
    → let (fs, pos') = drain fuel buf pos in
      Parses (drop pos buf) fs (drop pos' buf) × (pos' ≤ length buf)
drain-Parses zero buf pos h k = absurd (omega arith)
drain-Parses (suc fuel) buf pos h k = elim (Option-cases (unpack_frame buf pos)) [
  | inl e ↦ rw (drain_stop fuel buf pos e) (done (rw (← unpack_frame-drop buf pos) e), k)
  | inr (f, e) ↦
      let bound = unpack_frame_within buf pos f e in
      let (p, inside) = drain-Parses fuel buf (pos + consumed f) (omega arith) bound in
      rw (drain_step fuel buf pos f e) (
        next f (rw (← unpack_frame-drop buf pos) e) (rw (← drop-drop pos (consumed f) buf) p),
        inside,
      )
]

-- A reader's unread bytes start with no whole frame, and its position lies in its buffer.
pub record IsReading (b : Buffer) : Type 0 where
  pub inside : b.pos ≤ length b.buf
  pub waiting : unpack_frame (drop b.pos b.buf) 0 ≡ none

abbrev pub unread : Buffer → List ℕ
unread b = drop b.pos b.buf

-- One round of a read loop on a chunk: it returns the frames that the chunk completes, and goes on
-- waiting behind them.
abbrev pub Continues : Buffer → List ℕ → List Frame × Buffer → Type 0
Continues b chunk (fs, b') = Parses (unread b ++ chunk) fs (unread b') × IsReading b'

drain_all-Continues :
    (b : Buffer) (chunk buf : List ℕ) (pos : ℕ)
    → drop pos buf ≡ unread b ++ chunk
    → pos ≤ length buf
    → Continues b chunk (drain_all buf pos)
drain_all-Continues b chunk buf pos e h =
    let (p, inside) = drain-Parses (suc (length buf)) buf pos (omega arith) h in
    (rw e at p, record { inside = inside; waiting = Parses-rest p })

pub client_feed-Continues :
    (b : Buffer) (chunk : List ℕ) → IsReading b → Continues b chunk (client_feed b chunk)
unfolding client_feed
client_feed-Continues b chunk v = elim (Bool-cases (ltb 0 b.pos)) [
  | inl moved ↦ rw moved (drain_all-Continues b chunk (unread b ++ chunk) 0 refl (omega arith))
  | inr still ↦ rw still (
      drain_all-Continues b chunk (b.buf ++ chunk) b.pos (drop-append_le b.pos b.buf chunk v.inside)
        (omega (arith, length-append b.buf chunk, v.inside)))
]

pub server_feed-Continues :
    (b : Buffer) (chunk : List ℕ) → IsReading b → Continues b chunk (server_feed b chunk)
unfolding server_feed
server_feed-Continues b chunk v = elim (Bool-cases (compacts b)) [
  | inl moved ↦ rw moved (drain_all-Continues b chunk (unread b ++ chunk) 0 refl (omega arith))
  | inr still ↦ rw still (
      drain_all-Continues b chunk (b.buf ++ chunk) b.pos (drop-append_le b.pos b.buf chunk v.inside)
        (omega (arith, length-append b.buf chunk, v.inside)))
]
