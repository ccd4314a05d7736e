-- ===== src/Protocol/Frames.antt =====
-- Frames of common/protocol.py on the wire: round trip, progress, and what more bytes change.
use vpnself.Prelude.{
  ℕ, ◌+◌, ◌-◌, ◌^◌, ◌≤◌, ◌<◌, ◌≡◌, ◌≢◌, refl, ap, sym, ◌∙◌, inl, inr, none, some, List, [], ◌∷◌,
  ◌++◌, length, take, drop, arith, length-append, take-append-drop, drop-drop, length-take,
  length-drop, drop-append_le, drop-append_exact, take-append_exact, take-append_le, Option-cases,
}
use vpnself.Bytes.{IsU32, join4, join4-be32, be32}
use vpnself.Protocol.{
  Cmd, Frame, frame_of, cmd_value, cmd_of_byte, pack_frame, unpack_header, unpack_body,
  unpack_frame, consumed, frame_header_size, max_frame_size,
}
use mathlib.Core.List.{append-nil}

pub cmd_of_byte-cmd_value : (c : Cmd) → cmd_of_byte (cmd_value c) ≡ c
unfolding cmd_of_byte
cmd_of_byte-cmd_value Cmd.connect = refl
cmd_of_byte-cmd_value _ = refl

-- The frame's bytes behind `stream_id` and `payload`, where nothing overflows.
abbrev pub wire : ℕ → Cmd → List ℕ → List ℕ
wire sid c p = be32 (frame_header_size + length p) ++ be32 sid ++ (cmd_value c ∷ []) ++ p

pub pack_frame-wire :
    (sid : ℕ) (c : Cmd) (p : List ℕ)
    → IsU32 sid
    → frame_header_size + length p ≤ max_frame_size
    → pack_frame sid c p ≡ some (wire sid c p)
unfolding pack_frame
pack_frame-wire sid c p hs hp = ground arith

pub wire_of_pack_frame :
    (sid : ℕ) (c : Cmd) (p frame : List ℕ)
    → pack_frame sid c p ≡ some frame
    → IsU32 sid × (frame_header_size + length p < 2 ^ 32) × (frame ≡ wire sid c p)
unfolding pack_frame
wire_of_pack_frame sid c p frame h = ground arith

-- `unpack_frame` reads the bytes from `offset` on and no others.
pub unpack_frame-drop :
    (bs : List ℕ) (offset : ℕ) → unpack_frame bs offset ≡ unpack_frame (drop offset bs) 0
unfolding unpack_frame unpack_body
unpack_frame-drop bs offset = ground (arith, length-drop offset bs, drop-drop offset 9 bs)

-- Nine bytes are a header.
unpack_header_total : (xs : List ℕ) → length xs ≡ 9 → (h : ℕ × ℕ × ℕ) × (unpack_header xs ≡ some h)
unfolding unpack_header
unpack_header_total (a ∷ b ∷ c ∷ d ∷ e ∷ f ∷ g ∷ h ∷ i ∷ []) len =
    ((join4 a b c d, join4 e f g h, i), refl)
unpack_header_total _ len = absurd (omega arith)

-- A frame that is returned lies within the data.
pub unpack_frame_within :
    (bs : List ℕ) (offset : ℕ) (f : Frame)
    → unpack_frame bs offset ≡ some f
    → offset + consumed f ≤ length bs
unfolding unpack_frame unpack_body
unpack_frame_within bs offset f h = grind (
  arith,
  length-drop offset bs,
  length-drop (offset + 9) bs,
  (λ (n : ℕ). length-take n (drop (offset + 9) bs)),
)

-- With a full buffer the parser never waits for more: it returns a frame or skips a bad header.
pub unpack_frame_full :
    (bs : List ℕ) (offset : ℕ) → offset + max_frame_size ≤ length bs → unpack_frame bs offset ≢ none
unfolding unpack_frame unpack_body
unpack_frame_full bs offset h =
    let nine : length (take 9 (drop offset bs)) ≡ 9 =
      omega (arith, length-take 9 (drop offset bs), length-drop offset bs) in
    let (hdr, e) = unpack_header_total (take 9 (drop offset bs)) nine in λ z. ground (arith, e)

pub unpack_frame-append :
    (bs more : List ℕ) (f : Frame)
    → unpack_frame bs 0 ≡ some f
    → unpack_frame (bs ++ more) 0 ≡ some f
unfolding unpack_frame unpack_body
unpack_frame-append bs more f h = grind (
  arith,
  length-append bs more,
  take-append_le 9 bs more,
  drop-append_le 9 bs more,
  length-drop 9 bs,
  take-append_le,
)

pub unpack_frame-wire :
    (sid : ℕ) (c : Cmd) (p rest : List ℕ)
    → IsU32 sid
    → frame_header_size + length p ≤ max_frame_size
    → unpack_frame (wire sid c p ++ rest) 0 ≡ some (frame_of sid c p)
unfolding unpack_frame unpack_body
unpack_frame-wire sid c p rest hs hp =
    unfold unpack_header in
    let total : ℕ = frame_header_size + length p in
    let body : take (total - 9) (p ++ rest) ≡ p =
      take-append_exact p rest (total - 9) (omega arith) in
    rw (join4-be32 total (omega arith), join4-be32 sid hs, cmd_of_byte-cmd_value c)
      (ground (arith, body, length-append p rest))

-- A frame that has not arrived whole is waited for.
pub unpack_frame_partial :
    (sid : ℕ) (c : Cmd) (p : List ℕ) (n : ℕ)
    → IsU32 sid
    → frame_header_size + length p ≤ max_frame_size
    → n < frame_header_size + length p
    → unpack_frame (take n (wire sid c p)) 0 ≡ none
unpack_frame_partial sid c p n hs hp hn = elim (Option-cases (unpack_frame (take n whole) 0)) [
  | inl e ↦ e
  | inr (f, e) ↦
      let e' : unpack_frame (take n whole ++ drop n whole) 0 ≡ some f =
        unpack_frame-append (take n whole) (drop n whole) f e in
      let same : some f ≡ some (frame_of sid c p) =
        sym (rw (take-append-drop n whole) at e')
        ∙ rw append-nil at (unpack_frame-wire sid c p [] hs hp) in
      let size : consumed f ≡ consumed (frame_of sid c p) = cc in
      absurd (omega (arith, unpack_frame_within (take n whole) 0 f e, length-take n whole, size))
]
  where
    whole : List ℕ
    whole = wire sid c p

-- A packed frame of at most MAX_FRAME_SIZE bytes is read back at its place between any other bytes,
-- with its stream id, command and payload; of a frame that is cut off nothing is read.
pub unpack_frame-pack_frame :
    (sid : ℕ) (c : Cmd) (p frame front rest : List ℕ)
    → pack_frame sid c p ≡ some frame
    → frame_header_size + length p ≤ max_frame_size
    → (unpack_frame (front ++ (frame ++ rest)) (length front) ≡ some (frame_of sid c p))
      × ((n : ℕ) → n < length frame → unpack_frame (front ++ take n frame) (length front) ≡ none)
unpack_frame-pack_frame sid c p frame front rest h small = (whole, cut)
  where
    parts : IsU32 sid × (frame_header_size + length p < 2 ^ 32) × (frame ≡ wire sid c p)
    parts = wire_of_pack_frame sid c p frame h

    whole : unpack_frame (front ++ (frame ++ rest)) (length front) ≡ some (frame_of sid c p)
    whole =
        unpack_frame-drop (front ++ (frame ++ rest)) (length front)
        ∙ rw (drop-append_exact front (frame ++ rest) (length front) refl, parts.2)
            (unpack_frame-wire sid c p rest parts.0 small)

    cut : (n : ℕ) → n < length frame → unpack_frame (front ++ take n frame) (length front) ≡ none
    cut n lt =
        unpack_frame-drop (front ++ take n frame) (length front)
        ∙ rw (drop-append_exact front (take n frame) (length front) refl, parts.2)
            (unpack_frame_partial sid c p n parts.0 small (omega (arith, ap length parts.2)))
