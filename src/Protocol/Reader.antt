-- ===== src/Protocol/Reader.antt =====
-- The framing part of the two read loops, `TunnelClient._read_loop` in client/core/tunnel.py and
-- `TunnelServer._handle_client` in server/tunnel_server.py: a receive buffer with a read position.
pub mod Parses
pub mod Chunks
use vpnself.Prelude.{
  ℕ, zero, suc, ◌+◌, ◌/◌, Bool, ◌&&◌, ◌||◌, none, some, List, [], ◌∷◌, ◌++◌, if◌then◌else◌, ltb,
  length, drop,
}
use vpnself.Protocol.{Frame, unpack_frame, consumed}

-- The local variables `buf` and `pos`.
pub record Buffer : Type 0 where
  pub buf : List ℕ
  pub pos : ℕ

abbrev pub empty_buffer : Buffer
empty_buffer = record { buf = []; pos = 0 }

-- The inner `while True`, which stops when `unpack_frame` returns None. Each round takes nine bytes
-- at least, so a fuel above the number of unread bytes is never used up.
unfoldable pub drain : ℕ → List ℕ → ℕ → List Frame × ℕ
drain zero buf pos = ([], pos)
drain (suc fuel) buf pos = elim (unpack_frame buf pos) [
  | none ↦ ([], pos)
  | some f ↦ let (fs, pos') = drain fuel buf (pos + consumed f) in (f ∷ fs, pos')
]

abbrev drain_all : List ℕ → ℕ → List Frame × Buffer
drain_all buf pos =
    let (fs, pos') = drain (suc (length buf)) buf pos in (fs, record { buf = buf; pos = pos' })

-- One round of the client's loop on the bytes of one read.
unfoldable pub client_feed : Buffer → List ℕ → List Frame × Buffer
client_feed b chunk =
    if ltb 0 b.pos
    then drain_all (drop b.pos b.buf ++ chunk) 0
    else drain_all (b.buf ++ chunk) b.pos

-- The server keeps read bytes until they are many, or more than half of the buffer.
abbrev compacts : Buffer → Bool
compacts b = ltb 65536 b.pos || (ltb 0 b.pos && ltb (length b.buf / 2) b.pos)

-- One round of the server's loop on the bytes of one read, where each PONG is sent. Where one cannot be
-- sent, the inner loop ends early and whole frames stay in the buffer for the next read.
unfoldable pub server_feed : Buffer → List ℕ → List Frame × Buffer
server_feed b chunk =
    if compacts b then drain_all (drop b.pos b.buf ++ chunk) 0 else drain_all (b.buf ++ chunk) b.pos

-- The outer loop over the reads.
unfoldable pub feed_all :
    (Buffer → List ℕ → List Frame × Buffer) → Buffer → List (List ℕ) → List Frame × Buffer
feed_all feed b [] = ([], b)
feed_all feed b (chunk ∷ chunks) =
    let (fs, b') = feed b chunk in let (gs, b'') = feed_all feed b' chunks in (fs ++ gs, b'')
