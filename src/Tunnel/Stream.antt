-- ===== src/Tunnel/Stream.antt =====
-- `TunnelStream` of client/core/tunnel.py. A chunk of the queue is `none` for the None that `close`
-- puts there. Where `read` awaits the queue it returns `waiting`; the coroutine goes on with
-- `take_one` when there is a chunk.
pub mod Bytes
pub mod Runs
use vpnself.Prelude.{
  ℕ, ◌+◌, ◌-◌, ◌*◌, ◌^◌, Bool, true, false, not, ◌&&◌, ◌||◌, Option, none, some, List, [], ◌∷◌,
  ◌++◌, if◌then◌else◌, ltb, leb, length, take, drop, ℤ, pos, negsuc,
}

-- MAX_BUFFER_BYTES
abbrev pub max_buffer : ℕ
max_buffer = 8 * 1024 * 1024

pub record TunnelStream : Type 0 where
  pub buffer : List (Option (List ℕ))
  pub buffered_bytes : ℕ
  pub leftover : List ℕ
  pub closed : Bool
  pub bytes_recv : ℕ

-- `TunnelStream(stream_id, tunnel)`
abbrev pub new_stream : TunnelStream
new_stream = record {
  buffer = [];
  buffered_bytes = 0;
  leftover = [];
  closed = false;
  bytes_recv = 0;
}

pub data ReadResult : Type 0 where
  ready : List ℕ → TunnelStream → ReadResult
  waiting : TunnelStream → ReadResult

abbrev pub is_empty {ℓ} : {A : Type ℓ} → List A → Bool
is_empty [] = true
is_empty (x ∷ xs) = false

-- `data` leaves the stream: the two counters.
abbrev pub count_read : List ℕ → TunnelStream → TunnelStream
count_read chunk s = record s {
  buffered_bytes = s.buffered_bytes - length chunk;
  bytes_recv = s.bytes_recv + length chunk;
}

-- The loop over `get_nowait`: the bytes, whether a None came, and the chunks that are left.
abbrev pub drain_queue : List (Option (List ℕ)) → List ℕ × Bool × List (Option (List ℕ))
drain_queue [] = ([], false, [])
drain_queue (none ∷ q) = ([], true, q)
drain_queue (some chunk ∷ q) =
    let (more, ended, rest) = drain_queue q in (chunk ++ more, ended, rest)

-- A chunk for a caller that asks for `n` bytes: all of it for n < 0.
abbrev pub give : ℤ → List ℕ → TunnelStream → ReadResult
give (negsuc _) chunk s = ready chunk (count_read chunk s)
give (pos n) chunk s =
    if ltb n (length chunk)
    then ready (take n chunk) (count_read (take n chunk) (record s { leftover = drop n chunk }))
    else ready chunk (count_read chunk s)

-- What follows `data = await self._buffer.get()`, by the queue.
abbrev pub take_from : ℤ → List (Option (List ℕ)) → TunnelStream → ReadResult
take_from n [] s = waiting s
take_from n (none ∷ q) s = ready [] (record s { buffer = q; closed = true })
take_from n (some chunk ∷ q) s = give n chunk (record s { buffer = q })

unfoldable pub take_one : ℤ → TunnelStream → ReadResult
take_one n s = take_from n s.buffer s

-- `n < 0 or n >= len(leftover)`
abbrev pub takes_all : ℤ → List ℕ → Bool
takes_all (negsuc _) chunk = true
takes_all (pos n) chunk = leb (length chunk) n

abbrev pub amount : ℤ → ℕ
amount (negsuc _) = 0
amount (pos n) = n

-- The first branch of `read`.
unfoldable pub read_leftover : ℤ → TunnelStream → ReadResult
read_leftover n s =
    if takes_all n s.leftover
    then ready s.leftover (count_read s.leftover (record s { leftover = [] }))
    else ready (take (amount n) s.leftover) (
        count_read (take (amount n) s.leftover)
          (record s { leftover = drop (amount n) s.leftover }))

-- The branch of `read` that drains the queue.
unfoldable pub read_all : ℤ → TunnelStream → ReadResult
read_all n s =
    let (bytes, ended, rest) = drain_queue s.buffer in
    let s' : TunnelStream = record s { buffer = rest; closed = s.closed || ended } in
    if not (is_empty bytes)
    then ready bytes (count_read bytes s')
    else if s'.closed
    then ready [] s'
    else take_one n s'

-- The branch by the sign of n.
abbrev pub read_queue : ℤ → TunnelStream → ReadResult
read_queue (negsuc k) s = read_all (negsuc k) s
read_queue (pos n) s = take_one (pos n) s

unfoldable pub read : ℤ → TunnelStream → ReadResult
read n s =
    if not (is_empty s.leftover)
    then read_leftover n s
    else if s.closed && is_empty s.buffer
    then ready [] s
    else read_queue n s

unfoldable pub close : TunnelStream → TunnelStream
close s = if not s.closed then record s { closed = true; buffer = s.buffer ++ (none ∷ []) } else s

unfoldable pub feed_data : List ℕ → TunnelStream → TunnelStream
feed_data chunk s =
    if not s.closed
    then (if ltb max_buffer (s.buffered_bytes + length chunk) then close s else record s {
      buffered_bytes = s.buffered_bytes + length chunk;
      buffer = s.buffer ++ (some chunk ∷ []);
    })
    else s
