-- ===== src/Tunnel/Feeder.antt =====
-- `_TunnelStreamReader._feed` of client/core/router.py, which copies a stream of
-- client/core/tunnel.py to the relay, one round at a time.
use vpnself.Prelude.{
  ℕ, ◌+◌, ◌-◌, ◌*◌, ◌≤◌, ◌≡◌, refl, ap, ◌∙◌, ◌≢◌, true, false, some, none, Option, List, [], ◌∷◌,
  ◌++◌, if◌then◌else◌, ltb, length, pos, arith,
}
use vpnself.Tunnel.Stream.{
  TunnelStream, ReadResult, ready, waiting, max_buffer, take_one, read, close, feed_data, is_empty,
  give, count_read,
}

-- IO_CHUNK_SIZE of client/core/router.py
abbrev pub io_chunk_size : ℕ
io_chunk_size = 256 * 1024

-- What a round of `_feed` does: it ends with `feed_eof`, it awaits the stream, or it passes bytes
-- to the relay and goes on with the stream.
pub data Round : Type 0 where
  eof : Round
  awaits : TunnelStream → Round
  passed : List ℕ → TunnelStream → Round

-- The part of the round after `read` has returned.
abbrev pub pass : ReadResult → Round
pass (waiting s) = awaits s
pass (ready bytes s) = if is_empty bytes then eof else passed bytes s

-- `while not self._stream.closed: data = await self._stream.read(IO_CHUNK_SIZE) ...`
unfoldable pub feed_round : TunnelStream → Round
feed_round s = if s.closed then eof else pass (read (pos io_chunk_size) s)

-- The rest of a round that has awaited the stream.
unfoldable pub resume_round : TunnelStream → Round
resume_round s = pass (take_one (pos io_chunk_size) s)

-- An open stream that holds nothing.
abbrev pub idle : ℕ → ℕ → TunnelStream
idle counted received = record {
  buffer = [];
  buffered_bytes = counted;
  leftover = [];
  closed = false;
  bytes_recv = received;
}

-- A closed stream whose reader has not taken the chunks of `q`.
abbrev ended : List (Option (List ℕ)) → ℕ → ℕ → TunnelStream
ended q counted received = record {
  buffer = q ++ (none ∷ []);
  buffered_bytes = counted;
  leftover = [];
  closed = true;
  bytes_recv = received;
}

within : (k n : ℕ) → k + n ≤ max_buffer → ltb max_buffer (k + n) ≡ false
within k n h = ground arith

two_chunks :
    (c d : List ℕ) (k r : ℕ)
    → k + length c + length d ≤ max_buffer
    → close (feed_data d (feed_data c (idle k r)))
      ≡ ended (some c ∷ some d ∷ []) (k + length c + length d) r
unfolding feed_data close
two_chunks c d k r m =
    rw (within k (length c) (omega arith), within (k + length c) (length d) m) refl

fits : (n : ℕ) (c : List ℕ) → length c ≤ n → ltb n (length c) ≡ false
fits n c h = ground arith

give_whole :
    (n : ℕ) (c : List ℕ) (s : TunnelStream)
    → length c ≤ n
    → give (pos n) c s ≡ ready c (count_read c s)
give_whole n c s h = rw (fits n c h) refl

is_empty_of_nonempty {ℓ} : {A : Type ℓ} (xs : List A) → xs ≢ [] → is_empty xs ≡ false
is_empty_of_nonempty [] h = absurd (h refl)
is_empty_of_nonempty (x ∷ xs) h = refl

pass_whole : (c : List ℕ) (s : TunnelStream) → c ≢ [] → pass (ready c s) ≡ passed c s
pass_whole c s h = rw (is_empty_of_nonempty c h) refl

resume_first :
    (c : List ℕ) (q : List (Option (List ℕ))) (k r : ℕ)
    → c ≢ []
    → length c ≤ io_chunk_size
    → resume_round (ended (some c ∷ q) k r) ≡ passed c (ended q (k - length c) (r + length c))
unfolding resume_round take_one
resume_first c q k r h l =
    ap pass (give_whole io_chunk_size c (ended q k r) l)
    ∙ pass_whole c (ended q (k - length c) (r + length c)) h

read_first :
    (d : List ℕ) (k r : ℕ)
    → length d ≤ io_chunk_size
    → read (pos io_chunk_size) (ended (some d ∷ []) k r)
      ≡ ready d (ended [] (k - length d) (r + length d))
unfolding read take_one
read_first d k r l = give_whole io_chunk_size d (ended [] k r) l

-- While the reader awaits an open stream that holds nothing, two chunks of DATA and then CLOSE
-- arrive. The reader passes the first chunk to the relay and ends, and the second chunk stays in
-- the stream, where `read` would still return it.
pub feed_round_loses :
    (c d : List ℕ) (k r : ℕ)
    → c ≢ []
    → length c ≤ io_chunk_size
    → length d ≤ io_chunk_size
    → k + length c + length d ≤ max_buffer
    → (s : TunnelStream) × (resume_round (close (feed_data d (feed_data c (idle k r))))
        ≡ passed c s)
      × (feed_round s ≡ eof)
      × ((s' : TunnelStream) × (read (pos io_chunk_size) s ≡ ready d s'))
unfolding feed_round
feed_round_loses c d k r nc lc ld m =
    let n : ℕ = k + length c + length d in
    (
      ended (some d ∷ []) (n - length c) (r + length c),
      ap resume_round (two_chunks c d k r m) ∙ resume_first c (some d ∷ []) n r nc lc,
      refl,
      (
        ended [] (n - length c - length d) (r + length c + length d),
        read_first d (n - length c) (r + length c) ld,
      ),
    )
