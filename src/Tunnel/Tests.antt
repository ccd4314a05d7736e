-- ===== src/Tunnel/Tests.antt =====
-- The theorems about the tunnel's streams at concrete chunks.
use vpnself.Prelude.{false, ◌≡◌, refl, [], ◌∷◌, ◌++◌, some, pos, negsuc, arith}
use vpnself.Tunnel.Stream.{
  TunnelStream, ready, new_stream, take_one, read, read_all, close, feed_data,
}
use vpnself.Tunnel.Stream.Bytes.{content}
use vpnself.Tunnel.Stream.Runs.{Run, done, reads, Run-conserves}
use vpnself.Tunnel.Feeder.{
  idle, io_chunk_size, passed, eof, resume_round, feed_round, feed_round_loses,
}

-- The stream after `1 2 3` and `4` have arrived.
abbrev fed_stream : TunnelStream
fed_stream = record {
  buffer = some (1 ∷ 2 ∷ 3 ∷ []) ∷ some (4 ∷ []) ∷ [];
  buffered_bytes = 4;
  leftover = [];
  closed = false;
  bytes_recv = 0;
}

abbrev split_stream : TunnelStream
split_stream = record {
  buffer = some (4 ∷ []) ∷ [];
  buffered_bytes = 2;
  leftover = 3 ∷ [];
  closed = false;
  bytes_recv = 2;
}

fed_twice : feed_data (4 ∷ []) (feed_data (1 ∷ 2 ∷ 3 ∷ []) new_stream) ≡ fed_stream
unfolding feed_data
fed_twice = refl

read_two : read (pos 2) fed_stream ≡ ready (1 ∷ 2 ∷ []) split_stream
unfolding read take_one
read_two = refl

read_every : (s : TunnelStream) × (read (negsuc 0) fed_stream ≡ ready (1 ∷ 2 ∷ 3 ∷ 4 ∷ []) s)
unfolding read read_all
read_every = (_, refl)

read_closed_new : (s : TunnelStream) × (read (negsuc 0) (close new_stream) ≡ ready [] s)
unfolding read read_all close
read_closed_new = (_, refl)

run : Run fed_stream [] (1 ∷ 2 ∷ []) split_stream
run =
    reads (pos 2) fed_stream split_stream split_stream (1 ∷ 2 ∷ []) [] [] read_two
      (done split_stream)

Run-conserves_example : content fed_stream ++ [] ≡ (1 ∷ 2 ∷ []) ++ content split_stream
Run-conserves_example = Run-conserves fed_stream split_stream [] (1 ∷ 2 ∷ []) run

feed_round_loses_example :
    (s : TunnelStream) × (resume_round
        (close (feed_data (3 ∷ []) (feed_data (1 ∷ 2 ∷ []) (idle 0 0))))
      ≡ passed (1 ∷ 2 ∷ []) s)
    × (feed_round s ≡ eof)
    × ((s' : TunnelStream) × (read (pos io_chunk_size) s ≡ ready (3 ∷ []) s'))
feed_round_loses_example =
    feed_round_loses (1 ∷ 2 ∷ []) (3 ∷ []) 0 0 (λ e. cc) (omega arith) (omega arith) (omega arith)
