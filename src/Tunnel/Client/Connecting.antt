-- ===== src/Tunnel/Client/Connecting.antt =====
-- `TunnelClient.create_stream` of client/core/tunnel.py behind the sending of CONNECT, and the test of
-- `_health_check_loop`.
use vpnself.Prelude.{
  ℕ, ◌+◌, ◌*◌, ◌≡◌, Bool, true, false, not, ◌&&◌, Option, none, some, List, [], ◌∷◌, if◌then◌else◌,
  ltb, nat_eq, ◌==◌,
}
use vpnself.Prelude.Dict.{get, remove}
use vpnself.Protocol.{Cmd, Frame, frame_of}
use vpnself.Tunnel.Client.{TunnelClient, Entry, disconnect}

-- How the wait for `_connect_future` ends: with a result, with the timeout, with the
-- ConnectionError that `disconnect` sets, or with the cancellation of the task that waits, which no
-- `except` catches.
pub data Waited : Type 0 where
  answered timed_out aborted cancelled : Waited

-- What `create_stream` returns: a stream, CONNECT_REJECTED or None; or it raises.
pub data Result : Type 0 where
  opened : ℕ → Result
  rejected failed raises : Result

-- `self._streams.pop(sid, None)`
abbrev pub pop_stream : ℕ → TunnelClient → TunnelClient
pop_stream sid c = record c { streams = remove sid c.streams }

-- `stream.closed`; a stream that is out of the table has been closed.
abbrev pub is_closed : Option Entry → Bool
is_closed none = true
is_closed (some e) = e.stream.closed

-- Behind `_send`, which succeeds or not; none where `create_stream` goes on to wait.
unfoldable pub connect_sent : Bool → ℕ → TunnelClient → Option Result × TunnelClient
connect_sent false sid c = (some failed, pop_stream sid c)
connect_sent true sid c = (if c.optimistic_connect then some (opened sid) else none, c)

-- Behind the wait: the frames to send, the result, and the client.
unfoldable pub connect_ended : Waited → ℕ → TunnelClient → List Frame × Result × TunnelClient
connect_ended answered sid c =
    if is_closed (get sid c.streams) then ([], rejected, pop_stream sid c) else ([], opened sid, c)
connect_ended timed_out sid c = (frame_of sid Cmd.close [] ∷ [], failed, pop_stream sid c)
connect_ended aborted sid c = ([], failed, pop_stream sid c)
connect_ended cancelled sid c = ([], raises, c)

-- HEALTH_TIMEOUT, in milliseconds.
abbrev pub health_timeout : ℕ
health_timeout = 50 * 1000

-- A round of `_health_check_loop` behind its sleep: whether the loop goes on, and the client.
unfoldable pub health_check : ℕ → TunnelClient → Bool × TunnelClient
health_check now c =
    if not c.running
    then (false, c)
    else if ltb 0 c.last_rx_time && ltb (c.last_rx_time + health_timeout) now
    then (false, (disconnect c).1)
    else (true, c)

-- What a `create_stream` that is over leaves: a stream that is open in the table, or none with its id;
-- the other streams stay as they are. It raises only where its task is cancelled, and changes nothing.
abbrev pub IsSettled : Waited → ℕ → TunnelClient → List Frame × Result × TunnelClient → Type 0
IsSettled w sid c (sent, opened i, c') =
    (i ≡ sid) × (c' ≡ c) × (is_closed (get sid c.streams) ≡ false)
IsSettled w sid c (sent, rejected, c') =
    (j : ℕ) → get j c'.streams ≡ (if sid == j then none else get j c.streams)
IsSettled w sid c (sent, failed, c') =
    (j : ℕ) → get j c'.streams ≡ (if sid == j then none else get j c.streams)
IsSettled w sid c (sent, raises, c') = (w ≡ cancelled) × (sent ≡ []) × (c' ≡ c)
