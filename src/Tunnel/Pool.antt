-- ===== src/Tunnel/Pool.antt =====
-- `TunnelPool` of client/core/tunnel.py. A step that awaits ends a function here. The pool's view of a
-- `TunnelClient` is whether it is connected; what its calls return is an argument. Delays are in half
-- milliseconds, in which the factor 1.5 is exact up to the limit.

pub mod FanOut
pub mod Latch
pub mod Repair
pub mod Covered
pub mod Session
mod Tests
use vpnself.Prelude.{
  ℕ, zero, suc, ◌+◌, ◌-◌, ◌*◌, ◌/◌, ◌%◌, ◌==◌, Bool, true, false, not, ◌&&◌, Option, none, some,
  List, [], ◌∷◌, ◌++◌, if◌then◌else◌, ltb, length, any, filter, min, ℤ, pos, negsuc, get_elem?,
}

abbrev pub pool_min_size : ℕ
pool_min_size = 1

abbrev pub pool_max_size : ℕ
pool_max_size = 128

-- POOL_RECONNECT_DELAY, and the limit in `_reconnect_one`.
abbrev pub pool_reconnect_delay : ℕ
pool_reconnect_delay = 5 * 2000

abbrev pub max_reconnect_delay : ℕ
max_reconnect_delay = 30 * 2000

-- A `TunnelClient` with its `_pool_index`.
pub record PoolTunnel : Type 0 where
  pub pool_index : ℕ
  pub connected : Bool

-- `reconnect_tasks` lists the keys of `_reconnect_tasks`.
pub record TunnelPool : Type 0 where
  pub pool_size : ℕ
  pub tunnels : List PoolTunnel
  pub rr_index : ℕ
  pub running : Bool
  pub reconnect_tasks : List ℕ
  pub pid : ℕ
  pub down_notified : Bool

-- `max(POOL_MIN_SIZE, min(POOL_MAX_SIZE, int(pool_size)))`
abbrev pub clamp_size : ℤ → ℕ
clamp_size (pos n) =
    if ltb (min pool_max_size n) pool_min_size then pool_min_size else min pool_max_size n
clamp_size (negsuc n) = pool_min_size

-- `TunnelPool(config, pool_size)`
abbrev pub new_pool : ℤ → TunnelPool
new_pool size = record {
  pool_size = clamp_size size;
  tunnels = [];
  rr_index = 0;
  running = false;
  reconnect_tasks = [];
  pid = 0;
  down_notified = false;
}

-- The property `connected`.
abbrev pub is_connected : TunnelPool → Bool
is_connected p = any (λ t. t.connected) p.tunnels

-- `i in self._reconnect_tasks`, and the entry that is added where it is not.
abbrev pub is_reconnecting : ℕ → List ℕ → Bool
is_reconnecting i tasks = any (λ j. j == i) tasks

abbrev pub schedule : ℕ → List ℕ → List ℕ
schedule i tasks = if is_reconnecting i tasks then tasks else tasks ++ (i ∷ [])

-- The index in `enumerate(self._tunnels)`, from `i` on, of the tunnel with this `_pool_index`.
abbrev pub find_tunnel : ℕ → ℕ → List PoolTunnel → Option ℕ
find_tunnel pool_index i [] = none
find_tunnel pool_index i (t ∷ ts) =
    if t.pool_index == pool_index then some i else find_tunnel pool_index (i + 1) ts

abbrev pub schedule_lost : Option ℕ → TunnelPool → TunnelPool
schedule_lost none p = p
schedule_lost (some i) p = record p { reconnect_tasks = schedule i p.reconnect_tasks }

-- `_on_tunnel_lost`: whether the pool's own callbacks are called, and the pool.
unfoldable pub on_tunnel_lost : ℕ → TunnelPool → Bool × TunnelPool
on_tunnel_lost pool_index p =
    if not p.running
    then (false, p)
    else let p' = schedule_lost (find_tunnel pool_index 0 p.tunnels) p in
      if not (is_connected p) && not p.down_notified
      then (true, record p' { down_notified = true })
      else (false, p')

-- A tunnel is disconnected; the callback of the pool comes after it.
abbrev pub disconnected : ℕ → List PoolTunnel → List PoolTunnel
disconnected pool_index [] = []
disconnected pool_index (t ∷ ts) =
    (if t.pool_index == pool_index then record t { connected = false } else t)
    ∷ disconnected pool_index ts

-- `TunnelClient.disconnect` as the pool sees it. It calls the callback also for a tunnel that is
-- down already, and for one that the pool has dropped.
unfoldable pub lose_tunnel : ℕ → TunnelPool → Bool × TunnelPool
lose_tunnel pool_index p =
    on_tunnel_lost pool_index (record p { tunnels = disconnected pool_index p.tunnels })

-- Several tunnels, one after the other: how often the callbacks are called.
abbrev pub lose_tunnels : List ℕ → TunnelPool → ℕ × TunnelPool
lose_tunnels [] p = (0, p)
lose_tunnels (i ∷ is) p =
    let (fires, p') = lose_tunnel i p in
    let (more, p'') = lose_tunnels is p' in (if fires then more + 1 else more, p'')

-- `connect` up to the teardown of the old tunnels, which are the first result.
unfoldable pub begin_connect : TunnelPool → List PoolTunnel × TunnelPool
begin_connect p = (
  p.tunnels,
  record p { running = true; down_notified = false; reconnect_tasks = []; tunnels = [] },
)

-- The loop that makes the tunnels.
abbrev pub add_tunnels : ℕ → TunnelPool → TunnelPool
add_tunnels zero p = p
add_tunnels (suc n) p = add_tunnels n (record p {
  pid = p.pid + 1;
  tunnels = p.tunnels ++ (record { pool_index = p.pid + 1; connected = false } ∷ []);
})

unfoldable pub make_tunnels : TunnelPool → TunnelPool
make_tunnels p = add_tunnels p.pool_size p

-- The tunnels after `gather`, whose results are given; a result other than True leaves one down.
abbrev pub set_results : List Bool → List PoolTunnel → List PoolTunnel
set_results rs [] = []
set_results [] (t ∷ ts) = t ∷ ts
set_results (r ∷ rs) (t ∷ ts) = (if r then record t { connected = true } else t) ∷ set_results rs ts

-- The loop over the results: the number of tunnels that are up, and the tasks.
abbrev pub count_results : ℕ → List Bool → List ℕ → ℕ × List ℕ
count_results i [] tasks = (0, tasks)
count_results i (true ∷ rs) tasks =
    let (n, tasks') = count_results (i + 1) rs tasks in (n + 1, tasks')
count_results i (false ∷ rs) tasks = count_results (i + 1) rs (schedule i tasks)

-- The end of `connect`, on the results of the tunnels.
unfoldable pub finish_connect : List Bool → TunnelPool → Bool × TunnelPool
finish_connect results p =
    let (connected, tasks) = count_results 0 results p.reconnect_tasks in
    (ltb 0 connected, record p { tunnels = set_results results p.tunnels; reconnect_tasks = tasks })

-- The whole of `connect` where nothing else runs in between: how often the callbacks of the pool are
-- called, what it returns, and the pool.
abbrev pub pool_indices : List PoolTunnel → List ℕ
pool_indices [] = []
pool_indices (t ∷ ts) = t.pool_index ∷ pool_indices ts

unfoldable pub connect : List Bool → TunnelPool → ℕ × Bool × TunnelPool
connect results p =
    let (old, p1) = begin_connect p in
    let (fired, p2) = lose_tunnels (pool_indices old) p1 in
    let (up, p3) = finish_connect results (make_tunnels p2) in (fired, up, p3)

-- `disconnect` of the pool: its callbacks are always called once.
unfoldable pub disconnect : TunnelPool → TunnelPool
disconnect p = record p { running = false; reconnect_tasks = []; tunnels = [] }

-- What `create_stream` of a tunnel or of the pool returns.
pub data Created : Type 0 where
  stream : ℕ → Created
  rejected : Created
  refused : Created

-- Where the loop in `create_stream` stops, and what it goes on to.
abbrev pub or_next : ℕ → Created → List ℕ × Created → List ℕ × Created
or_next idx (stream sid) rest = (idx ∷ [], stream sid)
or_next idx rejected rest = (idx ∷ [], rejected)
or_next idx refused (asked, result) = (idx ∷ asked, result)

-- The loop of `create_stream` with `left` of `n` offsets to go: the tunnels that it asks, and the
-- result. `up` and `answer` say what it finds of each tunnel when it comes to it.
unfoldable pub fan_out : (ℕ → Bool) → (ℕ → Created) → ℕ → ℕ → ℕ → List ℕ × Created
fan_out up answer n start zero = ([], refused)
fan_out up answer n start (suc left) =
    let idx = (start + (n - suc left)) % n in
    let rest = fan_out up answer n start left in
    if up idx then or_next idx (answer idx) rest else rest

unfoldable pub create_stream :
    (ℕ → Bool) → (ℕ → Created) → TunnelPool → (List ℕ × Created) × TunnelPool
create_stream up answer p =
    let n = length p.tunnels in
    if n == 0
    then (([], refused), p)
    else (fan_out up answer n (p.rr_index % n) n, record p { rr_index = p.rr_index + 1 })

-- `_reconnect_tasks.pop(index, None)`
abbrev pub unschedule : ℕ → TunnelPool → TunnelPool
unschedule i p = record p { reconnect_tasks = filter (λ j. not (j == i)) p.reconnect_tasks }

abbrev pub tunnel_up : Option PoolTunnel → Bool
tunnel_up none = true
tunnel_up (some t) = t.connected

-- The head of the loop in `_reconnect_one`: whether it sleeps, or the task ends. A tunnel that is
-- not there ends it as well.
unfoldable pub reconnect_waits : ℕ → TunnelPool → Bool × TunnelPool
reconnect_waits i p =
    if p.running && not (tunnel_up (get_elem? p.tunnels i))
    then (true, p)
    else (false, unschedule i p)

-- `delay = min(delay * 1.5, 30.0)`
abbrev pub next_delay : ℕ → ℕ
next_delay delay = min (delay * 3 / 2) max_reconnect_delay

abbrev pub connected_at : ℕ → List PoolTunnel → List PoolTunnel
connected_at i [] = []
connected_at zero (t ∷ ts) = record t { connected = true } ∷ ts
connected_at (suc i) (t ∷ ts) = t ∷ connected_at i ts

-- Behind the sleep and `t.connect()`, which succeeds or not: the next delay, or the task ends.
unfoldable pub reconnect_tries : ℕ → ℕ → Bool → TunnelPool → Option ℕ × TunnelPool
reconnect_tries i delay ok p =
    if not p.running
    then (none, unschedule i p)
    else if ok
    then (
      none,
      unschedule i (record p { tunnels = connected_at i p.tunnels; down_notified = false }),
    )
    else (some (next_delay delay), p)
