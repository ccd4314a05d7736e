-- ===== src/Tunnel/Pool/Covered.antt =====
-- What `connect`, the losses and the reconnect tasks of `TunnelPool` in client/core/tunnel.py keep: a
-- running pool has a task for each tunnel that is down.
use vpnself.Prelude.{
  ℕ, zero, suc, ◌+◌, ◌<◌, ◌≡◌, ◌≢◌, ◌⊎◌, inl, inr, refl, sym, ◌∙◌, Bool, true, false, not, ◌&&◌,
  Option, none, some, List, [], ◌∷◌, arith, if_both, ◌==◌, ==_iff, filter, length, get_elem?,
}
use mathlib.Core.Path.{subst}
use vpnself.Tunnel.Pool.{
  TunnelPool, PoolTunnel, is_reconnecting, schedule, find_tunnel, schedule_lost, on_tunnel_lost,
  disconnected, lose_tunnel, set_results, count_results, tunnel_up, reconnect_waits, connected_at,
  reconnect_tries, is_connected,
}
use vpnself.Tunnel.Pool.Repair.{
  AreCovered, AreDistinct, Covers, schedule-Covers, is_reconnecting-schedule, scheduled,
  disconnected-AreCovered,
}

-- The pool is running, its tunnels have different indices, and each one is up or has a task.
abbrev pub IsCovered : TunnelPool → Type 0
IsCovered p = (p.running ≡ true) × AreDistinct p.tunnels × AreCovered p.reconnect_tasks 0 p.tunnels

count_results-Covers :
    (i : ℕ) (rs : List Bool) (tasks : List ℕ) → Covers tasks (count_results i rs tasks).1
unfolding Covers
count_results-Covers i [] tasks j h = h
count_results-Covers i (true ∷ rs) tasks j h = count_results-Covers (i + 1) rs tasks j h
count_results-Covers i (false ∷ rs) tasks j h =
    count_results-Covers (i + 1) rs (schedule i tasks) j (schedule-Covers i tasks j h)

pub count_results-AreCovered :
    (i : ℕ) (rs : List Bool) (tasks : List ℕ) (ts : List PoolTunnel)
    → length rs ≡ length ts
    → AreCovered (count_results i rs tasks).1 i (set_results rs ts)
unfolding Covers
count_results-AreCovered i [] tasks [] h = tt
count_results-AreCovered i [] tasks (t ∷ ts) h = absurd (omega arith)
count_results-AreCovered i (r ∷ rs) tasks [] h = tt
count_results-AreCovered i (true ∷ rs) tasks (t ∷ ts) h =
    (inl refl, count_results-AreCovered (i + 1) rs tasks ts (omega arith))
count_results-AreCovered i (false ∷ rs) tasks (t ∷ ts) h = (
  inr (count_results-Covers (i + 1) rs (schedule i tasks) i (is_reconnecting-schedule i tasks)),
  count_results-AreCovered (i + 1) rs (schedule i tasks) ts (omega arith),
)

abbrev others : ℕ → List ℕ → List ℕ
others i tasks = filter (λ j. not (j == i)) tasks

others-is_reconnecting :
    (i j : ℕ) (tasks : List ℕ)
    → j ≢ i
    → is_reconnecting j tasks ≡ true
    → is_reconnecting j (others i tasks) ≡ true
others-is_reconnecting i j [] differ h = h
others-is_reconnecting i j (k ∷ tasks) differ h =
    ground (arith, others-is_reconnecting i j tasks, ==_iff k i, ==_iff k j)

others-kept :
    (i j : ℕ) (tasks : List ℕ) (t : PoolTunnel)
    → j ≢ i
    → (t.connected ≡ true) ⊎ (is_reconnecting j tasks ≡ true)
    → (t.connected ≡ true) ⊎ (is_reconnecting j (others i tasks) ≡ true)
others-kept i j tasks t differ (inl up) = inl up
others-kept i j tasks t differ (inr down) = inr (others-is_reconnecting i j tasks differ down)

others_behind :
    (i j : ℕ) (tasks : List ℕ) (ts : List PoolTunnel)
    → i < j
    → AreCovered tasks j ts
    → AreCovered (others i tasks) j ts
others_behind i j tasks [] le h = tt
others_behind i j tasks (t ∷ ts) le h =
    (others-kept i j tasks t (omega arith) h.0, others_behind i (j + 1) tasks ts (omega arith) h.1)

-- A task may go where its tunnel is up, or is not there.
others_from :
    (n i j : ℕ) (tasks : List ℕ) (ts : List PoolTunnel)
    → i ≡ j + n
    → tunnel_up (get_elem? ts n) ≡ true
    → AreCovered tasks j ts
    → AreCovered (others i tasks) j ts
others_from n i j tasks [] at up h = tt
others_from zero i j tasks (t ∷ ts) at up h =
    (inl up, others_behind i (j + 1) tasks ts (omega arith) h.1)
others_from (suc n) i j tasks (t ∷ ts) at up h = (
  others-kept i j tasks t (omega arith) h.0,
  others_from n i (j + 1) tasks ts (omega arith) up h.1,
)

connected_at-AreCovered :
    (n j : ℕ) (tasks : List ℕ) (ts : List PoolTunnel)
    → AreCovered tasks j ts
    → AreCovered tasks j (connected_at n ts)
connected_at-AreCovered n j tasks [] h = tt
connected_at-AreCovered zero j tasks (t ∷ ts) h = (inl refl, h.1)
connected_at-AreCovered (suc n) j tasks (t ∷ ts) h =
    (h.0, connected_at-AreCovered n (j + 1) tasks ts h.1)

tunnel_up-connected_at :
    (n : ℕ) (ts : List PoolTunnel) → tunnel_up (get_elem? (connected_at n ts) n) ≡ true
tunnel_up-connected_at n [] = refl
tunnel_up-connected_at zero (t ∷ ts) = refl
tunnel_up-connected_at (suc n) (t ∷ ts) = tunnel_up-connected_at n ts

-- The indices do not change.
find_tunnel-disconnected :
    (k m i : ℕ) (ts : List PoolTunnel) → find_tunnel k i (disconnected m ts) ≡ find_tunnel k i ts
find_tunnel-disconnected k m i [] = refl
find_tunnel-disconnected k m i (t ∷ ts) = ground (arith, find_tunnel-disconnected k m (i + 1) ts)

find_tunnel-connected_at :
    (k n i : ℕ) (ts : List PoolTunnel) → find_tunnel k i (connected_at n ts) ≡ find_tunnel k i ts
find_tunnel-connected_at k n i [] = refl
find_tunnel-connected_at k zero i (t ∷ ts) = refl
find_tunnel-connected_at k (suc n) i (t ∷ ts) =
    ground (arith, find_tunnel-connected_at k n (i + 1) ts)

disconnected-AreDistinct :
    (m : ℕ) (ts : List PoolTunnel) → AreDistinct ts → AreDistinct (disconnected m ts)
disconnected-AreDistinct m [] u = tt
disconnected-AreDistinct m (t ∷ ts) u = (
  if_both (λ (x : PoolTunnel). find_tunnel x.pool_index 0 (disconnected m ts) ≡ none)
      (t.pool_index == m) (record t { connected = false }) t
      (λ _. find_tunnel-disconnected t.pool_index m 0 ts ∙ u.0)
      (λ _. find_tunnel-disconnected t.pool_index m 0 ts ∙ u.0),
  disconnected-AreDistinct m ts u.1,
)

connected_at-AreDistinct :
    (n : ℕ) (ts : List PoolTunnel) → AreDistinct ts → AreDistinct (connected_at n ts)
connected_at-AreDistinct n [] u = tt
connected_at-AreDistinct zero (t ∷ ts) u = u
connected_at-AreDistinct (suc n) (t ∷ ts) u =
    (find_tunnel-connected_at t.pool_index n 0 ts ∙ u.0, connected_at-AreDistinct n ts u.1)

schedule_lost-IsCovered :
    (o : Option ℕ) (p : TunnelPool)
    → p.running ≡ true
    → AreDistinct p.tunnels
    → AreCovered (scheduled o p.reconnect_tasks) 0 p.tunnels
    → IsCovered (schedule_lost o p)
schedule_lost-IsCovered none p r u h = (r, u, h)
schedule_lost-IsCovered (some i) p r u h = (r, u, h)

-- What may happen to a pool that is running.
pub data PoolEvent : Type 0 where
  loses : ℕ → PoolEvent
  wakes : ℕ → PoolEvent
  tries : ℕ → ℕ → Bool → PoolEvent

unfoldable pub pool_event : PoolEvent → TunnelPool → TunnelPool
pool_event (loses pool_index) p = (lose_tunnel pool_index p).1
pool_event (wakes i) p = (reconnect_waits i p).1
pool_event (tries i delay ok) p = (reconnect_tries i delay ok p).1

abbrev pub pool_events : List PoolEvent → TunnelPool → TunnelPool
pool_events [] p = p
pool_events (e ∷ es) p = pool_events es (pool_event e p)

pool_event-IsCovered : (e : PoolEvent) (p : TunnelPool) → IsCovered p → IsCovered (pool_event e p)
unfolding pool_event lose_tunnel on_tunnel_lost reconnect_waits reconnect_tries
pool_event-IsCovered (loses k) p (r, u, h) =
    let ts = disconnected k p.tunnels in
    let p' : TunnelPool = record p { tunnels = ts } in
    let same : find_tunnel k 0 ts ≡ find_tunnel k 0 p.tunnels =
      find_tunnel-disconnected k k 0 p.tunnels in
    let covered : IsCovered (schedule_lost (find_tunnel k 0 ts) p') =
      schedule_lost-IsCovered (find_tunnel k 0 ts) p' r (disconnected-AreDistinct k p.tunnels u) (
        subst (λ o. AreCovered (scheduled o p.reconnect_tasks) 0 ts) (sym same)
          (disconnected-AreCovered k 0 p.reconnect_tasks p.tunnels u h)) in
    if_both (λ (x : Bool × TunnelPool). IsCovered x.1) (not p.running) _ _ (λ stopped. absurd cc)
      (λ _.
        if_both (λ (x : Bool × TunnelPool). IsCovered x.1)
          (not (is_connected p') && not p.down_notified) _ _ (λ _. covered) (λ _. covered))
pool_event-IsCovered (wakes i) p (r, u, h) =
    if_both (λ (x : Bool × TunnelPool). IsCovered x.1)
      (p.running && not (tunnel_up (get_elem? p.tunnels i))) _ _ (λ _. (r, u, h))
      (λ over. (
        r,
        u,
        others_from i i 0 p.reconnect_tasks p.tunnels (omega arith) (ground (arith, over, r)) h,
      ))
pool_event-IsCovered (tries i delay ok) p (r, u, h) =
    if_both (λ (x : Option ℕ × TunnelPool). IsCovered x.1) (not p.running) _ _
      (λ stopped. absurd cc)
      (λ _.
        if_both (λ (x : Option ℕ × TunnelPool). IsCovered x.1) ok _ _
          (λ _. (
            r,
            connected_at-AreDistinct i p.tunnels u,
            others_from i i 0 p.reconnect_tasks (connected_at i p.tunnels) (omega arith)
                (tunnel_up-connected_at i p.tunnels)
                (connected_at-AreCovered i 0 p.reconnect_tasks p.tunnels h),
          ))
          (λ _. (r, u, h)))

-- A running pool whose tunnels have different indices: whatever tunnels are lost and whatever the
-- reconnect tasks do, each tunnel is up or a task goes on reconnecting it.
pub pool_events-IsCovered :
    (es : List PoolEvent) (p : TunnelPool) → IsCovered p → IsCovered (pool_events es p)
pool_events-IsCovered [] p h = h
pool_events-IsCovered (e ∷ es) p h =
    pool_events-IsCovered es (pool_event e p) (pool_event-IsCovered e p h)
