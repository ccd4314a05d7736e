-- ===== src/Tunnel/Pool/Session.antt =====
-- A session of `TunnelPool` in client/core/tunnel.py, from `connect` on.
use vpnself.Prelude.{
  ℕ, zero, suc, ◌+◌, ◌≤◌, ◌<◌, ◌≡◌, refl, sym, ◌∙◌, ap, Bool, true, false, none, List, [], ◌∷◌,
  ◌++◌, arith, if_both, ==_iff, length, length-append, All,
}
use mathlib.Core.Path.{subst}
use vpnself.Tunnel.Pool.{
  TunnelPool, PoolTunnel, find_tunnel, on_tunnel_lost, lose_tunnel, lose_tunnels, set_results,
  finish_connect, begin_connect, add_tunnels, make_tunnels, connect, pool_indices,
}
use vpnself.Tunnel.Pool.Repair.{AreDistinct}
use vpnself.Tunnel.Pool.Covered.{
  IsCovered, count_results-AreCovered, PoolEvent, pool_events, pool_events-IsCovered,
}

-- A pool that is running without tunnels, as it is in `connect` between its two batches.
abbrev IsEmpty : ℕ → TunnelPool → Type 0
IsEmpty size p = (p.running ≡ true) × (p.tunnels ≡ []) × (p.pool_size ≡ size)

lose_tunnel-IsEmpty :
    (i size : ℕ) (p : TunnelPool) → IsEmpty size p → IsEmpty size (lose_tunnel i p).1
unfolding lose_tunnel on_tunnel_lost
lose_tunnel-IsEmpty i size p (r, e, s) = ground (arith, r, e, s)

lose_tunnels-IsEmpty :
    (is : List ℕ) (size : ℕ) (p : TunnelPool) → IsEmpty size p → IsEmpty size (lose_tunnels is p).1
lose_tunnels-IsEmpty [] size p h = h
lose_tunnels-IsEmpty (i ∷ is) size p h =
    lose_tunnels-IsEmpty is size (lose_tunnel i p).1 (lose_tunnel-IsEmpty i size p h)

-- All indices are at most the last one given.
abbrev AreBelow : ℕ → List PoolTunnel → Type 0
AreBelow pid ts = All (λ t. t.pool_index ≤ pid) ts

find_tunnel-append :
    (k i : ℕ) (ts : List PoolTunnel) (t : PoolTunnel)
    → find_tunnel k i ts ≡ none
    → k < t.pool_index
    → find_tunnel k i (ts ++ (t ∷ [])) ≡ none
find_tunnel-append k i [] t h less = ground (arith, ==_iff t.pool_index k)
find_tunnel-append k i (u ∷ ts) t h less = ground (arith, find_tunnel-append k (i + 1) ts t)

append-AreDistinct :
    (ts : List PoolTunnel) (t : PoolTunnel) (pid : ℕ)
    → AreDistinct ts
    → AreBelow pid ts
    → pid < t.pool_index
    → AreDistinct (ts ++ (t ∷ []))
append-AreDistinct [] t pid u b less = (refl, tt)
append-AreDistinct (s ∷ ts) t pid u b less = (
  find_tunnel-append s.pool_index 0 ts t u.0 (omega (arith, b.0)),
  append-AreDistinct ts t pid u.1 b.1 less,
)

append-AreBelow :
    (ts : List PoolTunnel) (pid : ℕ)
    → AreBelow pid ts
    → AreBelow (pid + 1) (ts ++ (record { pool_index = pid + 1; connected = false } ∷ []))
append-AreBelow [] pid b = (omega arith, tt)
append-AreBelow (t ∷ ts) pid b = (omega (arith, b.0), append-AreBelow ts pid b.1)

add_tunnels-AreDistinct :
    (n : ℕ) (p : TunnelPool)
    → AreDistinct p.tunnels
    → AreBelow p.pid p.tunnels
    → AreDistinct (add_tunnels n p).tunnels
      × (length (add_tunnels n p).tunnels ≡ length p.tunnels + n)
      × ((add_tunnels n p).running ≡ p.running)
add_tunnels-AreDistinct zero p u b = (u, omega arith, refl)
add_tunnels-AreDistinct (suc n) p u b =
    let t : PoolTunnel = record { pool_index = p.pid + 1; connected = false } in
    let p' : TunnelPool = record p { pid = p.pid + 1; tunnels = p.tunnels ++ (t ∷ []) } in
    let rest =
      add_tunnels-AreDistinct n p' (append-AreDistinct p.tunnels t p.pid u b (omega arith))
        (append-AreBelow p.tunnels p.pid b) in
    (rest.0, omega (arith, rest.1, length-append p.tunnels (t ∷ [])), rest.2)

find_tunnel-set_results :
    (k i : ℕ) (rs : List Bool) (ts : List PoolTunnel)
    → find_tunnel k i (set_results rs ts) ≡ find_tunnel k i ts
find_tunnel-set_results k i [] [] = refl
find_tunnel-set_results k i (r ∷ rs) [] = refl
find_tunnel-set_results k i [] (t ∷ ts) = refl
find_tunnel-set_results k i (r ∷ rs) (t ∷ ts) =
    ground (arith, find_tunnel-set_results k (i + 1) rs ts)

set_results-AreDistinct :
    (rs : List Bool) (ts : List PoolTunnel) → AreDistinct ts → AreDistinct (set_results rs ts)
set_results-AreDistinct [] [] u = tt
set_results-AreDistinct (r ∷ rs) [] u = tt
set_results-AreDistinct [] (t ∷ ts) u = u
set_results-AreDistinct (r ∷ rs) (t ∷ ts) u = (
  if_both (λ (x : PoolTunnel). find_tunnel x.pool_index 0 (set_results rs ts) ≡ none) r
      (record t { connected = true }) t (λ _. find_tunnel-set_results t.pool_index 0 rs ts ∙ u.0)
      (λ _. find_tunnel-set_results t.pool_index 0 rs ts ∙ u.0),
  set_results-AreDistinct rs ts u.1,
)

finish_connect-IsCovered :
    (results : List Bool) (size : ℕ) (p : TunnelPool)
    → IsEmpty size p
    → length results ≡ size
    → IsCovered (finish_connect results (make_tunnels p)).1
unfolding finish_connect make_tunnels
finish_connect-IsCovered results size p (r, e, s) n =
    let made =
      add_tunnels-AreDistinct p.pool_size p (subst AreDistinct (sym e) tt)
        (subst (AreBelow p.pid) (sym e) tt) in
    let q : TunnelPool = add_tunnels p.pool_size p in
    (
      made.2 ∙ r,
      set_results-AreDistinct results q.tunnels made.0,
      count_results-AreCovered 0 results q.reconnect_tasks q.tunnels
          (omega (arith, n, s, made.1, ap (λ (ts : List PoolTunnel). length ts) e)),
    )

-- After `connect`, whatever state the pool was in and whichever tunnels came up, and through all
-- losses and reconnects that follow: each tunnel is up or a task goes on reconnecting it.
pub connect-IsCovered :
    (results : List Bool) (p : TunnelPool) (es : List PoolEvent)
    → length results ≡ p.pool_size
    → IsCovered (pool_events es (connect results p).2)
unfolding connect begin_connect
connect-IsCovered results p es n = pool_events-IsCovered es (connect results p).2 (
    finish_connect-IsCovered results p.pool_size
      (lose_tunnels (pool_indices (begin_connect p).0) (begin_connect p).1).1
      (lose_tunnels-IsEmpty (pool_indices (begin_connect p).0) p.pool_size (begin_connect p).1
        (refl, refl, refl))
      n)
