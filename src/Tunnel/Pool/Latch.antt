-- ===== src/Tunnel/Pool/Latch.antt =====
-- The latch `_down_notified` of `TunnelPool` in client/core/tunnel.py, which is to call the callbacks
-- of the pool once for each time that all tunnels are down.
use vpnself.Prelude.{
  ℕ, zero, suc, ◌+◌, ◌≡◌, refl, ◌∙◌, ap, Bool, true, false, Option, none, some, List, [], ◌∷◌,
  if◌then◌else◌, Bool-cases, arith,
}
use vpnself.Tunnel.Pool.{
  TunnelPool, PoolTunnel, is_connected, schedule_lost, find_tunnel, on_tunnel_lost, disconnected,
  lose_tunnel, lose_tunnels, begin_connect, add_tunnels, make_tunnels, finish_connect, connect,
  pool_indices,
}

abbrev count : Bool → ℕ
count b = if b then 1 else 0

schedule_lost-latch :
    (o : Option ℕ) (p : TunnelPool) → (schedule_lost o p).down_notified ≡ p.down_notified
schedule_lost-latch none p = refl
schedule_lost-latch (some i) p = refl

-- A callback sets the latch, and there is none while it is set.
on_tunnel_lost-latch :
    (i : ℕ) (p : TunnelPool)
    → count (on_tunnel_lost i p).0 + count p.down_notified
      ≡ count (on_tunnel_lost i p).1.down_notified
unfolding on_tunnel_lost
on_tunnel_lost-latch i p = ground (arith, schedule_lost-latch (find_tunnel i 0 p.tunnels) p)

lose_tunnel-latch :
    (i : ℕ) (p : TunnelPool)
    → count (lose_tunnel i p).0 + count p.down_notified ≡ count (lose_tunnel i p).1.down_notified
unfolding lose_tunnel
lose_tunnel-latch i p = on_tunnel_lost-latch i (record p { tunnels = disconnected i p.tunnels })

lose_tunnels-latch :
    (is : List ℕ) (p : TunnelPool)
    → (lose_tunnels is p).0 + count p.down_notified ≡ count (lose_tunnels is p).1.down_notified
lose_tunnels-latch [] p = omega arith
lose_tunnels-latch (i ∷ is) p =
    ground (arith, lose_tunnel-latch i p, lose_tunnels-latch is (lose_tunnel i p).1)

schedule_lost-running : (o : Option ℕ) (p : TunnelPool) → (schedule_lost o p).running ≡ p.running
schedule_lost-running none p = refl
schedule_lost-running (some i) p = refl

schedule_lost-is_connected :
    (o : Option ℕ) (p : TunnelPool) → is_connected (schedule_lost o p) ≡ is_connected p
schedule_lost-is_connected none p = refl
schedule_lost-is_connected (some i) p = refl

lose_tunnel-running : (i : ℕ) (p : TunnelPool) → (lose_tunnel i p).1.running ≡ p.running
unfolding lose_tunnel on_tunnel_lost
lose_tunnel-running i p =
    let p' : TunnelPool = record p { tunnels = disconnected i p.tunnels } in
    ground (arith, schedule_lost-running (find_tunnel i 0 p'.tunnels) p')

-- A running pool that is down behind a loss has its latch set.
lose_tunnel-down :
    (i : ℕ) (p : TunnelPool)
    → p.running ≡ true
    → is_connected (lose_tunnel i p).1 ≡ false
    → (lose_tunnel i p).1.down_notified ≡ true
unfolding lose_tunnel on_tunnel_lost
lose_tunnel-down i p running down =
    let p' : TunnelPool = record p { tunnels = disconnected i p.tunnels } in
    ground (
      arith,
      schedule_lost-is_connected (find_tunnel i 0 p'.tunnels) p',
      schedule_lost-latch (find_tunnel i 0 p'.tunnels) p',
    )

lose_tunnels-down :
    (i : ℕ) (is : List ℕ) (p : TunnelPool)
    → p.running ≡ true
    → is_connected (lose_tunnels (i ∷ is) p).1 ≡ false
    → (lose_tunnels (i ∷ is) p).1.down_notified ≡ true
lose_tunnels-down i [] p running down = lose_tunnel-down i p running down
lose_tunnels-down i (j ∷ is) p running down =
    lose_tunnels-down j is (lose_tunnel i p).1 (lose_tunnel-running i p ∙ running) down

-- A running pool whose latch is clear loses tunnels, one after the other, until all are down: its
-- callbacks are called exactly once. Where the latch is set, they are not called at all.
pub lose_tunnels-notifies :
    (i : ℕ) (is : List ℕ) (p : TunnelPool)
    → p.running ≡ true
    → is_connected (lose_tunnels (i ∷ is) p).1 ≡ false
    → (lose_tunnels (i ∷ is) p).0 ≡ (if p.down_notified then 0 else 1)
lose_tunnels-notifies i is p running down = ground (
  arith,
  lose_tunnels-latch (i ∷ is) p,
  lose_tunnels-down i is p running down,
  Bool-cases p.down_notified,
)

add_tunnels-latch : (n : ℕ) (p : TunnelPool) → (add_tunnels n p).down_notified ≡ p.down_notified
add_tunnels-latch zero p = refl
add_tunnels-latch (suc n) p = add_tunnels-latch n _

-- The first of the old tunnels that `connect` takes down calls the callbacks and sets the latch.
first_loss :
    (i : ℕ) (p : TunnelPool)
    → lose_tunnel i (begin_connect p).1
      ≡ (true, record (begin_connect p).1 { down_notified = true })
unfolding lose_tunnel on_tunnel_lost begin_connect
first_loss i p = refl

latch_stays :
    (is : List ℕ) (p : TunnelPool)
    → p.down_notified ≡ true
    → ((lose_tunnels is p).0 ≡ 0) × ((lose_tunnels is p).1.down_notified ≡ true)
latch_stays is p set =
    ground (arith, lose_tunnels-latch is p, Bool-cases (lose_tunnels is p).1.down_notified)

losses_of_connect :
    (i : ℕ) (is : List ℕ) (p : TunnelPool)
    → ((lose_tunnels (i ∷ is) (begin_connect p).1).0 ≡ 1)
      × ((lose_tunnels (i ∷ is) (begin_connect p).1).1.down_notified ≡ true)
losses_of_connect i is p = ground (
  arith,
  first_loss i p,
  latch_stays is (lose_tunnel i (begin_connect p).1).1
      (ap (λ x. x.1.down_notified) (first_loss i p)),
)

-- A second `connect` takes the tunnels of the first one down while the pool has no tunnel at all: the
-- callbacks of the pool are called in it, and they are not called again, however many of the new
-- tunnels are lost, even where every one of them was up.
pub connect-latches :
    (results : List Bool) (p : TunnelPool) (t : PoolTunnel) (ts : List PoolTunnel) (is : List ℕ)
    → p.tunnels ≡ t ∷ ts
    → ((connect results p).0 ≡ 1) × ((lose_tunnels is (connect results p).2).0 ≡ 0)
unfolding connect finish_connect make_tunnels begin_connect
connect-latches results p t ts is h =
    let old : pool_indices (begin_connect p).0 ≡ pool_indices (t ∷ ts) = begins_with in
    let losses = losses_of_connect t.pool_index (pool_indices ts) p in
    let q : TunnelPool = (lose_tunnels (pool_indices (begin_connect p).0) (begin_connect p).1).1 in
    (
      ap (λ is. (lose_tunnels is (begin_connect p).1).0) old ∙ losses.0,
      (latch_stays is (connect results p).2 (
          add_tunnels-latch q.pool_size q
          ∙ (ap (λ is. (lose_tunnels is (begin_connect p).1).1.down_notified) old ∙ losses.1))).0,
    )
  where
    begins_with : pool_indices (begin_connect p).0 ≡ pool_indices (t ∷ ts)
    begins_with = ap pool_indices h
