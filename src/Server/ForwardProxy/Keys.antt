-- ===== src/Server/ForwardProxy/Keys.antt =====
-- The keys of the relays in server/forward_proxy.py, and what `close_all` leaves.
use vpnself.Prelude.{
  ℕ, ◌^◌, ◌<◌, ◌≡◌, refl, ap, ◌∙◌, none, some, List, [], ◌∷◌, map, arith, nat_eq, Option, ==_iff,
}
use vpnself.Prelude.Dict.{Dict, get, remove, keys, IsUnique}
use vpnself.Server.Relay.{ForwardRelay, close_relay}
use vpnself.Server.ForwardProxy.{
  ForwardProxy, make_key, split_key, remove_relay, close_keys, close_all,
}

-- A key gives back the two ids that it was made of, for every 32-bit stream id, and every number
-- is the key of the two parts that it splits into.
pub split_key-make_key :
    (client_id stream_id key : ℕ)
    → stream_id < 2 ^ 32
    → (split_key (make_key client_id stream_id) ≡ (client_id, stream_id))
      × (make_key (split_key key).0 (split_key key).1 ≡ key)
unfolding split_key make_key
split_key-make_key client_id stream_id key h = (ground arith, omega arith)

make_key-split_key : (key : ℕ) → make_key (split_key key).0 (split_key key).1 ≡ key
unfolding split_key make_key
make_key-split_key key = omega arith

remove_absent : (k : ℕ) (d : Dict ℕ ForwardRelay) → get k d ≡ none → remove k d ≡ d
remove_absent k [] h = refl
remove_absent k ((j, r) ∷ d) h = ground (arith, remove_absent k d)

get_first : (k : ℕ) (r : ForwardRelay) (d : Dict ℕ ForwardRelay) → get k ((k, r) ∷ d) ≡ some r
get_first k r d = ground (arith, (==_iff k k).1 refl)

remove_head :
    (k : ℕ) (r : ForwardRelay) (d : Dict ℕ ForwardRelay)
    → get k d ≡ none
    → remove k ((k, r) ∷ d) ≡ d
remove_head k r d h = ground (arith, (==_iff k k).1 refl, remove_absent k d h)

remove_relay-some :
    (c s : ℕ) (r : ForwardRelay) (p : ForwardProxy)
    → get (make_key c s) p.active_relays ≡ some r
    → remove_relay c s p
      ≡ (some (close_relay r), record p { active_relays = remove (make_key c s) p.active_relays })
unfolding remove_relay
remove_relay-some c s r p h = ground (arith, h)

-- The first relay of the table, by its key.
remove_first :
    (k : ℕ) (r : ForwardRelay) (d : Dict ℕ ForwardRelay) (p : ForwardProxy)
    → get k d ≡ none
    → remove_relay (split_key k).0 (split_key k).1 (record p { active_relays = (k, r) ∷ d })
      ≡ (some (close_relay r), record p { active_relays = d })
remove_first k r d p h =
    let key = make_key (split_key k).0 (split_key k).1 in
    let same : key ≡ k = make_key-split_key k in
    remove_relay-some (split_key k).0 (split_key k).1 r (record p { active_relays = (k, r) ∷ d })
      (ap (λ (j : ℕ). get j ((k, r) ∷ d)) same ∙ get_first k r d)
    ∙ ap (λ (d' : Dict ℕ ForwardRelay). (some (close_relay r), record p { active_relays = d' }))
        (ap (λ (j : ℕ). remove j ((k, r) ∷ d)) same ∙ remove_head k r d h)

close_keys_cons :
    (k : ℕ) (ks : List ℕ) (c : ForwardRelay) (p p' : ForwardProxy)
    → remove_relay (split_key k).0 (split_key k).1 p ≡ (some c, p')
    → close_keys (k ∷ ks) p ≡ (c ∷ (close_keys ks p').0, (close_keys ks p').1)
close_keys_cons k ks c p p' h = rw (h, ap (λ (x : Option ForwardRelay × ForwardProxy). x.1) h) refl

close_keys_lem :
    (d : Dict ℕ ForwardRelay) (p : ForwardProxy)
    → IsUnique d
    → close_keys (keys d) (record p { active_relays = d })
      ≡ (map (λ kv. close_relay kv.1) d, record p { active_relays = [] })
close_keys_lem [] p u = refl
close_keys_lem ((k, r) ∷ d) p u =
    close_keys_cons k (keys d) (close_relay r) (record p { active_relays = (k, r) ∷ d })
      (record p { active_relays = d }) (remove_first k r d p u.0)
    ∙ ap (λ (x : List ForwardRelay × ForwardProxy). (close_relay r ∷ x.0, x.1))
        (close_keys_lem d p u.1)

-- `close_all` closes every relay, each once, and leaves none in the table.
pub close_all_lem :
    (p : ForwardProxy)
    → IsUnique p.active_relays
    → close_all p ≡ (map (λ kv. close_relay kv.1) p.active_relays, record p { active_relays = [] })
unfolding close_all
close_all_lem p u = close_keys_lem p.active_relays p u
