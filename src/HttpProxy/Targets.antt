-- ===== src/HttpProxy/Targets.antt =====
-- The targets that client/core/http_proxy.py reads out of a request.
use vpnself.Prelude.{
  ℕ, ◌≤◌, ◌≡◌, ◌≢◌, ◌∙◌, refl, ap, false, Option, none, some, [], ◌∷◌, ◌++◌, inl, inr, any, ◌==◌,
  ==_iff, Text, text_beq, codes, ℤ, pos, negsuc, arith, Option-cases, >>=-eq-some, if_both,
}
use vpnself.HttpProxy.{
  TextLibrary, rsplit, split_once, after_scheme, checked, host_port, host_path, connect_target,
  http_target, target_of, Request,
}

-- The text has no `c`.
abbrev pub Lacks : ℕ → Text → Type 0
Lacks c text = any (λ x. x == c) text ≡ false

rsplit_lacking : (c : ℕ) (text : Text) → Lacks c text → rsplit c text ≡ none
unfolding rsplit
rsplit_lacking c [] h = refl
rsplit_lacking c (x ∷ xs) h = ground (arith, rsplit_lacking c xs)

rsplit-append : (c : ℕ) (xs ys : Text) → Lacks c ys → rsplit c (xs ++ (c ∷ ys)) ≡ some (xs, ys)
unfolding rsplit
rsplit-append c [] ys h = ground (arith, rsplit_lacking c ys h, ==_iff c c)
rsplit-append c (x ∷ xs) ys h = ground (arith, rsplit-append c xs ys h)

split_once-append :
    (c : ℕ) (xs ys : Text) → Lacks c xs → split_once c (xs ++ (c ∷ ys)) ≡ some (xs, ys)
unfolding split_once
split_once-append c [] ys h = ground (arith, ==_iff c c)
split_once-append c (x ∷ xs) ys h = ground (arith, split_once-append c xs ys)

after_scheme-append :
    (scheme rest : Text)
    → Lacks b':' scheme
    → after_scheme (scheme ++ (codes "://" ++ rest)) ≡ some rest
unfolding after_scheme
after_scheme-append [] rest h = refl
after_scheme-append (x ∷ xs) rest h = ground (arith, after_scheme-append xs rest)

checked_passes :
    (host : Text) (n : ℕ) → host ≢ [] → 1 ≤ n → n ≤ 65535 → checked host (pos n) ≡ some (host, n)
checked_passes [] n full low high = absurd (full refl)
checked_passes (c ∷ cs) n full low high = ground arith

checked_bounds :
    (host h : Text) (port : ℤ) (n : ℕ)
    → checked host port ≡ some (h, n)
    → (h ≢ []) × (1 ≤ n) × (n ≤ 65535)
checked_bounds [] h port n q = absurd cc
checked_bounds (c ∷ cs) h (negsuc m) n q = absurd cc
checked_bounds (c ∷ cs) h (pos m) n q = ground arith

module _ (py : TextLibrary) where
  host_port-append :
      (host port : Text) (n default : ℕ)
      → Lacks b':' port
      → py.int port ≡ some (pos n)
      → host_port py (host ++ (b':' ∷ port)) default ≡ (host, pos n)
  host_port-append host port n default h k = ground (arith, rsplit-append b':' host port h, k)

  -- A CONNECT target `host:port` gives back its host and its port, for every host that is not empty
  -- and every port from 1 to 65535.
  pub connect_target-roundtrip :
      (host port : Text) (n : ℕ)
      → host ≢ []
      → 1 ≤ n
      → n ≤ 65535
      → Lacks b':' port
      → py.int port ≡ some (pos n)
      → connect_target py (host ++ (b':' ∷ port)) ≡ some (host, n)
  unfolding connect_target
  connect_target-roundtrip host port n full low high digits k =
      ap (λ (hp : Text × ℤ). checked hp.0 hp.1) (host_port-append host port n 443 digits k)
      ∙ checked_passes host n full low high

  -- A URL `scheme://host:port/path` gives back its host, its port and its path, which starts with a
  -- slash again.
  pub http_target-roundtrip :
      (scheme host port path : Text) (n : ℕ)
      → host ≢ []
      → 1 ≤ n
      → n ≤ 65535
      → Lacks b':' scheme
      → Lacks b':' port
      → Lacks b'/' (host ++ (b':' ∷ port))
      → py.int port ≡ some (pos n)
      → http_target py (scheme ++ (codes "://" ++ ((host ++ (b':' ∷ port)) ++ (b'/' ∷ path))))
        ≡ some ((host, n), b'/' ∷ path)
  unfolding http_target
  http_target-roundtrip scheme host port path n full low high s digits slash k = ground (
    arith,
    after_scheme-append scheme ((host ++ (b':' ∷ port)) ++ (b'/' ∷ path)) s,
    split_once-append b'/' (host ++ (b':' ∷ port)) path slash,
    host_port-append host port n 80 digits k,
    checked_passes host n full low high,
  )

  http_target_bounds :
      (target h path : Text) (n : ℕ)
      → http_target py target ≡ some ((h, n), path)
      → (h ≢ []) × (1 ≤ n) × (n ≤ 65535)
  unfolding http_target
  http_target_bounds target h path n q =
      let (rest, found, q1) = >>=-eq-some (after_scheme target) _ _ q in
      let hp = host_path py rest in
      let ht = host_port py hp.0 80 in
      let (r, c, q2) = >>=-eq-some (checked ht.0 ht.1) _ _ q1 in
      let same : r ≡ (h, n) = cc in
      checked_bounds ht.0 h ht.1 n (c ∙ ap (λ (x : Text × ℕ). some x) same)

  some_of_http :
      (target h : Text) (n : ℕ)
      → (elim (http_target py target) [ none ↦ none | some (hp, path) ↦ some hp ]) ≡ some (h, n)
      → (h ≢ []) × (1 ≤ n) × (n ≤ 65535)
  some_of_http target h n q = elim (Option-cases (http_target py target)) [
    | inl o ↦ absurd (ground (arith, o))
    | inr (((host, port), path), o) ↦ http_target_bounds target h path n (o ∙ ground (arith, o))
  ]

  -- Whatever a request asks for, the router is only asked for a host that is not empty and a port
  -- from 1 to 65535, so that CONNECT can pack it.
  pub target_of_bounds :
      (request : Request) (host : Text) (port : ℕ)
      → target_of py request ≡ some (host, port)
      → (host ≢ []) × (1 ≤ port) × (port ≤ 65535)
  unfolding connect_target
  target_of_bounds request host port =
      if_both
        (λ (x : Option (Text × ℕ)).
          x ≡ some (host, port) → (host ≢ []) × (1 ≤ port) × (port ≤ 65535))
        (text_beq request.method (codes "CONNECT")) _ _
        (λ _ q.
          checked_bounds (host_port py request.target 443).0 host
            (host_port py request.target 443).1 port q)
        (λ _ q. some_of_http request.target host port q)
