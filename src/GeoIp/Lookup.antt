-- ===== src/GeoIp/Lookup.antt =====
-- What `_IntervalSet.contains` of client/core/geoip.py answers in terms of the CIDR texts, and what
-- `load_china_ip_list` adds.
use vpnself.Prelude.{
  ℕ, ◌≡◌, refl, sym, ◌∙◌, inl, inr, Bool, true, false, none, some, List, [], ◌∷◌, arith, All, any,
  Text, Option-cases,
}
use vpnself.Net.{Library, Network, Address, v4, v6, int_of, ip_in_network, in_range}
use vpnself.GeoIp.{
  IntervalSet, Interval, parse_cidrs, rebuild, rebuild_intervals, contains, contains_int,
}
use vpnself.GeoIp.Merge.{hits, IsInterval, rebuild_intervals_lem}
use vpnself.GeoIp.Search.{contains_int-hits}

-- Sorting, merging and binary search answer as a scan over the given intervals does.
pub contains_int-rebuild_intervals :
    (ip : ℕ) (ivs : List Interval)
    → All IsInterval ivs
    → contains_int (rebuild_intervals ivs) ip ≡ hits ip ivs
contains_int-rebuild_intervals ip ivs v =
    let (ps, e, a, h) = rebuild_intervals_lem ip ivs v in rw e (contains_int-hits ip ps a ∙ h)

module _ (py : Library) where
  -- The integer of an address lies in the network that a CIDR text stands for.
  abbrev pub covers : ℕ → Text → Bool
  covers ip c = elim (py.ip_network c) [ none ↦ false | some n ↦ in_range ip n ]

  -- Some CIDR of the list covers the address of the text.
  abbrev pub covered : List Text → Text → Bool
  covered cidrs ip_str = elim (py.ip_address ip_str) [
    | none ↦ false
    | some a ↦ any (covers (int_of a)) cidrs
  ]

  covers_lem :
      (ip : ℕ) (c : Text) (n : Network) → py.ip_network c ≡ some n → covers ip c ≡ in_range ip n
  covers_lem ip c n e = ground arith

  pub covered_lem :
      (cidrs : List Text) (ip_str : Text) (a : Address)
      → py.ip_address ip_str ≡ some a
      → covered cidrs ip_str ≡ any (covers (int_of a)) cidrs
  covered_lem cidrs ip_str a e = ground arith

  contains_lem :
      (set : IntervalSet) (ip_str : Text) (a : Address)
      → py.ip_address ip_str ≡ some a
      → contains py set ip_str ≡ contains_int set (int_of a)
  unfolding contains
  contains_lem set ip_str a e = ground arith

  contains_no_address :
      (set : IntervalSet) (cidrs : List Text) (ip_str : Text)
      → py.ip_address ip_str ≡ none
      → contains py set ip_str ≡ covered cidrs ip_str
  unfolding contains
  contains_no_address set cidrs ip_str e = ground arith

  ip_in_network_v4 :
      (ip_str c : Text) (a : ℕ) (n : Network)
      → py.ip_address ip_str ≡ some (v4 a)
      → py.ip_network c ≡ some n
      → n.is_v4 ≡ true
      → ip_in_network py ip_str c ≡ covers a c
  unfolding ip_in_network
  ip_in_network_v4 ip_str c a n e en ev = ground arith

  ip_in_network_v6 :
      (ip_str c : Text) (a : ℕ) (n : Network)
      → py.ip_address ip_str ≡ some (v6 a)
      → py.ip_network c ≡ some n
      → n.is_v4 ≡ true
      → ip_in_network py ip_str c ≡ false
  unfolding ip_in_network
  ip_in_network_v6 ip_str c a n e en ev = ground arith

  parse_cidrs-covers :
      (ip : ℕ) (cidrs : List Text) (ivs : List Interval)
      → parse_cidrs py cidrs ≡ some ivs
      → All IsInterval ivs × (hits ip ivs ≡ any (covers ip) cidrs)
  unfolding parse_cidrs
  parse_cidrs-covers ip [] [] h = (tt, refl)
  parse_cidrs-covers ip [] (iv ∷ ivs) h = cc
  parse_cidrs-covers ip (c ∷ cs) ivs h = elim (Option-cases (py.ip_network c)) [
    | inl bad ↦ ground arith
    | inr (n, e) ↦ elim (Option-cases (parse_cidrs py cs)) [
      | inl bad ↦ ground arith
      | inr (rest, e') ↦
          let (v, same) = parse_cidrs-covers ip cs rest e' in
          let whole : (n.first, n.last) ∷ rest ≡ ivs = ground arith in
          let head : covers ip c ≡ in_range ip n = covers_lem ip c n e in
          rw (← whole) ((py.network_ordered c n e, v), rw (same, head) refl)
    ]
  ]

  -- A set that is built from CIDR texts contains exactly the addresses that one of them covers.
  pub contains-rebuild :
      (cidrs : List Text) (set : IntervalSet) (ip_str : Text)
      → rebuild py cidrs ≡ some set
      → contains py set ip_str ≡ covered cidrs ip_str
  unfolding rebuild contains
  contains-rebuild cidrs set ip_str h = elim (Option-cases (parse_cidrs py cidrs)) [
    | inl bad ↦ ground arith
    | inr (ivs, e) ↦
        let built : rebuild_intervals ivs ≡ set = ground arith in
        elim (Option-cases (py.ip_address ip_str)) [
          | inl no_address ↦ contains_no_address set cidrs ip_str no_address
          | inr (a, parsed) ↦
              let (v, same) = parse_cidrs-covers (int_of a) cidrs ivs e in
              contains_lem set ip_str a parsed
              ∙ rw (← built) (contains_int-rebuild_intervals (int_of a) ivs v)
              ∙ same
              ∙ sym (covered_lem cidrs ip_str a parsed)
        ]
  ]

  -- Every text of the list is an IPv4 network.
  abbrev pub IsV4List : List Text → Type 0
  IsV4List = All (λ c. (n : Network) × (py.ip_network c ≡ some n) × (n.is_v4 ≡ true))

  scan_v4 :
      (ip_str : Text) (a : ℕ) (cidrs : List Text)
      → IsV4List cidrs
      → py.ip_address ip_str ≡ some (v4 a)
      → any (λ c. ip_in_network py ip_str c) cidrs ≡ any (covers a) cidrs
  unfolding ip_in_network
  scan_v4 ip_str a [] h e = refl
  scan_v4 ip_str a (c ∷ cs) h e =
      let (n, en, ev) = h.0 in
      rw (ip_in_network_v4 ip_str c a n e en ev, scan_v4 ip_str a cs h.1 e) refl

  scan_v6 :
      (ip_str : Text) (a : ℕ) (cidrs : List Text)
      → IsV4List cidrs
      → py.ip_address ip_str ≡ some (v6 a)
      → any (λ c. ip_in_network py ip_str c) cidrs ≡ false
  unfolding ip_in_network
  scan_v6 ip_str a [] h e = refl
  scan_v6 ip_str a (c ∷ cs) h e =
      let (n, en, ev) = h.0 in
      rw (ip_in_network_v6 ip_str c a n e en ev) (scan_v6 ip_str a cs h.1 e)

  -- For an IPv4 address and a list of IPv4 networks the sorted, merged intervals with their binary
  -- search answer as the scan does that tests the address against each network in turn.
  pub contains-scan :
      (cidrs : List Text) (set : IntervalSet) (ip_str : Text) (a : ℕ)
      → IsV4List cidrs
      → rebuild py cidrs ≡ some set
      → py.ip_address ip_str ≡ some (v4 a)
      → contains py set ip_str ≡ any (λ c. ip_in_network py ip_str c) cidrs
  contains-scan cidrs set ip_str a h e ea =
      contains-rebuild cidrs set ip_str e
      ∙ covered_lem cidrs ip_str (v4 a) ea
      ∙ sym (scan_v4 ip_str a cidrs h ea)

  -- The set ignores the version of the address: an IPv6 address whose integer lies in one of the
  -- IPv4 networks is contained, though it is in none of them.
  pub contains_v6 :
      (cidrs : List Text) (set : IntervalSet) (ip_str : Text) (a : ℕ)
      → IsV4List cidrs
      → rebuild py cidrs ≡ some set
      → py.ip_address ip_str ≡ some (v6 a)
      → any (covers a) cidrs ≡ true
      → (contains py set ip_str ≡ true) × (any (λ c. ip_in_network py ip_str c) cidrs ≡ false)
  contains_v6 cidrs set ip_str a h e ea hit_one = (
    contains-rebuild cidrs set ip_str e ∙ covered_lem cidrs ip_str (v6 a) ea ∙ hit_one,
    scan_v6 ip_str a cidrs h ea,
  )
