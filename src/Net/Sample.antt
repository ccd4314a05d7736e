-- ===== src/Net/Sample.antt =====
-- A small instance of the library interface, on a handful of texts, for tests.
use vpnself.Prelude.{
  ℕ, ◌≤◌, ◌≡◌, true, Option, none, some, if◌then◌else◌, Text, text_beq, codes, arith, map, leb,
  ◌&&◌, ◌+◌,
}
use vpnself.Net.{Address, v4, v6, Network, Library}

abbrev sample_address : Text → Option Address
sample_address t =
    if text_beq t (codes "1.2.3.4")
    then some (v4 16909060)
    else if text_beq t (codes "10.0.0.9")
    then some (v4 167772169)
    else if text_beq t (codes "::102:304")
    then some (v6 16909060)
    else none

abbrev sample_network : Text → Option Network
sample_network t =
    if text_beq t (codes "1.2.3.0/24")
    then some (record { is_v4 = true; first = 16909056; last = 16909311 })
    else if text_beq t (codes "10.0.0.0/8")
    then some (record { is_v4 = true; first = 167772160; last = 184549375 })
    else none

abbrev lower_code : ℕ → ℕ
lower_code c = if leb b'A' c && leb c b'Z' then c + 32 else c

pub sample_ordered : (t : Text) (n : Network) → sample_network t ≡ some n → n.first ≤ n.last
sample_ordered t n h = ground arith

abbrev pub sample : Library
sample = record {
  ip_address = sample_address;
  ip_network = sample_network;
  lower = map lower_code;
  strip = λ t. t;
  network_ordered = sample_ordered;
}
