-- ===== src/GeoIp/Tests.antt =====
-- Runs of the address sets, and the theorems about them at concrete inputs.
use vpnself.Prelude.{◌≡◌, refl, true, false, some, List, [], ◌∷◌, any, Text, codes}
use vpnself.Prelude.Sort.{sort_by}
use vpnself.Net.{ip_in_network}
use vpnself.Net.Sample.{sample}
use vpnself.GeoIp.{
  IntervalSet, China, ListFile, lines, merge_step, rebuild_intervals, bisect_right, bisect_from,
  contains_int, rebuild, parse_cidrs, contains,
}
use vpnself.GeoIp.Lookup.{contains-scan, IsV4List}

abbrev merged : IntervalSet
merged = record { starts = 1 ∷ 20 ∷ []; ends = 12 ∷ 30 ∷ [] }

-- Overlapping and adjacent intervals are merged.
merge_example : rebuild_intervals ((20, 30) ∷ (6, 12) ∷ (1, 5) ∷ (2, 3) ∷ []) ≡ merged
unfolding rebuild_intervals sort_by merge_step
merge_example = refl

contains_inside : contains_int merged 25 ≡ true
unfolding contains_int bisect_right bisect_from
contains_inside = refl

contains_between : contains_int merged 15 ≡ false
unfolding contains_int bisect_right bisect_from
contains_between = refl

abbrev cidrs : List Text
cidrs = codes "10.0.0.0/8" ∷ codes "1.2.3.0/24" ∷ []

abbrev cidr_set : IntervalSet
cidr_set = record { starts = 16909056 ∷ 167772160 ∷ []; ends = 16909311 ∷ 184549375 ∷ [] }

cidrs_built : rebuild sample cidrs ≡ some cidr_set
unfolding rebuild parse_cidrs rebuild_intervals sort_by merge_step
cidrs_built = refl

cidrs_v4 : IsV4List sample cidrs
cidrs_v4 = (
  (record { is_v4 = true; first = 167772160; last = 184549375 }, refl, refl),
  ((record { is_v4 = true; first = 16909056; last = 16909311 }, refl, refl), tt),
)

contains-scan_example :
    contains sample cidr_set (codes "1.2.3.4")
    ≡ any (λ c. ip_in_network sample (codes "1.2.3.4") c) cidrs
contains-scan_example =
    contains-scan sample cidrs cidr_set (codes "1.2.3.4") 16909060 cidrs_v4 cidrs_built refl

abbrev loaded : China
loaded = record { ranges = cidrs; set = cidr_set }

abbrev list_file : ListFile
list_file = lines (codes "# c" ∷ codes "1.2.3.0/24" ∷ codes "x" ∷ [])
