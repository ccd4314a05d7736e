-- ===== src/HttpProxy/Tests.antt =====
-- The theorems about the HTTP proxy at concrete requests.
use vpnself.Prelude.{◌≡◌, refl, none, some, [], ◌∷◌, codes, text_beq, if◌then◌else◌, pos, arith}
use vpnself.HttpProxy.{TextLibrary, http_target}
use vpnself.HttpProxy.Targets.{http_target-roundtrip}

-- One number, and texts without spaces.
abbrev python : TextLibrary
python = record {
  int = λ t. if text_beq t (codes "8080") then some (pos 8080) else none;
  split = λ t. t ∷ [];
  strip = λ t. t;
  upper = λ t. t;
}

http_target-roundtrip_example :
    http_target python (codes "http://a.example:8080/index")
    ≡ some ((codes "a.example", 8080), codes "/index")
http_target-roundtrip_example =
    http_target-roundtrip python (codes "http") (codes "a.example") (codes "8080") (codes "index")
      8080 (λ q. cc) (omega arith) (omega arith) refl refl refl refl
