-- ===== src/SystemProxy/Tests.antt =====
-- The theorem about the system proxy at a concrete registry.
use vpnself.Prelude.{◌≡◌, refl, none, [], ◌∷◌, codes, text_eq}
use vpnself.Prelude.Dict.{get}
use vpnself.SystemProxy.{
  WindowsSystemProxy, proxy_enable, proxy_server, reg_dword, enable_all, restore,
}
use vpnself.SystemProxy.Restoring.{restore-enable_all}

-- The proxy is off, and no server is set.
abbrev untouched : WindowsSystemProxy
untouched = record {
  original_values = none;
  registry = (proxy_enable, reg_dword 0) ∷ (codes "AutoDetect", reg_dword 1) ∷ [];
}

restore-enable_all_example :
    (get proxy_server (restore (enable_all (codes "8080" ∷ codes "8081" ∷ []) untouched)).registry
      ≡ get proxy_server untouched.registry)
    × ((restore (enable_all (codes "8080" ∷ codes "8081" ∷ []) untouched)).original_values ≡ none)
restore-enable_all_example =
    restore-enable_all (codes "8080") (codes "8081" ∷ []) untouched proxy_server refl
