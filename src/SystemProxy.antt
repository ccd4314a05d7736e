-- ===== src/SystemProxy.antt =====
-- client/core/system_proxy.py. The values of the registry key are a dict; the calls of `winreg` read and
-- write it, and a value that is missing is the FileNotFoundError. A key that cannot be opened is not
-- modelled, nor is the notice to Windows.
pub mod Restoring
mod Tests
use vpnself.Prelude.{
  ℕ, Option, none, some, List, [], ◌∷◌, ◌++◌, Text, codes, text_eq, text_beq, if◌then◌else◌,
}
use vpnself.Prelude.Dict.{Dict, get, put, remove}

-- A value with its type: a number (REG_DWORD), a text (REG_SZ), or another one.
pub data Value : Type 0 where
  reg_dword : ℕ → Value
  reg_sz : Text → Value
  other : ℕ → List ℕ → Value

-- `_original_values`, and the values of the key.
pub record WindowsSystemProxy : Type 0 where
  pub original_values : Option (Dict Text (Option Value))
  pub registry : Dict Text Value

abbrev pub proxy_enable : Text
proxy_enable = codes "ProxyEnable"

abbrev pub proxy_server : Text
proxy_server = codes "ProxyServer"

-- The loop of `enable` over the two names, where no values are kept yet.
abbrev pub kept_values :
    Option (Dict Text (Option Value)) → Dict Text Value → Dict Text (Option Value)
kept_values (some values) registry = values
kept_values none registry =
    (proxy_enable, get proxy_enable registry) ∷ (proxy_server, get proxy_server registry) ∷ []

-- `f"http=127.0.0.1:{port};https=127.0.0.1:{port}"`, on the port as a text.
abbrev pub server_text : Text → Text
server_text port = codes "http=127.0.0.1:" ++ (port ++ (codes ";https=127.0.0.1:" ++ port))

unfoldable pub enable : Text → WindowsSystemProxy → WindowsSystemProxy
enable port s = record {
  original_values = some (kept_values s.original_values s.registry);
  registry =
      put proxy_server (reg_sz (server_text port)) (put proxy_enable (reg_dword 1) s.registry);
}

-- A round of the loop in `restore`.
abbrev pub restore_value : Text → Option Value → Dict Text Value → Dict Text Value
restore_value name none registry = remove name registry
restore_value name (some value) registry = put name value registry

abbrev pub restore_values : Dict Text (Option Value) → Dict Text Value → Dict Text Value
restore_values [] registry = registry
restore_values ((name, value) ∷ values) registry =
    restore_values values (restore_value name value registry)

abbrev pub restore_from :
    Option (Dict Text (Option Value)) → WindowsSystemProxy → WindowsSystemProxy
restore_from none s = s
restore_from (some values) s = record {
  original_values = none;
  registry = restore_values values s.registry;
}

unfoldable pub restore : WindowsSystemProxy → WindowsSystemProxy
restore s = restore_from s.original_values s

-- `enable` several times, as a restart of the proxy on another port does.
abbrev pub enable_all : List Text → WindowsSystemProxy → WindowsSystemProxy
enable_all [] s = s
enable_all (port ∷ ports) s = enable_all ports (enable port s)
