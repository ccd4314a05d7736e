-- ===== src/SystemProxy/Restoring.antt =====
-- What `restore` of client/core/system_proxy.py brings back.
use vpnself.Prelude.{
  ◌≡◌, ◌∙◌, refl, ap, false, Option, none, some, List, [], ◌∷◌, Text, text_eq, text_beq,
  text_beq_iff, if◌then◌else◌, Bool-cases, inl, inr,
}
use vpnself.Prelude.Dict.{Dict, get, put, get-put, get-remove}
use vpnself.SystemProxy.{
  Value, WindowsSystemProxy, proxy_enable, proxy_server, kept_values, reg_dword, reg_sz,
  server_text, enable, restore_value, restore_values, restore, enable_all,
}

get-restore_value :
    (j name : Text) (value : Option Value) (registry : Dict Text Value)
    → get j (restore_value name value registry)
      ≡ (if text_beq name j then value else get j registry)
get-restore_value j name none registry = get-remove j name registry
get-restore_value j name (some value) registry = get-put j name value registry

-- Two registries that differ in the two values at most.
Agree : Dict Text Value → Dict Text Value → Type 0
Agree a b =
    (j : Text)
    → text_beq proxy_enable j ≡ false
    → text_beq proxy_server j ≡ false
    → get j a ≡ get j b

enable-Agree : (port : Text) (s : WindowsSystemProxy) → Agree (enable port s).registry s.registry
unfolding enable Agree
enable-Agree port s j e p =
    get-put j proxy_server (reg_sz (server_text port)) (put proxy_enable (reg_dword 1) s.registry)
    ∙ ap
        (λ b.
          if b
          then some (reg_sz (server_text port))
          else get j (put proxy_enable (reg_dword 1) s.registry))
        p
    ∙ get-put j proxy_enable (reg_dword 1) s.registry
    ∙ ap (λ b. if b then some (reg_dword 1) else get j s.registry) e

enable_all-Agree :
    (ports : List Text) (s : WindowsSystemProxy) → Agree (enable_all ports s).registry s.registry
unfolding Agree
enable_all-Agree [] s j e p = refl
enable_all-Agree (port ∷ ports) s j e p =
    enable_all-Agree ports (enable port s) j e p ∙ enable-Agree port s j e p

-- Later calls of `enable` keep the values of the first.
enable_all-original :
    (ports : List Text) (s : WindowsSystemProxy) (values : Dict Text (Option Value))
    → s.original_values ≡ some values
    → (enable_all ports s).original_values ≡ some values
unfolding enable
enable_all-original [] s values h = h
enable_all-original (port ∷ ports) s values h =
    enable_all-original ports (enable port s) values (ap (λ o. some (kept_values o s.registry)) h)

restored :
    (a b : Dict Text Value) (j : Text)
    → Agree a b
    → get j (restore_values (kept_values none b) a) ≡ get j b
unfolding Agree
restored a b j agree =
    get-restore_value j proxy_server (get proxy_server b)
      (restore_value proxy_enable (get proxy_enable b) a)
    ∙ elim (Bool-cases (text_beq proxy_server j)) [
      | inl p ↦
          ap
            (λ c.
              if c
              then get proxy_server b
              else get j (restore_value proxy_enable (get proxy_enable b) a))
            p
          ∙ ap (λ k. get k b) ((text_beq_iff proxy_server j).0 p)
      | inr p ↦
          ap
            (λ c.
              if c
              then get proxy_server b
              else get j (restore_value proxy_enable (get proxy_enable b) a))
            p
          ∙ get-restore_value j proxy_enable (get proxy_enable b) a
          ∙ elim (Bool-cases (text_beq proxy_enable j)) [
            | inl e ↦
                ap (λ c. if c then get proxy_enable b else get j a) e
                ∙ ap (λ k. get k b) ((text_beq_iff proxy_enable j).0 e)
            | inr e ↦ ap (λ c. if c then get proxy_enable b else get j a) e ∙ agree j e p
          ]
    ]

-- However often the proxy is enabled, on whatever ports, and where nothing else writes the registry
-- meanwhile: `restore` brings back every value that was there before the first time, and removes
-- those that were not. It keeps nothing, so that the next `enable` starts afresh.
pub restore-enable_all :
    (port : Text) (ports : List Text) (s : WindowsSystemProxy) (name : Text)
    → s.original_values ≡ none
    → let s' = restore (enable_all (port ∷ ports) s) in
      (get name s'.registry ≡ get name s.registry) × (s'.original_values ≡ none)
unfolding restore enable
restore-enable_all port ports s name h =
    let values = kept_values none s.registry in
    let kept : (enable_all (port ∷ ports) s).original_values ≡ some values =
      enable_all-original ports (enable port s) values
        (ap (λ o. some (kept_values o s.registry)) h) in
    let registry = (enable_all (port ∷ ports) s).registry in
    rw kept (restored registry s.registry name (enable_all-Agree (port ∷ ports) s), refl)
