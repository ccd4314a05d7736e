-- ===== src/Settings/Merging.antt =====
-- The defaults of client/config/settings.py under the settings of the file.
use vpnself.Prelude.{
  ◌≡◌, ◌∙◌, refl, sym, ap, Option, none, some, [], ◌∷◌, Text, text_eq, text_beq, text_beq_iff,
  arith, Bool-cases, inl, inr,
}
use vpnself.Prelude.Dict.{Dict, get, put, get-put, IsUnique}
use vpnself.Settings.{merge}

-- The value of the second where the first has none.
abbrev pub or_value {ℓ} : {V : Type ℓ} → Option V → Option V → Option V
or_value none b = b
or_value (some a) b = some a

-- A merged dict has the value of the file, and the default where the file has none.
pub get-merge {ℓ} :
    {V : Type ℓ} (key : Text) (defaults cfg : Dict Text V)
    → IsUnique cfg
    → get key (merge defaults cfg) ≡ or_value (get key cfg) (get key defaults)
get-merge key defaults [] u = refl
get-merge key defaults ((k, v) ∷ cfg) u =
    get-merge key (put k v defaults) cfg u.1
    ∙ ap (or_value (get key cfg)) (get-put key k v defaults)
    ∙ elim (Bool-cases (text_beq k key)) [
      | inl q ↦
          let absent : get key cfg ≡ none =
            ap (λ j. get j cfg) (sym ((text_beq_iff k key).0 q)) ∙ u.0 in
          ground (arith, q, absent)
      | inr q ↦ ground (arith, q)
    ]
