-- ===== src/Compliance/Frameworks/Known.antt =====
-- The controls that the default mappings of weaknesses name, and the tables of the frameworks.
use devsec.Base.{
  ◌≡◌, refl, Bool, true, false, none, some, List, [], ◌∷◌, ◌++◌, String, text_eq, All, Bool-cases,
  inl, inr,
}
use devsec.Compliance.Cwe.{
  ControlRef, CweMapper, normalize_cwe, entries_of, entries_of-add_entry, get_controls, add_mapping,
  add_refs, add_all,
}
use devsec.Compliance.Cwe.Defaults.{
  soc2, iso27001, gdpr, empty_mapper, new_cwe_mapper, injection_cwes, injection_controls, auth_cwes,
  auth_controls, crypto_cwes, crypto_controls, disclosure_cwes, disclosure_controls, input_cwes,
  input_controls, memory_cwes, memory_controls, deserialization_cwes, deserialization_controls,
  supply_cwes, supply_controls, logging_cwes, logging_controls, config_cwes, config_controls,
}
use devsec.Compliance.Mapper.{find_control, get_control}
use devsec.Compliance.Frameworks.{
  get_framework, new_soc2_framework, new_iso27001_framework, new_gdpr_framework,
}

-- Whether a control stands in the table of its framework.
unfoldable pub is_known : ControlRef → Bool
unfolding get_framework get_control
is_known r = elim (get_framework r.framework) [
  | none ↦ false
  | some f ↦ elim (get_control r.control_id f) [ none ↦ false | some c ↦ true ]
]

abbrev pub IsKnown : ControlRef → Type 0
IsKnown r = is_known r ≡ true

-- Every control that a mapper names is known.
record IsClosed (m : CweMapper) : Type 0 where
  pub known : (id : String) → All IsKnown (entries_of id m.cwe_to_controls)

All-snoc :
    (r : ControlRef) (rs : List ControlRef)
    → All IsKnown rs
    → IsKnown r
    → All IsKnown (rs ++ r ∷ [])
All-snoc r [] hs h = (h, tt)
All-snoc r (x ∷ rs) (hx, hs) h = (hx, All-snoc r rs hs h)

module _ (fold : String → String) where
  add_mapping-IsClosed :
      (cwe : String) (r : ControlRef) (m : CweMapper)
      → IsKnown r
      → IsClosed m
      → IsClosed (add_mapping fold cwe r m)
  unfolding add_mapping
  add_mapping-IsClosed cwe r m h c = record {
    known = λ id.
        let n = normalize_cwe fold cwe in
        rw (entries_of-add_entry n id r m.cwe_to_controls) (elim (Bool-cases (text_eq n id)) [
          | inl e ↦ rw e (All-snoc r (entries_of id m.cwe_to_controls) (c.known id) h)
          | inr e ↦ rw e (c.known id)
        ]);
  }

  add_refs-IsClosed :
      (cwe : String) (rs : List ControlRef) (m : CweMapper)
      → All IsKnown rs
      → IsClosed m
      → IsClosed (add_refs fold cwe rs m)
  unfolding add_refs
  add_refs-IsClosed cwe [] m hs c = c
  add_refs-IsClosed cwe (r ∷ rs) m (h, hs) c =
      add_refs-IsClosed cwe rs (add_mapping fold cwe r m) hs (add_mapping-IsClosed cwe r m h c)

  add_all-IsClosed :
      (cwes : List String) (rs : List ControlRef) {m : CweMapper}
      → All IsKnown rs
      → IsClosed m
      → IsClosed (add_all fold cwes rs m)
  unfolding add_all
  add_all-IsClosed [] rs hs c = c
  add_all-IsClosed (cwe ∷ cwes) rs {m} hs c =
      add_all-IsClosed cwes rs hs (add_refs-IsClosed cwe rs m hs c)

empty-IsClosed : IsClosed empty_mapper
unfolding empty_mapper entries_of
empty-IsClosed = record { known = λ id. tt }

injection-IsKnown : All IsKnown injection_controls
unfolding injection_controls soc2 iso27001 gdpr is_known get_framework get_control find_control
    new_soc2_framework new_iso27001_framework new_gdpr_framework
injection-IsKnown = (refl, (refl, (refl, (refl, (refl, (refl, tt))))))

auth-IsKnown : All IsKnown auth_controls
unfolding auth_controls soc2 iso27001 gdpr is_known get_framework get_control find_control
    new_soc2_framework new_iso27001_framework new_gdpr_framework
auth-IsKnown = (refl, (refl, (refl, (refl, tt))))

crypto-IsKnown : All IsKnown crypto_controls
unfolding crypto_controls soc2 iso27001 gdpr is_known get_framework get_control find_control
    new_soc2_framework new_iso27001_framework new_gdpr_framework
crypto-IsKnown = (refl, (refl, (refl, tt)))

disclosure-IsKnown : All IsKnown disclosure_controls
unfolding disclosure_controls soc2 iso27001 gdpr is_known get_framework get_control find_control
    new_soc2_framework new_iso27001_framework new_gdpr_framework
disclosure-IsKnown = (refl, (refl, (refl, (refl, (refl, (refl, (refl, tt)))))))

input-IsKnown : All IsKnown input_controls
unfolding input_controls soc2 iso27001 gdpr is_known get_framework get_control find_control
    new_soc2_framework new_iso27001_framework new_gdpr_framework
input-IsKnown = (refl, (refl, (refl, tt)))

memory-IsKnown : All IsKnown memory_controls
unfolding memory_controls soc2 iso27001 gdpr is_known get_framework get_control find_control
    new_soc2_framework new_iso27001_framework new_gdpr_framework
memory-IsKnown = (refl, (refl, (refl, tt)))

deserialization-IsKnown : All IsKnown deserialization_controls
unfolding deserialization_controls soc2 iso27001 gdpr is_known get_framework get_control
    find_control new_soc2_framework new_iso27001_framework new_gdpr_framework
deserialization-IsKnown = (refl, (refl, (refl, tt)))

supply-IsKnown : All IsKnown supply_controls
unfolding supply_controls soc2 iso27001 gdpr is_known get_framework get_control find_control
    new_soc2_framework new_iso27001_framework new_gdpr_framework
supply-IsKnown = (refl, (refl, (refl, tt)))

logging-IsKnown : All IsKnown logging_controls
unfolding logging_controls soc2 iso27001 gdpr is_known get_framework get_control find_control
    new_soc2_framework new_iso27001_framework new_gdpr_framework
logging-IsKnown = (refl, (refl, tt))

config-IsKnown : All IsKnown config_controls
unfolding config_controls soc2 iso27001 gdpr is_known get_framework get_control find_control
    new_soc2_framework new_iso27001_framework new_gdpr_framework
config-IsKnown = (refl, (refl, tt))

new_cwe_mapper-IsClosed : (fold : String → String) → IsClosed (new_cwe_mapper fold)
unfolding new_cwe_mapper
new_cwe_mapper-IsClosed fold = add_all-IsClosed fold config_cwes config_controls config-IsKnown (
    add_all-IsClosed fold logging_cwes logging_controls logging-IsKnown (
      add_all-IsClosed fold supply_cwes supply_controls supply-IsKnown (
        add_all-IsClosed fold deserialization_cwes deserialization_controls deserialization-IsKnown
          (add_all-IsClosed fold memory_cwes memory_controls memory-IsKnown (
            add_all-IsClosed fold input_cwes input_controls input-IsKnown (
              add_all-IsClosed fold disclosure_cwes disclosure_controls disclosure-IsKnown (
                add_all-IsClosed fold crypto_cwes crypto_controls crypto-IsKnown (
                  add_all-IsClosed fold auth_cwes auth_controls auth-IsKnown (
                    add_all-IsClosed fold injection_cwes injection_controls injection-IsKnown
                      empty-IsClosed)))))))))

-- Every control that the default mappings give for a weakness stands in the table of its framework.
pub get_controls-IsKnown :
    (fold : String → String) (cwe : String)
    → All IsKnown (get_controls fold cwe (new_cwe_mapper fold))
unfolding get_controls
get_controls-IsKnown fold cwe = (new_cwe_mapper-IsClosed fold).known (normalize_cwe fold cwe)
