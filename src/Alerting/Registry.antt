-- ===== src/Alerting/Registry.antt =====
-- internal/alerting/registry.go: NotifierRegistry. A factory is any value; what it makes is the
-- caller's.
pub mod Laws
use devsec.Base.{
  Bool, true, false, Option, none, some, List, [], ◌∷◌, String, if◌then◌else◌, text_eq,
}

pub data RegistryError : Type 0 where
  empty_name nil_factory : RegistryError
  already_registered : String → RegistryError
  unknown_type : String → RegistryError
  creation_failed : (name : String) (reason : String) → RegistryError

module _ {F : Type 0} where
  -- Get
  unfoldable pub get : String → List (String × F) → Option F
  get name [] = none
  get name ((n, f) ∷ r) = if text_eq n name then some f else get name r

  -- Has
  unfoldable pub is_registered : String → List (String × F) → Bool
  unfolding get
  is_registered name r = elim (get name r) [ none ↦ false | some _ ↦ true ]

  -- Register: the registry is unchanged by an error.
  unfoldable pub register :
      String → Option F → List (String × F) → Option RegistryError × List (String × F)
  unfolding is_registered
  register name none r = (if text_eq name "" then some empty_name else some nil_factory, r)
  register name (some factory) r =
      if text_eq name ""
      then (some empty_name, r)
      else if is_registered name r
      then (some (already_registered name), r)
      else (none, (name, factory) ∷ r)

  -- delete(r.factories, name)
  delete : String → List (String × F) → List (String × F)
  delete name [] = []
  delete name ((n, f) ∷ r) =
      let rest = delete name r in if text_eq n name then rest else (n, f) ∷ rest

  -- Unregister
  unfoldable pub unregister : String → List (String × F) → Bool × List (String × F)
  unfolding is_registered delete
  unregister name r = if is_registered name r then (true, delete name r) else (false, r)

  -- Names, in the order of the map.
  unfoldable pub registered_names : List (String × F) → List String
  registered_names [] = []
  registered_names ((n, f) ∷ r) = n ∷ registered_names r

-- What a factory returns: a notifier, or the text of its error.
pub data Made (N : Type 0) : Type 0 where
  made : N → Made N
  failed : String → Made N

pub data Created (N : Type 0) : Type 0 where
  created : N → Created N
  refused : RegistryError → Created N

created_by : {N : Type 0} → String → Made N → Created N
created_by name (made n) = created n
created_by name (failed reason) = refused (creation_failed name reason)

module _ {C N : Type 0} where
  -- Create
  unfoldable pub create : String → C → List (String × (C → Made N)) → Created N
  unfolding get created_by
  create name config r = elim (get name r) [
    | none ↦ refused (unknown_type name)
    | some factory ↦ created_by name (factory config)
  ]
