-- ===== src/Alerting/Registry/Laws.antt =====
-- What a registry finds after its operations.
use devsec.Base.{
  ◌≡◌, ◌≢◌, refl, false, none, some, List, [], ◌∷◌, String, arith, text_eq, text_eq_iff,
}
use devsec.Alerting.Registry.{already_registered, get, is_registered, register, delete, unregister}

module _ {F : Type 0} where
  get-delete : (name : String) (r : List (String × F)) → get name (delete name r) ≡ none
  unfolding get delete
  get-delete name [] = refl
  get-delete name ((n, f) ∷ r) = ground (arith, get-delete name r)

  get-delete_other :
      (name other : String) (r : List (String × F))
      → name ≢ other
      → get other (delete name r) ≡ get other r
  unfolding get delete
  get-delete_other name other [] ne = refl
  get-delete_other name other ((n, f) ∷ r) ne =
      ground (arith, get-delete_other name other r ne, text_eq_iff n name, text_eq_iff n other)

  register-new :
      (name : String) (factory : F) (r r' : List (String × F))
      → register name (some factory) r ≡ (none, r')
      → (r' ≡ (name, factory) ∷ r) × (text_eq name "" ≡ false)
  unfolding register
  register-new name factory r r' eq = ground arith

  -- A registration that succeeds is found under its name, leaves every other name as it was, and
  -- cannot be repeated under that name.
  pub register-get :
      (name other : String) (factory again : F) (r r' : List (String × F))
      → name ≢ other
      → register name (some factory) r ≡ (none, r')
      → (get name r' ≡ some factory)
        × (get other r' ≡ get other r)
        × (register name (some again) r' ≡ (some (already_registered name), r'))
  unfolding register get is_registered
  register-get name other factory again r r' ne eq =
      let (added, filled) = register-new name factory r r' eq in
      rw (added, filled)
        (
          ground (arith, text_eq_iff name name),
          ground (arith, text_eq_iff name other),
          ground (arith, text_eq_iff name name),
        )

  -- Unregistering tells whether the name was registered. Behind it that name is not, and every other
  -- name is found as before.
  pub unregister-get :
      (name other : String) (r : List (String × F))
      → name ≢ other
      → ((unregister name r).0 ≡ is_registered name r)
        × (get name (unregister name r).1 ≡ none)
        × (get other (unregister name r).1 ≡ get other r)
  unfolding unregister is_registered
  unregister-get name other r ne =
      ground (arith, get-delete name r, get-delete_other name other r ne)
