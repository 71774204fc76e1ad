-- ===== src/Compliance/Cwe.antt =====
-- internal/compliance/cwe.go: CWEMapper, whose two maps hold the same pairs. `fold` is ToUpper behind
-- TrimSpace. The lock makes each operation one step.
pub mod Defaults
use Prim.Native.String as Text
use Prim.Native.String.{◌++◌ as text_append}
use Prim.Native.Char.{Char}
use devsec.Base.{
  ◌≡◌, refl, ap, ◌||◌, Option, none, some, List, [], ◌∷◌, ◌++◌, String, if◌then◌else◌, text_eq,
  text_eq_iff, arith, has, has-append, Bool-cases, inl, inr,
}
use devsec.Compliance.Extract.{chars, text, strip_prefix, cwe_prefix}

pub record ControlRef : Type 0 where
  pub framework : String
  pub control_id : String

-- string(framework) + ":" + controlID
abbrev pub ref_key : ControlRef → String
ref_key r = text_append (text_append r.framework ":") r.control_id

pub record CweMapper : Type 0 where
  pub cwe_to_controls : List (String × List ControlRef)
  pub control_to_cwes : List (String × List String)

-- normalizeCWE, on the folded text
with_prefix : Option (List Char) → Option (List Char) → String → String
with_prefix (some _) bare s = s
with_prefix none (some behind) s = text_append "CWE-" (text behind)
with_prefix none none s = text_append "CWE-" s

unfoldable pub normalize_cwe : (fold : String → String) → String → String
unfolding with_prefix strip_prefix
normalize_cwe fold id =
    let s = fold id in
    with_prefix (strip_prefix cwe_prefix (chars s))
      (strip_prefix (b'C' ∷ b'W' ∷ b'E' ∷ []) (chars s)) s

module _ {V : Type 0} where
  -- m[key], which is nil for a missing key
  unfoldable pub entries_of : String → List (String × List V) → List V
  entries_of key [] = []
  entries_of key ((k, vs) ∷ m) = if text_eq k key then vs else entries_of key m

  -- m[key] = append(m[key], v)
  unfoldable pub add_entry : String → V → List (String × List V) → List (String × List V)
  add_entry key v [] = (key, v ∷ []) ∷ []
  add_entry key v ((k, vs) ∷ m) =
      if text_eq k key then (k, vs ++ v ∷ []) ∷ m else (k, vs) ∷ add_entry key v m

  pub entries_of-add_entry :
      (key other : String) (v : V) (m : List (String × List V))
      → entries_of other (add_entry key v m)
        ≡ (if text_eq key other then entries_of other m ++ v ∷ [] else entries_of other m)
  unfolding entries_of add_entry
  entries_of-add_entry key other v [] = refl
  entries_of-add_entry key other v ((k, vs) ∷ m) = ground (
    arith,
    entries_of-add_entry key other v m,
    text_eq_iff k key,
    text_eq_iff k other,
    text_eq_iff key other,
  )

module _ (fold : String → String) where
  -- GetControls
  unfoldable pub get_controls : String → CweMapper → List ControlRef
  unfolding normalize_cwe entries_of
  get_controls cwe m = entries_of (normalize_cwe fold cwe) m.cwe_to_controls

  -- GetCWEs
  unfoldable pub get_cwes : ControlRef → CweMapper → List String
  unfolding entries_of
  get_cwes r m = entries_of (ref_key r) m.control_to_cwes

  -- AddMapping
  unfoldable pub add_mapping : String → ControlRef → CweMapper → CweMapper
  unfolding normalize_cwe add_entry
  add_mapping cwe r m =
      let id = normalize_cwe fold cwe in
      record {
        cwe_to_controls = add_entry id r m.cwe_to_controls;
        control_to_cwes = add_entry (ref_key r) id m.control_to_cwes;
      }

  -- A loop of loadDefaultMappings: each weakness with each of the controls.
  unfoldable pub add_refs : String → List ControlRef → CweMapper → CweMapper
  unfolding add_mapping
  add_refs cwe [] m = m
  add_refs cwe (r ∷ rs) m = add_refs cwe rs (add_mapping cwe r m)

  unfoldable pub add_all : List String → List ControlRef → CweMapper → CweMapper
  unfolding add_refs
  add_all [] rs m = m
  add_all (cwe ∷ cwes) rs m = add_all cwes rs (add_refs cwe rs m)

-- The keys of controls.
abbrev pub ref_keys : List ControlRef → List String
ref_keys [] = []
ref_keys (r ∷ rs) = ref_key r ∷ ref_keys rs

ref_keys-append : (xs ys : List ControlRef) → ref_keys (xs ++ ys) ≡ ref_keys xs ++ ref_keys ys
ref_keys-append [] ys = refl
ref_keys-append (x ∷ xs) ys = ap (λ l. ref_key x ∷ l) (ref_keys-append xs ys)

-- Both maps hold the same pairs of a weakness, in its standard form, and a control's key.
abbrev pub IsConsistent : CweMapper → Type 0
IsConsistent m =
    (id key : String)
    → has key (ref_keys (entries_of id m.cwe_to_controls))
      ≡ has id (entries_of key m.control_to_cwes)

pub empty-IsConsistent : IsConsistent (record { cwe_to_controls = []; control_to_cwes = [] })
unfolding entries_of
empty-IsConsistent id key = refl

-- A pair is added to both sides at once.
add_pair :
    (n id key : String) (r : ControlRef) (rs : List ControlRef) (ns : List String)
    → has key (ref_keys rs) ≡ has id ns
    → has key (ref_keys (if text_eq n id then rs ++ r ∷ [] else rs))
      ≡ has id (if text_eq (ref_key r) key then ns ++ n ∷ [] else ns)
add_pair n id key r rs ns h =
    let added : has key (ref_keys (rs ++ r ∷ []))
        ≡ (has key (ref_keys rs) || has key (ref_key r ∷ [])) =
      rw (ref_keys-append rs (r ∷ [])) (has-append key (ref_keys rs) (ref_key r ∷ [])) in
    elim (Bool-cases (text_eq n id)) [
      | inl e ↦ elim (Bool-cases (text_eq (ref_key r) key)) [
        | inl e' ↦
            rw (e, e', added, has-append id ns (n ∷ []))
              (ground (arith, text_eq_iff n id, text_eq_iff (ref_key r) key))
        | inr e' ↦ rw (e, e', added) (ground (arith, text_eq_iff (ref_key r) key))
      ]
      | inr e ↦ elim (Bool-cases (text_eq (ref_key r) key)) [
        | inl e' ↦ rw (e, e', has-append id ns (n ∷ [])) (ground (arith, text_eq_iff n id))
        | inr e' ↦ rw (e, e') h
      ]
    ]

module _ (fold : String → String) where
  -- AddMapping keeps the two maps of the mapper consistent.
  pub add_mapping-IsConsistent :
      (cwe : String) (r : ControlRef) (m : CweMapper)
      → IsConsistent m
      → IsConsistent (add_mapping fold cwe r m)
  unfolding add_mapping
  add_mapping-IsConsistent cwe r m h id key =
      let n = normalize_cwe fold cwe in
      rw
        (
          entries_of-add_entry n id r m.cwe_to_controls,
          entries_of-add_entry (ref_key r) key n m.control_to_cwes,
        )
        (add_pair n id key r (entries_of id m.cwe_to_controls) (entries_of key m.control_to_cwes)
          (h id key))

  add_refs-IsConsistent :
      (cwe : String) (rs : List ControlRef) (m : CweMapper)
      → IsConsistent m
      → IsConsistent (add_refs fold cwe rs m)
  unfolding add_refs
  add_refs-IsConsistent cwe [] m h = h
  add_refs-IsConsistent cwe (r ∷ rs) m h =
      add_refs-IsConsistent cwe rs (add_mapping fold cwe r m) (add_mapping-IsConsistent cwe r m h)

  -- Each loop of loadDefaultMappings keeps the two maps of the mapper consistent.
  pub add_all-IsConsistent :
      (cwes : List String) (rs : List ControlRef) (m : CweMapper)
      → IsConsistent m
      → IsConsistent (add_all fold cwes rs m)
  unfolding add_all
  add_all-IsConsistent [] rs m h = h
  add_all-IsConsistent (cwe ∷ cwes) rs m h =
      add_all-IsConsistent cwes rs (add_refs fold cwe rs m) (add_refs-IsConsistent cwe rs m h)
