-- ===== src/Report/Dedup.antt =====
-- internal/report/aggregator.go: deduplicate. `hash` is the beginning of the SHA-256 of a text in
-- hexadecimal, and `itoa` prints a number.
pub mod Laws
use Prim.Native.String.{◌++◌ as text_append}
use devsec.Base.{ℕ, List, [], ◌∷◌, String, if◌then◌else◌, has}
use devsec.Model.{Finding}

module _ (hash : String → String) (itoa : ℕ → String) where
  -- generateFindingKey
  unfoldable pub generate_finding_key : Finding → String
  generate_finding_key f =
      let l = f.location in
      hash (
        text_append l.file (
          text_append "|" (
            text_append f.rule (
              text_append "|"
                (text_append (itoa l.start_line) (text_append "|" (itoa l.end_line)))))))

  -- The loop of deduplicate: `seen` holds the keys of the set.
  dedup_from : List String → List Finding → List Finding
  unfolding generate_finding_key
  dedup_from seen [] = []
  dedup_from seen (f ∷ fs) =
      let key = generate_finding_key f in
      let rest = dedup_from (key ∷ seen) fs in if has key seen then dedup_from seen fs else f ∷ rest

  -- deduplicate
  unfoldable pub deduplicate : List Finding → List Finding
  unfolding dedup_from
  deduplicate fs = dedup_from [] fs
