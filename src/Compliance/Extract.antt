-- ===== src/Compliance/Extract.antt =====
-- internal/compliance/mapper.go: extractCWEFromString and extractCVEFromString, on lists of characters.
-- The loops walk bytes; prefixes, digits and dashes are ASCII, and so the characters serve as well.
pub mod Laws
use Prim.Native.Char.{Char, code}
use Prim.Native.String as Text
use devsec.Base.{
  ℕ, zero, suc, Bool, ◌&&◌, Option, none, some, List, [], ◌∷◌, ◌++◌, String, length, if◌then◌else◌,
  ◌==◌, leb,
}

abbrev pub chars : String → List Char
chars Text.[] = []
chars (Text.◌∷◌ c s) = c ∷ chars s

abbrev pub text : List Char → String
text [] = ""
text (c ∷ cs) = Text.◌∷◌ c (text cs)

abbrev pub is_digit : Char → Bool
is_digit c = leb b'0' (code c) && leb (code c) b'9'

-- The digits that a text begins with, and what stands behind them.
unfoldable pub take_digits : List Char → List Char
take_digits [] = []
take_digits (c ∷ cs) = let rest = take_digits cs in if is_digit c then c ∷ rest else []

unfoldable pub drop_digits : List Char → List Char
drop_digits [] = []
drop_digits (c ∷ cs) = let rest = drop_digits cs in if is_digit c then rest else c ∷ cs

-- What stands behind a prefix, given by its codes.
unfoldable pub strip_prefix : List ℕ → List Char → Option (List Char)
strip_prefix [] cs = some cs
strip_prefix (p ∷ ps) [] = none
strip_prefix (p ∷ ps) (c ∷ cs) = if code c == p then strip_prefix ps cs else none

abbrev pub cwe_prefix : List ℕ
cwe_prefix = b'C' ∷ b'W' ∷ b'E' ∷ b'-' ∷ []

abbrev pub cve_prefix : List ℕ
cve_prefix = b'C' ∷ b'V' ∷ b'E' ∷ b'-' ∷ []

-- The name, if there is a digit behind the prefix.
unfoldable pub cwe_name : List Char → Option (List Char)
cwe_name [] = none
cwe_name (d ∷ ds) = some (d ∷ ds)

-- What is tried behind the prefix of a CWE name: its digits, if there are any.
unfoldable pub cwe_number : List Char → Option (List Char)
unfolding take_digits cwe_name
cwe_number cs = cwe_name (take_digits cs)

unfoldable pub cve_behind_year : List Char → List Char → Option (List Char)
unfolding take_digits
cve_behind_year year [] = none
cve_behind_year year (c ∷ cs) =
    let digits = take_digits cs in
    if code c == b'-' && leb 4 (length digits) then some (year ++ c ∷ digits) else none

-- What is tried behind the prefix of a CVE name: a year of four digits, a dash, and four digits or
-- more.
unfoldable pub cve_number : List Char → Option (List Char)
unfolding take_digits drop_digits cve_behind_year
cve_number cs =
    let year = take_digits cs in
    if length year == 4 then cve_behind_year year (drop_digits cs) else none

-- The loop over the places of the prefix: where what stands behind one is no name, the search goes on
-- behind the prefix. `skip` counts the characters of it that are left.
module _ (prefix : List ℕ) (number : List Char → Option (List Char)) where
  unfoldable pub tried : Option (List Char) → Option (List Char)
  tried none = none
  tried (some behind) = number behind

  -- The characters to skip behind the first of a prefix that is there.
  unfoldable pub skip_of : Option (List Char) → ℕ
  skip_of none = 0
  skip_of (some _) = 3

  unfoldable pub search : ℕ → List Char → Option (List Char)
  unfolding tried skip_of strip_prefix
  search skip [] = none
  search (suc skip) (c ∷ cs) = search skip cs
  search zero (c ∷ cs) =
      let behind = strip_prefix prefix (c ∷ cs) in
      let rest = search (skip_of behind) cs in
      elim (tried behind) [ some number ↦ some number | none ↦ rest ]

-- A name found, with its prefix; the empty text, if there is none.
named : String → Option (List Char) → String
named prefix none = ""
named prefix (some number) = Text.◌++◌ prefix (text number)

-- extractCWEFromString
unfoldable pub extract_cwe_from_string : String → String
unfolding search cwe_number named
extract_cwe_from_string s = named "CWE-" (search cwe_prefix cwe_number 0 (chars s))

-- extractCVEFromString
unfoldable pub extract_cve_from_string : String → String
unfolding search cve_number named
extract_cve_from_string s = named "CVE-" (search cve_prefix cve_number 0 (chars s))
