-- ===== src/Compliance/Extract/Laws.antt =====
-- The search for names of weaknesses and vulnerabilities finds one wherever there is one.
use Prim.Native.Char.{Char, code}
use devsec.Base.{
  ℕ, ◌≡◌, ◌≢◌, refl, sym, ◌∙◌, ap, Option, none, some, List, [], ◌∷◌, ◌++◌, arith, ==_iff,
  Option-cases, inl, inr,
}
use devsec.Compliance.Extract.{
  strip_prefix, tried, skip_of, search, cwe_prefix, cve_prefix, cwe_number, cve_number,
}

-- The name at one place of a text, if there is one.
abbrev pub name_at : List ℕ → (List Char → Option (List Char)) → List Char → Option (List Char)
name_at prefix number cs = tried prefix number (strip_prefix prefix cs)

module _ (prefix : List ℕ) (number : List Char → Option (List Char)) where
  -- The search that tries every place of the text.
  abbrev pub first_name : List Char → Option (List Char)
  first_name [] = none
  first_name (c ∷ cs) = elim (name_at prefix number (c ∷ cs)) [
    | some n ↦ some n
    | none ↦ first_name cs
  ]

  -- No name begins inside of a prefix.
  abbrev pub SkipsNothing : Type 0
  SkipsNothing =
      (c : Char) (cs rest : List Char)
      → strip_prefix prefix (c ∷ cs) ≡ some rest
      → search prefix number 3 cs ≡ search prefix number 0 cs

  search-skip :
      SkipsNothing
      → (c : Char) (cs : List Char)
      → search prefix number (skip_of prefix number (strip_prefix prefix (c ∷ cs))) cs
        ≡ search prefix number 0 cs
  unfolding skip_of
  search-skip skips c cs = elim (Option-cases (strip_prefix prefix (c ∷ cs))) [
    | inl e ↦ rw e refl
    | inr (rest, e) ↦ rw e (skips c cs rest e)
  ]

  pub search-first_name :
      SkipsNothing → (cs : List Char) → search prefix number 0 cs ≡ first_name cs
  unfolding search
  search-first_name skips [] = refl
  search-first_name skips (c ∷ cs) =
      let rest = search-skip skips c cs ∙ search-first_name skips cs in
      ap (λ r. elim (name_at prefix number (c ∷ cs)) [ some n ↦ some n | none ↦ r ]) rest

  -- The search goes on where the prefix is not.
  search-none :
      (c : Char) (cs : List Char)
      → strip_prefix prefix (c ∷ cs) ≡ none
      → search prefix number 0 (c ∷ cs) ≡ search prefix number 0 cs
  unfolding search tried skip_of
  search-none c cs e =
      ap
        (λ o. elim (tried prefix number o) [
          | some n ↦ some n
          | none ↦ search prefix number (skip_of prefix number o) cs
        ])
        e

strip_prefix-other :
    (p : ℕ) (ps : List ℕ) (c : Char) (cs : List Char)
    → code c ≢ p
    → strip_prefix (p ∷ ps) (c ∷ cs) ≡ none
unfolding strip_prefix
strip_prefix-other p ps c cs h = ground (arith, ==_iff (code c) p)

-- The characters of a prefix of four.
strip_prefix-codes :
    (a b c d : ℕ) (x y z u : Char) (cs rest : List Char)
    → strip_prefix (a ∷ b ∷ c ∷ d ∷ []) (x ∷ y ∷ z ∷ u ∷ cs) ≡ some rest
    → (code y ≡ b) × (code z ≡ c) × (code u ≡ d)
unfolding strip_prefix
strip_prefix-codes a b c d x y z u cs rest h = ground arith

-- A prefix of four characters whose first one does not come again.
abbrev four : ℕ → ℕ → ℕ → ℕ → List ℕ
four a b c d = a ∷ b ∷ c ∷ d ∷ []

four-SkipsNothing :
    (a b c d : ℕ) (number : List Char → Option (List Char))
    → b ≢ a
    → c ≢ a
    → d ≢ a
    → SkipsNothing (four a b c d) number
unfolding strip_prefix search
four-SkipsNothing a b c d number hb hc hd x [] rest h = ground arith
four-SkipsNothing a b c d number hb hc hd x (y ∷ []) rest h = ground arith
four-SkipsNothing a b c d number hb hc hd x (y ∷ z ∷ []) rest h = ground arith
four-SkipsNothing a b c d number hb hc hd x (y ∷ z ∷ u ∷ cs) rest h =
    let (ey, ez, eu) = strip_prefix-codes a b c d x y z u cs rest h in
    let p = b ∷ c ∷ d ∷ [] in
    let step = search-none (four a b c d) number in
    sym (
      step y (z ∷ u ∷ cs) (strip_prefix-other a p y (z ∷ u ∷ cs) (λ e. hb (sym ey ∙ e)))
      ∙ step z (u ∷ cs) (strip_prefix-other a p z (u ∷ cs) (λ e. hc (sym ez ∙ e)))
      ∙ step u cs (strip_prefix-other a p u cs (λ e. hd (sym eu ∙ e))))

-- The search for a CWE name skips the rest of each prefix, and finds what trying every place of the
-- text finds first.
pub search_cwe-first_name :
    (cs : List Char) → search cwe_prefix cwe_number 0 cs ≡ first_name cwe_prefix cwe_number cs
search_cwe-first_name cs =
    search-first_name cwe_prefix cwe_number
      (four-SkipsNothing b'C' b'W' b'E' b'-' cwe_number (omega arith) (omega arith) (omega arith))
      cs

-- The search for a CVE name skips the rest of each prefix, and finds what trying every place of the
-- text finds first.
pub search_cve-first_name :
    (cs : List Char) → search cve_prefix cve_number 0 cs ≡ first_name cve_prefix cve_number cs
search_cve-first_name cs =
    search-first_name cve_prefix cve_number
      (four-SkipsNothing b'C' b'V' b'E' b'-' cve_number (omega arith) (omega arith) (omega arith))
      cs

-- The names that the loop may return.
found_first :
    (o r : Option (List Char)) (n : List Char)
    → o ≡ some n
    → elim o [ some m ↦ some m | none ↦ r ] ≢ none
found_first o r n e h = ground arith

found_later : (o r : Option (List Char)) → r ≢ none → elim o [ some m ↦ some m | none ↦ r ] ≢ none
found_later (some m) r e h = ground arith
found_later none r e h = e h

first_name-append :
    (prefix : List ℕ) (number : List Char → Option (List Char)) (before place n : List Char)
    → place ≢ []
    → name_at prefix number place ≡ some n
    → first_name prefix number (before ++ place) ≢ none
first_name-append prefix number [] [] n some_char here = absurd (some_char refl)
first_name-append prefix number [] (c ∷ cs) n some_char here = found_first _ _ n here
first_name-append prefix number (b ∷ before) place n some_char here =
    found_later _ _ (first_name-append prefix number before place n some_char here)

-- The search for a CWE name finds one in every text that has one, whatever stands before and behind
-- it.
pub search_cwe-ne-none :
    (before place n : List Char)
    → place ≢ []
    → name_at cwe_prefix cwe_number place ≡ some n
    → search cwe_prefix cwe_number 0 (before ++ place) ≢ none
search_cwe-ne-none before place n some_char here h =
    first_name-append cwe_prefix cwe_number before place n some_char here
      (sym (search_cwe-first_name (before ++ place)) ∙ h)
