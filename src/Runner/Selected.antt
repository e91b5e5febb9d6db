-- ===== src/Runner/Selected.antt =====
-- Which test cases `main` runs: each of those that are selected, once and by its own key.
use nvbandwidth.Prelude.{
  suc, ◌≡◌, refl, sym, ◌∙◌, Bool, true, false, List, [], ◌∷◌, ◌++◌, map, All, any, length, none,
  some, ◌==◌, ==_self, if◌then◌else◌, arith, Bool-cases, inl, inr, some-injective,
}
use nvbandwidth.Runner.{
  Text, same_text, starts_with, Test, Parsed, unparsed, find_key, find_testcase, expand_testcases,
  Entry, Document, run_testcases, all_if_none, select_testcases,
}
use nvbandwidth.Runner.Recorded.{entries_of, all_entries, run_testcases_lem}

-- No two test cases have the same key.
abbrev pub HaveOwnKeys : List Test → Type 0
HaveOwnKeys [] = Unit
HaveOwnKeys (t ∷ ts) = All (λ (u : Test). same_text t.key u.key ≡ false) ts × HaveOwnKeys ts

-- No key is a number.
abbrev pub AreNames : (strtol : Text → Parsed) → List Test → Type 0
AreNames strtol ts = All (λ (t : Test). strtol t.key ≡ unparsed) ts

-- Without prefixes all test cases are chosen, else those with one of them.
abbrev pub is_chosen : (prefixes : List Text) → Test → Bool
is_chosen [] t = true
is_chosen (p ∷ ps) t = any (λ (q : Text). starts_with q t.key) (p ∷ ps)

abbrev pub chosen_entries : (prefixes : List Text) → List Test → List Entry
chosen_entries prefixes [] = []
chosen_entries prefixes (t ∷ ts) =
    (if is_chosen prefixes t then entries_of t.key (some t) else []) ++ chosen_entries prefixes ts

same_text_self : (cs : Text) → same_text cs cs ≡ true
same_text_self [] = refl
same_text_self (c ∷ cs) = rw (==_self c) (same_text_self cs)

find-later :
    (t : Test) (ts us : List Test)
    → All (λ (u : Test). same_text t.key u.key ≡ false) us
    → All (λ (u : Test). find_key ts u.key ≡ some u) us
    → All (λ (u : Test). find_key (t ∷ ts) u.key ≡ some u) us
unfolding find_key
find-later t ts [] other found = tt
find-later t ts (u ∷ us) (o, os) (f, fs) = (rw o f, find-later t ts us os fs)

find_key-own : (ts : List Test) → HaveOwnKeys ts → All (λ (u : Test). find_key ts u.key ≡ some u) ts
unfolding find_key
find_key-own [] own = tt
find_key-own (t ∷ ts) (other, own) =
    (rw (same_text_self t.key) refl, find-later t ts ts other (find_key-own ts own))

module _ (strtol : Text → Parsed) (tests : List Test) where
  find_testcase-own :
      (us : List Test)
      → AreNames strtol us
      → All (λ (u : Test). find_key tests u.key ≡ some u) us
      → All (λ (u : Test). find_testcase strtol tests u.key ≡ some u) us
  unfolding find_testcase
  find_testcase-own [] n f = tt
  find_testcase-own (u ∷ us) (n, ns) (f, fs) = (rw (n, find_testcase) f, find_testcase-own us ns fs)

  all_entries-keys :
      (us : List Test)
      → All (λ (u : Test). find_testcase strtol tests u.key ≡ some u) us
      → all_entries strtol tests (map (λ (t : Test). t.key) us) ≡ chosen_entries [] us
  all_entries-keys [] f = refl
  all_entries-keys (u ∷ us) (f, fs) = rw (f, all_entries-keys us fs) refl

  all_entries-expanded :
      (p : Text) (ps : List Text) (us : List Test)
      → All (λ (u : Test). find_testcase strtol tests u.key ≡ some u) us
      → all_entries strtol tests (expand_testcases us (p ∷ ps)) ≡ chosen_entries (p ∷ ps) us
  unfolding expand_testcases
  all_entries-expanded p ps [] f = refl
  all_entries-expanded p ps (u ∷ us) (f, fs) = elim (Bool-cases (is_chosen (p ∷ ps) u)) [
    | inl c ↦ rw (c, f, all_entries-expanded p ps us fs) refl
    | inr c ↦ rw (c, all_entries-expanded p ps us fs) refl
  ]

  all_entries-selected :
      (prefixes : List Text) {ids : List Text}
      → All (λ (u : Test). find_testcase strtol tests u.key ≡ some u) tests
      → select_testcases tests [] prefixes ≡ some ids
      → all_entries strtol tests ids ≡ chosen_entries prefixes tests
  unfolding select_testcases all_if_none
  all_entries-selected [] f e = rw (sym (some-injective e)) (all_entries-keys tests f)
  all_entries-selected (p ∷ ps) {ids} f e =
      same_entries (expand_testcases tests (p ∷ ps)) e ∙ all_entries-expanded p ps tests f
    where
      nonempty : (x : Text) (xs : List Text) → (suc (length xs) == 0) ≡ false
      nonempty x xs = ground arith

      same_entries :
          (expanded : List Text)
          → (if length expanded == 0 then none else some (all_if_none tests expanded)) ≡ some ids
          → all_entries strtol tests ids ≡ all_entries strtol tests expanded
      same_entries [] g = absurd (ground arith)
      same_entries (x ∷ xs) g = rw (sym (some-injective (rw (nonempty x xs) at g))) refl

-- If `main` finds test cases to run by the prefixes, or all without any, it runs each of them once, in
-- the order of the list, and finds it by its key, whatever it is run for. No key is a number and no two
-- are the same.
pub select_testcases_lem :
    (strtol : Text → Parsed) (tests : List Test) (prefixes ids : List Text) (doc : Document)
    → AreNames strtol tests
    → HaveOwnKeys tests
    → doc.root_is_array ≡ false
    → select_testcases tests [] prefixes ≡ some ids
    → run_testcases strtol tests ids doc
      ≡ some (record doc { testcases = doc.testcases ++ chosen_entries prefixes tests })
select_testcases_lem strtol tests prefixes ids doc names own h e =
    rw
      (sym (
        all_entries-selected strtol tests prefixes
          (find_testcase-own strtol tests tests names (find_key-own tests own)) e))
      (run_testcases_lem strtol tests ids doc h)
