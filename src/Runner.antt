-- ===== src/Runner.antt =====
-- nvbandwidth.cpp: `findTestcase`, `expandTestcases`, `runTestcase` and the loop of `main` over the test
-- cases, with the statuses that json_output.cpp keeps of them. What a test case does is an argument: how
-- many matrices it adds to the output, and whether it throws a message in the end. `none` stands for an
-- assertion that ends the process.
pub mod Recorded
pub mod Selected
use nvbandwidth.Prelude.{
  ℕ, zero, suc, Bool, true, false, not, ◌&&◌, ◌||◌, List, [], ◌∷◌, ◌++◌, map, any, length,
  get_elem?, Option, none, some, ◌>>=◌, ◌==◌, if◌then◌else◌,
}

-- Characters.
abbrev pub Text : Type 0
Text = List ℕ

abbrev pub same_text : Text → Text → Bool
same_text [] [] = true
same_text [] (d ∷ ds) = false
same_text (c ∷ cs) [] = false
same_text (c ∷ cs) (d ∷ ds) = (c == d) && same_text cs ds

-- `compare(0, prefix.size(), prefix) == 0`
unfoldable pub starts_with : (prefix key : Text) → Bool
starts_with [] key = true
starts_with (c ∷ cs) [] = false
starts_with (c ∷ cs) (d ∷ ds) = (c == d) && starts_with cs ds

pub record Test : Type 0 where
  pub key : Text
  pub passes_filter : Bool
  pub matrices : ℕ
  pub throws : Bool

-- What `strtol` makes of a text: not all of it is a number, or the number is negative, or neither.
pub data Parsed : Type 0 where
  unparsed : Parsed
  negative : Parsed
  number : ℕ → Parsed

unfoldable pub find_key : List Test → (id : Text) → Option Test
find_key [] id = none
find_key (t ∷ ts) id = let later = find_key ts id in if same_text t.key id then some t else later

-- `findTestcase`; nothing stands for the message that it throws.
unfoldable pub find_testcase : (strtol : Text → Parsed) → List Test → (id : Text) → Option Test
unfolding find_key
find_testcase strtol tests id = elim (strtol id) [
  | unparsed ↦ find_key tests id
  | negative ↦ none
  | number i ↦ get_elem? tests i
]

unfoldable pub expand_testcases : List Test → (prefixes : List Text) → List Text
unfolding starts_with
expand_testcases [] prefixes = []
expand_testcases (t ∷ ts) prefixes =
    let rest = expand_testcases ts prefixes in
    if any (λ (p : Text). starts_with p t.key) prefixes then t.key ∷ rest else rest

-- The first is the one that `runTestcase` has for a test case that is not found.
pub data Status : Type 0 where
  upper_error : Status
  passed : Status
  running : Status
  waived : Status
  error_status : Status

pub record Entry : Type 0 where
  pub name : Text
  pub status : Status

-- The array of test cases under the title, and whether there is an array of that name at the root.
pub record Document : Type 0 where
  pub testcases : List Entry
  pub root_is_array : Bool

-- `JsonOutput::addTestcase`.
unfoldable pub add_testcase : Text → Status → Document → Document
add_testcase name status doc = record doc {
  testcases = doc.testcases ++ record { name = name; status = status } ∷ [];
}

-- An assignment to the status of the last test case.
unfoldable pub set_last : Status → List Entry → Option (List Entry)
set_last status [] = none
set_last status (e ∷ []) = some (record e { status = status } ∷ [])
set_last status (e ∷ f ∷ es) = do rest ← set_last status (f ∷ es); some (e ∷ rest)

-- The status that `JsonOutput::addTestcaseResults` sets.
unfoldable pub add_testcase_results : Document → Option Document
unfolding set_last
add_testcase_results doc = do
  es ← set_last passed doc.testcases
  some (record doc { testcases = es })

unfoldable pub last_is : Text → List Entry → Bool
last_is name [] = false
last_is name (e ∷ []) = same_text e.name name
last_is name (e ∷ f ∷ es) = last_is name (f ∷ es)

-- `JsonOutput::setTestcaseStatusAndAddIfNeeded`.
unfoldable pub set_testcase_status : Text → Status → Document → Option Document
unfolding add_testcase set_last last_is
set_testcase_status name status doc =
    if doc.root_is_array && last_is name doc.testcases
    then (do es ← set_last status doc.testcases; some (record doc { testcases = es }))
    else some (add_testcase name status doc)

-- The matrices that a test case adds while it runs.
unfoldable pub add_matrices : ℕ → Document → Option Document
unfolding add_testcase_results
add_matrices zero doc = some doc
add_matrices (suc k) doc = do doc' ← add_testcase_results doc; add_matrices k doc'

-- `runTestcase`, past the search.
unfoldable pub run_found : Test → Document → Option Document
unfolding add_testcase set_testcase_status add_matrices
run_found t doc =
    if t.passes_filter
    then (do
      doc' ← add_matrices t.matrices (add_testcase t.key running doc)
      if t.throws then set_testcase_status t.key error_status doc' else some doc')
    else some (add_testcase t.key waived doc)

-- `runTestcase`, with what the search found.
unfoldable pub run_result : (id : Text) → Option Test → Document → Option Document
unfolding run_found add_testcase
run_result id none doc = some (add_testcase id upper_error doc)
run_result id (some t) doc = run_found t doc

unfoldable pub run_testcase :
    (strtol : Text → Parsed) → List Test → (id : Text) → Document → Option Document
unfolding find_testcase run_result
run_testcase strtol tests id doc = run_result id (find_testcase strtol tests id) doc

unfoldable pub run_testcases :
    (strtol : Text → Parsed) → List Test → (ids : List Text) → Document → Option Document
unfolding run_testcase
run_testcases strtol tests [] doc = some doc
run_testcases strtol tests (id ∷ ids) doc = do
  doc' ← run_testcase strtol tests id doc
  run_testcases strtol tests ids doc'

-- Without ids all test cases are run.
unfoldable pub all_if_none : List Test → (ids : List Text) → List Text
all_if_none tests [] = map (λ (t : Test). t.key) tests
all_if_none tests (id ∷ ids) = id ∷ ids

-- The ids that `main` runs; nothing stands for the error that no prefix matches.
unfoldable pub select_testcases : List Test → (ids prefixes : List Text) → Option (List Text)
unfolding expand_testcases all_if_none
select_testcases tests ids [] = some (all_if_none tests ids)
select_testcases tests ids (p ∷ ps) =
    let expanded = expand_testcases tests (p ∷ ps) in
    if length expanded == 0 then none else some (all_if_none tests expanded)
