-- ===== src/Runner/Recorded.antt =====
-- What the output records of the test cases that are run.
use nvbandwidth.Prelude.{
  ℕ, zero, suc, ◌≡◌, refl, sym, false, List, [], ◌∷◌, ◌++◌, Option, none, some, if◌then◌else◌,
  Bool-cases, inl, inr,
}
use nvbandwidth.Runner.{
  Text, Test, Parsed, find_testcase, Status, upper_error, passed, running, waived, error_status,
  Entry, Document, add_testcase, set_last, add_testcase_results, set_testcase_status, add_matrices,
  run_found, run_result, run_testcase, run_testcases,
}

-- The status of a test case that adds so many matrices.
abbrev pub status_after : (matrices : ℕ) → Status
status_after zero = running
status_after (suc k) = passed

-- The entries of one run.
abbrev pub entries_of : (id : Text) → Option Test → List Entry
entries_of id none = record { name = id; status = upper_error } ∷ []
entries_of id (some t) =
    if t.passes_filter
    then record { name = t.key; status = status_after t.matrices }
      ∷ (if t.throws then record { name = t.key; status = error_status } ∷ [] else [])
    else record { name = t.key; status = waived } ∷ []

abbrev pub all_entries : (strtol : Text → Parsed) → List Test → List Text → List Entry
all_entries strtol tests [] = []
all_entries strtol tests (id ∷ ids) =
    entries_of id (find_testcase strtol tests id) ++ all_entries strtol tests ids

abbrev with_entries : Document → List Entry → Document
with_entries doc es = record doc { testcases = doc.testcases ++ es }

append_assoc : (xs ys zs : List Entry) → (xs ++ ys) ++ zs ≡ xs ++ (ys ++ zs)
append_assoc [] ys zs = refl
append_assoc (x ∷ xs) ys zs = rw (append_assoc xs ys zs) refl

append_nil : (xs : List Entry) → xs ++ [] ≡ xs
append_nil [] = refl
append_nil (x ∷ xs) = rw (append_nil xs) refl

set_last_lem :
    (status : Status) (es : List Entry) (e : Entry)
    → set_last status (es ++ e ∷ []) ≡ some (es ++ record e { status = status } ∷ [])
unfolding set_last
set_last_lem status [] e = refl
set_last_lem status (f ∷ []) e = refl
set_last_lem status (f ∷ g ∷ es) e = rw (set_last_lem status (g ∷ es) e) refl

add_matrices-passed :
    (k : ℕ) (doc : Document) (name : Text)
    → add_matrices k (with_entries doc (record { name = name; status = passed } ∷ []))
      ≡ some (with_entries doc (record { name = name; status = passed } ∷ []))
unfolding add_matrices add_testcase_results
add_matrices-passed zero doc name = refl
add_matrices-passed (suc k) doc name =
    rw (set_last_lem passed doc.testcases (record { name = name; status = passed }))
      (add_matrices-passed k doc name)

add_matrices_lem :
    (k : ℕ) (doc : Document) (name : Text)
    → add_matrices k (with_entries doc (record { name = name; status = running } ∷ []))
      ≡ some (with_entries doc (record { name = name; status = status_after k } ∷ []))
unfolding add_matrices add_testcase_results
add_matrices_lem zero doc name = refl
add_matrices_lem (suc k) doc name =
    rw (set_last_lem passed doc.testcases (record { name = name; status = running }))
      (add_matrices-passed k doc name)

run_found_lem :
    (id : Text) (t : Test) (doc : Document)
    → doc.root_is_array ≡ false
    → run_found t doc ≡ some (with_entries doc (entries_of id (some t)))
unfolding run_found add_testcase set_testcase_status
run_found_lem id t doc h = elim (Bool-cases t.passes_filter) [
  | inr f ↦ rw f refl
  | inl f ↦ elim (Bool-cases t.throws) [
    | inr g ↦ rw (f, add_matrices_lem t.matrices doc t.key, g) refl
    | inl g ↦
        rw
          (
            f,
            add_matrices_lem t.matrices doc t.key,
            g,
            h,
            append_assoc doc.testcases
                (record { name = t.key; status = status_after t.matrices } ∷ [])
                (record { name = t.key; status = error_status } ∷ []),
          )
          refl
  ]
]

run_result_lem :
    (id : Text) (found : Option Test) (doc : Document)
    → doc.root_is_array ≡ false
    → run_result id found doc ≡ some (with_entries doc (entries_of id found))
unfolding run_result add_testcase
run_result_lem id none doc h = refl
run_result_lem id (some t) doc h = run_found_lem id t doc h

-- The run of any list of ids comes to its end, with no failed assertion, and appends the entries of each
-- of them in order: one of the status `ERROR` for an id that is not found, one that is waived, or one
-- that is passed, or still running without a matrix; a test case that throws leaves this entry as it is
-- and gets a second one of the status `Error`. No array of test cases is at the root of the document,
-- where none is ever made.
pub run_testcases_lem :
    (strtol : Text → Parsed) (tests : List Test) (ids : List Text) (doc : Document)
    → doc.root_is_array ≡ false
    → run_testcases strtol tests ids doc
      ≡ some (record doc { testcases = doc.testcases ++ all_entries strtol tests ids })
unfolding run_testcases run_testcase
run_testcases_lem strtol tests [] doc h = rw (append_nil doc.testcases) refl
run_testcases_lem strtol tests (id ∷ ids) doc h =
    let new = entries_of id (find_testcase strtol tests id) in
    rw
      (
        run_result_lem id (find_testcase strtol tests id) doc h,
        sym (append_assoc doc.testcases new (all_entries strtol tests ids)),
      )
      (run_testcases_lem strtol tests ids (with_entries doc new) h)
