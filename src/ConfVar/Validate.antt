-- ===== src/ConfVar/Validate.antt =====
-- gear/confvar.c: which files are accepted as a configuration.
use sawang.Prelude.{
  ℕ, ◌≡◌, refl, ◌∙◌, ap, subst, true, Option, none, some, List, [], ◌∷◌, CString, is_some, str_eq,
  str_eq_iff, str_eq_refl, contains, arith, length, ltb, All, Option-cases, Bool-cases, inl, inr,
}
use sawang.ConfVar.{
  ConfVar, mandatory, confvar_create, confvar_value, first_absent, take, confvar_absent,
  confvar_validate, invalid_file, missing_key,
}

-- What `confvar_validate` makes of a file: its variables if every mandatory key has a value, and an
-- error otherwise, which names a mandatory key without a value if there is any variable at all.
pub data Validated (head : List ConfVar) (r : Option (List ConfVar) × Option CString) : Type 0 where
  accepted :
      r ≡ (some head, none)
      → All (λ k. is_some (confvar_value head k) ≡ true) mandatory
      → Validated head r
  no_variable : r ≡ (none, some invalid_file) → head ≡ [] → Validated head r
  missing :
      (k : CString)
      → r ≡ (none, some (missing_key k))
      → contains mandatory k ≡ true
      → confvar_value head k ≡ none
      → Validated head r

-- what the search for a key without a value says
abbrev Absent : List CString → List ConfVar → Option CString → Type 0
Absent keys head none = All (λ k. is_some (confvar_value head k) ≡ true) keys
Absent keys head (some k) = (contains keys k ≡ true) × (confvar_value head k ≡ none)

Absent-cons :
    (k : CString) (keys : List CString) (head : List ConfVar) (r : Option CString)
    → is_some (confvar_value head k) ≡ true
    → Absent keys head r
    → Absent (k ∷ keys) head r
unfolding contains
Absent-cons k keys head none h a = (h, a)
Absent-cons k keys head (some j) h (c, n) = (ground (arith, c), n)

first_absent-Absent :
    (keys : List CString) (head : List ConfVar) → Absent keys head (first_absent keys head)
unfolding first_absent contains
first_absent-Absent [] head = tt
first_absent-Absent (k ∷ keys) head = elim (Option-cases (confvar_value head k)) [
  | inl n ↦ rw (n, first_absent) (ground (arith, str_eq_refl k), n)
  | inr (v, e) ↦
      rw (e, first_absent)
        (Absent-cons k keys head (first_absent keys head) (ap is_some e)
          (first_absent-Absent keys head))
]

-- A mandatory key is not empty and fits into the buffer.
abbrev Fits : CString → Type 0
Fits k = (ltb 0 (length k) ≡ true) × (take 49 k ≡ k)

All-contains :
    (P : CString → Type 0) (keys : List CString) (k : CString)
    → All P keys
    → contains keys k ≡ true
    → P k
unfolding contains
All-contains P [] k h c = absurd (cc c)
All-contains P (j ∷ keys) k h c = elim (Bool-cases (str_eq j k)) [
  | inl e ↦ subst P ((str_eq_iff j k).0 e) h.0
  | inr e ↦ All-contains P keys k h.1 (ground (arith, e, c))
]

mandatory-Fits : All Fits mandatory
mandatory-Fits = ((refl, refl), ((refl, refl), ((refl, refl), ((refl, refl), tt))))

validate-found :
    (file : Option (List CString)) (cv : ConfVar) (rest : List ConfVar) (r : Option CString)
    → confvar_create file ≡ cv ∷ rest
    → first_absent mandatory (cv ∷ rest) ≡ r
    → Absent mandatory (cv ∷ rest) r
    → Validated (cv ∷ rest) (confvar_validate file)
unfolding confvar_validate confvar_absent
validate-found file cv rest none e f a = accepted (rw (e, f, confvar_validate)) a
validate-found file cv rest (some k) e f (c, n) =
    let (full, whole) = All-contains Fits mandatory k mandatory-Fits c in
    let buff : confvar_absent (cv ∷ rest) 50 ≡ (k, length k) = rw (f, whole, confvar_absent) in
    let named = ap (λ (p : CString × ℕ). p.0) buff in
    let some_left = ap (λ (p : CString × ℕ). ltb 0 p.1) buff ∙ full in
    missing k (rw (e, some_left, named, confvar_validate)) c n

validate-head :
    (file : Option (List CString)) (head : List ConfVar)
    → confvar_create file ≡ head
    → Validated head (confvar_validate file)
unfolding confvar_validate
validate-head file [] e = no_variable (rw (e, confvar_validate)) refl
validate-head file (cv ∷ rest) e =
    validate-found file cv rest (first_absent mandatory (cv ∷ rest)) e refl
      (first_absent-Absent mandatory (cv ∷ rest))

-- `confvar_validate` accepts exactly the files with a value for each mandatory key, and gives back
-- all that `confvar_create` reads; it refuses a file in which that reads nothing, with the error for
-- that, and any other with an error that names a mandatory key that has no value.
pub validate-Validated :
    (file : Option (List CString)) → Validated (confvar_create file) (confvar_validate file)
validate-Validated file = validate-head file (confvar_create file) refl
