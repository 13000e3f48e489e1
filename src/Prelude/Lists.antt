-- ===== src/Prelude/Lists.antt =====
-- Lists measured by native numbers, and C strings as lists of byte codes.
use Prim.Native.Nat.{ℕ, zero, suc, ◌+◌, ◌<◌}
use Prim.Native.Char.{code}
use Prim.Native.String.{String}
use mathlib.Core.Path.{◌≡◌, refl}
use mathlib.Core.Logic.{◌↔◌}
use mathlib.Core.Bool.{Bool, true, false, ◌&&◌, ◌||◌}
use mathlib.Core.Option.{Option, none, some}
use mathlib.Core.List.{List, [], ◌∷◌, ◌++◌}
use native.Mathlib.Omega.{arith}
use sawang.Prelude.Tests.{◌==◌, if◌then◌else◌, is_some}

module _ {ℓ} {A : Type ℓ} where
  abbrev pub length : List A → ℕ
  length [] = 0
  length (x ∷ xs) = suc (length xs)

  abbrev pub get_elem? : List A → ℕ → Option A
  get_elem? [] i = none
  get_elem? (x ∷ xs) zero = some x
  get_elem? (x ∷ xs) (suc i) = get_elem? xs i

  -- The list without the element at an index; out of range it is the list itself.
  abbrev pub erase_idx : List A → ℕ → List A
  erase_idx [] i = []
  erase_idx (x ∷ xs) zero = xs
  erase_idx (x ∷ xs) (suc i) = x ∷ erase_idx xs i

  pub length-append : (xs ys : List A) → length (xs ++ ys) ≡ length xs + length ys
  length-append [] ys = omega arith
  length-append (x ∷ xs) ys = omega (arith, length-append xs ys)

-- A predicate holds of every element.
abbrev pub All {ℓ κ} : {A : Type ℓ} → (A → Type κ) → List A → Type κ
All P [] = Unit
All P (x ∷ xs) = P x × All P xs

-- A C string: its bytes, without the terminating zero.
abbrev pub CString : Type 0
CString = List ℕ

abbrev pub codes : String → CString
codes String.[] = []
codes (String.◌∷◌ c s) = code c ∷ codes s

-- strcmp(s, t) == 0
unfoldable pub str_eq : CString → CString → Bool
str_eq [] [] = true
str_eq (a ∷ s) (b ∷ t) = a == b && str_eq s t
str_eq _ _ = false

pub str_eq_iff : (s t : CString) → (str_eq s t ≡ true) ↔ (s ≡ t)
unfolding str_eq
str_eq_iff [] [] = (λ _. refl, λ _. refl)
str_eq_iff [] (b ∷ t) = ground arith
str_eq_iff (a ∷ s) [] = ground arith
str_eq_iff (a ∷ s) (b ∷ t) = ground (arith, str_eq_iff s t)

pub str_eq_refl : (s : CString) → str_eq s s ≡ true
str_eq_refl s = (str_eq_iff s s).1 refl

unfoldable pub contains : List CString → CString → Bool
contains [] s = false
contains (x ∷ xs) s = str_eq x s || contains xs s

-- The index of the first occurrence.
unfoldable pub index_of : List CString → CString → Option ℕ
index_of [] s = none
index_of (x ∷ xs) s =
    if str_eq x s then some 0 else elim (index_of xs s) [ none ↦ none | some i ↦ some (suc i) ]

-- The list without the first occurrence.
unfoldable pub remove_first : List CString → CString → List CString
remove_first [] s = []
remove_first (x ∷ xs) s = if str_eq x s then xs else x ∷ remove_first xs s

pub index_of-contains : (xs : List CString) (s : CString) → is_some (index_of xs s) ≡ contains xs s
unfolding index_of contains
index_of-contains [] s = refl
index_of-contains (x ∷ xs) s = ground (arith, index_of-contains xs s)

pub erase_idx-index_of :
    (xs : List CString) (s : CString) (i : ℕ)
    → index_of xs s ≡ some i
    → erase_idx xs i ≡ remove_first xs s
unfolding index_of remove_first
erase_idx-index_of [] s i e = cc
erase_idx-index_of (x ∷ xs) s zero e = ground arith
erase_idx-index_of (x ∷ xs) s (suc i) e = ground (arith, erase_idx-index_of xs s i)

pub length-remove_first :
    (xs : List CString) (s : CString)
    → contains xs s ≡ true
    → length (remove_first xs s) + 1 ≡ length xs
unfolding contains remove_first
length-remove_first [] s e = cc
length-remove_first (x ∷ xs) s e = ground (arith, length-remove_first xs s)

pub remove_first_absent :
    (xs : List CString) (s : CString) → contains xs s ≡ false → remove_first xs s ≡ xs
unfolding contains remove_first
remove_first_absent [] s e = refl
remove_first_absent (x ∷ xs) s e = ground (arith, remove_first_absent xs s)

pub nil_of_length {ℓ} : {A : Type ℓ} (xs : List A) → length xs < 1 → xs ≡ []
nil_of_length [] h = refl
nil_of_length (x ∷ xs) h = absurd (omega arith)

pub contains-append :
    (xs ys : List CString) (s : CString) → contains (xs ++ ys) s ≡ (contains xs s || contains ys s)
unfolding contains
contains-append [] ys s = refl
contains-append (x ∷ xs) ys s = ground (arith, contains-append xs ys s)

-- No string occurs twice.
abbrev pub IsDistinct : List CString → Type 0
IsDistinct [] = Unit
IsDistinct (x ∷ xs) = (contains xs x ≡ false) × IsDistinct xs

pub contains-remove_first_ne :
    (xs : List CString) (s t : CString)
    → str_eq s t ≡ false
    → contains (remove_first xs s) t ≡ contains xs t
unfolding contains remove_first
contains-remove_first_ne [] s t e = refl
contains-remove_first_ne (x ∷ xs) s t e =
    ground (arith, contains-remove_first_ne xs s t, str_eq_iff x s, str_eq_iff x t, str_eq_iff s t)

pub contains-remove_first_le :
    (xs : List CString) (s t : CString)
    → contains xs t ≡ false
    → contains (remove_first xs s) t ≡ false
unfolding contains remove_first
contains-remove_first_le [] s t e = refl
contains-remove_first_le (x ∷ xs) s t e = ground (arith, contains-remove_first_le xs s t)

pub remove_first-IsDistinct :
    (xs : List CString) (s : CString)
    → IsDistinct xs
    → IsDistinct (remove_first xs s) × (contains (remove_first xs s) s ≡ false)
unfolding contains remove_first
remove_first-IsDistinct [] s d = (tt, refl)
remove_first-IsDistinct (x ∷ xs) s d =
    ground
      (arith, remove_first-IsDistinct xs s d.1, contains-remove_first_le xs s x, str_eq_iff x s)

pub append-IsDistinct :
    (xs : List CString) (s : CString)
    → IsDistinct xs
    → contains xs s ≡ false
    → IsDistinct (xs ++ (s ∷ []))
unfolding contains
append-IsDistinct [] s d e = (refl, tt)
append-IsDistinct (x ∷ xs) s d e = ground (
  arith,
  append-IsDistinct xs s d.1,
  contains-append xs (s ∷ []) x,
  str_eq_iff x s,
  str_eq_iff s x,
)

pub remove_first-append :
    (xs : List CString) (s : CString) → contains xs s ≡ false → remove_first (xs ++ (s ∷ [])) s ≡ xs
unfolding contains remove_first
remove_first-append [] s e = ground (arith, str_eq_refl s)
remove_first-append (x ∷ xs) s e = ground (arith, remove_first-append xs s)
