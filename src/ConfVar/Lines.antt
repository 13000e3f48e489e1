-- ===== src/ConfVar/Lines.antt =====
-- gear/confvar.c: which lines give which variables.
use sawang.Prelude.{
  ℕ, ◌≡◌, refl, sym, ◌∙◌, ap, subst, Bool, true, ◌&&◌, not, Option, none, some, List, [], ◌∷◌, ◌++◌,
  map, append_assoc, CString, arith, length, ltb, ◌==◌, All, Option-cases, Bool-cases, inl, inr,
}
use sawang.ConfVar.{ConfVar, is_blank, squeeze_space, cut, chomp, parse, create}

-- A byte does not occur in a text.
abbrev pub lacks : ℕ → CString → Bool
lacks b [] = true
lacks b (c ∷ s) = not (c == b) && lacks b s

-- A text has no blank and no `#`.
abbrev pub is_squeezed : CString → Bool
is_squeezed [] = true
is_squeezed (c ∷ s) = not (c == b'#') && (not (is_blank c) && is_squeezed s)

-- A variable as a line can give it.
pub record IsPlain (p : ConfVar) : Type 0 where
  pub squeezed_name : is_squeezed p.name ≡ true
  pub squeezed_value : is_squeezed p.value ≡ true
  pub lacks_equals : lacks b'=' p.name ≡ true
  pub lacks_newline_name : lacks b'\n' p.name ≡ true
  pub lacks_newline_value : lacks b'\n' p.value ≡ true
  pub has_value : ltb 0 (length p.value) ≡ true

-- The line `name=value`.
abbrev pub print_line : ConfVar → CString
print_line p = p.name ++ (b'=' ∷ (p.value ++ (b'\n' ∷ [])))

lacks-append : (b : ℕ) (s t : CString) → lacks b (s ++ t) ≡ (lacks b s && lacks b t)
lacks-append b [] t = refl
lacks-append b (c ∷ s) t = ground (arith, lacks-append b s t)

cut-append : (b : ℕ) (s t : CString) → lacks b s ≡ true → cut b (s ++ (b ∷ t)) ≡ some (s, t)
unfolding cut
cut-append b [] t h = ground arith
cut-append b (c ∷ s) t h = ground (arith, cut-append b s t)

squeeze_space-is_squeezed : (s : CString) → is_squeezed s ≡ true → squeeze_space s ≡ s
unfolding squeeze_space
squeeze_space-is_squeezed [] h = refl
squeeze_space-is_squeezed (c ∷ s) h = ground (arith, squeeze_space-is_squeezed s)

parse-print_line : (p : ConfVar) → IsPlain p → parse (print_line p) ≡ some p
unfolding parse chomp
parse-print_line p h =
    let body = p.name ++ (b'=' ∷ p.value) in
    let whole : print_line p ≡ body ++ (b'\n' ∷ []) =
      sym (append_assoc p.name (b'=' ∷ p.value) (b'\n' ∷ [])) in
    let line : cut b'\n' (print_line p) ≡ some (body, []) =
      ap (cut b'\n') whole
      ∙ cut-append b'\n' body [] (
          ground (
            arith,
            lacks-append b'\n' p.name (b'=' ∷ p.value),
            h.lacks_newline_name,
            h.lacks_newline_value,
          )) in
    let parts = cut-append b'=' p.name p.value h.lacks_equals in
    ground (
      arith,
      line,
      parts,
      squeeze_space-is_squeezed p.name,
      squeeze_space-is_squeezed p.value,
      h.squeezed_name,
      h.squeezed_value,
      h.has_value,
    )

-- Variables that are written one to a line, as `name=value`, are read back as they are, in their
-- order, if names and values have no blank, no `#` and no newline, names no `=`, and no value is
-- empty.
pub create-print_line : (ps : List ConfVar) → All IsPlain ps → create (map print_line ps) ≡ ps
unfolding create
create-print_line [] h = refl
create-print_line (p ∷ ps) h = rw (parse-print_line p h.0, create, create-print_line ps h.1)

squeeze_space-squeezes : (s : CString) → is_squeezed (squeeze_space s) ≡ true
unfolding squeeze_space
squeeze_space-squeezes [] = refl
squeeze_space-squeezes (c ∷ s) = ground (arith, squeeze_space-squeezes s)

squeeze_space-lacks : (b : ℕ) (s : CString) → lacks b s ≡ true → lacks b (squeeze_space s) ≡ true
unfolding squeeze_space
squeeze_space-lacks b [] h = refl
squeeze_space-lacks b (c ∷ s) h = ground (arith, squeeze_space-lacks b s)

abbrev both_lack : ℕ → Option (CString × CString) → Bool
both_lack d none = true
both_lack d (some (before, after)) = lacks d before && lacks d after

-- what stands before the cut, or the whole text if there is none
abbrev before_lacks : ℕ → CString → Option (CString × CString) → Bool
before_lacks d s none = lacks d s
before_lacks d s (some (before, after)) = lacks d before

cut-lacks : (b d : ℕ) (s : CString) → lacks d s ≡ true → both_lack d (cut b s) ≡ true
unfolding cut
cut-lacks b d [] l = refl
cut-lacks b d (c ∷ s) l = ground (arith, cut-lacks b d s)

cut-before_lacks : (b : ℕ) (s : CString) → before_lacks b s (cut b s) ≡ true
unfolding cut
cut-before_lacks b [] = refl
cut-before_lacks b (c ∷ s) = ground (arith, cut-before_lacks b s)

chomp-lacks : (s : CString) → lacks b'\n' (chomp s) ≡ true
unfolding chomp
chomp-lacks s = ground (arith, cut-before_lacks b'\n' s)

-- Each variable that `create` reads is as a line can give it.
abbrev OptIsPlain : Option ConfVar → Type 0
OptIsPlain none = Unit {0}
OptIsPlain (some p) = IsPlain p

parse-IsPlain : (line : CString) → OptIsPlain (parse line)
unfolding parse
parse-IsPlain line = elim (Option-cases (cut b'=' (chomp line))) [
  | inl n ↦ rw (n, parse) tt
  | inr ((before, after), e) ↦ elim (Bool-cases (ltb 0 (length (squeeze_space after)))) [
    | inr b ↦ rw (e, b, parse) tt
    | inl b ↦
        let both = cut-lacks b'=' b'\n' (chomp line) (chomp-lacks line) in
        let name = cut-before_lacks b'=' (chomp line) in
        rw (e, b, parse)
          (record {
            squeezed_name = squeeze_space-squeezes before;
            squeezed_value = squeeze_space-squeezes after;
            lacks_equals = squeeze_space-lacks b'=' before (ground (arith, name, e));
            lacks_newline_name = squeeze_space-lacks b'\n' before (ground (arith, both, e));
            lacks_newline_value = squeeze_space-lacks b'\n' after (ground (arith, both, e));
            has_value = b;
          })
  ]
]

-- Whatever the lines of a file are, each variable that is read from them has a name and a value
-- without blanks, `#` and newlines, no `=` in its name, and a value that is not empty.
create-IsPlain : (lines : List CString) → All IsPlain (create lines)
unfolding create
create-IsPlain [] = tt
create-IsPlain (line ∷ lines) = elim (Option-cases (parse line)) [
  | inl n ↦ rw (n, create) (create-IsPlain lines)
  | inr (p, e) ↦ rw (e, create) (subst OptIsPlain e (parse-IsPlain line), create-IsPlain lines)
]
