-- ===== src/Text/Utf8.antt =====
-- Texts of bytes as UTF-8: what is left of them by `string([]rune(s))` and by `json.Marshal`, which
-- put U+FFFD in the place of each byte that does not belong to an encoding.
use Prim.Native.Char.{Char, code}
use Prim.Native.String.{String, [], ◌∷◌}
use text.Mathlib.TextLemmas.{nil-append, cons-append, append-nil}
use stripe_mock_pi.Prelude.{
  ℕ, zero, suc, ◌≡◌, refl, Bool, true, false, ◌&&◌, Option, none, some, leb, ltb, nat_eq,
  if◌then◌else◌, is_some, arith, ap, sym, ◌∙◌, Bool-cases, not, ◌==◌, eq_iff, inl, inr,
}
use stripe_mock_pi.Text.{◌<>◌}
use stripe_mock_pi.Bytes.{of_byte}

-- How many bytes follow a first byte, which is none of an encoding where there is no number.
abbrev bytes_behind : ℕ → Option ℕ
bytes_behind a =
    if ltb a 128
    then some 0
    else if ltb a 194
    then none
    else if ltb a 224
    then some 1
    else if ltb a 240
    then some 2
    else if ltb a 245
    then some 3
    else none

-- The range of the second byte.
abbrev second_fits : (first second : ℕ) → Bool
second_fits a b =
    leb (if nat_eq a 224 then 160 else if nat_eq a 240 then 144 else 128) b
    && leb b (if nat_eq a 237 then 159 else if nat_eq a 244 then 143 else 191)

abbrev starts_well : (first : ℕ) → String → Bool
starts_well a [] = false
starts_well a (c ∷ s) = second_fits a (code c)

-- So many continuation bytes.
abbrev continues : ℕ → String → Bool
continues zero s = true
continues (suc n) [] = false
continues (suc n) (c ∷ s) = (leb 128 (code c) && leb (code c) 191) && continues n s

abbrev encoded : (first : ℕ) → Option ℕ → String → Option ℕ
encoded a none s = none
encoded a (some zero) s = some zero
encoded a (some (suc n)) s = if starts_well a s && continues (suc n) s then some (suc n) else none

-- The bytes that belong to a first byte, for what follows it.
abbrev behind : (first : ℕ) → String → Option ℕ
behind a s = encoded a (bytes_behind a) s

abbrev or_zero : Option ℕ → ℕ
or_zero none = zero
or_zero (some n) = n

-- U+FFFD, by its first byte and the others.
abbrev first_mark : Char
first_mark = of_byte 239

abbrev other_marks : String
other_marks = of_byte 191 ∷ of_byte 189 ∷ []

abbrev replacement : String
replacement = first_mark ∷ other_marks

abbrev shown : Option ℕ → String → (rest : String) → String
shown none first rest = replacement <> rest
shown (some n) first rest = first <> rest

-- With so many bytes left of an encoding.
unfoldable pub valid_from : ℕ → String → String
valid_from n [] = []
valid_from zero (c ∷ s) =
    let width = behind (code c) s in shown width (c ∷ []) (valid_from (or_zero width) s)
valid_from (suc n) (c ∷ s) = c ∷ valid_from n s

abbrev pub to_valid : String → String
to_valid s = valid_from 0 s

unfoldable pub is_valid_from : ℕ → String → Bool
is_valid_from zero [] = true
is_valid_from (suc n) [] = false
is_valid_from zero (c ∷ s) =
    let width = behind (code c) s in is_some width && is_valid_from (or_zero width) s
is_valid_from (suc n) (c ∷ s) = is_valid_from n s

-- A text that is valid UTF-8.
abbrev pub is_valid : String → Bool
is_valid s = is_valid_from 0 s

continues-append : (n : ℕ) (s t : String) → continues n s ≡ true → continues n (s <> t) ≡ true
continues-append zero s t h = refl
continues-append (suc n) [] t h = ground (arith, h)
continues-append (suc n) (c ∷ s) t h = rw cons-append (ground (arith, continues-append n s t))

starts_well-append : (a : ℕ) (s t : String) → starts_well a s ≡ true → starts_well a (s <> t) ≡ true
starts_well-append a [] t h = ground (arith, h)
starts_well-append a (c ∷ s) t h = rw cons-append h

encoded-append :
    (a : ℕ) (width : Option ℕ) (s t : String)
    → is_some (encoded a width s) ≡ true
    → encoded a width (s <> t) ≡ encoded a width s
encoded-append a none s t h = refl
encoded-append a (some zero) s t h = refl
encoded-append a (some (suc n)) s t h =
    ground (arith, starts_well-append a s t, continues-append (suc n) s t)

shown-valid :
    (width : Option ℕ) (c : Char) (s t : String)
    → (is_some width && is_valid_from (or_zero width) s) ≡ true
    → ((n : ℕ) → is_valid_from n s ≡ true → valid_from n (s <> t) ≡ s <> to_valid t)
    → shown width (c ∷ []) (valid_from (or_zero width) (s <> t)) ≡ c ∷ (s <> to_valid t)
shown-valid none c s t h below = ground (arith, h)
shown-valid (some n) c s t h below =
    cons-append c [] (valid_from n (s <> t))
    ∙ ap (λ x. c ∷ x) (nil-append (valid_from n (s <> t)) ∙ below n (ground arith))

-- A valid text in front of another is left as it is.
pub valid_from-append :
    (n : ℕ) (s t : String) → is_valid_from n s ≡ true → valid_from n (s <> t) ≡ s <> to_valid t
unfolding valid_from is_valid_from
valid_from-append zero [] t h = rw (nil-append, nil-append)
valid_from-append (suc n) [] t h = ground (arith, h)
valid_from-append zero (c ∷ s) t h =
    let width = behind (code c) s in
    let same = encoded-append (code c) (bytes_behind (code c)) s t (ground arith) in
    ap (valid_from 0) (cons-append c s t)
    ∙ ap (λ w. shown w (c ∷ []) (valid_from (or_zero w) (s <> t))) same
    ∙ shown-valid width c s t h (λ n k. valid_from-append n s t k)
    ∙ sym (cons-append c s (to_valid t))
valid_from-append (suc n) (c ∷ s) t h =
    rw (cons-append, cons-append) (ap (λ x. c ∷ x) (valid_from-append n s t h))

-- A valid text is left as it is.
pub to_valid-valid : (s : String) → is_valid s ≡ true → to_valid s ≡ s
unfolding valid_from
to_valid-valid s h = ap to_valid (sym (append-nil s)) ∙ valid_from-append 0 s "" h ∙ append-nil s

-- A text without the first byte of U+FFFD.
abbrev pub unmarked : String → Bool
unmarked [] = true
unmarked (c ∷ s) = not (nat_eq (code c) 239) && unmarked s

shown-unmarked :
    (width : Option ℕ) (c : Char) (s : String)
    → unmarked (shown width (c ∷ []) (valid_from (or_zero width) s)) ≡ true
    → ((n : ℕ) → unmarked (valid_from n s) ≡ true → valid_from n s ≡ s)
    → shown width (c ∷ []) (valid_from (or_zero width) s) ≡ c ∷ s
shown-unmarked none c s h below =
    absurd (marked (sym (ap unmarked (cons-append first_mark other_marks (valid_from 0 s))) ∙ h))
  where
    marked : false ≡ true → ⊥
    marked e = ground (arith, e)
shown-unmarked (some n) c s h below =
    let same = cons-append c [] (valid_from n s) ∙ ap (λ x. c ∷ x) (nil-append (valid_from n s)) in
    let free : unmarked (c ∷ valid_from n s) ≡ true = sym (ap unmarked same) ∙ h in
    same ∙ ap (λ x. c ∷ x) (below n (ground (arith, free)))

-- Where nothing was replaced, the text is as it was.
valid_from-unmarked : (n : ℕ) (s : String) → unmarked (valid_from n s) ≡ true → valid_from n s ≡ s
unfolding valid_from
valid_from-unmarked n [] h = refl
valid_from-unmarked zero (c ∷ s) h =
    shown-unmarked (behind (code c) s) c s h (λ n k. valid_from-unmarked n s k)
valid_from-unmarked (suc n) (c ∷ s) h =
    ap (λ x. c ∷ x) (valid_from-unmarked n s (ground (arith, h)))

-- Only the text itself becomes a valid text without that byte.
pub to_valid-eq :
    (s t : String) → is_valid t ≡ true → unmarked t ≡ true → (to_valid s == t) ≡ (s == t)
to_valid-eq s t valid free = elim (Bool-cases (to_valid s == t)) [
  | inl e ↦
      let is = (eq_iff (to_valid s) t).0 e in
      let same = valid_from-unmarked 0 s (ap unmarked is ∙ free) in
      e ∙ sym ((eq_iff s t).1 (sym same ∙ is))
  | inr e ↦ elim (Bool-cases (s == t)) [
    | inl d ↦
        let is = ap to_valid ((eq_iff s t).0 d) ∙ to_valid-valid t valid in
        (eq_iff (to_valid s) t).1 is ∙ sym d
    | inr d ↦ e ∙ sym d
  ]
]
