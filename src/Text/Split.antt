-- ===== src/Text/Split.antt =====
-- Splitting a text at a separator.
use Prim.Native.Char.{Char, code}
use Prim.Native.String.{String, [], ◌∷◌}
use text.Mathlib.TextLemmas.{nil-append, cons-append}
use stripe_mock_pi.Prelude.{
  ℕ, ◌≡◌, refl, Bool, true, not, ◌&&◌, List, arith, nat_eq, Bool-cases, inl, inr,
}
use stripe_mock_pi.Text.{split, ◌<>◌}

-- A text without the character of this code.
abbrev pub without : ℕ → String → Bool
without sep [] = true
without sep (c ∷ s) = not (nat_eq (code c) sep) && without sep s

pub split-without : (sep : ℕ) (s : String) → without sep s ≡ true → split sep s ≡ List.◌∷◌ s List.[]
unfolding split
split-without sep [] h = refl
split-without sep (c ∷ s) h = elim (Bool-cases (nat_eq (code c) sep)) [
  | inl same ↦ ground arith
  | inr other ↦ rw other (rw (split-without sep s (ground arith)))
]

-- A part in front of a separator.
pub split-cons :
    (sep : ℕ) (part : String) (c : Char) (rest : String)
    → nat_eq (code c) sep ≡ true
    → without sep part ≡ true
    → split sep (part <> (c ∷ rest)) ≡ List.◌∷◌ part (split sep rest)
unfolding split
split-cons sep [] c rest is h = rw nil-append (rw is)
split-cons sep (d ∷ part) c rest is h = elim (Bool-cases (nat_eq (code d) sep)) [
  | inl same ↦ ground arith
  | inr other ↦ rw cons-append (rw other (rw (split-cons sep part c rest is (ground arith))))
]

pub without-append :
    (sep : ℕ) (s t : String)
    → without sep s ≡ true
    → without sep t ≡ true
    → without sep (s <> t) ≡ true
without-append sep [] t p q = rw nil-append q
without-append sep (c ∷ s) t p q = rw cons-append (ground (arith, without-append sep s t))
