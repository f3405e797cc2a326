-- ===== src/Form/Order.antt =====
-- Writing a form from pairs, and ParseFormString (param/parser/parser.go).
use Prim.Native.Char.{Char, code}
use Prim.Native.String.{String, [], ◌∷◌}
use Prim.Native.String.compare.{cons-nil}
use text.Mathlib.TextLemmas.{nil-append, cons-append, append_assoc}
use stripe_mock_pi.Prelude.{
  ◌≡◌, refl, Bool, true, false, not, ◌&&◌, List, some, ap, ◌∙◌, sym, arith, nat_eq, ◌==◌,
}
use stripe_mock_pi.Text.Split.{without, split-without, split-cons, without-append}
use stripe_mock_pi.Text.{◌<>◌, split, trim_prefix}
use stripe_mock_pi.Form.{
  Values, is_percent, query_unescape, split_at_equals, parse_pair, pair_before, parse_pairs,
  parse_form_string,
}

-- A character that stands for itself in a form: none of `%`, `+`, `&`, `=` and `?`.
abbrev plain_char : Char → Bool
plain_char c =
    not (nat_eq (code c) 37)
    && (not (nat_eq (code c) 43)
        && (not (nat_eq (code c) 38) && (not (nat_eq (code c) 61) && not (nat_eq (code c) 63))))

abbrev pub plain : String → Bool
plain [] = true
plain (c ∷ s) = plain_char c && plain s

abbrev pub all_plain : Values → Bool
all_plain List.[] = true
all_plain (List.◌∷◌ (key, value) pairs) = plain key && (plain value && all_plain pairs)

abbrev pub write_pair : String → String → String
write_pair key value = key <> ("=" <> value)

abbrev pub write : Values → String
write List.[] = ""
write (List.◌∷◌ (key, value) List.[]) = write_pair key value
write (List.◌∷◌ (key, value) (List.◌∷◌ next pairs)) =
    write_pair key value <> ("&" <> write (List.◌∷◌ next pairs))

and-true : (a b : Bool) → (a && b) ≡ true → (a ≡ true) × (b ≡ true)
and-true a b h = ground arith

plain-head :
    (c : Char) (s : String) → plain (c ∷ s) ≡ true → (plain_char c ≡ true) × (plain s ≡ true)
plain-head c s h = ground arith

-- What a plain character is not.
record Plain (c : Char) : Type 0 where
  no_percent : is_percent c ≡ false
  no_plus : nat_eq (code c) 43 ≡ false
  no_equals : nat_eq (code c) 61 ≡ false
  no_question_mark : nat_eq 63 (code c) ≡ false

plain_char-Plain : (c : Char) → plain_char c ≡ true → Plain c
plain_char-Plain c h = record {
  no_percent = ground arith;
  no_plus = ground arith;
  no_equals = ground arith;
  no_question_mark = ground arith;
}

pub unescape-plain : (s : String) → plain s ≡ true → query_unescape s ≡ some s
unfolding query_unescape
unescape-plain [] h = refl
unescape-plain (c ∷ []) h =
    let p = plain_char-Plain c (plain-head c [] h).0 in
    rw (p.no_percent, query_unescape) (rw p.no_plus)
unescape-plain (c ∷ a ∷ []) h =
    let (c_plain, rest_plain) = plain-head c (a ∷ []) h in
    let p = plain_char-Plain c c_plain in
    rw (p.no_percent, query_unescape) (rw p.no_plus (rw (unescape-plain (a ∷ []) rest_plain)))
unescape-plain (c ∷ a ∷ b ∷ s) h =
    let (c_plain, rest_plain) = plain-head c (a ∷ b ∷ s) h in
    let p = plain_char-Plain c c_plain in
    rw (p.no_percent, query_unescape) (rw p.no_plus (rw (unescape-plain (a ∷ b ∷ s) rest_plain)))

split_at_equals-plain :
    (key value : String)
    → plain key ≡ true
    → split_at_equals (write_pair key value) ≡ (key, some value)
unfolding split_at_equals
split_at_equals-plain [] value h = rw (nil-append, cons-append, nil-append)
split_at_equals-plain (c ∷ key) value h =
    let (c_plain, rest_plain) = plain-head c key h in
    rw cons-append
      (rw (plain_char-Plain c c_plain).no_equals (rw (split_at_equals-plain key value rest_plain)))

plain-without : (s : String) → plain s ≡ true → without 38 s ≡ true
plain-without [] h = refl
plain-without (c ∷ s) h = ground (arith, plain-without s)

write_pair-without :
    (key value : String)
    → plain key ≡ true
    → plain value ≡ true
    → without 38 (write_pair key value) ≡ true
write_pair-without key value k v =
    without-append 38 key ("=" <> value) (plain-without key k)
      (rw (cons-append, nil-append) (plain-without value v))

parse-write_pair :
    (key value : String)
    → plain key ≡ true
    → plain value ≡ true
    → parse_pair (split_at_equals (write_pair key value)) ≡ some (key, value)
parse-write_pair key value k v =
    rw (split_at_equals-plain key value k) (rw (unescape-plain key k) (rw (unescape-plain value v)))

split-ampersand :
    (part rest : String)
    → without 38 part ≡ true
    → split 38 (part <> ("&" <> rest)) ≡ List.◌∷◌ part (split 38 rest)
split-ampersand part rest h =
    ap (λ t. split 38 (part <> t)) (cons-append "&" "" rest ∙ ap (λ t. "&" ∷ t) (nil-append rest))
    ∙ split-cons 38 part "&" rest refl h

-- The loop over a written form that has a pair.
parse_pairs-write :
    (key value : String) (pairs : Values)
    → plain key ≡ true
    → plain value ≡ true
    → all_plain pairs ≡ true
    → parse_pairs (split 38 (write (List.◌∷◌ (key, value) pairs)))
      ≡ some (List.◌∷◌ (key, value) pairs)
unfolding parse_pairs
parse_pairs-write key value List.[] k v h =
    rw (split-without 38 (write_pair key value) (write_pair-without key value k v))
      (rw (parse-write_pair key value k v))
parse_pairs-write key value (List.◌∷◌ (next, other) pairs) k v h =
    let (next_plain, rest_plain) = and-true (plain next) (plain other && all_plain pairs) h in
    let (other_plain, pairs_plain) = and-true (plain other) (all_plain pairs) rest_plain in
    ap parse_pairs (
      split-ampersand (write_pair key value) (write (List.◌∷◌ (next, other) pairs))
        (write_pair-without key value k v))
    ∙ ap (λ p. pair_before p (parse_pairs (split 38 (write (List.◌∷◌ (next, other) pairs)))))
        (parse-write_pair key value k v)
    ∙ ap (λ ps. pair_before (some (key, value)) ps)
        (parse_pairs-write next other pairs next_plain other_plain pairs_plain)

-- A text that does not begin with a question mark.
trim-plain : (c : Char) (s : String) → nat_eq 63 (code c) ≡ false → trim_prefix (c ∷ s) "?" ≡ c ∷ s
unfolding trim_prefix
trim-plain c s h = rw h

cons-nonempty : (c : Char) (s : String) → ((c ∷ s) == "") ≡ false
cons-nonempty c s = rw (cons-nil c s)

parse_form-cons :
    (c : Char) (s : String)
    → nat_eq 63 (code c) ≡ false
    → parse_form_string (c ∷ s) ≡ parse_pairs (split 38 (c ∷ s))
unfolding parse_form_string
parse_form-cons c s h = rw (trim-plain c s h) (rw (cons-nonempty c s))

-- A form that begins with a plain key and `=` is not empty, and has no question mark to trim.
parse_form-pairs :
    (key rest : String)
    → plain key ≡ true
    → parse_form_string (key <> ("=" <> rest)) ≡ parse_pairs (split 38 (key <> ("=" <> rest)))
parse_form-pairs [] rest h =
    let e = nil-append ("=" <> rest) ∙ cons-append "=" "" rest in
    ap parse_form_string e
    ∙ parse_form-cons "=" ("" <> rest) refl
    ∙ ap (λ t. parse_pairs (split 38 t)) (sym e)
parse_form-pairs (c ∷ key) rest h =
    let e = cons-append c key ("=" <> rest) in
    ap parse_form_string e
    ∙ parse_form-cons c (key <> ("=" <> rest))
        (plain_char-Plain c (plain-head c key h).0).no_question_mark
    ∙ ap (λ t. parse_pairs (split 38 t)) (sym e)

-- What follows the `=` of the first pair.
write-first :
    (key value : String) (pairs : Values)
    → (rest : String) × (write (List.◌∷◌ (key, value) pairs) ≡ key <> ("=" <> rest))
write-first key value List.[] = (value, refl)
write-first key value (List.◌∷◌ next pairs) =
    let more = "&" <> write (List.◌∷◌ next pairs) in
    (
      value <> more,
      append_assoc key ("=" <> value) more ∙ ap (λ t. key <> t) (append_assoc "=" value more),
    )

-- A form that is written from pairs of plain texts is parsed into those pairs, in their order: texts
-- without `%`, `+`, `&`, `=` and `?`, each pair as key, `=` and value, with `&` between them.
pub parse_form_string-write :
    (pairs : Values) → all_plain pairs ≡ true → parse_form_string (write pairs) ≡ some pairs
unfolding parse_form_string trim_prefix
parse_form_string-write List.[] h = refl
parse_form_string-write (List.◌∷◌ (key, value) pairs) h =
    let (key_plain, rest_plain) = and-true (plain key) (plain value && all_plain pairs) h in
    let (value_plain, pairs_plain) = and-true (plain value) (all_plain pairs) rest_plain in
    let (rest, is) = write-first key value pairs in
    ap parse_form_string is
    ∙ parse_form-pairs key rest key_plain
    ∙ ap (λ t. parse_pairs (split 38 t)) (sym is)
    ∙ parse_pairs-write key value pairs key_plain value_plain pairs_plain
