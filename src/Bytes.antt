-- ===== src/Bytes.antt =====
-- Texts as bytes, and `base64.StdEncoding.DecodeString` (used by apiKeyFromAuth in
-- server/stateful.go and validateAuth in server/server.go).
use Prim.Native.Nat.{compare, Ordering}
use Prim.Native.Char.{Char, char, nul, code}
use Prim.Native.String.{String}
use stripe_mock_pi.Prelude.{
  ℕ, ◌+◌, ◌-◌, ◌*◌, ◌/◌, ◌%◌, ◌≡◌, refl, List, [], ◌∷◌, Option, none, some, leb, nat_eq, ◌&&◌, ◌||◌,
  if◌then◌else◌,
}

abbrev pub bytes_of : String → List ℕ
bytes_of String.[] = []
bytes_of (String.◌∷◌ c s) = code c ∷ bytes_of s

-- The character with a number below 0xd800, and U+0000 for the numbers above.
abbrev of_compared : (n : ℕ) (o : Ordering) → compare n 55296 ≡ o → Char
of_compared n Ordering.lt e = char n (rw e tt)
of_compared n Ordering.eq e = nul
of_compared n Ordering.gt e = nul

-- The character that stands for a byte.
abbrev pub of_byte : ℕ → Char
of_byte n = of_compared n (compare n 55296) refl

abbrev pub text_of : List ℕ → String
text_of [] = String.[]
text_of (b ∷ bs) = String.◌∷◌ (of_byte b) (text_of bs)

-- The value of a base64 digit.
abbrev base64_digit : ℕ → Option ℕ
base64_digit c =
    if leb b'A' c && leb c b'Z'
    then some (c - 65)
    else if leb b'a' c && leb c b'z'
    then some (c - 71)
    else if leb b'0' c && leb c b'9'
    then some (c + 4)
    else if nat_eq c b'+'
    then some 62
    else if nat_eq c b'/'
    then some 63
    else none

infixl 5 ◌>>=◌
abbrev ◌>>=◌ {ℓ κ} : {A : Type ℓ} {B : Type κ} → Option A → (A → Option B) → Option B
none >>= f = none
some a >>= f = f a

-- Line ends are skipped wherever they stand.
without_newlines : List ℕ → List ℕ
without_newlines [] = []
without_newlines (c ∷ cs) =
    let rest = without_newlines cs in if nat_eq c 10 || nat_eq c 13 then rest else c ∷ rest

-- A last quantum `ab==` or `abc=`. Its spare bits are not looked at.
last_quantum : (a b c : ℕ) → List ℕ → Option (List ℕ)
last_quantum a b c [] =
    if nat_eq c b'='
    then (do x ← base64_digit a; y ← base64_digit b; some ((x * 64 + y) / 16 ∷ []))
    else do
      x ← base64_digit a
      y ← base64_digit b
      z ← base64_digit c
      let v = (x * 4096 + y * 64 + z) / 4
      some (v / 256 ∷ v % 256 ∷ [])
last_quantum a b c (_ ∷ _) = none

full_quantum : (a b c d : ℕ) → List ℕ → Option (List ℕ)
full_quantum a b c d rest = do
  x ← base64_digit a
  y ← base64_digit b
  z ← base64_digit c
  w ← base64_digit d
  let v = x * 262144 + y * 4096 + z * 64 + w
  some (v / 65536 ∷ v / 256 % 256 ∷ v % 256 ∷ rest)

decode_quanta : List ℕ → Option (List ℕ)
decode_quanta [] = some []
decode_quanta (a ∷ b ∷ c ∷ d ∷ rest) =
    let more = decode_quanta rest in
    if nat_eq d b'='
    then last_quantum a b c rest
    else do decoded ← more; full_quantum a b c d decoded
decode_quanta _ = none

-- `base64.StdEncoding.DecodeString(s)`
unfoldable pub base64_decode : String → Option String
unfolding without_newlines last_quantum full_quantum decode_quanta
base64_decode s = do decoded ← decode_quanta (without_newlines (bytes_of s)); some (text_of decoded)
