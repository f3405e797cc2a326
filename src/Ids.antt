-- ===== src/Ids.antt =====
-- randomID and its parts (server/generator.go). The random numbers and the clock are inputs.
use Prim.Native.Char.{Char, nul}
use Prim.Native.String.{String, [], ◌∷◌}
use stripe_mock_pi.Prelude.{ℕ, zero, suc, ◌+◌, ◌-◌, ◌/◌, ◌%◌}
use stripe_mock_pi.Text.{◌<>◌}

-- The clock, in seconds of Unix time, and a stream of random numbers with how many were taken.
pub record Entropy : Type 0 where
  pub now : ℕ
  pub draws : ℕ → ℕ
  pub used : ℕ

-- `rand.Intn(n)`
unfoldable pub rand_intn : ℕ → Entropy → ℕ × Entropy
rand_intn n e = (e.draws e.used % n, record e { used = e.used + 1 })

abbrev pub random_id_random_length : ℕ
random_id_random_length = 10

abbrev pub random_id_time_length : ℕ
random_id_time_length = 5

abbrev pub random_id_time_reference : ℕ
random_id_time_reference = 1342389380

abbrev pub random_id_runes : String
random_id_runes = "01234567890ABCDEFGHIJKLMNOPQRSTUVWXYZabcdefghijklmnopqrstuvwxyz"

-- `len(randomIDRunes)`: the digit 0 stands in the list twice.
abbrev pub random_id_runes_length : ℕ
random_id_runes_length = 63

-- `runes[i]`; an index past the end, which no caller has, would panic.
unfoldable pub rune_at : String → ℕ → Char
rune_at [] i = nul
rune_at (c ∷ s) zero = c
rune_at (c ∷ s) (suc i) = rune_at s i

-- The loop of randomIDRandomPart, with the rounds left.
unfoldable pub random_runes : ℕ → Entropy → String × Entropy
random_runes zero e = ([], e)
random_runes (suc rounds) e =
    let (i, e') = rand_intn random_id_runes_length e in
    let (rest, e'') = random_runes rounds e' in (rune_at random_id_runes i ∷ rest, e'')

unfoldable pub random_id_random_part : Entropy → String × Entropy
random_id_random_part e = random_runes random_id_random_length e

-- The loop of randomIDTimePart: the low digits come first.
unfoldable pub time_runes : ℕ → ℕ → String
time_runes zero delta = []
time_runes (suc rounds) delta =
    rune_at random_id_runes (delta % random_id_runes_length)
    ∷ time_runes rounds (delta / random_id_runes_length)

unfoldable pub reverse_onto : String → String → String
reverse_onto [] t = t
reverse_onto (c ∷ s) t = reverse_onto s (c ∷ t)

-- The clock does not stand before the reference time.
unfoldable pub random_id_time_part : ℕ → String
unfolding time_runes reverse_onto rune_at
random_id_time_part now =
    reverse_onto (time_runes random_id_time_length (now - random_id_time_reference)) []

unfoldable pub random_id : String → Entropy → String × Entropy
unfolding random_id_time_part random_id_random_part random_runes rand_intn
random_id prefix e =
    let (random_part, e') = random_id_random_part e in
    (prefix <> ("_" <> (random_id_time_part e.now <> random_part)), e')
