-- ===== src/Float.antt =====
-- Go's `float64` by its bit pattern (IEEE 754 binary64): the conversion from `int`, the order, and
-- which patterns JSON can hold. Used by numberValue in server/paymentintents.go and by the JSON
-- round trip of deepCopyMap in server/stateful.go.
use stripe_mock_pi.Prelude.{
  ℕ, zero, suc, ◌+◌, ◌-◌, ◌*◌, ◌/◌, ◌%◌, ◌^◌, Bool, true, false, not, ltb, leb, nat_eq, ◌||◌, ◌&&◌,
  if◌then◌else◌,
}
use stripe_mock_pi.Prelude.Int.{ℤ, pos, negsuc}

-- How many binary digits `n` has, counting at most `fuel` of them; 64 are enough for an `int`.
unfoldable pub bit_length : ℕ → ℕ → ℕ
bit_length zero n = 0
bit_length (suc fuel) n = let rest = bit_length fuel (n / 2) in if nat_eq n 0 then 0 else suc rest

-- The quotient by `2 ^ s`, rounded to the nearest, ties to even.
abbrev round_even : ℕ → ℕ → ℕ
round_even n s =
    let q = n / 2 ^ s in
    let r = n % 2 ^ s in
    let half = 2 ^ (s - 1) in if ltb half r || (nat_eq r half && nat_eq (q % 2) 1) then q + 1 else q

-- A positive number whose top bit is bit `e`.
abbrev normal : ℕ → ℕ → ℕ
normal e n =
    let m = if leb e 52 then n * 2 ^ (52 - e) else round_even n (e - 52) in
    (e + 1023) * 2 ^ 52 + m - 2 ^ 52

-- `float64(n)` for a magnitude below 2^64.
of_nat : ℕ → ℕ
of_nat n = if nat_eq n 0 then 0 else normal (bit_length 64 n - 1) n

-- `float64(n)`
unfoldable pub of_int : ℤ → ℕ
unfolding of_nat bit_length
of_int (pos n) = of_nat n
of_int (negsuc n) = 2 ^ 63 + of_nat (n + 1)

abbrev magnitude : ℕ → ℕ
magnitude b = b % 2 ^ 63

abbrev is_negative : ℕ → Bool
is_negative b = leb (2 ^ 63) b

-- The pattern of +Inf; NaNs have larger magnitudes.
abbrev infinity : ℕ
infinity = 0x7ff0_0000_0000_0000

-- Neither an infinity nor a NaN: what `json.Marshal` accepts.
unfoldable pub is_finite : ℕ → Bool
is_finite b = ltb (magnitude b) infinity

abbrev is_nan : ℕ → Bool
is_nan b = ltb infinity (magnitude b)

abbrev gt_signed : Bool → Bool → ℕ → ℕ → Bool
gt_signed false false m n = ltb n m
gt_signed false true m n = ltb 0 m || ltb 0 n
gt_signed true false m n = false
gt_signed true true m n = ltb m n

-- `a > b`
unfoldable pub gt : ℕ → ℕ → Bool
gt a b =
    not (is_nan a)
    && not (is_nan b)
    && gt_signed (is_negative a) (is_negative b) (magnitude a) (magnitude b)
