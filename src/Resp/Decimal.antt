-- ===== src/Resp/Decimal.antt =====
-- Decimal output of `std::stringstream`, and the digits that `strtol` reads.
use ns1_interview_redis.Prelude.{
  ℕ, zero, suc, ◌+◌, ◌-◌, ◌*◌, ◌/◌, ◌%◌, ◌≤◌, ◌<◌, ◌≡◌, refl, Bool, true, false, ◌&&◌, inl, inr, [],
  ◌∷◌, ◌++◌, append_assoc, arith, ltb, leb, if◌then◌else◌, Bool-cases, All, All-append,
}
use ns1_interview_redis.Prelude.Bytes.{Bytes}

-- The digits of `n`, with fuel for their number.
decimal_fuel : ℕ → ℕ → Bytes
decimal_fuel zero n = []
decimal_fuel (suc f) n =
    let front = decimal_fuel f (n / 10) in
    if ltb n 10 then (48 + n) ∷ [] else front ++ (48 + n % 10) ∷ []

-- `ss << n`
unfoldable pub decimal : ℕ → Bytes
unfolding decimal_fuel
decimal n = decimal_fuel (suc n) n

unfoldable pub is_digit : ℕ → Bool
is_digit c = leb 48 c && leb c 57

-- The digits at the front are added to the number read so far.
unfoldable pub scan_digits : ℕ → Bytes → ℕ × Bytes
unfolding is_digit
scan_digits n [] = (n, [])
scan_digits n (c ∷ cs) =
    let more = scan_digits (n * 10 + (c - 48)) cs in if is_digit c then more else (n, c ∷ cs)

unfoldable pub starts_digit : Bytes → Bool
unfolding is_digit
starts_digit [] = false
starts_digit (c ∷ cs) = is_digit c

abbrev pub IsDigit : ℕ → Type 0
IsDigit c = (48 ≤ c) × (c ≤ 57)

-- The value of a digit string, from the number read so far.
value_from : ℕ → Bytes → ℕ
value_from n [] = n
value_from n (c ∷ cs) = value_from (n * 10 + (c - 48)) cs

value_from-append :
    (n : ℕ) (xs ys : Bytes) → value_from n (xs ++ ys) ≡ value_from (value_from n xs) ys
unfolding value_from
value_from-append n [] ys = refl
value_from-append n (x ∷ xs) ys = value_from-append (n * 10 + (x - 48)) xs ys

decimal_fuel-IsDigit : (f n : ℕ) → All IsDigit (decimal_fuel f n)
unfolding decimal_fuel
decimal_fuel-IsDigit zero n = tt
decimal_fuel-IsDigit (suc f) n = elim (Bool-cases (ltb n 10)) [
  | inl one ↦ rw one ((omega arith, ground arith), tt)
  | inr more ↦ rw more (
      All-append IsDigit (decimal_fuel f (n / 10)) ((48 + n % 10) ∷ [])
        (decimal_fuel-IsDigit f (n / 10)) ((omega arith, omega arith), tt))
]

value_from-decimal : (f n : ℕ) → n < f → value_from 0 (decimal_fuel f n) ≡ n
unfolding decimal_fuel value_from
value_from-decimal zero n h = elim h [ ]
value_from-decimal (suc f) n h = elim (Bool-cases (ltb n 10)) [
  | inl one ↦ rw one (ground arith)
  | inr more ↦ rw (more, value_from-append) (ground (arith, value_from-decimal f (n / 10)))
]

scan_digits-IsDigit :
    (n : ℕ) (xs rest : Bytes)
    → All IsDigit xs
    → starts_digit rest ≡ false
    → scan_digits n (xs ++ rest) ≡ (value_from n xs, rest)
unfolding scan_digits starts_digit value_from
scan_digits-IsDigit n [] [] h e = refl
scan_digits-IsDigit n [] (c ∷ rest) h e = rw e
scan_digits-IsDigit n (x ∷ xs) rest h e =
    ground (arith, scan_digits-IsDigit (n * 10 + (x - 48)) xs rest h.1 e)

pub scan_digits-decimal :
    (n : ℕ) (rest : Bytes)
    → starts_digit rest ≡ false
    → scan_digits 0 (decimal n ++ rest) ≡ (n, rest)
unfolding decimal
scan_digits-decimal n rest e = rw (
  scan_digits-IsDigit 0 _ rest (decimal_fuel-IsDigit (suc n) n) e,
  value_from-decimal (suc n) n (omega arith),
)

decimal_fuel-starts_digit :
    (f n : ℕ) (rest : Bytes) → n < f → starts_digit (decimal_fuel f n ++ rest) ≡ true
unfolding decimal_fuel starts_digit
decimal_fuel-starts_digit zero n rest h = elim h [ ]
decimal_fuel-starts_digit (suc f) n rest h = elim (Bool-cases (ltb n 10)) [
  | inl one ↦ rw one (ground arith)
  | inr more ↦
      rw (more, append_assoc)
        (decimal_fuel-starts_digit f (n / 10) ((48 + n % 10) ∷ [] ++ rest) (ground arith))
]

pub decimal-starts_digit : (n : ℕ) (rest : Bytes) → starts_digit (decimal n ++ rest) ≡ true
unfolding decimal
decimal-starts_digit n rest = decimal_fuel-starts_digit (suc n) n rest (omega arith)

pub decimal-IsDigit : (n : ℕ) → All IsDigit (decimal n)
unfolding decimal
decimal-IsDigit n = decimal_fuel-IsDigit (suc n) n
