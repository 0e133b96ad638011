-- ===== src/Parser/Strtol.antt =====
-- C's `strtol(s, &endptr, 10)` on a buffer that ends with a NUL, as `get_length` calls it.
use Prim.Native.Nat.{min}
use ns1_interview_redis.Prelude.{
  ℕ, ◌-◌, ◌+◌, ◌*◌, length, ◌^◌, ◌<◌, ◌≤◌, ◌≡◌, refl, Bool, true, false, ◌&&◌, ◌||◌, Option, none,
  some, [], ◌∷◌, ◌++◌, arith, leb, ◌==◌, if◌then◌else◌,
}
use ns1_interview_redis.Prelude.Int.{ℤ, pos, neg}
use ns1_interview_redis.Prelude.Bytes.{Bytes}
use ns1_interview_redis.Resp.Decimal.{
  decimal, starts_digit, scan_digits, scan_digits-decimal, decimal-starts_digit,
}

-- isspace in the "C" locale
abbrev pub is_space : ℕ → Bool
is_space c = c == 32 || (leb 9 c && leb c 13)

skip_spaces : Bytes → Bytes
skip_spaces [] = []
skip_spaces (c ∷ cs) = if is_space c then skip_spaces cs else c ∷ cs

-- A number out of the range of `long` becomes LONG_MIN or LONG_MAX.
abbrev to_long : Bool → ℕ → ℤ
to_long true n = neg (min n (2 ^ 63))
to_long false n = pos (min n (2 ^ 63 - 1))

digits_at : Bool → Bytes → Option (ℤ × Bytes)
digits_at negative s =
    if starts_digit s
    then (let (n, rest) = scan_digits 0 s in some (to_long negative n, rest))
    else none

signed_at : Bytes → Option (ℤ × Bytes)
signed_at [] = none
signed_at (c ∷ cs) =
    if c == b'-'
    then digits_at true cs
    else if c == b'+'
    then digits_at false cs
    else digits_at false (c ∷ cs)

-- The number with the bytes from `endptr` on; `none` where no digit was found, when the number is 0
-- and `endptr` is the start.
unfoldable pub strtol : Bytes → Option (ℤ × Bytes)
unfolding skip_spaces digits_at signed_at starts_digit scan_digits
strtol s = signed_at (skip_spaces s)

length-skip_spaces : (s : Bytes) → length (skip_spaces s) ≤ length s
unfolding skip_spaces
length-skip_spaces [] = omega arith
length-skip_spaces (c ∷ cs) = ground (arith, length-skip_spaces cs)

length-scan_digits : (n : ℕ) (s : Bytes) → length (scan_digits n s).1 ≤ length s
unfolding scan_digits
length-scan_digits n [] = omega arith
length-scan_digits n (c ∷ cs) = ground (arith, length-scan_digits (n * 10 + (c - 48)) cs)

length-scan_digits_starts :
    (n : ℕ) (s : Bytes) → starts_digit s ≡ true → length (scan_digits n s).1 < length s
unfolding starts_digit scan_digits
length-scan_digits_starts n [] h = cc
length-scan_digits_starts n (c ∷ cs) h =
    rw h (omega (arith, length-scan_digits (n * 10 + (c - 48)) cs))

length-digits_at :
    (negative : Bool) (s : Bytes) {n : ℤ} {rest : Bytes}
    → digits_at negative s ≡ some (n, rest)
    → length rest < length s
unfolding digits_at
length-digits_at negative s h = ground (arith, length-scan_digits_starts 0 s)

length-signed_at :
    (s : Bytes) {n : ℤ} {rest : Bytes} → signed_at s ≡ some (n, rest) → length rest < length s
unfolding signed_at
length-signed_at [] h = cc
length-signed_at (c ∷ cs) {n} {rest} h = ground (
  arith,
  length-digits_at true cs {n = n} {rest = rest},
  length-digits_at false cs {n = n} {rest = rest},
  length-digits_at false (c ∷ cs) {n = n} {rest = rest},
)

-- What `strtol` reads has a byte at least.
pub length-strtol :
    (s : Bytes) {n : ℤ} {rest : Bytes} → strtol s ≡ some (n, rest) → length rest < length s
unfolding strtol
length-strtol s h = omega (arith, length-skip_spaces s, length-signed_at (skip_spaces s) h)

skip_spaces-starts_digit : (s : Bytes) → starts_digit s ≡ true → skip_spaces s ≡ s
unfolding starts_digit skip_spaces
skip_spaces-starts_digit [] h = refl
skip_spaces-starts_digit (c ∷ cs) h = ground arith

signed_at-starts_digit : (s : Bytes) → starts_digit s ≡ true → signed_at s ≡ digits_at false s
unfolding starts_digit signed_at
signed_at-starts_digit [] h = cc
signed_at-starts_digit (c ∷ cs) h = ground arith

-- `strtol` reads back what a stream printed, up to the first byte that is no digit.
pub strtol-decimal :
    (n : ℕ) (rest : Bytes)
    → n < 2 ^ 63
    → starts_digit rest ≡ false
    → strtol (decimal n ++ rest) ≡ some (pos n, rest)
unfolding strtol
strtol-decimal n rest h e =
    let first = decimal-starts_digit n rest in
    rw
      (
        skip_spaces-starts_digit (decimal n ++ rest) first,
        signed_at-starts_digit (decimal n ++ rest) first,
        first,
        scan_digits-decimal n rest e,
      )
      (ground arith)

-- White space in front changes nothing.
pub strtol-space : (c : ℕ) (s : Bytes) → is_space c ≡ true → strtol (c ∷ s) ≡ strtol s
unfolding strtol
strtol-space c s space = rw space
