-- ===== src/Parser/Returns.antt =====
-- What the parser gives on every input: its fuel suffices, it consumes bytes, and the objects that
-- it builds have the shape `IsWire`.
use native.Mathlib.Nat.{le_refl}
use ns1_interview_redis.Prelude.{
  ℕ, zero, suc, ◌-◌, ◌%◌, ◌^◌, ◌<◌, ◌≤◌, ◌≡◌, ◌≢◌, refl, ap, not, ◌&&◌, ◌||◌, Option, none, some,
  [], ◌∷◌, arith, length, All, ltb, ◌==◌, Bool-cases, inl, inr,
}
use ns1_interview_redis.Prelude.Int.{ℤ, pos, negsuc, to_int, is_negative, signed32}
use ns1_interview_redis.Prelude.Bytes.{Bytes, c_str, length-c_str, All-c_str}
use ns1_interview_redis.Resp.{
  RespObject, RespObjects, bulk_string, array, size, resp_array, resp_bulk_string, RespDatatype,
}
use ns1_interview_redis.Parser.Result.{Parser, invalid_array_length}
use ns1_interview_redis.Parser.Strtol.{strtol, length-strtol}
use ns1_interview_redis.Parser.{
  get_type, is_zero, at_nul, checked_length, get_length, skip_crlf, scan_content, bulk_content,
  get_bulk_string_internal, get_bulk_string_object, get_object_of, array_of, get_array_object,
  get_array_items, parse,
}
use ns1_interview_redis.Parser.Wire.{
  IsClean, IsWire, null, text, items, AreWire, done, item, Parses, parsed, refused, Parses-then_run,
  Parses-le, Parses-if, Parses-restore, Parses-report,
}

-- An `int` that is not negative.
abbrev FitsInt : ℤ → Type 0
FitsInt (pos n) = n < 2 ^ 31
FitsInt (negsuc n) = Unit

signed32-FitsInt : (m : ℕ) → FitsInt (signed32 m)
signed32-FitsInt m = elim (Bool-cases (ltb m (2 ^ 31))) [
  | inl small ↦ rw small (ground arith)
  | inr big ↦ rw big tt
]

to_int-FitsInt : (x : ℤ) → FitsInt (to_int x)
unfolding to_int
to_int-FitsInt (pos n) = signed32-FitsInt (n % 2 ^ 32)
to_int-FitsInt (negsuc n) = signed32-FitsInt (2 ^ 32 - 1 - n % 2 ^ 32)

get_type-Parses : (s : Bytes) → Parses (λ _. Unit {0}) (length s) (get_type s)
unfolding get_type
get_type-Parses [] = refused
get_type-Parses (c ∷ cs) =
    let more = le_refl (suc (length cs)) in
    Parses-if (c == b'+') (λ _. parsed tt more)
      λ _.
        Parses-if (c == b'-') (λ _. parsed tt more)
          λ _.
            Parses-if (c == b':') (λ _. parsed tt more)
              λ _.
                Parses-if (c == b'$') (λ _. parsed tt more)
                  λ _. Parses-if (c == b'*') (λ _. parsed tt more) (λ _. refused)

skip_crlf-Parses : (s : Bytes) → Parses (λ _. Unit {0}) (length s) (skip_crlf s)
unfolding skip_crlf
skip_crlf-Parses [] = refused
skip_crlf-Parses (c ∷ []) = refused
skip_crlf-Parses (c ∷ d ∷ cs) =
    Parses-if (c == 13 && d == 10) (λ _. parsed tt (omega arith)) (λ _. refused)

checked_length-Parses :
    (c : ℕ) (cs : Bytes) (o : Option (ℤ × Bytes))
    → ((n : ℤ) (rest : Bytes) → o ≡ some (n, rest) → length rest < length (c ∷ cs))
    → Parses FitsInt (length (c ∷ cs)) (checked_length c cs o)
unfolding checked_length
checked_length-Parses c cs none h = refused
checked_length-Parses c cs (some (n, rest)) h =
    Parses-if (is_zero n && (not (c == 0) && at_nul rest)) (λ _. refused)
      (λ _. parsed (to_int-FitsInt n) (h n rest refl))

get_length-Parses : (s : Bytes) → Parses FitsInt (length s) (get_length s)
unfolding get_length
get_length-Parses [] = refused
get_length-Parses (c ∷ cs) =
    checked_length-Parses c cs (strtol (c ∷ cs)) (λ n rest e. length-strtol (c ∷ cs) e)

-- A byte that the content of a bulk string may have.
abbrev pub IsContent : ℕ → Type 0
IsContent c = (c ≢ 13) × (c ≢ 10)

scan_content-Parses :
    (n : ℕ) (s : Bytes)
    → Parses (λ xs. All IsContent xs × (length xs ≡ n)) (suc (length s)) (scan_content n s)
unfolding scan_content
scan_content-Parses zero s = parsed (tt, refl) (omega arith)
scan_content-Parses (suc n) [] = refused
scan_content-Parses (suc n) (c ∷ cs) =
    Parses-if (c == 13 || c == 10) (λ _. refused)
      λ other.
        Parses-then_run (scan_content-Parses n cs)
          λ xs rest p h. parsed ((ground arith, p.0), omega arith) (omega arith)

-- The value of a bulk string, from the length read in front of it.
abbrev IsValue : ℤ → Bytes → Type 0
IsValue (pos n) s = All IsClean s × (length s ≤ n)
IsValue (negsuc n) s = s ≡ []

c_str-IsValue : (n : ℕ) (xs : Bytes) → All IsContent xs → length xs ≡ n → IsValue (pos n) (c_str xs)
c_str-IsValue n xs h e = (All-c_str IsContent xs h, omega (arith, length-c_str xs))

bulk_content-Parses :
    (length_read : ℤ) (s : Bytes)
    → Parses (IsValue length_read) (suc (length s)) (bulk_content length_read s)
unfolding bulk_content
bulk_content-Parses (negsuc n) s = parsed refl (omega arith)
bulk_content-Parses (pos zero) s =
    Parses-then_run (skip_crlf-Parses s) λ _ rest _ h. parsed (tt, omega arith) (omega arith)
bulk_content-Parses (pos (suc n)) s = Parses-restore s (
    Parses-then_run (scan_content-Parses (suc n) s) λ xs s' p h.
      Parses-then_run (skip_crlf-Parses s')
        λ _ rest _ h'. parsed (c_str-IsValue (suc n) xs p.0 p.1) (omega arith))

-- The pair that `get_bulk_string_internal` returns.
abbrev IsBulk : ℤ × Bytes → Type 0
IsBulk (n, s) = FitsInt n × IsValue n s

get_bulk_string_internal-Parses :
    (s : Bytes) → Parses IsBulk (length s) (get_bulk_string_internal s)
unfolding get_bulk_string_internal
get_bulk_string_internal-Parses s = Parses-then_run (get_length-Parses s) λ n s₁ p h₁.
    Parses-then_run (skip_crlf-Parses s₁) λ _ s₂ _ h₂.
      Parses-then_run (bulk_content-Parses n s₂) λ value s₃ q h₃. parsed (p, q) (omega arith)

bulk_string-IsWire : (n : ℤ) (s : Bytes) → IsBulk (n, s) → IsWire (bulk_string s (is_negative n))
bulk_string-IsWire (pos n) s (fits, (clean, short)) = text clean (omega arith)
bulk_string-IsWire (negsuc n) s (fits, e) = rw e null

get_bulk_string_object-Parses : (s : Bytes) → Parses IsWire (length s) (get_bulk_string_object s)
unfolding get_bulk_string_object
get_bulk_string_object-Parses s =
    Parses-then_run (get_bulk_string_internal-Parses s)
      λ (n, value) rest p h. parsed (bulk_string-IsWire n value p) h

get_object_of-Parses :
    (get_array : Parser RespObject) (type : RespDatatype) (s : Bytes)
    → Parses IsWire (length s) (get_array s)
    → Parses IsWire (length s) (get_object_of get_array type s)
unfolding get_object_of
get_object_of-Parses get_array resp_bulk_string s h = get_bulk_string_object-Parses s
get_object_of-Parses get_array resp_array s h = h
get_object_of-Parses get_array _ s h = refused

array-IsWire :
    (n : ℕ) (xs : RespObjects) → n < 2 ^ 31 → AreWire xs × (size xs ≡ n) → IsWire (array xs)
array-IsWire n xs fits (h, e) = items h (omega arith)

array_of-Parses :
    (get_items : ℕ → Parser RespObjects) (n : ℤ) (s : Bytes)
    → FitsInt n
    → ((k : ℕ) → Parses (λ xs. AreWire xs × (size xs ≡ k)) (suc (length s)) (get_items k s))
    → Parses IsWire (suc (length s)) (array_of get_items n s)
unfolding array_of
array_of-Parses get_items (negsuc n) s fits h = parsed (items done (omega arith)) (omega arith)
array_of-Parses get_items (pos n) s fits h =
    Parses-then_run (h n) λ xs rest p less. parsed (array-IsWire n xs fits p) less

mutual
  unfolding get_array_object

  get_array_object_returns :
      (f : ℕ) (s : Bytes) → length s < f → Parses IsWire (length s) (get_array_object f s)
  get_array_object_returns zero s h = elim h [ ]
  get_array_object_returns (suc f) s h =
      Parses-then_run (Parses-report invalid_array_length (get_length-Parses s)) λ n s₁ p h₁.
        Parses-then_run (skip_crlf-Parses s₁) λ _ s₂ _ h₂. Parses-le (omega arith) (
          array_of-Parses (get_array_items f) n s₂ p
            λ k. get_array_items_returns f k s₂ (omega arith))

  get_array_items_returns :
      (f n : ℕ) (s : Bytes)
      → length s < f
      → Parses (λ xs. AreWire xs × (size xs ≡ n)) (suc (length s)) (get_array_items f n s)
  get_array_items_returns zero n s h = elim h [ ]
  get_array_items_returns (suc f) zero s h = parsed (done, refl) (omega arith)
  get_array_items_returns (suc f) (suc n) s h = Parses-then_run (get_type-Parses s) λ type s₁ _ h₁.
      Parses-then_run
        (get_object_of-Parses (get_array_object f) type s₁
          (get_array_object_returns f s₁ (omega arith)))
        λ x s₂ p h₂.
          Parses-then_run (get_array_items_returns f n s₂ (omega arith))
            λ xs s₃ q h₃. parsed (item p q.0, ap suc q.1) (omega arith)

-- On every input the parser returns, with the fuel that it is given: an error, or an object of the
-- shape `IsWire` with fewer bytes left than it was given.
pub parse_returns : (s : Bytes) → Parses IsWire (length s) (parse s)
unfolding parse
parse_returns s = Parses-then_run (get_type-Parses s) λ type s₁ _ h. Parses-le (omega arith) (
    get_object_of-Parses (get_array_object (suc (length s))) type s₁
      (get_array_object_returns (suc (length s)) s₁ (omega arith)))
