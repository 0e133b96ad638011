-- ===== src/Parser/NoNul.antt =====
-- No NUL byte stands in what wire objects print, so C strings carry it whole.
use ns1_interview_redis.Prelude.{
  ℕ, ◌≡◌, ◌≢◌, Bool, true, false, [], ◌∷◌, ◌++◌, arith, All, All-append,
}
use ns1_interview_redis.Prelude.Int.{pos}
use ns1_interview_redis.Prelude.Bytes.{Bytes, c_str, c_str_id}
use ns1_interview_redis.Resp.{
  RespObject, RespObjects, integer, print_int, crlf, comma, serialize, serialize_items, to_string,
  to_string_items,
}
use ns1_interview_redis.Resp.Decimal.{decimal, IsDigit, decimal-IsDigit}
use ns1_interview_redis.Parser.Wire.{IsClean-no_nul, IsWire, null, text, items, AreWire, done, item}

abbrev HasNoNul : Bytes → Type 0
HasNoNul s = All (λ c. c ≢ 0) s

join : (xs ys : Bytes) → HasNoNul xs → HasNoNul ys → HasNoNul (xs ++ ys)
join = All-append (λ c. c ≢ 0)

crlf-HasNoNul : HasNoNul crlf
crlf-HasNoNul = omega arith

IsDigit-no_nul : (s : Bytes) → All IsDigit s → HasNoNul s
IsDigit-no_nul [] h = tt
IsDigit-no_nul (c ∷ s) h = (omega arith, IsDigit-no_nul s h.1)

decimal-line : (n : ℕ) (s : Bytes) → HasNoNul s → HasNoNul (decimal n ++ (crlf ++ s))
decimal-line n s h =
    join (decimal n) (crlf ++ s) (IsDigit-no_nul (decimal n) (decimal-IsDigit n))
      (join crlf s crlf-HasNoNul h)

mutual
  unfolding serialize

  serialize-HasNoNul : {x : RespObject} → IsWire x → HasNoNul (serialize x)
  serialize-HasNoNul null = omega arith
  serialize-HasNoNul (text {s} clean short) =
      (omega arith, decimal-line _ _ (join s crlf (IsClean-no_nul s clean) crlf-HasNoNul))
  serialize-HasNoNul (items {xs} w short) =
      (omega arith, decimal-line _ _ (serialize_items-HasNoNul w))

  serialize_items-HasNoNul : {xs : RespObjects} → AreWire xs → HasNoNul (serialize_items xs)
  serialize_items-HasNoNul done = tt
  serialize_items-HasNoNul (item {x} {xs} w ws) =
      join (serialize x) (serialize_items xs) (serialize-HasNoNul w) (serialize_items-HasNoNul ws)

comma-HasNoNul : (firstitem : Bool) → HasNoNul (comma firstitem)
comma-HasNoNul true = tt
comma-HasNoNul false = omega arith

mutual
  unfolding to_string

  to_string-HasNoNul : {x : RespObject} → IsWire x → HasNoNul (to_string x)
  to_string-HasNoNul null = omega arith
  to_string-HasNoNul (text {s} clean short) = IsClean-no_nul s clean
  to_string-HasNoNul (items {xs} w short) = (
    omega arith,
    join (to_string_items true xs) _ (to_string_items-HasNoNul true w) (omega arith),
  )

  to_string_items-HasNoNul :
      (firstitem : Bool) {xs : RespObjects} → AreWire xs → HasNoNul (to_string_items firstitem xs)
  to_string_items-HasNoNul firstitem done = tt
  to_string_items-HasNoNul firstitem (item {x} {xs} w ws) =
      join (comma firstitem) _ (comma-HasNoNul firstitem) (
        join (to_string x) (to_string_items false xs) (to_string-HasNoNul w)
          (to_string_items-HasNoNul false ws))

pub c_str-serialize : {x : RespObject} → IsWire x → c_str (serialize x) ≡ serialize x
c_str-serialize {x} w = c_str_id (serialize x) (serialize-HasNoNul w)

pub c_str-to_string : {x : RespObject} → IsWire x → c_str (to_string x) ≡ to_string x
c_str-to_string {x} w = c_str_id (to_string x) (to_string-HasNoNul w)

pub c_str-serialize_count :
    (n : ℕ) → c_str (serialize (integer (pos n))) ≡ serialize (integer (pos n))
unfolding serialize print_int
c_str-serialize_count n = c_str_id (b':' ∷ (decimal n ++ crlf)) (
  omega arith,
  join (decimal n) crlf (IsDigit-no_nul (decimal n) (decimal-IsDigit n)) crlf-HasNoNul,
)
