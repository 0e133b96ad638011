-- ===== src/Tests/Parsing.antt =====
-- The parser and the serializer.
use ns1_interview_redis.Prelude.{◌≡◌, refl, inr, false, true, [], ◌∷◌, ◌++◌, arith}
use ns1_interview_redis.Prelude.Int.{pos, to_int}
use ns1_interview_redis.Prelude.Bytes.{codes, c_str}
use ns1_interview_redis.Resp.{crlf, bulk_string, array, nil, cons, serialize}
use ns1_interview_redis.Resp.Decimal.{decimal}
use ns1_interview_redis.Parser.Result.{
  ok, err, invalid_type, invalid_array_length, not_implemented, string_contains_crlf,
}
use ns1_interview_redis.Parser.Strtol.{strtol}
use ns1_interview_redis.Parser.{get_length, parse}
use ns1_interview_redis.Parser.Wire.{IsWire, Parses}
use ns1_interview_redis.Parser.Returns.{parse_returns}
use ns1_interview_redis.Parser.RoundTrip.{parse-serialize}
use ns1_interview_redis.Parser.Oddities.{
  bulk_text, parse-bulk_text, parse-line_end, get_length-space,
}
use ns1_interview_redis.Tests.Data.{set_red, set_red-IsWire, get_c}

nested_array :
    parse (codes "*2" ++ crlf ++ codes "*0" ++ crlf ++ codes "$2" ++ crlf ++ codes "ab" ++ crlf)
    ≡ ok (array (cons (array nil) (cons (bulk_string (codes "ab") false) nil))) []
unfolding parse strtol to_int c_str
nested_array = refl

null_string : parse (codes "$-1" ++ crlf) ≡ ok (bulk_string [] true) []
unfolding parse strtol to_int c_str
null_string = refl

simple_string : parse (codes "+OK" ++ crlf) ≡ err not_implemented (codes "OK" ++ crlf)
unfolding parse strtol to_int c_str
simple_string = refl

no_type : parse (codes "get c") ≡ err invalid_type (codes "get c")
unfolding parse strtol to_int c_str
no_type = refl

no_array_length : parse (codes "*x" ++ crlf) ≡ err invalid_array_length (codes "x" ++ crlf)
unfolding parse strtol to_int c_str
no_array_length = refl

short_content :
    parse (codes "$9" ++ crlf ++ codes "abc" ++ crlf)
    ≡ err string_contains_crlf (codes "abc" ++ crlf)
unfolding parse strtol to_int c_str
short_content = refl

-- 2^32 + 1 becomes the length 1.
wide_length :
    parse (codes "$4294967297" ++ crlf ++ codes "a" ++ crlf) ≡ ok (bulk_string (codes "a") false) []
unfolding parse strtol to_int c_str
wide_length = refl

serialized_command :
    serialize get_c
    ≡ codes "*2"
      ++ crlf
      ++ codes "$3"
      ++ crlf
      ++ codes "get"
      ++ crlf
      ++ codes "$1"
      ++ crlf
      ++ codes "c"
      ++ crlf
unfolding serialize decimal
serialized_command = refl

parse-serialize_example : parse (serialize set_red ++ codes "more") ≡ ok set_red (codes "more")
parse-serialize_example = parse-serialize set_red (codes "more") set_red-IsWire

parse_returns_example : Parses IsWire 2 (parse (codes "$3"))
parse_returns_example = parse_returns (codes "$3")

parse-bulk_text_example :
    parse (bulk_text (97 ∷ 0 ∷ 98 ∷ []) []) ≡ ok (bulk_string (c_str (97 ∷ 0 ∷ 98 ∷ [])) false) []
parse-bulk_text_example = parse-bulk_text (97 ∷ 0 ∷ 98 ∷ []) [] (omega arith) (omega arith)

parse-line_end_example :
    parse (b'$' ∷ (decimal 3 ++ 13 ∷ 10 ∷ (97 ∷ [] ++ 10 ∷ 98 ∷ 13 ∷ 10 ∷ [])))
    ≡ err string_contains_crlf (97 ∷ [] ++ 10 ∷ 98 ∷ 13 ∷ 10 ∷ [])
parse-line_end_example =
    parse-line_end (97 ∷ []) (98 ∷ 13 ∷ 10 ∷ []) 10 3 (omega arith) (inr refl) (omega arith)
      (omega arith)

two_read : get_length (b'2' ∷ 13 ∷ []) ≡ ok (pos 2) (13 ∷ [])
unfolding get_length strtol to_int
two_read = refl

get_length-space_example : get_length (10 ∷ b'2' ∷ 13 ∷ []) ≡ ok (pos 2) (13 ∷ [])
get_length-space_example = get_length-space 10 b'2' (13 ∷ []) refl two_read
