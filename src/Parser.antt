-- ===== src/Parser.antt =====
-- src/resp_parser.cpp: the RESP parser, by recursive descent over the bytes that are left.
pub mod Result
pub mod Strtol
pub mod Wire
pub mod Returns
pub mod RoundTrip
pub mod NoNul
pub mod Oddities
use ns1_interview_redis.Prelude.{
  ℕ, zero, suc, ◌+◌, Bool, true, false, not, ◌&&◌, Option, none, some, List, [], ◌∷◌, ◌==◌, length,
  if◌then◌else◌, ◌||◌,
}
use ns1_interview_redis.Prelude.Int.{ℤ, pos, negsuc, is_negative, to_int}
use ns1_interview_redis.Prelude.Bytes.{Bytes, c_str}
use ns1_interview_redis.Resp.{
  RespDatatype, resp_string, resp_array, resp_integer, resp_bulk_string, resp_error, RespObject,
  RespObjects, bulk_string, array, nil, cons,
}
use Result.{
  ParseError, current_beyond_end, invalid_type, invalid_number, crlf_missing, string_contains_crlf,
  invalid_array_length, not_implemented, Outcome, ok, err, out_of_fuel, Parser, pure, fail, ◌>>=◌,
  ◌>>◌, restoring, reporting,
}
use Strtol.{strtol}

-- `get_type`: the byte is consumed when it is a type.
unfoldable pub get_type : Parser RespDatatype
get_type [] = err current_beyond_end []
get_type (c ∷ cs) =
    if c == b'+'
    then ok resp_string cs
    else if c == b'-'
    then ok resp_error cs
    else if c == b':'
    then ok resp_integer cs
    else if c == b'$'
    then ok resp_bulk_string cs
    else if c == b'*'
    then ok resp_array cs
    else err invalid_type (c ∷ cs)

-- `*endptr == 0`: the end of the buffer, where `c_str()` has its terminator, or a NUL byte
abbrev pub at_nul : Bytes → Bool
at_nul [] = true
at_nul (c ∷ cs) = c == 0

abbrev pub is_zero : ℤ → Bool
is_zero (pos n) = n == 0
is_zero (negsuc n) = false

-- The tests of `get_length` on what `strtol` gave at the byte `c` and those behind it.
unfoldable pub checked_length : ℕ → Bytes → Option (ℤ × Bytes) → Outcome ℤ
checked_length c cs none = err invalid_number (c ∷ cs)
checked_length c cs (some (thenum, endptr)) =
    if is_zero thenum && (not (c == 0) && at_nul endptr)
    then err invalid_number (c ∷ cs)
    else ok (to_int thenum) endptr

-- `get_length`
unfoldable pub get_length : Parser ℤ
unfolding checked_length
get_length [] = err current_beyond_end []
get_length (c ∷ cs) = checked_length c cs (strtol (c ∷ cs))

-- `skip_crlf`: an error leaves the position where it was.
unfoldable pub skip_crlf : Parser (Unit {0})
skip_crlf [] = err current_beyond_end []
skip_crlf (c ∷ []) = err (if c == 13 then current_beyond_end else crlf_missing) (c ∷ [])
skip_crlf (c ∷ d ∷ cs) = if c == 13 && d == 10 then ok tt cs else err crlf_missing (c ∷ d ∷ cs)

-- The loop over the announced number of bytes.
unfoldable pub scan_content : ℕ → Parser Bytes
scan_content zero s = ok [] s
scan_content (suc n) [] = err current_beyond_end []
scan_content (suc n) (c ∷ cs) =
    if c == 13 || c == 10
    then err string_contains_crlf (c ∷ cs)
    else (scan_content n >>= λ more. pure (c ∷ more)) cs

-- The string behind its length line: null, empty, or the bytes copied as a C string.
unfoldable pub bulk_content : ℤ → Parser Bytes
unfolding scan_content skip_crlf
bulk_content (negsuc n) = pure []
bulk_content (pos zero) = do skip_crlf; pure []
bulk_content (pos (suc n)) =
    restoring do content ← scan_content (suc n); skip_crlf; pure (c_str content)

-- `get_bulk_string_internal`, with its reference parameter `stringlength` returned in front
unfoldable pub get_bulk_string_internal : Parser (ℤ × Bytes)
unfolding get_length bulk_content
get_bulk_string_internal = do
  length ← get_length
  skip_crlf
  retval ← bulk_content length
  pure (length, retval)

-- `get_bulk_string_object`
unfoldable pub get_bulk_string_object : Parser RespObject
unfolding get_bulk_string_internal
get_bulk_string_object = do
  (stringlength, thestring) ← get_bulk_string_internal
  pure (bulk_string thestring (is_negative stringlength))

-- The `switch` on a type: simple strings, errors and integers are not implemented.
unfoldable pub get_object_of : Parser RespObject → RespDatatype → Parser RespObject
unfolding get_bulk_string_object
get_object_of get_array resp_bulk_string = get_bulk_string_object
get_object_of get_array resp_array = get_array
get_object_of get_array _ = fail not_implemented

-- The array behind its length line. A negative length is taken as an empty array.
unfoldable pub array_of : (ℕ → Parser RespObjects) → ℤ → Parser RespObject
array_of get_items (negsuc n) = pure (array nil)
array_of get_items (pos n) = do xs ← get_items n; pure (array xs)

-- `get_array_object` and its loop. The recursion is on fuel; each call consumes a byte at least.
unfoldable mutual
  pub get_array_object : ℕ → Parser RespObject
  get_array_object zero = λ s. out_of_fuel
  get_array_object (suc f) = do
    length ← reporting invalid_array_length get_length
    skip_crlf
    array_of (get_array_items f) length

  pub get_array_items : ℕ → ℕ → Parser RespObjects
  get_array_items zero n = λ s. out_of_fuel
  get_array_items (suc f) zero = pure nil
  get_array_items (suc f) (suc n) = do
    type ← get_type
    x ← get_object_of (get_array_object f) type
    xs ← get_array_items f n
    pure (cons x xs)

-- `get_generic_object`
unfoldable pub get_generic_object : ℕ → Parser RespObject
unfolding get_type get_object_of array_of get_array_object
get_generic_object f = do type ← get_type; get_object_of (get_array_object f) type

-- `RespParser parser(s); parser.get_generic_object()`
unfoldable pub parse : Bytes → Outcome RespObject
unfolding get_generic_object
parse s = get_generic_object (suc (length s)) s
