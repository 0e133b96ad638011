-- ===== src/Resp.antt =====
-- src/resp_parser.h: the RESP objects and their two ways to print.
pub mod Decimal
use ns1_interview_redis.Prelude.{
  ℕ, zero, suc, ◌+◌, Bool, true, false, List, [], ◌∷◌, ◌++◌, length, if◌then◌else◌,
}
use ns1_interview_redis.Prelude.Int.{ℤ, pos, negsuc}
use ns1_interview_redis.Prelude.Bytes.{Bytes, codes}
use Decimal.{decimal}

-- `resp_datatype_t`, less RESP_INVALID, which no object has.
pub data RespDatatype : Type 0 where
  resp_string resp_array resp_integer resp_bulk_string resp_error : RespDatatype

-- The subclasses of `AbstractRespObject`; a bulk string is `m_value` and `m_isnull`, and
-- `RespObjects` is the vector inside `RespArray`.
mutual
  pub data RespObject : Type 0 where
    integer : ℤ → RespObject
    string : Bytes → RespObject
    bulk_string : Bytes → Bool → RespObject
    array : RespObjects → RespObject
    error : Bytes → RespObject

  pub data RespObjects : Type 0 where
    nil : RespObjects
    cons : RespObject → RespObjects → RespObjects

-- `m_datatype`, as the constructors set it
abbrev pub datatype : RespObject → RespDatatype
datatype (integer x) = resp_integer
datatype (string s) = resp_string
datatype (bulk_string s isnull) = resp_bulk_string
datatype (array xs) = resp_array
datatype (error s) = resp_error

-- `m_is_aggregate`
abbrev pub is_aggregate : RespObject → Bool
is_aggregate (array xs) = true
is_aggregate _ = false

-- `m_value.size()` of an array
abbrev pub size : RespObjects → ℕ
size nil = 0
size (cons x xs) = suc (size xs)

abbrev pub crlf : Bytes
crlf = 13 ∷ 10 ∷ []

-- `ss << x` for an `int`
unfoldable pub print_int : ℤ → Bytes
print_int (pos n) = decimal n
print_int (negsuc n) = b'-' ∷ decimal (suc n)

-- `serialize()` of each class, and the loop of `RespArray::serialize`
unfoldable mutual
  pub serialize : RespObject → Bytes
  serialize (integer x) = b':' ∷ (print_int x ++ crlf)
  serialize (string s) = b'+' ∷ (s ++ crlf)
  serialize (bulk_string s true) = codes "$-1" ++ crlf
  serialize (bulk_string s false) = b'$' ∷ (decimal (length s) ++ (crlf ++ (s ++ crlf)))
  serialize (array xs) = b'*' ∷ (decimal (size xs) ++ (crlf ++ serialize_items xs))
  serialize (error s) = b'-' ∷ (s ++ crlf)

  pub serialize_items : RespObjects → Bytes
  serialize_items nil = []
  serialize_items (cons x xs) = serialize x ++ serialize_items xs

abbrev pub comma : Bool → Bytes
comma firstitem = if firstitem then [] else codes ", "

-- `to_string()` of each class, and the loop of `RespArray::to_string` with its flag `firstitem`
unfoldable mutual
  pub to_string : RespObject → Bytes
  to_string (integer x) = print_int x
  to_string (string s) = s
  to_string (bulk_string s true) = codes "nil"
  to_string (bulk_string s false) = s
  to_string (array xs) = codes "[" ++ (to_string_items true xs ++ codes "]")
  to_string (error s) = s

  pub to_string_items : Bool → RespObjects → Bytes
  to_string_items firstitem nil = []
  to_string_items firstitem (cons x xs) =
      comma firstitem ++ (to_string x ++ to_string_items false xs)
