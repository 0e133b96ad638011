-- ===== src/Parser/RoundTrip.antt =====
-- What was serialized parses back.
use ns1_interview_redis.Prelude.{
  ℕ, zero, suc, ◌+◌, ◌^◌, ◌<◌, ◌≤◌, ◌≡◌, refl, sym, false, true, some, [], ◌∷◌, ◌++◌, append_assoc,
  append-nil, arith, length, length-append, All,
}
use ns1_interview_redis.Prelude.Int.{pos, to_int_small, to_int}
use ns1_interview_redis.Prelude.Bytes.{Bytes, c_str_id}
use ns1_interview_redis.Resp.{
  RespObject, RespObjects, bulk_string, array, nil, cons, size, crlf, serialize, serialize_items,
}
use ns1_interview_redis.Resp.Decimal.{decimal, starts_digit, decimal-starts_digit}
use ns1_interview_redis.Parser.Result.{Outcome, Parser, ok, err, out_of_fuel, then_run, pure, ◌>>=◌}
use ns1_interview_redis.Parser.Strtol.{strtol, strtol-decimal}
use ns1_interview_redis.Parser.{
  get_type, get_length, scan_content, bulk_content, get_bulk_string_object, get_array_items,
  get_generic_object, parse, get_array_object,
}
use ns1_interview_redis.Parser.Wire.{
  IsClean, IsClean-no_nul, IsWire, null, text, items, AreWire, done, item,
}

then_run_assoc :
    {A B C : Type 0} (o : Outcome A) (g : A → Parser B) (h : B → Parser C)
    → then_run (then_run o g) h ≡ then_run o (λ a s. then_run (g a s) h)
then_run_assoc (ok a s) g h = refl
then_run_assoc (err e s) g h = refl
then_run_assoc out_of_fuel g h = refl

get_length_read :
    (n : ℕ) (s rest : Bytes)
    → n < 2 ^ 31
    → starts_digit s ≡ true
    → strtol s ≡ some (pos n, 13 ∷ rest)
    → get_length s ≡ ok (pos n) (13 ∷ rest)
unfolding get_length starts_digit
get_length_read n [] rest h d e = cc
get_length_read n (c ∷ cs) rest h d e = rw e (ground (arith, to_int_small n h))

-- A printed size, with the line end behind it, reads back as a length.
pub get_length-decimal :
    (n : ℕ) (rest : Bytes)
    → n < 2 ^ 31
    → get_length (decimal n ++ 13 ∷ rest) ≡ ok (pos n) (13 ∷ rest)
unfolding starts_digit
get_length-decimal n rest h =
    get_length_read n (decimal n ++ 13 ∷ rest) rest h (decimal-starts_digit n (13 ∷ rest))
      (strtol-decimal n (13 ∷ rest) (omega arith) refl)

scan_content-clean :
    (s rest : Bytes) → All IsClean s → scan_content (length s) (s ++ rest) ≡ ok s rest
unfolding scan_content
scan_content-clean [] rest h = refl
scan_content-clean (c ∷ s) rest h = rw (scan_content-clean s rest h.1) (ground arith)

bulk_content-clean :
    (s rest : Bytes)
    → All IsClean s
    → bulk_content (pos (length s)) (s ++ 13 ∷ 10 ∷ rest) ≡ ok s rest
unfolding bulk_content
bulk_content-clean [] rest h = refl
bulk_content-clean (c ∷ s) rest h =
    rw (scan_content-clean (c ∷ s) (13 ∷ 10 ∷ rest) h, c_str_id (c ∷ s) (IsClean-no_nul (c ∷ s) h))

get_bulk_string_object-clean :
    (s rest : Bytes)
    → All IsClean s
    → length s < 2 ^ 31
    → get_bulk_string_object ((decimal (length s) ++ (crlf ++ (s ++ crlf))) ++ rest)
      ≡ ok (bulk_string s false) rest
unfolding get_bulk_string_object
get_bulk_string_object-clean s rest h short = simp append_assoc (
    rw (get_length-decimal (length s) (10 ∷ (s ++ 13 ∷ 10 ∷ rest)) short)
      (rw (bulk_content-clean s rest h)))

text_back :
    (s : Bytes) (f : ℕ) (rest : Bytes)
    → All IsClean s
    → length s < 2 ^ 31
    → get_generic_object f (serialize (bulk_string s false) ++ rest) ≡ ok (bulk_string s false) rest
unfolding serialize get_generic_object
text_back s f rest clean short = get_bulk_string_object-clean s rest clean short

-- The size of what is printed, without the type byte and the length line.
mutual
  unfolding serialize

  serialize_pos : (x : RespObject) → 0 < length (serialize x)
  serialize_pos (bulk_string s true) = omega arith
  serialize_pos (bulk_string s false) = omega arith
  serialize_pos _ = omega arith

length-serialize_items :
    (x : RespObject) (xs : RespObjects)
    → length (serialize_items (cons x xs)) ≡ length (serialize x) + length (serialize_items xs)
unfolding serialize
length-serialize_items x xs = length-append (serialize x) (serialize_items xs)

items-lt-array :
    (xs : RespObjects) → length (serialize_items xs) + 2 < length (serialize (array xs))
unfolding serialize
items-lt-array xs = omega (arith, length-append (decimal (size xs)) (crlf ++ serialize_items xs))

null_back :
    (f : ℕ) (rest : Bytes)
    → get_generic_object f (serialize (bulk_string [] true) ++ rest) ≡ ok (bulk_string [] true) rest
unfolding serialize get_generic_object strtol to_int
null_back f rest = refl

array_back :
    (xs : RespObjects) (f : ℕ) (rest : Bytes)
    → size xs < 2 ^ 31
    → get_array_items f (size xs) (serialize_items xs ++ rest) ≡ ok xs rest
    → get_generic_object (suc f) (serialize (array xs) ++ rest) ≡ ok (array xs) rest
unfolding serialize get_generic_object
array_back xs f rest short back =
    simp append_assoc
      (rw (get_length-decimal (size xs) (10 ∷ (serialize_items xs ++ rest)) short) (rw back))

-- One round of the loop reads what `get_generic_object` reads, and goes on.
items_step :
    (f n : ℕ) (s : Bytes)
    → get_array_items (suc f) (suc n) s
      ≡ (get_generic_object f >>= λ x. get_array_items f n >>= λ xs. pure (cons x xs)) s
unfolding get_generic_object
items_step f n s = sym (then_run_assoc (get_type s) _ _)

items_end : (f : ℕ) (s : Bytes) → get_array_items (suc f) 0 s ≡ ok nil s
unfolding get_array_object
items_end f s = refl

mutual
  unfolding serialize

  object_back :
      {x : RespObject} (w : IsWire x) (f : ℕ) (rest : Bytes)
      → length (serialize x) ≤ f
      → get_generic_object f (serialize x ++ rest) ≡ ok x rest
  object_back null f rest h = null_back f rest
  object_back (text {s} clean short) f rest h = text_back s f rest clean short
  object_back (items {xs} w short) zero rest h = absurd (omega arith)
  object_back (items {xs} w short) (suc f) rest h =
      array_back xs f rest short (items_back w f rest (omega (arith, items-lt-array xs)))

  items_back :
      {xs : RespObjects} (w : AreWire xs) (f : ℕ) (rest : Bytes)
      → length (serialize_items xs) < f
      → get_array_items f (size xs) (serialize_items xs ++ rest) ≡ ok xs rest
  items_back done zero rest h = absurd (omega arith)
  items_back done (suc f) rest h = items_end f rest
  items_back (item w ws) zero rest h = absurd (omega arith)
  items_back (item {x} {xs} w ws) (suc f) rest h =
      simp (items_step, append_assoc)
        (rw
          (object_back w f (serialize_items xs ++ rest)
            (omega (arith, length-serialize_items x xs)))
          (rw (items_back ws f rest (omega (arith, length-serialize_items x xs, serialize_pos x)))))

-- Parsing what a wire object serializes to gives the object back, whatever bytes follow it, and
-- leaves those bytes. Wire objects are the bulk strings without CR, LF and NUL, the null bulk string,
-- and the arrays of wire objects, with sizes below 2^31.
pub parse-serialize :
    (x : RespObject) (rest : Bytes) → IsWire x → parse (serialize x ++ rest) ≡ ok x rest
unfolding parse
parse-serialize x rest w =
    object_back w (suc (length (serialize x ++ rest))) rest
      (omega (arith, length-append (serialize x) rest))

-- The same with nothing behind it.
pub parse-serialize_whole : (x : RespObject) → IsWire x → parse (serialize x) ≡ ok x []
parse-serialize_whole x w = let e = parse-serialize x [] w in rw append-nil at e
