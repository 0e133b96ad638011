-- ===== src/Parser/Oddities.antt =====
-- Inputs at the edges of the protocol: NUL bytes in a bulk string, line ends in one, and white space
-- in front of a length.
use ns1_interview_redis.Prelude.{
  ℕ, zero, suc, ◌<◌, ◌^◌, ◌≡◌, ◌≢◌, refl, true, false, Option, none, some, [], ◌∷◌, ◌++◌, arith,
  length, All, ◌⊎◌,
}
use ns1_interview_redis.Prelude.Int.{ℤ, pos}
use ns1_interview_redis.Prelude.Bytes.{Bytes, c_str}
use ns1_interview_redis.Resp.{bulk_string}
use ns1_interview_redis.Resp.Decimal.{decimal}
use ns1_interview_redis.Parser.Result.{ok, err, string_contains_crlf}
use ns1_interview_redis.Parser.Strtol.{strtol, is_space, strtol-space}
use ns1_interview_redis.Parser.{get_length, checked_length, scan_content, bulk_content, parse}
use ns1_interview_redis.Parser.Returns.{IsContent}
use ns1_interview_redis.Parser.RoundTrip.{get_length-decimal}

-- A bulk string with the given content, and what follows it.
abbrev pub bulk_text : Bytes → Bytes → Bytes
bulk_text content rest = b'$' ∷ (decimal (length content) ++ 13 ∷ 10 ∷ (content ++ 13 ∷ 10 ∷ rest))

scan_content-content :
    (s rest : Bytes) → All IsContent s → scan_content (length s) (s ++ rest) ≡ ok s rest
unfolding scan_content
scan_content-content [] rest h = refl
scan_content-content (c ∷ s) rest h = rw (scan_content-content s rest h.1) (ground arith)

bulk_content-content :
    (s rest : Bytes)
    → All IsContent s
    → bulk_content (pos (length s)) (s ++ 13 ∷ 10 ∷ rest) ≡ ok (c_str s) rest
unfolding bulk_content c_str
bulk_content-content [] rest h = refl
bulk_content-content (c ∷ s) rest h = rw (scan_content-content (c ∷ s) (13 ∷ 10 ∷ rest) h)

-- A bulk string whose content has no line end is read up to its first NUL: the object holds fewer
-- bytes than the length line announces where there is one, and the whole content where there is
-- none.
pub parse-bulk_text :
    (content rest : Bytes)
    → All IsContent content
    → length content < 2 ^ 31
    → parse (bulk_text content rest) ≡ ok (bulk_string (c_str content) false) rest
unfolding parse
parse-bulk_text content rest h short =
    rw (get_length-decimal (length content) (10 ∷ (content ++ 13 ∷ 10 ∷ rest)) short)
      (rw (bulk_content-content content rest h))

scan_content-line_end :
    (xs : Bytes) (c : ℕ) (ys : Bytes) (n : ℕ)
    → All IsContent xs
    → (c ≡ 13) ⊎ (c ≡ 10)
    → length xs < n
    → scan_content n (xs ++ c ∷ ys) ≡ err string_contains_crlf (c ∷ ys)
unfolding scan_content
scan_content-line_end xs c ys zero h e less = absurd (omega arith)
scan_content-line_end [] c ys (suc n) h e less = ground arith
scan_content-line_end (x ∷ xs) c ys (suc n) h e less =
    rw (scan_content-line_end xs c ys n h.1 e (omega arith)) (ground arith)

-- A line end inside the announced length is refused, wherever it stands: bulk strings are not binary
-- safe. The error leaves the position behind the length line.
pub parse-line_end :
    (xs ys : Bytes) (c n : ℕ)
    → All IsContent xs
    → (c ≡ 13) ⊎ (c ≡ 10)
    → length xs < n
    → n < 2 ^ 31
    → parse (b'$' ∷ (decimal n ++ 13 ∷ 10 ∷ (xs ++ c ∷ ys)))
      ≡ err string_contains_crlf (xs ++ c ∷ ys)
unfolding parse
parse-line_end xs ys c zero h e less short = absurd (omega arith)
parse-line_end xs ys c (suc n) h e less short =
    rw (get_length-decimal (suc n) (10 ∷ (xs ++ c ∷ ys)) short)
      (rw (scan_content-line_end xs c ys (suc n) h e less))

checked_length-space :
    (c d : ℕ) (s : Bytes) (o : Option (ℤ × Bytes)) {n : ℤ} {rest : Bytes}
    → is_space c ≡ true
    → d ≢ 0
    → checked_length d s o ≡ ok n rest
    → checked_length c (d ∷ s) o ≡ ok n rest
unfolding checked_length
checked_length-space c d s none space ne e = cc
checked_length-space c d s (some (thenum, endptr)) space ne e = ground arith

strtol-nul : (s : Bytes) → strtol (0 ∷ s) ≡ none
unfolding strtol
strtol-nul s = refl

-- White space in front of a length is skipped, line ends included: a length that is read without it
-- is read with it.
pub get_length-space :
    (c d : ℕ) (s : Bytes) {n : ℤ} {rest : Bytes}
    → is_space c ≡ true
    → get_length (d ∷ s) ≡ ok n rest
    → get_length (c ∷ d ∷ s) ≡ ok n rest
unfolding get_length
get_length-space c zero s space e = cc (strtol-nul s)
get_length-space c (suc d) s space e =
    rw (strtol-space c (suc d ∷ s) space)
      (checked_length-space c (suc d) s (strtol (suc d ∷ s)) space (omega arith) e)
