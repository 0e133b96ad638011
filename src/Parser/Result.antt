-- ===== src/Parser/Result.antt =====
-- The results of the parser's methods: `resp_parse_error_t`, and the position `m_state.current`.
use ns1_interview_redis.Prelude.Bytes.{Bytes}

-- ERROR_SUCCESS is `ok` below.
pub data ParseError : Type 0 where
  current_beyond_end invalid_type invalid_number crlf_missing : ParseError
  string_contains_crlf no_memory invalid_array_length not_implemented : ParseError

-- The bytes are those from `m_state.current` to `m_state.end` after the call. `out_of_fuel` has no
-- counterpart in the program.
pub data Outcome {ℓ} (A : Type ℓ) : Type ℓ where
  ok : A → Bytes → Outcome A
  err : ParseError → Bytes → Outcome A
  out_of_fuel : Outcome A

-- A method of `RespParser`: from the position before the call.
abbrev pub Parser {ℓ} : Type ℓ → Type ℓ
Parser A = Bytes → Outcome A

abbrev pub pure {ℓ} : {A : Type ℓ} → A → Parser A
pure a s = ok a s

abbrev pub fail {ℓ} : {A : Type ℓ} → ParseError → Parser A
fail e s = err e s

abbrev pub then_run {ℓ κ} : {A : Type ℓ} {B : Type κ} → Outcome A → (A → Parser B) → Outcome B
then_run (ok a s) f = f a s
then_run (err e s) f = err e s
then_run out_of_fuel f = out_of_fuel

infixl 5 ◌>>=◌ ◌>>◌
abbrev pub ◌>>=◌ {ℓ κ} : {A : Type ℓ} {B : Type κ} → Parser A → (A → Parser B) → Parser B
p >>= f = λ s. then_run (p s) f

abbrev pub ◌>>◌ {ℓ} : {B : Type ℓ} → Parser (Unit {0}) → Parser B → Parser B
p >> q = p >>= λ _. q

-- The outcome, with the position put back to `s` on an error.
abbrev pub restore {ℓ} : {A : Type ℓ} → Bytes → Outcome A → Outcome A
restore s (ok a rest) = ok a rest
restore s (err e rest) = err e s
restore s out_of_fuel = out_of_fuel

abbrev pub restoring {ℓ} : {A : Type ℓ} → Parser A → Parser A
restoring p s = restore s (p s)

-- The outcome, with its error reported as `e`.
abbrev pub report {ℓ} : {A : Type ℓ} → ParseError → Outcome A → Outcome A
report e (ok a rest) = ok a rest
report e (err d rest) = err e rest
report e out_of_fuel = out_of_fuel

abbrev pub reporting {ℓ} : {A : Type ℓ} → ParseError → Parser A → Parser A
reporting e p s = report e (p s)
