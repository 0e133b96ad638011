-- ===== src/Parser/Wire.antt =====
-- The objects that can be read from a connection, and postconditions on the parser's methods.
use ns1_interview_redis.Prelude.{
  ℕ, ◌^◌, ◌<◌, ◌≤◌, ◌≡◌, ◌≢◌, refl, Bool, true, false, [], ◌∷◌, length, All, if◌then◌else◌, arith,
}
use ns1_interview_redis.Prelude.Bytes.{Bytes}
use ns1_interview_redis.Resp.{RespObject, RespObjects, bulk_string, array, nil, cons, size}
use ns1_interview_redis.Parser.Result.{
  Outcome, ok, err, Parser, then_run, restore, ParseError, report,
}

-- No line end and no NUL.
abbrev pub IsClean : ℕ → Type 0
IsClean c = ((c ≢ 13) × (c ≢ 10)) × (c ≢ 0)

pub IsClean-no_nul : (s : Bytes) → All IsClean s → All (λ c. c ≢ 0) s
IsClean-no_nul [] h = tt
IsClean-no_nul (c ∷ s) h = ((h.0).1, IsClean-no_nul s h.1)

-- The objects that can be read from a connection. Their sizes fit an `int`.
mutual
  pub data IsWire : RespObject → Type 0 where
    null : IsWire (bulk_string [] true)
    text : {s : Bytes} → All IsClean s → length s < 2 ^ 31 → IsWire (bulk_string s false)
    items : {xs : RespObjects} → AreWire xs → size xs < 2 ^ 31 → IsWire (array xs)

  pub data AreWire : RespObjects → Type 0 where
    done : AreWire nil
    item : {x : RespObject} {xs : RespObjects} → IsWire x → AreWire xs → AreWire (cons x xs)

-- The call returned: an error, or a value with `P` and fewer than `bound` bytes left.
pub data Parses {ℓ κ} {A : Type ℓ} (P : A → Type κ) (bound : ℕ) : Outcome A → Type (ℓ ⊔ κ) where
  parsed : {a : A} {s : Bytes} → P a → length s < bound → Parses P bound (ok a s)
  refused : {e : ParseError} {s : Bytes} → Parses P bound (err e s)

module _ {ℓ κ} {A : Type ℓ} {P : A → Type κ} {bound : ℕ} where
  pub Parses-then_run {ℓ' κ'} :
      {B : Type ℓ'} {Q : B → Type κ'} {bound' : ℕ} {o : Outcome A} {f : A → Parser B}
      → Parses P bound o
      → ((a : A) (s : Bytes) → P a → length s < bound → Parses Q bound' (f a s))
      → Parses Q bound' (then_run o f)
  Parses-then_run (parsed {a} {s} p h) k = k a s p h
  Parses-then_run refused k = refused

  pub Parses-le :
      {bound' : ℕ} {o : Outcome A} → bound ≤ bound' → Parses P bound o → Parses P bound' o
  Parses-le more (parsed p h) = parsed p (omega arith)
  Parses-le more refused = refused

  pub Parses-if :
      (b : Bool) {x y : Outcome A}
      → (b ≡ true → Parses P bound x)
      → (b ≡ false → Parses P bound y)
      → Parses P bound (if b then x else y)
  Parses-if true hx hy = hx refl
  Parses-if false hx hy = hy refl

  pub Parses-restore : {o : Outcome A} (s : Bytes) → Parses P bound o → Parses P bound (restore s o)
  Parses-restore s (parsed p h) = parsed p h
  Parses-restore s refused = refused

  pub Parses-report :
      {o : Outcome A} (e : ParseError) → Parses P bound o → Parses P bound (report e o)
  Parses-report e (parsed p h) = parsed p h
  Parses-report e refused = refused
