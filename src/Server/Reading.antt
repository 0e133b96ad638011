-- ===== src/Server/Reading.antt =====
-- The read loop of `SocketReadJob::run`: what it collects, and where it runs over its buffer.
use ns1_interview_redis.Prelude.{
  ℕ, zero, suc, ◌≤◌, ap, Bool, leb, take, not, ◌&&◌, ◌||◌, ◌==◌, if◌then◌else◌, ◌∙◌, ◌≡◌, ◌<◌, refl,
  sym, true, false, Option, none, some, List, [], ◌∷◌, ◌++◌, append_assoc, append-nil, ==-ne, arith,
  length, All, Bool-cases, inl, inr,
}
use ns1_interview_redis.Prelude.Int.{pos}
use ns1_interview_redis.Prelude.Bytes.{Bytes, bytes_eq, c_str}
use ns1_interview_redis.Session.{State, in_read_loop}
use ns1_interview_redis.Server.Effect.{Orchestrator, Pointer, done, update_self}
use ns1_interview_redis.Server.Steps.{changed}
use ns1_interview_redis.Server.Jobs.{
  bufsize, has_nul, append_buffer, go_on_reading, read_loop, ReadEnd, is_failed, read_job,
}

-- The bytes before the first NUL of each chunk, one chunk after the other.
abbrev pub received : List Bytes → Bytes
received [] = []
received (chunk ∷ chunks) = c_str chunk ++ received chunks

c_str-no_nul : (s : Bytes) → has_nul s ≡ false → c_str s ≡ s
unfolding c_str
c_str-no_nul [] h = refl
c_str-no_nul (c ∷ cs) h = ground (arith, c_str-no_nul cs)

append_buffer-short :
    (d chunk : Bytes) → length chunk < bufsize → append_buffer d chunk ≡ some (d ++ c_str chunk)
unfolding append_buffer
append_buffer-short d chunk short = elim (Bool-cases (has_nul chunk)) [
  | inl nul ↦ rw nul
  | inr no_nul ↦
      rw no_nul (rw (==-ne (length chunk) bufsize (omega arith)) (rw (c_str-no_nul chunk no_nul)))
]

take-all : (n : ℕ) (xs : Bytes) → length xs ≤ n → take n xs ≡ xs
take-all zero [] h = refl
take-all zero (x ∷ xs) h = absurd (omega arith)
take-all (suc n) [] h = refl
take-all (suc n) (x ∷ xs) h = ap (λ l. x ∷ l) (take-all n xs (omega (arith, h)))

pub read_loop-received :
    (d : Bytes) (chunks : List Bytes)
    → All (λ chunk. length chunk < bufsize) chunks
    → read_loop d chunks ≡ some (d ++ received chunks)
unfolding read_loop
read_loop-received d [] h = rw append-nil
read_loop-received d (chunk ∷ chunks) h = rw (take-all 513 chunk (omega (arith, h.0))) (
    rw (append_buffer-short d chunk h.0)
      (rw (read_loop-received (d ++ c_str chunk) chunks h.1) (rw append_assoc)))

length-take : (n : ℕ) (xs : Bytes) → (length (take n xs) == n) ≡ leb n (length xs)
length-take zero xs = ground arith
length-take (suc n) [] = ground arith
length-take (suc n) (x ∷ xs) = ground (arith, length-take n xs)

-- The socket holds 513 bytes at least, and none of the first 513 is NUL.
abbrev pub overruns : Bytes → Bool
overruns held = leb 513 (length held) && not (has_nul (take 513 held))

abbrev pub some_overruns : List Bytes → Bool
some_overruns [] = false
some_overruns (held ∷ more) = overruns held || some_overruns more

-- What the loop collects: of each read the first 513 bytes at most, up to their first NUL.
abbrev pub collected : List Bytes → Bytes
collected [] = []
collected (held ∷ more) = c_str (take 513 held) ++ collected more

append_buffer-appended :
    (d chunk : Bytes) (full : Bool)
    → (length chunk == bufsize) ≡ full
    → append_buffer d chunk
      ≡ (if full && not (has_nul chunk) then none else some (d ++ c_str chunk))
unfolding append_buffer
append_buffer-appended d chunk true e = elim (Bool-cases (has_nul chunk)) [
  | inl nul ↦ rw nul refl
  | inr clean ↦ rw clean (rw e refl)
]
append_buffer-appended d chunk false e = elim (Bool-cases (has_nul chunk)) [
  | inl nul ↦ rw nul refl
  | inr clean ↦ rw clean (rw e (ap (λ t. some (d ++ t)) (sym (c_str-no_nul chunk clean))))
]

read_on :
    (b c : Bool) (d s rest : Bytes) (f : Bytes → Option Bytes)
    → f (d ++ s) ≡ (if c then none else some ((d ++ s) ++ rest))
    → go_on_reading (if b then none else some (d ++ s)) f
      ≡ (if b || c then none else some (d ++ (s ++ rest)))
read_on true c d s rest f h = refl
read_on false true d s rest f h = h
read_on false false d s rest f h = h ∙ ap some (append_assoc d s rest)

-- For all that the socket holds at the reads: the loop is undefined where at one of them it holds 513
-- bytes or more without a NUL among the first 513, and otherwise appends of each the first 513 bytes
-- at most, up to their first NUL.
pub read_loop_lem :
    (d : Bytes) (chunks : List Bytes)
    → read_loop d chunks ≡ (if some_overruns chunks then none else some (d ++ collected chunks))
unfolding read_loop
read_loop_lem d [] = rw append-nil refl
read_loop_lem d (held ∷ more) =
    ap (λ r. go_on_reading r λ d. read_loop d more)
      (append_buffer-appended d (take 513 held) (leb 513 (length held)) (length-take 513 held))
    ∙ read_on (overruns held) (some_overruns more) d (c_str (take 513 held)) (collected more)
        (λ d. read_loop d more) (read_loop_lem (d ++ c_str (take 513 held)) more)

abbrev pub set_reading : State → State
set_reading s = record s { state = in_read_loop }

-- The orchestrator behind a read, with the text queued for parsing.
abbrev pub after_reading : Pointer → Bytes → Orchestrator → Orchestrator
after_reading p text o =
    let o₁ = changed p (λ s. record s { read_data = text }) (changed p set_reading o) in
    record o₁ { parse_jobs = o.parse_jobs ++ p ∷ [] }

pub read_job-ok :
    (chunks : List Bytes) (end : ReadEnd) (p : Pointer) (o : Orchestrator) {text : Bytes}
    → read_loop (o.heap p).read_data chunks ≡ some text
    → is_failed end ≡ false
    → bytes_eq text [] ≡ false
    → read_job chunks end true p o ≡ done (pos 0) (after_reading p text o)
unfolding read_job
read_job-ok chunks end p o {text} collected fine some_text =
    simp update_self (rw collected (rw (fine, some_text) (simp update_self)))
