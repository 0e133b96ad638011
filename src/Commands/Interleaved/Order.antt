-- ===== src/Commands/Interleaved/Order.antt =====
-- The requests that interleaved workers make come in one order, and each worker's answer is put
-- together from the responses to its own.
use ns1_interview_redis.Prelude.{
  ℕ, zero, suc, ◌≡◌, ◌≢◌, refl, sym, ap, ◌∙◌, Option, none, some, List, [], ◌∷◌, map, get_elem?,
  ◌==◌, ==_iff, Bool-cases, inl, inr, arith, All,
}
use mathlib.Core.Path.{subst, ap₂}
use mathlib.Core.Option
use ns1_interview_redis.Resp.{RespObject}
use ns1_interview_redis.Commands.Action.{DataStores}
use ns1_interview_redis.Commands.Dictionary.{Dictionary, Request, get, del, invalid, request}
use ns1_interview_redis.Commands.Interleaved.{
  Running, before, interleave, doing, Doing, asked, removing, told, act, act_at, act_all,
}
use ns1_interview_redis.Commands.Interleaved.Progress.{bump, turns, command-there}
use ns1_interview_redis.Commands.Interleaved.Simulation.{interleave-Interleaves}
use ns1_interview_redis.Commands.Simulation.{Represents}
use ns1_interview_redis.Commands.Refinement.{IsServed}
use ns1_interview_redis.Commands.Interleaved.Log.{
  made, serial, comes_to, own, noted, made_of, log_of, act-comes_to, serial-noted, own-noted_ne,
}

-- The step at a position that may be empty.
abbrev act_of : Option Doing → Dictionary → Option Doing × Dictionary
act_of none m = (none, m)
act_of (some d) m = (some (act d m).0, (act d m).1)

act_at-here :
    (j : ℕ) (ds : List Doing) (m : Dictionary)
    → get_elem? (act_at j ds m).0 j ≡ (act_of (get_elem? ds j) m).0
act_at-here j [] m = refl
act_at-here zero (d ∷ ds) m = refl
act_at-here (suc j) (d ∷ ds) m = act_at-here j ds m

act_at-after :
    (j : ℕ) (ds : List Doing) (m : Dictionary) → (act_at j ds m).1 ≡ (act_of (get_elem? ds j) m).1
act_at-after j [] m = refl
act_at-after zero (d ∷ ds) m = refl
act_at-after (suc j) (d ∷ ds) m = act_at-after j ds m

act_at-others :
    (i j : ℕ) (ds : List Doing) (m : Dictionary)
    → j ≢ i
    → get_elem? (act_at j ds m).0 i ≡ get_elem? ds i
act_at-others i j [] m ne = refl
act_at-others zero zero (d ∷ ds) m ne = absurd (ne refl)
act_at-others (suc i) zero (d ∷ ds) m ne = refl
act_at-others zero (suc j) (d ∷ ds) m ne = refl
act_at-others (suc i) (suc j) (d ∷ ds) m ne = act_at-others i j ds m (λ e. ne (ap suc e))

-- What a worker is after `n` turns, given the requests that are made in them.
abbrev come : ℕ → ℕ → Option Doing → List (ℕ × Request) → Dictionary → Option Doing
come i n k log m = Option.map (λ d. comes_to n d (own i (serial log m).0)) k

come-idle : (i : ℕ) (k : Option Doing) (m : Dictionary) → come i 0 k [] m ≡ k
come-idle i none m = refl
come-idle i (some d) m = refl

come-here :
    (j n : ℕ) (k : Option Doing) (m : Dictionary) (log : List (ℕ × Request))
    → come j n (act_of k m).0 log (act_of k m).1 ≡ come j (suc n) k (noted j (made_of k) log) m
come-here j n none m log = refl
come-here j n (some d) m log = ap some (act-comes_to j n d m log)

serial-after :
    (j : ℕ) (k : Option Doing) (m : Dictionary) (log : List (ℕ × Request))
    → (serial (noted j (made_of k) log) m).1 ≡ (serial log (act_of k m).1).1
serial-after j none m log = refl
serial-after j (some d) m log = serial-noted j d m log

own-others :
    (i j : ℕ) (k : Option Doing) (m : Dictionary) (log : List (ℕ × Request))
    → j ≢ i
    → own i (serial (noted j (made_of k) log) m).0 ≡ own i (serial log (act_of k m).1).0
own-others i j none m log ne = refl
own-others i j (some d) m log ne = own-noted_ne i j d m log ne

module _ (i j n : ℕ) (ds : List Doing) (m : Dictionary) (log : List (ℕ × Request)) where
  come-same :
      j ≡ i
      → come i n (get_elem? (act_at j ds m).0 i) log (act_at j ds m).1
        ≡ come i (suc n) (get_elem? ds i) (noted j (made_of (get_elem? ds j)) log) m
  come-same same =
      subst
        (λ i.
          come i n (get_elem? (act_at j ds m).0 i) log (act_at j ds m).1
          ≡ come i (suc n) (get_elem? ds i) (noted j (made_of (get_elem? ds j)) log) m)
        same
        (ap₂ (λ k m. come j n k log m) (act_at-here j ds m) (act_at-after j ds m)
          ∙ come-here j n (get_elem? ds j) m log)

  come-other :
      j ≢ i
      → come i n (get_elem? (act_at j ds m).0 i) log (act_at j ds m).1
        ≡ come i n (get_elem? ds i) (noted j (made_of (get_elem? ds j)) log) m
  come-other ne =
      ap₂ (λ k m. come i n k log m) (act_at-others i j ds m ne) (act_at-after j ds m)
      ∙ ap (λ xs. Option.map (λ d. comes_to n d xs) (get_elem? ds i))
          (sym (own-others i j (get_elem? ds j) m log ne))

  come-act_at :
      come i n (get_elem? (act_at j ds m).0 i) log (act_at j ds m).1
      ≡ come i (bump (j == i) n) (get_elem? ds i) (noted j (made_of (get_elem? ds j)) log) m
  come-act_at = elim (Bool-cases (j == i)) [
    | inl same ↦ rw same (come-same ((==_iff j i).0 same))
    | inr other ↦ rw other (come-other λ e. ground (arith, other, e))
  ]

come-act_all :
    (i : ℕ) (is : List ℕ) (ds : List Doing) (m : Dictionary)
    → get_elem? (act_all is ds m).0 i ≡ come i (turns i is) (get_elem? ds i) (log_of is ds m) m
come-act_all i [] ds m = sym (come-idle i (get_elem? ds i) m)
come-act_all i (j ∷ is) ds m =
    come-act_all i is (act_at j ds m).0 (act_at j ds m).1
    ∙ come-act_at i j (turns i is) ds m (log_of is (act_at j ds m).0 (act_at j ds m).1)

serial-act_all :
    (is : List ℕ) (ds : List Doing) (m : Dictionary)
    → (act_all is ds m).1 ≡ (serial (log_of is ds m) m).1
serial-act_all [] ds m = refl
serial-act_all (j ∷ is) ds m =
    let ds' = (act_at j ds m).0 in
    let m' = (act_at j ds m).1 in
    serial-act_all is ds' m'
    ∙ ap (λ m. (serial (log_of is ds' m') m).1) (act_at-after j ds m)
    ∙ sym (serial-after j (get_elem? ds j) m (log_of is ds' m'))

-- A request that locks one store once.
abbrev pub IsSingle : Request → Type 0
IsSingle (get k) = Unit
IsSingle (Request.set k x) = Unit
IsSingle (del []) = ⊥
IsSingle (del (k ∷ [])) = Unit
IsSingle (del (k ∷ l ∷ keys)) = ⊥
IsSingle invalid = ⊥

abbrev AreSingle : List (ℕ × Request) → Type 0
AreSingle [] = Unit
AreSingle ((i, q) ∷ log) = IsSingle q × AreSingle log

module _ (j : ℕ) (log : List (ℕ × Request)) (single : AreSingle log) where
  noted-AreSingle : (d : Doing) → AreSingle (noted j (made d) log)
  noted-AreSingle (asked (get k)) = (tt, single)
  noted-AreSingle (asked (Request.set k x)) = (tt, single)
  noted-AreSingle (asked (del keys)) = single
  noted-AreSingle (asked invalid) = single
  noted-AreSingle (removing n []) = single
  noted-AreSingle (removing n (k ∷ keys)) = (tt, single)
  noted-AreSingle (told response) = single

  noted_of-AreSingle : (k : Option Doing) → AreSingle (noted j (made_of k) log)
  noted_of-AreSingle none = single
  noted_of-AreSingle (some d) = noted-AreSingle d

log_of-AreSingle : (is : List ℕ) (ds : List Doing) (m : Dictionary) → AreSingle (log_of is ds m)
log_of-AreSingle [] ds m = tt
log_of-AreSingle (j ∷ is) ds m =
    let ds' = (act_at j ds m).0 in
    let m' = (act_at j ds m).1 in
    noted_of-AreSingle j (log_of is ds' m') (log_of-AreSingle is ds' m') (get_elem? ds j)

-- A run of workers is a run of requests one after another.
pub record IsSerial (o : Option (List Running × DataStores)) (is : List ℕ) (cs : List RespObject)
    (log : List (ℕ × Request)) (m : Dictionary) : Type 0 where
  pub workers : List Running
  pub after : DataStores
  pub runs : o ≡ some (workers, after)
  pub single : AreSingle log
  pub left : Represents after (serial log m).1
  pub answers :
      (i : ℕ) {c : RespObject}
      → get_elem? cs i ≡ some c
      → get_elem? (map doing workers) i
        ≡ some (comes_to (turns i is) (asked (request c)) (own i (serial log m).0))

-- From stores that represent a dictionary, workers that run wire objects whose keys have data stores
-- do not fault, and together they do what requests about one key each do one after another, in the
-- order in which the workers locked the stores for them: the stores behind them represent the
-- dictionary that this serial run leaves, and where each worker is after its turns, its response
-- included, comes from the serial run's responses to its own requests alone.
pub interleave-IsSerial :
    (is : List ℕ) (cs : List RespObject) (st : DataStores) (m : Dictionary)
    → Represents st m
    → All IsServed cs
    → IsSerial
        (interleave is (map before cs) st)
        is
        cs
        (log_of is (map (λ c. asked (request c)) cs) m)
        m
interleave-IsSerial is cs st m r served =
    let s = interleave-Interleaves is cs st m r served in
    let ds = map (λ c. asked (request c)) cs in
    record {
      workers = s.workers;
      after = s.after;
      runs = s.runs;
      single = log_of-AreSingle is ds m;
      left = subst (Represents s.after) (serial-act_all is ds m) s.still;
      answers = λ i there.
          ap (λ ds. get_elem? ds i) s.does
          ∙ come-act_all i is ds m
          ∙ ap (λ k. come i (turns i is) k (log_of is ds m) m) (command-there i cs there).0;
    }
