-- ===== src/Commands/Interleaved/Progress.antt =====
-- No worker waits for another: a bounded number of its own steps brings each to its answer.
use ns1_interview_redis.Prelude.{
  ℕ, zero, suc, ◌+◌, ◌-◌, ◌≤◌, ◌≡◌, refl, ap, ◌∙◌, Bool, true, false, some, List, [], ◌∷◌, map,
  get_elem?, length, if◌then◌else◌, ◌==◌, arith, All,
}
use ns1_interview_redis.Resp.{RespObject}
use ns1_interview_redis.Commands.Action.{DataStores}
use ns1_interview_redis.Commands.{Response}
use ns1_interview_redis.Commands.Dictionary.{Dictionary, Request, get, set, del, invalid, request}
use ns1_interview_redis.Commands.Simulation.{Represents}
use ns1_interview_redis.Commands.Refinement.{IsServed}
use ns1_interview_redis.Commands.Interleaved.{
  Running, before, deleting, answered, interleave, Doing, asked, removing, told, act, act_at,
  act_all, doing,
}
use ns1_interview_redis.Commands.Interleaved.Simulation.{interleave-Interleaves}

-- The steps that a worker still needs.
abbrev pub needs : Doing → ℕ
needs (asked (del keys)) = length keys + 2
needs (asked q) = 1
needs (removing n keys) = length keys + 1
needs (told response) = 0

needs-act : (d : Doing) (m : Dictionary) → needs (act d m).0 ≡ needs d - 1
needs-act (asked (del keys)) m = omega arith
needs-act (asked (get k)) m = omega arith
needs-act (asked (set k x)) m = omega arith
needs-act (asked invalid) m = omega arith
needs-act (removing n []) m = omega arith
needs-act (removing n (k ∷ keys)) m = omega arith
needs-act (told response) m = omega arith

abbrev needs_at : ℕ → List Doing → ℕ
needs_at i [] = 0
needs_at zero (d ∷ ds) = needs d
needs_at (suc i) (d ∷ ds) = needs_at i ds

abbrev pub bump : Bool → ℕ → ℕ
bump true n = suc n
bump false n = n

-- How often a worker has its turn in a schedule.
abbrev pub turns : ℕ → List ℕ → ℕ
turns i [] = 0
turns i (j ∷ is) = bump (j == i) (turns i is)

needs_at-act_at :
    (i j : ℕ) (ds : List Doing) (m : Dictionary)
    → needs_at i (act_at j ds m).0 ≡ needs_at i ds - (if j == i then 1 else 0)
needs_at-act_at i j [] m = ground arith
needs_at-act_at zero zero (d ∷ ds) m = needs-act d m
needs_at-act_at (suc i) zero (d ∷ ds) m = ground arith
needs_at-act_at zero (suc j) (d ∷ ds) m = ground arith
needs_at-act_at (suc i) (suc j) (d ∷ ds) m = ground (arith, needs_at-act_at i j ds m)

needs_at-act_all :
    (i : ℕ) (is : List ℕ) (ds : List Doing) (m : Dictionary)
    → needs_at i (act_all is ds m).0 ≡ needs_at i ds - turns i is
needs_at-act_all i [] ds m = omega arith
needs_at-act_all i (j ∷ is) ds m =
    ground
      (arith, needs_at-act_at i j ds m, needs_at-act_all i is (act_at j ds m).0 (act_at j ds m).1)

needs-answered : (w : Running) → needs (doing w) ≡ 0 → (x : Response) × (w ≡ answered x)
needs-answered (answered x) e = (x, refl)
needs-answered (deleting n xs) e = absurd (omega arith)
needs-answered (before c) e = absurd (asked_needs (request c) e)
  where
    asked_needs : (q : Request) → needs (asked q) ≡ 0 → ⊥
    asked_needs (get k) e = omega arith
    asked_needs (set k x) e = omega arith
    asked_needs (del keys) e = omega arith
    asked_needs invalid e = omega arith

needs_at-doing :
    (i : ℕ) (ws : List Running) {d : Doing}
    → needs_at i (map doing ws) ≡ 0
    → get_elem? (map doing ws) i ≡ some d
    → (x : Response) × (get_elem? ws i ≡ some (answered x))
needs_at-doing i [] e there = cc
needs_at-doing zero (w ∷ ws) e there = let (x, same) = needs-answered w e in (x, ap some same)
needs_at-doing (suc i) (w ∷ ws) e there = needs_at-doing i ws e there

act_at-there :
    (i j : ℕ) (ds : List Doing) (m : Dictionary) {d : Doing}
    → get_elem? ds i ≡ some d
    → (d' : Doing) × (get_elem? (act_at j ds m).0 i ≡ some d')
act_at-there i j [] m e = cc
act_at-there zero zero (d ∷ ds) m e = ((act d m).0, refl)
act_at-there (suc i) zero (d₀ ∷ ds) m {d} e = (d, e)
act_at-there zero (suc j) (d ∷ ds) m e = (d, refl)
act_at-there (suc i) (suc j) (d ∷ ds) m e = act_at-there i j ds m e

act_all-there :
    (i : ℕ) (is : List ℕ) (ds : List Doing) (m : Dictionary) {d : Doing}
    → get_elem? ds i ≡ some d
    → (d' : Doing) × (get_elem? (act_all is ds m).0 i ≡ some d')
act_all-there i [] ds m {d} e = (d, e)
act_all-there i (j ∷ is) ds m e =
    let (d', there) = act_at-there i j ds m e in
    act_all-there i is (act_at j ds m).0 (act_at j ds m).1 there

pub command-there :
    (i : ℕ) (cs : List RespObject) {c : RespObject}
    → get_elem? cs i ≡ some c
    → (get_elem? (map (λ c. asked (request c)) cs) i ≡ some (asked (request c)))
      × (needs_at i (map (λ c. asked (request c)) cs) ≡ needs (asked (request c)))
command-there i [] e = cc
command-there zero (c₀ ∷ cs) {c} e = let same : c₀ ≡ c = cc in rw same (refl, refl)
command-there (suc i) (c ∷ cs) e = command-there i cs e

-- From data stores that represent a dictionary, and where all workers run wire objects whose keys
-- have data stores, no step faults, and a worker that has had as many turns as its request needs has
-- answered: one turn for a get, a set or no command, two and one for each key for a del. The order of
-- the others' steps, and how often they come, change nothing of it.
pub interleave-answered :
    (is : List ℕ) (cs : List RespObject) (st : DataStores) (m : Dictionary) (i : ℕ) {c : RespObject}
    → Represents st m
    → All IsServed cs
    → get_elem? cs i ≡ some c
    → needs (asked (request c)) ≤ turns i is
    → (ws : List Running) × (after : DataStores) × (x : Response) × (interleave is
          (map before cs)
          st
        ≡ some (ws, after))
      × (get_elem? ws i ≡ some (answered x))
interleave-answered is cs st m i {c} r served there enough =
    let s = interleave-Interleaves is cs st m r served in
    let ds = map (λ c. asked (request c)) cs in
    let (here, needed) = command-there i cs there in
    let left = needs_at-act_all i is ds m in
    let (d, at_end) = act_all-there i is ds m here in
    let (x, heard) =
      needs_at-doing i s.workers (ap (needs_at i) s.does ∙ omega (arith, left, needed, enough))
        (ap (λ ds. get_elem? ds i) s.does ∙ at_end) in
    (s.workers, s.after, x, s.runs, heard)
