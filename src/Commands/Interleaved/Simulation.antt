-- ===== src/Commands/Interleaved/Simulation.antt =====
-- The workers' steps on the data stores are the steps on one dictionary.
use ns1_interview_redis.Prelude.{
  ℕ, zero, suc, ◌≡◌, refl, ap, ◌∙◌, Option, some, List, [], ◌∷◌, map, All,
}
use mathlib.Core.Path.{subst}
use ns1_interview_redis.Resp.{RespObject}
use ns1_interview_redis.Commands.Action.{DataStores}
use ns1_interview_redis.Commands.Dictionary.{Dictionary, request}
use ns1_interview_redis.Commands.Simulation.{Represents}
use ns1_interview_redis.Commands.Refinement.{IsServed}
use ns1_interview_redis.Commands.Interleaved.{
  Running, before, asked, advance_at, interleave, Doing, act_at, act_all, doing,
}
use ns1_interview_redis.Commands.Interleaved.Advance.{IsReady, advance-Advanced}

-- The workers' steps did not fault, are those on the dictionary, and left stores for it.
pub record Interleaves (o : Option (List Running × DataStores)) (r : List Doing × Dictionary)
    : Type 0 where
  pub workers : List Running
  pub after : DataStores
  pub runs : o ≡ some (workers, after)
  pub does : map doing workers ≡ r.0
  pub still : Represents after r.1
  pub ready : All IsReady workers

advance_at-Interleaves :
    (i : ℕ) (ws : List Running) {st : DataStores} {m : Dictionary}
    → Represents st m
    → All IsReady ws
    → Interleaves (advance_at i ws st) (act_at i (map doing ws) m)
advance_at-Interleaves i [] {st} r ready = record {
  workers = [];
  after = st;
  runs = refl;
  does = refl;
  still = r;
  ready = tt;
}
advance_at-Interleaves zero (w ∷ ws) {st} {m} r (here, others) =
    let a = advance-Advanced w r here in
    record {
      workers = a.next ∷ ws;
      after = a.after;
      runs = rw a.runs refl;
      does = ap (λ d. d ∷ map doing ws) a.does;
      still = a.still;
      ready = (a.ready, others);
    }
advance_at-Interleaves (suc i) (w ∷ ws) r (here, others) =
    let s = advance_at-Interleaves i ws r others in
    record {
      workers = w ∷ s.workers;
      after = s.after;
      runs = rw s.runs refl;
      does = ap (λ ds. doing w ∷ ds) s.does;
      still = s.still;
      ready = (here, s.ready);
    }

schedule-Interleaves :
    (is : List ℕ) (ws : List Running) {st : DataStores} {m : Dictionary}
    → Represents st m
    → All IsReady ws
    → Interleaves (interleave is ws st) (act_all is (map doing ws) m)
schedule-Interleaves [] ws {st} r ready = record {
  workers = ws;
  after = st;
  runs = refl;
  does = refl;
  still = r;
  ready = ready;
}
schedule-Interleaves (i ∷ is) ws {st} {m} r ready =
    let one = advance_at-Interleaves i ws r ready in
    let more = schedule-Interleaves is one.workers one.still one.ready in
    let same : map doing one.workers ≡ (act_at i (map doing ws) m).0 = one.does in
    record {
      workers = more.workers;
      after = more.after;
      runs = rw one.runs more.runs;
      does = more.does ∙ ap (λ ds. (act_all is ds (act_at i (map doing ws) m).1).0) same;
      still =
          subst (λ ds. Represents more.after (act_all is ds (act_at i (map doing ws) m).1).1) same
            more.still;
      ready = more.ready;
    }

commands-IsReady : (cs : List RespObject) → All IsServed cs → All IsReady (map before cs)
commands-IsReady [] served = tt
commands-IsReady (c ∷ cs) served = (served.0, commands-IsReady cs served.1)

doing-before : (cs : List RespObject) → map doing (map before cs) ≡ map (λ c. asked (request c)) cs
doing-before [] = refl
doing-before (c ∷ cs) = ap (λ ds. asked (request c) ∷ ds) (doing-before cs)

-- From stores that represent a dictionary, workers that run wire objects whose keys have data stores
-- do not fault, in whatever order they come to lock the data stores. What they do, key by key, and
-- what they answer is what requests about one key each, in the same order, come to on the
-- dictionary, which the stores represent behind them.
pub interleave-Interleaves :
    (is : List ℕ) (cs : List RespObject) (st : DataStores) (m : Dictionary)
    → Represents st m
    → All IsServed cs
    → Interleaves
        (interleave is (map before cs) st)
        (act_all is (map (λ c. asked (request c)) cs) m)
interleave-Interleaves is cs st m r served =
    subst (λ ds. Interleaves (interleave is (map before cs) st) (act_all is ds m)) (doing-before cs)
      (schedule-Interleaves is (map before cs) r (commands-IsReady cs served))
