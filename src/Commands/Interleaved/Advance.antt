-- ===== src/Commands/Interleaved/Advance.antt =====
-- A worker's step on the data stores is its step on one dictionary.
use ns1_interview_redis.Prelude.{
  ℕ, ◌+◌, ◌≡◌, refl, sym, ap, Bool, true, false, Option, some, ◌∷◌, if◌then◌else◌, arith,
}
use mathlib.Core.Path.{subst}
use ns1_interview_redis.Prelude.Bytes.{bytes_eq, codes}
use ns1_interview_redis.Resp.{RespObject, RespObjects, nil, cons, datatype, to_string}
use ns1_interview_redis.Parser.Wire.{IsWire, AreWire, null, text, items, done, item}
use ns1_interview_redis.Commands.Action.{DataStores, pure, continue}
use ns1_interview_redis.Commands.{Response, is_text, invalid_response, do_get}
use ns1_interview_redis.Commands.Dictionary.{
  Dictionary, Request, get, set, del, invalid, keys_of, set_request, obey, is_some,
}
use ns1_interview_redis.Commands.Simulation.{
  Represents, Simulates, do_get-Simulates, do_del_internal-Simulates,
}
use ns1_interview_redis.Commands.Refinement.{
  ArePlaced, KeysArePlaced, IsServed, chosen, command, set_if_long, set_request-Simulates,
  invalid-Simulates,
}
use ns1_interview_redis.Commands.Interleaved.{
  Running, before, deleting, answered, asked, removing, told, advance, Doing, act, doing,
}

-- The keys that a worker still has to lock are of wire objects and have data stores.
abbrev pub IsReady : Running → Type 0
IsReady (before c) = IsServed c
IsReady (deleting n xs) = AreWire xs × ArePlaced (keys_of xs)
IsReady (answered response) = Unit

-- A step did not fault, did what the step on the dictionary does, and left stores for it.
pub record Advanced (o : Option (Running × DataStores)) (r : Doing × Dictionary) : Type 0 where
  pub next : Running
  pub after : DataStores
  pub runs : o ≡ some (next, after)
  pub does : doing next ≡ r.0
  pub still : Represents after r.1
  pub ready : IsReady next

abbrev pub answer : Option (Response × DataStores) → Option (Running × DataStores)
answer = continue λ response. pure (answered response)

-- A command that locks a store once, or none, answers at its first step.
answer-Advanced :
    {o : Option (Response × DataStores)} (q : Request) (m : Dictionary) (r : Doing × Dictionary)
    → Simulates o (obey q m)
    → r ≡ (told (obey q m).0, (obey q m).1)
    → Advanced (answer o) r
answer-Advanced q m r s e = record {
  next = answered _;
  after = s.after;
  runs = rw s.runs refl;
  does = ap (λ r. r.0) (sym e);
  still = subst (Represents s.after) (ap (λ r. r.1) (sym e)) s.still;
  ready = tt;
}

deleting-Advanced :
    (n : ℕ) (xs : RespObjects) {st : DataStores} {m : Dictionary}
    → Represents st m
    → AreWire xs
    → ArePlaced (keys_of xs)
    → Advanced (advance (deleting n xs) st) (act (removing n (keys_of xs)) m)
unfolding advance
deleting-Advanced n nil {st} r w placed = record {
  next = answered _;
  after = st;
  runs = refl;
  does = refl;
  still = r;
  ready = tt;
}
deleting-Advanced n (cons x xs) {st} {m} r (item w ws) placed =
    let one = do_del_internal-Simulates r x w placed.0 in
    record {
      next = deleting (if is_some (m (to_string x)) then n + 1 else n) xs;
      after = one.after;
      runs = rw one.runs refl;
      does = ap (λ k. removing k (keys_of xs)) (ground arith);
      still = one.still;
      ready = (ws, placed.1);
    }

module _ (name key : RespObject) (rest : RespObjects) where
  pub advance_lem :
      (st : DataStores)
      → advance (before (command name key rest)) st
        ≡ chosen
            (is_text (datatype key))
            (bytes_eq (to_string name) (codes "get"))
            (bytes_eq (to_string name) (codes "del"))
            (bytes_eq (to_string name) (codes "set"))
            (answer (do_get (command name key rest) st))
            (some (deleting 0 (cons key rest), st))
            (answer (set_if_long name key rest st))
            (answer (pure invalid_response st))
  unfolding advance
  advance_lem st = ground arith

  module _ {st : DataStores} {m : Dictionary} (r : Represents st m) where
    set-Advanced :
        (rest : RespObjects)
        → IsWire key
        → AreWire rest
        → KeysArePlaced (set_request (to_string key) rest)
        → Advanced
            (answer (set_if_long name key rest st))
            (act (asked (set_request (to_string key) rest)) m)
    set-Advanced nil wk ws placed =
        answer-Advanced invalid m _ (set_request-Simulates name key nil r ws wk placed) refl
    set-Advanced (cons value more) wk ws placed =
        answer-Advanced (set (to_string key) value) m _
          (set_request-Simulates name key (cons value more) r ws wk placed) refl

    choice-Advanced :
        (is_key is_get is_del is_set : Bool)
        → IsWire key
        → AreWire rest
        → KeysArePlaced (
            chosen is_key is_get is_del is_set
              (get (to_string key))
              (del (to_string key ∷ keys_of rest))
              (set_request (to_string key) rest)
              invalid)
        → Advanced
            (chosen is_key is_get is_del is_set
              (answer (do_get (command name key rest) st))
              (some (deleting 0 (cons key rest), st))
              (answer (set_if_long name key rest st))
              (answer (pure invalid_response st)))
            (act
              (asked (
                chosen is_key is_get is_del is_set
                  (get (to_string key))
                  (del (to_string key ∷ keys_of rest))
                  (set_request (to_string key) rest)
                  invalid))
              m)
    choice-Advanced false is_get is_del is_set wk ws placed =
        answer-Advanced invalid m _ (invalid-Simulates r) refl
    choice-Advanced true true is_del is_set wk ws placed =
        answer-Advanced (get (to_string key)) m _ (do_get-Simulates r name key rest wk placed) refl
    choice-Advanced true false true is_set wk ws placed = record {
      next = deleting 0 (cons key rest);
      after = st;
      runs = refl;
      does = refl;
      still = r;
      ready = (item wk ws, placed);
    }
    choice-Advanced true false false true wk ws placed = set-Advanced rest wk ws placed
    choice-Advanced true false false false wk ws placed =
        answer-Advanced invalid m _ (invalid-Simulates r) refl

pub advance-Advanced :
    (w : Running) {st : DataStores} {m : Dictionary}
    → Represents st m
    → IsReady w
    → Advanced (advance w st) (act (doing w) m)
unfolding advance
advance-Advanced (answered response) {st} r ready = record {
  next = answered _;
  after = st;
  runs = refl;
  does = refl;
  still = r;
  ready = tt;
}
advance-Advanced (deleting n xs) r (ws, placed) = deleting-Advanced n xs r ws placed
advance-Advanced (before _) r (null, placed) =
    answer-Advanced invalid _ _ (invalid-Simulates r) refl
advance-Advanced (before _) r (text clean short, placed) =
    answer-Advanced invalid _ _ (invalid-Simulates r) refl
advance-Advanced (before _) r (items done short, placed) =
    answer-Advanced invalid _ _ (invalid-Simulates r) refl
advance-Advanced (before _) r (items (item wn done) short, placed) =
    answer-Advanced invalid _ _ (invalid-Simulates r) refl
advance-Advanced (before _) {st} r
      (items (item {x = name} wn (item {x = key} {xs = rest} wk ws)) short, placed) =
    rw (advance_lem name key rest st)
      (choice-Advanced name key rest r (is_text (datatype key)) _ _ _ wk ws placed)
