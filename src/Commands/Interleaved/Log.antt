-- ===== src/Commands/Interleaved/Log.antt =====
-- The requests that interleaved workers make, one after another, and what a worker comes to by the
-- responses to its own.
use ns1_interview_redis.Prelude.{
  ℕ, zero, suc, ◌+◌, ◌≡◌, ◌≢◌, refl, Bool, true, false, Option, none, some, List, [], ◌∷◌,
  get_elem?, ◌==◌, ==-ne, ==-refl,
}
use ns1_interview_redis.Prelude.Int.{pos}
use ns1_interview_redis.Prelude.Bytes.{codes}
use ns1_interview_redis.Resp.{integer, error}
use ns1_interview_redis.Commands.{Response}
use ns1_interview_redis.Commands.Dictionary.{Dictionary, Request, get, del, invalid, obey}
use ns1_interview_redis.Commands.Interleaved.{Doing, asked, removing, told, act, act_at}

-- The request about one key that a worker's next step makes, if it makes one.
abbrev pub made : Doing → Option Request
made (asked (get k)) = some (get k)
made (asked (Request.set k x)) = some (Request.set k x)
made (removing n (k ∷ keys)) = some (del (k ∷ []))
made _ = none

-- Requests with their workers, one after another.
abbrev pub serial : List (ℕ × Request) → Dictionary → List (ℕ × Response) × Dictionary
serial [] m = ([], m)
serial ((i, q) ∷ log) m = let rest = serial log (obey q m).1 in ((i, (obey q m).0) ∷ rest.0, rest.1)

-- The number in a response to `del`.
abbrev pub count_of : Response → ℕ
count_of (false, some (integer (pos k))) = k
count_of _ = 0

abbrev pub hears : Doing → Response → Doing
hears (removing n (k ∷ keys)) response = removing (n + count_of response) keys
hears (removing n []) response = removing n []
hears (asked q) response = told response
hears (told x) response = told x

abbrev pub idles : Doing → Doing
idles (asked (del keys)) = removing 0 keys
idles (asked invalid) = told (false, some (error (codes "Invalid command")))
idles (asked q) = asked q
idles (removing n []) = told (false, some (integer (pos n)))
idles (removing n keys) = removing n keys
idles (told response) = told response

abbrev pub next_heard : Doing → List Response → Doing
next_heard d [] = d
next_heard d (x ∷ xs) = hears d x

abbrev pub others : List Response → List Response
others [] = []
others (x ∷ xs) = xs

-- What a worker comes to in a number of its own turns, from the responses to its requests alone.
abbrev pub comes_to : ℕ → Doing → List Response → Doing
comes_to zero d xs = d
comes_to (suc n) d xs = elim (made d) [
  | none ↦ comes_to n (idles d) xs
  | some q ↦ comes_to n (next_heard d xs) (others xs)
]

abbrev pub put_if : Bool → Response → List Response → List Response
put_if true x xs = x ∷ xs
put_if false x xs = xs

-- The responses to the requests of one worker.
abbrev pub own : ℕ → List (ℕ × Response) → List Response
own i [] = []
own i ((j, x) ∷ xs) = put_if (j == i) x (own i xs)

abbrev pub noted : ℕ → Option Request → List (ℕ × Request) → List (ℕ × Request)
noted j none log = log
noted j (some q) log = (j, q) ∷ log

abbrev pub made_of : Option Doing → Option Request
made_of none = none
made_of (some d) = made d

-- The requests of all workers in the order in which a schedule has them made.
abbrev pub log_of : List ℕ → List Doing → Dictionary → List (ℕ × Request)
log_of [] ds m = []
log_of (j ∷ is) ds m =
    noted j (made_of (get_elem? ds j)) (log_of is (act_at j ds m).0 (act_at j ds m).1)

-- One step of the worker, by itself.
pub act-comes_to :
    (j n : ℕ) (d : Doing) (m : Dictionary) (log : List (ℕ × Request))
    → comes_to n (act d m).0 (own j (serial log (act d m).1).0)
      ≡ comes_to (suc n) d (own j (serial (noted j (made d) log) m).0)
act-comes_to j n (asked (get k)) m log = rw (==-refl j) refl
act-comes_to j n (asked (Request.set k x)) m log = rw (==-refl j) refl
act-comes_to j n (asked (del keys)) m log = refl
act-comes_to j n (asked invalid) m log = refl
act-comes_to j n (removing c []) m log = refl
act-comes_to j n (removing c (k ∷ keys)) m log = rw (==-refl j) refl
act-comes_to j n (told response) m log = refl

pub serial-noted :
    (j : ℕ) (d : Doing) (m : Dictionary) (log : List (ℕ × Request))
    → (serial (noted j (made d) log) m).1 ≡ (serial log (act d m).1).1
serial-noted j (asked (get k)) m log = refl
serial-noted j (asked (Request.set k x)) m log = refl
serial-noted j (asked (del keys)) m log = refl
serial-noted j (asked invalid) m log = refl
serial-noted j (removing n []) m log = refl
serial-noted j (removing n (k ∷ keys)) m log = refl
serial-noted j (told response) m log = refl

-- The step of another worker.
pub own-noted_ne :
    (i j : ℕ) (d : Doing) (m : Dictionary) (log : List (ℕ × Request))
    → j ≢ i
    → own i (serial (noted j (made d) log) m).0 ≡ own i (serial log (act d m).1).0
own-noted_ne i j (asked (get k)) m log ne = rw (==-ne j i ne) refl
own-noted_ne i j (asked (Request.set k x)) m log ne = rw (==-ne j i ne) refl
own-noted_ne i j (asked (del keys)) m log ne = refl
own-noted_ne i j (asked invalid) m log ne = refl
own-noted_ne i j (removing n []) m log ne = refl
own-noted_ne i j (removing n (k ∷ keys)) m log ne = rw (==-ne j i ne) refl
own-noted_ne i j (told response) m log ne = refl
