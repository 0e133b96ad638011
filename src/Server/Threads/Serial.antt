-- ===== src/Server/Threads/Serial.antt =====
-- What the threads should come to: one dictionary that is given the texts of all connections one
-- after another, each with the socket it came from.
use ns1_interview_redis.Prelude.{ℕ, ◌≡◌, refl, ap, List, [], ◌∷◌, ◌++◌}
use ns1_interview_redis.Prelude.Bytes.{Bytes}
use ns1_interview_redis.Resp.{RespObject}
use ns1_interview_redis.Parser.Result.{Outcome, ok}
use ns1_interview_redis.Parser.{parse}
use ns1_interview_redis.Commands.Dictionary.{Dictionary, request, obey}
use ns1_interview_redis.Server.Jobs.{unable_to_parse}
use ns1_interview_redis.Server.EndToEnd.{reply}

abbrev pub answer : Outcome RespObject → Bytes → Dictionary → RespObject × Dictionary
answer (ok c rest) text m = (reply (request c) m, (obey (request c) m).1)
answer _ text m = (unable_to_parse text, m)

-- The response to a text, and the dictionary behind it.
abbrev pub serve : Bytes → Dictionary → RespObject × Dictionary
serve text = answer (parse text) text

abbrev pub kept_by : List (ℕ × Bytes) → Dictionary → Dictionary
kept_by [] m = m
kept_by ((fd, text) ∷ texts) m = kept_by texts (serve text m).1

abbrev pub responses : List (ℕ × Bytes) → Dictionary → List (ℕ × RespObject)
responses [] m = []
responses ((fd, text) ∷ texts) m = (fd, (serve text m).0) ∷ responses texts (serve text m).1

pub kept_by-append :
    (l more : List (ℕ × Bytes)) (m : Dictionary)
    → kept_by (l ++ more) m ≡ kept_by more (kept_by l m)
kept_by-append [] more m = refl
kept_by-append ((fd, text) ∷ l) more m = kept_by-append l more (serve text m).1

pub responses-append :
    (l more : List (ℕ × Bytes)) (m : Dictionary)
    → responses (l ++ more) m ≡ responses l m ++ responses more (kept_by l m)
responses-append [] more m = refl
responses-append ((fd, text) ∷ l) more m =
    ap (λ r. (fd, (serve text m).0) ∷ r) (responses-append l more (serve text m).1)
