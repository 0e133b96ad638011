-- ===== src/Server/Threads/Answers.antt =====
-- Which responses the clients are sent: on each socket those of its own texts, in their order.
use ns1_interview_redis.Prelude.{
  ℕ, zero, suc, ◌≡◌, ◌≢◌, refl, sym, ap, ◌∙◌, Bool, true, false, Option, none, some, List, [], ◌∷◌,
  ◌++◌, ◌==◌, ==-refl, ==-ne, take, append-nil,
}
use mathlib.Core.Path.{subst}
use ns1_interview_redis.Prelude.Bytes.{Bytes, c_str}
use ns1_interview_redis.Resp.{RespObject, serialize}
use ns1_interview_redis.Session.{State}
use ns1_interview_redis.Server.Effect.{Orchestrator, Pointer}
use ns1_interview_redis.Server.Threads.Places.{jobs_in, AreOwned}
use ns1_interview_redis.Server.Threads.Moves.{by_eq}

abbrev put_if : {A : Type 0} → Bool → A → List A → List A
put_if true a l = a ∷ l
put_if false a l = l

-- What a list holds for one socket.
abbrev pub on : {A : Type 0} → ℕ → List (ℕ × A) → List A
on fd [] = []
on fd ((g, a) ∷ l) = put_if (g == fd) a (on fd l)

-- What became of the responses of a socket, with the number of times that it was closed: of each
-- response a part of its bytes was sent from its beginning, or the connection was closed before.
pub data Follows : ℕ → List Bytes → List RespObject → Type 0 where
  nothing : Follows 0 [] []
  sends :
      {c : ℕ} {bs : List Bytes} {xs : List RespObject} (n : ℕ) (x : RespObject)
      → Follows c bs xs
      → Follows c (bs ++ take n (c_str (serialize x)) ∷ []) (xs ++ x ∷ [])
  loses :
      {c : ℕ} {bs : List Bytes} {xs : List RespObject} (x : RespObject)
      → Follows c bs xs
      → Follows (suc c) bs (xs ++ x ∷ [])
  closes :
      {c : ℕ} {bs : List Bytes} {xs : List RespObject} → Follows c bs xs → Follows (suc c) bs xs

-- The same where the last response is still to be sent.
abbrev pub Line : ℕ → List Bytes → List RespObject → Option RespObject → Type 0
Line c bs xs none = Follows c bs xs
Line c bs xs (some x) = (ys : List RespObject) × (xs ≡ ys ++ x ∷ []) × Follows c bs ys

-- How often a socket was closed.
abbrev pub closings : ℕ → Orchestrator → ℕ
closings fd o = jobs_in fd o.closed

abbrev waits : ℕ → Option RespObject → Option RespObject
waits zero response = none
waits (suc n) response = response

abbrev pending_at : Option Pointer → Orchestrator → Option RespObject
pending_at none o = none
pending_at (some p) o = waits (jobs_in p o.write_jobs) (o.heap p).response

-- The response that is queued for writing on a socket.
abbrev pub pending : ℕ → Orchestrator → Option RespObject
pending fd o = pending_at (o.all_sockets fd) o

-- On each socket the bytes that were sent follow the responses.
abbrev pub AreTold : List (ℕ × RespObject) → Orchestrator → Type 0
AreTold rs o = (fd : ℕ) → Line (closings fd o) (on fd o.sent) (on fd rs) (pending fd o)

put_if-append :
    {A : Type 0} (b : Bool) (a : A) (l l' : List A) → put_if b a l ++ l' ≡ put_if b a (l ++ l')
put_if-append true a l l' = refl
put_if-append false a l l' = refl

on-append : {A : Type 0} (fd : ℕ) (l l' : List (ℕ × A)) → on fd (l ++ l') ≡ on fd l ++ on fd l'
on-append fd [] l' = refl
on-append fd ((g, a) ∷ l) l' =
    ap (put_if (g == fd) a) (on-append fd l l')
    ∙ sym (put_if-append (g == fd) a (on fd l) (on fd l'))

pub on-added_self :
    {A : Type 0} (fd : ℕ) (l : List (ℕ × A)) (a : A) → on fd (l ++ (fd, a) ∷ []) ≡ on fd l ++ a ∷ []
on-added_self fd l a = on-append fd l ((fd, a) ∷ []) ∙ rw (==-refl fd) refl

pub on-added_ne :
    {A : Type 0} (g fd : ℕ) (l : List (ℕ × A)) (a : A) → g ≢ fd → on fd (l ++ (g, a) ∷ []) ≡ on fd l
on-added_ne g fd l a ne = on-append fd l ((g, a) ∷ []) ∙ (rw (==-ne g fd ne) (append-nil (on fd l)))

pending_at-kept :
    (k : Option Pointer) (o o' : Orchestrator)
    → ((q : Pointer)
        → k ≡ some q
        → ((o'.heap q).response ≡ (o.heap q).response)
          × (jobs_in q o'.write_jobs ≡ jobs_in q o.write_jobs))
    → pending_at k o' ≡ pending_at k o
pending_at-kept none o o' same = refl
pending_at-kept (some q) o o' same = rw ((same q refl).0, (same q refl).1) refl

pub pending-kept :
    (fd : ℕ) (o o' : Orchestrator)
    → o'.all_sockets fd ≡ o.all_sockets fd
    → ((q : Pointer)
        → o.all_sockets fd ≡ some q
        → ((o'.heap q).response ≡ (o.heap q).response)
          × (jobs_in q o'.write_jobs ≡ jobs_in q o.write_jobs))
    → pending fd o' ≡ pending fd o
pending-kept fd o o' same kept =
    ap (λ k. pending_at k o') same ∙ pending_at-kept (o.all_sockets fd) o o' kept

pub pending-closed : (fd : ℕ) (o : Orchestrator) → o.all_sockets fd ≡ none → pending fd o ≡ none
pending-closed fd o e = rw e refl

pub pending-elsewhere :
    {p : Pointer} (fd : ℕ) (o : Orchestrator)
    → o.all_sockets fd ≡ some p
    → jobs_in p o.write_jobs ≡ 0
    → pending fd o ≡ none
pending-elsewhere fd o e c = rw e (rw c refl)

pub pending-queued :
    {p : Pointer} {n : ℕ} {x : RespObject} (fd : ℕ) (o : Orchestrator)
    → o.all_sockets fd ≡ some p
    → jobs_in p o.write_jobs ≡ suc n
    → (o.heap p).response ≡ some x
    → pending fd o ≡ some x
pending-queued fd o e c r = rw e (rw c r)

-- A step that is about one connection, of socket `fd`.
module _ {p : Pointer} {fd : ℕ} (o : Orchestrator) (rs : List (ℕ × RespObject)) (owned : AreOwned o)
    (own : (o.heap p).socket ≡ fd)
    (others : (g : ℕ) → fd ≢ g → Line (closings g o) (on g o.sent) (on g rs) (pending g o)) where
  pending-other :
      (o' : Orchestrator) (g : ℕ)
      → fd ≢ g
      → o'.all_sockets g ≡ o.all_sockets g
      → ((q : Pointer) → q ≢ p → o'.heap q ≡ o.heap q)
      → ((q : Pointer) → q ≢ p → jobs_in q o'.write_jobs ≡ jobs_in q o.write_jobs)
      → pending g o' ≡ pending g o
  pending-other o' g apart tables kept jobs = pending-kept g o o' tables λ q there.
      let ne : q ≢ p =
        λ e. apart (sym own ∙ (ap (λ q. (o.heap q).socket) (sym e) ∙ (owned g q there).0)) in
      (ap (λ (s : State). s.response) (kept q ne), jobs q ne)

  pub AreTold-from :
      (o' : Orchestrator) (rs' : List (ℕ × RespObject))
      → ((g : ℕ) → fd ≢ g → o'.all_sockets g ≡ o.all_sockets g)
      → ((q : Pointer) → q ≢ p → o'.heap q ≡ o.heap q)
      → ((q : Pointer) → q ≢ p → jobs_in q o'.write_jobs ≡ jobs_in q o.write_jobs)
      → ((g : ℕ) → fd ≢ g → on g o'.sent ≡ on g o.sent)
      → ((g : ℕ) → fd ≢ g → on g rs' ≡ on g rs)
      → ((g : ℕ) → fd ≢ g → closings g o' ≡ closings g o)
      → Line (closings fd o') (on fd o'.sent) (on fd rs') (pending fd o')
      → AreTold rs' o'
  AreTold-from o' rs' tables kept jobs sent told closed here = λ g.
      by_eq (λ g. Line (closings g o') (on g o'.sent) (on g rs') (pending g o')) fd g here
        λ ne.
          let apart : fd ≢ g = λ e. ne (sym e) in
          subst (λ c. Line c (on g o'.sent) (on g rs') (pending g o')) (sym (closed g apart))
            (subst (λ bs. Line (closings g o) bs (on g rs') (pending g o')) (sym (sent g apart))
              (subst (λ xs. Line (closings g o) (on g o.sent) xs (pending g o'))
                (sym (told g apart))
                (subst (Line (closings g o) (on g o.sent) (on g rs))
                  (sym (pending-other o' g apart (tables g apart) kept jobs)) (others g apart))))
