-- ===== src/Server/Threads/Told.antt =====
-- What a job does to the responses: each is queued, sent or lost.
use ns1_interview_redis.Prelude.{
  suc, ℕ, ◌≡◌, ◌≢◌, refl, sym, ap, ◌∙◌, Bool, true, false, Option, none, some, List, [], ◌∷◌, ◌++◌,
  take, arith,
}
use mathlib.Core.Path.{subst}
use ns1_interview_redis.Prelude.Bytes.{Bytes, c_str}
use ns1_interview_redis.Resp.{RespObject, serialize}
use ns1_interview_redis.Parser.Result.{ok, err, ParseError}
use ns1_interview_redis.Parser.{parse}
use ns1_interview_redis.Commands.Action.{DataStores}
use ns1_interview_redis.Commands.{do_operation}
use ns1_interview_redis.Session.{State}
use ns1_interview_redis.Server.Effect.{Orchestrator, Pointer, update, update_self, update-ne}
use ns1_interview_redis.Server.Jobs.{
  ReadEnd, read_loop, read_job, parse_and_run_job, write_job, write_buffer, answered,
  unable_to_parse,
}
use ns1_interview_redis.Server.Steps.{changed, set_parsing, rearmed}
use ns1_interview_redis.Server.Failures.{read_over}
use ns1_interview_redis.Server.Closing.{cleaned}
use ns1_interview_redis.Server.Threads.Places.{
  jobs_in, jobs_in-append, writing, Finds, IsOrderlyBut, Fine,
}
use ns1_interview_redis.Server.Threads.Moves.{cleaned-heap_ne}
use ns1_interview_redis.Server.Threads.Handlers.{
  unparsed, commanded, read_job-Fine, refused-Fine, commanded-Fine, write_job-Fine,
}
use ns1_interview_redis.Server.Threads.Answers.{
  on, on-added_self, on-added_ne, Follows, sends, loses, Line, closings, closes, pending,
  pending-closed, pending-elsewhere, pending-queued, AreTold, AreTold-from,
}

closed_again : (fd : ℕ) (closed : List ℕ) → jobs_in fd (closed ++ fd ∷ []) ≡ suc (jobs_in fd closed)
closed_again fd closed = ground (arith, jobs_in-append fd closed (fd ∷ []))

twice_ne :
    (p : Pointer) (s s' : State) (h : Pointer → State) (q : Pointer)
    → q ≢ p
    → update p s' (update p s h) q ≡ h q
twice_ne p s s' h q ne =
    let ne' : p ≢ q = λ e. ne (sym e) in update-ne p q s' (update p s h) ne' ∙ update-ne p q s h ne'

write_buffer_lem :
    (s : State) (x : RespObject)
    → Finds writing s
    → s.response ≡ some x
    → write_buffer (set_parsing s) ≡ c_str (serialize x)
unfolding write_buffer
write_buffer_lem s x finds e = rw (finds.0, e) refl

-- The job of `p` is out of its queue; the responses of the other connections are where they were.
module _ {p : Pointer} (o : Orchestrator) (rs : List (ℕ × RespObject)) (v : IsOrderlyBut p o)
    (others : (g : ℕ)
      → (o.heap p).socket ≢ g
      → Line (closings g o) (on g o.sent) (on g rs) (pending g o)) where
  module _ (h : Pointer → State) (kept : (q : Pointer) → q ≢ p → h q ≡ o.heap q) (st : DataStores)
      (l : List (ℕ × Bytes)) (rs' : List (ℕ × RespObject))
      (sent : (g : ℕ) → (o.heap p).socket ≢ g → on g l ≡ on g o.sent)
      (told : (g : ℕ) → (o.heap p).socket ≢ g → on g rs' ≡ on g rs) where
    closed-AreTold :
        Follows
          (suc (closings (o.heap p).socket o))
          (on (o.heap p).socket l)
          (on (o.heap p).socket rs')
        → AreTold rs'
            (cleaned (o.heap p).socket p (record o { heap = h; datastore = st; sent = l }))
    closed-AreTold follows =
        let fd = (o.heap p).socket in
        let o' = cleaned fd p (record o { heap = h; datastore = st; sent = l }) in
        AreTold-from o rs v.owned refl others o' rs'
          (λ g apart. update-ne fd g none o.all_sockets apart)
          (λ q ne.
            cleaned-heap_ne p fd (record o { heap = h; datastore = st; sent = l }) q ne ∙ kept q ne)
          (λ q ne. refl) sent told
          (λ g apart. ground (arith, jobs_in-append g o.closed (fd ∷ []), apart))
          (subst (λ c. Line c (on fd l) (on fd rs') (pending fd o'))
            (sym (closed_again fd o.closed))
            (subst (Line (suc (closings fd o)) (on fd l) (on fd rs'))
              (sym (pending-closed fd o' (update_self fd none o.all_sockets))) follows))

    rearmed-AreTold :
        Follows (closings (o.heap p).socket o) (on (o.heap p).socket l) (on (o.heap p).socket rs')
        → AreTold rs'
            (rearmed (o.heap p).socket p (record o { heap = h; datastore = st; sent = l }))
    rearmed-AreTold follows =
        let fd = (o.heap p).socket in
        let o' = rearmed fd p (record o { heap = h; datastore = st; sent = l }) in
        AreTold-from o rs v.owned refl others o' rs' (λ g apart. refl)
          (λ q ne. update-ne p q _ h (λ e. ne (sym e)) ∙ kept q ne) (λ q ne. refl) sent told
          (λ g apart. refl)
          (subst (Line (closings fd o) (on fd l) (on fd rs'))
            (sym (pending-elsewhere fd o' v.registered v.in_no_queue.2)) follows)

    parse-AreTold :
        Follows (closings (o.heap p).socket o) (on (o.heap p).socket l) (on (o.heap p).socket rs')
        → AreTold rs'
            (record o { heap = h; datastore = st; sent = l; parse_jobs = o.parse_jobs ++ p ∷ [] })
    parse-AreTold follows =
        let fd = (o.heap p).socket in
        let o' = record o {
          heap = h;
          datastore = st;
          sent = l;
          parse_jobs = o.parse_jobs ++ p ∷ [];
        } in
        AreTold-from o rs v.owned refl others o' rs' (λ g apart. refl) kept (λ q ne. refl) sent told
          (λ g apart. refl)
          (subst (Line (closings fd o) (on fd l) (on fd rs'))
            (sym (pending-elsewhere fd o' v.registered v.in_no_queue.2)) follows)

    write-AreTold :
        (x : RespObject)
        → (h p).response ≡ some x
        → Line
            (closings (o.heap p).socket o)
            (on (o.heap p).socket l)
            (on (o.heap p).socket rs')
            (some x)
        → AreTold rs'
            (record o { heap = h; datastore = st; sent = l; write_jobs = o.write_jobs ++ p ∷ [] })
    write-AreTold x response line =
        let fd = (o.heap p).socket in
        let o' = record o {
          heap = h;
          datastore = st;
          sent = l;
          write_jobs = o.write_jobs ++ p ∷ [];
        } in
        AreTold-from o rs v.owned refl others o' rs' (λ g apart. refl) kept
          (λ q ne. ground (arith, jobs_in-append q o.write_jobs (p ∷ []))) sent told
          (λ g apart. refl)
          (subst (Line (closings fd o) (on fd l) (on fd rs'))
            (sym (
              pending-queued {n = 0} fd o' v.registered
                (ground (arith, jobs_in-append p o.write_jobs (p ∷ []), v.in_no_queue.2)) response))
            line)

  pub read_job-AreTold :
      (F : Type 0) (chunks : List Bytes) (end : ReadEnd) (room : Bool)
      → (read_loop (o.heap p).read_data chunks ≡ none → F)
      → Follows
          (closings (o.heap p).socket o)
          (on (o.heap p).socket o.sent)
          (on (o.heap p).socket rs)
      → Fine F (AreTold rs) (read_job chunks end room p o)
  read_job-AreTold F chunks end room faults follows =
      read_job-Fine F (AreTold rs) p o v.registered chunks end room faults
        (λ text.
          parse-AreTold (read_over p text o).heap (twice_ne p _ _ o.heap) o.datastore o.sent rs
            (λ g apart. refl) (λ g apart. refl) follows)
        (λ text.
          closed-AreTold (read_over p text o).heap (twice_ne p _ _ o.heap) o.datastore o.sent rs
            (λ g apart. refl) (λ g apart. refl) (closes follows))

  pub write_job-AreTold :
      (n : Option ℕ) {x : RespObject}
      → Finds writing (o.heap p)
      → (o.heap p).response ≡ some x
      → Line
          (closings (o.heap p).socket o)
          (on (o.heap p).socket o.sent)
          (on (o.heap p).socket rs)
          (some x)
      → Fine ⊥ (AreTold rs) (write_job n p o)
  write_job-AreTold n {x} finds response (ys, last, follows) =
      let fd = (o.heap p).socket in
      let h = (changed p set_parsing o).heap in
      let kept : (q : Pointer) → q ≢ p → h q ≡ o.heap q =
        λ q ne. update-ne p q _ o.heap λ e. ne (sym e) in
      let bytes = λ (n : ℕ). take n (write_buffer (set_parsing (o.heap p))) in
      let sent : (n g : ℕ) → fd ≢ g → on g (o.sent ++ (fd, bytes n) ∷ []) ≡ on g o.sent =
        λ n g apart. on-added_ne fd g o.sent (bytes n) apart in
      let goes : (n : ℕ)
          → Follows (closings fd o) (on fd (o.sent ++ (fd, bytes n) ∷ [])) (on fd rs) =
        λ n. subst (Follows (closings fd o) (on fd (o.sent ++ (fd, bytes n) ∷ []))) (sym last) (
          subst (λ bs. Follows (closings fd o) bs (ys ++ x ∷ []))
            (sym (
              on-added_self fd o.sent (bytes n)
              ∙ ap (λ b. on fd o.sent ++ take n b ∷ [])
                  (write_buffer_lem (o.heap p) x finds response)))
            (sends n x follows)) in
      write_job-Fine ⊥ (AreTold rs) p o v.registered n
        (closed-AreTold h kept o.datastore o.sent rs (λ g apart. refl) (λ g apart. refl)
          (subst (Follows (suc (closings fd o)) (on fd o.sent)) (sym last) (loses x follows)))
        (λ n.
          closed-AreTold h kept o.datastore (o.sent ++ (fd, bytes n) ∷ []) rs (sent n)
            (λ g apart. refl) (closes (goes n)))
        (λ n.
          rearmed-AreTold h kept o.datastore (o.sent ++ (fd, bytes n) ∷ []) rs (sent n)
            (λ g apart. refl) (goes n))

  module _
      (follows : Follows
        (closings (o.heap p).socket o)
        (on (o.heap p).socket o.sent)
        (on (o.heap p).socket rs))
      (x : RespObject) where
    told_ne : (g : ℕ) → (o.heap p).socket ≢ g → on g (rs ++ ((o.heap p).socket, x) ∷ []) ≡ on g rs
    told_ne g apart = on-added_ne (o.heap p).socket g rs x apart

    told_lost :
        Follows
          (suc (closings (o.heap p).socket o))
          (on (o.heap p).socket o.sent)
          (on (o.heap p).socket (rs ++ ((o.heap p).socket, x) ∷ []))
    told_lost =
        let fd = (o.heap p).socket in
        subst (Follows (suc (closings fd o)) (on fd o.sent)) (sym (on-added_self fd rs x))
          (loses x follows)

    told-Line :
        Line
          (closings (o.heap p).socket o)
          (on (o.heap p).socket o.sent)
          (on (o.heap p).socket (rs ++ ((o.heap p).socket, x) ∷ []))
          (some x)
    told-Line = let fd = (o.heap p).socket in (on fd rs, on-added_self fd rs x, follows)

  pub unparsed-AreTold :
      (room : Bool) {e : ParseError} {rest : Bytes}
      → Follows
          (closings (o.heap p).socket o)
          (on (o.heap p).socket o.sent)
          (on (o.heap p).socket rs)
      → parse (o.heap p).read_data ≡ err e rest
      → Fine ⊥
          (AreTold (rs ++ ((o.heap p).socket, unable_to_parse (o.heap p).read_data) ∷ []))
          (parse_and_run_job room p o)
  unparsed-AreTold room follows unread =
      let x = unable_to_parse (o.heap p).read_data in
      let rs' = rs ++ ((o.heap p).socket, x) ∷ [] in
      refused-Fine ⊥ (AreTold rs') p o v.registered room unread
        (write-AreTold (unparsed p o).heap (twice_ne p _ _ o.heap) o.datastore o.sent rs'
          (λ g apart. refl) (told_ne follows x) x (simp update_self) (told-Line follows x))
        (closed-AreTold (unparsed p o).heap (twice_ne p _ _ o.heap) o.datastore o.sent rs'
          (λ g apart. refl) (told_ne follows x) (told_lost follows x))

  answered-response :
      (b : Bool) (x : RespObject) (s : State) → (answered (b, some x) s).response ≡ some x
  answered-response true x s = refl
  answered-response false x s = refl

  pub commanded-AreTold :
      (F : Type 0) (room : Bool) {c x : RespObject} {rest : Bytes} {b : Bool} {st : DataStores}
      → Follows
          (closings (o.heap p).socket o)
          (on (o.heap p).socket o.sent)
          (on (o.heap p).socket rs)
      → parse (o.heap p).read_data ≡ ok c rest
      → do_operation c o.datastore ≡ some ((b, some x), st)
      → Fine F (AreTold (rs ++ ((o.heap p).socket, x) ∷ [])) (parse_and_run_job room p o)
  commanded-AreTold F room {c} {x} {rest} {b} {st} follows read ran =
      let rs' = rs ++ ((o.heap p).socket, x) ∷ [] in
      let h = (commanded p c (b, some x) st o).heap in
      let kept : (q : Pointer) → q ≢ p → h q ≡ o.heap q =
        λ q ne. update-ne p q _ _ (λ e. ne (sym e)) ∙ twice_ne p _ _ o.heap q ne in
      let response : (h p).response ≡ some x =
        ap (λ (s : State). s.response) (update_self p _ _) ∙ answered-response b x _ in
      commanded-Fine F (AreTold rs') p o v.registered room read ran
        (write-AreTold h kept st o.sent rs' (λ g apart. refl) (told_ne follows x) x response
          (told-Line follows x))
        (closed-AreTold h kept st o.sent rs' (λ g apart. refl) (told_ne follows x)
          (told_lost follows x))
