-- ===== src/Server/Failures.antt =====
-- The error paths of the read job and the write job.
use ns1_interview_redis.Prelude.{◌≡◌, ◌≢◌, refl, Bool, true, ◌||◌, none, some, List, [], ap, ◌∙◌}
use ns1_interview_redis.Prelude.Int.{negsuc}
use ns1_interview_redis.Prelude.Bytes.{Bytes, bytes_eq}
use ns1_interview_redis.Session.{State}
use ns1_interview_redis.Server.Effect.{
  Orchestrator, Pointer, done, pure, go_on, update_self, update-ne,
}
use ns1_interview_redis.Server.Sockets.{close_and_cleanup}
use ns1_interview_redis.Server.Jobs.{read_loop, ReadEnd, is_failed, read_bytes, read_job, write_job}
use ns1_interview_redis.Server.Steps.{changed, set_parsing}
use ns1_interview_redis.Server.Reading.{set_reading}
use ns1_interview_redis.Server.Requests.{IsGone-from}
use ns1_interview_redis.Server.Closing.{
  IsGone, OthersKept, cleaned, cleaned-IsGone, cleaned-OthersKept, close_and_cleanup-cleaned,
}

abbrev pub read_over : Pointer → Bytes → Orchestrator → Orchestrator
read_over p text o = changed p (λ s. record s { read_data = text }) (changed p set_reading o)

-- Closing a connection whose state alone was changed.
changed-OthersKept :
    (p : Pointer) (heap : Pointer → State) (o : Orchestrator)
    → ((q : Pointer) → p ≢ q → heap q ≡ o.heap q)
    → OthersKept (o.heap p).socket p o (cleaned (o.heap p).socket p (record o { heap = heap }))
changed-OthersKept p heap o same =
    let k = cleaned-OthersKept (o.heap p).socket p (record o { heap = heap }) in
    record {
      next_kept = refl;
      states = λ q ne. k.states q ne ∙ same q ne;
      registered = k.registered;
      polled = k.polled;
      processing = k.processing;
      writing = k.writing;
      data_kept = refl;
      reads_kept = refl;
      parses_kept = refl;
      writes_kept = refl;
      sent_kept = refl;
    }

pub read_job-close :
    (chunks : List Bytes) (end : ReadEnd) (room : Bool) (p : Pointer) (o : Orchestrator)
    {text : Bytes}
    → read_loop (o.heap p).read_data chunks ≡ some text
    → (is_failed end || bytes_eq text []) ≡ true
    → read_job chunks end room p o
      ≡ go_on
          (λ _. pure (read_bytes end))
          (close_and_cleanup (o.heap p).socket p (read_over p text o))
unfolding read_job
read_job-close chunks end room p o collected over =
    simp update_self (rw collected (rw over (simp update_self)))

pub write_job-close :
    (p : Pointer) (o : Orchestrator)
    → write_job none p o
      ≡ go_on
          (λ _. pure (negsuc 0))
          (close_and_cleanup (o.heap p).socket p (changed p set_parsing o))
unfolding write_job
write_job-close p o = simp update_self

-- Where write() fails on a registered connection, the write job closes it and returns -1; nothing is
-- sent, and the other sockets and states, the queues and the data stay.
pub write_job-IsGone :
    (p : Pointer) (o : Orchestrator)
    → o.all_sockets (o.heap p).socket ≡ some p
    → (after : Orchestrator) × (write_job none p o ≡ done (negsuc 0) after)
      × IsGone (o.heap p).socket o after
      × OthersKept (o.heap p).socket p o after
write_job-IsGone p o registered =
    let fd = (o.heap p).socket in
    (
      cleaned fd p (changed p set_parsing o),
      write_job-close p o
          ∙ ap (go_on λ _. pure (negsuc 0))
              (close_and_cleanup-cleaned fd p (changed p set_parsing o) registered),
      IsGone-from o refl (cleaned-IsGone fd p (changed p set_parsing o)),
      changed-OthersKept p (changed p set_parsing o).heap o (λ q ne. update-ne p q _ o.heap ne),
    )
