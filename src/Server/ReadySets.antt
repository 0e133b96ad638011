-- ===== src/Server/ReadySets.antt =====
-- The ready sockets of a round: each once, and what their removal and insertion do to a set.
use ns1_interview_redis.Prelude.{
  ℕ, ◌≡◌, ◌≢◌, refl, Bool, true, false, List, [], ◌∷◌, All, arith, ◌==◌, Bool-cases, inl, inr,
  if◌then◌else◌,
}
use ns1_interview_redis.Server.Sets.{contains-erase, contains-insert}
use ns1_interview_redis.Server.Effect.{contains, insert}
use ns1_interview_redis.Server.Sockets.{ready_fds, erase_all, insert_all}

abbrev pub IsDistinct : List ℕ → Type 0
IsDistinct [] = Unit
IsDistinct (x ∷ xs) = All (λ y. x ≢ y) xs × IsDistinct xs

pub contains-All : (k : ℕ) (xs : List ℕ) → contains k xs ≡ false → All (λ y. k ≢ y) xs
contains-All k [] e = tt
contains-All k (x ∷ xs) e = elim (Bool-cases (x == k)) [
  | inl same ↦ absurd (ground (arith, e, same))
  | inr other ↦ (λ same. ground (arith, same, other), contains-All k xs (ground (arith, e, other)))
]

insert-IsDistinct : (k : ℕ) (xs : List ℕ) → IsDistinct xs → IsDistinct (insert k xs)
insert-IsDistinct k xs d = elim (Bool-cases (contains k xs)) [
  | inl there ↦ rw there d
  | inr new ↦ rw new (contains-All k xs new, d)
]

pub ready_fds-IsDistinct : (events : List (ℕ × Bool)) → IsDistinct (ready_fds events)
ready_fds-IsDistinct [] = tt
ready_fds-IsDistinct ((fd, true) ∷ events) =
    insert-IsDistinct fd (ready_fds events) (ready_fds-IsDistinct events)
ready_fds-IsDistinct ((fd, false) ∷ events) = ready_fds-IsDistinct events

pub contains-erase_all :
    (j : ℕ) (fds s : List ℕ)
    → contains j (erase_all fds s) ≡ (if contains j fds then false else contains j s)
contains-erase_all j [] s = refl
contains-erase_all j (fd ∷ fds) s =
    ground (arith, contains-erase j fd (erase_all fds s), contains-erase_all j fds s)

pub contains-insert_all :
    (j : ℕ) (fds s : List ℕ)
    → contains j (insert_all fds s) ≡ (if contains j fds then true else contains j s)
contains-insert_all j [] s = refl
contains-insert_all j (fd ∷ fds) s =
    ground (arith, contains-insert j fd (insert_all fds s), contains-insert_all j fds s)

-- The sockets for which there is room in a queue.
abbrev pub keep_if : Bool → ℕ → List ℕ → List ℕ
keep_if true fd fds = fd ∷ fds
keep_if false fd fds = fds

abbrev pub with_room : (ℕ → Bool) → List ℕ → List ℕ
with_room room [] = []
with_room room (fd ∷ fds) = keep_if (room fd) fd (with_room room fds)

pub All-with_room :
    (P : ℕ → Type 0) (room : ℕ → Bool) (fds : List ℕ) → All P fds → All P (with_room room fds)
All-with_room P room [] h = tt
All-with_room P room (fd ∷ fds) h = elim (Bool-cases (room fd)) [
  | inl roomy ↦ rw roomy (h.0, All-with_room P room fds h.1)
  | inr full ↦ rw full (All-with_room P room fds h.1)
]

pub with_room-IsDistinct :
    (room : ℕ → Bool) (fds : List ℕ) → IsDistinct fds → IsDistinct (with_room room fds)
with_room-IsDistinct room [] d = tt
with_room-IsDistinct room (fd ∷ fds) d = elim (Bool-cases (room fd)) [
  | inl roomy ↦ rw roomy (All-with_room _ room fds d.0, with_room-IsDistinct room fds d.1)
  | inr full ↦ rw full (with_room-IsDistinct room fds d.1)
]
