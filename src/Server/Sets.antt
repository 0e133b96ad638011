-- ===== src/Server/Sets.antt =====
-- The sets of sockets: membership behind an insertion and a removal.
use ns1_interview_redis.Prelude.{
  ℕ, ◌≡◌, ◌≢◌, refl, true, false, List, [], ◌∷◌, ◌==◌, ==-refl, arith, Bool-cases, inl, inr,
  if◌then◌else◌,
}
use ns1_interview_redis.Server.Effect.{contains, erase, insert}

pub contains-erase :
    (j k : ℕ) (xs : List ℕ) → contains j (erase k xs) ≡ (if k == j then false else contains j xs)
contains-erase j k [] = ground arith
contains-erase j k (x ∷ xs) = ground (arith, contains-erase j k xs)

pub contains-insert :
    (j k : ℕ) (xs : List ℕ) → contains j (insert k xs) ≡ (if k == j then true else contains j xs)
contains-insert j k xs = elim (Bool-cases (contains k xs)) [
  | inl there ↦ rw there (ground (arith, there))
  | inr new ↦ rw new refl
]

pub contains-erase_self : (k : ℕ) (xs : List ℕ) → contains k (erase k xs) ≡ false
contains-erase_self k [] = refl
contains-erase_self k (x ∷ xs) = ground (arith, contains-erase_self k xs)

pub contains-erase_ne : (j k : ℕ) (xs : List ℕ) → j ≢ k → contains j (erase k xs) ≡ contains j xs
contains-erase_ne j k [] h = refl
contains-erase_ne j k (x ∷ xs) h = ground (arith, contains-erase_ne j k xs h)

pub contains-insert_self : (k : ℕ) (xs : List ℕ) → contains k (insert k xs) ≡ true
contains-insert_self k xs = elim (Bool-cases (contains k xs)) [
  | inl old ↦ rw old old
  | inr new ↦ rw new (rw (==-refl k))
]
