-- ===== src/DataStore/UnorderedMap.antt =====
-- `std::unordered_map<std::string, std::string>` as an association list. The program never iterates
-- over a map, so the order of its entries shows nowhere.
use ns1_interview_redis.Prelude.{◌≡◌, refl, Option, none, some, List, [], ◌∷◌, arith, if◌then◌else◌}
use ns1_interview_redis.Prelude.Bytes.{Bytes, bytes_eq, bytes_eq_iff}

abbrev pub UnorderedMap : Type 0
UnorderedMap = List (Bytes × Bytes)

unfoldable pub find : Bytes → UnorderedMap → Option Bytes
find k [] = none
find k ((j, v) ∷ m) = if bytes_eq j k then some v else find k m

-- m[k] = v
unfoldable pub insert : Bytes → Bytes → UnorderedMap → UnorderedMap
insert k v [] = (k, v) ∷ []
insert k v ((j, w) ∷ m) = if bytes_eq j k then (k, v) ∷ m else (j, w) ∷ insert k v m

unfoldable pub erase : Bytes → UnorderedMap → UnorderedMap
erase k [] = []
erase k ((j, w) ∷ m) = let rest = erase k m in if bytes_eq j k then rest else (j, w) ∷ rest

pub find-insert :
    (k j v : Bytes) (m : UnorderedMap)
    → find j (insert k v m) ≡ (if bytes_eq k j then some v else find j m)
unfolding find insert
find-insert k j v [] = refl
find-insert k j v ((i, w) ∷ m) =
    ground (arith, bytes_eq_iff k j, bytes_eq_iff i k, bytes_eq_iff i j, find-insert k j v m)

pub find-erase :
    (k j : Bytes) (m : UnorderedMap)
    → find j (erase k m) ≡ (if bytes_eq k j then none else find j m)
unfolding find erase
find-erase k j [] = ground arith
find-erase k j ((i, w) ∷ m) =
    ground (arith, bytes_eq_iff k j, bytes_eq_iff i k, bytes_eq_iff i j, find-erase k j m)
