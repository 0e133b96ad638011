-- ===== src/DataStore/Contents.antt =====
-- src/data_store.h, src/data_store.cpp: a data store up to the order in which its hash map keeps the
-- entries. Two stores are the same contents where `get` finds the same in them under every key.
use mathlib.Core.Quot
use mathlib.Core.Quot.{Quot, Quot-set}
use mathlib.Core.Path.{ap₂}
use ns1_interview_redis.Prelude.{
  ◌≡◌, refl, sym, ap, ◌∙◌, Bool, true, false, [], arith, if◌then◌else◌, Bool-cases, inl, inr,
}
use ns1_interview_redis.Prelude.Bytes.{Bytes, bytes_eq, bytes_eq_iff}
use ns1_interview_redis.DataStore.{DataStore, set, del, get}
use ns1_interview_redis.DataStore.Laws.{get-set, get-del}

-- `get` finds the same under every key.
abbrev pub IsLike : DataStore → DataStore → Type 0
IsLike d e = (k : Bytes) → get k d ≡ get k e

pub IsLike-set : (k v : Bytes) (d e : DataStore) → IsLike d e → IsLike (set k v d).1 (set k v e).1
IsLike-set k v d e like j =
    get-set k j v d
    ∙ (ap (λ r. if bytes_eq k j then (true, v) else r) (like j) ∙ sym (get-set k j v e))

pub IsLike-del : (k : Bytes) (d e : DataStore) → IsLike d e → IsLike (del k d).1 (del k e).1
IsLike-del k d e like j =
    get-del k j d
    ∙ (ap (λ r. if bytes_eq k j then (false, []) else r) (like j) ∙ sym (get-del k j e))

-- The contents of a data store, whatever its hash map looks like.
abbrev pub Contents : Type 0
Contents = Quot IsLike

Contents-set : IsSet Contents
Contents-set = Quot-set

abbrev pub contents_of : DataStore → Contents
contents_of d = Quot.mk d

pub Looked-set : IsSet (Bool × Bytes)
Looked-set = hlevel

unfoldable pub get_in : Bytes → Contents → Bool × Bytes
get_in k = Quot.lift Looked-set (get k) (λ d e like. like k)

unfoldable pub set_in : Bytes → Bytes → Contents → Contents
set_in k v =
    Quot.lift Quot-set (λ d. contents_of (set k v d).1)
      (λ d e like. Quot.sound (IsLike-set k v d e like))

unfoldable pub del_in : Bytes → Contents → Contents
del_in k =
    Quot.lift Quot-set (λ d. contents_of (del k d).1)
      (λ d e like. Quot.sound (IsLike-del k d e like))

get_in-set_in :
    (k j v : Bytes) (c : Contents)
    → get_in j (set_in k v c) ≡ (if bytes_eq k j then (true, v) else get_in j c)
unfolding get_in set_in
get_in-set_in k j v = Quot.ind (λ c. Looked-set _ _) (get-set k j v)

get_in-del_in :
    (k j : Bytes) (c : Contents)
    → get_in j (del_in k c) ≡ (if bytes_eq k j then (false, []) else get_in j c)
unfolding get_in del_in
get_in-del_in k j = Quot.ind (λ c. Looked-set _ _) (get-del k j)

-- Contents in which `get` finds the same under every key are equal.
pub Contents_ext : (c c' : Contents) → ((k : Bytes) → get_in k c ≡ get_in k c') → c ≡ c'
unfolding get_in
Contents_ext =
    Quot.ind (λ c. hlevel Contents-set)
      λ d. Quot.ind (λ c'. hlevel Contents-set) λ e same. Quot.sound same

absent_value : (k : Bytes) (c : Contents) → (get_in k c).0 ≡ false → (get_in k c).1 ≡ []
unfolding get_in get
absent_value k = Quot.ind (λ c. hlevel Looked-set) (λ d absent. ground arith)

looked_same :
    (k i : Bytes) (c : Contents) (b : Bool) (x : Bytes)
    → bytes_eq k i ≡ true
    → (get_in k c).0 ≡ b
    → (get_in k c).1 ≡ x
    → (b, x) ≡ get_in i c
looked_same k i c b x same flag_is value_is =
    ap₂ (λ b x. (b, x)) (sym flag_is) (sym value_is)
    ∙ ap (λ k. get_in k c) ((bytes_eq_iff k i).0 same)

module _ (k j v w : Bytes) (c : Contents) where
  set_in-set_in :
      set_in k v (set_in j w c) ≡ (if bytes_eq k j then set_in k v c else set_in j w (set_in k v c))
  set_in-set_in = elim (Bool-cases (bytes_eq k j)) [
    | inl same ↦ rw same (
        Contents_ext _ _ λ i. ground (
          arith,
          bytes_eq_iff k j,
          bytes_eq_iff k i,
          bytes_eq_iff j i,
          get_in-set_in k i v (set_in j w c),
          get_in-set_in j i w c,
          get_in-set_in k i v c,
        ))
    | inr differ ↦ rw differ (
        Contents_ext _ _ λ i. ground (
          arith,
          bytes_eq_iff k j,
          bytes_eq_iff k i,
          bytes_eq_iff j i,
          get_in-set_in k i v (set_in j w c),
          get_in-set_in j i w c,
          get_in-set_in k i v c,
          get_in-set_in j i w (set_in k v c),
        ))
  ]

  del_in-del_in : del_in k (del_in j c) ≡ del_in j (del_in k c)
  del_in-del_in = Contents_ext _ _ λ i. ground (
    arith,
    get_in-del_in k i (del_in j c),
    get_in-del_in j i c,
    get_in-del_in j i (del_in k c),
    get_in-del_in k i c,
  )

  del_in-set_in : del_in k (set_in k v c) ≡ del_in k c
  del_in-set_in = Contents_ext _ _ λ i.
      ground (arith, get_in-del_in k i (set_in k v c), get_in-set_in k i v c, get_in-del_in k i c)

  put_back : (if (get_in k c).0 then set_in k (get_in k c).1 (del_in k c) else del_in k c) ≡ c
  put_back = elim (Bool-cases (get_in k c).0) [
    | inl there ↦ rw there (
        Contents_ext _ _ λ i.
          rw (get_in-set_in k i (get_in k c).1 (del_in k c), get_in-del_in k i c)
            (elim (Bool-cases (bytes_eq k i)) [
              | inl same ↦ rw same (looked_same k i c true _ same there refl)
              | inr other ↦ rw other refl
            ]))
    | inr absent ↦ rw absent (
        Contents_ext _ _ λ i. rw (get_in-del_in k i c) (elim (Bool-cases (bytes_eq k i)) [
          | inl same ↦ rw same (looked_same k i c false [] same absent (absent_value k c absent))
          | inr other ↦ rw other refl
        ]))
  ]

-- On contents, for any keys and values: a second `set` of a key replaces the first; `set`s of two
-- keys can change places where the keys differ, and `del`s of any two can; a `del` after a `set` of
-- its key leaves what the `del` alone leaves; and a key that `get` finds, taken out by `del` and put
-- back by `set` with the value that was found, leaves the contents as they were, as does the `del` of
-- a key that `get` does not find.
pub contents_laws :
    (k j v w : Bytes) (c : Contents)
    → (set_in k v (set_in j w c)
        ≡ (if bytes_eq k j then set_in k v c else set_in j w (set_in k v c)))
      × (del_in k (del_in j c) ≡ del_in j (del_in k c))
      × (del_in k (set_in k v c) ≡ del_in k c)
      × ((if (get_in k c).0 then set_in k (get_in k c).1 (del_in k c) else del_in k c) ≡ c)
contents_laws k j v w c =
    (set_in-set_in k j v w c, del_in-del_in k j v w c, del_in-set_in k j v w c, put_back k j v w c)
