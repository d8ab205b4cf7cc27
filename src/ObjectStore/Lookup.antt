-- ===== src/ObjectStore/Lookup.antt =====
-- Finding a record of the object store: the laws of `id_of`, `find_record`, `upsert` and `erase`.
use esdb.Prelude.{
  ℕ, ◌<◌, ◌≡◌, refl, arith, true, ◌&&◌, none, some, List, [], ◌∷◌, ◌++◌, ◌==◌, if◌then◌else◌,
  Bool-cases, inl, inr,
}
use esdb.Bytes.{Bytes}
use esdb.Runtime.Savepoints.{same_text}
use esdb.Runtime.Stack.{eq_of_same_text}
use esdb.ObjectStore.Tables.{
  StoreRow, RecordRow, id_of, next_id, is_record, find_record, upsert_row, erase_row,
}

pub same_text_refl : (a : Bytes) → same_text a a ≡ true
unfolding same_text
same_text_refl [] = refl
same_text_refl (x ∷ a) = ground (arith, same_text_refl a)

-- The record that is found after a record is written.
pub find-upsert_row :
    (id : ℕ) (key : Bytes) (new : RecordRow) (rs : List RecordRow)
    → find_record id key (upsert_row new rs)
      ≡ (if is_record id key new then some new else find_record id key rs)
unfolding find_record upsert_row
find-upsert_row id key new [] = refl
find-upsert_row id key new (r ∷ rs) = elim (Bool-cases (is_record new.store_id new.key r)) [
  | inl e ↦
      let same_key : r.key ≡ new.key = eq_of_same_text r.key new.key (ground (arith, e)) in
      let same_id : r.store_id ≡ new.store_id = ground (arith, e) in
      rw (e, same_key, same_id) (ground arith)
  | inr e ↦ rw e (
      ground (
        arith,
        e,
        eq_of_same_text r.key key,
        eq_of_same_text new.key key,
        same_text_refl key,
        find-upsert_row id key new rs,
      ))
]

pub find-erase_row :
    (id id' : ℕ) (key key' : Bytes) (rs : List RecordRow)
    → find_record id' key' (erase_row id key rs)
      ≡ (if id == id' && same_text key key' then none else find_record id' key' rs)
unfolding find_record erase_row
find-erase_row id id' key key' [] = ground arith
find-erase_row id id' key key' (r ∷ rs) = ground (
  arith,
  eq_of_same_text r.key key,
  eq_of_same_text r.key key',
  eq_of_same_text key key',
  same_text_refl key,
  find-erase_row id id' key key' rs,
)

pub id_of-append :
    (name other : Bytes) (id : ℕ) (ss : List StoreRow)
    → id_of name ss ≡ none
    → id_of other (ss ++ record { id = id; name = name } ∷ [])
      ≡ (if same_text name other then some id else id_of other ss)
unfolding id_of
id_of-append name other id [] h = refl
id_of-append name other id (s ∷ ss) h = ground (
  arith,
  eq_of_same_text s.name other,
  eq_of_same_text name other,
  same_text_refl other,
  id_of-append name other id ss,
)

-- The numbers in use are below the next one.
pub id_of-lt-next_id :
    (name : Bytes) (id : ℕ) (ss : List StoreRow) → id_of name ss ≡ some id → id < next_id ss
unfolding id_of next_id
id_of-lt-next_id name id [] h = absurd (ground (arith, h))
id_of-lt-next_id name id (s ∷ ss) h = ground (arith, id_of-lt-next_id name id ss)
