-- ===== src/ObjectStore/Sound.antt =====
-- The well-formed tables of the object store, and what a put makes of the records in them.
use esdb.Prelude.{
  ℕ, suc, ◌<◌, ◌≤◌, ◌≡◌, refl, arith, true, false, ◌&&◌, none, some, List, [], ◌∷◌, ◌++◌, ◌==◌,
  if◌then◌else◌, ap, sym, ◌∙◌, Bool-cases, Option-cases, inl, inr, All,
}
use esdb.Bytes.{Bytes}
use esdb.Value.{Value}
use esdb.Runtime.Savepoints.{same_text}
use esdb.Runtime.Stack.{eq_of_same_text}
use esdb.ObjectStore.RevisionText.{decimal}
use esdb.ObjectStore.Tables.{
  Tables, StoreRow, RecordRow, ChangeRow, id_of, next_id, find_record, upsert_row,
}
use esdb.ObjectStore.Answers.{record_at}
use esdb.ObjectStore.PutSteps.{store_id, registered, put_tables}
use esdb.ObjectStore.Lookup.{same_text_refl, find-upsert_row, id_of-append, id_of-lt-next_id}

-- Two names have two numbers; a record belongs to a Store that has been registered; the revision that
-- is stored is the text of the sequence, which no revision exceeds.
pub record Sound (t : Tables) : Type 0 where
  pub whole : t.table_count ≡ 4
  pub version : t.schema_version ≡ some (49 ∷ [])
  pub counted : t.store_revision ≡ some (decimal t.sequence)
  pub keyed :
      (n m : Bytes) (id : ℕ) → id_of n t.stores ≡ some id → id_of m t.stores ≡ some id → n ≡ m
  pub owned :
      All (λ (r : RecordRow). (r.store_id < next_id t.stores) × (r.revision ≤ t.sequence)) t.records
  pub logged : All (λ (c : ChangeRow). c.revision ≤ t.sequence) t.changes

find-fresh :
    (n s : ℕ) (key : Bytes) (rs : List RecordRow)
    → All (λ (r : RecordRow). (r.store_id < n) × (r.revision ≤ s)) rs
    → find_record n key rs ≡ none
unfolding find_record
find-fresh n s key [] h = refl
find-fresh n s key (r ∷ rs) h =
    let low : r.store_id < n = h.0.0 in ground (arith, find-fresh n s key rs h.1)

pub next_id-append :
    (ss : List StoreRow) (id : ℕ) (name : Bytes)
    → next_id ss ≤ suc id
    → next_id (ss ++ record { id = id; name = name } ∷ []) ≡ suc id
unfolding next_id
next_id-append [] id name h = ground arith
next_id-append (s ∷ ss) id name h = ground (arith, next_id-append ss id name)

-- The record of a key in a Store with a known number.
pub record_at-some :
    (other key : Bytes) (t : Tables) (id : ℕ)
    → id_of other t.stores ≡ some id
    → record_at other key t ≡ find_record id key t.records
unfolding record_at
record_at-some other key t id e = rw (e, record_at) refl

pub record_at-none :
    (other key : Bytes) (t : Tables) → id_of other t.stores ≡ none → record_at other key t ≡ none
unfolding record_at
record_at-none other key t e = rw (e, record_at) refl

pub number_refl : (n : ℕ) → (n == n) ≡ true
number_refl n = ground arith

module _ (name key : Bytes) (value : Value) (t : Tables) where
  -- The record that a put writes.
  abbrev pub written : RecordRow
  written = record {
    store_id = store_id name (registered name t);
    key = key;
    value = value;
    revision = suc t.sequence;
  }

  -- The number of the Store, and of the others, after the put.
  pub id_of-registered :
      (other : Bytes)
      → id_of other (put_tables name key value t).stores ≡ (
          if same_text name other
          then some (store_id name (registered name t))
          else id_of other t.stores)
  unfolding put_tables registered store_id
  id_of-registered other = elim (Option-cases (id_of name t.stores)) [
    | inl e ↦
        rw (e, id_of-append name name (next_id t.stores) t.stores e, same_text_refl name)
          (id_of-append name other (next_id t.stores) t.stores e)
    | inr (id, e) ↦ rw e (
        rw e (elim (Bool-cases (same_text name other)) [
          | inl q ↦ rw q (ap (λ n. id_of n t.stores) (sym (eq_of_same_text name other q)) ∙ e)
          | inr q ↦ rw q refl
        ]))
  ]

  records-put : (put_tables name key value t).records ≡ upsert_row written t.records
  unfolding put_tables registered store_id
  records-put = refl

  pub store_id-old :
      (id : ℕ) → id_of name t.stores ≡ some id → store_id name (registered name t) ≡ id
  unfolding store_id registered
  store_id-old id e = rw e (rw e refl)

  pub store_id-new :
      id_of name t.stores ≡ none → store_id name (registered name t) ≡ next_id t.stores
  unfolding store_id registered
  store_id-new e =
      rw (e, id_of-append name name (next_id t.stores) t.stores e, same_text_refl name) refl

  find-old :
      Sound t
      → (k : Bytes)
      → find_record (store_id name (registered name t)) k t.records ≡ record_at name k t
  find-old sound k = elim (Option-cases (id_of name t.stores)) [
    | inl e ↦
        ap (λ i. find_record i k t.records) (store_id-new e)
        ∙ find-fresh (next_id t.stores) t.sequence k t.records sound.owned
        ∙ sym (record_at-none name k t e)
    | inr (id, e) ↦
        ap (λ i. find_record i k t.records) (store_id-old id e) ∙ sym (record_at-some name k t id e)
  ]

  pub store_id-ne :
      Sound t
      → (other : Bytes) (j : ℕ) → same_text name other ≡ false
      → id_of other t.stores ≡ some j
      → (store_id name (registered name t) == j) ≡ false
  store_id-ne sound other j q h = elim (Option-cases (id_of name t.stores)) [
    | inl e ↦ ground (arith, store_id-new e, id_of-lt-next_id other j t.stores h)
    | inr (id, e) ↦ elim (Bool-cases (id == j)) [
      | inl same ↦
          let i : id ≡ j = ground (arith, same) in
          let n : name ≡ other = sound.keyed name other j (e ∙ ap some i) h in
          absurd (ground (arith, q, n, same_text_refl other))
      | inr differ ↦ rw (store_id-old id e) differ
    ]
  ]

  find-written :
      (j : ℕ) (k : Bytes)
      → find_record j k (put_tables name key value t).records ≡ (
          if store_id name (registered name t) == j && same_text key k
          then some written
          else find_record j k t.records)
  find-written j k = ap (find_record j k) records-put ∙ find-upsert_row j k written t.records

  -- The record that a lookup finds after a put, in every Store and at every key.
  pub record_at-put :
      Sound t
      → (other other_key : Bytes)
      → record_at other other_key (put_tables name key value t) ≡ (
          if same_text name other && same_text key other_key
          then some written
          else record_at other other_key t)
  record_at-put sound other other_key = elim (Bool-cases (same_text name other)) [
    | inl q ↦ rw q (
        record_at-some other other_key (put_tables name key value t)
          (store_id name (registered name t)) (id_of-registered other ∙ rw q refl)
        ∙ find-written (store_id name (registered name t)) other_key
        ∙ rw (number_refl (store_id name (registered name t))) (
            ap (λ old. if same_text key other_key then some written else old)
              (find-old sound other_key
                ∙ ap (λ n. record_at n other_key t) (eq_of_same_text name other q))))
    | inr q ↦ rw q (elim (Option-cases (id_of other t.stores)) [
      | inl e ↦
          record_at-none other other_key (put_tables name key value t)
            (id_of-registered other ∙ rw q e)
          ∙ sym (record_at-none other other_key t e)
      | inr (j, e) ↦
          record_at-some other other_key (put_tables name key value t) j
            (id_of-registered other ∙ rw q e)
          ∙ find-written j other_key
          ∙ rw (store_id-ne sound other j q e) (sym (record_at-some other other_key t j e))
    ])
  ]
