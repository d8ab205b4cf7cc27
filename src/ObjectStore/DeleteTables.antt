-- ===== src/ObjectStore/DeleteTables.antt =====
-- What a delete of src/esdb_object_store.cpp makes of the records and of the log.
use esdb.Prelude.{
  ℕ, suc, ◌≤◌, ◌<◌, ◌≡◌, refl, arith, Bool, true, false, ◌&&◌, Option, none, some, List, [], ◌∷◌,
  ◌++◌, ◌==◌, if◌then◌else◌, ap, sym, ◌∙◌, Bool-cases, Option-cases, inl, inr, some-injective,
}
use esdb.Bytes.{Bytes}
use esdb.Value.{null}
use esdb.Runtime.Savepoints.{same_text}
use esdb.Runtime.Stack.{eq_of_same_text}
use esdb.ObjectStore.Sql.{delete}
use esdb.ObjectStore.Tables.{Tables, RecordRow, id_of, next_id, find_record, is_record, erase_row}
use esdb.ObjectStore.Answers.{record_at}
use esdb.ObjectStore.Lookup.{find-erase_row, same_text_refl}
use esdb.ObjectStore.Sound.{Sound, record_at-some, record_at-none}
use esdb.ObjectStore.Keeping.{All-weaken, All-append_one, All-erase_row}
use esdb.ObjectStore.DeleteSteps.{
  is_there, log_tables, logged_revision, delete_tables, deleted_revision,
}

-- What was logged: nothing, where there was no record; or the change, under the revision returned.
abbrev pub Logged : Bytes → Bytes → Tables → Option ℕ → Tables → Type 0
Logged name key before none after = (record_at name key before ≡ none) × (after ≡ before)
Logged name key before (some revision) after =
    (is_there (record_at name key before) ≡ true)
    × (revision ≡ suc before.sequence)
    × (after.sequence ≡ revision)
    × ((id : ℕ)
        → id_of name before.stores ≡ some id
        → after.changes
          ≡ before.changes
            ++ record {
              revision = revision;
              store_id = id;
              key = key;
              operation = delete;
              value_type = null;
            }
              ∷ [])

-- What a delete that succeeds has done: no record is found at the key, all others are what they were.
pub record DeleteResult (name key : Bytes) (before : Tables) (removed : Option ℕ) (after : Tables)
    : Type 0 where
  pub found :
      (other other_key : Bytes)
      → record_at other other_key after ≡ (
          if same_text name other && same_text key other_key
          then none
          else record_at other other_key before)
  pub logged : Logged name key before removed after
  pub sound : Sound after

erase-absent :
    (id : ℕ) (key : Bytes) (rs : List RecordRow)
    → is_there (find_record id key rs) ≡ false
    → erase_row id key rs ≡ rs
unfolding find_record erase_row
erase-absent id key [] h = refl
erase-absent id key (r ∷ rs) h = elim (Bool-cases (is_record id key r)) [
  | inl e ↦ absurd (ground (arith, e, h))
  | inr e ↦ rw e (ap (λ l. r ∷ l) (erase-absent id key rs (rw e at h)))
]

if-none : (b : Bool) (o : Option RecordRow) → o ≡ none → (if b then none else o) ≡ none
if-none true o h = refl
if-none false o h = h

not_there : (o : Option RecordRow) → is_there o ≡ false → o ≡ none
not_there none h = refl
not_there (some r) h = absurd (cc)

module _ (name key : Bytes) (t : Tables) (sound : Sound t) (id : ℕ)
    (known : id_of name t.stores ≡ some id) where
  stores-log : (b : Bool) (u : Tables) → (log_tables id key b u).stores ≡ u.stores
  stores-log false u = refl
  stores-log true u = refl

  records-log : (b : Bool) (u : Tables) → (log_tables id key b u).records ≡ u.records
  records-log false u = refl
  records-log true u = refl

  stores-delete : (delete_tables id key t).stores ≡ t.stores
  unfolding delete_tables
  stores-delete = stores-log _ _

  records-delete : (delete_tables id key t).records ≡ erase_row id key t.records
  unfolding delete_tables
  records-delete = records-log _ _

  -- Two Stores have one number if they have one name.
  number-name :
      (other : Bytes) (j : ℕ) → id_of other t.stores ≡ some j → (id == j) ≡ same_text name other
  number-name other j e = elim (Bool-cases (same_text name other)) [
    | inl q ↦
        let i : some id ≡ some j =
          sym known ∙ ap (λ n. id_of n t.stores) (eq_of_same_text name other q) ∙ e in
        ground (arith, i, q)
    | inr q ↦ elim (Bool-cases (id == j)) [
      | inl same ↦
          let i : id ≡ j = ground (arith, same) in
          let n : name ≡ other = sound.keyed name other j (known ∙ ap some i) e in
          absurd (ground (arith, q, n, same_text_refl other))
      | inr differ ↦ differ ∙ sym q
    ]
  ]

  found-delete :
      (other other_key : Bytes)
      → record_at other other_key (delete_tables id key t) ≡ (
          if same_text name other && same_text key other_key
          then none
          else record_at other other_key t)
  found-delete other other_key = elim (Option-cases (id_of other t.stores)) [
    | inl e ↦
        record_at-none other other_key (delete_tables id key t) (ap (id_of other) stores-delete ∙ e)
        ∙ sym (
            if-none (same_text name other && same_text key other_key) (record_at other other_key t)
              (record_at-none other other_key t e))
    | inr (j, e) ↦
        record_at-some other other_key (delete_tables id key t) j
          (ap (id_of other) stores-delete ∙ e)
        ∙ ap (find_record j other_key) records-delete
        ∙ find-erase_row id j key other_key t.records
        ∙ rw (number-name other j e) (
            ap (λ o. if same_text name other && same_text key other_key then none else o)
              (sym (record_at-some other other_key t j e)))
  ]

  Sound-log :
      (b : Bool) → Sound (log_tables id key b (record t { records = erase_row id key t.records }))
  Sound-log false = record {
    whole = sound.whole;
    version = sound.version;
    counted = sound.counted;
    keyed = sound.keyed;
    owned = All-erase_row _ id key t.records sound.owned;
    logged = sound.logged;
  }
  Sound-log true = record {
    whole = sound.whole;
    version = sound.version;
    counted = refl;
    keyed = sound.keyed;
    owned =
        All-weaken _ _ (erase_row id key t.records)
          (λ r h.
            let low : r.store_id < next_id t.stores = h.0 in
            let old : r.revision ≤ t.sequence = h.1 in (low, omega arith))
          (All-erase_row _ id key t.records sound.owned);
    logged =
        All-append_one _ t.changes _
          (All-weaken _ _ t.changes (λ c h. let old : c.revision ≤ t.sequence = h in omega arith)
            sound.logged)
          (omega arith);
  }

  Logged-cases :
      (b : Bool)
      → is_there (find_record id key t.records) ≡ b
      → let u = record t { records = erase_row id key t.records } in
        Logged name key t (logged_revision b u) (log_tables id key b u)
  Logged-cases false e = (
    record_at-some name key t id known ∙ not_there (find_record id key t.records) e,
    ap (λ (rs : List RecordRow). record t { records = rs }) (erase-absent id key t.records e),
  )
  Logged-cases true e = (
    ap is_there (record_at-some name key t id known) ∙ e,
    refl,
    refl,
    λ i h.
        let same = some-injective id i (sym known ∙ h) in
        ap
          (λ n.
            t.changes
            ++ record {
              revision = suc t.sequence;
              store_id = n;
              key = key;
              operation = delete;
              value_type = null;
            }
              ∷ [])
          same,
  )

  pub delete_tables-DeleteResult :
      DeleteResult name key t (deleted_revision id key t) (delete_tables id key t)
  unfolding deleted_revision
  delete_tables-DeleteResult = record { found = found-delete; logged = logged-as; sound = sound-as }
    where
      logged-as : Logged name key t (deleted_revision id key t) (delete_tables id key t)
      logged-as =
          unfold delete_tables in Logged-cases (is_there (find_record id key t.records)) refl

      sound-as : Sound (delete_tables id key t)
      sound-as = unfold delete_tables in Sound-log (is_there (find_record id key t.records))

pub absent-DeleteResult :
    (name key : Bytes) (t : Tables)
    → Sound t
    → id_of name t.stores ≡ none
    → DeleteResult name key t none t
absent-DeleteResult name key t sound e = record {
  found = λ other other_key. elim (Bool-cases (same_text name other)) [
    | inl q ↦
        let gone : record_at other other_key t ≡ none =
          record_at-none other other_key t
            (ap (λ n. id_of n t.stores) (sym (eq_of_same_text name other q)) ∙ e) in
        gone
        ∙ sym (
            if-none (same_text name other && same_text key other_key) (record_at other other_key t)
              gone)
    | inr q ↦ rw q refl
  ];
  logged = (record_at-none name key t e, refl);
  sound = sound;
}
