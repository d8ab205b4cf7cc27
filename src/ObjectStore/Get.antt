-- ===== src/ObjectStore/Get.antt =====
-- `esdb_object_store_get` and `esdb_object_store_revision` of src/esdb_object_store.cpp against the
-- tables.
use esdb.Prelude.{
  ℕ, zero, suc, ◌+◌, ◌/◌, ◌%◌, ◌≤◌, ◌≡◌, refl, arith, true, false, ◌&&◌, leb, Option, none, some,
  [], ◌∷◌, ltb, ◌==◌, ap, ◌∙◌, Bool-cases, inl, inr,
}
use esdb.Bytes.{Bytes}
use esdb.Errors.{Status, Phase, all_granted, cleared}
use esdb.Value.{
  Value, ValueType, null, bool, int32, int64, double, utf8, bytes, array, object, unknown,
}
use esdb.Value.Canonical.{payload_valid}
use esdb.Utf8.{valid_object_store_name, valid_object_store_key}
use esdb.Store.State.{revision_max, valid_value_type}
use esdb.Runtime.Session.{Session, count_operation}
use esdb.ObjectStore.RevisionText.{decimal, digits, parse-decimal}
use esdb.ObjectStore.Sql.{First, until_nul, StoreEngine, select_record, read_revision}
use esdb.ObjectStore.Action.{Outcome, done, stopped, continue, ◌>>=◌, first, first_outcome}
use esdb.ObjectStore.Schema.{revision_row, agreeing, read_store_revision_metadata}
use esdb.ObjectStore.Rows.{new_value, clone_blob, clone_sql_value}
use esdb.ObjectStore.Read.{found_value, get_valid, object_store_get, object_store_revision}
use esdb.ObjectStore.Tables.{Tables, RecordRow}
use esdb.ObjectStore.Answers.{
  code_of_type, int_cell, text_cell, blob_cell, value_row, option_row, meta_row, answer, record_at,
}
use esdb.ObjectStore.Laws.{IsStoreEngine, has_failed, head_row}
use esdb.ObjectStore.Sound.{Sound}
use esdb.ObjectStore.Put.{ensure-ready}

-- A record that every check on reading passes, as all values that the constructors make do.
abbrev pub Canonical : RecordRow → Type 0
Canonical r = payload_valid r.value.type r.value.payload ≡ true

-- What a lookup answers.
abbrev pub looked_up : Option RecordRow → Outcome Value
looked_up none = stopped Status.not_found cleared
looked_up (some r) = done r.value

module _ {Db : Type 0} where
  new_value-granted :
      (type : ValueType) (payload : Bytes) (s : Session Db)
      → new_value all_granted type payload s ≡ (done (record { type = type; payload = payload }), s)
  new_value-granted type [] s = refl
  new_value-granted type (b ∷ payload) s = refl

  clone_blob-Canonical :
      (type : ValueType) (payload : Bytes) (s : Session Db)
      → payload_valid type payload ≡ true
      → clone_blob all_granted type (some payload) s
        ≡ (done (record { type = type; payload = payload }), s)
  clone_blob-Canonical type payload s h = rw h (new_value-granted type payload s)

  clone-Canonical :
      (type : ValueType) (payload : Bytes) (s : Session Db)
      → payload_valid type payload ≡ true
      → clone_sql_value all_granted (int_cell (code_of_type type)) (blob_cell payload) s
        ≡ (done (record { type = type; payload = payload }), s)
  unfolding clone_sql_value valid_value_type
  clone-Canonical null payload s h = clone_blob-Canonical null payload s h
  clone-Canonical bool payload s h = clone_blob-Canonical bool payload s h
  clone-Canonical int32 payload s h = clone_blob-Canonical int32 payload s h
  clone-Canonical int64 payload s h = clone_blob-Canonical int64 payload s h
  clone-Canonical double payload s h = clone_blob-Canonical double payload s h
  clone-Canonical utf8 payload s h = clone_blob-Canonical utf8 payload s h
  clone-Canonical bytes payload s h = clone_blob-Canonical bytes payload s h
  clone-Canonical array payload s h = clone_blob-Canonical array payload s h
  clone-Canonical object payload s h = clone_blob-Canonical object payload s h
  clone-Canonical unknown payload s h = absurd (unfold payload_valid in cc h)

module _ {Db : Type 0} (store : StoreEngine Db) {contents base mark : Db → Tables}
    (law : IsStoreEngine store contents base mark) where
  found-looked_up :
      (o : Option RecordRow) (f : First) (s : Session Db)
      → ((r : RecordRow) → o ≡ some r → Canonical r)
      → f ≡ head_row (option_row value_row o)
      → (let r = first_outcome f Phase.object_store s in
          continue r.0 (found_value store all_granted) r.1).0
        ≡ looked_up o
  found-looked_up none f s canonical e = rw e refl
  found-looked_up (some r) f s canonical e = rw e (
      ap (λ (p : Outcome Value × Session Db). p.0)
        (clone-Canonical r.value.type r.value.payload s (canonical r refl)))

  get_valid-looked_up :
      (name key : Bytes) (s : Session Db)
      → s.object_store_schema_ready ≡ true
      → has_failed (store.first (select_record name key) s.handle).0 ≡ false
      → ((r : RecordRow) → record_at name key (contents s.handle) ≡ some r → Canonical r)
      → (get_valid store all_granted name key s).0
        ≡ looked_up (record_at name key (contents s.handle))
  unfolding get_valid first ◌>>=◌ answer
  get_valid-looked_up name key s ready fine canonical =
      let q = select_record name key in
      let r = store.first q s.handle in
      rw (ensure-ready store s ready) (
        found-looked_up (record_at name key (contents s.handle)) r.0 (record s { handle = r.1 })
          canonical (law.first_runs q s.handle fine).0)

  -- `esdb_object_store_get` hands out the value of the record that is stored at the key, or says that
  -- there is none, if the query does not fail, memory is granted and the record is canonical.
  pub object_store_get-looked_up :
      (name key : Bytes) (s : Session Db)
      → s.object_store_schema_ready ≡ true
      → (valid_object_store_name (some name) && valid_object_store_key (some key)) ≡ true
      → has_failed (store.first (select_record name key) s.handle).0 ≡ false
      → ((r : RecordRow) → record_at name key (contents s.handle) ≡ some r → Canonical r)
      → (object_store_get store all_granted (some name) (some key) true s).0
        ≡ looked_up (record_at name key (contents s.handle))
  unfolding object_store_get count_operation
  object_store_get-looked_up name key s ready valid fine canonical =
      rw valid (get_valid-looked_up name key (count_operation s) ready fine canonical)

until_nul-digit :
    (d : ℕ) (after : Bytes)
    → until_nul after ≡ after
    → until_nul ((48 + d) ∷ after) ≡ (48 + d) ∷ after
unfolding until_nul
until_nul-digit d after h =
    let e : (48 + d == 0) ≡ false = ground arith in rw e (ap (λ l. (48 + d) ∷ l) h)

-- No digit is a NUL.
until_nul-digits :
    (fuel n : ℕ) (after : Bytes)
    → until_nul after ≡ after
    → until_nul (digits fuel n after) ≡ digits fuel n after
unfolding until_nul digits
until_nul-digits zero n after h = until_nul-digit (n % 10) after h
until_nul-digits (suc fuel) n after h = elim (Bool-cases (ltb n 10)) [
  | inl e ↦ rw e (until_nul-digit n after h)
  | inr e ↦
      rw e
        (until_nul-digits fuel (n / 10) ((48 + n % 10) ∷ after) (until_nul-digit (n % 10) after h))
]

until_nul-decimal : (n : ℕ) → until_nul (decimal n) ≡ decimal n
unfolding decimal
until_nul-decimal n = until_nul-digits n n [] (unfold until_nul in refl)

module _ {Db : Type 0} where
  -- The metadata of well-formed tables.
  revision_row-sequence :
      (n : ℕ) (s : Session Db)
      → n ≤ revision_max
      → revision_row (some (text_cell (decimal n) ∷ int_cell n ∷ [])) s ≡ (done n, s)
  unfolding revision_row agreeing
  revision_row-sequence n s h =
      let room : leb 9223372036854775808 n ≡ false = ground arith in
      let same : (n == n) ≡ true = ground arith in
      rw (until_nul-decimal n, parse-decimal n h, room, same) refl

module _ {Db : Type 0} (store : StoreEngine Db) {contents base mark : Db → Tables}
    (law : IsStoreEngine store contents base mark) where
  metadata-sequence :
      (s : Session Db)
      → Sound (contents s.handle)
      → (contents s.handle).sequence ≤ revision_max
      → has_failed (store.first read_revision s.handle).0 ≡ false
      → (read_store_revision_metadata store s).0 ≡ done (contents s.handle).sequence
  unfolding read_store_revision_metadata first ◌>>=◌ answer
  metadata-sequence s sound fits fine =
      let t = contents s.handle in
      let r = store.first read_revision s.handle in
      let e =
        (law.first_runs read_revision s.handle fine).0
        ∙ ap (λ m. head_row (meta_row m t.sequence)) sound.counted in
      rw e (
        ap (λ (p : Outcome ℕ × Session Db). p.0)
          (revision_row-sequence t.sequence (record s { handle = r.1 }) fits))

  -- On well-formed tables `esdb_object_store_revision` returns the revision of the last change that was
  -- logged, if the query does not fail.
  pub object_store_revision-sequence :
      (s : Session Db)
      → s.object_store_schema_ready ≡ true
      → Sound (contents s.handle)
      → (contents s.handle).sequence ≤ revision_max
      → has_failed (store.first read_revision s.handle).0 ≡ false
      → (object_store_revision store true s).0 ≡ done (contents s.handle).sequence
  unfolding object_store_revision count_operation ◌>>=◌
  object_store_revision-sequence s ready sound fits fine =
      rw (ensure-ready store (count_operation s) ready)
        (metadata-sequence (count_operation s) sound fits fine)
