-- ===== src/ObjectStore/Initialize.antt =====
-- The creation of the tables of the object store: `ensure_object_store_schema` of
-- src/esdb_object_store.cpp.
use esdb.Prelude.{
  ℕ, ◌≤◌, ◌≡◌, ◌⊎◌, refl, arith, Bool, true, false, ◌==◌, if◌then◌else◌, ap, sym, ◌∙◌, Bool-cases,
  inl, inr, subst,
}
use esdb.Errors.{Status, Phase}
use esdb.SqliteCode
use esdb.Runtime.Engine.{store_schema_sql}
use esdb.Runtime.Session.{Session, fail}
use esdb.ObjectStore.Sql.{StoreEngine}
use esdb.ObjectStore.Action.{
  Outcome, done, stopped, is_done, pure, refuse, refuse_if, continue, ◌>>=◌, ◌>>◌, exec_step,
}
use esdb.ObjectStore.Mutation.{
  begin_store_mutation, guarded, rollback_store_mutation, commit_store_mutation,
}
use esdb.ObjectStore.Schema.{
  inspect_store_table_count, partial_schema, build_schema, initialize_schema, absent_schema,
  prepare_schema,
}
use esdb.ObjectStore.Tables.{Tables, create_tables}
use esdb.ObjectStore.Laws.{IsStoreEngine}
use esdb.ObjectStore.Scope.{exec_step-handle, exec_step-done, InScope-schema}
use esdb.ObjectStore.Runs.{Success}
use esdb.ObjectStore.AllOrNothing.{Opened, AllOrNothing, AllOrNothing-from, Kept-Restored}
use esdb.ObjectStore.Restore.{
  Guarded, Committed, guarded-Guarded, commit-Committed, rollback-Undone, Opened-Recoverable,
}
use esdb.ObjectStore.Mutate.{settle_scope-Success, Begun, begin_as-Begun, Undone-Restored}
use esdb.ObjectStore.Inspect.{Seen, inspect-Seen, InScope-inspect}

-- The tables were there, or there were none and all of them are created.
abbrev pub Made : Tables → Tables → Type 0
Made before after =
    ((before.table_count ≡ 4) × (after ≡ before))
    ⊎ ((before.table_count ≡ 0) × (after ≡ create_tables before))

module _ {Db : Type 0} (store : StoreEngine Db) {contents base mark : Db → Tables}
    (law : IsStoreEngine store contents base mark) where
  abbrev P : Tables → Unit {0} → Tables → Type 0
  P c u t = Made c t

  Committed-Made :
      (owns : Bool) (d : Db) (c : Tables) (o : Outcome (Unit {0})) (t : Session Db)
      → owns ≡ store.engine.autocommit d
      → Committed store contents base mark law owns (contents d) c (o, t)
      → Made (contents d) c
      → AllOrNothing store contents base mark (P (contents d)) d (o, t)
  Committed-Made owns d c (done u) t e same made = subst (Made (contents d)) (sym same) made
  Committed-Made owns d c (stopped st er) t e undone made =
      Undone-Restored store law owns d t.handle e undone

  commit-Made :
      (owns : Bool) (d : Db) (c : Tables) (t : Session Db)
      → owns ≡ store.engine.autocommit d
      → Opened store contents base mark owns (contents d) t.handle
      → contents t.handle ≡ c
      → Made (contents d) c
      → AllOrNothing store contents base mark
          (P (contents d))
          d
          (commit_store_mutation store owns t)
  commit-Made owns d c t e opened same made =
      let r = commit_store_mutation store owns t in
      Committed-Made owns d c r.0 r.1 e
        (commit-Committed store contents base mark law owns (contents d) c t opened same) made

  created-Made :
      (owns : Bool) (d : Db) (o : Outcome (Unit {0})) (t : Session Db)
      → owns ≡ store.engine.autocommit d
      → (contents d).table_count ≡ 0
      → Guarded store contents base mark law owns (contents d) (o, t)
      → Success contents (λ u c. c ≡ create_tables (contents d)) (o, t)
      → AllOrNothing store contents base mark
          (P (contents d))
          d
          (continue o (λ u. commit_store_mutation store owns) t)
  created-Made owns d (done u) t e none_yet opened same =
      commit-Made owns d (create_tables (contents d)) t e opened same (inr (none_yet, refl))
  created-Made owns d (stopped st er) t e none_yet undone same =
      Undone-Restored store law owns d t.handle e undone

  schema-Success :
      (c : Tables) (o : Outcome (Unit {0})) (t : Session Db)
      → (is_done o ≡ true → contents t.handle ≡ c)
      → Success contents (λ u c'. c' ≡ c) (o, t)
  schema-Success c (done u) t h = h refl
  schema-Success c (stopped st e) t h = tt

  build-Made :
      (owns : Bool) (count : ℕ) (d : Db) (t : Session Db)
      → owns ≡ store.engine.autocommit d
      → count ≡ (contents d).table_count
      → Opened store contents base mark owns (contents d) t.handle
      → contents t.handle ≡ contents d
      → AllOrNothing store contents base mark (P (contents d)) d (build_schema store owns count t)
  unfolding build_schema ◌>>=◌ refuse fail
  build-Made owns count d t e seen opened same = elim (Bool-cases (partial_schema count)) [
    | inl bad ↦ rw bad (
        Undone-Restored store law owns d (rollback_store_mutation store owns t).handle e (
          rollback-Undone store contents base mark law owns (contents d) t
            (Opened-Recoverable store contents base mark owns (contents d) t.handle opened)))
    | inr good ↦ elim (Bool-cases (count == 0)) [
      | inl zero_count ↦
          let x = exec_step store store_schema_sql Phase.object_store t in
          let r = guarded store owns (exec_step store store_schema_sql Phase.object_store) t in
          let made : is_done x.0 ≡ true → contents x.1.handle ≡ create_tables (contents d) = λ h.
            ap contents (exec_step-handle store store_schema_sql Phase.object_store t)
            ∙ law.schema_runs t.handle
                (sym (exec_step-done store store_schema_sql Phase.object_store t) ∙ h)
            ∙ ap create_tables same in
          rw (good, zero_count)
            (created-Made owns d r.0 r.1 e (ground (arith, zero_count, seen))
              (guarded-Guarded store contents base mark law owns (contents d)
                (exec_step store store_schema_sql Phase.object_store) t
                (InScope-schema store law Phase.object_store) opened)
              (unfold guarded in
                settle_scope-Success store law (Unit {0}) (λ u c. c ≡ create_tables (contents d))
                  owns x.0 x.1 (schema-Success (create_tables (contents d)) x.0 x.1 made)))
      | inr some_count ↦
          let four : (contents d).table_count ≡ 4 = ground (arith, good, some_count, seen) in
          rw (good, some_count) (commit-Made owns d (contents d) t e opened same (inl (four, refl)))
    ]
  ]

  -- The inspection behind the write lock, with the tables of the start.
  abbrev Recounted : Db → ℕ → Tables → Type 0
  Recounted d n c = (n ≡ (contents d).table_count) × (c ≡ contents d)

  Seen-Recounted :
      (d : Db) (o : Outcome ℕ) (t t' : Session Db)
      → contents t.handle ≡ contents d
      → Seen store law t.handle (o, t')
      → Success contents (Recounted d) (o, t')
  Seen-Recounted d (done n) t t' same (e, kept, idle) =
      (e ∙ ap (λ (c : Tables). c.table_count) same, kept ∙ same)
  Seen-Recounted d (stopped st er) t t' same h = tt

  inspected-Made :
      (owns : Bool) (d : Db) (o : Outcome ℕ) (t : Session Db)
      → owns ≡ store.engine.autocommit d
      → Guarded store contents base mark law owns (contents d) (o, t)
      → Success contents (Recounted d) (o, t)
      → AllOrNothing store contents base mark
          (P (contents d))
          d
          (continue o (build_schema store owns) t)
  inspected-Made owns d (done n) t e opened (seen, same) = build-Made owns n d t e seen opened same
  inspected-Made owns d (stopped st er) t e undone h =
      Undone-Restored store law owns d t.handle e undone

  Begun-Made :
      (d : Db) (o : Outcome Bool) (t : Session Db)
      → (contents d).table_count ≤ 4
      → Begun store law d (o, t)
      → AllOrNothing store contents base mark (P (contents d)) d (
          continue o
            (λ owns.
              guarded store owns (inspect_store_table_count store) >>= build_schema store owns)
            t)
  unfolding ◌>>=◌
  Begun-Made d (done owns) t small (e, opened, same) =
      let m = inspect_store_table_count store in
      let x = m t in
      let r = guarded store owns m t in
      let few : (contents t.handle).table_count ≤ 4 =
        subst (λ (c : Tables). c.table_count ≤ 4) (sym same) small in
      inspected-Made owns d r.0 r.1 e
        (guarded-Guarded store contents base mark law owns (contents d) m t
          (InScope-inspect store law) opened)
        (unfold guarded in
          settle_scope-Success store law ℕ (Recounted d) owns x.0 x.1
            (Seen-Recounted d x.0 t x.1 same (inspect-Seen store law t few)))
  Begun-Made d (stopped st er) t small restored = restored

  initialize-Made :
      (s : Session Db)
      → (contents s.handle).table_count ≤ 4
      → AllOrNothing store contents base mark
          (P (contents s.handle))
          s.handle
          (initialize_schema store s)
  unfolding initialize_schema begin_store_mutation ◌>>=◌
  initialize-Made s small =
      let b = begin_store_mutation store s in
      Begun-Made s.handle b.0 b.1 small
        (begin_as-Begun store law (store.engine.autocommit s.handle) s refl)

  absent-Made :
      (read_only : Bool) (s : Session Db)
      → (contents s.handle).table_count ≤ 4
      → AllOrNothing store contents base mark
          (P (contents s.handle))
          s.handle
          (absent_schema store read_only s)
  unfolding refuse fail
  absent-Made true s small = inl refl
  absent-Made false s small = initialize-Made s small

  counted-Made :
      (read_only : Bool) (d : Db) (o : Outcome ℕ) (t : Session Db)
      → (contents d).table_count ≤ 4
      → Seen store law d (o, t)
      → AllOrNothing store contents base mark (P (contents d)) d (
          continue o
            (λ count.
              refuse_if (partial_schema count) Status.corrupt Phase.object_store SqliteCode.corrupt
              >> (if count == 0 then absent_schema store read_only else pure tt))
            t)
  unfolding ◌>>=◌ refuse fail
  counted-Made read_only d (stopped st er) t small kept =
      Kept-Restored store contents base mark d t.handle kept
  counted-Made read_only d (done count) t small (seen, same, idle) =
      elim (Bool-cases (partial_schema count)) [
        | inl bad ↦ rw bad (inl same)
        | inr good ↦ elim (Bool-cases (count == 0)) [
          | inl zero_count ↦
              rw (good, zero_count)
                (AllOrNothing-from store contents base mark (Unit {0}) (P (contents d)) d t.handle
                  (absent_schema store read_only t) same idle
                  (subst
                    (λ c.
                      AllOrNothing store contents base mark (P c) t.handle
                        (absent_schema store read_only t))
                    same
                    (absent-Made read_only t
                      (subst (λ (c : Tables). c.table_count ≤ 4) (sym same) small))))
          | inr some_count ↦
              let four : (contents d).table_count ≡ 4 = ground (arith, good, some_count, seen) in
              rw (good, some_count) (inl (four, same))
        ]
      ]

  -- The first part of `ensure_object_store_schema`, on a connection that has not looked for the tables
  -- yet: where it succeeds, the tables were there and are untouched, or there was none of them and all
  -- have been created, so that a schema that is there in part makes it fail; where it fails, the tables
  -- are what they were, but for two cases: SQLite itself has rolled back the transaction that the
  -- caller had begun, or it has refused to roll back the creation, whose transaction or savepoint then
  -- is still open and not committed.
  pub prepare_schema-Made :
      (read_only : Bool) (s : Session Db)
      → (contents s.handle).table_count ≤ 4
      → AllOrNothing store contents base mark
          (λ u after. Made (contents s.handle) after)
          s.handle
          (prepare_schema store read_only s)
  unfolding prepare_schema ◌>>=◌
  prepare_schema-Made read_only s small =
      let r = inspect_store_table_count store s in
      counted-Made read_only s.handle r.0 r.1 small (inspect-Seen store law s small)
