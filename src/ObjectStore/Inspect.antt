-- ===== src/ObjectStore/Inspect.antt =====
-- `inspect_store_table_count` of src/esdb_object_store.cpp.
use esdb.Prelude.{
  ℕ, ◌%◌, ◌≤◌, ◌≡◌, refl, arith, false, Option, none, some, [], ◌∷◌, ltb, sym, subst,
}
use esdb.Errors.{Phase}
use esdb.Runtime.Session.{Session, fail}
use esdb.ObjectStore.Sql.{Row, First, failed_first, row, finished_first, StoreEngine, count_tables}
use esdb.ObjectStore.Action.{Outcome, done, stopped, refuse, continue, ◌>>=◌, first, first_outcome}
use esdb.ObjectStore.Schema.{table_count_row, inspect_store_table_count}
use esdb.ObjectStore.Tables.{Tables}
use esdb.ObjectStore.Answers.{int_cell, answer}
use esdb.ObjectStore.Laws.{IsStoreEngine, has_failed, Kept, first_same}
use esdb.ObjectStore.Scope.{InScope, InScope-first, scope_rules}

module _ {Db : Type 0} (store : StoreEngine Db) {contents base mark : Db → Tables}
    (law : IsStoreEngine store contents base mark) where
  -- The tables are counted.
  abbrev pub Seen : Db → Outcome ℕ × Session Db → Type 0
  Seen d (done n, t) =
      (n ≡ (contents d).table_count)
      × (contents t.handle ≡ contents d)
      × (store.engine.autocommit t.handle ≡ store.engine.autocommit d)
  Seen d (stopped st e, t) = Kept store contents d t.handle

  count-Seen :
      (n : ℕ) (d : Db) (t : Session Db)
      → (contents d).table_count ≤ 4
      → n ≡ (contents d).table_count
      → contents t.handle ≡ contents d
      → store.engine.autocommit t.handle ≡ store.engine.autocommit d
      → Seen d (table_count_row (some (int_cell n ∷ [])) t)
  unfolding table_count_row
  count-Seen n d t small e same idle =
      let low : n % 4294967296 ≡ n = omega arith in
      let few : ltb 4 n ≡ false = ground arith in rw (low, few) (e, same, idle)

  row-Seen :
      (d : Db) (f : First) (t : Session Db)
      → (contents d).table_count ≤ 4
      → (has_failed f ≡ false → f ≡ row (int_cell (contents d).table_count ∷ []))
      → Kept store contents d t.handle
      → (has_failed f ≡ false
          → (contents t.handle ≡ contents d)
            × (store.engine.autocommit t.handle ≡ store.engine.autocommit d))
      → let r = first_outcome f Phase.object_store t in Seen d (continue r.0 table_count_row r.1)
  unfolding refuse fail
  row-Seen d (failed_first code) t small run kept idle = kept
  row-Seen d finished_first t small run kept idle = absurd (ground (arith, run refl))
  row-Seen d (row r) t small run kept idle =
      let e : r ≡ int_cell (contents d).table_count ∷ [] = ground (arith, run refl) in
      subst (λ r'. Seen d (table_count_row (some r') t)) (sym e)
        (count-Seen (contents d).table_count d t small refl (idle refl).0 (idle refl).1)

  pub inspect-Seen :
      (s : Session Db)
      → (contents s.handle).table_count ≤ 4
      → Seen s.handle (inspect_store_table_count store s)
  unfolding inspect_store_table_count first ◌>>=◌ answer
  inspect-Seen s small =
      let r = store.first count_tables s.handle in
      row-Seen s.handle r.0 (record s { handle = r.1 }) small
        (λ h. (law.first_runs count_tables s.handle h).0)
        (law.first_reads count_tables s.handle refl)
        (λ h. (
          first_same store law count_tables s.handle refl h,
          law.first_idle count_tables s.handle refl h,
        ))

  InScope-count : (r : Option Row) → InScope store base mark (table_count_row r)
  unfolding table_count_row
  InScope-count none = search scope_rules
  InScope-count (some r) = search scope_rules

  pub InScope-inspect : InScope store base mark (inspect_store_table_count store)
  unfolding inspect_store_table_count
  InScope-inspect = search (scope_rules, InScope-first store law, InScope-count)
