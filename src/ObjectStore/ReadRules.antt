-- ===== src/ObjectStore/ReadRules.antt =====
-- What changes nothing in the tables, one rule for each way to build an action of
-- src/esdb_object_store.cpp.
use esdb.Prelude.{
  ℕ, ◌+◌, ◌≡◌, refl, Bool, true, false, Option, none, some, List, [], ◌∷◌, if◌then◌else◌, ◌∙◌, sym,
  inl, inr,
}
use esdb.Bytes.{Bytes, CString}
use esdb.Errors.{Status, Phase, AllocOutcome, AllocPlan, attempt_nothrow}
use esdb.Value.{ValueType}
use esdb.Runtime.Session.{Session, fail}
use esdb.ObjectStore.Sql.{
  Query, Row, Cell, First, failed_first, row, finished_first, StoreEngine, read_revision,
}
use esdb.ObjectStore.Action.{
  Outcome, done, stopped, Action, pure, refuse, quietly, continue, allocate, ◌>>=◌, first,
  first_outcome, all, end_of,
}
use esdb.ObjectStore.Schema.{agreeing, revision_row, read_store_revision_metadata}
use esdb.ObjectStore.Rows.{
  new_value, clone_blob, clone_sql_value, key_of_row, owned_record, owned_records, checked_change,
  owned_changes,
}
use esdb.ObjectStore.Tables.{Tables}
use esdb.ObjectStore.Laws.{IsStoreEngine, Kept, is_read}

module _ {Db : Type 0} (store : StoreEngine Db) (contents : Db → Tables) (ready : Bool) where
  -- On a connection whose tables are ready, or not.
  pub record Reads {A : Type 0} (m : Action Db A) : Type 0 where
    pub reads :
        (s : Session Db)
        → s.object_store_schema_ready ≡ ready
        → Kept store contents s.handle (m s).1.handle × ((m s).1.object_store_schema_ready ≡ ready)

  pub Reads-pure : {A : Type 0} (a : A) → Reads (pure a)
  Reads-pure a = record { reads = λ s h. (inl (refl, refl), h) }

  pub Reads-quietly : {A : Type 0} (st : Status) → Reads (quietly {A = A} st)
  Reads-quietly st = record { reads = λ s h. (inl (refl, refl), h) }

  pub Reads-refuse :
      {A : Type 0} (st : Status) (phase : Phase) (code : ℕ) → Reads (refuse {A = A} st phase code)
  unfolding refuse fail
  Reads-refuse st phase code = record { reads = λ s h. (inl (refl, refl), h) }

  pub Reads-if :
      {A : Type 0} (b : Bool) (m n : Action Db A) → Reads m → Reads n → Reads (if b then m else n)
  Reads-if true m n hm hn = hm
  Reads-if false m n hm hn = hn

  Kept-trans :
      (d e f : Db) → Kept store contents d e → Kept store contents e f → Kept store contents d f
  Kept-trans d e f (inl p) (inl q) = inl (q.0 ∙ p.0, q.1 ∙ p.1)
  Kept-trans d e f (inl p) (inr q) = inr (sym p.1 ∙ q.0, q.1)
  Kept-trans d e f (inr p) (inl q) = inr (p.0, q.1 ∙ p.1)
  Kept-trans d e f (inr p) (inr q) = inr (p.0, q.1)

  pub Reads-continue :
      (A B : Type 0) (o : Outcome A) (f : A → Action Db B) (t : Session Db) (d : Db)
      → Kept store contents d t.handle
      → t.object_store_schema_ready ≡ ready
      → ((a : A) → Reads (f a))
      → Kept store contents d (continue o f t).1.handle
        × ((continue o f t).1.object_store_schema_ready ≡ ready)
  Reads-continue A B (done a) f t d kept fine hf =
      let (e, r) = (hf a).reads t fine in (Kept-trans d t.handle (f a t).1.handle kept e, r)
  Reads-continue A B (stopped st e) f t d kept fine hf = (kept, fine)

  pub Reads-bind :
      {A B : Type 0} (m : Action Db A) (f : A → Action Db B)
      → Reads m
      → ((a : A) → Reads (f a))
      → Reads (m >>= f)
  unfolding ◌>>=◌
  Reads-bind {A = A} {B = B} m f hm hf = record {
    reads =
        λ s h. let (e, r) = hm.reads s h in Reads-continue A B (m s).0 f (m s).1 s.handle e r hf;
  }

  pub Reads-nothrow :
      {A : Type 0} (o : AllocOutcome) (m n : Action Db A)
      → Reads m
      → Reads n
      → Reads (attempt_nothrow o m n)
  Reads-nothrow AllocOutcome.granted m n hm hn = hn
  Reads-nothrow AllocOutcome.bad_alloc m n hm hn = hm
  Reads-nothrow AllocOutcome.thrown m n hm hn = hm

  pub Reads-end_of : (failure : Option ℕ) (phase : Phase) → Reads (end_of failure phase)
  Reads-end_of none phase = Reads-pure tt
  Reads-end_of (some code) phase = Reads-refuse _ phase code

  pub Reads-allocate : (o : AllocOutcome) (phase : Phase) → Reads (allocate o phase)
  Reads-allocate AllocOutcome.granted phase = Reads-pure tt
  Reads-allocate AllocOutcome.bad_alloc phase = Reads-refuse _ phase _
  Reads-allocate AllocOutcome.thrown phase = Reads-refuse _ phase _

  pub ruleset reads_rules = (
    Reads-pure, Reads-quietly, Reads-refuse, Reads-if, Reads-bind, Reads-nothrow, Reads-end_of,
    Reads-allocate,
  )

  pub Reads-new_value :
      (plan : AllocPlan) (type : ValueType) (payload : Bytes) → Reads (new_value plan type payload)
  Reads-new_value plan type [] = search reads_rules
  Reads-new_value plan type (b ∷ payload) = search reads_rules

  pub Reads-blob :
      (plan : AllocPlan) (type : ValueType) (blob : Option Bytes)
      → Reads (clone_blob plan type blob)
  Reads-blob plan type none = search reads_rules
  Reads-blob plan type (some blob) = search (reads_rules, Reads-new_value)

  pub Reads-clone :
      (plan : AllocPlan) (type payload : Cell) → Reads (clone_sql_value plan type payload)
  unfolding clone_sql_value
  Reads-clone plan type payload = search (reads_rules, Reads-blob)

  pub Reads-key : (key : CString) (r : Row) → Reads (key_of_row key r)
  Reads-key none r = search reads_rules
  Reads-key (some key) r = search reads_rules

  pub Reads-record : (plan : AllocPlan) (r : Row) → Reads (owned_record plan r)
  unfolding owned_record
  Reads-record plan r = search (reads_rules, Reads-key, Reads-clone) depth 12

  pub Reads-records :
      (plan : AllocPlan) (rows : List Row) (failure : Option ℕ)
      → Reads (owned_records plan rows failure)
  unfolding owned_records
  Reads-records plan [] failure = search reads_rules
  Reads-records plan (r ∷ rows) failure = Reads-bind _ _ (Reads-record plan r) (λ owned.
      Reads-bind _ _ (Reads-records (λ n. plan (n + 4)) rows failure) (λ snapshot. Reads-pure _))

  pub Reads-change : (name key : CString) (r : Row) → Reads (checked_change name key r)
  Reads-change none key r = search reads_rules
  Reads-change (some name) none r = search reads_rules
  Reads-change (some name) (some key) r = search reads_rules

  pub Reads-changes :
      (plan : AllocPlan) (rows : List Row) (failure : Option ℕ)
      → Reads (owned_changes plan rows failure)
  unfolding owned_changes
  Reads-changes plan [] failure = search reads_rules
  Reads-changes plan (r ∷ rows) failure = Reads-bind _ _ (Reads-change _ _ r) (λ owned.
      Reads-bind _ _
        (Reads-bind _ _ (Reads-allocate (plan 0) _)
          (λ u. Reads-changes (λ n. plan (n + 1)) rows failure))
        (λ snapshot. Reads-pure _))

  pub Reads-agreeing : (o : Option ℕ) (sequence : ℕ) → Reads (agreeing o sequence)
  unfolding agreeing
  Reads-agreeing none sequence = search reads_rules
  Reads-agreeing (some r) sequence = search reads_rules

  pub Reads-revision_row : (r : Option Row) → Reads (revision_row r)
  unfolding revision_row
  Reads-revision_row none = search reads_rules
  Reads-revision_row (some r) = search (reads_rules, Reads-agreeing)

module _ {Db : Type 0} (store : StoreEngine Db) {contents base mark : Db → Tables}
    (law : IsStoreEngine store contents base mark) (ready : Bool) where
  pub Reads-first_outcome :
      (f : First) (phase : Phase) → Reads store contents ready (first_outcome f phase)
  Reads-first_outcome (failed_first code) phase = Reads-refuse store contents ready _ phase code
  Reads-first_outcome (row r) phase = Reads-pure store contents ready (some r)
  Reads-first_outcome finished_first phase = Reads-pure store contents ready none

  pub Reads-first :
      (q : Query) (phase : Phase)
      → is_read q ≡ true
      → Reads store contents ready (first store q phase)
  unfolding first
  Reads-first q phase h = record {
    reads = λ s kept.
        let r = store.first q s.handle in
        let (e, f) = (Reads-first_outcome r.0 phase).reads (record s { handle = r.1 }) kept in
        (Kept-trans store contents ready s.handle r.1 _ (law.first_reads q s.handle h) e, f);
  }

  pub Reads-all : (q : Query) → is_read q ≡ true → Reads store contents ready (all store q)
  unfolding all
  Reads-all q h = record { reads = λ s kept. (law.all_reads q s.handle h, kept) }

  pub Reads-metadata : Reads store contents ready (read_store_revision_metadata store)
  unfolding read_store_revision_metadata
  Reads-metadata =
      Reads-bind store contents ready _ _ (Reads-first read_revision _ refl)
        (λ r. Reads-revision_row store contents ready r)
