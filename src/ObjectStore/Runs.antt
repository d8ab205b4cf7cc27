-- ===== src/ObjectStore/Runs.antt =====
-- What an action of src/esdb_object_store.cpp that succeeds returns and makes of the tables, one rule
-- for each way to build an action.
use esdb.Prelude.{
  ℕ, ◌≡◌, refl, arith, Bool, true, false, Option, none, some, List, [], ◌∷◌, ◌∙◌, subst,
  if◌then◌else◌,
}
use esdb.Errors.{Status, Phase}
use esdb.Runtime.Session.{Session}
use esdb.ObjectStore.Sql.{Query, Row, First, failed_first, row, finished_first, StoreEngine}
use esdb.ObjectStore.Action.{
  Outcome, done, stopped, is_done, Action, pure, refuse, continue, ◌>>=◌, first, first_outcome, all,
}
use esdb.ObjectStore.Tables.{Tables, effect}
use esdb.ObjectStore.Answers.{answer}
use esdb.ObjectStore.Scope.{Ends}
use esdb.ObjectStore.Laws.{IsStoreEngine, has_failed, head_row}

abbrev pub head {ℓ} : {A : Type ℓ} → List A → Option A
head [] = none
head (x ∷ xs) = some x

module _ {Db : Type 0} (contents : Db → Tables) where
  -- Of an outcome that is a success.
  abbrev pub Success : {A : Type 0} → (A → Tables → Type 0) → Outcome A × Session Db → Type 0
  Success P (done a, s) = P a (contents s.handle)
  Success P (stopped st e, s) = Unit

  pub Success-stopped :
      (A : Type 0) (P : A → Tables → Type 0) (r : Outcome A × Session Db)
      → is_done r.0 ≡ false
      → Success P r
  Success-stopped A P (done a, s) h = absurd (cc)
  Success-stopped A P (stopped st e, s) h = tt

  pub Success-map :
      (A : Type 0) (P Q : A → Tables → Type 0) (r : Outcome A × Session Db)
      → ((a : A) (t : Tables) → P a t → Q a t)
      → Success P r
      → Success Q r
  Success-map A P Q (done a, s) f h = f a (contents s.handle) h
  Success-map A P Q (stopped st e, s) f h = tt

  -- The result and the tables afterwards, from the tables before.
  pub record Runs {A : Type 0} (m : Action Db A) (result : Tables → A) (after : Tables → Tables)
      : Type 0 where
    pub runs :
        (s : Session Db)
        → Success (λ a t. (a ≡ result (contents s.handle)) × (t ≡ after (contents s.handle))) (m s)

  -- Another way to write the result.
  pub Runs-as :
      {A : Type 0} (m : Action Db A) (result result' : Tables → A) (after : Tables → Tables)
      → ((t : Tables) → result t ≡ result' t)
      → Runs m result after
      → Runs m result' after
  Runs-as {A = A} m result result' after same h = record {
    runs = λ s.
        let before = contents s.handle in
        Success-map A (λ a t. (a ≡ result before) × (t ≡ after before))
          (λ a t. (a ≡ result' before) × (t ≡ after before)) (m s)
          (λ a t e. (e.0 ∙ same before, e.1)) (h.runs s);
  }

  pub Runs-pure : {A : Type 0} (a : A) → Runs (pure a) (λ t. a) (λ t. t)
  Runs-pure a = record { runs = λ s. (refl, refl) }

  pub Runs-refuse :
      {A : Type 0} (st : Status) (phase : Phase) (code : ℕ) (result : Tables → A)
      (after : Tables → Tables)
      → Runs (refuse st phase code) result after
  unfolding refuse
  Runs-refuse st phase code result after = record { runs = λ s. tt }

  pub Runs-if :
      {A : Type 0} (b : Bool) (m n : Action Db A) (result : Tables → A) (after : Tables → Tables)
      → Runs m result after
      → Runs n result after
      → Runs (if b then m else n) result after
  Runs-if true m n result after hm hn = hm
  Runs-if false m n result after hm hn = hn

  Success-continue :
      {A B : Type 0} (o : Outcome A) (f : A → Action Db B) (t : Session Db) (a : A) (c : Tables)
      (v : A → Tables → B) (u : A → Tables → Tables)
      → Success (λ a' c'. (a' ≡ a) × (c' ≡ c)) (o, t)
      → ((a' : A) → Runs (f a') (v a') (u a'))
      → Success (λ b c'. (b ≡ v a c) × (c' ≡ u a c)) (continue o f t)
  Success-continue (done a') f t a c v u (e, e') hf =
      subst (λ x. Success (λ b c'. (b ≡ v x c) × (c' ≡ u x c)) (f a' t)) e
        (subst (λ x. Success (λ b c'. (b ≡ v a' x) × (c' ≡ u a' x)) (f a' t)) e' ((hf a').runs t))
  Success-continue (stopped st e) f t a c v u h hf = tt

  pub Runs-bind :
      {A B : Type 0} (m : Action Db A) (f : A → Action Db B) (result : Tables → A)
      (after : Tables → Tables) (v : A → Tables → B) (u : A → Tables → Tables)
      → Runs m result after
      → ((a : A) → Runs (f a) (v a) (u a))
      → Runs (m >>= f) (λ t. v (result t) (after t)) (λ t. u (result t) (after t))
  unfolding ◌>>=◌
  Runs-bind m f result after v u hm hf = record {
    runs = λ s.
        Success-continue (m s).0 f (m s).1 (result (contents s.handle)) (after (contents s.handle))
          v u (hm.runs s) hf;
  }

module _ {Db : Type 0} (store : StoreEngine Db) {contents base mark : Db → Tables}
    (law : IsStoreEngine store contents base mark) where
  first_outcome-runs :
      (f : First) (rows : List Row) (c : Tables) (phase : Phase) (s : Session Db)
      → (has_failed f ≡ false → (f ≡ head_row rows) × (contents s.handle ≡ c))
      → Success contents (λ r t. (r ≡ head rows) × (t ≡ c)) (first_outcome f phase s)
  unfolding refuse
  first_outcome-runs (failed_first code) rows c phase s h = tt
  first_outcome-runs (row r) [] c phase s h = absurd (ground (arith, h refl))
  first_outcome-runs (row r) (r' ∷ rows) c phase s h = (ground (arith, h refl), (h refl).1)
  first_outcome-runs finished_first [] c phase s h = (refl, (h refl).1)
  first_outcome-runs finished_first (r' ∷ rows) c phase s h = absurd (ground (arith, h refl))

  pub Runs-first :
      (q : Query) (phase : Phase)
      → Runs contents (first store q phase) (λ t. head (answer q t)) (effect q)
  unfolding first
  Runs-first q phase = record {
    runs = λ s.
        let r = store.first q s.handle in
        first_outcome-runs r.0 (answer q (contents s.handle)) (effect q (contents s.handle)) phase
          (record s { handle = r.1 }) (law.first_runs q s.handle);
  }

  not_done :
      {A : Type 0} (r : Outcome A × Session Db) (code : ℕ)
      → (is_done r.0 ≡ true → some code ≡ none)
      → is_done r.0 ≡ false
  not_done (done a, s) code h = absurd (ground (arith, h refl))
  not_done (stopped st e, s) code h = refl

  ran :
      (A : Type 0) (q : Query) (f : List Row → Option ℕ → Action Db A) (v : List Row → A)
      → ((rows : List Row) → Runs contents (f rows none) (λ t. v rows) (λ t. t))
      → ((rows : List Row) (failure : Option ℕ) → Ends failure (f rows failure))
      → (rows : List Row) (failure : Option ℕ) (c : Tables) (s : Session Db)
      → (failure ≡ none → (rows ≡ answer q c) × (contents s.handle ≡ effect q c))
      → Success contents (λ a t. (a ≡ v (answer q c)) × (t ≡ effect q c)) (f rows failure s)
  ran A q f v good bad rows none c s h =
      let (e, e') = h refl in
      subst (λ x. Success contents (λ a t. (a ≡ v x) × (t ≡ effect q c)) (f rows none s)) e
        (subst (λ x. Success contents (λ a t. (a ≡ v rows) × (t ≡ x)) (f rows none s)) e'
          ((good rows).runs s))
  ran A q f v good bad rows (some code) c s h =
      Success-stopped contents A (λ a t. (a ≡ v (answer q c)) × (t ≡ effect q c))
        (f rows (some code) s)
        (not_done (f rows (some code) s) code ((bad rows (some code)).ends s).1)

  -- The rows of a statement that has not failed.
  pub Runs-all :
      {A : Type 0} (q : Query) (f : List Row → Option ℕ → Action Db A) (v : List Row → A)
      → ((rows : List Row) → Runs contents (f rows none) (λ t. v rows) (λ t. t))
      → ((rows : List Row) (failure : Option ℕ) → Ends failure (f rows failure))
      → Runs contents (all store q >>= λ r. f r.rows r.failure) (λ t. v (answer q t)) (effect q)
  unfolding ◌>>=◌ all
  Runs-all {A = A} q f v good bad = record {
    runs = λ s.
        let r = store.all q s.handle in
        ran A q f v good bad r.0.rows r.0.failure (contents s.handle) (record s { handle = r.1 })
          (law.all_runs q s.handle);
  }
