-- ===== src/ObjectStore/Mutate.antt =====
-- `mutate`, the shape of every mutation of src/esdb_object_store.cpp: all of its steps take effect, or
-- its scope is rolled back.
use esdb.Prelude.{◌≡◌, refl, Bool, true, false, sym, ap, ◌∙◌, subst, inl, inr}
use esdb.Errors.{Phase}
use esdb.Runtime.Engine.{immediate, begin_sql, savepoint_sql}
use esdb.Runtime.Session.{Session}
use esdb.ObjectStore.Sql.{StoreEngine}
use esdb.ObjectStore.Action.{
  Outcome, done, stopped, is_done, Action, pure, modify, continue, ◌>>=◌, ◌>>◌, exec_step,
}
use esdb.ObjectStore.Mutation.{
  mutation_name, sync_if, begin_as, begin_store_mutation, settle_scope, guarded,
  commit_store_mutation, mutate,
}
use esdb.ObjectStore.Tables.{Tables}
use esdb.ObjectStore.Laws.{IsStoreEngine, Kept}
use esdb.ObjectStore.Scope.{exec_step-handle, exec_step-done, InScope}
use esdb.ObjectStore.Runs.{Success, Runs}
use esdb.ObjectStore.AllOrNothing.{Opened, Refused, Restored, AllOrNothing, Kept-Restored}
use esdb.ObjectStore.Restore.{
  Undone, Guarded, Committed, sync_if-handle, guarded-Guarded, commit-Committed,
}

module _ {Db : Type 0} (store : StoreEngine Db) {contents base mark : Db → Tables}
    (law : IsStoreEngine store contents base mark) where
  abbrev at : Db → Bool
  at d = store.engine.autocommit d

  -- A scope that has begun, or nothing.
  abbrev pub Begun : Db → Outcome Bool × Session Db → Type 0
  Begun d (done owns, t) =
      (owns ≡ at d)
      × Opened store contents base mark owns (contents d) t.handle
      × (contents t.handle ≡ contents d)
  Begun d (stopped st e, t) = Restored store contents base mark d t.handle

  begin_continue :
      (owns : Bool) (d : Db) (o : Outcome (Unit {0})) (t : Session Db)
      → owns ≡ at d
      → Restored store contents base mark d t.handle
      → (is_done o ≡ true
          → Opened store contents base mark owns (contents d) t.handle
            × (contents t.handle ≡ contents d))
      → Begun d (continue o (λ _. modify (sync_if store owns) >> pure owns) t)
  unfolding ◌>>=◌
  begin_continue owns d (done a) t e restored opened = (
    e,
    subst (λ h. Opened store contents base mark owns (contents d) h)
        (sym (sync_if-handle store contents base mark owns t)) (opened refl).0,
    ap contents (sync_if-handle store contents base mark owns t) ∙ (opened refl).1,
  )
  begin_continue owns d (stopped st er) t e restored opened = restored

  -- In a transaction that goes on.
  Kept-contents : (d d' : Db) → Kept store contents d d' → at d' ≡ false → contents d' ≡ contents d
  Kept-contents d d' (inl kept) on = kept.0
  Kept-contents d d' (inr ended) on = absurd (cc (sym on ∙ ended.1))

  pub begin_as-Begun :
      (owns : Bool) (s : Session Db) → owns ≡ at s.handle → Begun s.handle (begin_as store owns s)
  unfolding begin_as ◌>>=◌
  begin_as-Begun true s e =
      let sql = begin_sql immediate in
      let r = exec_step store sql Phase.object_store s in
      let h = exec_step-handle store sql Phase.object_store s in
      let same = ap contents h ∙ law.begin_keeps s.handle in
      begin_continue true s.handle r.0 r.1 e (inl same) (λ good.
        let (on, b) =
          law.begin_opens s.handle (sym (exec_step-done store sql Phase.object_store s) ∙ good) in
        ((ap at h ∙ on, ap base h ∙ b), same))
  begin_as-Begun false s e =
      let sql = savepoint_sql mutation_name in
      let r = exec_step store sql Phase.object_store s in
      let h = exec_step-handle store sql Phase.object_store s in
      let kept : Kept store contents s.handle r.1.handle =
        subst (λ d. Kept store contents s.handle d) (sym h) (law.savepoint_keeps s.handle) in
      begin_continue false s.handle r.0 r.1 e
        (Kept-Restored store contents base mark s.handle r.1.handle kept)
        (λ good.
          let (on, m) =
            law.savepoint_opens s.handle (sym e)
              (sym (exec_step-done store sql Phase.object_store s) ∙ good) in
          ((ap at h ∙ on, ap mark h ∙ m), Kept-contents s.handle r.1.handle kept (ap at h ∙ on)))

  pub Undone-Restored :
      (owns : Bool) (d d' : Db)
      → owns ≡ at d
      → Undone store contents base mark law owns (contents d) d'
      → Restored store contents base mark d d'
  Undone-Restored owns d d' e (inl same) = inl same
  Undone-Restored owns d d' e (inr (inl (f, over))) = inr (inl (sym e ∙ f, over))
  Undone-Restored owns d d' e (inr (inr refused)) =
      inr (inr (subst (λ b. Refused store contents base mark b (contents d) d') e refused))

  end-Mutated :
      (A : Type 0) (P : A → Tables → Type 0) (a : A) (owns : Bool) (d : Db) (c : Tables)
      (o : Outcome (Unit {0})) (t : Session Db)
      → owns ≡ at d
      → Committed store contents base mark law owns (contents d) c (o, t)
      → P a c
      → AllOrNothing store contents base mark P d (continue o (λ _. pure a) t)
  end-Mutated A P a owns d c (done x) t e same p = subst (λ z. P a z) (sym same) p
  end-Mutated A P a owns d c (stopped st er) t e undone p = Undone-Restored owns d t.handle e undone

  body-Mutated :
      (A : Type 0) (P : A → Tables → Type 0) (owns : Bool) (d : Db) (o : Outcome A) (t : Session Db)
      → owns ≡ at d
      → Guarded store contents base mark law owns (contents d) (o, t)
      → Success contents P (o, t)
      → AllOrNothing store contents base mark P d
          (continue o (λ a. commit_store_mutation store owns >> pure a) t)
  unfolding ◌>>=◌
  body-Mutated A P owns d (done a) t e opened p =
      let r = commit_store_mutation store owns t in
      end-Mutated A P a owns d (contents t.handle) r.0 r.1 e
        (commit-Committed store contents base mark law owns (contents d) (contents t.handle) t
          opened refl)
        p
  body-Mutated A P owns d (stopped st er) t e undone p = Undone-Restored owns d t.handle e undone

  pub settle_scope-Success :
      (A : Type 0) (P : A → Tables → Type 0) (owns : Bool) (o : Outcome A) (t : Session Db)
      → Success contents P (o, t)
      → Success contents P (settle_scope store owns o t)
  settle_scope-Success A P owns (done a) t p = p
  settle_scope-Success A P owns (stopped st e) t p = tt

  mutate_continue :
      (A : Type 0) (body : Action Db A) (P : A → Tables → Type 0) (d : Db) (o : Outcome Bool)
      (t : Session Db)
      → InScope store base mark body
      → ((s : Session Db) → contents s.handle ≡ contents d → Success contents P (body s))
      → Begun d (o, t)
      → AllOrNothing store contents base mark P d (
          continue o
            (λ owns. guarded store owns body >>= λ a. commit_store_mutation store owns >> pure a)
            t)
  unfolding ◌>>=◌ guarded
  mutate_continue A body P d (done owns) t hm hp (e, opened, same) =
      let r = settle_scope store owns (body t).0 (body t).1 in
      body-Mutated A P owns d r.0 r.1 e
        (guarded-Guarded store contents base mark law owns (contents d) body t hm opened)
        (settle_scope-Success A P owns (body t).0 (body t).1 (hp t same))
  mutate_continue A body P d (stopped st er) t hm hp restored = restored

  -- A mutation that succeeds has the result of its body, and the tables that the body made; one that
  -- does not leaves the tables as they were, or finds that SQLite has ended the transaction around it
  -- or refuses to roll back.
  pub mutate-Mutated :
      {A : Type 0} (body : Action Db A) (v : Tables → A) (u : Tables → Tables) (s : Session Db)
      → InScope store base mark body
      → Runs contents body v u
      → AllOrNothing store contents base mark
          (λ a t. (a ≡ v (contents s.handle)) × (t ≡ u (contents s.handle)))
          s.handle
          (mutate store body s)
  unfolding mutate begin_store_mutation ◌>>=◌ guarded
  mutate-Mutated {A = A} body v u s hm hr =
      let b = begin_store_mutation store s in
      mutate_continue A body (λ a t. (a ≡ v (contents s.handle)) × (t ≡ u (contents s.handle)))
        s.handle b.0 b.1 hm
        (λ t same.
          subst (λ c. Success contents (λ a t'. (a ≡ v c) × (t' ≡ u c)) (body t)) same (hr.runs t))
        (begin_as-Begun (at s.handle) s refl)
