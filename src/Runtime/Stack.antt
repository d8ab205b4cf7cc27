-- ===== src/Runtime/Stack.antt =====
-- The savepoints of src/esdb_runtime.cpp are a stack of names.
use esdb.Prelude.{
  suc, ◌-◌, ◌<◌, ◌≡◌, ◌⊎◌, refl, arith, Bool, true, false, not, some, List, [], ◌∷◌, ◌++◌, leb,
  length, get_elem?, set, take, take-get_elem?, take-set, get_elem?-set_self, sym, ap, subst, ◌∙◌,
  Option-cases, if-cases, inl, inr,
}
use esdb.Bytes.{Bytes}
use esdb.Errors.{Status, Phase, Reply}
use esdb.Runtime.Engine.{Engine, Sql, savepoint_sql}
use esdb.Runtime.Session.{Session, count_operation, fail, exec_sql}
use esdb.Runtime.Transactions.{is_ok}
use esdb.Runtime.Savepoints.{savepoint_begin, savepoint_end, push_savepoint, pop_savepoint, is_top}
use esdb.Runtime.SavepointName.{valid_savepoint_name}
use esdb.Runtime.Savepoints.{same_text, refuse}
use esdb.Runtime.Invariant.{exec_sql-SameFrame}

-- The names of the active savepoints, the oldest first.
abbrev pub active_names : {Db : Type 0} → Session Db → List Bytes
active_names s = take s.savepoint_depth s.savepoints

pub eq_of_same_text : (a b : Bytes) → same_text a b ≡ true → a ≡ b
unfolding same_text
eq_of_same_text [] [] h = refl
eq_of_same_text [] (d ∷ ds) h = absurd (ground (arith, h))
eq_of_same_text (c ∷ cs) [] h = absurd (ground (arith, h))
eq_of_same_text (c ∷ cs) (d ∷ ds) h =
    let e : c ≡ d = ground (arith, h) in
    let q : cs ≡ ds = eq_of_same_text cs ds (ground (arith, h)) in rw (e, q) refl

not-false : (b : Bool) → not b ≡ false → b ≡ true
not-false true h = refl
not-false false h = sym h

module _ {Db : Type 0} (engine : Engine Db) where
  exec_sql-names :
      (sql : Sql) (phase : Phase) (s : Session Db)
      → active_names (exec_sql engine sql phase s).1 ≡ active_names s
  exec_sql-names sql phase s =
      let (_, _, a, d, _) = exec_sql-SameFrame engine sql phase s in rw (sym a, sym d) refl

  push-names :
      (name : Bytes) (s : Session Db)
      → s.savepoint_depth < length s.savepoints
      → active_names (push_savepoint name s) ≡ active_names s ++ name ∷ []
  unfolding push_savepoint
  push-names name s lt =
      take-get_elem? (set s.savepoints s.savepoint_depth name) s.savepoint_depth name
        (get_elem?-set_self s.savepoints s.savepoint_depth name lt)
      ∙ ap (λ l. l ++ name ∷ []) (take-set s.savepoints s.savepoint_depth name)

  pop-names :
      (name : Bytes) (s : Session Db)
      → is_top name s ≡ true
      → active_names s ≡ active_names (pop_savepoint s) ++ name ∷ []
  unfolding pop_savepoint is_top
  pop-names name s h = elim (Option-cases (get_elem? s.savepoints (s.savepoint_depth - 1))) [
    | inl e ↦ absurd (ground (arith, h, e))
    | inr (top, e) ↦
        let same : top ≡ name = eq_of_same_text top name (ground (arith, h, e)) in
        let deep : suc (s.savepoint_depth - 1) ≡ s.savepoint_depth = ground (arith, h) in
        subst (λ n. take n s.savepoints ≡ take (s.savepoint_depth - 1) s.savepoints ++ name ∷ [])
          deep
          (take-get_elem? s.savepoints (s.savepoint_depth - 1) name (e ∙ ap (λ v. some v) same))
  ]

  is_top-frame :
      (name : Bytes) (s t : Session Db)
      → s.savepoints ≡ t.savepoints
      → s.savepoint_depth ≡ t.savepoint_depth
      → is_top name s ≡ is_top name t
  unfolding is_top
  is_top-frame name s t a d = rw (a, d) refl

  abbrev Pushed : Bytes → Session Db → Reply (Unit {0}) × Session Db → Type 0
  Pushed name s r =
      ((is_ok r.0.status ≡ false) × (active_names r.1 ≡ active_names s))
      ⊎ ((is_ok r.0.status ≡ true) × (active_names r.1 ≡ active_names s ++ name ∷ []))

  refuse-names :
      (st : Status) (s : Session Db)
      → (is_ok (refuse st (count_operation s)).0.status ≡ is_ok st)
        × (active_names (refuse st (count_operation s)).1 ≡ active_names s)
  unfolding fail count_operation
  refuse-names st s = (refl, refl)

  -- Beginning a savepoint fails and leaves the stack of names as it is, or succeeds and pushes the
  -- name.
  pub savepoint_begin-names :
      (name : Bytes) (s : Session Db)
      → ((is_ok (savepoint_begin engine (some name) s).0.status ≡ false)
          × (active_names (savepoint_begin engine (some name) s).1 ≡ active_names s))
        ⊎ ((is_ok (savepoint_begin engine (some name) s).0.status ≡ true)
            × (active_names (savepoint_begin engine (some name) s).1 ≡ active_names s ++ name ∷ []))
  unfolding savepoint_begin
  savepoint_begin-names name s =
      let r = exec_sql engine (savepoint_sql name) Phase.savepoint (count_operation s) in
      let ran : active_names r.1 ≡ active_names s =
        exec_sql-names (savepoint_sql name) Phase.savepoint (count_operation s)
        ∙ (unfold count_operation in refl) in
      let room_lt : leb (length s.savepoints) s.savepoint_depth ≡ false
          → (count_operation s).savepoint_depth < length (count_operation s).savepoints =
        unfold count_operation in (λ h. ground (arith, h)) in
      let (_, _, slots, depth, _) =
        exec_sql-SameFrame engine (savepoint_sql name) Phase.savepoint (count_operation s) in
      if-cases (Pushed name s) (not (valid_savepoint_name (some name))) _ _
        (λ h. inl (refuse-names Status.invalid_argument s))
        (λ h.
          if-cases (Pushed name s) (not s.transaction_active) _ _
            (λ h. inl (refuse-names Status.invalid_state s))
            (λ h.
              if-cases (Pushed name s) (leb (length s.savepoints) s.savepoint_depth) _ _
                (λ h. inl (refuse-names Status.invalid_state s))
                (λ room.
                  if-cases (Pushed name s) (is_ok r.0.status) _ _
                    (λ h. inr (
                      refl,
                      push-names name r.1 (omega (arith, depth, ap length slots, room_lt room))
                          ∙ ap (λ l. l ++ name ∷ []) ran,
                    ))
                    (λ h. inl (h, ran)))))

  abbrev Popped : Bytes → Session Db → Reply (Unit {0}) × Session Db → Type 0
  Popped name s r =
      ((is_ok r.0.status ≡ false) × (active_names r.1 ≡ active_names s))
      ⊎ ((is_ok r.0.status ≡ true) × (active_names s ≡ active_names r.1 ++ name ∷ []))

  -- Releasing or rolling back a savepoint fails and leaves the stack of names as it is, or the name
  -- was its top and is popped.
  pub savepoint_end-names :
      (sql : Bytes → Sql) (name : Bytes) (s : Session Db)
      → ((is_ok (savepoint_end engine sql (some name) s).0.status ≡ false)
          × (active_names (savepoint_end engine sql (some name) s).1 ≡ active_names s))
        ⊎ ((is_ok (savepoint_end engine sql (some name) s).0.status ≡ true)
            × (active_names s
                ≡ active_names (savepoint_end engine sql (some name) s).1 ++ name ∷ []))
  unfolding savepoint_end
  savepoint_end-names sql name s =
      let counted = count_operation s in
      let r = exec_sql engine (sql name) Phase.savepoint counted in
      let ran : active_names r.1 ≡ active_names s =
        exec_sql-names (sql name) Phase.savepoint counted ∙ (unfold count_operation in refl) in
      let (_, _, slots, depth, _) = exec_sql-SameFrame engine (sql name) Phase.savepoint counted in
      if-cases (Popped name s) (not (valid_savepoint_name (some name))) _ _
        (λ h. inl (refuse-names Status.invalid_argument s))
        (λ h.
          if-cases (Popped name s) (not (is_top name counted)) _ _
            (λ h. inl (refuse-names Status.invalid_state s))
            (λ top.
              if-cases (Popped name s) (is_ok r.0.status) _ _
                (λ h. inr (
                  refl,
                  sym ran
                      ∙ pop-names name r.1 (
                          sym (is_top-frame name counted r.1 slots depth)
                          ∙ not-false (is_top name counted) top),
                ))
                (λ h. inl (h, ran))))
