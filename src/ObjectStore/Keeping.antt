-- ===== src/ObjectStore/Keeping.antt =====
-- The mutations of the object store keep its tables well formed.
use esdb.Prelude.{
  ℕ, suc, ◌<◌, ◌≤◌, ◌≡◌, refl, arith, Bool, true, false, none, some, List, [], ◌∷◌, ◌++◌,
  if◌then◌else◌, sym, ◌∙◌, Bool-cases, Option-cases, inl, inr, All, some-injective,
}
use esdb.Bytes.{Bytes, byte_less}
use esdb.Value.{Value}
use esdb.Runtime.Savepoints.{same_text}
use esdb.Runtime.Stack.{eq_of_same_text}
use esdb.ObjectStore.Tables.{Tables, RecordRow, id_of, next_id, is_record, upsert_row, erase_row}
use esdb.ObjectStore.PutSteps.{store_id, registered, put_tables}
use esdb.ObjectStore.Lookup.{id_of-lt-next_id}
use esdb.ObjectStore.Sound.{
  Sound, next_id-append, id_of-registered, store_id-old, store_id-new, store_id-ne,
}

module _ {ℓ κ} {A : Type ℓ} where
  pub All-weaken : (P Q : A → Type κ) (xs : List A) → ((x : A) → P x → Q x) → All P xs → All Q xs
  All-weaken P Q [] f h = tt
  All-weaken P Q (x ∷ xs) f h = (f x h.0, All-weaken P Q xs f h.1)

  pub All-append_one :
      (P : A → Type κ) (xs : List A) (x : A) → All P xs → P x → All P (xs ++ x ∷ [])
  All-append_one P [] x h p = (p, tt)
  All-append_one P (y ∷ xs) x h p = (h.0, All-append_one P xs x h.1 p)

All-if :
    (P : RecordRow → Type 0) (b : Bool) (xs ys : List RecordRow)
    → All P xs
    → All P ys
    → All P (if b then xs else ys)
All-if P true xs ys h k = h
All-if P false xs ys h k = k

pub All-upsert_row :
    (P : RecordRow → Type 0) (new : RecordRow) (rs : List RecordRow)
    → All P rs
    → P new
    → All P (upsert_row new rs)
unfolding upsert_row
All-upsert_row P new [] h p = (p, tt)
All-upsert_row P new (r ∷ rs) h p =
    All-if P (is_record new.store_id new.key r) _ _ (p, h.1)
      (All-if P (byte_less new.key r.key) _ _ (p, h) (h.0, All-upsert_row P new rs h.1 p))

pub All-erase_row :
    (P : RecordRow → Type 0) (id : ℕ) (key : Bytes) (rs : List RecordRow)
    → All P rs
    → All P (erase_row id key rs)
unfolding erase_row
All-erase_row P id key [] h = tt
All-erase_row P id key (r ∷ rs) h =
    All-if P (is_record id key r) _ _ (All-erase_row P id key rs h.1)
      (h.0, All-erase_row P id key rs h.1)

module _ (name key : Bytes) (value : Value) (t : Tables) where
  next_id-new :
      id_of name t.stores ≡ none
      → next_id (put_tables name key value t).stores ≡ suc (next_id t.stores)
  unfolding put_tables registered
  next_id-new e = rw e (next_id-append t.stores (next_id t.stores) name (omega arith))

  next_id-old :
      (id : ℕ)
      → id_of name t.stores ≡ some id
      → next_id (put_tables name key value t).stores ≡ next_id t.stores
  unfolding put_tables registered
  next_id-old id e = rw e refl

  next_id-registered :
      (next_id t.stores ≤ next_id (put_tables name key value t).stores)
      × (store_id name (registered name t) < next_id (put_tables name key value t).stores)
  next_id-registered = elim (Option-cases (id_of name t.stores)) [
    | inl e ↦ omega (arith, store_id-new name key value t e, next_id-new e)
    | inr (id, e) ↦ omega (
      arith,
      store_id-old name key value t id e,
      next_id-old id e,
      id_of-lt-next_id name id t.stores e,
    )
  ]

  keyed-put :
      Sound t
      → (n m : Bytes) (id : ℕ) → id_of n (put_tables name key value t).stores ≡ some id
      → id_of m (put_tables name key value t).stores ≡ some id
      → n ≡ m
  keyed-put sound n m id p q =
      let p' = sym (id_of-registered name key value t n) ∙ p in
      let q' = sym (id_of-registered name key value t m) ∙ q in
      elim (Bool-cases (same_text name n)) [
        | inl a ↦ elim (Bool-cases (same_text name m)) [
          | inl b ↦ sym (eq_of_same_text name n a) ∙ eq_of_same_text name m b
          | inr b ↦ absurd (ne m b (rw a at p') (rw b at q'))
        ]
        | inr a ↦ elim (Bool-cases (same_text name m)) [
          | inl b ↦ absurd (ne n a (rw b at q') (rw a at p'))
          | inr b ↦ sound.keyed n m id (rw a at p') (rw b at q')
        ]
      ]
    where
      ne :
          (other : Bytes)
          → same_text name other ≡ false
          → some (store_id name (registered name t)) ≡ some id
          → id_of other t.stores ≡ some id
          → ⊥
      ne other f e h =
          let same = some-injective (store_id name (registered name t)) id e in
          ground (arith, same, store_id-ne name key value t sound other id f h)

  -- A put keeps the tables well formed.
  pub put_tables-Sound : Sound t → Sound (put_tables name key value t)
  unfolding put_tables registered
  put_tables-Sound sound = record {
    whole = sound.whole;
    version = sound.version;
    counted = refl;
    keyed = keyed-put sound;
    owned =
        All-upsert_row _ _ t.records
          (All-weaken _ _ t.records
            (λ r h.
              let low : r.store_id < next_id t.stores = h.0 in
              let old : r.revision ≤ t.sequence = h.1 in
              (omega (arith, next_id-registered.0), omega arith))
            sound.owned)
          (next_id-registered.1, omega arith);
    logged =
        All-append_one _ t.changes _
          (All-weaken _ _ t.changes (λ c h. let old : c.revision ≤ t.sequence = h in omega arith)
            sound.logged)
          (omega arith);
  }
