-- ===== src/Store/Heap.antt =====
-- The heap of the registry of src/esdb_store.cpp: what changing one state leaves of the others.
use esdb.Prelude.{
  ℕ, zero, suc, ◌≤◌, ◌<◌, ◌≡◌, ◌≢◌, ◌⊎◌, refl, arith, false, Option, none, some, List, [], ◌∷◌,
  ◌++◌, ◌==◌, if◌then◌else◌, length, get_elem?, set, All, Option-cases, Bool-cases, inl, inr,
  set-get_elem?, get_elem?-set_ne, length-set,
}
use esdb.Bytes.{Bytes}
use esdb.Errors.{AllocOutcome, granted, bad_alloc, thrown}
use esdb.Store.State.{MemoryStoreState}
use esdb.Store.Registry.{World, modify, find_store}
use esdb.Store.Counting.{Below}

pub outcome-cases : (o : AllocOutcome) → (o ≡ granted) ⊎ (o ≡ bad_alloc) ⊎ (o ≡ thrown)
outcome-cases granted = inl refl
outcome-cases bad_alloc = inr (inl refl)
outcome-cases thrown = inr (inr refl)

-- The states of a heap in which one was changed.
pub modify-get :
    (a b : ℕ) (f : MemoryStoreState → MemoryStoreState) (w : World) (s : MemoryStoreState)
    → get_elem? (modify a f w).heap b ≡ some s
    → (q : MemoryStoreState) × (get_elem? w.heap b ≡ some q) × (s ≡ (if b == a then f q else q))
unfolding modify
modify-get a b f w s h = elim (Option-cases (get_elem? w.heap a)) [
  | inl e ↦
      let ne : (b == a) ≡ false = elim (Bool-cases (b == a)) [
        | inl y ↦ absurd (ground (arith, e, h, y))
        | inr n ↦ n
      ] in
      (s, ground (arith, e, h), ground (arith, ne))
  | inr (q, e) ↦ elim (Bool-cases (b == a)) [
    | inl y ↦
        let ba : b ≡ a = ground (arith, y) in
        let there = set-get_elem? w.heap a q (f q) e in
        (q, ground (arith, ba, e), ground (arith, y, ba, there, h, e))
    | inr n ↦
        let ne : a ≢ b = ground (arith, n) in
        let kept = get_elem?-set_ne w.heap a b (f q) ne in
        (s, ground (arith, kept, h, e), ground (arith, n))
  ]
]

pub modify-length :
    (a : ℕ) (f : MemoryStoreState → MemoryStoreState) (w : World)
    → length (modify a f w).heap ≡ length w.heap
unfolding modify
modify-length a f w = elim (Option-cases (get_elem? w.heap a)) [
  | inl e ↦ rw (modify, e) refl
  | inr (q, e) ↦ rw (modify, e) (length-set w.heap a (f q))
]

pub modify-rest :
    (a : ℕ) (f : MemoryStoreState → MemoryStoreState) (w : World)
    → ((modify a f w).handles ≡ w.handles)
      × ((modify a f w).subscriptions ≡ w.subscriptions)
      × ((modify a f w).stores ≡ w.stores)
unfolding modify
modify-rest a f w = elim (Option-cases (get_elem? w.heap a)) [
  | inl e ↦ rw (modify, e) (refl, refl, refl)
  | inr (q, e) ↦ rw (modify, e) (refl, refl, refl)
]

pub All-append :
    (n b : ℕ) (rs : List (Option ℕ)) → All (Below n) rs → b < n → All (Below n) (rs ++ some b ∷ [])
All-append n b [] h lt = (lt, tt)
All-append n b (r ∷ rs) h lt = (h.0, All-append n b rs h.1 lt)

pub All-set : (n i : ℕ) (rs : List (Option ℕ)) → All (Below n) rs → All (Below n) (set rs i none)
All-set n i [] h = tt
All-set n zero (r ∷ rs) h = (tt, h.1)
All-set n (suc i) (r ∷ rs) h = (h.0, All-set n i rs h.1)

pub All-grow : (n m : ℕ) (rs : List (Option ℕ)) → n ≤ m → All (Below n) rs → All (Below m) rs
All-grow n m [] le h = tt
All-grow n m (none ∷ rs) le h = (tt, All-grow n m rs le h.1)
All-grow n m (some b ∷ rs) le h = (omega (arith, h.0), All-grow n m rs le h.1)

pub stores-grow :
    (n m : ℕ) (es : List (Bytes × ℕ)) → n ≤ m → All (λ e. e.1 < n) es → All (λ e. e.1 < m) es
stores-grow n m [] le h = tt
stores-grow n m (e ∷ es) le h = (omega (arith, h.0), stores-grow n m es le h.1)

pub find_store-Below :
    (name : Bytes) (n a : ℕ) (es : List (Bytes × ℕ))
    → All (λ e. e.1 < n) es
    → find_store name es ≡ some a
    → a < n
unfolding find_store
find_store-Below name n a [] h e = absurd (ground (arith, e))
find_store-Below name n a ((j, b) ∷ es) h e =
    ground (arith, e, h.0, find_store-Below name n a es h.1)

pub modify-none :
    (a : ℕ) (f : MemoryStoreState → MemoryStoreState) (w : World)
    → get_elem? w.heap a ≡ none
    → modify a f w ≡ w
unfolding modify
modify-none a f w e = rw (modify, e) refl

pub modify-some :
    (a : ℕ) (f : MemoryStoreState → MemoryStoreState) (w : World) (s : MemoryStoreState)
    → get_elem? w.heap a ≡ some s
    → modify a f w ≡ record w { heap = set w.heap a (f s) }
unfolding modify
modify-some a f w s e = rw (modify, e) refl
