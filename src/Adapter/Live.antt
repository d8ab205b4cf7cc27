-- ===== src/Adapter/Live.antt =====
-- Live tokens of adapters/externalobject/esdb_externalobject.cpp: what `openStaged` hands out, and
-- that a call on one database leaves the tokens of the others alone.
use esdb.Prelude.{
  ℕ, ◌<◌, ◌≡◌, ◌≢◌, refl, arith, Bool, false, Option, none, some, List, get_elem?, set,
  set-get_elem?, ◌∙◌, sym, ap, subst, inl, inr, get_elem?-set_ne,
}
use esdb.Bytes.{Bytes}
use esdb.Errors.{Result, got, AllocOutcome}
use esdb.Adapter.Handles.{
  Slot, slot_count, encode_handle, decode_handle, lookup_slot, check_slot, claim, Table,
  open_staged, close,
}
use esdb.Adapter.Tokens.{spent, decode-encode, encode-decode, lookup-some, some-lookup}
use esdb.Adapter.Outcomes.{close-outcome, open_staged-outcome}
use esdb.Adapter.WellFormed.{IsGoodTable, claim-some, get_elem?-bound, All-get}

-- The slot that has taken the database, and what the token says before and after.
claim-lookup :
    (db : ℕ) (slots : List Slot) (i g : ℕ) (after : List Slot)
    → claim db 0 slots ≡ some (i, g, after)
    → IsGoodTable slots
    → (s : Slot) × (lookup_slot slots (encode_handle i g) ≡ none)
      × (spent slots (encode_handle i g) ≡ false)
      × (lookup_slot after (encode_handle i g) ≡ some (i, record s { database = some db }))
unfolding spent lookup_slot check_slot
claim-lookup db slots i g after h (len, good) =
    let (k, s, ik, at, gen, r, d, e) = claim-some db 0 slots i g after h in
    let now = record s { database = some db } in
    let at_i : get_elem? slots i ≡ some s = ground (arith, at, ik) in
    let bound : i < slot_count = omega (arith, get_elem?-bound slots i s at_i, len) in
    let (low, high, _) = All-get slots i s good at_i in
    let token : decode_handle (encode_handle i g) ≡ some (i, g) =
      decode-encode i g bound (omega (arith, gen, low)) (omega (arith, gen, high)) in
    let after_i : get_elem? after i ≡ some now =
      subst (λ l. get_elem? l i ≡ some now) e
        (ground (arith, ik, set-get_elem? slots k s now at)) in
    (
      s,
      ground (arith, token, at_i, d),
      ground (arith, token, at_i, r, gen),
      ground (arith, token, after_i, r, gen),
    )

-- A token that `openStaged` returns names the database that it has opened. It named none before,
-- and it is no token that was closed: those are spent.
pub open_staged-lookup :
    (outcome : AllocOutcome) (dummy : Bool) (esdb_open : Bytes → Result ℕ) (t : Table)
    → IsGoodTable t.slots
    → (open_staged outcome dummy esdb_open t).0 ≢ 0
    → (db : ℕ) × (i : ℕ) × (s : Slot) × (esdb_open t.staged_path ≡ got db)
      × (s.database ≡ some db)
      × (lookup_slot t.slots (open_staged outcome dummy esdb_open t).0 ≡ none)
      × (spent t.slots (open_staged outcome dummy esdb_open t).0 ≡ false)
      × (lookup_slot
            (open_staged outcome dummy esdb_open t).1.slots
            (open_staged outcome dummy esdb_open t).0
          ≡ some (i, s))
open_staged-lookup outcome dummy esdb_open t good some_token =
    elim (open_staged-outcome outcome dummy esdb_open t) [
      | inl (zeroed, _) ↦ absurd (some_token zeroed)
      | inr (db, i, g, slots, opened, q, token, e) ↦
          let (s, before, fresh, after) = claim-lookup db t.slots i g slots q good in
          (
            db,
            i,
            record s { database = some db },
            opened,
            refl,
            subst (λ n. lookup_slot t.slots n ≡ none) (sym token) before,
            subst (λ n. spent t.slots n ≡ false) (sym token) fresh,
            subst
                (λ n.
                  lookup_slot (open_staged outcome dummy esdb_open t).1.slots n
                  ≡ some (i, record s { database = some db }))
                (sym token)
                (subst
                  (λ l.
                    lookup_slot l (encode_handle i g) ≡ some (i, record s { database = some db }))
                  (sym e) after),
          )
    ]

-- A slot that changes is not the slot of a live token.
set-lookup :
    (slots : List Slot) (token i j : ℕ) (s t : Slot)
    → lookup_slot slots token ≡ some (j, t)
    → i ≢ j
    → lookup_slot (set slots i s) token ≡ some (j, t)
set-lookup slots token i j s t h ne =
    let (d, g, r, db) = lookup-some slots token j t h in
    some-lookup (set slots i s) token j t d (get_elem?-set_ne slots i j s ne ∙ g) r db

-- Opening a database disturbs no live token.
pub open_staged-lookup_other :
    (outcome : AllocOutcome) (dummy : Bool) (esdb_open : Bytes → Result ℕ) (t : Table) (token j : ℕ)
    (slot : Slot)
    → lookup_slot t.slots token ≡ some (j, slot)
    → lookup_slot (open_staged outcome dummy esdb_open t).1.slots token ≡ some (j, slot)
open_staged-lookup_other outcome dummy esdb_open t token j slot h =
    elim (open_staged-outcome outcome dummy esdb_open t) [
      | inl (_, e) ↦ subst (λ l. lookup_slot l token ≡ some (j, slot)) (sym e) h
      | inr (db, i, g, slots, opened, q, _, e) ↦
          let (k, s, ik, at, gen, r, d, made) = claim-some db 0 t.slots i g slots q in
          let (_, here, _, live) = lookup-some t.slots token j slot h in
          let apart : k ≢ j = λ kj. ground (arith, kj, at, here, live, d) in
          subst (λ l. lookup_slot l token ≡ some (j, slot)) (sym e)
            (subst (λ l. lookup_slot l token ≡ some (j, slot)) made
              (set-lookup t.slots token k j _ slot h apart))
    ]

-- Closing one token disturbs no other live token, also of the same slot's earlier or later use.
pub close-lookup_other :
    (closing : Option ℕ) (t : Table) (token j : ℕ) (slot : Slot)
    → lookup_slot t.slots token ≡ some (j, slot)
    → closing ≢ some token
    → lookup_slot (close closing t).1.slots token ≡ some (j, slot)
close-lookup_other closing t token j slot h ne = elim (close-outcome closing t) [
  | inl (_, e) ↦ subst (λ l. lookup_slot l token ≡ some (j, slot)) (sym e) h
  | inr (n, i, s, same, found, e) ↦
      let (dn, at, _, _) = lookup-some t.slots n i s found in
      let (dt, here, _, _) = lookup-some t.slots token j slot h in
      let apart : i ≢ j = λ ij.
        let g : s.generation ≡ slot.generation = ground (arith, ij, at, here) in
        let q : n ≡ token =
          sym (encode-decode n i s.generation dn)
          ∙ (ground (arith, ij, g) ∙ encode-decode token j slot.generation dt) in
        ne (same ∙ ap (λ m. some m) q) in
      subst (λ l. lookup_slot l token ≡ some (j, slot)) (sym e)
        (set-lookup t.slots token i j _ slot h apart)
]
