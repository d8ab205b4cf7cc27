-- ===== src/Store/Query.antt =====
-- The operations of src/esdb_store.cpp that read: get, exists, count, revision, retained_floor and
-- scan.
use esdb.Prelude.{
  ℕ, suc, Bool, true, false, Option, none, some, [], ◌∷◌, ltb, ◌==◌, ◌&&◌, ◌||◌, not, if◌then◌else◌,
  length,
}
use esdb.Bytes.{Bytes, CString}
use esdb.Errors.{AllocPlan, attempt, Status, Phase, Reply, cleared, success, store_fail}
use esdb.Value.{Value}
use esdb.Store.Records.{Records, MemoryRecord, find, upper_bound}
use esdb.Store.State.{MemoryStoreState, valid_key, scan_limit_max, clone_value}
use esdb.Store.Changes.{Answer, carry_on, stop, throws}

-- A miss is no error: the structure stays cleared.
abbrev miss : Reply (Option Value)
miss = record { status = Status.not_found; error = cleared; out = none }

unfoldable pub get : AllocPlan → CString → Bool → MemoryStoreState → Reply (Option Value)
unfolding store_fail clone_value
get plan key has_out s =
    if has_out && valid_key key
    then elim key [
      | none ↦ store_fail Status.invalid_argument Phase.store none
      | some k ↦ elim (find k s.records) [
        | none ↦ miss
        | some found ↦ clone_value plan found.value Phase.store
      ]
    ]
    else store_fail Status.invalid_argument Phase.store none

unfoldable pub exists : CString → Bool → MemoryStoreState → Reply Bool
unfolding store_fail
exists key has_out s =
    if has_out && valid_key key
    then elim key [
      | none ↦ store_fail Status.invalid_argument Phase.store false
      | some k ↦ elim (find k s.records) [ none ↦ success false | some found ↦ success true ]
    ]
    else store_fail Status.invalid_argument Phase.store false

unfoldable pub count : Bool → MemoryStoreState → Reply ℕ
unfolding store_fail
count has_out s =
    if has_out then success (length s.records) else store_fail Status.invalid_argument Phase.store 0

unfoldable pub revision : Bool → MemoryStoreState → Reply ℕ
unfolding store_fail
revision has_out s =
    if has_out then success s.revision else store_fail Status.invalid_argument Phase.store 0

unfoldable pub retained_floor : Bool → MemoryStoreState → Reply ℕ
unfolding store_fail
retained_floor has_out s =
    if has_out then success s.retained_floor else store_fail Status.invalid_argument Phase.store 0

-- The loop of `scan` under the lock.
unfoldable pub take_records : ℕ → ℕ → Records → Records
take_records limit taken [] = []
take_records limit taken (r ∷ rs) =
    let rest = r ∷ take_records limit (suc taken) rs in if ltb taken limit then rest else []

-- Where a scan starts: after a key, or at the first record.
unfoldable pub scan_start : CString → Records → Records
scan_start none m = m
scan_start (some k) m = upper_bound k m

-- Where the delivery of a snapshot ended.
pub record Visit (U : Type 0) : Type 0 where
  pub delivered : ℕ
  pub threw : Bool
  pub user_data : U

-- Out parameters of a scan: the count and the caller's data.
pub record Scanned (U : Type 0) : Type 0 where
  pub record_count : ℕ
  pub user_data : U

module _ {U : Type 0} where
  unfoldable pub visit : (Bytes × MemoryRecord → U → Answer × U) → Records → ℕ → U → Visit U
  visit callback [] n u = record { delivered = n; threw = false; user_data = u }
  visit callback (r ∷ rs) n u =
      let answer = callback r u in
      let rest = visit callback rs (suc n) answer.1 in
      elim answer.0 [
        | carry_on ↦ rest
        | stop ↦ record { delivered = suc n; threw = false; user_data = answer.1 }
        | throws ↦ record { delivered = suc n; threw = true; user_data = answer.1 }
      ]

  unfoldable pub report_scan : Visit U → Reply (Scanned U)
  unfolding store_fail
  report_scan v =
      if v.threw
      then store_fail Status.internal Phase.store
          (record { record_count = 0; user_data = v.user_data })
      else success (record { record_count = v.delivered; user_data = v.user_data })

  unfoldable pub scan :
      AllocPlan
      → MemoryStoreState
      → CString
      → ℕ
      → Option (Bytes × MemoryRecord → U → Answer × U)
      → U
      → Reply (Scanned U)
  unfolding store_fail visit report_scan take_records scan_start
  scan plan s after_key limit none u =
      store_fail Status.invalid_argument Phase.store (record { record_count = 0; user_data = u })
  scan plan s after_key limit (some callback) u =
      let untouched : Scanned U = record { record_count = 0; user_data = u } in
      let bound = if limit == 0 then scan_limit_max else limit in
      let key_ok : Bool = elim after_key [ none ↦ true | some k ↦ valid_key (some k) ] in
      if not key_ok || ltb scan_limit_max limit
      then store_fail Status.invalid_argument Phase.store untouched
      else attempt (plan 0) (λ st. store_fail st Phase.store untouched)
          (report_scan (visit callback (take_records bound 0 (scan_start after_key s.records)) 0 u))
