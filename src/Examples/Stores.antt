-- ===== src/Examples/Stores.antt =====
-- The theorems on the Stores of src/esdb_store.cpp at a small Store.
use esdb.Prelude.{
  ◌+◌, ◌-◌, ◌≤◌, ◌<◌, ◌≡◌, ◌≢◌, ◌⊎◌, refl, arith, true, false, none, some, List, [], ◌∷◌, ◌++◌,
  length, take, if◌then◌else◌, min, map,
}
use esdb.Bytes.{Bytes, byte_less}
use esdb.Errors.{AllocPlan, all_granted, Status, success, Reply}
use esdb.Utf8.{
  valid_utf8, utf8_loop, next_char, lead, continuation, acceptable, valid_c_string, bounded_length,
}
use esdb.Value.{Value, int32}
use esdb.Store.Records.{MemoryRecord, upsert, erase, find, same_key, upper_bound}
use esdb.Store.State.{
  MemoryStoreState, new_store, valid_key, valid_value_type, retain_change, trim, clone_value,
  revision_max,
}
use esdb.Store.Mutate.{
  put, put_locked, publish, patch, PatchEntry, entries, delete, delete_locked, clear,
}
use esdb.Store.Invariant.{Inv, new_store-Inv, put-Inv}
use esdb.Store.Outcomes.{
  Refused, PutArguments, write, remove, wipe, put-outcome, delete-outcome, clear-outcome,
}
use esdb.Store.Patching.{put_each, patch-eq-puts}
use esdb.Store.Changes.{
  StoreChange, Progress, collect, deliver, report, shown, changes_since, Subscription, poll,
}
use esdb.Store.Delivery.{poll-cursor}
use esdb.Store.Record.{recorder, between, changes_since-recorder}
use esdb.Store.Query.{get, scan, scan_start, report_scan, visit, take_records}
use esdb.Store.Paging.{collector, scan-page, scan-next_page}
use esdb.Store.Lookup.{lookup, get-put}
use esdb.Store.History.{Operation, puts, deletes, run, step, run-Inv, Reach, run-Reach}
use esdb.Store.Notified.{unmentioned, changes_since-lookup}

abbrev one : Value
one = record { type = int32; payload = 1 ∷ 0 ∷ 0 ∷ 0 ∷ [] }

abbrev two : Value
two = record { type = int32; payload = 2 ∷ 0 ∷ 0 ∷ 0 ∷ [] }

-- The keys "a" and "b".
abbrev key_a : Bytes
key_a = 97 ∷ []

abbrev key_b : Bytes
key_b = 98 ∷ []

abbrev empty : MemoryStoreState
empty = new_store (115 ∷ [])

abbrev with_a : MemoryStoreState
with_a = (put all_granted (some key_a) (some one) empty).1

abbrev with_both : MemoryStoreState
with_both = (put all_granted (some key_b) (some two) with_a).1

with_a-Inv : Inv with_a
with_a-Inv = put-Inv all_granted (some key_a) (some one) empty (new_store-Inv (115 ∷ []))

with_both-Inv : Inv with_both
with_both-Inv = put-Inv all_granted (some key_b) (some two) with_a with_a-Inv

put-outcome_example :
    Refused (put all_granted (some key_a) (some one) empty) empty
    ⊎ ((k : Bytes) × (v : Value) × PutArguments (some key_a) (some one) k v
        × (empty.revision < revision_max)
        × (put all_granted (some key_a) (some one) empty
            ≡ (success (empty.revision + 1), write k v empty)))
put-outcome_example = put-outcome all_granted (some key_a) (some one) empty

put_b-status : (put all_granted (some key_b) (some two) with_a).0.status ≡ Status.ok
unfolding valid_utf8 utf8_loop next_char lead continuation acceptable valid_c_string bounded_length
    valid_key valid_value_type new_store put put_locked publish retain_change trim upsert erase find
    same_key clone_value delete delete_locked clear byte_less
put_b-status = refl

key_a-valid : valid_key (some key_a) ≡ true
unfolding valid_utf8 utf8_loop next_char lead continuation acceptable valid_c_string bounded_length
    valid_key valid_value_type new_store put put_locked publish retain_change trim upsert erase find
    same_key clone_value delete delete_locked clear byte_less
key_a-valid = refl

with_a-revision : with_a.revision ≡ 1
unfolding valid_utf8 utf8_loop next_char lead continuation acceptable valid_c_string bounded_length
    valid_key valid_value_type new_store put put_locked publish retain_change trim upsert erase find
    same_key clone_value delete delete_locked clear byte_less
with_a-revision = refl

with_both-revision : with_both.revision ≡ 2
unfolding valid_utf8 utf8_loop next_char lead continuation acceptable valid_c_string bounded_length
    valid_key valid_value_type new_store put put_locked publish retain_change trim upsert erase find
    same_key clone_value delete delete_locked clear byte_less
with_both-revision = refl

with_both-floor : with_both.retained_floor ≡ 0
unfolding valid_utf8 utf8_loop next_char lead continuation acceptable valid_c_string bounded_length
    valid_key valid_value_type new_store put put_locked publish retain_change trim upsert erase find
    same_key clone_value delete delete_locked clear byte_less
with_both-floor = refl

-- The put of the other key.
abbrev put_b : List (AllocPlan × Operation)
put_b = (all_granted, puts (some key_b) (some two)) ∷ []

abbrev b_answer : Reply (Progress (List StoreChange))
b_answer = changes_since all_granted (run with_a put_b) with_a.revision 0 (some recorder) []

b_change-answer :
    ((run with_a put_b).retained_floor ≡ 0)
    × (b_answer.out.last_revision ≡ (run with_a put_b).revision)
    × (unmentioned key_a b_answer.out.user_data ≡ true)
unfolding valid_utf8 utf8_loop next_char lead continuation acceptable valid_c_string bounded_length
    valid_key valid_value_type new_store put put_locked publish retain_change trim upsert erase find
    same_key clone_value delete delete_locked clear byte_less run step changes_since collect deliver
    report shown unmentioned
b_change-answer = (refl, refl, refl)

first_page :
    (scan all_granted with_both none 1 (some collector) []).out.user_data
    ≡ [] ++ (key_a, record { value = one; revision = 1 }) ∷ []
unfolding valid_utf8 utf8_loop next_char lead continuation acceptable valid_c_string bounded_length
    valid_key valid_value_type new_store put put_locked publish retain_change trim upsert erase find
    same_key clone_value delete delete_locked clear byte_less scan report_scan visit take_records
    scan_start upper_bound
first_page = refl

get-put_example : get all_granted (some key_a) true with_both ≡ (
    if same_key key_b key_a then success (some two) else get all_granted (some key_a) true with_a)
get-put_example = get-put all_granted key_b key_a two with_a with_a-Inv put_b-status key_a-valid

delete-outcome_example :
    Refused (delete all_granted (some key_a) with_both) with_both
    ⊎ ((find key_a with_both.records ≡ none)
        × (delete all_granted (some key_a) with_both
            ≡ (success (false, with_both.revision), with_both)))
    ⊎ ((q : MemoryRecord) × (find key_a with_both.records ≡ some q)
        × (valid_key (some key_a) ≡ true)
        × (with_both.revision < revision_max)
        × (delete all_granted (some key_a) with_both
            ≡ (success (true, with_both.revision + 1), remove key_a with_both)))
delete-outcome_example = delete-outcome all_granted key_a with_both

clear-outcome_example :
    Refused (clear all_granted with_both) with_both
    ⊎ ((with_both.records ≡ [])
        × (clear all_granted with_both ≡ (success (false, with_both.revision), with_both)))
    ⊎ ((with_both.records ≢ [])
        × (with_both.revision < revision_max)
        × (clear all_granted with_both ≡ (success (true, with_both.revision + 1), wipe with_both)))
clear-outcome_example = clear-outcome all_granted with_both

abbrev two_entries : List PatchEntry
two_entries =
    record { key = some key_a; value = some two }
    ∷ record { key = some key_b; value = some one }
    ∷ []

patch-eq-puts_example :
    Refused (patch all_granted (entries two_entries) with_a) with_a
    ⊎ (patch all_granted (entries two_entries) with_a
        ≡ (success (with_a.revision + length two_entries), put_each two_entries with_a))
patch-eq-puts_example = patch-eq-puts all_granted two_entries with_a with_a-Inv.in_range

scan-page_example :
    scan all_granted with_both none 1 (some collector) []
    ≡ success (record {
      record_count = length (take 1 (scan_start none with_both.records));
      user_data = take 1 (scan_start none with_both.records);
    })
scan-page_example = scan-page all_granted with_both none 1 refl refl (omega arith)

scan-next_page_example :
    (scan all_granted with_both none 1 (some collector) []).out.user_data
      ++ scan_start (some key_a) with_both.records
    ≡ scan_start none with_both.records
scan-next_page_example =
    scan-next_page all_granted with_both none 1 [] key_a (record { value = one; revision = 1 })
      with_both-Inv refl refl (omega arith) first_page

run-Inv_example : Inv (
    run with_a
      ((all_granted, puts (some key_b) (some two)) ∷ (all_granted, deletes (some key_a)) ∷ []))
run-Inv_example =
    run-Inv with_a
      ((all_granted, puts (some key_b) (some two)) ∷ (all_granted, deletes (some key_a)) ∷ [])
      with_a-Inv

run-Reach_example : Reach with_a (run with_a ((all_granted, puts (some key_b) (some two)) ∷ []))
run-Reach_example = run-Reach with_a ((all_granted, puts (some key_b) (some two)) ∷ []) with_a-Inv

changes_since-lookup_example : lookup (run with_a put_b) key_a ≡ lookup with_a key_a
changes_since-lookup_example =
    changes_since-lookup all_granted key_a with_a put_b 0 with_a-Inv refl (omega arith)
      (omega (arith, b_change-answer.0)) b_change-answer.1 b_change-answer.2

changes_since-recorder_example :
    changes_since all_granted with_both 1 5 (some recorder) []
    ≡ success (record {
      last_revision = min with_both.revision (1 + 5);
      change_count = min (with_both.revision - 1) 5;
      user_data = map shown (between 1 (1 + 5) with_both.changes);
    })
changes_since-recorder_example =
    changes_since-recorder all_granted with_both 1 5 with_both-Inv refl
      (omega (arith, with_both-floor)) (omega (arith, with_both-revision)) (omega arith)

abbrev cursor_1 : Subscription
cursor_1 = record { cursor = 1; polling = false }

abbrev polled : Reply (Progress (List StoreChange)) × Subscription
polled = poll all_granted with_both cursor_1 5 (some recorder) []

poll-cursor_example :
    ((polled.0.status ≡ Status.ok)
      × (polled.1.cursor ≡ 1 + polled.0.out.change_count)
      × (polled.1.cursor ≤ with_both.revision)
      × (with_both.retained_floor ≤ 1))
    ⊎ ((polled.0.status ≢ Status.ok) × (polled.1 ≡ cursor_1))
poll-cursor_example = poll-cursor all_granted with_both cursor_1 5 (some recorder) [] with_both-Inv
