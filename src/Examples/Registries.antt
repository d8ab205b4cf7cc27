-- ===== src/Examples/Registries.antt =====
-- The theorems on the registry of src/esdb_store.cpp at a small registry.
use esdb.Prelude.{◌+◌, ◌<◌, ◌≡◌, ◌⊎◌, refl, arith, true, some, List, [], ◌∷◌, length, get_elem?}
use esdb.Bytes.{Bytes, byte_less}
use esdb.Errors.{all_granted, Status}
use esdb.Utf8.{
  valid_utf8, utf8_loop, next_char, lead, continuation, acceptable, valid_c_string, bounded_length,
}
use esdb.Store.Records.{same_key}
use esdb.Store.State.{MemoryStoreState, new_store, valid_name}
use esdb.Store.Registry.{
  World, empty_world, open_store, open_found, found_or_new, add_handle, modify, count_handle,
  find_store, destroy_store, erase_store, counter_mod,
}
use esdb.Store.Counting.{IsCounted, live, targets, destroy-unused}
use esdb.Store.Lifecycle.{
  LifeCall, opens, closes, destroys, live_on, live_through, live_through-IsCounted,
  empty_world-IsCounted,
}

-- The name "s".
abbrev name_s : Bytes
name_s = 115 ∷ []

abbrev calls : List LifeCall
calls = opens all_granted (some name_s) true ∷ destroys (some name_s) ∷ closes (some 0) ∷ []

live_through-IsCounted_example : IsCounted (live_through empty_world calls)
live_through-IsCounted_example = live_through-IsCounted empty_world calls empty_world-IsCounted

abbrev one_open : World
one_open = (open_store all_granted (some name_s) true empty_world).1

abbrev counted_once : MemoryStoreState
counted_once = record (new_store name_s) { handle_count = 1 }

one_open-IsCounted : IsCounted one_open
unfolding live_through live_on
one_open-IsCounted =
    live_through-IsCounted empty_world (opens all_granted (some name_s) true ∷ [])
      empty_world-IsCounted

name_s-valid : valid_name (some name_s) ≡ true
unfolding valid_name valid_utf8 utf8_loop next_char lead continuation acceptable valid_c_string
    bounded_length
name_s-valid = refl

s_found : find_store name_s one_open.stores ≡ some 0
unfolding open_store open_found found_or_new add_handle modify count_handle find_store same_key
    byte_less new_store valid_name valid_utf8 utf8_loop next_char lead continuation acceptable
    valid_c_string bounded_length
s_found = refl

s_stored : get_elem? one_open.heap 0 ≡ some counted_once
unfolding open_store open_found found_or_new add_handle modify count_handle find_store same_key
    byte_less new_store valid_name valid_utf8 utf8_loop next_char lead continuation acceptable
    valid_c_string bounded_length
s_stored = refl

one_handle : length one_open.handles < counter_mod
unfolding open_store open_found found_or_new add_handle modify count_handle find_store same_key
    byte_less new_store valid_name valid_utf8 utf8_loop next_char lead continuation acceptable
    valid_c_string bounded_length
one_handle = omega arith

no_subscription : length one_open.subscriptions < counter_mod
unfolding open_store open_found found_or_new add_handle modify count_handle find_store same_key
    byte_less new_store valid_name valid_utf8 utf8_loop next_char lead continuation acceptable
    valid_c_string bounded_length
no_subscription = omega arith

destroy-unused_example :
    (((destroy_store (some name_s) one_open).0.status ≡ Status.busy)
      × (0 < live 0 one_open.handles + live 0 (targets one_open.subscriptions))
      × ((destroy_store (some name_s) one_open).1 ≡ one_open))
    ⊎ (((destroy_store (some name_s) one_open).0.status ≡ Status.ok)
        × (live 0 one_open.handles ≡ 0)
        × (live 0 (targets one_open.subscriptions) ≡ 0)
        × ((destroy_store (some name_s) one_open).1.stores ≡ erase_store name_s one_open.stores))
destroy-unused_example =
    destroy-unused name_s 0 counted_once one_open one_open-IsCounted one_handle no_subscription
      name_s-valid s_found s_stored
