-- ===== src/Store/Paging.antt =====
-- Paging through a Store by `esdb_store_scan` of src/esdb_store.cpp.
use esdb.Prelude.{
  ℕ, zero, suc, ◌+◌, ◌-◌, ◌≤◌, ◌<◌, Bool, true, false, none, some, [], ◌∷◌, ◌++◌, ltb, ◌==◌,
  if◌then◌else◌, ◌≡◌, refl, arith, append-nil, append_assoc, length, take, drop, take-append-drop,
  ◌∙◌, ap, Bool-cases, inl, inr, subst, sym,
}
use esdb.Bytes.{Bytes, CString, byte_less, byte_less_irrefl, byte_less_asym, byte_less_trans}
use esdb.Errors.{AllocPlan, granted, success}
use esdb.Store.Records.{Records, MemoryRecord, IsSorted, Above, upper_bound}
use esdb.Store.State.{MemoryStoreState, valid_key, scan_limit_max}
use esdb.Store.Invariant.{Inv}
use esdb.Store.Changes.{Answer, carry_on}
use esdb.Store.Query.{take_records, scan_start, visit, report_scan, scan}

abbrev pub collector : Bytes × MemoryRecord → Records → Answer × Records
collector r seen = (carry_on, seen ++ r ∷ [])

take-nil : (n : ℕ) → take {A = Bytes × MemoryRecord} n [] ≡ []
take-nil zero = refl
take-nil (suc n) = refl

take-cons :
    (n : ℕ) (r : Bytes × MemoryRecord) (m : Records) → 0 < n → take n (r ∷ m) ≡ r ∷ take (n - 1) m
take-cons zero r m h = absurd (omega arith)
take-cons (suc n) r m h = ap (λ i. r ∷ take i m) (omega arith)

take_records-take :
    (limit taken : ℕ) (m : Records) → take_records limit taken m ≡ take (limit - taken) m
unfolding take_records
take_records-take limit taken [] = sym (take-nil (limit - taken))
take_records-take limit taken (r ∷ m) = elim (Bool-cases (ltb taken limit)) [
  | inl room ↦
      let e : limit - suc taken ≡ limit - taken - 1 = omega arith in
      rw (room, take-cons (limit - taken) r m (ground (arith, room)), ← e)
        (ap (λ rest. r ∷ rest) (take_records-take limit (suc taken) m))
  | inr full ↦ let e : limit - taken ≡ 0 = ground (arith, full) in rw (full, e) refl
]

visit-collector :
    (m : Records) (n : ℕ) (seen : Records)
    → visit collector m n seen
      ≡ record { delivered = n + length m; threw = false; user_data = seen ++ m }
unfolding visit
visit-collector [] n seen = ground (arith, append-nil seen)
visit-collector (r ∷ m) n seen =
    visit-collector m (suc n) (seen ++ r ∷ []) ∙ ground (arith, append_assoc seen (r ∷ []) m)

-- A starting key, if there is one, is a valid key.
abbrev pub valid_start : CString → Bool
valid_start none = true
valid_start (some k) = valid_key (some k)

-- A scan shows the first records from its start, in the order of their keys, as many as the limit
-- admits (0 asks for the largest), and counts them.
pub scan-page :
    (plan : AllocPlan) (s : MemoryStoreState) (start : CString) (limit : ℕ)
    → plan 0 ≡ granted
    → valid_start start ≡ true
    → limit ≤ scan_limit_max
    → (let page =
          take (if limit == 0 then scan_limit_max else limit) (scan_start start s.records) in
        scan plan s start limit (some collector) []
        ≡ success (record { record_count = length page; user_data = page }))
unfolding scan report_scan
scan-page plan s none limit alloc ok le =
    let bound = if limit == 0 then scan_limit_max else limit in
    ground (
      arith,
      take_records-take bound 0 (scan_start none s.records),
      visit-collector (take_records bound 0 (scan_start none s.records)) 0 [],
    )
scan-page plan s (some k) limit alloc ok le =
    let bound = if limit == 0 then scan_limit_max else limit in
    ground (
      arith,
      take_records-take bound 0 (scan_start (some k) s.records),
      visit-collector (take_records bound 0 (scan_start (some k) s.records)) 0 [],
    )

upper_bound-Above : (k : Bytes) (m : Records) → Above k m → upper_bound k m ≡ m
unfolding upper_bound
upper_bound-Above k [] a = refl
upper_bound-Above k ((j, q) ∷ m) a = ground arith

Above-append :
    (i k : Bytes) (r : MemoryRecord) (front back : Records)
    → Above i (front ++ (k, r) ∷ back)
    → IsSorted (front ++ (k, r) ∷ back)
    → byte_less i k ≡ true
Above-append i k r [] back a s = a
Above-append i k r ((j, q) ∷ front) back a s =
    byte_less_trans i j k a (Above-append j k r front back s.0 s.1)

-- What follows a key in a sorted list is what comes after it in the order.
upper_bound-append :
    (k : Bytes) (r : MemoryRecord) (front back : Records)
    → IsSorted (front ++ (k, r) ∷ back)
    → upper_bound k (front ++ (k, r) ∷ back) ≡ back
unfolding upper_bound
upper_bound-append k r [] back s = ground (arith, byte_less_irrefl k, upper_bound-Above k back s.0)
upper_bound-append k r ((j, q) ∷ front) back s = ground (
  arith,
  byte_less_asym j k (Above-append j k r front back s.0 s.1),
  upper_bound-append k r front back s.1,
)

upper_bound-suffix :
    (k : Bytes) (m : Records) → (before : Records) × (m ≡ before ++ upper_bound k m)
unfolding upper_bound
upper_bound-suffix k [] = ([], refl)
upper_bound-suffix k ((j, q) ∷ m) = elim (Bool-cases (byte_less k j)) [
  | inl later ↦ ([], rw later refl)
  | inr not_later ↦
      let (before, e) = upper_bound-suffix k m in
      ((j, q) ∷ before, rw not_later (ap (λ rest. (j, q) ∷ rest) e))
]

scan_start-suffix :
    (start : CString) (m : Records) → (before : Records) × (m ≡ before ++ scan_start start m)
unfolding scan_start
scan_start-suffix none m = ([], refl)
scan_start-suffix (some k) m = upper_bound-suffix k m

upper_bound-within :
    (m before front back : Records) (k : Bytes) (r : MemoryRecord)
    → IsSorted m
    → m ≡ before ++ (front ++ (k, r) ∷ back)
    → upper_bound k m ≡ back
upper_bound-within m before front back k r sorted e =
    let whole : m ≡ (before ++ front) ++ (k, r) ∷ back =
      e ∙ sym (append_assoc before front ((k, r) ∷ back)) in
    ap (upper_bound k) whole
    ∙ upper_bound-append k r (before ++ front) back (subst IsSorted whole sorted)

-- Going on after the last key of a page loses no record and repeats none: the page, and then all
-- records after its last key, are all the records from the page's start.
pub scan-next_page :
    (plan : AllocPlan) (s : MemoryStoreState) (start : CString) (limit : ℕ) (front : Records)
    (k : Bytes) (r : MemoryRecord)
    → Inv s
    → plan 0 ≡ granted
    → valid_start start ≡ true
    → limit ≤ scan_limit_max
    → (scan plan s start limit (some collector) []).out.user_data ≡ front ++ (k, r) ∷ []
    → (scan plan s start limit (some collector) []).out.user_data ++ scan_start (some k) s.records
      ≡ scan_start start s.records
scan-next_page plan s start limit front k r inv alloc ok le e =
    let bound = if limit == 0 then scan_limit_max else limit in
    let rest = scan_start start s.records in
    let back = drop bound rest in
    let page = (scan plan s start limit (some collector) []).out.user_data in
    let taken : page ≡ take bound rest =
      ap (λ p. p.out.user_data) (scan-page plan s start limit alloc ok le) in
    let split : page ++ back ≡ rest = ap (λ p. p ++ back) taken ∙ take-append-drop bound rest in
    let (before, whole) = scan_start-suffix start s.records in
    let rest_split : rest ≡ front ++ (k, r) ∷ back =
      sym split ∙ ap (λ p. p ++ back) e ∙ append_assoc front ((k, r) ∷ []) back in
    let later : upper_bound k s.records ≡ back =
      upper_bound-within s.records before front back k r inv.sorted
        (whole ∙ ap (λ t. before ++ t) rest_split) in
    unfold scan_start in ap (λ t. page ++ t) later ∙ split
