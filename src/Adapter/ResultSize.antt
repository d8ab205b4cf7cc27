-- ===== src/Adapter/ResultSize.antt =====
-- The size of the reply of `querySql` in adapters/externalobject/esdb_externalobject.cpp, with its
-- header.
use esdb.Prelude.{
  ℕ, zero, suc, ◌+◌, ◌*◌, ◌/◌, ◌%◌, ◌≤◌, ◌<◌, ◌≡◌, arith, true, ◌||◌, Option, List, [], ◌∷◌, ◌++◌,
  ltb, if◌then◌else◌, length, Bool-cases, inl, inr, length-append, if-cases,
}
use esdb.Bytes.{Bytes, CString}
use esdb.ObjectStore.RevisionText.{decimal, digits}
use esdb.Adapter.Decimal.{u64_decimal}
use esdb.Adapter.Wire.{FloatText}
use esdb.Adapter.ResultWire.{QueryWireContext, started, primed, final_names, reply_header, reply}
use esdb.Adapter.ResultBounds.{IsWithin, QueryRow, append_all, append_all-IsWithin, primed-IsWithin}

ten : ℕ → ℕ
ten zero = 1
ten (suc k) = 10 * ten k

length-digits :
    (fuel n k : ℕ) (after : Bytes)
    → n < ten (suc k)
    → length (digits fuel n after) ≤ suc k + length after
unfolding digits ten
length-digits zero n k after h = omega arith
length-digits (suc fuel) n zero after h =
    let e : ltb n 10 ≡ true = ground arith in rw e (omega arith)
length-digits (suc fuel) n (suc k) after h = elim (Bool-cases (ltb n 10)) [
  | inl e ↦ rw e (omega arith)
  | inr e ↦
      let ih = length-digits fuel (n / 10) k ((48 + n % 10) ∷ after) (omega arith) in
      rw e (omega (arith, ih))
]

length-decimal32 : (n : ℕ) → n < 4294967296 → length (decimal n) ≤ 10
unfolding decimal ten
length-decimal32 n h = length-digits n n 9 [] (omega arith)

length-decimal64 : (n : ℕ) → n < 18446744073709551616 → length (u64_decimal n) ≤ 20
unfolding u64_decimal decimal ten
length-decimal64 n h = length-digits n n 19 [] (omega arith)

-- A field and the colon after it.
length-field :
    (a b : Bytes) (m n : ℕ) → length a ≤ m → length b ≤ n → length (a ++ 58 ∷ b) ≤ m + suc n
length-field a b m n h k = let size = length-append a (58 ∷ b) in rw size (omega arith)

length-header :
    (columns rows total changes : Bytes) (cut : ℕ)
    → length columns ≤ 10
    → length rows ≤ 10
    → length total ≤ 20
    → length changes ≤ 20
    → length
        ((81 ∷ 49 ∷ 58 ∷ columns) ++ 58 ∷ rows ++ 58 ∷ total ++ 58 ∷ changes ++ 58 ∷ cut ∷ 10 ∷ [])
      ≤ 128
length-header columns rows total changes cut h k p q =
    let first : Bytes = 81 ∷ 49 ∷ 58 ∷ columns in
    let second : Bytes = first ++ 58 ∷ rows in
    let third : Bytes = second ++ 58 ∷ total in
    let size_b = length-field first rows 13 10 (omega arith) k in
    let size_d = length-field second total 24 20 size_b p in
    let size_e = length-field third changes 45 20 size_d q in
    let size = length-field (third ++ 58 ∷ changes) (cut ∷ 10 ∷ []) 66 2 size_e (omega arith) in
    omega (arith, size)

length-three :
    (header names rows : Bytes)
    → length header ≤ 128
    → length names + length rows + 128 ≤ 16777216
    → length (header ++ names ++ rows) ≤ 16777216
length-three header names rows h k =
    let outer = length-append (header ++ names) rows in
    let inner = length-append header names in omega (arith, outer, inner)

length-reply_header :
    (total_rows changes : ℕ) (c : QueryWireContext)
    → c.column_count < 4294967296
    → c.returned_rows < 4294967296
    → total_rows < 18446744073709551616
    → changes < 18446744073709551616
    → length (reply_header total_rows changes c) ≤ 128
unfolding reply_header
length-reply_header total_rows changes c columns rows total changed =
    let cut = c.truncated || ltb c.returned_rows total_rows in
    length-header (decimal c.column_count) (decimal c.returned_rows) (u64_decimal total_rows)
      (u64_decimal changes) (if cut then 49 else 48) (length-decimal32 c.column_count columns)
      (length-decimal32 c.returned_rows rows) (length-decimal64 total_rows total)
      (length-decimal64 changes changed)

final_names-IsWithin :
    (max_rows : ℕ) (c : QueryWireContext)
    → IsWithin max_rows c
    → (length (final_names c).names + length (final_names c).rows + 128 ≤ 16777216)
      × ((final_names c).returned_rows ≤ max_rows)
unfolding final_names IsWithin
final_names-IsWithin max_rows c (same, few, short, before) =
    if-cases Kept c.names_ready _ _ (λ ready. (short, few))
      (λ unready.
        let empty = before unready in let no_row = empty.1 in (omega (arith, no_row), few))
  where
    Kept : QueryWireContext → Type 0
    Kept k = (length k.names + length k.rows + 128 ≤ 16777216) × (k.returned_rows ≤ max_rows)

-- The context after any rows.
abbrev pub queried : FloatText → ℕ → Option (List CString) → List QueryRow → QueryWireContext
queried io max_rows names rows = final_names (append_all io rows (primed names (started max_rows)))

queried-IsWithin :
    (io : FloatText) (max_rows : ℕ) (names : Option (List CString)) (rows : List QueryRow)
    → (length (queried io max_rows names rows).names
          + length (queried io max_rows names rows).rows
          + 128
        ≤ 16777216)
      × ((queried io max_rows names rows).returned_rows ≤ max_rows)
queried-IsWithin io max_rows names rows =
    final_names-IsWithin max_rows (append_all io rows (primed names (started max_rows))) (
      append_all-IsWithin io rows max_rows (primed names (started max_rows))
        (primed-IsWithin max_rows names))

-- Whatever rows the query shows, and whichever allocations fail, the reply has no more rows than
-- were asked for and no more than 16 MiB, its header included.
pub reply-bounded :
    (io : FloatText) (max_rows total_rows changes : ℕ) (names : Option (List CString))
    (rows : List QueryRow)
    → max_rows < 4294967296
    → total_rows < 18446744073709551616
    → changes < 18446744073709551616
    → (queried io max_rows names rows).column_count < 4294967296
    → (length (reply total_rows changes (append_all io rows (primed names (started max_rows))))
        ≤ 16777216)
      × ((queried io max_rows names rows).returned_rows ≤ max_rows)
unfolding reply
reply-bounded io max_rows total_rows changes names rows most total changed columns =
    let c : QueryWireContext = queried io max_rows names rows in
    let within = queried-IsWithin io max_rows names rows in
    let few = within.1 in
    let short = within.0 in
    let header =
      length-reply_header total_rows changes c columns (omega (arith, few)) total changed in
    (length-three (reply_header total_rows changes c) c.names c.rows header short, few)
