-- ===== src/SqliteCode.antt =====
-- The primary result codes of SQLite's interface that the sources name (`SQLITE_MISUSE` and the
-- like).
use esdb.Prelude.{ℕ}

abbrev pub ok : ℕ
ok = 0

abbrev pub error : ℕ
error = 1

abbrev pub perm : ℕ
perm = 3

abbrev pub abort : ℕ
abort = 4

abbrev pub busy : ℕ
busy = 5

abbrev pub locked : ℕ
locked = 6

abbrev pub nomem : ℕ
nomem = 7

abbrev pub readonly : ℕ
readonly = 8

abbrev pub ioerr : ℕ
ioerr = 10

abbrev pub corrupt : ℕ
corrupt = 11

abbrev pub notfound : ℕ
notfound = 12

abbrev pub full : ℕ
full = 13

abbrev pub cantopen : ℕ
cantopen = 14

abbrev pub constraint : ℕ
constraint = 19

abbrev pub mismatch : ℕ
mismatch = 20

abbrev pub misuse : ℕ
misuse = 21

abbrev pub range : ℕ
range = 25

abbrev pub notadb : ℕ
notadb = 26

abbrev pub row : ℕ
row = 100

abbrev pub done : ℕ
done = 101
