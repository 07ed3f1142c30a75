-- ===== src/Tests/Lines.antt =====
-- The line routines on a file of three lines.
use open_vi.Common.{ℕ, ◌≡◌, ◌≢◌, refl, true, false, some, [], ◌∷◌, arith, record_at}
use open_vi.State.{Text, Line, Ed, rows}
use open_vi.Line.{db_get, db_last, db_exist}
use open_vi.Line.Reads.{IsCoherent}
use open_vi.Line.Refine.{db_get-row, db_last-length, db_exist_iff}
use open_vi.Edit.{db_delete, db_append, db_insert, db_set}
use open_vi.Edit.Stored.{HasRows}
use open_vi.Edit.Rows.{db_delete-rows, db_append-rows, db_insert-rows, db_set-rows}
use open_vi.Edit.Caches.{db_delete-IsCoherent}
use open_vi.Line.Typing.{db_last_twice}
use open_vi.Edit.Faults.{db_insert_stale}
use open_vi.Tests.Editor.{env, services, file-Reliable, opened, opened-IsReady}

abbrev new : Line
new = b'x' ∷ []

db_get-row_example : (db_get true false 2 opened).0 ≡ some (b'b' ∷ b'b' ∷ [])
db_get-row_example = db_get-row file-Reliable true false 2 opened opened-IsReady

db_last-length_example : (db_last opened).0 ≡ some 3
db_last-length_example = db_last-length file-Reliable opened opened-IsReady

db_exist_iff_example : (db_exist 4 opened).0 ≡ false
db_exist_iff_example = db_exist_iff file-Reliable 4 opened opened-IsReady

db_delete-rows_example :
    HasRows opened (db_delete services 2 opened).1 ((b'a' ∷ []) ∷ (b'c' ∷ []) ∷ [])
db_delete-rows_example =
    db_delete-rows services file-Reliable 2 opened refl (omega arith) (omega arith)

db_append-rows_example :
    HasRows opened
      (db_append services true 3 new opened).1
      ((b'a' ∷ []) ∷ (b'b' ∷ b'b' ∷ []) ∷ (b'c' ∷ []) ∷ new ∷ [])
db_append-rows_example = db_append-rows services file-Reliable 3 opened refl true new (omega arith)

db_insert-rows_example :
    HasRows opened
      (db_insert services 1 new opened).1
      (new ∷ (b'a' ∷ []) ∷ (b'b' ∷ b'b' ∷ []) ∷ (b'c' ∷ []) ∷ [])
db_insert-rows_example =
    db_insert-rows services file-Reliable 1 opened refl new (omega arith) (omega arith)

db_set-rows_example :
    HasRows opened (db_set services 3 new opened).1 ((b'a' ∷ []) ∷ (b'b' ∷ b'b' ∷ []) ∷ new ∷ [])
db_set-rows_example =
    db_set-rows services file-Reliable 3 opened refl new (omega arith) (omega arith)

db_delete-IsCoherent_example : IsCoherent (db_delete services 1 opened).1
db_delete-IsCoherent_example =
    db_delete-IsCoherent services file-Reliable 1 opened refl opened-IsReady.coherent (omega arith)
      (omega arith)

-- Line 2 in the cache, in ex, with logging off.
abbrev undoing : Ed env
undoing = record opened {
  nolog = true;
  sc_ex = true;
  first_modify = false;
  c_nlines = 3;
  c_lno = 2;
  c_lp = b'b' ∷ b'b' ∷ [];
}

bb_is_not_a : record_at (rows undoing) 1 ≢ record_at (rows undoing) 2
bb_is_not_a z = grind (arith, z)

-- After an insertion before line 1, line 2 reads "bb", where the file has "a".
db_insert_stale_example :
    ((db_get true false 2 (db_insert services 1 new undoing).1).0 ≡ some (b'b' ∷ b'b' ∷ []))
    × (record_at (rows (db_insert services 1 new undoing).1) 2 ≡ some (b'a' ∷ []))
    × ((db_get true false 2 (db_insert services 1 new undoing).1).0
        ≢ record_at (rows (db_insert services 1 new undoing).1) 2)
db_insert_stale_example =
    db_insert_stale services 1 new undoing refl refl refl refl refl (λ z. cc) (omega arith) true 1
      file-Reliable (omega arith) refl (record { line = λ _ _. refl; count = λ _. refl })
      bb_is_not_a

-- Lines 2 and 3 being typed, in a file of three lines.
abbrev typed : ℕ → Text
typed n = record { lno = n; lb = new }

abbrev typing : Ed env
typing = record opened { tiq = typed 2 ∷ typed 3 ∷ [] }

db_last_twice_example :
    ((db_last typing).0 ≡ some 3)
    × ((db_last (db_last typing).1).0 ≡ some 4)
    × ((db_last typing).0 ≢ (db_last (db_last typing).1).0)
db_last_twice_example =
    db_last_twice typing (typed 2) (typed 3 ∷ []) 3 (b'c' ∷ []) refl refl refl refl
      (λ z. omega (arith, z)) (omega arith) (omega arith)
