-- ===== src/Roll/Changes.antt =====
-- Any sequence of line edits as one change, from the cursor record that starts it.
use open_vi.Common.{
  ℕ, suc, ◌≤◌, true, ◌≡◌, sym, ap, ◌∙◌, List, [], ◌∷◌, arith, length, insert_record, erase_record,
  store_record,
}
use mathlib.Core.Path.{subst}
use open_vi.Recno.{Reliable}
use open_vi.State.{Line, Mark, Env, Ed, rows}
use open_vi.Line.Reads.{IsCoherent}
use open_vi.Edit.{Services, db_delete, db_append, db_insert, db_set}
use open_vi.Edit.Stored.{HasRows}
use open_vi.Edit.Rows.{db_delete-rows, db_append-rows, db_insert-rows, db_set-rows}
use open_vi.Edit.Caches.{db_delete-IsCoherent, db_append-IsCoherent, db_set-IsCoherent}
use open_vi.Roll.Edits.{
  Ongoing, Moved, append-Moved, insert-Moved, delete-Moved, set-Moved, db_insert-IsCoherent,
}

-- One line edit.
pub data Change : Type 0 where
  append insert set : ℕ → Line → Change
  delete : ℕ → Change

-- What an edit does to a list of lines, and the lines that it may name.
abbrev pub edit : Change → List Line → List Line
edit (append n p) xs = insert_record xs (suc n) p
edit (insert n p) xs = insert_record xs n p
edit (set n p) xs = store_record xs n p
edit (delete n) xs = erase_record xs n

abbrev pub InRange : Change → List Line → Type 0
InRange (append n p) xs = n ≤ length xs
InRange (insert n p) xs = (1 ≤ n) × (n ≤ suc (length xs))
InRange (set n p) xs = (1 ≤ n) × (n ≤ length xs)
InRange (delete n) xs = (1 ≤ n) × (n ≤ length xs)

abbrev pub edit_all : List Change → List Line → List Line
edit_all [] xs = xs
edit_all (c ∷ cs) xs = edit_all cs (edit c xs)

abbrev pub AllInRange : List Change → List Line → Type 0
AllInRange [] xs = Unit
AllInRange (c ∷ cs) xs = InRange c xs × AllInRange cs (edit c xs)

module _ {env : Env} (s : Services env) where
  -- The edit made by its routine.
  abbrev pub make : Change → Ed env → Ed env
  make (append n p) e = (db_append s true n p e).1
  make (insert n p) e = (db_insert s n p e).1
  make (set n p) e = (db_set s n p e).1
  make (delete n) e = (db_delete s n e).1

  abbrev pub make_all : List Change → Ed env → Ed env
  make_all [] e = e
  make_all (c ∷ cs) e = make_all cs (make c e)

  module _ (fok : Reliable env.file) where
    make-rows :
        (c : Change) (e : Ed env)
        → e.has_file ≡ true
        → InRange c (rows e)
        → HasRows e (make c e) (edit c (rows e))
    make-rows (append n p) e h b = db_append-rows s fok n e h true p b
    make-rows (insert n p) e h (a, b) = db_insert-rows s fok n e h p a b
    make-rows (set n p) e h (a, b) = db_set-rows s fok n e h p a (omega arith)
    make-rows (delete n) e h (a, b) = db_delete-rows s fok n e h a b

    module _ (lok : Reliable env.logs) (base : List Line) (c0 : ℕ) (m : Mark) where
      make-Moved :
          (c : Change) (e : Ed env)
          → Ongoing s fok lok base c0 m e
          → InRange c (rows e)
          → Moved s fok lok base c0 m (rows (make c e)) (make c e)
      make-Moved (append n p) e o b = append-Moved s fok lok base c0 m true n p e o b
      make-Moved (insert n p) e o (a, b) = insert-Moved s fok lok base c0 m n p e o a b
      make-Moved (set n p) e o (a, b) = set-Moved s fok lok base c0 m n p e o a b
      make-Moved (delete n) e o (a, b) = delete-Moved s fok lok base c0 m n e o a b

      make-IsCoherent :
          (c : Change) (e : Ed env)
          → Ongoing s fok lok base c0 m e
          → InRange c (rows e)
          → IsCoherent (make c e)
      make-IsCoherent (append n p) e o b =
          db_append-IsCoherent s fok n e o.has_file o.coherent true p b
      make-IsCoherent (insert n p) e o (a, b) = db_insert-IsCoherent s fok lok base c0 m n p e o a b
      make-IsCoherent (set n p) e o (a, b) = db_set-IsCoherent s fok n e o.has_file o.coherent p a b
      make-IsCoherent (delete n) e o (a, b) =
          db_delete-IsCoherent s fok n e o.has_file o.coherent a b

      make-Ongoing :
          (c : Change) (e : Ed env)
          → Ongoing s fok lok base c0 m e
          → InRange c (rows e)
          → Ongoing s fok lok base c0 m (make c e)
      make-Ongoing c e o r =
          let (st, ss, d) = make-Moved c e o r in
          let w = make-rows c e o.has_file r in
          record {
            has_file = w.has_file ∙ o.has_file;
            tiq = w.tiq ∙ o.tiq;
            coherent = make-IsCoherent c e o r;
            described = (st ∷ ss, d);
          }

      -- After a first edit and any others the change is still under way, and not empty.
      pub make_all-Moved :
          (c : Change) (cs : List Change) (e : Ed env)
          → Ongoing s fok lok base c0 m e
          → AllInRange (c ∷ cs) (rows e)
          → Ongoing s fok lok base c0 m (make_all (c ∷ cs) e)
            × Moved s fok lok base c0 m (rows (make_all (c ∷ cs) e)) (make_all (c ∷ cs) e)
            × (rows (make_all (c ∷ cs) e) ≡ edit_all (c ∷ cs) (rows e))
      make_all-Moved c [] e o (r, rs) =
          (make-Ongoing c e o r, make-Moved c e o r, (make-rows c e o.has_file r).lines)
      make_all-Moved c (d ∷ cs) e o (r, rs) =
          let xs = (make-rows c e o.has_file r).lines in
          let (p, q, t) =
            make_all-Moved d cs (make c e) (make-Ongoing c e o r)
              (subst (AllInRange (d ∷ cs)) (sym xs) rs) in
          (p, q, t ∙ ap (edit_all (d ∷ cs)) xs)
