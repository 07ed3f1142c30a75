-- ===== src/Marks/Places.antt =====
-- What mark_set and mark_get of common/mark.c do, as a dictionary from names to places.
use open_vi.Common.{
  ℕ, ◌≡◌, refl, sym, ap, ◌∙◌, Bool, true, false, ◌&&◌, ◌||◌, Option, none, some, List, arith,
  length, leb, ◌==◌, if◌then◌else◌,
}
use open_vi.Recno.{Reliable}
use open_vi.State.{Line, Mark, LMark, Env, Ed, rows, report, mark_not_set}
use open_vi.Line.Refine.{IsReady, db_exist_iff}
use open_vi.Marks.{abs_key, mark_find, named, mark_set, mark_place, mark_get}
use open_vi.Marks.Order.{
  IsSorted, upsert, find_name, resolve, set_mark-mark_find, named-mark_find, upsert-IsSorted,
  find_name-upsert,
}

-- The place that a mark stands for: a mark on a deleted line, or on a line that is not there, is
-- none, but line 1, column 0 always is one.
abbrev pub place : List Line → Option LMark → Option Mark
place xs none = none
place xs (some m) =
    if m.deleted
    then none
    else if (m.lno == 1 && m.cno == 0) || (leb 1 m.lno && leb m.lno (length xs))
    then some (record { lno = m.lno; cno = m.cno })
    else none

module _ {env : Env} where
  mark_set-upsert :
      (k : ℕ) (v : Mark) (u : Bool) (e : Ed env)
      → (mark_set k v u e).marks ≡ upsert e.marks (abs_key k) v u
  unfolding mark_set
  mark_set-upsert k v u e = set_mark-mark_find e.marks (abs_key k) v u

  -- Setting a mark, by the user or by an undo, keeps the list sorted by name.
  pub mark_set-IsSorted :
      (k : ℕ) (v : Mark) (u : Bool) (e : Ed env)
      → IsSorted e.marks
      → IsSorted (mark_set k v u e).marks
  mark_set-IsSorted k v u e h =
      rw (mark_set-upsert k v u e) (upsert-IsSorted e.marks (abs_key k) v u h)

  mark_set-IsReady :
      (k : ℕ) (v : Mark) (u : Bool) (e : Ed env) → IsReady e → IsReady (mark_set k v u e)
  unfolding mark_set
  mark_set-IsReady k v u e h = record {
    has_file = h.has_file;
    tiq = h.tiq;
    coherent = record { line = h.coherent.line; count = h.coherent.count };
  }

  rows-mark_set : (k : ℕ) (v : Mark) (u : Bool) (e : Ed env) → rows (mark_set k v u e) ≡ rows e
  unfolding mark_set
  rows-mark_set k v u e = refl

  module _ (ok : Reliable env.file) where
    mark_place-place :
        (key : ℕ) (m : LMark) (e : Ed env)
        → IsReady e
        → (mark_place key m e).0 ≡ place (rows e) (some m)
    unfolding mark_place
    mark_place-place key m e h = ground (arith, db_exist_iff ok m.lno e h)

    -- Outside of text input, with a database that does not fail and marks sorted by name, getting
    -- a mark looks its name up in the list, and gives the place that it stands for.
    pub mark_get-place :
        (k : ℕ) (e : Ed env)
        → IsReady e
        → IsSorted e.marks
        → (mark_get k e).0 ≡ place (rows e) (find_name e.marks (abs_key k))
    unfolding mark_get
    mark_get-place k e h s =
        rw (← named-mark_find e.marks (abs_key k) s)
          (go (named e.marks (mark_find e.marks (abs_key k)) (abs_key k)))
      where
        go :
            (o : Option LMark)
            → (elim o as (λ _. Option Mark × Ed env) [
              | none ↦ (none, report (mark_not_set (abs_key k)) e)
              | some m ↦ mark_place (abs_key k) m e
            ]).0
              ≡ place (rows e) o
        go none = refl
        go (some m) = mark_place-place (abs_key k) m e h

    -- Outside of text input, with a database that does not fail and marks sorted by name: after a mark
    -- is set, by the user or by an undo, getting it gives the new place, or the old one
    -- where an undo meets a mark of the user's on a line that is still there; any other mark is as
    -- before. The two names of the absolute mark are one.
    pub mark_get-mark_set :
        (j k : ℕ) (v : Mark) (u : Bool) (e : Ed env)
        → IsReady e
        → IsSorted e.marks
        → (mark_get j (mark_set k v u e)).0 ≡ (
            if abs_key k == abs_key j
            then place (rows e) (some (resolve (find_name e.marks (abs_key k)) (abs_key k) v u))
            else (mark_get j e).0)
    mark_get-mark_set j k v u e h s =
        mark_get-place j (mark_set k v u e) (mark_set-IsReady k v u e h)
          (mark_set-IsSorted k v u e s)
        ∙ ap (λ xs. place xs (find_name (mark_set k v u e).marks (abs_key j)))
            (rows-mark_set k v u e)
        ∙ ap (λ ms. place (rows e) (find_name ms (abs_key j))) (mark_set-upsert k v u e)
        ∙ ap (place (rows e)) (find_name-upsert e.marks (abs_key k) (abs_key j) v u s)
        ∙ at_name (abs_key k == abs_key j)
      where
        at_name :
            (b : Bool)
            → place (rows e) (
                if b
                then some (resolve (find_name e.marks (abs_key k)) (abs_key k) v u)
                else find_name e.marks (abs_key j))
              ≡ (if b
                  then place
                      (rows e)
                      (some (resolve (find_name e.marks (abs_key k)) (abs_key k) v u))
                  else (mark_get j e).0)
        at_name true = refl
        at_name false = sym (mark_get-place j e h s)
