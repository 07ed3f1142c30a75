-- ===== src/Marks.antt =====
-- common/mark.c: marks in a list sorted by name, and setting and getting them. A pointer into the
-- list is an index. `mark_insdel` stands with the line edits that call it.
pub mod Order
pub mod Places
use open_vi.Common.{
  ℕ, suc, Bool, true, false, not, ◌&&◌, ◌||◌, Option, none, some, List, [], ◌∷◌, get_elem?, set,
  insert_at, leb, ◌==◌, if◌then◌else◌,
}
use open_vi.State.{Mark, LMark, Env, Ed, report, mark_not_set, mark_line_deleted, mark_gone}
use open_vi.Line.{db_exist}

-- ABSMARK2 is read as ABSMARK1: a back quote as a quote.
abbrev pub abs_key : ℕ → ℕ
abs_key k = if k == 0x60 then 0x27 else k

-- The loop of `mark_find`, at index `i`, with `last` the slot before it.
unfoldable pub find_from : List LMark → ℕ → ℕ → Option ℕ → Option ℕ
find_from [] key i last = last
find_from (m ∷ ms) key i last =
    let rest = find_from ms key (suc i) (some i) in
    if leb key m.name then (if m.name == key then some i else last) else rest

unfoldable pub mark_find : List LMark → ℕ → Option ℕ
unfolding find_from
mark_find ms key = find_from ms key 0 none

abbrev pub new_mark : ℕ → Mark → Bool → LMark
new_mark key v userset = record {
  lno = v.lno;
  cno = v.cno;
  name = key;
  deleted = false;
  userset = userset;
}

-- An undo does not set a mark that the user has set since, unless its line was deleted.
abbrev pub keeps_mark : LMark → Bool → Bool
keeps_mark m userset = not userset && (not m.deleted && m.userset)

-- `mark_set` at the slot that `mark_find` returned.
unfoldable pub set_mark : List LMark → Option ℕ → ℕ → Mark → Bool → List LMark
set_mark ms none key v userset = new_mark key v userset ∷ ms
set_mark ms (some i) key v userset = elim (get_elem? ms i) [
  | none ↦ ms
  | some m ↦
      if not (m.name == key)
      then insert_at ms (suc i) (new_mark key v userset)
      else if keeps_mark m userset
      then ms
      else set ms i (new_mark key v userset)
]

-- The mark in the slot, if it has the name.
unfoldable pub named : List LMark → Option ℕ → ℕ → Option LMark
named ms none key = none
named ms (some i) key = elim (get_elem? ms i) [
  | none ↦ none
  | some m ↦ if m.name == key then some m else none
]

-- The loop takes the marks off one by one.
abbrev pub remove_all : List LMark → List LMark
remove_all [] = []
remove_all (m ∷ ms) = remove_all ms

module _ {env : Env} where
  unfoldable pub mark_init : Ed env → Ed env
  mark_init e = record e { marks = [] }

  unfoldable pub mark_end : Ed env → Ed env
  mark_end e = record e { marks = remove_all e.marks }

  unfoldable pub mark_set : ℕ → Mark → Bool → Ed env → Ed env
  unfolding mark_find set_mark
  mark_set k v userset e =
      let key = abs_key k in
      record e { marks = set_mark e.marks (mark_find e.marks key) key v userset }

  -- A mark at line 1, column 0 works in an empty file too.
  unfoldable pub mark_place : ℕ → LMark → Ed env → Option Mark × Ed env
  mark_place key m e =
      if m.deleted
      then (none, report (mark_line_deleted key) e)
      else let (there, e') = db_exist m.lno e in
        let place : Mark = record { lno = m.lno; cno = m.cno } in
        if m.lno == 1 && m.cno == 0
        then (some place, e)
        else if there
        then (some place, e')
        else (none, report (mark_gone key) e')

  unfoldable pub mark_get : ℕ → Ed env → Option Mark × Ed env
  unfolding mark_place mark_find named
  mark_get k e =
      let key = abs_key k in
      elim (named e.marks (mark_find e.marks key) key) [
        | none ↦ (none, report (mark_not_set key) e)
        | some m ↦ mark_place key m e
      ]
