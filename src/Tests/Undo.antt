-- ===== src/Tests/Undo.antt =====
-- Undo and redo at work.
use open_vi.Common.{◌≤◌, ◌≡◌, refl, List, [], ◌∷◌, arith}
use open_vi.State.{Ed, rows}
use open_vi.Line.{db_get, db_exist}
use open_vi.Line.Reads.{IsCoherent}
use open_vi.Ranges.{ex_g_insdel}
use open_vi.Log.{log_cursor, log_line, cursor_of}
use open_vi.Edit.{mark_insdel, db_delete, db_append, db_insert, db_set}
use open_vi.Roll.{log_backward, log_forward}
use open_vi.Roll.Back.{Undone}
use open_vi.Roll.Forth.{Redone}
use open_vi.Roll.Edits.{db_insert-IsCoherent}
use open_vi.Roll.Changes.{Change, append, insert, set, delete, make_all, edit_all, AllInRange}
use open_vi.Roll.Undo.{started, undo_restores, redo_restores}
use open_vi.Tests.Editor.{
  env, services, services-Paints, file-Reliable, logs-Reliable, three, opened, opened-IsReady,
  opened-IsLogging,
}

abbrev first : Change
first = delete 2

abbrev others : List Change
others = insert 1 (b'x' ∷ []) ∷ set 3 (b'd' ∷ []) ∷ append 3 [] ∷ []

abbrev edited : Ed env
edited = make_all services (first ∷ others) (log_cursor opened).1

edited-rows : rows edited ≡ (b'x' ∷ []) ∷ (b'a' ∷ []) ∷ (b'd' ∷ []) ∷ [] ∷ []
unfolding log_cursor db_delete db_append db_insert db_set mark_insdel log_line ex_g_insdel db_get
    db_exist
edited-rows = refl

in_range : AllInRange (first ∷ others) three
in_range = (
  (omega arith, omega arith),
  ((omega arith, omega arith), ((omega arith, omega arith), (omega arith, tt))),
)

undo_restores_example :
    Undone edited.log edited.l_high
      (log_cursor opened).1.l_cur
      (cursor_of opened)
      three
      (log_backward services edited)
undo_restores_example =
    undo_restores services services-Paints file-Reliable logs-Reliable opened opened-IsReady
      opened-IsLogging (omega arith) first others in_range

short : (log_cursor edited).1.l_cur ≤ 4294967295
unfolding log_cursor db_delete db_append db_insert db_set mark_insdel log_line ex_g_insdel db_get
    db_exist
short = omega arith

redo_restores_example :
    Redone
      (log_cursor edited).1.l_cur
      (cursor_of edited)
      (edit_all (first ∷ others) three)
      (log_forward services (log_backward services (log_cursor edited).1).1)
redo_restores_example =
    redo_restores services services-Paints file-Reliable logs-Reliable opened opened-IsReady
      opened-IsLogging (omega arith) first others in_range short

db_insert-IsCoherent_example : IsCoherent (db_insert services 1 (b'x' ∷ []) (log_cursor opened).1).1
db_insert-IsCoherent_example =
    db_insert-IsCoherent services file-Reliable logs-Reliable three (log_cursor opened).1.l_cur
      (cursor_of opened) 1 (b'x' ∷ []) (log_cursor opened).1
      (started services services-Paints file-Reliable logs-Reliable opened opened-IsReady
        opened-IsLogging (omega arith))
      (omega arith) (unfold log_cursor in omega arith)
