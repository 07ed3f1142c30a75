-- ===== src/Log.antt =====
-- Writing the change log: log_init, log_end, log_cursor, log_cursor1, log_line, log_mark and log_err
-- of common/log.c. A record is the type byte with the bytes behind it, read back as a value; the
-- log is a record database. A first component `true` is the return value 1.

pub mod Frame
pub mod Trail
pub mod Write
use open_vi.Common.{
  ℕ, suc, Bool, true, false, not, Option, none, some, List, [], ◌∷◌, ◌==◌, if◌then◌else◌,
}
use open_vi.Recno.{Status, done, absent, failed, over}
use open_vi.State.{
  Line, Mark, LMark, LogRec, cursor_init, cursor_end, line_append, line_delete, line_insert,
  line_reset_f, line_reset_b, mark, Action, append, delete, insert, reset_f, reset_b, Env, Ed,
  report, log_file, log_put_error, log_restarted,
}
use open_vi.Line.{db_get, db_err}

abbrev pub is_failed : Status → Bool
is_failed failed = true
is_failed done = false
is_failed absent = false

-- The record of a line change.
abbrev pub line_record : Action → ℕ → Line → LogRec
line_record append n p = LogRec.line_append n p
line_record delete n p = LogRec.line_delete n p
line_record insert n p = LogRec.line_insert n p
line_record reset_f n p = line_reset_f n p
line_record reset_b n p = line_reset_b n p

-- The position that the log starts from.
abbrev pub origin : Mark
origin = record { lno = 1; cno = 0 }

module _ {env : Env} where
  open env use {logs}

  -- The database is opened empty; without one, logging is off.
  unfoldable pub log_init : Ed env → Bool × Ed env
  log_init e =
      let e1 = record e { l_cursor = origin; l_high = 1; l_cur = 1 } in
      elim logs.create [
        | none ↦ (true, report log_file (record e1 { nolog = true }))
        | some d ↦ (false, record e1 { log = d })
      ]

  -- The closed log is not read again.
  unfoldable pub log_end : Ed env → Ed env
  log_end e = record e { l_cursor = origin; l_high = 1; l_cur = 1 }

  unfoldable pub log_err : Ed env → Ed env
  unfolding log_init
  log_err e =
      let (bad, e1) = log_init (report log_put_error e) in
      if bad then e1 else report log_restarted e1

  -- The end of each of the routines below: store the record, reset the high water mark.
  unfoldable pub log_put : LogRec → Ed env → Bool × Ed env
  log_put r e =
      let (st, d) = logs.put over e.log e.l_cur r in
      if is_failed st
      then (true, log_err (record e { log = d }))
      else (false, record e { log = d; l_cur = suc e.l_cur; l_high = suc e.l_cur })

  -- One initial cursor record per set of changes.
  unfoldable pub log_start : Ed env → Bool × Ed env
  unfolding log_put
  log_start e =
      if e.l_cursor.lno == 0
      then (false, e)
      else let (bad, e1) = log_put (cursor_init e.l_cursor) e in
        if bad
        then (true, e1)
        else (false, record e1 { l_cursor = record (e1.l_cursor) { lno = 0 } })

  abbrev pub cursor_of : Ed env → Mark
  cursor_of e = record { lno = e.lno; cno = e.cno }

  unfoldable pub log_cursor : Ed env → Bool × Ed env
  unfolding log_put
  log_cursor e =
      if e.nolog
      then (false, e)
      else let e1 = record e { l_cursor = cursor_of e } in
        if e.l_cursor.lno == 0 then log_put (cursor_end (cursor_of e)) e1 else (false, e1)

  -- The line that is to be logged: the caches are avoided before a change, and line 1 of an empty
  -- file is an empty line. `none` is the return value 1.
  unfoldable pub log_text : Action → ℕ → Ed env → Option Line × Ed env
  log_text reset_b n e =
      let (p, e1) = db_get false true n e in
      elim p [
        | some q ↦ (some q, e1)
        | none ↦ if n == 1 then (some [], e1) else (none, db_err e1 n)
      ]
  log_text _ n e = db_get true false n e

  unfoldable pub log_line : ℕ → Action → Ed env → Bool × Ed env
  unfolding log_start log_text log_put
  log_line n a e =
      if e.nolog
      then (false, e)
      else let (bad, e1) = log_start (record e { undo = false }) in
        if bad
        then (true, e1)
        else let (p, e2) = log_text a n e1 in
          elim p [ none ↦ (true, e2) | some q ↦ log_put (line_record a n q) e2 ]

  unfoldable pub log_mark : LMark → Ed env → Bool × Ed env
  unfolding log_start log_put
  log_mark m e =
      if e.nolog
      then (false, e)
      else let (bad, e1) = log_start e in if bad then (true, e1) else log_put (mark m) e1
