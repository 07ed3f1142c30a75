-- ===== src/Edit.antt =====
-- Changing lines: db_append, db_delete, db_insert, db_set and scr_update of common/line.c, and
-- mark_insdel of common/mark.c. A first component `true` is the return value 1.
pub mod Frame
pub mod Stored
pub mod Rows
pub mod Caches
pub mod Faults
use open_vi.Common.{
  ℕ, zero, suc, ◌+◌, ◌-◌, Bool, true, false, not, ◌&&◌, ◌||◌, Option, none, some, List, [], ◌∷◌,
  ltb, leb, ◌==◌, if◌then◌else◌,
}
use open_vi.Recno.{Status, done, absent, failed, after, before, over}
use open_vi.State.{
  Line, LMark, Lnop, line_append, line_delete, line_insert, line_reset, append, delete, insert,
  reset_f, reset_b, Env, Ed, report, no_file_yet, unable_delete, unable_append, unable_insert,
  unable_store,
}
use open_vi.Line.{db_exist, db_last}
use open_vi.Line.Reads.{ReadOnly}
use open_vi.Ranges.{ex_g_insdel}
use open_vi.Log.{is_failed, log_line, log_mark}

-- What the line routines ask of the screens (vi/vs_smap.c) and of recovery (common/recover.c).
-- Repainting and setting recovery up read lines, fill the caches and report; they change no line,
-- mark or log record.
pub record Services (env : Env) : Type 1 where
  pub Screen : Type 0
  -- the screen that makes the change, and the others that show the same file
  pub self : Screen
  pub others : env.View → List Screen
  pub vs_change : Screen → ℕ → Lnop → Ed env → Bool × Ed env
  pub rcv_init : Ed env → Ed env
  -- the bytes of the buffer that GET_SPACE hands out: `tmp_blen` of `GS`, or 0 for a new buffer
  pub tmp_blen : ℕ
  pub vs_change_reads :
      (t : Screen) (n : ℕ) (op : Lnop) (e : Ed env) → ReadOnly e (vs_change t n op e).1
  pub rcv_init_reads : (e : Ed env) → ReadOnly e (rcv_init e)

abbrev pub is_absent : Status → Bool
is_absent absent = true
is_absent done = false
is_absent failed = false

-- The loop of LINE_INSERT.
unfoldable pub insert_marks : ℕ → List LMark → List LMark
insert_marks n [] = []
insert_marks n (m ∷ ms) =
    (if leb n m.lno then record m { lno = suc m.lno } else m) ∷ insert_marks n ms

module _ {env : Env} where
  -- The loop of LINE_DELETE: a mark on the line is flagged and logged.
  unfoldable pub delete_marks : ℕ → List LMark → Ed env → List LMark × Ed env
  delete_marks n [] e = ([], e)
  delete_marks n (m ∷ ms) e =
      let here = m.lno == n in
      let d = record m { deleted = true } in
      let (rest, e') = delete_marks n ms (if here then (log_mark d e).1 else e) in
      ((if ltb m.lno n then m else if here then d else record m { lno = m.lno - 1 }) ∷ rest, e')

  -- The first line of an empty file replaces an imaginary one, and moves no mark.
  unfoldable pub mark_insert : ℕ → Ed env → Bool × Ed env
  unfolding insert_marks
  mark_insert n e =
      let (second, e1) = db_exist 2 e in
      let (l, e2) = db_last e1 in
      let moved = λ (f : Ed env). record f { marks = insert_marks n f.marks } in
      if second then (false, moved e1) else elim l [
        | none ↦ (true, e2)
        | some lline ↦ if lline == 1 then (false, e2) else (false, moved e2)
      ]

  -- LINE_APPEND aborts; no caller passes it.
  unfoldable pub mark_insdel : Lnop → ℕ → Ed env → Bool × Ed env
  unfolding delete_marks mark_insert
  mark_insdel line_delete n e =
      let (ms, e1) = delete_marks n e.marks e in (false, record e1 { marks = ms })
  mark_insdel line_insert n e = mark_insert n e
  mark_insdel line_reset n e = (false, e)
  mark_insdel line_append n e = (true, e)

module _ {env : Env} (s : Services env) where
  open s use {Screen, self, others, vs_change, rcv_init}
  open env use {file}

  -- The first screen that fails ends the loop.
  unfoldable pub change_others : List Screen → ℕ → Lnop → Ed env → Bool × Ed env
  change_others [] n op e = (false, e)
  change_others (t ∷ ts) n op e =
      let (bad, e1) = vs_change t n op e in
      let rest = change_others ts n op e1 in if bad then (true, e1) else rest

  unfoldable pub scr_update : ℕ → Lnop → Bool → Ed env → Bool × Ed env
  unfolding change_others
  scr_update n op current e =
      if e.sc_ex
      then (false, e)
      else let (bad, e1) = change_others (others e.view) n op e in
        if bad then (true, e1) else if current then vs_change self n op e1 else (false, e1)

  -- "File now dirty."
  unfoldable pub set_dirty : Ed env → Ed env
  set_dirty e =
      let e1 = if e.first_modify then rcv_init e else e in
      record e1 { modified = true; rcv_sync = true }

  -- The database after the call, and the two caches.
  abbrev pub stored : file.Db → Bool → ℕ → Ed env → Ed env
  stored d flush k e = record e { db = d; c_lno = if flush then 0 else e.c_lno; c_nlines = k }

  abbrev pub one_more : Ed env → ℕ
  one_more e = if e.c_nlines == 0 then 0 else suc e.c_nlines

  abbrev pub one_less : Ed env → ℕ
  one_less e = if e.c_nlines == 0 then 0 else e.c_nlines - 1

  unfoldable pub db_delete : ℕ → Ed env → Bool × Ed env
  unfolding scr_update set_dirty
  db_delete n e =
      if not e.has_file
      then (true, report no_file_yet e)
      else let (bad, e1) = mark_insdel line_delete n e in
        if bad
        then (true, e1)
        else let e2 = (log_line n delete (ex_g_insdel line_delete n e1)).1 in
          let (st, d) = file.del e2.db n in
          if is_absent st
          then (true, report (unable_delete n) (record e2 { db = d }))
          else scr_update n line_delete true
              (set_dirty (stored d (leb n e2.c_lno) (one_less e2) e2))

  -- What `db_append` and `db_insert` do once line `n` is in the file.
  unfoldable pub after_put : ℕ → ℕ → Lnop → Bool → Ed env → Bool × Ed env
  after_put n at op update e =
      let (r1, e1) = mark_insdel line_insert n e in
      let (bad, e2) = scr_update at op update (ex_g_insdel line_insert n e1) in (bad || r1, e2)

  unfoldable pub db_append : Bool → ℕ → Line → Ed env → Bool × Ed env
  unfolding scr_update set_dirty after_put
  db_append update n p e =
      if not e.has_file
      then (true, report no_file_yet e)
      else let (st, d) = file.put after e.db n p in
        if is_failed st
        then (true, report (unable_append n) (record e { db = d }))
        else let e1 = set_dirty (stored d (ltb n e.c_lno) (one_more e) e) in
          let e2 = (log_line (suc n) append e1).1 in after_put (suc n) n line_append update e2

  unfoldable pub db_insert : ℕ → Line → Ed env → Bool × Ed env
  unfolding scr_update set_dirty after_put
  db_insert n p e =
      if not e.has_file
      then (true, report no_file_yet e)
      else let (st, d) = file.put before e.db n p in
        if is_failed st
        then (true, report (unable_insert n) (record e { db = d }))
        else let e1 = set_dirty (stored d (leb e.c_lno n) (one_more e) e) in
          let e2 = (log_line n insert e1).1 in after_put n n line_insert true e2

  unfoldable pub db_set : ℕ → Line → Ed env → Bool × Ed env
  unfolding scr_update set_dirty
  db_set n p e =
      if not e.has_file
      then (true, report no_file_yet e)
      else let e1 = (log_line n reset_b e).1 in
        let (st, d) = file.put over e1.db n p in
        if is_failed st
        then (true, report (unable_store n) (record e1 { db = d }))
        else let e2 = set_dirty (stored d (n == e1.c_lno) e1.c_nlines e1) in
          scr_update n line_reset true (log_line n reset_f e2).1
