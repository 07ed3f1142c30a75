-- ===== src/ExLines.antt =====
-- The ex commands on lines: ex_copy and ex_move of ex/ex_move.c, ex_delete.c, ex_put.c and ex_yank.c.
-- Each is the command behind the parser, which has put the addresses into the command.
pub mod Turn
pub mod Move
pub mod Copy
use open_vi.Common.{
  ℕ, zero, suc, ◌+◌, ◌-◌, Bool, true, false, not, ◌&&◌, ◌||◌, Option, none, some, List, [], ◌∷◌,
  ltb, leb, ◌==◌, if◌then◌else◌,
}
use open_vi.State.{Line, Mark, LMark, Env, Ed, report, no_file_yet, inside_move}
use open_vi.Line.{db_get, db_last}
use open_vi.Log.{log_mark}
use open_vi.Edit.{Services, db_append, db_delete}
use open_vi.Delete.{del}
use open_vi.Cut.{Cb, Cuts, CutFlags, cut_lines, cut, empty_cb}
use open_vi.Put.{put}

-- The fields of `EXCMD` that the commands read; `buffer` is there if E_C_BUFFER is set.
pub record Command : Type 0 where
  pub addr1 : Mark
  pub addr2 : Mark
  pub lineno : ℕ
  pub buffer : Option ℕ

-- CUT_LINEMODE
abbrev pub by_lines : CutFlags
by_lines = record { linemode = true; numopt = false; numreq = false }

-- ABSMARK1
abbrev pub absmark1 : ℕ
absmark1 = 39

abbrev pub in_range : ℕ → ℕ → LMark → Bool
in_range low high m = not (m.name == absmark1) && (leb low m.lno && leb m.lno high)

-- The marks of one line, put on another.
abbrev pub move_marks : ℕ → ℕ → List LMark → List LMark
move_marks from to [] = []
move_marks from to (m ∷ ms) =
    (if not (m.name == absmark1) && m.lno == from then record m { lno = to } else m)
    ∷ move_marks from to ms

module _ {env : Env} where
  -- The loop before the move: the marks without MARK_USERSET, and whether there is one.
  unfoldable pub log_old : ℕ → ℕ → List LMark → Ed env → (List LMark × Bool) × Ed env
  log_old low high [] e = (([], false), e)
  log_old low high (m ∷ ms) e =
      let m1 = record m { userset = false } in
      let hit = in_range low high m in
      let e1 = if hit then (log_mark m1 e).1 else e in
      let ((ms1, reset), e2) = log_old low high ms e1 in
      (((if hit then m1 else m) ∷ ms1, hit || reset), e2)

  -- The loop behind it.
  unfoldable pub log_new : ℕ → ℕ → List LMark → Ed env → Ed env
  log_new low high [] e = e
  log_new low high (m ∷ ms) e =
      log_new low high ms (if in_range low high m then (log_mark m e).1 else e)

module _ {env : Env} (s : Services env) where
  -- The loop of a move down: the status.
  unfoldable pub move_down : ℕ → ℕ → ℕ → Bool → Ed env → Bool × Ed env
  move_down zero fl tl reset e = (false, e)
  move_down (suc k) fl tl reset e =
      let (p, e1) = db_get true false fl e in
      elim p [
        | none ↦ (true, e1)
        | some l ↦
            let (bad, e2) = db_append s true tl l e1 in
            let e3 = if reset then record e2 { marks = move_marks fl (suc tl) e2.marks } else e2 in
            let (bad2, e4) = db_delete s fl e3 in
            let rest = move_down k fl tl reset e4 in
            if bad then (true, e2) else if bad2 then (true, e4) else rest
      ]

  -- The loop of a move up: the status, and the last line moved.
  unfoldable pub move_up : ℕ → ℕ → ℕ → Bool → Ed env → (Bool × ℕ) × Ed env
  move_up zero fl tl reset e = ((false, tl), e)
  move_up (suc k) fl tl reset e =
      let (p, e1) = db_get true false fl e in
      elim p [
        | none ↦ ((true, tl), e1)
        | some l ↦
            let (bad, e2) = db_append s true tl l e1 in
            let e3 = if reset then record e2 { marks = move_marks fl (suc tl) e2.marks } else e2 in
            let (bad2, e4) = db_delete s (suc fl) e3 in
            let rest = move_up k (suc fl) (suc tl) reset e4 in
            if bad then ((true, tl), e2) else if bad2 then ((true, suc tl), e4) else rest
      ]

  -- What follows the loops.
  abbrev pub moved_to : ℕ → ℕ → ℕ → ℕ → Bool → Ed env → Ed env
  moved_to tl low high diff reset e =
      let e1 = record e { lno = tl; cno = 0 } in
      let e2 = if reset then log_new low high e1.marks e1 else e1 in
      record e2 { moved = e2.moved + diff }

  unfoldable pub ex_move : Command → Ed env → Bool × Ed env
  unfolding log_old log_new move_down move_up
  ex_move c e =
      let fl = c.addr1.lno in
      let tl = c.lineno in
      let diff = suc (c.addr2.lno - fl) in
      let ((ms, reset), e0) = log_old fl tl e.marks e in
      let e1 = record e0 { marks = ms } in
      let (bad, e2) = move_down diff fl tl reset e1 in
      let ((bad3, last), e3) = move_up diff fl tl reset e1 in
      if not e.has_file
      then (true, report no_file_yet e)
      else if leb fl tl && leb tl c.addr2.lno
      then (true, report inside_move e)
      else if ltb fl tl
      then if bad then (true, e2) else (false, moved_to tl (tl - diff) tl diff reset e2)
      else if bad3
      then (true, e3)
      else (false, moved_to last tl (tl + diff) diff reset e3)

  -- The status of the put, and the mark that it gives.
  abbrev pub copied : ℕ → Option ((Bool × Mark) × Ed env) → Option (Bool × Ed env)
  copied cnt none = none
  copied cnt (some ((bad, m), e)) =
      some (if bad then (true, e) else (false, record e { lno = m.lno + (cnt - 1); cno = 0 }))

  -- No answer is that of `put`: a read through a null pointer.
  unfoldable pub ex_copy : Command → Cuts → Ed env → Option (Bool × Ed env)
  ex_copy c q e =
      let ((bad, b), e1) = cut_lines (suc c.addr2.lno - c.addr1.lno) c.addr1.lno (empty_cb 0) e in
      let to : Mark = record { lno = c.lineno; cno = 0 } in
      let r = put s (some (record b { lmode = true })) none to to true 1 q e1 in
      if not e.has_file
      then some (true, report no_file_yet e)
      else if bad
      then some (true, e1)
      else copied (suc (c.addr2.lno - c.addr1.lno)) r

  unfoldable pub ex_delete : (ℕ → Bool) → Command → Cuts → Ed env → Bool × Cuts × Ed env
  ex_delete interrupted c q e =
      let (bad, q1, e1) = cut c.buffer c.addr1 c.addr2 by_lines q e in
      let (bad2, e2) = del s interrupted c.addr1 c.addr2 true e1 in
      let e3 = record e2 { lno = c.addr1.lno } in
      let (l, e4) = db_last e3 in
      if not e.has_file
      then (true, q, report no_file_yet e)
      else if bad
      then (true, q1, e1)
      else if bad2
      then (true, q1, e2)
      else elim l [
        | none ↦ (true, q1, e4)
        | some n ↦ (false, q1, if ltb n e4.lno then record e4 { lno = n } else e4)
      ]

  unfoldable pub ex_yank : Command → Cuts → Ed env → Bool × Cuts × Ed env
  ex_yank c q e =
      if not e.has_file
      then (true, q, report no_file_yet e)
      else cut c.buffer c.addr1 c.addr2 by_lines q e

  abbrev pub put_cursor : Option ((Bool × Mark) × Ed env) → Option (Bool × Ed env)
  put_cursor none = none
  put_cursor (some ((bad, m), e)) =
      some (if bad then (true, e) else (false, record e { lno = m.lno; cno = m.cno }))

  unfoldable pub ex_put : Command → Cuts → Ed env → Option (Bool × Ed env)
  ex_put c q e =
      let m : Mark = record { lno = e.lno; cno = e.cno } in
      let r = put s none c.buffer c.addr1 m true 1 q e in
      if not e.has_file then some (true, report no_file_yet e) else put_cursor r
