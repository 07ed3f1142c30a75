-- ===== src/Roll.antt =====
-- Rolling the change log: log_backward, log_forward and log_setline of common/log.c, and the undo
-- commands of vi/v_undo.c and ex/ex_undo.c.
pub mod History
pub mod Ongoing
pub mod Edits
pub mod Quiet
pub mod Turn
pub mod Back
pub mod Forth
pub mod Changes
pub mod Undo
use open_vi.Common.{
  ℕ, zero, suc, ◌+◌, ◌-◌, ◌^◌, Bool, true, false, not, ◌&&◌, ◌||◌, Option, none, some, List, [],
  ◌∷◌, ltb, leb, ◌==◌, if◌then◌else◌,
}
use open_vi.Recno.{found, absent, failed}
use open_vi.State.{
  Line, LMark, Mark, LogRec, cursor_init, cursor_end, line_append, line_delete, line_insert,
  line_reset_f, line_reset_b, mark, Dir, notset, forward, backward, Env, Ed, report, no_logging,
  no_undo, no_redo,
}
use open_vi.Marks.{mark_set}
use open_vi.Log.{log_err, cursor_of}
use open_vi.Edit.{Services, db_delete, db_insert, db_set}

-- The highest record number: the range of `recno_t`.
abbrev pub max_rec_number : ℕ
max_rec_number = 2 ^ 32 - 1

abbrev pub place_of : LMark → Mark
place_of m = record { lno = m.lno; cno = m.cno }

module _ {env : Env} where
  abbrev pub count_change : ℕ → Ed env → Ed env
  count_change n e =
      if e.rptlchange == n then e else record e { rptlchange = n; changed = suc e.changed }

  -- `F_CLR(ep, F_NOLOG)` on the way out.
  abbrev pub relog : Ed env → Ed env
  relog e = record e { nolog = false }

-- The records that set `didop` on the way back, and on the way forward.
abbrev pub sets_back : LogRec → Bool
sets_back (cursor_init _) = false
sets_back (cursor_end _) = false
sets_back (line_reset_f _ _) = false
sets_back _ = true

abbrev pub sets_forward : LogRec → Bool
sets_forward (cursor_init _) = false
sets_forward (cursor_end _) = false
sets_forward (line_reset_b _ _) = false
sets_forward _ = true

-- The position that ends the loop, if a change has been rolled over: that of LOG_CURSOR_INIT on
-- the way back, of LOG_CURSOR_END on the way forward.
abbrev pub ends_back : LogRec → Option Mark
ends_back (cursor_init m) = some m
ends_back _ = none

abbrev pub ends_forward : LogRec → Option Mark
ends_forward (cursor_end m) = some m
ends_forward _ = none

module _ {env : Env} (s : Services env) where
  open env use {logs}

  -- The cases of the switch in `log_backward`.
  unfoldable pub back_record : LogRec → Ed env → Bool × Ed env
  back_record (line_append n p) e =
      let (bad, e1) = db_delete s n e in
      if bad then (true, e1) else (false, record e1 { deleted = suc e1.deleted })
  back_record (line_insert n p) e =
      let (bad, e1) = db_delete s n e in
      if bad then (true, e1) else (false, record e1 { deleted = suc e1.deleted })
  back_record (line_delete n p) e =
      let (bad, e1) = db_insert s n p e in
      if bad then (true, e1) else (false, record e1 { added = suc e1.added })
  back_record (line_reset_b n p) e =
      let (bad, e1) = db_set s n p e in if bad then (true, e1) else (false, count_change n e1)
  back_record (mark m) e = (false, mark_set m.name (place_of m) false e)
  back_record _ e = (false, e)

  -- The loop, on the value of `l_cur` before it is decremented. Record 0 is never found, so the
  -- loop does not reach a decrement of 0. A record that cannot be read restarts the log, and leaves
  -- F_NOLOG set.
  unfoldable pub backward_loop : ℕ → Bool → Ed env → Option Mark × Ed env
  unfolding back_record
  backward_loop zero didop e = (none, e)
  backward_loop (suc c) didop e =
      let e1 = record e { l_cur = c } in
      elim (logs.get e1.log c) [
        | failed ↦ (none, log_err e1)
        | absent ↦ (none, log_err e1)
        | found r ↦
            let (bad, e2) = back_record r e1 in
            let rest = backward_loop c (didop || sets_back r) e2 in
            let go_on = if bad then (none, relog e2) else rest in
            elim (ends_back r) [
              | none ↦ go_on
              | some m ↦ if didop then (some m, relog e1) else go_on
            ]
      ]

  -- `none` is the return value 1; `some m` is 0, with `*rp` set to `m`.
  unfoldable pub log_backward : Ed env → Option Mark × Ed env
  unfolding backward_loop
  log_backward e =
      if e.nolog
      then (none, report no_logging e)
      else if e.l_cur == 1
      then (none, report no_undo e)
      else backward_loop e.l_cur false (record e { nolog = true })

  -- The cases of the switch in `log_forward`.
  unfoldable pub forward_record : LogRec → Ed env → Bool × Ed env
  forward_record (line_append n p) e =
      let (bad, e1) = db_insert s n p e in
      if bad then (true, e1) else (false, record e1 { added = suc e1.added })
  forward_record (line_insert n p) e =
      let (bad, e1) = db_insert s n p e in
      if bad then (true, e1) else (false, record e1 { added = suc e1.added })
  forward_record (line_delete n p) e =
      let (bad, e1) = db_delete s n e in
      if bad then (true, e1) else (false, record e1 { deleted = suc e1.deleted })
  forward_record (line_reset_f n p) e =
      let (bad, e1) = db_set s n p e in if bad then (true, e1) else (false, count_change n e1)
  forward_record (mark m) e = (false, mark_set m.name (place_of m) false e)
  forward_record _ e = (false, e)

  -- The loop, with the number of increments that `recno_t` leaves and the value of `l_cur`. One more
  -- wraps it around to 0, a record number that the database refuses.
  unfoldable pub forward_loop : ℕ → ℕ → Bool → Ed env → Option Mark × Ed env
  unfolding forward_record
  forward_loop zero c didop e = (none, log_err (record e { l_cur = 0 }))
  forward_loop (suc left) c didop e =
      let e1 = record e { l_cur = suc c } in
      elim (logs.get e1.log (suc c)) [
        | failed ↦ (none, log_err e1)
        | absent ↦ (none, log_err e1)
        | found r ↦
            let (bad, e2) = forward_record r e1 in
            let rest = forward_loop left (suc c) (didop || sets_forward r) e2 in
            let go_on = if bad then (none, relog e2) else rest in
            elim (ends_forward r) [
              | none ↦ go_on
              | some m ↦
                  if didop then (some m, relog (record e1 { l_cur = suc (suc c) })) else go_on
            ]
      ]

  unfoldable pub log_forward : Ed env → Option Mark × Ed env
  log_forward e =
      if e.nolog
      then (none, report no_logging e)
      else if e.l_cur == e.l_high
      then (none, report no_redo e)
      else forward_loop (max_rec_number - e.l_cur) e.l_cur false (record e { nolog = true })

  -- The cases of the switch in `log_setline`: what it does to the line of the cursor and the marks.
  unfoldable pub setline_record : LogRec → Ed env → Bool × Ed env
  setline_record (line_reset_b n p) e =
      let same = n == e.lno in
      let (bad, e1) = db_set s n p e in
      if same
      then (if bad then (true, e1) else (false, count_change n e1))
      else (false, count_change n e)
  setline_record (mark m) e = (false, mark_set m.name (place_of m) false e)
  setline_record _ e = (false, e)

  -- Whether the loop ends here, and by how much `l_cur` is put up again.
  abbrev pub setline_ends : LogRec → ℕ → ℕ → Option ℕ
  setline_ends (cursor_init m) c n = if not (m.lno == n) || c == 1 then some c else none
  setline_ends (cursor_end m) c n = if not (m.lno == n) then some (suc c) else none
  setline_ends _ c n = none

  unfoldable pub setline_loop : ℕ → Ed env → Bool × Ed env
  unfolding setline_record
  setline_loop zero e = (true, e)
  setline_loop (suc c) e =
      let e1 = record e { l_cur = c } in
      elim (logs.get e1.log c) [
        | failed ↦ (true, log_err e1)
        | absent ↦ (true, log_err e1)
        | found r ↦
            let (bad, e2) = setline_record r e1 in
            let rest = setline_loop c e2 in
            let go_on = if bad then (true, relog e2) else rest in
            elim (setline_ends r c e1.lno) [
              | none ↦ go_on
              | some k ↦ (false, relog (record e1 { l_cur = k }))
            ]
      ]

  unfoldable pub log_setline : Ed env → Bool × Ed env
  unfolding setline_loop
  log_setline e =
      if e.nolog
      then (true, report no_logging e)
      else if e.l_cur == 1
      then (true, e)
      else setline_loop e.l_cur (record e { nolog = true })

  -- u, with the flag of a `.` command; the mark is `vp->m_final`. `lundo` is set with F_UNDO, so
  -- NOTSET, which aborts, does not arise.
  unfoldable pub v_undo : Bool → Ed env → Option Mark × Ed env
  v_undo isdot e =
      let turned : Dir = elim e.lundo [ backward ↦ forward | _ ↦ backward ] in
      let dir : Dir = if not e.undo then backward else if isdot then e.lundo else turned in
      let e1 = record e { undo = true; lundo = dir } in
      elim dir [ backward ↦ log_backward e1 | forward ↦ log_forward e1 | notset ↦ (none, e1) ]

  -- U; the column of `m_final` is set to 0.
  unfoldable pub v_Undo : Ed env → Bool × Ed env
  v_Undo e = log_setline (record e { undo = true; lundo = backward })

  -- The end of `ex_undo`: the direction of the next call, and the cursor.
  abbrev pub finish_undo : Dir → Option Mark → Ed env → Bool × Ed env
  finish_undo next none e = (true, e)
  finish_undo next (some m) e = (false, record e { lundo = next; lno = m.lno; cno = m.cno })

  -- The names of the two directions are the other way round here.
  unfoldable pub ex_undo : Ed env → Bool × Ed env
  ex_undo e =
      let e1 = mark_set 0x27 (cursor_of e) true e in
      let dir : Dir = if not e1.undo then forward else e1.lundo in
      let e2 = record e1 { undo = true; lundo = dir } in
      elim dir [
        | backward ↦ (let (r, e3) = log_forward e2 in finish_undo forward r e3)
        | forward ↦ (let (r, e3) = log_backward e2 in finish_undo backward r e3)
        | notset ↦ (true, e2)
      ]
