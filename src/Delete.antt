-- ===== src/Delete.antt =====
-- common/delete.c: deleting a range of text.
pub mod Loop
pub mod Parts
pub mod Regions
use open_vi.Common.{
  ℕ, zero, suc, ◌-◌, Bool, true, false, not, ◌&&◌, ◌||◌, Option, none, some, List, [], ◌∷◌, ◌++◌,
  length, take, drop, ltb, leb, ◌==◌, if◌then◌else◌,
}
use Prim.Native.Nat.{◌%◌}
use open_vi.State.{Line, Mark, Env, Ed, report, line_overflow}
use open_vi.Line.{db_get, db_last}
use open_vi.Edit.{Services, db_delete, db_set}

-- SIZE_MAX, also the column -1
abbrev pub size_max : ℕ
size_max = 18446744073709551615

-- `cno + 1` in a size_t
abbrev pub next : ℕ → ℕ
next cno = if cno == size_max then 0 else suc cno

module _ {env : Env} (s : Services env) (interrupted : ℕ → Bool) where
  -- The loops of `db_delete`, from line `k` down to line `low`; they do not reach line 0.
  -- `interrupted n` is INTERRUPTED(sp) as it is asked when line `n` has been deleted.
  unfoldable pub delete_down : ℕ → ℕ → Ed env → Bool × Ed env
  delete_down low zero e = (false, e)
  delete_down low (suc k) e =
      let (bad, e1) = db_delete s (suc k) e in
      let e2 = record e1 { deleted = suc e1.deleted } in
      let rest = delete_down low k e2 in
      if not (leb low (suc k))
      then (false, e)
      else if bad
      then (true, e1)
      else if ((suc k % 100) == 0) && interrupted (suc k)
      then (false, e2)
      else rest

  -- Case 2
  unfoldable pub del_to_eof : Mark → Mark → Ed env → Bool × Ed env
  unfolding delete_down
  del_to_eof fm tm e =
      let (bad, e1) = delete_down (suc fm.lno) tm.lno e in
      let (p, e2) = db_get true false fm.lno e1 in
      if bad
      then (true, e1)
      else elim p [ none ↦ (true, e2) | some l ↦ db_set s fm.lno (take fm.cno l) e2 ]

  -- Case 3
  unfoldable pub del_within : Mark → Mark → Ed env → Bool × Ed env
  del_within fm tm e =
      let (p, e1) = db_get true false fm.lno e in
      elim p [
        | none ↦ (true, e1)
        | some l ↦
            if length l == 0
            then (false, e1)
            else db_set s fm.lno (take fm.cno l ++ drop (next tm.cno) l) e1
      ]

  -- Case 4: the start of the first line, if it is not empty, is read before the last line.
  unfoldable pub del_start : Mark → Ed env → Option Line × Ed env
  del_start fm e =
      if fm.cno == 0
      then (some [], e)
      else let (p, e1) = db_get true false fm.lno e in
        elim p [ none ↦ (none, e1) | some l ↦ (some (take fm.cno l), e1) ]

  -- What `del` does once it has both partial lines.
  unfoldable pub del_join : Mark → Mark → Line → Ed env → Bool × Ed env
  unfolding delete_down
  del_join fm tm l e =
      let (bad, e1) = db_set s fm.lno l e in
      let rest = delete_down (suc fm.lno) tm.lno e1 in if bad then (true, e1) else rest

  unfoldable pub del_across : Mark → Mark → Ed env → Bool × Ed env
  unfolding del_start del_join
  del_across fm tm e =
      let (h, e1) = del_start fm e in
      let (p, e2) = db_get true false tm.lno e1 in
      elim h [
        | none ↦ (true, e1)
        | some start ↦ elim p [
          | none ↦ (true, e2)
          | some q ↦
              let long =
                ltb (length q) (next tm.cno)
                || ltb (size_max - length start) (length q - next tm.cno) in
              if length q == 0 || (suc tm.cno == length q)
              then del_join fm tm start e2
              else if long
              then (true, report line_overflow e2)
              else del_join fm tm (start ++ drop (next tm.cno) q) e2
        ]
      ]

  -- Cases 3 and 4
  unfoldable pub del_part : Mark → Mark → Ed env → Bool × Ed env
  unfolding del_within del_across
  del_part fm tm e = if tm.lno == fm.lno then del_within fm tm e else del_across fm tm e

  unfoldable pub del : Mark → Mark → Bool → Ed env → Bool × Ed env
  unfolding delete_down del_to_eof del_part
  del fm tm true e = delete_down fm.lno tm.lno e
  del fm tm false e =
      let (l, e1) = db_last e in
      elim l [
        | none ↦ (true, e1)
        | some n ↦
            let (p, e2) = db_get true false n e1 in
            if ltb tm.lno n
            then del_part fm tm e1
            else if not (tm.lno == n)
            then del_to_eof fm tm e1
            else elim p [
              | none ↦ (true, e2)
              | some q ↦
                  if not (tm.cno == size_max) && leb (length q) tm.cno
                  then del_to_eof fm tm e2
                  else del_part fm tm e2
            ]
      ]
