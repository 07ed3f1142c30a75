-- ===== src/Line.antt =====
-- Reading lines: db_get, db_last, db_exist, db_eget, db_err and db_cache_update of common/line.c.
pub mod Reads
pub mod Refine
pub mod Typing
pub mod Eget
use open_vi.Common.{
  ℕ, zero, suc, ◌+◌, ◌-◌, Bool, true, false, not, ◌&&◌, ◌||◌, Option, none, some, List, [], ◌∷◌,
  ltb, leb, ◌==◌, if◌then◌else◌,
}
use open_vi.Recno.{Reply, found, absent, failed}
use open_vi.State.{Line, Text, Env, Ed, report, no_file_yet, unable_last, unable_retrieve}

-- `TAILQ_FIRST(&sp->tiq)->lno` and `TAILQ_LAST(&sp->tiq, _texth)->lno`, for a queue with first
-- element `t`.
abbrev pub first_lno : Text → ℕ
first_lno t = t.lno

abbrev pub last_lno : Text → List Text → ℕ
last_lno t [] = t.lno
last_lno t (u ∷ q) = last_lno u q

-- The walk over the queue for the text of a line.
abbrev pub text_of : List Text → ℕ → Option Line
text_of [] n = none
text_of (t ∷ q) n = if t.lno == n then some t.lb else text_of q n

-- The number of lines that the text input queue adds.
abbrev pub tinput_extra : List Text → ℕ
tinput_extra [] = 0
tinput_extra (t ∷ q) = last_lno t q - first_lno t

-- The last test: the queue's last line, where that is beyond the file.
abbrev pub tinput_last : List Text → ℕ → ℕ
tinput_last [] n = n
tinput_last (t ∷ q) n = if ltb n (last_lno t q) then last_lno t q else n

abbrev pub is_some : Option Line → Bool
is_some none = false
is_some (some _) = true

module _ {env : Env} where
  open env use {file}

  unfoldable pub db_err : Ed env → ℕ → Ed env
  db_err e n = if n == 0 then e else report (unable_retrieve n) e

  unfoldable pub db_cache_update : Ed env → ℕ → Line → Ed env
  db_cache_update e n p = record e { c_lno = n; c_lp = p }

  -- From `nocache:` on.
  unfoldable pub db_fetch : Bool → ℕ → Ed env → Option Line × Ed env
  unfolding db_err db_cache_update
  db_fetch fatal n e = elim (file.get e.db n) [
    | failed ↦ (none, db_err e n)
    | absent ↦ (none, if fatal then db_err e n else e)
    | found p ↦ (some p, db_cache_update e n p)
  ]

  -- From the look into the cache on.
  unfoldable pub db_cached : Bool → ℕ → Ed env → Option Line × Ed env
  unfolding db_fetch
  db_cached fatal n e =
      if n == e.c_lno then (some e.c_lp, e) else db_fetch fatal n (record e { c_lno = 0 })

  -- The look into the text input queue: the line found there, or the number of the line in the
  -- file. A queue that spans the number without holding it is a null pointer in the source.
  unfoldable pub db_tinput : Bool → ℕ → Ed env → List Text → Option Line × Ed env
  unfolding db_cached
  db_tinput fatal n e [] = db_cached fatal n e
  db_tinput fatal n e (t ∷ q) =
      let l1 = first_lno t in
      let l2 = last_lno t q in
      if leb l1 n && leb n l2
      then (text_of (t ∷ q) n, e)
      else db_cached fatal (if ltb l2 n then n - (l2 - l1) else n) e

  -- `flags` is the two tests DBG_FATAL and DBG_NOCACHE.
  unfoldable pub db_get : Bool → Bool → ℕ → Ed env → Option Line × Ed env
  unfolding db_tinput
  db_get fatal nocache n e =
      if n == 0
      then (none, if fatal then db_err e n else e)
      else if not e.has_file
      then (none, report no_file_yet e)
      else if nocache
      then db_fetch fatal n e
      else db_tinput fatal n e e.tiq

  -- The status, and `*lnop`.
  unfoldable pub db_last : Ed env → Option ℕ × Ed env
  unfolding db_cache_update
  db_last e =
      if not e.has_file
      then (none, report no_file_yet e)
      else if not (e.c_nlines == 0)
      then (some (e.c_nlines + tinput_extra e.tiq), e)
      else elim (file.last e.db) [
        | failed ↦ (none, report unable_last e)
        | absent ↦ (some 0, e)
        | found (n, p) ↦
            (some (tinput_last e.tiq n), record (db_cache_update e n p) { c_nlines = n })
      ]

  unfoldable pub db_exist : ℕ → Ed env → Bool × Ed env
  unfolding db_get
  db_exist n e =
      if not e.has_file
      then (true, report no_file_yet e)
      else if n == 0
      then (false, e)
      else if not (e.c_nlines == 0)
      then (leb n (e.c_nlines + tinput_extra e.tiq), e)
      else let (p, e') = db_get false false n e in (is_some p, e')

  -- The line, and `*isemptyp`.
  unfoldable pub db_eget : ℕ → Ed env → (Option Line × Bool) × Ed env
  unfolding db_get db_last db_err
  db_eget n e =
      let (p, e1) = db_get false false n e in
      if is_some p
      then ((p, false), e1)
      else if n == 0 || n == 1
      then (let (l, e2) = db_last e1 in
          elim l [
            | none ↦ ((none, false), e2)
            | some l1 ↦ if not (l1 == 0) then ((none, false), db_err e2 n) else ((none, true), e2)
          ])
      else ((none, false), db_err e1 n)
