-- ===== src/Match.antt =====
-- vi/v_match.c: the % command, with the fields of `VICMD` of vi/vi.h that it uses.
pub mod Cells
pub mod Bracket
pub mod Hunt
pub mod Places
pub mod Forward
pub mod Backward
pub mod Ending
pub mod Partner
use open_vi.Common.{
  ℕ, zero, suc, ◌-◌, Bool, true, false, not, ◌&&◌, ◌||◌, Option, none, some, [], ◌∷◌, drop, ltb,
  ◌==◌, if◌then◌else◌,
}
use open_vi.State.{Line, Mark, Env, Ed, report, no_match_character, match_not_found}
use open_vi.Line.{db_get, db_eget}
use open_vi.Put.{nonblank}
use open_vi.Stream.{
  CsFlags, in_line, cs_emp, cs_eof, cs_eol, cs_sof, Vcs, v_isempty, Move, cs_init, cs_next, cs_prev,
}

pub record Vicmd : Type 0 where
  pub m_start : Mark
  pub m_stop : Mark
  pub m_final : Mark
  -- ISMOTION
  pub is_motion : Bool
  -- VM_LMODE
  pub vm_lmode : Bool

-- What the switch sets: `matchc`, and whether `gc` is `cs_next`.
abbrev pub bracket : ℕ → Option (ℕ × Bool)
bracket c =
    if c == b'('
    then some (b')', true)
    else if c == b')'
    then some (b'(', false)
    else if c == b'['
    then some (b']', true)
    else if c == b']'
    then some (b'[', false)
    else if c == b'{'
    then some (b'}', true)
    else if c == b'}'
    then some (b'{', false)
    else if c == b'<'
    then some (b'>', true)
    else if c == b'>'
    then some (b'<', false)
    else none

pub record Start : Type 0 where
  pub off : ℕ
  pub startc : ℕ
  pub matchc : ℕ
  pub forwards : Bool

-- The first bracket of the text, which is at column `off`.
abbrev pub find_bracket : ℕ → Line → Option Start
find_bracket off [] = none
find_bracket off (c ∷ l) = elim (bracket c) [
  | none ↦ find_bracket (suc off) l
  | some m ↦ some (record { off = off; startc = c; matchc = m.0; forwards = m.1 })
]

abbrev pub count_match : ℕ → ℕ → CsFlags → ℕ → ℕ → ℕ
count_match startc matchc in_line ch cnt =
    if ch == startc then suc cnt else if ch == matchc then cnt - 1 else cnt
count_match startc matchc _ ch cnt = cnt

-- The two breaks of the loop: at an end of the file, and where the count gets to 0.
abbrev pub is_last : ℕ → CsFlags → Bool
is_last cnt cs_eof = true
is_last cnt cs_sof = true
is_last cnt in_line = cnt == 0
is_last cnt _ = false

abbrev pub is_before : Mark → Mark → Bool
is_before a b = ltb a.lno b.lno || (a.lno == b.lno && ltb a.cno b.cno)

-- Where the command ends.
abbrev pub set_final : Vicmd → Vicmd
set_final vp = record vp {
  m_final = if is_before vp.m_start vp.m_stop && vp.is_motion then vp.m_start else vp.m_stop;
}

abbrev pub stream_at : ℕ → ℕ → Vcs
stream_at n c = record {
  cs_lno = n;
  cs_cno = c;
  cs_bp = [];
  cs_len = 0;
  cs_ch = 0;
  cs_flags = in_line;
}

module _ {env : Env} where
  -- The status, `cnt` and `cs`.
  unfoldable pub match_loop :
      ℕ → Move env → ℕ → ℕ → ℕ → Vcs → Ed env → Option ((Bool × ℕ × Vcs) × Ed env)
  match_loop zero gc startc matchc cnt v e = none
  match_loop (suc k) gc startc matchc cnt v e =
      let ((bad, v1), e1) = gc v e in
      let n = count_match startc matchc v1.cs_flags v1.cs_ch cnt in
      let rest = match_loop k gc startc matchc n v1 e1 in
      if bad
      then some ((true, cnt, v1), e1)
      else if is_last n v1.cs_flags
      then some ((false, n, v1), e1)
      else rest

  -- The motion is in line mode if there is nothing but blanks around it.
  unfoldable pub set_mode : Mark → Mark → Vicmd → Ed env → (Bool × Vicmd) × Ed env
  set_mode low high vp e =
      let ((bad, cno), e1) = nonblank low.lno 0 e in
      let inside = not (low.cno == 0) in
      let (p, e2) = db_get true false high.lno (if inside then e1 else e) in
      if inside && bad
      then ((true, vp), e1)
      else if inside && ltb cno low.cno
      then ((false, vp), e1)
      else elim p [
        | none ↦ ((true, vp), e2)
        | some l ↦
            ((false, record vp { vm_lmode = vp.vm_lmode || v_isempty (drop (suc high.cno) l) }), e2)
      ]

  unfoldable pub match_end : Vicmd → Ed env → (Bool × Vicmd) × Ed env
  unfolding set_mode
  match_end vp e =
      let vp1 = set_final vp in
      if not vp.is_motion || vp.m_start.lno == vp.m_stop.lno
      then ((false, vp1), e)
      else if ltb vp.m_start.lno vp.m_stop.lno
      then set_mode vp.m_start vp.m_stop vp1 e
      else set_mode vp.m_stop vp.m_start vp1 e

  -- What follows the loop: the status, `cnt` and `cs` of it, or that it had no fuel left.
  abbrev pub match_found :
      Vicmd → Option ((Bool × ℕ × Vcs) × Ed env) → Option ((Bool × Vicmd) × Ed env)
  match_found vp none = none
  match_found vp (some ((bad, cnt, v), e)) =
      if bad
      then some ((true, vp), e)
      else if not (cnt == 0)
      then some ((true, vp), report match_not_found e)
      else some (match_end (record vp { m_stop = record { lno = v.cs_lno; cno = v.cs_cno } }) e)

  unfoldable pub match_from : ℕ → Start → Vicmd → Ed env → Option ((Bool × Vicmd) × Ed env)
  unfolding match_loop match_end
  match_from k s vp e =
      let ((bad, v), e1) = cs_init (stream_at vp.m_start.lno s.off) e in
      let r = match_loop k (if s.forwards then cs_next else cs_prev) s.startc s.matchc 1 v e1 in
      if bad then some ((true, vp), e1) else match_found vp r

  -- The command; `k` is the fuel of its loop, and no answer means that it was not enough.
  unfoldable pub v_match : ℕ → Vicmd → Ed env → Option ((Bool × Vicmd) × Ed env)
  unfolding match_from
  v_match k vp e =
      let ((p, isempty), e1) = db_eget vp.m_start.lno e in
      elim p [
        | none ↦ some ((true, vp), (if isempty then report no_match_character e1 else e1))
        | some l ↦ elim (find_bracket vp.m_start.cno (drop vp.m_start.cno l)) [
          | none ↦ some ((true, vp), report no_match_character e1)
          | some s ↦ match_from k s vp e1
        ]
      ]
