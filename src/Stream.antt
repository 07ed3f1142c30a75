-- ===== src/Stream.antt =====
-- vi/getc.c: the text as a stream of characters, with the structure of vi/vi.h that stands in it; and
-- v_isempty of vi/v_util.c. Columns are columns of their lines.
use open_vi.Common.{
  ℕ, zero, suc, ◌-◌, Bool, true, false, not, ◌&&◌, ◌||◌, Option, none, some, [], ◌∷◌, length, ◌==◌,
  if◌then◌else◌,
}
use open_vi.State.{Line, Env, Ed, report, empty_file}
use open_vi.Line.{db_get, db_eget}
use open_vi.Put.{is_blank}

-- `cs_flags`: 0, CS_EMP, CS_EOF, CS_EOL and CS_SOF.
pub data CsFlags : Type 0 where
  in_line cs_emp cs_eof cs_eol cs_sof : CsFlags

-- `VCS`
pub record Vcs : Type 0 where
  pub cs_lno : ℕ
  pub cs_cno : ℕ
  pub cs_bp : Line
  pub cs_len : ℕ
  pub cs_ch : ℕ
  pub cs_flags : CsFlags

abbrev pub byte_at : Line → ℕ → ℕ
byte_at [] i = 0
byte_at (x ∷ l) zero = x
byte_at (x ∷ l) (suc i) = byte_at l i

abbrev pub v_isempty : Line → Bool
v_isempty [] = true
v_isempty (x ∷ l) = is_blank x && v_isempty l

-- Standing in a line: at column `c`, or on the whole of it if it has nothing but blanks.
abbrev pub at_line : ℕ → Line → Vcs → Vcs
at_line c l v =
    if length l == 0 || v_isempty l
    then record v { cs_cno = 0; cs_bp = l; cs_len = length l; cs_flags = cs_emp }
    else record v {
      cs_cno = c;
      cs_bp = l;
      cs_len = length l;
      cs_ch = byte_at l c;
      cs_flags = in_line;
    }

abbrev pub next_char : Vcs → Vcs
next_char v =
    if v.cs_cno == v.cs_len - 1
    then record v { cs_flags = cs_eol }
    else record v { cs_cno = suc v.cs_cno; cs_ch = byte_at v.cs_bp (suc v.cs_cno) }

abbrev pub prev_char : Vcs → Vcs
prev_char v =
    if v.cs_cno == 0
    then record v { cs_flags = if v.cs_lno == 1 then cs_sof else cs_eol }
    else record v { cs_cno = v.cs_cno - 1; cs_ch = byte_at v.cs_bp (v.cs_cno - 1) }

-- Standing on a blank.
abbrev pub on_blank : CsFlags → ℕ → Bool
on_blank in_line c = is_blank c
on_blank _ c = false

-- The conditions under which the loops of `cs_fblank` and `cs_bblank` go on.
abbrev pub on_space : CsFlags → ℕ → Bool
on_space cs_eol c = true
on_space cs_emp c = true
on_space in_line c = is_blank c
on_space _ c = false

-- `cs_next` or `cs_prev`, as a function pointer.
abbrev pub Move : Env → Type 0
Move env = Vcs → Ed env → (Bool × Vcs) × Ed env

module _ {env : Env} where
  unfoldable pub cs_init : Vcs → Ed env → (Bool × Vcs) × Ed env
  cs_init v e =
      let ((p, isempty), e1) = db_eget v.cs_lno e in
      elim p [
        | none ↦ (
          (true, record v { cs_bp = []; cs_len = 0 }),
          (if isempty then report empty_file e1 else e1),
        )
        | some l ↦ ((false, at_line v.cs_cno l v), e1)
      ]

  -- The next line, from its end or from an empty one.
  unfoldable pub next_line : Vcs → Ed env → (Bool × Vcs) × Ed env
  next_line v e =
      let (p, e1) = db_get false false (suc v.cs_lno) e in
      elim p [
        | none ↦ ((false, record v { cs_len = 0; cs_flags = cs_eof }), e1)
        | some l ↦ ((false, at_line 0 l (record v { cs_lno = suc v.cs_lno })), e1)
      ]

  abbrev pub next_from : CsFlags → Vcs → Ed env → (Bool × Vcs) × Ed env
  next_from cs_emp v e = next_line v e
  next_from cs_eol v e = next_line v e
  next_from in_line v e = ((false, next_char v), e)
  next_from cs_eof v e = ((false, v), e)
  next_from cs_sof v e = ((false, v), e)

  unfoldable pub cs_next : Vcs → Ed env → (Bool × Vcs) × Ed env
  unfolding next_line
  cs_next v e = next_from v.cs_flags v e

  -- The line before, from an end of line or from an empty line.
  unfoldable pub prev_line : Vcs → Ed env → (Bool × Vcs) × Ed env
  prev_line v e =
      let (p, e1) = db_get true false (v.cs_lno - 1) e in
      if v.cs_lno == 1 then ((false, record v { cs_flags = cs_sof }), e) else elim p [
        | none ↦ ((true, record v { cs_bp = []; cs_len = 0 }), e1)
        | some l ↦ ((false, at_line (length l - 1) l (record v { cs_lno = v.cs_lno - 1 })), e1)
      ]

  abbrev pub prev_from : CsFlags → Vcs → Ed env → (Bool × Vcs) × Ed env
  prev_from cs_emp v e = prev_line v e
  prev_from cs_eol v e = prev_line v e
  prev_from in_line v e = ((false, prev_char v), e)
  prev_from cs_eof v e = ((false, prev_char v), e)
  prev_from cs_sof v e = ((false, v), e)

  unfoldable pub cs_prev : Vcs → Ed env → (Bool × Vcs) × Ed env
  unfolding prev_line
  cs_prev v e = prev_from v.cs_flags v e

  -- The loops that step while a condition holds, on fuel.
  unfoldable pub step_while :
      (CsFlags → ℕ → Bool) → Move env → ℕ → Vcs → Ed env → Option ((Bool × Vcs) × Ed env)
  step_while more gc zero v e = none
  step_while more gc (suc k) v e =
      let ((bad, v1), e1) = gc v e in
      let rest = step_while more gc k v1 e1 in
      if bad
      then some ((true, v1), e1)
      else if more v1.cs_flags v1.cs_ch
      then rest
      else some ((false, v1), e1)

  unfoldable pub cs_fspace : ℕ → Vcs → Ed env → Option ((Bool × Vcs) × Ed env)
  unfolding step_while cs_next
  cs_fspace k v e =
      if not (on_blank v.cs_flags v.cs_ch)
      then some ((false, v), e)
      else step_while on_blank cs_next k v e

  unfoldable pub cs_fblank : ℕ → Vcs → Ed env → Option ((Bool × Vcs) × Ed env)
  unfolding step_while cs_next
  cs_fblank k v e = step_while on_space cs_next k v e

  unfoldable pub cs_bblank : ℕ → Vcs → Ed env → Option ((Bool × Vcs) × Ed env)
  unfolding step_while cs_prev
  cs_bblank k v e = step_while on_space cs_prev k v e
