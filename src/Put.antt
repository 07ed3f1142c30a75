-- ===== src/Put.antt =====
-- common/put.c: putting the text of a cut buffer into the file; and `nonblank` of common/util.c.
pub mod Loop
pub mod Text
pub mod Back
pub mod Empty
pub mod Glue
pub mod Columns
pub mod Space
use open_vi.Common.{
  ℕ, zero, suc, ◌+◌, ◌-◌, ◌*◌, Bool, true, false, not, ◌&&◌, ◌||◌, Option, none, some, List, [],
  ◌∷◌, ◌++◌, length, take, drop, ltb, leb, ◌==◌, if◌then◌else◌,
}
use open_vi.State.{Line, Mark, Env, Ed, report, default_empty, buffer_empty}
use open_vi.Line.{db_eget, db_last}
use open_vi.Edit.{Services, db_append, db_set}
use open_vi.Roll.{count_change}
use open_vi.Cut.{Cb, Where, Cuts, cb_at, find_cb, to_lower}

-- A blank or a tab.
abbrev pub is_blank : ℕ → Bool
is_blank c = c == 32 || c == 9

-- How many bytes at the start of the text are blank.
abbrev pub blanks : Line → ℕ
blanks [] = 0
blanks (c ∷ l) = if is_blank c then suc (blanks l) else 0

-- `*cnop` for a line with text at `off`: the last column, if all of the rest is blank.
abbrev pub nonblank_at : ℕ → Line → ℕ
nonblank_at off l =
    if blanks (drop off l) == length (drop off l)
    then off + blanks (drop off l) - 1
    else off + blanks (drop off l)

-- The insides of the loop on `cnt` in character mode.
abbrev pub repeated : ℕ → Line → Line
repeated zero l = []
repeated (suc k) l = l ++ repeated k l

-- What is put over the end of the current line: the last line of the buffer, and the lines between.
abbrev pub last_line : Line → List Line → Line
last_line t [] = t
last_line t (u ∷ us) = last_line u us

abbrev pub middle : List Line → List Line
middle [] = []
middle (t ∷ []) = []
middle (t ∷ u ∷ us) = t ∷ middle (u ∷ us)

-- The column where the text is split, and the two parts; an empty line has none.
abbrev pub split_at : Mark → Bool → ℕ
split_at cp append = if append then suc cp.cno else cp.cno

abbrev pub left_of : Mark → Bool → Line → Line
left_of cp append p = if length p == 0 then [] else take (split_at cp append) p

abbrev pub right_of : Mark → Bool → Line → Line
right_of cp append p = if length p == 0 then [] else drop (split_at cp append) p

-- The space that is asked for the first line, before the bytes are copied.
abbrev pub put_space : Line → Line → ℕ
put_space t p = length t + length p + 1

-- The text goes in at a place of the line, so that the copies of its two parts stay in it.
abbrev pub in_line : Mark → Bool → Line → Bool
in_line cp append p = length p == 0 || leb (split_at cp append) (length p)

-- The size of a buffer of `blen` bytes after BINC_RET for `nlen` bytes.
abbrev pub binc : ℕ → ℕ → ℕ
binc blen nlen = if ltb blen nlen then blen + (if ltb nlen 256 then 256 else nlen) else blen

-- The copies stay in the buffer: those of the first line, after GET_SPACE_RET, and those of the
-- last one behind it, after ADD_SPACE_RET, which asks for the bytes of the last line only.
abbrev pub has_room : ℕ → Line → List Line → Line → Mark → Bool → ℕ → Bool
has_room blen t [] p cp append cnt =
    leb (length (left_of cp append p) + cnt * length t + length (right_of cp append p))
      (binc blen (put_space t p))
has_room blen t (u ∷ us) p cp append cnt =
    let size = binc blen (put_space t p) in
    let used = length (left_of cp append p) + cnt * length t in
    let clen = length (last_line u us) + length (right_of cp append p) in
    leb used size && leb (used + clen) (binc size clen)

module _ {env : Env} where
  -- The status, and `*cnop`.
  unfoldable pub nonblank : ℕ → ℕ → Ed env → (Bool × ℕ) × Ed env
  nonblank lno off e =
      let ((p, isempty), e1) = db_eget lno e in
      elim p [
        | none ↦ ((not isempty, 0), e1)
        | some l ↦
            if length l == 0 || leb (length l) off
            then ((false, 0), e1)
            else ((false, nonblank_at off l), e1)
      ]

  abbrev pub default_source : Option Where → Cuts → Ed env → Option Cb × Ed env
  default_source none c e = (none, report default_empty e)
  default_source (some w) c e = (cb_at w c, e)

  abbrev pub named_source : ℕ → Option Cb → Ed env → Option Cb × Ed env
  named_source n none e = (none, report (buffer_empty n) e)
  named_source n (some b) e = (some b, e)

  -- The buffer that the names stand for, or the state with the message that there is none.
  unfoldable pub put_source : Option Cb → Option ℕ → Cuts → Ed env → Option Cb × Ed env
  put_source (some b) name c e = (some b, e)
  put_source none none c e = default_source c.dcbp c e
  put_source none (some n) c e = named_source n (find_cb (to_lower n) c.cutq) e

module _ {env : Env} (s : Services env) where
  -- The lines of the queue, appended one behind the other: the status, and the line number.
  unfoldable pub append_lines : List Line → ℕ → Ed env → (Bool × ℕ) × Ed env
  append_lines [] lno e = ((false, lno), e)
  append_lines (t ∷ ts) lno e =
      let (bad, e1) = db_append s true lno t e in
      let rest = append_lines ts (suc lno) (record e1 { added = suc e1.added }) in
      if bad then ((true, lno), e1) else rest

  unfoldable pub append_times : ℕ → List Line → ℕ → Ed env → (Bool × ℕ) × Ed env
  unfolding append_lines
  append_times zero ts lno e = ((false, lno), e)
  append_times (suc k) ts lno e =
      let ((bad, n), e1) = append_lines ts lno e in
      let rest = append_times k ts n e1 in if bad then ((true, n), e1) else rest

  -- A buffer in line mode, in a file with lines.
  unfoldable pub put_lines : List Line → Mark → Mark → Bool → ℕ → Ed env → (Bool × Mark) × Ed env
  unfolding append_times
  put_lines ts cp rp append cnt e =
      let lno = if append then cp.lno else cp.lno - 1 in
      let ((bad, n), e1) = append_times cnt ts lno e in
      let ((bad2, cno), e2) = nonblank (suc lno) 0 e1 in
      if bad
      then ((true, record rp { lno = suc lno }), e1)
      else ((false, record { lno = suc lno; cno = cno }), e2)

  -- The lines behind the first: the intermediate ones, and the last with the end of the old line.
  unfoldable pub put_rest : Line → List Line → Line → ℕ → Ed env → Bool × Ed env
  unfolding append_lines
  put_rest u us right lno e =
      let ((bad, n), e1) = append_lines (middle (u ∷ us)) lno e in
      let (bad2, e2) = db_append s true n (last_line u us ++ right) e1 in
      if bad
      then (true, e1)
      else if bad2
      then (true, e2)
      else (false, record e2 { added = suc e2.added })

  -- A buffer in character mode, with the first line `t`, into the line `p`.
  unfoldable pub put_columns : Line → List Line → Line → Mark → Bool → ℕ → Ed env → Bool × Ed env
  unfolding put_rest
  put_columns t [] p cp append cnt e =
      let (bad, e1) =
        db_set s cp.lno (left_of cp append p ++ (repeated cnt t ++ right_of cp append p)) e in
      if bad then (true, e1) else (false, count_change cp.lno e1)
  put_columns t (u ∷ us) p cp append cnt e =
      let (bad, e1) = db_set s cp.lno (left_of cp append p ++ repeated cnt t) e in
      let rest = put_rest u us (right_of cp append p) cp.lno (count_change cp.lno e1) in
      if bad then (true, e1) else rest

  -- `none` is the read through a null pointer that a queue without a line leads to, a copy out of
  -- the line, where the mark is not in it, or a copy out of the buffer.
  unfoldable pub put_text :
      List Line → Mark → Mark → Bool → ℕ → Ed env → Option ((Bool × Mark) × Ed env)
  put_text ts cp rp append cnt e =
      let ((p, isempty), e1) = db_eget cp.lno e in
      let line : Option Line = elim p [
        | some l ↦ some l
        | none ↦ if isempty then some [] else none
      ] in
      elim line [
        | none ↦ some ((true, rp), e1)
        | some l ↦ elim ts [
          | [] ↦ none
          | t ∷ us ↦
              let (bad, e2) = put_columns t us l cp append cnt e1 in
              let cno =
                if length l == 0
                then 0
                else if append && not (length t == 0)
                then suc e1.cno
                else e1.cno in
              if in_line cp append l && has_room s.tmp_blen t us l cp append cnt
              then some ((bad, record { lno = cp.lno; cno = cno }), e2)
              else none
        ]
      ]

  unfoldable pub put_mode : Cb → Mark → Mark → Bool → ℕ → Ed env → Option ((Bool × Mark) × Ed env)
  put_mode b cp rp append cnt e =
      if b.lmode
      then some (put_lines b.textq cp rp append cnt e)
      else put_text b.textq cp rp append cnt e

  -- Into an empty file, a buffer in line mode becomes the file.
  unfoldable pub put_into : Cb → Mark → Mark → Bool → ℕ → Ed env → Option ((Bool × Mark) × Ed env)
  put_into b cp rp append cnt e =
      let (l, e1) = db_last e in
      let ((bad, n), e2) = append_times cnt b.textq 0 e1 in
      if not (cp.lno == 1) then put_mode b cp rp append cnt e else elim l [
        | none ↦ some ((true, rp), e1)
        | some lno ↦
            if not (lno == 0 && b.lmode)
            then put_mode b cp rp append cnt e1
            else if bad
            then some ((true, rp), e2)
            else some ((false, record { lno = 1; cno = 0 }), e2)
      ]

  abbrev pub put_from :
      Mark → Mark → Bool → ℕ → Option Cb × Ed env → Option ((Bool × Mark) × Ed env)
  put_from cp rp append cnt (none, e) = some ((true, rp), e)
  put_from cp rp append cnt (some b, e) = put_into b cp rp append cnt e

  unfoldable pub put :
      Option Cb
      → Option ℕ
      → Mark
      → Mark
      → Bool
      → ℕ
      → Cuts
      → Ed env
      → Option ((Bool × Mark) × Ed env)
  put cbp name cp rp append cnt c e = put_from cp rp append cnt (put_source cbp name c e)
