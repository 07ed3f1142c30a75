-- ===== src/Cut.antt =====
-- common/cut.c: cut buffers. The queue of a buffer is the list of its lines; a pointer to a buffer
-- is the name of the buffer, or that it is the unnamed one. Lengths are computed in a size_t. A copy
-- that reaches out of its line sets `stray`: its bytes are not determined.
pub mod Portion
pub mod Area
pub mod Lines
pub mod Names
pub mod Passes
pub mod Buffers
pub mod Region
use open_vi.Common.{
  ℕ, zero, suc, ◌+◌, ◌-◌, Bool, true, false, not, ◌&&◌, ◌||◌, Option, none, some, List, [], ◌∷◌,
  ◌++◌, length, take, drop, ltb, leb, ◌==◌, if◌then◌else◌,
}
use open_vi.State.{Line, Mark, Env, Ed}
use open_vi.Line.{db_get}
use open_vi.Delete.{size_max, next}

-- `CB`
pub record Cb : Type 0 where
  pub name : ℕ
  pub textq : List Line
  pub len : ℕ
  -- CB_LMODE
  pub lmode : Bool
  -- a text of the buffer was copied from outside of its line; not a field of the program
  pub stray : Bool

-- Which buffer: `dcb_store`, or one of the list.
pub data Where : Type 0 where
  store : Where
  named : ℕ → Where

-- The cut buffers of `GS`: `cutq`, `dcb_store` and `dcbp`.
pub record Cuts : Type 0 where
  pub cutq : List Cb
  pub dcb_store : Cb
  pub dcbp : Option Where

-- The flags CUT_LINEMODE, CUT_NUMOPT and CUT_NUMREQ.
pub record CutFlags : Type 0 where
  pub linemode : Bool
  pub numopt : Bool
  pub numreq : Bool

abbrev pub is_upper : ℕ → Bool
is_upper c = leb b'A' c && leb c b'Z'

abbrev pub to_lower : ℕ → ℕ
to_lower c = if is_upper c then c + 32 else c

-- The search of CBNAME, for a name in lower case.
abbrev pub find_cb : ℕ → List Cb → Option Cb
find_cb n [] = none
find_cb n (b ∷ bs) = if b.name == n then some b else find_cb n bs

-- The buffer of the name, changed.
abbrev pub set_cb : ℕ → Cb → List Cb → List Cb
set_cb n v [] = []
set_cb n v (b ∷ bs) = if b.name == n then v ∷ bs else b ∷ set_cb n v bs

abbrev pub empty_cb : ℕ → Cb
empty_cb n = record { name = n; textq = []; len = 0; lmode = false; stray = false }

abbrev pub clear_cb : Cb → Cb
clear_cb b = record b { textq = []; len = 0; lmode = false; stray = false }

abbrev pub cb_at : Where → Cuts → Option Cb
cb_at store c = some c.dcb_store
cb_at (named n) c = find_cb n c.cutq

abbrev pub cb_store : Where → Cb → Cuts → Cuts
cb_store store b c = record c { dcb_store = b }
cb_store (named n) b c = record c { cutq = set_cb n b c.cutq }

-- The start of `copyloop`: a new buffer goes to the head of the list.
unfoldable pub cb_open : Where → Bool → Cuts → Cb × Cuts
cb_open store append c = ((if append then c.dcb_store else clear_cb c.dcb_store), c)
cb_open (named n) append c = elim (find_cb n c.cutq) [
  | none ↦ (empty_cb n, record c { cutq = empty_cb n ∷ c.cutq })
  | some b ↦ ((if append then b else clear_cb b), c)
]

abbrev pub rename : ℕ → ℕ
rename n = if leb b'1' n && ltb n b'9' then suc n else n

abbrev pub is_none : Option Cb → Bool
is_none none = true
is_none (some _) = false

-- The names move up one; the last buffer that was named 9 goes.
unfoldable pub rotate : List Cb → List Cb
rotate [] = []
rotate (b ∷ bs) =
    let rest = rotate bs in
    if b.name == b'9' && is_none (find_cb b'9' bs)
    then rest
    else record b { name = rename b.name } ∷ rest

-- A pointer to the buffer that goes is not used again: `cut` sets it.
abbrev pub rotate_pointer : Option Where → Option Where
rotate_pointer none = none
rotate_pointer (some store) = some store
rotate_pointer (some (named n)) = if n == b'9' then none else some (named (rename n))

unfoldable pub cb_rotate : Cuts → Cuts
unfolding rotate
cb_rotate c = record c { cutq = rotate c.cutq; dcbp = rotate_pointer c.dcbp }

unfoldable pub cut_close : Cuts → Cuts
cut_close c = record c { cutq = []; dcb_store = record c.dcb_store { textq = [] } }

-- `a - b` in a size_t
abbrev pub size_sub : ℕ → ℕ → ℕ
size_sub a b = if leb b a then a - b else suc size_max - (b - a)

-- The length of the copy; `size_max` is CUT_LINE_TO_EOL.
abbrev pub copy_len : ℕ → ℕ → Line → ℕ
copy_len fcno clen l = if clen == size_max then size_sub (length l) fcno else clen

-- The bytes of the line that are copied, none of an empty line.
abbrev pub portion : ℕ → ℕ → Line → Line
portion fcno clen l = if length l == 0 then [] else take (copy_len fcno clen l) (drop fcno l)

-- The copy ends behind the line.
abbrev pub strays : ℕ → ℕ → Line → Bool
strays fcno clen l = not (length l == 0) && ltb (length l) (fcno + copy_len fcno clen l)

abbrev pub add_text : Line → Bool → Cb → Cb
add_text t out b = record b {
  textq = b.textq ++ (t ∷ []);
  len = b.len + length t;
  stray = b.stray || out;
}

abbrev pub is_numbered : Mark → Mark → CutFlags → Bool
is_numbered fm tm f = f.numreq || (f.numopt && (f.linemode || not (tm.lno == fm.lno)))

module _ {env : Env} where
  unfoldable pub cut_line : ℕ → ℕ → ℕ → Cb → Ed env → (Bool × Cb) × Ed env
  cut_line lno fcno clen b e =
      let (p, e1) = db_get true false lno e in
      elim p [
        | none ↦ ((true, b), e1)
        | some l ↦ ((false, add_text (portion fcno clen l) (strays fcno clen l) b), e1)
      ]

  -- The loops over whole lines: `k` lines from `lno`.
  unfoldable pub cut_lines : ℕ → ℕ → Cb → Ed env → (Bool × Cb) × Ed env
  unfolding cut_line
  cut_lines zero lno b e = ((false, b), e)
  cut_lines (suc k) lno b e =
      let ((bad, b1), e1) = cut_line lno 0 size_max b e in
      let rest = cut_lines k (suc lno) b1 e1 in if bad then ((true, b1), e1) else rest

  -- The last line, if there is more than one.
  unfoldable pub cut_end : Mark → Mark → Cb → Ed env → (Bool × Cb) × Ed env
  unfolding cut_line cut_lines
  cut_end fm tm b e =
      if tm.lno == fm.lno
      then ((false, b), e)
      else cut_line (if ltb fm.lno tm.lno then tm.lno else suc fm.lno) 0 (next tm.cno) b e

  unfoldable pub cut_text : Bool → Mark → Mark → Cb → Ed env → (Bool × Cb) × Ed env
  unfolding cut_line cut_lines cut_end
  cut_text true fm tm b e = cut_lines (suc tm.lno - fm.lno) fm.lno (record b { lmode = true }) e
  cut_text false fm tm b e =
      let clen = if tm.lno == fm.lno then next (size_sub tm.cno fm.cno) else size_max in
      let ((bad1, b1), e1) = cut_line fm.lno fm.cno clen b e in
      let ((bad2, b2), e2) = cut_lines (tm.lno - suc fm.lno) (suc fm.lno) b1 e1 in
      if bad1 then ((true, b1), e1) else if bad2 then ((true, b2), e2) else cut_end fm tm b2 e2

  -- One turn of `copyloop`.
  unfoldable pub cut_pass : Bool → Mark → Mark → Where → Bool → Cuts → Ed env → Bool × Cuts × Ed env
  unfolding cb_open cut_text
  cut_pass linemode fm tm w append c e =
      let (b, c1) = cb_open w append c in
      let ((bad, b1), e1) = cut_text linemode fm tm b e in
      if bad
      then (true, record (cb_store w (clear_cb b1) c1) { dcbp = none }, e1)
      else (false, record (cb_store w b1 c1) { dcbp = some w }, e1)

  -- The turns: the first into the buffer asked for, one more where `copy_one` or `copy_def` is set.
  -- The second turn of `copy_one` looks `name` up again, which is still the name asked for.
  unfoldable pub cut_twice :
      Bool → Mark → Mark → Where → Bool → Option Where → Cuts → Ed env → Bool × Cuts × Ed env
  cut_twice linemode fm tm w append second c e =
      let (bad, c1, e1) = cut_pass linemode fm tm w append c e in
      if bad
      then (true, c1, e1)
      else elim second [ none ↦ (false, c1, e1) | some w2 ↦ cut_pass linemode fm tm w2 false c1 e1 ]

  unfoldable pub cut_into : Option ℕ → Mark → Mark → CutFlags → Cuts → Ed env → Bool × Cuts × Ed env
  cut_into (some n) fm tm f c e =
      let numbered = is_numbered fm tm f in
      let w = named (to_lower n) in
      let second : Option Where =
        if numbered then some w else if is_upper n then some store else none in
      cut_twice f.linemode fm tm w (is_upper n) second (if numbered then cb_rotate c else c) e
  cut_into none fm tm f c e =
      if is_numbered fm tm f
      then cut_twice f.linemode fm tm (named b'1') false none (cb_rotate c) e
      else cut_twice f.linemode fm tm store false none c e

  unfoldable pub cut : Option ℕ → Mark → Mark → CutFlags → Cuts → Ed env → Bool × Cuts × Ed env
  cut name fm tm f c e =
      if fm.lno == 0 || tm.lno == 0 then (true, c, e) else cut_into name fm tm f c e
