-- ===== src/State.antt =====
-- The state that the line, log and mark routines share: `SCR` (common/screen.h), `EXF`
-- (common/exf.h), the positions of common/mark.h, the record types of common/log.h, and the `RANGE`
-- of an ex command (ex/ex.h).
use open_vi.Common.{ℕ, Bool, List, ◌∷◌}
use open_vi.Recno.{Recno}

-- A line is its bytes.
abbrev pub Line : Type 0
Line = List ℕ

-- `MARK`
pub record Mark : Type 0 where
  pub lno : ℕ
  pub cno : ℕ

-- `LMARK`, with its two flags
pub record LMark : Type 0 where
  pub lno : ℕ
  pub cno : ℕ
  pub name : ℕ
  pub deleted : Bool
  pub userset : Bool

-- A log record: the type byte with what follows it.
pub data LogRec : Type 0 where
  cursor_init cursor_end : Mark → LogRec
  line_append line_delete line_insert line_reset_f line_reset_b : ℕ → Line → LogRec
  mark : LMark → LogRec

-- `action` of `log_line`
pub data Action : Type 0 where
  append delete insert reset_f reset_b : Action

-- `lnop_t`; all appends reach the marks and the ranges as inserts
pub data Lnop : Type 0 where
  line_append line_delete line_insert line_reset : Lnop

-- `dir_t`
pub data Dir : Type 0 where
  notset forward backward : Dir

-- `TEXT`: a line of the input queue
pub record Text : Type 0 where
  pub lno : ℕ
  pub lb : Line

-- `RANGE`, and the command that the ranges belong to
pub record Range : Type 0 where
  pub start : ℕ
  pub stop : ℕ

pub record ExCmd : Type 0 where
  -- one of AGV_AT, AGV_GLOBAL and AGV_V is set
  pub agv : Bool
  pub rq : List Range
  pub range_lno : ℕ

-- The messages, one constructor for each text.
pub data Msg : Type 0 where
  no_file_yet unable_last no_logging no_undo no_redo log_file log_put_error log_restarted
        line_overflow default_empty inside_move empty_file no_match_character match_not_found :
      Msg
  unable_retrieve unable_delete unable_append unable_insert unable_store : ℕ → Msg
  mark_not_set mark_line_deleted mark_gone buffer_empty : ℕ → Msg

-- What is not under the editor's control: the databases, and the screens' own state.
pub record Env : Type 1 where
  pub file : Recno Line
  pub logs : Recno LogRec
  pub View : Type 0

pub record Ed (env : Env) : Type 0 where
  -- `sp->ep` is not NULL
  pub has_file : Bool
  -- SC_EX
  pub sc_ex : Bool
  -- `tiq`; SC_TINPUT is set exactly while the queue holds a line
  pub tiq : List Text
  pub lno : ℕ
  pub cno : ℕ
  -- `rptlchange`, and `rptlines` at L_ADDED, L_DELETED, L_CHANGED and
  -- L_MOVED
  pub rptlchange : ℕ
  pub added : ℕ
  pub deleted : ℕ
  pub changed : ℕ
  pub moved : ℕ
  -- the command queue of the global structure
  pub ecq : List ExCmd
  -- the fields of `EXF`
  pub db : env.file.Db
  pub c_lp : Line
  pub c_lno : ℕ
  pub c_nlines : ℕ
  pub log : env.logs.Db
  pub l_high : ℕ
  pub l_cur : ℕ
  pub l_cursor : Mark
  pub lundo : Dir
  pub marks : List LMark
  -- F_FIRSTMODIFY, F_MODIFIED, F_NOLOG, F_UNDO, F_RCV_SYNC
  pub first_modify : Bool
  pub modified : Bool
  pub nolog : Bool
  pub undo : Bool
  pub rcv_sync : Bool
  -- what has been reported, the newest first
  pub msgs : List Msg
  pub view : env.View

-- `msgq` and `ex_emsg`
abbrev pub report : {env : Env} → Msg → Ed env → Ed env
report m e = record e { msgs = m ∷ e.msgs }

-- The lines of the file, and the records of the log.
abbrev pub rows : {env : Env} → Ed env → List Line
rows {env} e = env.file.rows e.db

abbrev pub records : {env : Env} → Ed env → List LogRec
records {env} e = env.logs.rows e.log
