-- ===== src/Tests/Editor.antt =====
-- An editor over databases that are lists, with one screen that paints without reading.
use open_vi.Common.{true, false, refl, List, [], ◌∷◌, arith}
use open_vi.Recno.{Reliable}
use open_vi.Recno.Memory.{memory, memory-Reliable}
use open_vi.State.{Line, Env, Ed, forward}
use open_vi.Line.Reads.{ReadOnly-refl}
use open_vi.Line.Refine.{IsReady}
use open_vi.Log.{origin}
use open_vi.Log.Trail.{IsLogging}
use open_vi.Edit.{Services}
use open_vi.Roll.Quiet.{Paints}

abbrev pub env : Env
env = record { file = memory; logs = memory; View = Unit {0} }

abbrev pub services : Services env
services = record {
  Screen = Unit {0};
  self = tt;
  others = λ v. [];
  vs_change = λ t n op e. (false, e);
  rcv_init = λ e. e;
  tmp_blen = 0;
  vs_change_reads = λ t n op e. ReadOnly-refl e;
  rcv_init_reads = λ e. ReadOnly-refl e;
}

pub services-Paints : Paints services
services-Paints = record { paints = λ t n op e. refl }

pub file-Reliable : Reliable env.file
file-Reliable = memory-Reliable

pub logs-Reliable : Reliable env.logs
logs-Reliable = memory-Reliable

-- A file of three lines, just opened, with the cursor on line 2.
abbrev pub three : List Line
three = (b'a' ∷ []) ∷ (b'b' ∷ b'b' ∷ []) ∷ (b'c' ∷ []) ∷ []

abbrev pub opened : Ed env
opened = record {
  has_file = true;
  sc_ex = false;
  tiq = [];
  lno = 2;
  cno = 0;
  rptlchange = 0;
  added = 0;
  deleted = 0;
  changed = 0;
  moved = 0;
  ecq = [];
  db = three;
  c_lp = [];
  c_lno = 0;
  c_nlines = 0;
  log = [];
  l_high = 1;
  l_cur = 1;
  l_cursor = origin;
  lundo = forward;
  marks = [];
  first_modify = true;
  modified = false;
  nolog = false;
  undo = false;
  rcv_sync = false;
  msgs = [];
  view = tt;
}

pub opened-IsReady : IsReady opened
opened-IsReady = record {
  has_file = refl;
  tiq = refl;
  coherent = record { line = λ z. absurd (z refl); count = λ z. absurd (z refl) };
}

pub opened-IsLogging : IsLogging opened
opened-IsLogging = record { on = refl; first = omega arith; last = omega arith }
