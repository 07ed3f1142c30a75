-- ===== src/Tests/Match.antt =====
-- The % command in a file of three lines.
use open_vi.Common.{true, false, refl, some, List, [], ◌∷◌, arith}
use open_vi.State.{Line, Ed}
use open_vi.Delete.Loop.{at}
use open_vi.Match.{Vicmd, v_match}
use open_vi.Match.Partner.{Answers, v_match-partner}
use open_vi.Tests.Editor.{env, file-Reliable, opened}

-- "f(x" and ")" with a blank line between.
abbrev call : List Line
call = (b'f' ∷ b'(' ∷ b'x' ∷ []) ∷ (32 ∷ []) ∷ (b'y' ∷ b')' ∷ []) ∷ []

abbrev ed : Ed env
ed = record opened { db = call }

abbrev on_f : Vicmd
on_f = record {
  m_start = at 1 0;
  m_stop = at 1 0;
  m_final = at 1 0;
  is_motion = true;
  vm_lmode = false;
}

-- From the "f", the second column of line 3.
v_match-partner_example : Answers on_f (some (at 3 1)) ed (v_match 12 on_f ed)
v_match-partner_example =
    v_match-partner file-Reliable 12 0 (b'f' ∷ b'(' ∷ b'x' ∷ []) on_f ed
      (record {
        has_file = refl;
        tiq = refl;
        coherent = record { line = λ z. absurd (z refl); count = λ z. absurd (z refl) };
      })
      refl refl (omega arith)
