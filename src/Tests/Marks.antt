-- ===== src/Tests/Marks.antt =====
-- Marks a and c, set in a file of three lines, and ranges of lines to visit.
use open_vi.Common.{ℕ, ◌≡◌, refl, true, some, List, [], ◌∷◌, arith}
use open_vi.State.{Mark, LMark, Ed}
use open_vi.Line.Refine.{IsReady}
use open_vi.Marks.{new_mark, mark_set, mark_get}
use open_vi.Marks.Order.{IsSorted, find_name}
use open_vi.Marks.Places.{mark_set-IsSorted, mark_get-place, mark_get-mark_set}
use open_vi.Tests.Editor.{env, file-Reliable, opened}

abbrev at : ℕ → Mark
at n = record { lno = n; cno = 1 }

abbrev two : List LMark
two = new_mark b'a' (at 1) true ∷ new_mark b'c' (at 3) true ∷ []

abbrev marked : Ed env
marked = record opened { marks = two }

marked-IsReady : IsReady marked
marked-IsReady = record {
  has_file = refl;
  tiq = refl;
  coherent = record { line = λ z. absurd (z refl); count = λ z. absurd (z refl) };
}

two-IsSorted : IsSorted two
two-IsSorted = (omega arith, (tt, tt))

mark_set-IsSorted_example : IsSorted (mark_set b'b' (at 2) true marked).marks
mark_set-IsSorted_example = mark_set-IsSorted b'b' (at 2) true marked two-IsSorted

mark_get-place_example : (mark_get b'c' marked).0 ≡ some (at 3)
unfolding find_name
mark_get-place_example = mark_get-place file-Reliable b'c' marked marked-IsReady two-IsSorted

mark_get-mark_set_example : (mark_get b'a' (mark_set b'a' (at 2) true marked)).0 ≡ some (at 2)
unfolding find_name
mark_get-mark_set_example =
    mark_get-mark_set file-Reliable b'a' b'a' (at 2) true marked marked-IsReady two-IsSorted
