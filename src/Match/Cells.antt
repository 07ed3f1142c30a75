-- ===== src/Match/Cells.antt =====
-- The characters of the text with their places, and the partner of a bracket among them.
use open_vi.Common.{
  ℕ, zero, suc, ◌+◌, ◌-◌, if◌then◌else◌, Option, none, some, List, [], ◌∷◌, ◌++◌, length, drop,
  record_at, ◌==◌,
}
use open_vi.State.{Line, Mark}
use open_vi.Delete.Loop.{at}
use open_vi.Stream.{byte_at, v_isempty}
use open_vi.Match.{Start, find_bracket}

-- A byte and its place.
abbrev pub Cell : Type 0
Cell = ℕ × Mark

-- The bytes `u` of line `n`, which stand at column `c` and behind it.
abbrev pub cells : ℕ → ℕ → Line → List Cell
cells n c [] = []
cells n c (x ∷ u) = (x, at n c) ∷ cells n (suc c) u

-- The lines `ls`, which are number `n` and those behind it. Lines of blanks have no characters.
abbrev pub cells_of : ℕ → List Line → List Cell
cells_of n [] = []
cells_of n (l ∷ ls) = (if v_isempty l then [] else cells n 0 l) ++ cells_of (suc n) ls

-- What is behind column `c` of line `i + 1`, whose text is `l`.
abbrev pub cells_after : List Line → ℕ → ℕ → Line → List Cell
cells_after xs i c l =
    cells (suc i) (suc c) (drop (suc c) l) ++ cells_of (suc (suc i)) (drop (suc i) xs)

-- The other way: the bytes of line `n` before column `c`, and the first `i` lines, the last first.
abbrev pub cells_back : ℕ → ℕ → Line → List Cell
cells_back n zero l = []
cells_back n (suc c) l = (byte_at l c, at n c) ∷ cells_back n c l

abbrev pub line_back : ℕ → Option Line → List Cell
line_back n none = []
line_back n (some l) = if v_isempty l then [] else cells_back n (length l) l

abbrev pub lines_back : List Line → ℕ → List Cell
lines_back xs zero = []
lines_back xs (suc i) = line_back (suc i) (record_at xs (suc i)) ++ lines_back xs i

abbrev pub cells_before : List Line → ℕ → ℕ → Line → List Cell
cells_before xs i c l = cells_back (suc i) c l ++ lines_back xs i

-- The place where the brackets that are open, `n` of them, are all closed.
abbrev pub closing : ℕ → ℕ → ℕ → List Cell → Option Mark
closing startc matchc n [] = none
closing startc matchc n ((ch, p) ∷ cs) =
    if ch == startc
    then closing startc matchc (suc n) cs
    else if ch == matchc
    then if n == 1 then some p else closing startc matchc (n - 1) cs
    else closing startc matchc n cs

-- The partner of the bracket `s` of line `i + 1`.
abbrev pub partner_of : List Line → ℕ → Line → Option Start → Option Mark
partner_of xs i l none = none
partner_of xs i l (some s) =
    closing s.startc s.matchc 1
      (if s.forwards then cells_after xs i s.off l else cells_before xs i s.off l)

-- The partner of the first bracket at or behind column `c` of line `i + 1`.
abbrev pub partner : List Line → ℕ → ℕ → Line → Option Mark
partner xs i c l = partner_of xs i l (find_bracket c (drop c l))

-- The bytes and ends of the lines, which are enough steps to get through them.
abbrev pub size : List Line → ℕ
size [] = 0
size (l ∷ ls) = suc (length l) + size ls
