-- ===== src/Tests/ExLines.antt =====
-- Lines copied and moved in a file of three lines.
use open_vi.Common.{ℕ, false, refl, none, [], ◌∷◌, arith}
use open_vi.Delete.Loop.{at}
use open_vi.Cut.{Cuts}
use open_vi.ExLines.{Command, ex_move, ex_copy}
use open_vi.ExLines.Turn.{Moves}
use open_vi.ExLines.Move.{ex_move-down, ex_move-up}
use open_vi.ExLines.Copy.{Copies, ex_copy-lines}
use open_vi.Tests.Editor.{services, services-Paints, file-Reliable, opened, opened-IsReady}

abbrev no_cuts : Cuts
no_cuts = record {
  cutq = [];
  dcb_store = record { name = 0; textq = []; len = 0; lmode = false; stray = false };
  dcbp = none;
}

-- The lines from one to another, to be put behind a third.
abbrev lines_to : ℕ → ℕ → ℕ → Command
lines_to i j m = record { addr1 = at i 0; addr2 = at j 0; lineno = m; buffer = none }

-- 1m2
ex_move-down_example :
    Moves
      (ex_move services (lines_to 1 1 2) opened)
      ((b'b' ∷ b'b' ∷ []) ∷ (b'a' ∷ []) ∷ (b'c' ∷ []) ∷ [])
ex_move-down_example =
    ex_move-down services services-Paints file-Reliable ((b'a' ∷ []) ∷ []) []
      ((b'b' ∷ b'b' ∷ []) ∷ []) ((b'c' ∷ []) ∷ []) (lines_to 1 1 2) opened opened-IsReady refl
      (omega arith) (omega arith) refl refl refl

-- 2,3m0
ex_move-up_example :
    Moves
      (ex_move services (lines_to 2 3 0) opened)
      ((b'b' ∷ b'b' ∷ []) ∷ (b'c' ∷ []) ∷ (b'a' ∷ []) ∷ [])
ex_move-up_example =
    ex_move-up services services-Paints file-Reliable ((b'b' ∷ b'b' ∷ []) ∷ (b'c' ∷ []) ∷ []) []
      ((b'a' ∷ []) ∷ []) [] (lines_to 2 3 0) opened opened-IsReady refl (omega arith) refl refl refl

-- 1,2co1
ex_copy-lines_example :
    Copies services services-Paints file-Reliable opened 3
      ((b'a' ∷ []) ∷ (b'a' ∷ []) ∷ (b'b' ∷ b'b' ∷ []) ∷ (b'b' ∷ b'b' ∷ []) ∷ (b'c' ∷ []) ∷ [])
      (ex_copy services (lines_to 1 2 1) no_cuts opened)
ex_copy-lines_example =
    ex_copy-lines services services-Paints file-Reliable 0 2 1 (lines_to 1 2 1) no_cuts opened
      opened-IsReady (omega arith) (omega arith) (omega arith) refl refl refl
