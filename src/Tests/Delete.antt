-- ===== src/Tests/Delete.antt =====
-- Text deleted from a file of three lines.
use open_vi.Common.{ℕ, refl, Bool, true, false, [], ◌∷◌, arith}
use open_vi.Delete.{del}
use open_vi.Delete.Loop.{at, Leaves}
use open_vi.Delete.Regions.{del-to_end, del-lines, del-text}
use open_vi.Tests.Editor.{services, services-Paints, file-Reliable, opened, opened-IsReady}

abbrev never : ℕ → Bool
never n = false

del-lines_example :
    Leaves opened (del services never (at 1 0) (at 2 0) true opened) ((b'c' ∷ []) ∷ [])
del-lines_example =
    del-lines services services-Paints file-Reliable never (λ n. refl) 0 0 2 0 opened refl
      (omega arith) (omega arith)

-- From the second column of "bb" to the only one of "c".
del-text_example :
    Leaves opened
      (del services never (at 2 1) (at 3 0) false opened)
      ((b'a' ∷ []) ∷ (b'b' ∷ []) ∷ [])
del-text_example =
    del-text services services-Paints file-Reliable never (λ n. refl) 1 1 2 0 (b'b' ∷ b'b' ∷ [])
      (b'c' ∷ []) opened opened-IsReady refl refl (omega arith) (λ z. absurd (omega (arith, z)))
      (omega arith) (omega arith) (omega arith)

-- From the second column of "bb" to column 9 of line 3, which is the last.
del-to_end_example :
    Leaves opened
      (del services never (at 2 1) (at 3 9) false opened)
      ((b'a' ∷ []) ∷ (b'b' ∷ []) ∷ [])
del-to_end_example =
    del-to_end services services-Paints file-Reliable never (λ n. refl) 1 1 2 9 (b'b' ∷ b'b' ∷ [])
      (b'c' ∷ []) opened opened-IsReady refl refl refl (omega arith) (omega arith) (omega arith)
      (λ z. omega (arith, z))
