-- ===== src/Ranges/Cover.antt =====
-- The lines that a command has still to visit, before and after an insertion or a deletion.
use open_vi.Common.{
  ℕ, suc, ◌-◌, ◌≤◌, ◌<◌, ◌≡◌, ◌≢◌, refl, Bool, true, false, ◌&&◌, ◌||◌, ◌⊎◌, List, [], ◌∷◌, arith,
  ltb, leb, ◌==◌, if◌then◌else◌,
}
use open_vi.State.{Range}
use open_vi.Ranges.{range, delete_ranges, visit_new, insert_ranges}

-- Is line `n` still to be visited?
abbrev pub covers : List Range → ℕ → Bool
covers [] n = false
covers (r ∷ rs) n = (leb r.start n && leb n r.stop) || covers rs n

-- Every range holds a line, and none starts at `n`.
abbrev pub NoStart : ℕ → List Range → Type 0
NoStart n [] = Unit
NoStart n (r ∷ rs) = (r.start ≤ r.stop) × (r.start ≢ n) × NoStart n rs

-- Every range lies before line `n`, or begins there or later.
abbrev pub NoSplit : ℕ → List Range → Type 0
NoSplit n [] = Unit
NoSplit n (r ∷ rs) = ((r.stop < n) ⊎ (n ≤ r.start)) × NoSplit n rs

-- Deleting a line at which no range starts, where every range holds a line: the lines to visit are
-- the same, renumbered.
pub covers-delete_ranges :
    (n k : ℕ) (rs : List Range)
    → 1 ≤ n
    → NoStart n rs
    → covers (delete_ranges n rs) k ≡ covers rs (if ltb k n then k else suc k)
unfolding delete_ranges
covers-delete_ranges n k [] p h = refl
covers-delete_ranges n k (r ∷ rs) p (a, b, h) = ground (arith, covers-delete_ranges n k rs p h)

-- Inserting a line that splits no range: the lines to visit are the same, renumbered, and the new
-- line is not among them.
pub covers-insert_ranges :
    (n k : ℕ) (rs : List Range)
    → 1 ≤ n
    → NoSplit n rs
    → covers (insert_ranges n rs) k
      ≡ (if ltb k n then covers rs k else if k == n then false else covers rs (k - 1))
unfolding insert_ranges
covers-insert_ranges n k [] p h = ground arith
covers-insert_ranges n k (r ∷ rs) p (a, h) = ground (arith, covers-insert_ranges n k rs p h)

-- Deleting the first line of a range puts the line before it among the lines to visit.
pub delete_ranges_start :
    (n b : ℕ) → 1 ≤ n → n ≤ b → covers (delete_ranges n (range n b ∷ [])) (n - 1) ≡ true
unfolding delete_ranges
delete_ranges_start n b p h = ground arith

-- Inserting a line inside a range moves the rest of the range by two lines: the old line `n`, now
-- `n + 1`, is not visited, and the line two behind the range is.
pub insert_ranges_split :
    (a n b : ℕ)
    → a < n
    → n ≤ b
    → (covers (range a b ∷ []) n ≡ true)
      × (covers (insert_ranges n (range a b ∷ [])) (suc n) ≡ false)
      × (covers (insert_ranges n (range a b ∷ [])) (suc (suc b)) ≡ true)
unfolding insert_ranges visit_new
insert_ranges_split a n b p h = (ground arith, ground arith, ground arith)
