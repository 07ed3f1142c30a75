-- ===== src/Tests/Ranges.antt =====
-- The ranges of lines that a command has still to visit.
use open_vi.Common.{◌≡◌, true, false, inl, inr, List, [], ◌∷◌, arith}
use open_vi.State.{Range}
use open_vi.Ranges.{range, delete_ranges, insert_ranges}
use open_vi.Ranges.Cover.{
  covers, covers-delete_ranges, covers-insert_ranges, delete_ranges_start, insert_ranges_split,
}

abbrev pending : List Range
pending = range 2 4 ∷ range 7 7 ∷ []

covers-delete_ranges_example : covers (delete_ranges 3 pending) 6 ≡ true
covers-delete_ranges_example =
    covers-delete_ranges 3 6 pending (omega arith)
      (omega arith, (λ z. omega (arith, z)), (omega arith, (λ z. omega (arith, z)), tt))

covers-insert_ranges_example : covers (insert_ranges 5 pending) 5 ≡ false
covers-insert_ranges_example =
    covers-insert_ranges 5 5 pending (omega arith) (inl (omega arith), (inr (omega arith), tt))

delete_ranges_start_example : covers (delete_ranges 2 (range 2 4 ∷ [])) 1 ≡ true
delete_ranges_start_example = delete_ranges_start 2 4 (omega arith) (omega arith)

insert_ranges_split_example :
    (covers (range 2 4 ∷ []) 3 ≡ true)
    × (covers (insert_ranges 3 (range 2 4 ∷ [])) 4 ≡ false)
    × (covers (insert_ranges 3 (range 2 4 ∷ [])) 6 ≡ true)
insert_ranges_split_example = insert_ranges_split 2 3 4 (omega arith) (omega arith)
