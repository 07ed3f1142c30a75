-- ===== src/Roll/History.antt =====
-- The changes that a log describes, as steps from one list of lines to the next.
use open_vi.Common.{
  ℕ, suc, ◌≤◌, ◌≡◌, some, List, [], ◌∷◌, length, record_at, insert_record, erase_record,
  store_record,
}
use open_vi.State.{
  Line, LMark, LogRec, line_append, line_delete, line_insert, line_reset_f, line_reset_b,
}

-- A change of a line, with what it takes to roll it either way, or a mark that was logged.
pub data Step : Type 0 where
  append insert delete : ℕ → Line → Step
  reset : ℕ → Line → Line → Step
  mark : LMark → Step

-- The records of a step, the newest first, on top of others.
abbrev pub push : Step → List LogRec → List LogRec
push (append n p) s = line_append n p ∷ s
push (insert n p) s = line_insert n p ∷ s
push (delete n p) s = line_delete n p ∷ s
push (reset n old new) s = line_reset_f n new ∷ line_reset_b n old ∷ s
push (mark k) s = LogRec.mark k ∷ s

abbrev pub flatten : List Step → List LogRec
flatten [] = []
flatten (st ∷ ss) = push st (flatten ss)

-- What a step made of the lines `xs`.
abbrev pub Did : Step → List Line → List Line → Type 0
Did (append n p) xs ys = (1 ≤ n) × (n ≤ suc (length xs)) × (ys ≡ insert_record xs n p)
Did (insert n p) xs ys = (1 ≤ n) × (n ≤ suc (length xs)) × (ys ≡ insert_record xs n p)
Did (delete n p) xs ys = (record_at xs n ≡ some p) × (ys ≡ erase_record xs n)
Did (reset n old new) xs ys = (record_at xs n ≡ some old) × (ys ≡ store_record xs n new)
Did (mark k) xs ys = ys ≡ xs

-- The steps, the newest first, lead from the lines `base` to the lines `ys`.
abbrev pub History : List Step → List Line → List Line → Type 0
History [] base ys = ys ≡ base
History (st ∷ ss) base ys = (xs : List Line) × History ss base xs × Did st xs ys
