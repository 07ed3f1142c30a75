-- ===== src/Delete/Regions.antt =====
-- What `del` leaves of the text.
use open_vi.Common.{
  ℕ, suc, ◌+◌, ◌≤◌, ◌<◌, Bool, true, false, not, ◌&&◌, ◌≡◌, sym, ap, ◌∙◌, some, [], ◌∷◌, ◌++◌,
  arith, length, take, drop, record_at, ltb, leb, ◌==◌, if_intro, record_at_bounds, ◌≢◌,
}
use open_vi.Recno.{Reliable}
use open_vi.State.{Line, Env, Ed, rows}
use open_vi.Line.{db_get, db_last}
use open_vi.Line.Reads.{ReadOnly, ReadOnly-trans, db_get-Reads, db_last-Reads}
use open_vi.Line.Refine.{IsReady, db_get-row, db_last-length}
use open_vi.Edit.{Services}
use open_vi.Roll.Quiet.{Paints}
use open_vi.Delete.{size_max, del_part, del}
use open_vi.Delete.Loop.{
  at, Leaves, HasRows-chain, HasRows-of_ReadOnly, IsReady-of_ReadOnly, delete_down-Leaves,
}
use open_vi.Delete.Parts.{part-Leaves, eof-Leaves}

module _ {env : Env} (s : Services env) (paint : Paints s) (ok : Reliable env.file)
    (interrupted : ℕ → Bool) (calm : (n : ℕ) → interrupted n ≡ false) where
  -- In line mode, with databases and screens that do not fail and no interrupt, `del` leaves the lines
  -- before the first and behind the last.
  pub del-lines :
      (i a m b : ℕ) (e : Ed env)
      → e.has_file ≡ true
      → i ≤ m
      → m ≤ length (rows e)
      → Leaves e
          (del s interrupted (at (suc i) a) (at m b) true e)
          (take i (rows e) ++ drop m (rows e))
  unfolding del
  del-lines i a m b e h p q = delete_down-Leaves s paint ok interrupted calm i m e h p q

  -- In character mode, outside of text input, with right caches, databases and screens that do not
  -- fail and no interrupt, and lines that fit a size_t: from column `a` of line `i + 1`, in it or
  -- at its end, to column `b` of line `j + 1`, in it and not before the first, `del` leaves the
  -- lines before, the start of the first line joined to the rest of the last, and the lines
  -- behind.
  pub del-text :
      (i a j b : ℕ) (l q : Line) (e : Ed env)
      → IsReady e
      → record_at (rows e) (suc i) ≡ some l
      → record_at (rows e) (suc j) ≡ some q
      → i ≤ j
      → (i ≡ j → a ≤ suc b)
      → a ≤ length l
      → b < length q
      → length l + length q ≤ size_max
      → Leaves e
          (del s interrupted (at (suc i) a) (at (suc j) b) false e)
          (take i (rows e) ++ ((take a l ++ drop (suc b) q) ∷ drop (suc j) (rows e)))
  unfolding del
  del-text i a j b l q e ready at_l at_q le _ _ in_q fits =
      let n = length (rows e) in
      let k1 = db_last-Reads e in
      let e1 = (db_last e).1 in
      let r1 = IsReady-of_ReadOnly k1 ready in
      let same1 : rows e1 ≡ rows e = ap env.file.rows k1.db in
      let k2 = db_get-Reads true false n e1 in
      let e2 = (db_get true false n e1).1 in
      let r2 = IsReady-of_ReadOnly k2 r1 in
      let same2 : rows e2 ≡ rows e = ap env.file.rows k2.db ∙ same1 in
      let (c, d) = record_at_bounds (rows e) (suc j) at_q in
      let P : Bool × Ed env → Type 0 = λ r.
        Leaves e r (take i (rows e) ++ ((take a l ++ drop (suc b) q) ∷ drop (suc j) (rows e))) in
      let part : (f : Ed env)
          → ReadOnly e f
          → IsReady f
          → rows f ≡ rows e
          → P (del_part s interrupted (at (suc i) a) (at (suc j) b) f) =
        λ f k r same.
          let (x, y) =
            part-Leaves s paint ok interrupted calm i a j b l q (rows e) f r same at_l at_q le in_q
              fits in
          (x, HasRows-chain (HasRows-of_ReadOnly k) y) in
      rw (db_last-length ok e ready, del)
        (if_intro P (ltb (suc j) n) _ _ (λ _. part e1 k1 r1 same1)
          λ behind.
            if_intro P (not (suc j == n)) _ _ (λ z. absurd (ground arith))
              λ last.
                let got : (db_get true false n e1).0 ≡ some q =
                  db_get-row ok true false n e1 r1
                  ∙ ap (λ ys. record_at ys n) same1
                  ∙ ap (record_at (rows e)) (sym (last_of (suc j) n last))
                  ∙ at_q in
                rw (got, del)
                  (if_intro P (not (b == size_max) && leb (length q) b) _ _
                    (λ z. absurd (ground arith)) (λ _. part e2 (ReadOnly-trans k1 k2) r2 same2)))
    where
      last_of : (m n : ℕ) → not (m == n) ≡ false → m ≡ n
      last_of m n h = ground arith

  -- In character mode, outside of text input, with right caches, databases and screens that do not
  -- fail and no interrupt: from column `a` of line `i + 1`, in it or at its end, to a column past the
  -- end of the last line, but not SIZE_MAX, `del` leaves the lines before and the start of line
  -- `i + 1`.
  pub del-to_end :
      (i a j b : ℕ) (l q : Line) (e : Ed env)
      → IsReady e
      → record_at (rows e) (suc i) ≡ some l
      → record_at (rows e) (suc j) ≡ some q
      → length (rows e) ≡ suc j
      → i ≤ j
      → a ≤ length l
      → length q ≤ b
      → b ≢ size_max
      → Leaves e
          (del s interrupted (at (suc i) a) (at (suc j) b) false e)
          (take i (rows e) ++ (take a l ∷ []))
  unfolding del
  del-to_end i a j b l q e ready at_l at_q end le _ past real =
      let n = length (rows e) in
      let k1 = db_last-Reads e in
      let e1 = (db_last e).1 in
      let r1 = IsReady-of_ReadOnly k1 ready in
      let k2 = ReadOnly-trans k1 (db_get-Reads true false n e1) in
      let e2 = (db_get true false n e1).1 in
      let same2 : rows e2 ≡ rows e = ap env.file.rows k2.db in
      let got : (db_get true false n e1).0 ≡ some q =
        db_get-row ok true false n e1 r1
        ∙ ap (λ ys. record_at ys n) (ap env.file.rows k1.db)
        ∙ ap (record_at (rows e)) end
        ∙ at_q in
      let P : Bool × Ed env → Type 0 = λ r. Leaves e r (take i (rows e) ++ (take a l ∷ [])) in
      rw (db_last-length ok e ready, del)
        (if_intro P (ltb (suc j) n) _ _ (λ z. absurd (ground (arith, end)))
          λ _.
            if_intro P (not (suc j == n)) _ _ (λ z. absurd (ground (arith, end)))
              λ _.
                rw (got, del)
                  (if_intro P (not (b == size_max) && leb (length q) b) _ _
                    (λ _.
                      let (p, r) =
                        eof-Leaves s paint ok interrupted calm i a j b l (rows e) e2
                          (IsReady-of_ReadOnly k2 ready) same2 at_l end le in
                      (p, HasRows-chain (HasRows-of_ReadOnly k2) r))
                    (λ z. absurd (ground arith))))
