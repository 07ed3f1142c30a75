-- ===== src/Delete/Parts.antt =====
-- Deleting from one place to another, in one line or over several: cases 3 and 4 of `del`.
use open_vi.Common.{
  ℕ, suc, ◌+◌, ◌-◌, ◌≤◌, ◌<◌, Bool, true, false, ◌||◌, ◌≡◌, refl, sym, ap, ◌∙◌, Option, some, List,
  [], ◌∷◌, ◌++◌, arith, length, take, drop, record_at, store_record, ltb, ◌==◌, if_intro,
  cut-store_at, store_at_cut, length-take_le, length-store_record, drop-length, append_nil,
  record_at_bounds, get_elem?-take, le-length-take, store_at-take,
}
use mathlib.Core.Path.{subst}
use open_vi.Recno.{Reliable}
use open_vi.State.{Line, Env, Ed, rows}
use open_vi.Line.{db_get}
use open_vi.Line.Reads.{ReadOnly, ReadOnly-refl, db_get-Reads}
use open_vi.Line.Refine.{IsReady, db_get-row}
use open_vi.Edit.{Services, db_set}
use open_vi.Edit.Stored.{HasRows}
use open_vi.Roll.Quiet.{Paints}
use open_vi.Delete.{
  size_max, next, delete_down, del_within, del_start, del_join, del_across, del_part, del_to_eof,
}
use open_vi.Delete.Loop.{
  at, Leaves, HasRows-chain, HasRows-of_ReadOnly, IsReady-of_ReadOnly, set-Leaves,
  delete_down-Leaves, delete_down-IsCoherent,
}

next-suc : (b : ℕ) (l : Line) → b < length l → length l ≤ size_max → next b ≡ suc b
next-suc b l lt fits = ground arith

whole : (b : ℕ) (w q : Line) → suc b ≡ length q → w ≡ w ++ drop (suc b) q
whole b w q h = sym (ap (λ n. w ++ drop n q) h ∙ ap (λ t. w ++ t) (drop-length q) ∙ append_nil w)

module _ {env : Env} (s : Services env) (paint : Paints s) (ok : Reliable env.file)
    (interrupted : ℕ → Bool) (calm : (n : ℕ) → interrupted n ≡ false) where
  -- Case 3, in the lines `xs`.
  within-Leaves :
      (i a b : ℕ) (l : Line) (xs : List Line) (e : Ed env)
      → IsReady e
      → rows e ≡ xs
      → record_at xs (suc i) ≡ some l
      → b < length l
      → length l ≤ size_max
      → Leaves e
          (del_within s interrupted (at (suc i) a) (at (suc i) b) e)
          (take i xs ++ ((take a l ++ drop (suc b) l) ∷ drop (suc i) xs))
  unfolding del_within
  within-Leaves i a b l xs e ready same at_l lt fits =
      let got : (db_get true false (suc i) e).0 ≡ some l =
        db_get-row ok true false (suc i) e ready ∙ ap (λ ys. record_at ys (suc i)) same ∙ at_l in
      let k = db_get-Reads true false (suc i) e in
      let e1 = (db_get true false (suc i) e).1 in
      let lines : rows e1 ≡ xs = ap env.file.rows k.db ∙ same in
      let r1 = IsReady-of_ReadOnly k ready in
      let (c, d) = record_at_bounds xs (suc i) at_l in
      let P : Bool × Ed env → Type 0 =
        λ r. Leaves e r (take i xs ++ ((take a l ++ drop (suc b) l) ∷ drop (suc i) xs)) in
      rw (got, del_within)
        (if_intro P (length l == 0) _ _ (λ z. absurd (ground arith))
          (λ _.
            let (p, r) =
              set-Leaves s paint ok interrupted calm (suc i) (take a l ++ drop (next b) l) e1
                r1.has_file (omega arith) (subst (λ ys. suc i ≤ length ys) (sym lines) d) in
            (
              p,
              subst (HasRows e _)
                  (ap (λ ys. store_record ys (suc i) (take a l ++ drop (next b) l)) lines
                    ∙ store_at_cut xs i _ (omega arith)
                    ∙ ap (λ t. take i xs ++ ((take a l ++ drop t l) ∷ drop (suc i) xs))
                        (next-suc b l lt fits))
                  (HasRows-chain (HasRows-of_ReadOnly k) r),
            )))

  -- The lines that `del_join` leaves, given the joined line.
  join-Leaves :
      (i a j b : ℕ) (w : Line) (xs : List Line) (e : Ed env)
      → e.has_file ≡ true
      → rows e ≡ xs
      → i < j
      → suc j ≤ length xs
      → Leaves e
          (del_join s interrupted (at (suc i) a) (at (suc j) b) w e)
          (take i xs ++ (w ∷ drop (suc j) xs))
  unfolding del_join
  join-Leaves i a j b w xs e has same lt le =
      let (fine, d) =
        set-Leaves s paint ok interrupted calm (suc i) w e has (omega arith)
          (subst (λ ys. suc i ≤ length ys) (sym same) (omega arith)) in
      let lines : rows (db_set s (suc i) w e).1 ≡ store_record xs (suc i) w =
        d.lines ∙ ap (λ ys. store_record ys (suc i) w) same in
      let (p, r) =
        delete_down-Leaves s paint ok interrupted calm (suc i) (suc j) (db_set s (suc i) w e).1
          (d.has_file ∙ has) (omega arith)
          (subst (λ ys. suc j ≤ length ys) (sym lines)
            (omega (arith, length-store_record xs (suc i) w (omega arith) (omega arith)))) in
      rw (fine) (
        p,
        subst (HasRows e _)
            (ap (λ ys. take (suc i) ys ++ drop (suc j) ys) lines
              ∙ cut-store_at xs i (suc j) w (omega arith) (omega arith))
            (HasRows-chain d r),
      )

  start-Leaves :
      (i a : ℕ) (l : Line) (e : Ed env)
      → IsReady e
      → record_at (rows e) (suc i) ≡ some l
      → ((del_start s interrupted (at (suc i) a) e).0 ≡ some (take a l))
        × ReadOnly e (del_start s interrupted (at (suc i) a) e).1
  unfolding del_start
  start-Leaves i a l e ready at_l =
      let got = db_get-row ok true false (suc i) e ready ∙ at_l in
      let P : Option Line × Ed env → Type 0 = λ r. (r.0 ≡ some (take a l)) × ReadOnly e r.1 in
      if_intro P (a == 0) _ _
        (λ z. (subst (λ n. some [] ≡ some (take n l)) (sym (zero_of a z)) refl, ReadOnly-refl e))
        (λ _. rw got (refl, db_get-Reads true false (suc i) e))
    where
      zero_of : (n : ℕ) → (n == 0) ≡ true → n ≡ 0
      zero_of n z = ground arith

  -- Case 4, in the lines `xs`.
  across-Leaves :
      (i a j b : ℕ) (l q : Line) (xs : List Line) (e : Ed env)
      → IsReady e
      → rows e ≡ xs
      → record_at xs (suc i) ≡ some l
      → record_at xs (suc j) ≡ some q
      → i < j
      → b < length q
      → length l + length q ≤ size_max
      → Leaves e
          (del_across s interrupted (at (suc i) a) (at (suc j) b) e)
          (take i xs ++ ((take a l ++ drop (suc b) q) ∷ drop (suc j) xs))
  unfolding del_across
  across-Leaves i a j b l q xs e ready same at_l at_q lt in_q fits =
      let (start, k1) = start-Leaves i a l e ready (ap (λ ys. record_at ys (suc i)) same ∙ at_l) in
      let e1 = (del_start s interrupted (at (suc i) a) e).1 in
      let r1 = IsReady-of_ReadOnly k1 ready in
      let same1 : rows e1 ≡ xs = ap env.file.rows k1.db ∙ same in
      let got : (db_get true false (suc j) e1).0 ≡ some q =
        db_get-row ok true false (suc j) e1 r1 ∙ ap (λ ys. record_at ys (suc j)) same1 ∙ at_q in
      let k2 = db_get-Reads true false (suc j) e1 in
      let e2 = (db_get true false (suc j) e1).1 in
      let r2 = IsReady-of_ReadOnly k2 r1 in
      let same2 : rows e2 ≡ xs = ap env.file.rows k2.db ∙ same1 in
      let (c, d) = record_at_bounds xs (suc j) at_q in
      let P : Bool × Ed env → Type 0 =
        λ r. Leaves e r (take i xs ++ ((take a l ++ drop (suc b) q) ∷ drop (suc j) xs)) in
      let here = HasRows-chain (HasRows-of_ReadOnly k1) (HasRows-of_ReadOnly k2) in
      let step = next-suc b q in_q (omega (arith, fits)) in
      let short = length-take_le l a in
      rw (start, del_across)
        (rw (got, del_across)
          (if_intro P (length q == 0 || (suc b == length q)) _ _
            (λ z.
              let (p, r) = join-Leaves i a j b (take a l) xs e2 r2.has_file same2 lt d in
              (
                p,
                subst (HasRows e _)
                    (ap (λ w. take i xs ++ (w ∷ drop (suc j) xs))
                      (whole b (take a l) q (ground arith)))
                    (HasRows-chain here r),
              ))
            λ _.
              if_intro P
                (ltb (length q) (next b) || ltb (size_max - length (take a l)) (length q - next b))
                _ _ (λ z. absurd (ground (arith, step, short, fits)))
                (λ _.
                  let (p, r) =
                    join-Leaves i a j b (take a l ++ drop (next b) q) xs e2 r2.has_file same2 lt
                      d in
                  (
                    p,
                    subst (HasRows e _)
                        (ap (λ t. take i xs ++ ((take a l ++ drop t q) ∷ drop (suc j) xs)) step)
                        (HasRows-chain here r),
                  ))))

  pub part-Leaves :
      (i a j b : ℕ) (l q : Line) (xs : List Line) (e : Ed env)
      → IsReady e
      → rows e ≡ xs
      → record_at xs (suc i) ≡ some l
      → record_at xs (suc j) ≡ some q
      → i ≤ j
      → b < length q
      → length l + length q ≤ size_max
      → Leaves e
          (del_part s interrupted (at (suc i) a) (at (suc j) b) e)
          (take i xs ++ ((take a l ++ drop (suc b) q) ∷ drop (suc j) xs))
  unfolding del_part
  part-Leaves i a j b l q xs e ready same at_l at_q le in_q fits =
      let P : Bool × Ed env → Type 0 =
        λ r. Leaves e r (take i xs ++ ((take a l ++ drop (suc b) q) ∷ drop (suc j) xs)) in
      if_intro P (suc j == suc i) _ _ (λ z. one_line i j (ground arith) l q at_l at_q in_q fits)
        (λ z. across-Leaves i a j b l q xs e ready same at_l at_q (ground arith) in_q fits)
    where
      one_line :
          (m n : ℕ)
          → n ≡ m
          → (u v : Line) → record_at xs (suc m) ≡ some u
          → record_at xs (suc n) ≡ some v
          → b < length v
          → length u + length v ≤ size_max
          → Leaves e
              (del_within s interrupted (at (suc m) a) (at (suc n) b) e)
              (take m xs ++ ((take a u ++ drop (suc b) v) ∷ drop (suc n) xs))
      one_line m n h u v p r lt f =
          let same_text : v ≡ u = cc (sym r ∙ ap (λ t. record_at xs (suc t)) h ∙ p) in
          rw (h, same_text)
            (within-Leaves m a b u xs e ready same p (subst (λ t. b < length t) same_text lt)
              (omega (arith, f)))

  -- Case 2, in the lines `xs`.
  pub eof-Leaves :
      (i a j b : ℕ) (l : Line) (xs : List Line) (e : Ed env)
      → IsReady e
      → rows e ≡ xs
      → record_at xs (suc i) ≡ some l
      → length xs ≡ suc j
      → i ≤ j
      → Leaves e
          (del_to_eof s interrupted (at (suc i) a) (at (suc j) b) e)
          (take i xs ++ (take a l ∷ []))
  unfolding del_to_eof
  eof-Leaves i a j b l xs e ready same at_l end le =
      let e1 = (delete_down s interrupted (suc (suc i)) (suc j) e).1 in
      let fits : suc j ≤ length (rows e) =
        subst (λ ys. suc j ≤ length ys) (sym same) (omega (arith, end)) in
      let (fine, d) =
        delete_down-Leaves s paint ok interrupted calm (suc i) (suc j) e ready.has_file
          (omega arith) fits in
      let c =
        delete_down-IsCoherent s paint ok interrupted calm (suc i) (suc j) e ready.has_file
          ready.coherent fits in
      let r1 : IsReady e1 = record {
        has_file = d.has_file ∙ ready.has_file;
        tiq = d.tiq ∙ ready.tiq;
        coherent = c;
      } in
      let lines : rows e1 ≡ take (suc i) xs =
        d.lines
        ∙ ap (λ ys. take (suc i) ys ++ drop (suc j) ys) same
        ∙ ap (λ n. take (suc i) xs ++ drop n xs) (sym end)
        ∙ ap (λ ys. take (suc i) xs ++ ys) (drop-length xs)
        ∙ append_nil (take (suc i) xs) in
      let got : (db_get true false (suc i) e1).0 ≡ some l =
        db_get-row ok true false (suc i) e1 r1
        ∙ ap (λ ys. record_at ys (suc i)) lines
        ∙ get_elem?-take xs i
        ∙ at_l in
      let k = db_get-Reads true false (suc i) e1 in
      let e2 = (db_get true false (suc i) e1).1 in
      let same2 : rows e2 ≡ take (suc i) xs = ap env.file.rows k.db ∙ lines in
      let (p, r) =
        set-Leaves s paint ok interrupted calm (suc i) (take a l) e2 (k.has_file ∙ r1.has_file)
          (omega arith)
          (subst (λ ys. suc i ≤ length ys) (sym same2)
            (le-length-take xs i (omega (arith, end)))) in
      rw (fine, del_to_eof)
        (rw (got, del_to_eof)
          (
            p,
            subst (HasRows e _)
                (ap (λ ys. store_record ys (suc i) (take a l)) same2
                  ∙ store_at-take xs i (take a l) (omega (arith, end)))
                (HasRows-chain d (HasRows-chain (HasRows-of_ReadOnly k) r)),
          ))
