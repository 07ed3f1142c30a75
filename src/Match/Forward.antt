-- ===== src/Match/Forward.antt =====
-- The loop of v_match forwards: cs_next comes by the characters behind the bracket.
use open_vi.Common.{
  ℕ, suc, ◌+◌, ◌-◌, ◌<◌, ◌≡◌, Bool, true, false, refl, sym, ap, ◌∙◌, ◌⊎◌, inl, inr, Option, none,
  some, List, [], ◌∷◌, ◌++◌, arith, length, drop, record_at, ◌==◌, Bool-cases,
}
use mathlib.Core.Path.{subst}
use open_vi.Recno.{Reliable}
use open_vi.State.{Line, Env, Ed}
use open_vi.Line.Reads.{ReadOnly, ReadOnly-refl, db_get-Reads}
use open_vi.Line.{db_get}
use open_vi.Line.Refine.{db_get-row}
use open_vi.Delete.Loop.{at}
use open_vi.Stream.{
  CsFlags, cs_sof, next_from, in_line, cs_emp, cs_eof, cs_eol, Vcs, v_isempty, at_line, next_line,
  cs_next,
}
use open_vi.Match.Cells.{Cell, cells, cells_of, cells_after, size}
use open_vi.Match.Hunt.{Steps, Hunts, Hunts-more, Hunts-stop, Hunts-skip, Hunts-char}
use open_vi.Match.Places.{
  here, at_end, on_empty, at_line-text, at_line-blank, drop_cons, drop_nil, drop_row, drop_no_row,
  size-drop, length-drop,
}

-- The state after the step, by the line that is there or not.
abbrev after_line : Vcs → Option Line → Vcs
after_line v none = record v { cs_len = 0; cs_flags = cs_eof }
after_line v (some l) = at_line 0 l (record v { cs_lno = suc v.cs_lno })

module _ {env : Env} (ok : Reliable env.file) (xs : List Line) where
  next_char-Steps :
      (n c : ℕ) (l : Line)
      → suc c < length l
      → Steps {env = env} xs cs_next (here n c l) (here n (suc c) l)
  unfolding cs_next
  next_char-Steps n c l lt e ready same =
      let z : (c == length l - 1) ≡ false = ground arith in (rw z refl, ReadOnly-refl e)

  next_end-Steps :
      (n c : ℕ) (l : Line)
      → suc c ≡ length l
      → Steps {env = env} xs cs_next (here n c l) (at_end n c l)
  unfolding cs_next
  next_end-Steps n c l last e ready same =
      let z : (c == length l - 1) ≡ true = ground arith in (rw z refl, ReadOnly-refl e)

  next_from-line :
      (f : CsFlags) (v : Vcs) (e : Ed env)
      → (f ≡ cs_eol) ⊎ (f ≡ cs_emp)
      → next_from f v e ≡ next_line v e
  next_from-line cs_eol v e z = refl
  next_from-line cs_emp v e z = refl
  next_from-line in_line v e z = absurd (ground arith)
  next_from-line cs_eof v e z = absurd (ground arith)
  next_from-line cs_sof v e z = absurd (ground arith)

  -- The step from an end of a line, or from a line of blanks.
  next_line-Steps :
      (v : Vcs) (o : Option Line)
      → (v.cs_flags ≡ cs_eol) ⊎ (v.cs_flags ≡ cs_emp)
      → record_at xs (suc v.cs_lno) ≡ o
      → Steps {env = env} xs cs_next v (after_line v o)
  unfolding cs_next next_line
  next_line-Steps v o z there e ready same =
      let row = ap (λ ys. record_at ys (suc v.cs_lno)) same ∙ there in
      let got = db_get-row ok false false (suc v.cs_lno) e ready ∙ row in
      let P : (Bool × Vcs) × Ed env → Type 0 =
        λ r. (r.0 ≡ (false, after_line v o)) × ReadOnly e r.1 in
      subst P (sym (next_from-line v.cs_flags v e z)) (
        rw (got, next_line)
          (go o (db_get false false (suc v.cs_lno) e).1
            (db_get-Reads false false (suc v.cs_lno) e)))
    where
      go :
          (q : Option Line) (f : Ed env)
          → ReadOnly e f
          → (λ (r : (Bool × Vcs) × Ed env). (r.0 ≡ (false, after_line v q)) × ReadOnly e r.1)
              (elim q as (λ _. (Bool × Vcs) × Ed env) [
                | none ↦ ((false, record v { cs_len = 0; cs_flags = cs_eof }), f)
                | some l ↦ ((false, at_line 0 l (record v { cs_lno = suc v.cs_lno })), f)
              ])
      go none f k = (refl, k)
      go (some l) f k = (refl, k)

  module _ (startc matchc : ℕ) where
    -- The rest of a line, when the loop does its work from the line's end on.
    rest-Hunts :
        (u : Line) (n c : ℕ) (l : Line) (cs : List Cell) (m : ℕ)
        → c < length l
        → record_at xs n ≡ some l
        → drop (suc c) l ≡ u
        → ((d : ℕ) → Hunts {env = env} xs cs_next startc matchc (at_end n d l) cs m)
        → Hunts {env = env} xs cs_next startc matchc
            (here n c l)
            (cells n (suc c) u ++ cs)
            (suc (length u) + m)
    rest-Hunts [] n c l cs m lt there rest h =
        let le = drop_nil l (suc c) rest in
        Hunts-more xs cs_next startc matchc (here n c l) cs (suc m) (suc 0 + m) (omega arith) (
          Hunts-skip xs cs_next startc matchc (here n c l) (at_end n c l) cs m (inl refl)
            (next_end-Steps n c l (omega arith)) (h c))
    rest-Hunts (x ∷ u) n c l cs m lt there rest h =
        let (byte, (more, in_l)) = drop_cons l (suc c) x u rest in
        let rec = rest-Hunts u n (suc c) l cs m in_l there more h in
        Hunts-more xs cs_next startc matchc (here n c l)
          ((x, at n (suc c)) ∷ (cells n (suc (suc c)) u ++ cs)) (suc (suc (length u) + m))
          (suc (suc (length u)) + m) (omega arith)
          (subst
            (λ b.
              Hunts {env = env} xs cs_next startc matchc (here n c l)
                ((b, at n (suc c)) ∷ (cells n (suc (suc c)) u ++ cs)) (suc (suc (length u) + m)))
            byte
            (Hunts-char xs cs_next startc matchc (here n c l) (here n (suc c) l)
              (cells n (suc (suc c)) u ++ cs) l (suc (length u) + m) refl there
              (next_char-Steps n c l in_l) rec))

    -- A line from its start.
    line-Hunts :
        (l : Line) (n : ℕ) (v : Vcs) (cs : List Cell) (m : ℕ)
        → v_isempty l ≡ false
        → record_at xs n ≡ some l
        → Steps {env = env} xs cs_next v (here n 0 l)
        → ((d : ℕ) → Hunts {env = env} xs cs_next startc matchc (at_end n d l) cs m)
        → Hunts {env = env} xs cs_next startc matchc v (cells n 0 l ++ cs) (suc (length l) + m)
    line-Hunts [] n v cs m text row step h = absurd (cc text)
    line-Hunts (x ∷ l) n v cs m text row step h =
        Hunts-more xs cs_next startc matchc v (cells n 0 (x ∷ l) ++ cs) (suc (suc (length l) + m))
          (suc (length (x ∷ l)) + m) (omega arith)
          (Hunts-char xs cs_next startc matchc v (here n 0 (x ∷ l)) (cells n 1 l ++ cs) (x ∷ l)
            (suc (length l) + m) refl row step
            (rest-Hunts l n 0 (x ∷ l) cs m (omega arith) row refl h))

    -- The lines behind.
    lines-Hunts :
        (ls : List Line) (n : ℕ)
        → drop n xs ≡ ls
        → (v : Vcs) → (v.cs_flags ≡ cs_eol) ⊎ (v.cs_flags ≡ cs_emp)
        → v.cs_lno ≡ n
        → Hunts {env = env} xs cs_next startc matchc v (cells_of (suc n) ls) (suc (size ls))
    lines-Hunts [] n rest v z at_n =
        let there = ap (λ k. record_at xs (suc k)) at_n ∙ drop_no_row xs n rest in
        Hunts-stop xs cs_next startc matchc v (after_line v none) (inl refl)
          (next_line-Steps v none z there)
    lines-Hunts (l ∷ ls) n rest v z at_n =
        let (row, more) = drop_row xs n l ls rest in
        let there = ap (λ k. record_at xs (suc k)) at_n ∙ row in
        let step = next_line-Steps v (some l) z there in
        let w = after_line v (some l) in
        elim (Bool-cases (v_isempty l)) [
          | inl blank ↦
              let to : w ≡ on_empty (suc n) l v =
                ap (λ k. at_line 0 l (record v { cs_lno = suc k })) at_n
                ∙ at_line-blank (suc n) 0 l v blank in
              let x = lines-Hunts ls (suc n) more (on_empty (suc n) l v) (inr refl) refl in
              rw blank (
                Hunts-more xs cs_next startc matchc v (cells_of (suc (suc n)) ls)
                  (suc (suc (size ls))) (suc (size (l ∷ ls))) (omega arith)
                  (Hunts-skip xs cs_next startc matchc v (on_empty (suc n) l v)
                    (cells_of (suc (suc n)) ls) (suc (size ls)) (inr refl)
                    (subst (Steps xs cs_next v) to step) x))
          | inr text ↦
              let to : w ≡ here (suc n) 0 l =
                ap (λ k. at_line 0 l (record v { cs_lno = suc k })) at_n
                ∙ at_line-text (suc n) 0 l v text in
              rw text (
                Hunts-more xs cs_next startc matchc v
                  (cells (suc n) 0 l ++ cells_of (suc (suc n)) ls) (suc (length l) + suc (size ls))
                  (suc (size (l ∷ ls))) (omega arith)
                  (line-Hunts l (suc n) v (cells_of (suc (suc n)) ls) (suc (size ls)) text row
                    (subst (Steps xs cs_next v) to step)
                    (λ d. lines-Hunts ls (suc n) more (at_end (suc n) d l) (inl refl) refl)))
        ]

    -- From column `c` of line `i + 1`.
    pub next-Hunts :
        (i c : ℕ) (l : Line)
        → record_at xs (suc i) ≡ some l
        → c < length l
        → Hunts {env = env} xs cs_next startc matchc
            (here (suc i) c l)
            (cells_after xs i c l)
            (suc (size xs))
    next-Hunts i c l there lt =
        Hunts-more xs cs_next startc matchc (here (suc i) c l) (cells_after xs i c l)
          (suc (length (drop (suc c) l)) + suc (size (drop (suc i) xs))) (suc (size xs))
          (omega (arith, size-drop xs i l there, length-drop l c lt))
          (rest-Hunts (drop (suc c) l) (suc i) c l (cells_of (suc (suc i)) (drop (suc i) xs))
            (suc (size (drop (suc i) xs))) lt there refl
            (λ d. lines-Hunts (drop (suc i) xs) (suc i) refl (at_end (suc i) d l) (inl refl) refl))
