-- ===== src/Match/Backward.antt =====
-- The loop of v_match backwards: cs_prev comes by the characters before the bracket.
use open_vi.Common.{
  ℕ, zero, suc, ◌+◌, ◌-◌, ◌≤◌, ◌<◌, ◌≡◌, Bool, true, false, refl, sym, ap, ◌∙◌, ◌⊎◌, inl, inr,
  Option, none, some, List, [], ◌∷◌, ◌++◌, arith, length, take, record_at, ◌==◌, Bool-cases,
}
use mathlib.Core.Path.{subst}
use open_vi.Recno.{Reliable}
use open_vi.State.{Line, Env, Ed, rows}
use open_vi.Line.Reads.{ReadOnly, ReadOnly-refl, db_get-Reads}
use open_vi.Line.Refine.{db_get-row}
use open_vi.Stream.{
  CsFlags, in_line, cs_emp, cs_eof, cs_eol, cs_sof, Vcs, v_isempty, at_line, prev_line, prev_from,
  cs_prev,
}
use open_vi.Match.Cells.{Cell, cells_back, line_back, lines_back, cells_before, size}
use open_vi.Match.Hunt.{Steps, Hunts, Hunts-more, Hunts-stop, Hunts-skip, Hunts-char}
use open_vi.Match.Places.{here, at_end, on_empty, at_line-text, at_line-blank}

row_there : (xs : List Line) (i : ℕ) → i < length xs → (l : Line) × (record_at xs (suc i) ≡ some l)
row_there [] i h = absurd (omega arith)
row_there (x ∷ xs) zero h = (x, refl)
row_there (x ∷ xs) (suc i) h = row_there xs i (omega arith)

size-take :
    (xs : List Line) (i : ℕ) (l : Line)
    → record_at xs (suc i) ≡ some l
    → size (take (suc i) xs) ≡ suc (length l) + size (take i xs)
size-take [] i l h = absurd (cc h)
size-take (x ∷ xs) zero l h =
    omega (arith, ap (λ (o : Option Line). length {A = ℕ} (elim o [ none ↦ [] | some y ↦ y ])) h)
size-take (x ∷ xs) (suc i) l h = omega (arith, size-take xs i l h)

size-take_le : (xs : List Line) (i : ℕ) → size (take i xs) ≤ size xs
size-take_le xs zero = omega arith
size-take_le [] (suc i) = omega arith
size-take_le (x ∷ xs) (suc i) = omega (arith, size-take_le xs i)

module _ {env : Env} (ok : Reliable env.file) (xs : List Line) where
  prev_char-Steps :
      (n c : ℕ) (l : Line) → Steps {env = env} xs cs_prev (here n (suc c) l) (here n c l)
  unfolding cs_prev
  prev_char-Steps n c l e ready same =
      let z : (suc c == 0) ≡ false = ground arith in
      let k : suc c - 1 ≡ c = omega arith in (rw (z, k) refl, ReadOnly-refl e)

  prev_start-Steps :
      (i : ℕ) (l : Line)
      → Steps {env = env} xs cs_prev (here (suc (suc i)) 0 l) (at_end (suc (suc i)) 0 l)
  unfolding cs_prev
  prev_start-Steps i l e ready same =
      let z : (suc (suc i) == 1) ≡ false = ground arith in (rw z refl, ReadOnly-refl e)

  prev_first-Steps :
      (l : Line)
      → Steps {env = env} xs cs_prev (here 1 0 l) (record (here 1 0 l) { cs_flags = cs_sof })
  unfolding cs_prev
  prev_first-Steps l e ready same = (refl, ReadOnly-refl e)

  prev_from-line :
      (f : CsFlags) (v : Vcs) (e : Ed env)
      → (f ≡ cs_eol) ⊎ (f ≡ cs_emp)
      → prev_from f v e ≡ prev_line v e
  prev_from-line cs_eol v e z = refl
  prev_from-line cs_emp v e z = refl
  prev_from-line in_line v e z = absurd (ground arith)
  prev_from-line cs_eof v e z = absurd (ground arith)
  prev_from-line cs_sof v e z = absurd (ground arith)

  prev_stop-Steps :
      (v : Vcs)
      → (v.cs_flags ≡ cs_eol) ⊎ (v.cs_flags ≡ cs_emp)
      → v.cs_lno ≡ 1
      → Steps {env = env} xs cs_prev v (record v { cs_flags = cs_sof })
  unfolding cs_prev prev_line
  prev_stop-Steps v z first e ready same =
      let P : (Bool × Vcs) × Ed env → Type 0 =
        λ r. (r.0 ≡ (false, record v { cs_flags = cs_sof })) × ReadOnly e r.1 in
      let y : (v.cs_lno == 1) ≡ true = ground (arith, first) in
      subst P (sym (prev_from-line v.cs_flags v e z)) (rw (y, prev_line) (refl, ReadOnly-refl e))

  prev_line-Steps :
      (v : Vcs) (i : ℕ) (l : Line)
      → (v.cs_flags ≡ cs_eol) ⊎ (v.cs_flags ≡ cs_emp)
      → v.cs_lno ≡ suc (suc i)
      → record_at xs (suc i) ≡ some l
      → Steps {env = env} xs cs_prev v (at_line (length l - 1) l (record v { cs_lno = suc i }))
  unfolding cs_prev prev_line
  prev_line-Steps v i l z at_n there e ready same =
      let k : v.cs_lno - 1 ≡ suc i = omega (arith, at_n) in
      let w : ℕ → Vcs = λ n. at_line (length l - 1) l (record v { cs_lno = n }) in
      let P : (Bool × Vcs) × Ed env → Type 0 =
        λ r. (r.0 ≡ (false, w (v.cs_lno - 1))) × ReadOnly e r.1 in
      let y : (v.cs_lno == 1) ≡ false = ground (arith, at_n) in
      let row = ap (record_at (rows e)) k ∙ ap (λ ys. record_at ys (suc i)) same ∙ there in
      let got = db_get-row ok true false (v.cs_lno - 1) e ready ∙ row in
      let x : P (prev_from v.cs_flags v e) =
        subst P (sym (prev_from-line v.cs_flags v e z))
          (rw (y, prev_line) (rw got (refl, db_get-Reads true false (v.cs_lno - 1) e))) in
      (x.0 ∙ ap (λ n. (false, w n)) k, x.1)

  module _ (startc matchc : ℕ) where
    columns-Hunts :
        (c n : ℕ) (l : Line) (cs : List Cell) (m : ℕ)
        → record_at xs n ≡ some l
        → Hunts {env = env} xs cs_prev startc matchc (here n 0 l) cs m
        → Hunts {env = env} xs cs_prev startc matchc (here n c l) (cells_back n c l ++ cs) (c + m)
    columns-Hunts zero n l cs m row h =
        Hunts-more xs cs_prev startc matchc (here n 0 l) cs m (0 + m) (omega arith) h
    columns-Hunts (suc c) n l cs m row h =
        Hunts-more xs cs_prev startc matchc (here n (suc c) l) (cells_back n (suc c) l ++ cs)
          (suc (c + m)) (suc c + m) (omega arith)
          (Hunts-char xs cs_prev startc matchc (here n (suc c) l) (here n c l)
            (cells_back n c l ++ cs) l (c + m) refl row (prev_char-Steps n c l)
            (columns-Hunts c n l cs m row h))

    -- From the first column of a line on.
    start-Hunts :
        (i m : ℕ) (l : Line)
        → ((v : Vcs)
            → (v.cs_flags ≡ cs_eol) ⊎ (v.cs_flags ≡ cs_emp)
            → v.cs_lno ≡ suc i
            → Hunts {env = env} xs cs_prev startc matchc v (lines_back xs i) (suc m))
        → Hunts {env = env} xs cs_prev startc matchc
            (here (suc i) 0 l)
            (lines_back xs i)
            (suc (suc m))
    start-Hunts zero m l h =
        Hunts-more xs cs_prev startc matchc (here 1 0 l) [] 1 (suc (suc m)) (omega arith) (
          Hunts-stop xs cs_prev startc matchc (here 1 0 l)
            (record (here 1 0 l) { cs_flags = cs_sof }) (inr refl) (prev_first-Steps l))
    start-Hunts (suc i) m l h =
        Hunts-skip xs cs_prev startc matchc (here (suc (suc i)) 0 l) (at_end (suc (suc i)) 0 l)
          (lines_back xs (suc i)) (suc m) (inl refl) (prev_start-Steps i l)
          (h (at_end (suc (suc i)) 0 l) (inl refl) refl)

    -- A line from its last column on.
    line-Hunts :
        (k i m : ℕ) (l : Line) (v : Vcs)
        → length l ≡ suc k
        → record_at xs (suc i) ≡ some l
        → Steps {env = env} xs cs_prev v (here (suc i) k l)
        → Hunts {env = env} xs cs_prev startc matchc (here (suc i) 0 l) (lines_back xs i) m
        → Hunts {env = env} xs cs_prev startc matchc v
            (cells_back (suc i) (length l) l ++ lines_back xs i)
            (length l + m)
    line-Hunts k i m l v len row step h = rw len (
        Hunts-more xs cs_prev startc matchc v (cells_back (suc i) (suc k) l ++ lines_back xs i)
          (suc (k + m)) (suc k + m) (omega arith)
          (Hunts-char xs cs_prev startc matchc v (here (suc i) k l)
            (cells_back (suc i) k l ++ lines_back xs i) l (k + m) refl row step
            (columns-Hunts k (suc i) l (lines_back xs i) m row h)))

    lines-Hunts :
        (i : ℕ)
        → i ≤ length xs
        → (v : Vcs) → (v.cs_flags ≡ cs_eol) ⊎ (v.cs_flags ≡ cs_emp)
        → v.cs_lno ≡ suc i
        → Hunts {env = env} xs cs_prev startc matchc v (lines_back xs i) (suc (size (take i xs)))
    lines-Hunts zero le v z at_n =
        Hunts-stop xs cs_prev startc matchc v (record v { cs_flags = cs_sof }) (inr refl)
          (prev_stop-Steps v z at_n)
    lines-Hunts (suc i) le v z at_n =
        let (l, row) = row_there xs i (omega arith) in
        let step = prev_line-Steps v i l z at_n row in
        let more = lines-Hunts i (omega arith) in
        let fuel = size-take xs i l row in
        subst
          (λ o.
            Hunts {env = env} xs cs_prev startc matchc v (line_back (suc i) o ++ lines_back xs i)
              (suc (size (take (suc i) xs))))
          (sym row)
          (elim (Bool-cases (v_isempty l)) [
            | inl blank ↦
                let to = at_line-blank (suc i) (length l - 1) l v blank in
                let x = more (on_empty (suc i) l v) (inr refl) refl in
                rw blank (
                  Hunts-more xs cs_prev startc matchc v (lines_back xs i)
                    (suc (suc (size (take i xs)))) (suc (size (take (suc i) xs)))
                    (omega (arith, fuel))
                    (Hunts-skip xs cs_prev startc matchc v (on_empty (suc i) l v) (lines_back xs i)
                      (suc (size (take i xs))) (inr refl) (subst (Steps xs cs_prev v) to step) x))
            | inr text ↦
                let to = at_line-text (suc i) (length l - 1) l v text in
                let (k, len) = not_empty l text in
                let last : here (suc i) (length l - 1) l ≡ here (suc i) k l =
                  ap (λ c. here (suc i) c l) (omega (arith, len)) in
                let x = start-Hunts i (size (take i xs)) l more in
                rw text (
                  Hunts-more xs cs_prev startc matchc v
                    (cells_back (suc i) (length l) l ++ lines_back xs i)
                    (length l + suc (suc (size (take i xs)))) (suc (size (take (suc i) xs)))
                    (omega (arith, fuel))
                    (line-Hunts k i (suc (suc (size (take i xs)))) l v len row
                      (subst (Steps xs cs_prev v) (to ∙ last) step) x))
          ])
      where
        not_empty : (l : Line) → v_isempty l ≡ false → (k : ℕ) × (length l ≡ suc k)
        not_empty [] h = absurd (cc h)
        not_empty (x ∷ l) h = (length l, refl)

    -- From column `c` of line `i + 1`.
    pub prev-Hunts :
        (i c : ℕ) (l : Line)
        → record_at xs (suc i) ≡ some l
        → c < length l
        → i ≤ length xs
        → Hunts {env = env} xs cs_prev startc matchc
            (here (suc i) c l)
            (cells_before xs i c l)
            (suc (size xs))
    prev-Hunts i c l row lt le =
        Hunts-more xs cs_prev startc matchc (here (suc i) c l) (cells_before xs i c l)
          (c + suc (suc (size (take i xs)))) (suc (size xs))
          (omega (arith, size-take xs i l row, size-take_le xs (suc i)))
          (columns-Hunts c (suc i) l (lines_back xs i) (suc (suc (size (take i xs)))) row
            (start-Hunts i (size (take i xs)) l (lines-Hunts i le)))
