-- ===== src/Match/Places.antt =====
-- The places of the character stream in a text, and the text behind them.
use open_vi.Common.{
  ℕ, zero, suc, ◌+◌, ◌≤◌, ◌<◌, ◌≡◌, true, false, ◌||◌, refl, ap, Option, none, some, List, [], ◌∷◌,
  arith, length, drop, record_at, ◌==◌,
}
use open_vi.State.{Line}
use open_vi.Stream.{in_line, cs_emp, cs_eol, Vcs, byte_at, v_isempty, at_line}
use open_vi.Match.Cells.{size}

-- Standing at column `c` of line `n`, and at the end of that line.
abbrev pub here : ℕ → ℕ → Line → Vcs
here n c l = record {
  cs_lno = n;
  cs_cno = c;
  cs_bp = l;
  cs_len = length l;
  cs_ch = byte_at l c;
  cs_flags = in_line;
}

abbrev pub at_end : ℕ → ℕ → Line → Vcs
at_end n c l = record (here n c l) { cs_flags = cs_eol }

abbrev pub on_empty : ℕ → Line → Vcs → Vcs
on_empty n l v = record v {
  cs_lno = n;
  cs_cno = 0;
  cs_bp = l;
  cs_len = length l;
  cs_flags = cs_emp;
}

pub at_line-text :
    (n c : ℕ) (l : Line) (v : Vcs)
    → v_isempty l ≡ false
    → at_line c l (record v { cs_lno = n }) ≡ here n c l
at_line-text n c [] v h = absurd (cc h)
at_line-text n c (x ∷ l) v h =
    let z : (length (x ∷ l) == 0 || v_isempty (x ∷ l)) ≡ false = ground (arith, h) in rw z refl

pub at_line-blank :
    (n c : ℕ) (l : Line) (v : Vcs)
    → v_isempty l ≡ true
    → at_line c l (record v { cs_lno = n }) ≡ on_empty n l v
at_line-blank n c l v h =
    let z : (length l == 0 || v_isempty l) ≡ true = ground (arith, h) in rw z refl

pub drop_cons :
    (l : Line) (c x : ℕ) (u : Line)
    → drop c l ≡ x ∷ u
    → (byte_at l c ≡ x) × ((drop (suc c) l ≡ u) × (c < length l))
drop_cons [] zero x u h = absurd (cc h)
drop_cons [] (suc c) x u h = absurd (cc h)
drop_cons (y ∷ l) zero x u h = (cc h, (cc h, omega arith))
drop_cons (y ∷ l) (suc c) x u h =
    let (a, (b, d)) = drop_cons l c x u h in (a, (b, omega (arith, d)))

pub drop_nil : (l : Line) (c : ℕ) → drop c l ≡ [] → length l ≤ c
drop_nil [] c h = omega arith
drop_nil (y ∷ l) zero h = absurd (cc h)
drop_nil (y ∷ l) (suc c) h = omega (arith, drop_nil l c h)

pub drop_row :
    (xs : List Line) (n : ℕ) (l : Line) (ls : List Line)
    → drop n xs ≡ l ∷ ls
    → (record_at xs (suc n) ≡ some l) × (drop (suc n) xs ≡ ls)
drop_row [] zero l ls h = absurd (cc h)
drop_row [] (suc n) l ls h = absurd (cc h)
drop_row (x ∷ xs) zero l ls h = (cc h, cc h)
drop_row (x ∷ xs) (suc n) l ls h = drop_row xs n l ls h

pub drop_no_row : (xs : List Line) (n : ℕ) → drop n xs ≡ [] → record_at xs (suc n) ≡ none
drop_no_row [] zero h = refl
drop_no_row [] (suc n) h = refl
drop_no_row (x ∷ xs) zero h = absurd (cc h)
drop_no_row (x ∷ xs) (suc n) h = drop_no_row xs n h

pub size-drop :
    (xs : List Line) (i : ℕ) (l : Line)
    → record_at xs (suc i) ≡ some l
    → suc (length l) + size (drop (suc i) xs) ≤ size xs
size-drop [] i l h = absurd (cc h)
size-drop (x ∷ xs) zero l h =
    omega (arith, ap (λ (o : Option Line). length {A = ℕ} (elim o [ none ↦ [] | some y ↦ y ])) h)
size-drop (x ∷ xs) (suc i) l h = omega (arith, size-drop xs i l h)

pub length-drop : (l : Line) (c : ℕ) → c < length l → suc (length (drop (suc c) l)) ≤ length l
length-drop [] c h = absurd (omega arith)
length-drop (x ∷ l) zero h = omega arith
length-drop (x ∷ l) (suc c) h = omega (arith, length-drop l c (omega arith))
