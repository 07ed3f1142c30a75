-- ===== src/Cut/Portion.antt =====
-- The bytes that one call of cut_line copies (common/cut.c).
use open_vi.Common.{
  ℕ, zero, suc, ◌+◌, ◌-◌, ◌≤◌, ◌<◌, false, ◌≡◌, ◌⊎◌, inl, inr, refl, ap, ◌∙◌, [], ◌∷◌, arith,
  length, take, drop, ◌==◌, Bool-cases,
}
use open_vi.State.{Line}
use open_vi.Delete.{size_max, next}
use open_vi.Cut.{size_sub, copy_len, portion, strays}

-- A copy within its line, of the bytes `t`.
pub record Copies (fcno clen : ℕ) (l t : Line) : Type 0 where
  pub bytes : portion fcno clen l ≡ t
  pub inside : strays fcno clen l ≡ false

take_all : (l : Line) (k : ℕ) → length l ≤ k → take k l ≡ l
take_all [] zero h = refl
take_all [] (suc k) h = refl
take_all (x ∷ l) zero h = absurd (omega arith)
take_all (x ∷ l) (suc k) h = ap (λ t. x ∷ t) (take_all l k (omega arith))

take_nil : (k : ℕ) (l : Line) → l ≡ [] → take k l ≡ []
take_nil zero l h = refl
take_nil (suc k) [] h = refl
take_nil (suc k) (x ∷ l) h = absurd (cc h)

take_rest : (l : Line) (a : ℕ) → take (length l - a) (drop a l) ≡ drop a l
take_rest l zero = take_all l (length l - 0) (omega arith)
take_rest [] (suc a) = take_nil (0 - suc a) [] refl
take_rest (x ∷ l) (suc a) = ap (λ k. take k (drop a l)) (omega arith) ∙ take_rest l a

drop_nil : (a : ℕ) (l : Line) → length l ≡ 0 → drop a l ≡ []
drop_nil zero [] h = refl
drop_nil (suc a) [] h = refl
drop_nil a (x ∷ l) h = absurd (omega arith)

-- An empty line, whatever is asked for.
Copies-empty : (a n k : ℕ) (l : Line) → length l ≡ 0 → Copies a n l (take k (drop a l))
Copies-empty a n k l h = record {
  bytes = ground (arith, take_nil k (drop a l) (drop_nil a l h));
  inside = ground arith;
}

-- `k` bytes from column `a`.
Copies-part :
    (a n k : ℕ) (l : Line)
    → copy_len a n l ≡ k
    → a + k ≤ length l
    → Copies a n l (take k (drop a l))
Copies-part a n k l same le = elim (Bool-cases (length l == 0)) [
  | inl empty ↦ Copies-empty a n k l (ground arith)
  | inr full ↦ record { bytes = rw (full, same) refl; inside = ground (arith, same, full) }
]

-- CUT_LINE_TO_EOL
pub Copies-to_end : (a : ℕ) (l : Line) → a ≤ length l → Copies a size_max l (drop a l)
Copies-to_end a l le =
    let x = Copies-part a size_max (length l - a) l (ground arith) (omega arith) in
    record { bytes = x.bytes ∙ take_rest l a; inside = x.inside }

-- `c + 1` bytes from the start.
pub Copies-start :
    (c : ℕ) (l : Line)
    → (length l ≡ 0) ⊎ (suc c ≤ length l)
    → length l < size_max
    → Copies 0 (next c) l (take (suc c) l)
Copies-start c l (inl empty) small = Copies-empty 0 (next c) (suc c) l empty
Copies-start c l (inr le) small =
    let n : next c ≡ suc c = ground arith in
    Copies-part 0 (next c) (suc c) l (ground (arith, n)) (omega arith)

-- From column `a` to column `c`; up to the column before `a` it is nothing.
pub Copies-columns :
    (a c : ℕ) (l : Line)
    → a ≤ suc c
    → (length l ≡ 0) ⊎ (suc c ≤ length l)
    → length l < size_max
    → Copies a (next (size_sub c a)) l (take (suc c - a) (drop a l))
Copies-columns a c l order (inl empty) small = Copies-empty a _ (suc c - a) l empty
Copies-columns a c l order (inr le) small =
    let n : next (size_sub c a) ≡ suc c - a = ground arith in
    Copies-part a _ (suc c - a) l (ground (arith, n)) (omega arith)
