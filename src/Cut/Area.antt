-- ===== src/Cut/Area.antt =====
-- The text of a region, and its first part, as a cut in character mode copies them.
use open_vi.Common.{
  ℕ, suc, ◌-◌, ◌≤◌, ◌<◌, true, false, ◌≡◌, ◌⊎◌, refl, sym, ap, some, List, [], ◌∷◌, ◌++◌, arith,
  length, take, drop, record_at, ◌==◌, if◌then◌else◌, Bool-cases, inl, inr,
}
use mathlib.Core.Path.{subst}
use open_vi.State.{Line}
use open_vi.Delete.{size_max, next}
use open_vi.Cut.Portion.{Copies, Copies-to_end, Copies-columns}
use open_vi.Cut.{size_sub}

-- From column `a` of line `i + 1` to column `c` of line `j + 1`, whose texts are `l` and `q`.
abbrev pub region : List Line → ℕ → ℕ → ℕ → ℕ → Line → Line → List Line
region xs i a j c l q =
    if j == i
    then take (suc c - a) (drop a l) ∷ []
    else drop a l ∷ (take (j - suc i) (drop (suc i) xs) ++ (take (suc c) q ∷ []))

-- What the three parts of a cut in character mode copy is the region; `t` is the first part.
pub region_of :
    (xs : List Line) (i a j c : ℕ) (l q t : Line)
    → t ≡ (if j == i then take (suc c - a) (drop a l) else drop a l)
    → (if suc j == suc i
        then (t ∷ []) ++ take (suc j - suc (suc i)) (drop (suc i) xs)
        else ((t ∷ []) ++ take (suc j - suc (suc i)) (drop (suc i) xs)) ++ (take (suc c) q ∷ []))
      ≡ region xs i a j c l q
region_of xs i a j c l q t first = elim (Bool-cases (j == i)) [
  | inl one ↦
      let h : (suc j == suc i) ≡ true = ground arith in
      let k : suc j - suc (suc i) ≡ 0 = ground arith in
      let f : t ≡ take (suc c - a) (drop a l) = ground (arith, first) in
      rw (h, one, k) (ap (λ u. u ∷ []) f)
  | inr more ↦
      let h : (suc j == suc i) ≡ false = ground arith in
      let k : suc j - suc (suc i) ≡ j - suc i = omega arith in
      let f : t ≡ drop a l = ground (arith, first) in rw (h, more, k, f) refl
]

-- The first part: the region within one line, or all of the line behind column `a`.
pub first_part :
    (xs : List Line) (i a j c : ℕ) (l q : Line)
    → record_at xs (suc i) ≡ some l
    → record_at xs (suc j) ≡ some q
    → a ≤ length l
    → (i ≡ j → a ≤ suc c)
    → (length q ≡ 0) ⊎ (suc c ≤ length q)
    → length q < size_max
    → Copies a
        (if suc j == suc i then next (size_sub c a) else size_max)
        l
        (if j == i then take (suc c - a) (drop a l) else drop a l)
first_part xs i a j c l q at_l at_q left order right small = elim (Bool-cases (j == i)) [
  | inl one ↦
      let here : i ≡ j = ground arith in
      let same : l ≡ q = cc (at_l, at_q, here) in
      let h : (suc j == suc i) ≡ true = ground arith in
      rw (h, one)
        (subst (λ u. Copies a (next (size_sub c a)) u (take (suc c - a) (drop a u))) (sym same)
          (Copies-columns a c q (order here) right small))
  | inr more ↦
      let h : (suc j == suc i) ≡ false = ground arith in rw (h, more) (Copies-to_end a l left)
]
