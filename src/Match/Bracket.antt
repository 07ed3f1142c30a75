-- ===== src/Match/Bracket.antt =====
-- The first bracket of a text (vi/v_match.c).
use open_vi.Common.{
  ℕ, zero, suc, ◌+◌, ◌≤◌, ◌<◌, ◌≡◌, Bool, true, false, refl, ap, Option, none, some, [], ◌∷◌, arith,
  length, drop, Bool-cases, inl, inr,
}
use open_vi.State.{Line}
use open_vi.Put.{is_blank}
use open_vi.Stream.{v_isempty}
use open_vi.Match.{Start, bracket, find_bracket}

bracket-blank : (c : ℕ) → is_blank c ≡ true → bracket c ≡ none
bracket-blank c h = ground arith

-- A bracket that is found stands in the text, and so the text is not blank.
pub find_bracket-bounds :
    (off : ℕ) (u : Line) (s : Start)
    → find_bracket off u ≡ some s
    → ((off ≤ s.off) × (s.off < off + length u)) × (v_isempty u ≡ false)
find_bracket-bounds off [] s h = absurd (cc h)
find_bracket-bounds off (c ∷ u) s h = go (bracket c) refl (find_bracket-bounds (suc off) u s) h
  where
    go :
        (m : Option (ℕ × Bool))
        → bracket c ≡ m
        → (find_bracket (suc off) u ≡ some s
            → ((suc off ≤ s.off) × (s.off < suc off + length u)) × (v_isempty u ≡ false))
        → elim m as (λ _. Option Start) [
          | none ↦ find_bracket (suc off) u
          | some m ↦ some (record { off = off; startc = c; matchc = m.0; forwards = m.1 })
        ]
          ≡ some s
        → ((off ≤ s.off) × (s.off < off + length (c ∷ u))) × (v_isempty (c ∷ u) ≡ false)
    go none q rec k =
        let ((ge, lt), text) = rec k in
        ((omega (arith, ge), omega (arith, lt)), ground (arith, text))
    go (some m) q rec k =
        let start : off ≡ s.off =
          ap (λ (o : Option Start). elim o [ none ↦ 0 | some r ↦ r.off ]) k in
        (
          (omega (arith, start), omega (arith, start)),
          elim (Bool-cases (is_blank c)) [
            | inl blank ↦ absurd (cc (bracket-blank c blank, q))
            | inr text ↦ rw text refl
          ],
        )

pub v_isempty-drop : (l : Line) (c : ℕ) → v_isempty (drop c l) ≡ false → v_isempty l ≡ false
v_isempty-drop l zero h = h
v_isempty-drop [] (suc c) h = h
v_isempty-drop (x ∷ l) (suc c) h = ground (arith, v_isempty-drop l c h)

pub length-drop_sum : (l : Line) (c : ℕ) → 0 < length (drop c l) → c + length (drop c l) ≡ length l
length-drop_sum l zero h = omega arith
length-drop_sum [] (suc c) h = absurd (omega arith)
length-drop_sum (x ∷ l) (suc c) h = omega (arith, length-drop_sum l c h)
