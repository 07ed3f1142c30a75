-- ===== src/Put/Space.antt =====
-- The space that `put` asks for the line that it builds, and what it copies there.
use open_vi.Common.{
  Bool, true, ℕ, zero, suc, ◌+◌, ◌*◌, ◌≡◌, [], ◌∷◌, ◌++◌, arith, length, take, drop, leb,
  length-append,
}
use open_vi.State.{Line, Mark}
use open_vi.Put.{repeated, split_at, in_line, left_of, right_of, put_space}

length-repeated : (k : ℕ) (t : Line) → length (repeated k t) ≡ k * length t
length-repeated zero t = omega arith
length-repeated (suc k) t = omega (arith, length-append t (repeated k t), length-repeated k t)

-- The two parts of the line have its bytes.
length-parts : (l : Line) (i : ℕ) → length (take i l) + length (drop i l) ≡ length l
length-parts l zero = omega arith
length-parts [] (suc i) = omega arith
length-parts (x ∷ l) (suc i) = omega (arith, length-parts l i)

left_of-right_of :
    (cp : Mark) (append : Bool) (l : Line)
    → length (left_of cp append l) + length (right_of cp append l) ≡ length l
left_of-right_of cp append l = ground (arith, length-parts l (split_at cp append))

-- For a buffer of one line, and an empty line or a column such that the text goes in at a place of the
-- line: the line that replaces the current one has room in the space that was asked for exactly if
-- `cnt` copies of the buffer's text have at most one byte more than one copy.
pub put_space-bound :
    (cp : Mark) (append : Bool) (cnt : ℕ) (t l : Line)
    → in_line cp append l ≡ true
    → leb (length (left_of cp append l ++ (repeated cnt t ++ right_of cp append l))) (put_space t l)
      ≡ leb (cnt * length t) (suc (length t))
put_space-bound cp append cnt t l inside =
    let a = length-append (left_of cp append l) (repeated cnt t ++ right_of cp append l) in
    let b = length-append (repeated cnt t) (right_of cp append l) in
    let c = length-repeated cnt t in
    let d = left_of-right_of cp append l in ground (arith, a, b, c, d)
