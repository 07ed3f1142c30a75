-- ===== src/Put/Glue.antt =====
-- Lines put between the two parts of a line: the pieces that `put` builds, and the whole.
use open_vi.Common.{
  ℕ, zero, suc, ◌+◌, ◌<◌, Bool, false, ◌≡◌, refl, ap, List, [], ◌∷◌, ◌++◌, arith, length, take,
  drop, store_at, ◌==◌, if_intro,
}
use open_vi.State.{Line, Mark}
use open_vi.Put.{repeated, split_at, left_of, right_of, middle, last_line}
use open_vi.Put.Loop.{insert_lines}

-- The lines `ts`, with one text before the first and another behind the last.
abbrev pub glue : Line → List Line → Line → List Line
glue left [] right = (left ++ right) ∷ []
glue left (t ∷ []) right = (left ++ (t ++ right)) ∷ []
glue left (t ∷ u ∷ us) right = (left ++ t) ∷ glue [] (u ∷ us) right

abbrev pub copies : ℕ → Line → Line
copies zero t = []
copies (suc k) t = t ++ copies k t

repeated-copies : (k : ℕ) (t : Line) → repeated k t ≡ copies k t
repeated-copies zero t = refl
repeated-copies (suc k) t = ap (λ u. t ++ u) (repeated-copies k t)

glue_rest :
    (u : Line) (us : List Line) (right : Line)
    → middle (u ∷ us) ++ ((last_line u us ++ right) ∷ []) ≡ glue [] (u ∷ us) right
glue_rest u [] right = refl
glue_rest u (v ∷ us) right = ap (λ ys. u ∷ ys) (glue_rest v us right)

left_of-take :
    (cp : Mark) (append : Bool) (l : Line) → left_of cp append l ≡ take (split_at cp append) l
left_of-take cp append [] =
    if_intro (λ v. v ≡ take (split_at cp append) []) (0 == 0) _ _
      (λ _. none_left (split_at cp append)) (λ _. refl)
  where
    none_left : (k : ℕ) → [] ≡ take {A = ℕ} k []
    none_left zero = refl
    none_left (suc k) = refl
left_of-take cp append (x ∷ l) = let z : (suc (length l) == 0) ≡ false = ground arith in rw z refl

right_of-drop :
    (cp : Mark) (append : Bool) (l : Line) → right_of cp append l ≡ drop (split_at cp append) l
right_of-drop cp append [] =
    if_intro (λ v. v ≡ drop (split_at cp append) []) (0 == 0) _ _
      (λ _. none_left (split_at cp append)) (λ _. refl)
  where
    none_left : (k : ℕ) → [] ≡ drop {A = ℕ} k []
    none_left zero = refl
    none_left (suc k) = refl
right_of-drop cp append (x ∷ l) = let z : (suc (length l) == 0) ≡ false = ground arith in rw z refl

-- The lines that take the place of one line: the first of the buffer goes between the two parts, or the
-- buffer is split over them.
abbrev pub spliced : ℕ → Line → List Line → Line → Line → List Line
spliced cnt t [] left right = (left ++ (repeated cnt t ++ right)) ∷ []
spliced cnt t (u ∷ us) left right =
    (left ++ repeated cnt t) ∷ (middle (u ∷ us) ++ ((last_line u us ++ right) ∷ []))

pub spliced-glue :
    (cnt : ℕ) (t : Line) (us : List Line) (cp : Mark) (append : Bool) (l : Line)
    → spliced cnt t us (left_of cp append l) (right_of cp append l)
      ≡ glue (take (split_at cp append) l) (copies cnt t ∷ us) (drop (split_at cp append) l)
spliced-glue cnt t [] cp append l =
    rw (left_of-take cp append l, right_of-drop cp append l, repeated-copies cnt t) refl
spliced-glue cnt t (u ∷ us) cp append l =
    rw (left_of-take cp append l, right_of-drop cp append l, repeated-copies cnt t, glue_rest u us)
      refl

pub stored_lines :
    (xs : List Line) (i : ℕ) (v w : Line) (ts : List Line)
    → i < length xs
    → insert_lines (suc i + length ts) (w ∷ []) (insert_lines (suc i) ts (store_at xs i v))
      ≡ take i xs ++ ((v ∷ (ts ++ (w ∷ []))) ++ drop (suc i) xs)
stored_lines [] i v w ts h = absurd (omega arith)
stored_lines (x ∷ xs) zero v w ts h =
    let k : suc 0 + length ts ≡ suc (length ts) = omega arith in
    rw k (ap (λ ys. v ∷ ys) (behind ts xs))
  where
    behind :
        (us ys : List Line) → insert_lines (length us) (w ∷ []) (us ++ ys) ≡ (us ++ (w ∷ [])) ++ ys
    behind [] ys = refl
    behind (u ∷ us) ys = ap (λ zs. u ∷ zs) (behind us ys)
stored_lines (x ∷ xs) (suc i) v w ts h =
    let k : suc (suc i) + length ts ≡ suc (suc i + length ts) = omega arith in
    rw k (ap (λ ys. x ∷ ys) (stored_lines xs i v w ts (omega arith)))
