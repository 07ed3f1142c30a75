-- ===== src/Cut/Names.antt =====
-- The names in the list of cut buffers, and their rotation (common/cut.c).
use open_vi.Common.{
  ℕ, ◌&&◌, ◌≡◌, ◌≢◌, ◌-◌, refl, Option, none, some, List, [], ◌∷◌, arith, leb, ◌==◌, if◌then◌else◌,
}
use open_vi.State.{Line}
use open_vi.Cut.{Cb, find_cb, set_cb, rename, rotate}

abbrev pub Distinct : List Cb → Type 0
Distinct [] = Unit
Distinct (b ∷ bs) = (find_cb b.name bs ≡ none) × Distinct bs

pub find_cb-name : (n : ℕ) (bs : List Cb) (b : Cb) → find_cb n bs ≡ some b → b.name ≡ n
find_cb-name n [] b h = absurd (cc h)
find_cb-name n (x ∷ bs) b h = ground (arith, find_cb-name n bs b)

pub find_cb-set_cb :
    (n k : ℕ) (v : Cb) (bs : List Cb)
    → v.name ≡ n
    → find_cb n bs ≢ none
    → find_cb k (set_cb n v bs) ≡ (if n == k then some v else find_cb k bs)
find_cb-set_cb n k v [] h there = absurd (there refl)
find_cb-set_cb n k v (b ∷ bs) h there = ground (arith, find_cb-set_cb n k v bs h)

find_cb-set_cb-none :
    (n k : ℕ) (v : Cb) (bs : List Cb)
    → v.name ≡ n
    → find_cb k bs ≡ none
    → find_cb k (set_cb n v bs) ≡ none
find_cb-set_cb-none n k v [] h there = refl
find_cb-set_cb-none n k v (b ∷ bs) h there = ground (arith, find_cb-set_cb-none n k v bs h)

pub set_cb-Distinct :
    (n : ℕ) (v : Cb) (bs : List Cb) → v.name ≡ n → Distinct bs → Distinct (set_cb n v bs)
set_cb-Distinct n v [] h d = tt
set_cb-Distinct n v (b ∷ bs) h (p, d) =
    ground (arith, set_cb-Distinct n v bs h d, find_cb-set_cb-none n b.name v bs h p)

-- The buffer that the name had before the names moved up.
abbrev pub rotated : ℕ → ℕ
rotated n = if leb b'2' n && leb n b'9' then n - 1 else n

abbrev pub content_of : Option Cb → Option (List Line)
content_of none = none
content_of (some b) = some b.textq

find_cb-rotate-none :
    (n : ℕ) (bs : List Cb)
    → Distinct bs
    → n ≢ b'1'
    → find_cb (rotated n) bs ≡ none
    → find_cb n (rotate bs) ≡ none
unfolding rotate
find_cb-rotate-none n [] d h p = refl
find_cb-rotate-none n (b ∷ bs) (q, d) h p = ground (arith, find_cb-rotate-none n bs d h)

pub find_cb-rotate-one : (bs : List Cb) → find_cb b'1' (rotate bs) ≡ none
unfolding rotate
find_cb-rotate-one [] = refl
find_cb-rotate-one (b ∷ bs) = ground (arith, find_cb-rotate-one bs)

-- After a rotation of distinct buffers, the buffers 2 to 9 hold what the buffers 1 to 8 held, there is
-- no buffer 1, and all the others are as before.
pub content_of-rotate :
    (n : ℕ) (bs : List Cb)
    → Distinct bs
    → content_of (find_cb n (rotate bs))
      ≡ (if n == b'1' then none else content_of (find_cb (rotated n) bs))
unfolding rotate
content_of-rotate n [] d = ground arith
content_of-rotate n (b ∷ bs) (q, d) =
    ground (arith, content_of-rotate n bs d, find_cb-rotate-one bs, find_cb-rotate-none n bs d)

pub rotate-Distinct : (bs : List Cb) → Distinct bs → Distinct (rotate bs)
unfolding rotate
rotate-Distinct [] d = tt
rotate-Distinct (b ∷ bs) (q, d) =
    ground (arith, rotate-Distinct bs d, find_cb-rotate-none (rename b.name) bs d)
