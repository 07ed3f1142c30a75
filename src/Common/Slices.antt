-- ===== src/Common/Slices.antt =====
-- The first entries of a list, and the others, counted in native numbers.
use Prim.Native.Nat.{◌+◌, ◌-◌, ℕ, zero, suc, ◌≤◌, ◌<◌}
use mathlib.Core.Path.{◌≡◌, refl, ap, ◌∙◌}
use mathlib.Core.List.{List, [], ◌∷◌, ◌++◌}
use native.Mathlib.Omega.{arith}
use open_vi.Common.Lists.{get_elem?, length, erase_idx, store_at}

module _ {ℓ} {A : Type ℓ} where
  abbrev pub take : ℕ → List A → List A
  take zero xs = []
  take (suc n) [] = []
  take (suc n) (x ∷ xs) = x ∷ take n xs

  abbrev pub drop : ℕ → List A → List A
  drop zero xs = xs
  drop (suc n) [] = []
  drop (suc n) (x ∷ xs) = drop n xs

  take-erase_idx : (xs : List A) (i k : ℕ) → i ≤ k → take i (erase_idx xs k) ≡ take i xs
  take-erase_idx xs zero k h = refl
  take-erase_idx [] (suc i) k h = refl
  take-erase_idx (x ∷ xs) (suc i) zero h = absurd (omega arith)
  take-erase_idx (x ∷ xs) (suc i) (suc k) h =
      ap (λ ys. x ∷ ys) (take-erase_idx xs i k (omega arith))

  drop-erase_idx : (xs : List A) (k : ℕ) → drop k (erase_idx xs k) ≡ drop (suc k) xs
  drop-erase_idx [] zero = refl
  drop-erase_idx [] (suc k) = refl
  drop-erase_idx (x ∷ xs) zero = refl
  drop-erase_idx (x ∷ xs) (suc k) = drop-erase_idx xs k

  pub cut-erase_idx :
      (xs : List A) (i k : ℕ)
      → i ≤ k
      → take i (erase_idx xs k) ++ drop k (erase_idx xs k) ≡ take i xs ++ drop (suc k) xs
  cut-erase_idx xs i k h = rw (take-erase_idx xs i k h, drop-erase_idx xs k) refl

  pub take-drop : (xs : List A) (i : ℕ) → take i xs ++ drop i xs ≡ xs
  take-drop xs zero = refl
  take-drop [] (suc i) = refl
  take-drop (x ∷ xs) (suc i) = ap (λ ys. x ∷ ys) (take-drop xs i)

  -- A store, then a cut behind it.
  pub cut-store_at :
      (xs : List A) (i k : ℕ) (v : A)
      → i < k
      → i < length xs
      → take (suc i) (store_at xs i v) ++ drop k (store_at xs i v) ≡ take i xs ++ (v ∷ drop k xs)
  cut-store_at [] i k v h b = absurd (omega arith)
  cut-store_at (x ∷ xs) zero zero v h b = absurd (omega arith)
  cut-store_at (x ∷ xs) zero (suc k) v h b = refl
  cut-store_at (x ∷ xs) (suc i) zero v h b = absurd (omega arith)
  cut-store_at (x ∷ xs) (suc i) (suc k) v h b =
      ap (λ ys. x ∷ ys) (cut-store_at xs i k v (omega arith) (omega arith))

  pub store_at_cut :
      (xs : List A) (i : ℕ) (v : A)
      → i < length xs
      → store_at xs i v ≡ take i xs ++ (v ∷ drop (suc i) xs)
  store_at_cut [] i v b = absurd (omega arith)
  store_at_cut (x ∷ xs) zero v b = refl
  store_at_cut (x ∷ xs) (suc i) v b = ap (λ ys. x ∷ ys) (store_at_cut xs i v (omega arith))

  pub length-take_le : (xs : List A) (i : ℕ) → length (take i xs) ≤ length xs
  length-take_le xs zero = omega arith
  length-take_le [] (suc i) = omega arith
  length-take_le (x ∷ xs) (suc i) = omega (arith, length-take_le xs i)

  pub drop-length : (xs : List A) → drop (length xs) xs ≡ []
  drop-length [] = refl
  drop-length (x ∷ xs) = drop-length xs

  pub append_nil : (xs : List A) → xs ++ [] ≡ xs
  append_nil [] = refl
  append_nil (x ∷ xs) = ap (λ ys. x ∷ ys) (append_nil xs)

  pub get_elem?-take : (xs : List A) (i : ℕ) → get_elem? (take (suc i) xs) i ≡ get_elem? xs i
  get_elem?-take [] i = refl
  get_elem?-take (x ∷ xs) zero = refl
  get_elem?-take (x ∷ xs) (suc i) = get_elem?-take xs i

  pub le-length-take : (xs : List A) (i : ℕ) → suc i ≤ length xs → suc i ≤ length (take (suc i) xs)
  le-length-take [] i h = absurd (omega arith)
  le-length-take (x ∷ xs) zero h = omega arith
  le-length-take (x ∷ xs) (suc i) h = omega (arith, le-length-take xs i (omega arith))

  -- A store over the last entry that was taken.
  pub store_at-take :
      (xs : List A) (i : ℕ) (v : A)
      → i < length xs
      → store_at (take (suc i) xs) i v ≡ take i xs ++ (v ∷ [])
  store_at-take [] i v h = absurd (omega arith)
  store_at-take (x ∷ xs) zero v h = refl
  store_at-take (x ∷ xs) (suc i) v h = ap (λ ys. x ∷ ys) (store_at-take xs i v (omega arith))

  pub take-append : (xs ys : List A) (i : ℕ) → i ≡ length xs → take i (xs ++ ys) ≡ xs
  take-append [] ys zero h = refl
  take-append [] ys (suc i) h = absurd (omega arith)
  take-append (x ∷ xs) ys zero h = absurd (omega arith)
  take-append (x ∷ xs) ys (suc i) h = ap (λ zs. x ∷ zs) (take-append xs ys i (omega arith))

  pub drop-append : (xs ys : List A) (i : ℕ) → i ≡ length xs → drop i (xs ++ ys) ≡ ys
  drop-append [] ys zero h = refl
  drop-append [] ys (suc i) h = absurd (omega arith)
  drop-append (x ∷ xs) ys zero h = absurd (omega arith)
  drop-append (x ∷ xs) ys (suc i) h = drop-append xs ys i (omega arith)

  pub length-append : (xs ys : List A) → length (xs ++ ys) ≡ length xs + length ys
  length-append [] ys = omega arith
  length-append (x ∷ xs) ys = omega (arith, length-append xs ys)

  pub length-take : (xs : List A) (i : ℕ) → i ≤ length xs → length (take i xs) ≡ i
  length-take xs zero h = refl
  length-take [] (suc i) h = absurd (omega arith)
  length-take (x ∷ xs) (suc i) h = omega (arith, length-take xs i (omega arith))

  take_all : (xs : List A) (k : ℕ) → length xs ≡ 0 → take k xs ++ xs ≡ xs
  take_all [] zero h = refl
  take_all [] (suc k) h = refl
  take_all (x ∷ xs) k h = absurd (omega arith)

  pub take-drop-drop :
      (xs : List A) (i j : ℕ) → i ≤ j → take (j - i) (drop i xs) ++ drop j xs ≡ drop i xs
  take-drop-drop xs zero j h =
      let k : j - 0 ≡ j = omega arith in ap (λ n. take n xs ++ drop j xs) k ∙ take-drop xs j
  take-drop-drop [] (suc i) zero h = absurd (omega arith)
  take-drop-drop [] (suc i) (suc j) h = take_all [] (suc j - suc i) (omega arith)
  take-drop-drop (x ∷ xs) (suc i) zero h = absurd (omega arith)
  take-drop-drop (x ∷ xs) (suc i) (suc j) h =
      let k : suc j - suc i ≡ j - i = omega arith in
      ap (λ n. take n (drop i xs) ++ drop j xs) k ∙ take-drop-drop xs i j (omega arith)
