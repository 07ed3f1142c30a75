-- ===== src/Common/Lists.antt =====
-- Sequences of records numbered from 1, as a recno database numbers them: record 0 does not exist.
use Prim.Native.Nat.{ℕ, zero, suc, ◌≤◌, ◌<◌}
use mathlib.Core.Path.{◌≡◌, refl, ap}
use mathlib.Core.Logic.{◌≢◌}
use mathlib.Core.List.{List, [], ◌∷◌}
use mathlib.Core.Option.{Option, none, some}
use native.Mathlib.Omega.{arith}

module _ {ℓ} {A : Type ℓ} where
  abbrev pub length : List A → ℕ
  length [] = 0
  length (_ ∷ xs) = suc (length xs)

  abbrev pub get_elem? : List A → ℕ → Option A
  get_elem? [] _ = none
  get_elem? (x ∷ _) zero = some x
  get_elem? (_ ∷ xs) (suc i) = get_elem? xs i

  -- A write out of bounds changes nothing.
  abbrev pub set : List A → ℕ → A → List A
  set [] _ _ = []
  set (_ ∷ xs) zero v = v ∷ xs
  set (x ∷ xs) (suc i) v = x ∷ set xs i v

  abbrev pub insert_at : List A → ℕ → A → List A
  insert_at xs zero v = v ∷ xs
  insert_at [] (suc _) v = v ∷ []
  insert_at (x ∷ xs) (suc i) v = x ∷ insert_at xs i v

  abbrev pub erase_idx : List A → ℕ → List A
  erase_idx [] _ = []
  erase_idx (_ ∷ xs) zero = xs
  erase_idx (x ∷ xs) (suc i) = x ∷ erase_idx xs i

  -- Record `n`, counted from 1.
  abbrev pub record_at : List A → ℕ → Option A
  record_at xs zero = none
  record_at xs (suc i) = get_elem? xs i

  -- The new record becomes number `n`.
  abbrev pub insert_record : List A → ℕ → A → List A
  insert_record xs zero v = v ∷ xs
  insert_record xs (suc i) v = insert_at xs i v

  abbrev pub erase_record : List A → ℕ → List A
  erase_record xs zero = xs
  erase_record xs (suc i) = erase_idx xs i

  -- A store at one past the end adds a record.
  abbrev pub store_at : List A → ℕ → A → List A
  store_at [] _ v = v ∷ []
  store_at (_ ∷ xs) zero v = v ∷ xs
  store_at (x ∷ xs) (suc i) v = x ∷ store_at xs i v

  abbrev pub store_record : List A → ℕ → A → List A
  store_record xs zero v = xs
  store_record xs (suc i) v = store_at xs i v

module _ {ℓ} {A : Type ℓ} where
  pub erase_idx-insert_at :
      (xs : List A) (i : ℕ) (v : A) → i ≤ length xs → erase_idx (insert_at xs i v) i ≡ xs
  erase_idx-insert_at xs zero v h = refl
  erase_idx-insert_at [] (suc i) v h = absurd (omega arith)
  erase_idx-insert_at (x ∷ xs) (suc i) v h = ap (x ∷◌) (erase_idx-insert_at xs i v (omega arith))

  pub insert_at-erase_idx :
      (xs : List A) (i : ℕ) (v : A) → get_elem? xs i ≡ some v → insert_at (erase_idx xs i) i v ≡ xs
  insert_at-erase_idx [] i v h = cc
  insert_at-erase_idx (x ∷ xs) zero v h = cc
  insert_at-erase_idx (x ∷ xs) (suc i) v h = cc (insert_at-erase_idx xs i v h)

  pub store_at-store_at :
      (xs : List A) (i : ℕ) (v w : A)
      → get_elem? xs i ≡ some v
      → store_at (store_at xs i w) i v ≡ xs
  store_at-store_at [] i v w h = cc
  store_at-store_at (x ∷ xs) zero v w h = cc
  store_at-store_at (x ∷ xs) (suc i) v w h = cc (store_at-store_at xs i v w h)

  pub get_elem?-insert_at_self :
      (xs : List A) (i : ℕ) (v : A) → i ≤ length xs → get_elem? (insert_at xs i v) i ≡ some v
  get_elem?-insert_at_self xs zero v h = refl
  get_elem?-insert_at_self [] (suc i) v h = absurd (omega arith)
  get_elem?-insert_at_self (x ∷ xs) (suc i) v h = get_elem?-insert_at_self xs i v (omega arith)

  pub get_elem?-insert_at_lt :
      (xs : List A) (i j : ℕ) (v : A)
      → j < i
      → i ≤ length xs
      → get_elem? (insert_at xs i v) j ≡ get_elem? xs j
  get_elem?-insert_at_lt xs zero j v h k = absurd (omega arith)
  get_elem?-insert_at_lt [] (suc i) j v h k = absurd (omega arith)
  get_elem?-insert_at_lt (x ∷ xs) (suc i) zero v h k = refl
  get_elem?-insert_at_lt (x ∷ xs) (suc i) (suc j) v h k =
      get_elem?-insert_at_lt xs i j v (omega arith) (omega arith)

  pub get_elem?-erase_idx_lt :
      (xs : List A) (i j : ℕ) → j < i → get_elem? (erase_idx xs i) j ≡ get_elem? xs j
  get_elem?-erase_idx_lt [] i j h = refl
  get_elem?-erase_idx_lt (x ∷ xs) zero j h = absurd (omega arith)
  get_elem?-erase_idx_lt (x ∷ xs) (suc i) zero h = refl
  get_elem?-erase_idx_lt (x ∷ xs) (suc i) (suc j) h = get_elem?-erase_idx_lt xs i j (omega arith)

  pub get_elem?-store_at_self :
      (xs : List A) (i : ℕ) (v : A) → i ≤ length xs → get_elem? (store_at xs i v) i ≡ some v
  get_elem?-store_at_self [] zero v h = refl
  get_elem?-store_at_self [] (suc i) v h = absurd (omega arith)
  get_elem?-store_at_self (x ∷ xs) zero v h = refl
  get_elem?-store_at_self (x ∷ xs) (suc i) v h = get_elem?-store_at_self xs i v (omega arith)

  pub get_elem?-store_at_ne :
      (xs : List A) (i j : ℕ) (v : A)
      → i ≢ j
      → i ≤ length xs
      → get_elem? (store_at xs i v) j ≡ get_elem? xs j
  get_elem?-store_at_ne [] zero zero v h k = absurd (h refl)
  get_elem?-store_at_ne [] zero (suc j) v h k = refl
  get_elem?-store_at_ne [] (suc i) j v h k = absurd (omega arith)
  get_elem?-store_at_ne (x ∷ xs) zero zero v h k = absurd (h refl)
  get_elem?-store_at_ne (x ∷ xs) zero (suc j) v h k = refl
  get_elem?-store_at_ne (x ∷ xs) (suc i) zero v h k = refl
  get_elem?-store_at_ne (x ∷ xs) (suc i) (suc j) v h k =
      get_elem?-store_at_ne xs i j v (λ e. h (ap suc e)) (omega arith)

  pub length-insert_at : (xs : List A) (i : ℕ) (v : A) → length (insert_at xs i v) ≡ suc (length xs)
  length-insert_at xs zero v = refl
  length-insert_at [] (suc i) v = refl
  length-insert_at (x ∷ xs) (suc i) v = ap suc (length-insert_at xs i v)

  pub length-erase_idx :
      (xs : List A) (i : ℕ) → i < length xs → suc (length (erase_idx xs i)) ≡ length xs
  length-erase_idx [] i h = absurd (omega arith)
  length-erase_idx (x ∷ xs) zero h = refl
  length-erase_idx (x ∷ xs) (suc i) h = ap suc (length-erase_idx xs i (omega arith))

  pub length-store_at :
      (xs : List A) (i : ℕ) (v : A) → i < length xs → length (store_at xs i v) ≡ length xs
  length-store_at [] i v h = absurd (omega arith)
  length-store_at (x ∷ xs) zero v h = refl
  length-store_at (x ∷ xs) (suc i) v h = ap suc (length-store_at xs i v (omega arith))

  pub lt-length_of_get_elem? :
      (xs : List A) (i : ℕ) {v : A} → get_elem? xs i ≡ some v → i < length xs
  lt-length_of_get_elem? [] i h = cc
  lt-length_of_get_elem? (_ ∷ xs) zero h = omega arith
  lt-length_of_get_elem? (_ ∷ xs) (suc i) h = omega (arith, lt-length_of_get_elem? xs i h)
