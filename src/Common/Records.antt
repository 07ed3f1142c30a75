-- ===== src/Common/Records.antt =====
-- Laws of the operations on numbered records.
use Prim.Native.Nat.{ℕ, zero, suc, ◌≤◌, ◌<◌}
use mathlib.Core.Path.{◌≡◌, refl, ap}
use mathlib.Core.Logic.{◌≢◌}
use mathlib.Core.List.{List, [], ◌∷◌}
use mathlib.Core.Option.{some}
use native.Mathlib.Omega.{arith}
use open_vi.Common.Lists.{
  length, get_elem?, insert_at, record_at, insert_record, erase_record, store_at, store_record,
  erase_idx-insert_at, insert_at-erase_idx, store_at-store_at, get_elem?-insert_at_self,
  get_elem?-insert_at_lt, get_elem?-erase_idx_lt, get_elem?-store_at_self, get_elem?-store_at_ne,
  length-insert_at, length-erase_idx, length-store_at, lt-length_of_get_elem?,
}

module _ {ℓ} {A : Type ℓ} where
  pub length-store_at_le :
      (xs : List A) (i : ℕ) (v : A) → i ≤ length xs → suc i ≤ length (store_at xs i v)
  length-store_at_le [] zero v h = omega arith
  length-store_at_le [] (suc i) v h = absurd (omega arith)
  length-store_at_le (x ∷ xs) zero v h = omega arith
  length-store_at_le (x ∷ xs) (suc i) v h = omega (arith, length-store_at_le xs i v (omega arith))

  pub record_at-store_record_lt :
      (xs : List A) (n k : ℕ) (v : A)
      → k < n
      → n ≤ suc (length xs)
      → record_at (store_record xs n v) k ≡ record_at xs k
  record_at-store_record_lt xs zero k v h b = refl
  record_at-store_record_lt xs (suc i) zero v h b = refl
  record_at-store_record_lt xs (suc i) (suc j) v h b =
      get_elem?-store_at_ne xs i j v (λ e. absurd (omega arith)) (omega arith)

  pub record_at-store_record_self :
      (xs : List A) (n : ℕ) (v : A)
      → 1 ≤ n
      → n ≤ suc (length xs)
      → record_at (store_record xs n v) n ≡ some v
  record_at-store_record_self xs zero v h b = absurd (omega arith)
  record_at-store_record_self xs (suc i) v h b = get_elem?-store_at_self xs i v (omega arith)

  pub length-store_record_le :
      (xs : List A) (n : ℕ) (v : A) → 1 ≤ n → n ≤ suc (length xs) → n ≤ length (store_record xs n v)
  length-store_record_le xs zero v h b = absurd (omega arith)
  length-store_record_le xs (suc i) v h b = length-store_at_le xs i v (omega arith)

  pub record_at-erase_record_lt :
      (xs : List A) (n k : ℕ) → k < n → record_at (erase_record xs n) k ≡ record_at xs k
  record_at-erase_record_lt xs zero k h = absurd (omega arith)
  record_at-erase_record_lt xs (suc i) zero h = refl
  record_at-erase_record_lt xs (suc i) (suc j) h = get_elem?-erase_idx_lt xs i j (omega arith)

  pub record_at-insert_record_lt :
      (xs : List A) (n k : ℕ) (v : A)
      → k < n
      → n ≤ suc (length xs)
      → record_at (insert_record xs n v) k ≡ record_at xs k
  record_at-insert_record_lt xs zero k v h b = absurd (omega arith)
  record_at-insert_record_lt xs (suc i) zero v h b = refl
  record_at-insert_record_lt xs (suc i) (suc j) v h b =
      get_elem?-insert_at_lt xs i j v (omega arith) (omega arith)

  pub record_at-insert_record_self :
      (xs : List A) (n : ℕ) (v : A)
      → 1 ≤ n
      → n ≤ suc (length xs)
      → record_at (insert_record xs n v) n ≡ some v
  record_at-insert_record_self xs zero v h b = absurd (omega arith)
  record_at-insert_record_self xs (suc i) v h b = get_elem?-insert_at_self xs i v (omega arith)

  pub length-insert_record :
      (xs : List A) (n : ℕ) (v : A) → length (insert_record xs n v) ≡ suc (length xs)
  length-insert_record xs zero v = refl
  length-insert_record xs (suc i) v = length-insert_at xs i v

  pub length-erase_record :
      (xs : List A) (n : ℕ) → 1 ≤ n → n ≤ length xs → suc (length (erase_record xs n)) ≡ length xs
  length-erase_record xs zero h b = absurd (omega arith)
  length-erase_record xs (suc i) h b = length-erase_idx xs i (omega arith)

  pub length-store_record :
      (xs : List A) (n : ℕ) (v : A)
      → 1 ≤ n
      → n ≤ length xs
      → length (store_record xs n v) ≡ length xs
  length-store_record xs zero v h b = absurd (omega arith)
  length-store_record xs (suc i) v h b = length-store_at xs i v (omega arith)

  pub erase_record-insert_record :
      (xs : List A) (n : ℕ) (v : A)
      → 1 ≤ n
      → n ≤ suc (length xs)
      → erase_record (insert_record xs n v) n ≡ xs
  erase_record-insert_record xs zero v h b = absurd (omega arith)
  erase_record-insert_record xs (suc i) v h b = erase_idx-insert_at xs i v (omega arith)

  pub insert_record-erase_record :
      (xs : List A) (n : ℕ) (v : A)
      → record_at xs n ≡ some v
      → insert_record (erase_record xs n) n v ≡ xs
  insert_record-erase_record xs zero v h = cc
  insert_record-erase_record xs (suc i) v h = insert_at-erase_idx xs i v h

  pub store_record-store_record :
      (xs : List A) (n : ℕ) (v w : A)
      → record_at xs n ≡ some v
      → store_record (store_record xs n w) n v ≡ xs
  store_record-store_record xs zero v w h = refl
  store_record-store_record xs (suc i) v w h = store_at-store_at xs i v w h

  pub record_at_bounds :
      (xs : List A) (n : ℕ) {v : A} → record_at xs n ≡ some v → (1 ≤ n) × (n ≤ length xs)
  record_at_bounds xs zero h = cc
  record_at_bounds xs (suc i) h = (omega arith, lt-length_of_get_elem? xs i h)

  pub get_elem?_there : (xs : List A) (i : ℕ) → i < length xs → (v : A) × (get_elem? xs i ≡ some v)
  get_elem?_there [] i h = absurd (omega arith)
  get_elem?_there (x ∷ xs) zero h = (x, refl)
  get_elem?_there (x ∷ xs) (suc i) h = get_elem?_there xs i (omega arith)

  pub record_at_there :
      (xs : List A) (n : ℕ) → 1 ≤ n → n ≤ length xs → (v : A) × (record_at xs n ≡ some v)
  record_at_there xs zero h b = absurd (omega arith)
  record_at_there xs (suc i) h b = get_elem?_there xs i (omega arith)

  pub record_at-store_record_ne :
      (xs : List A) (n k : ℕ) (v : A)
      → n ≢ k
      → n ≤ suc (length xs)
      → record_at (store_record xs n v) k ≡ record_at xs k
  record_at-store_record_ne xs zero k v h b = refl
  record_at-store_record_ne xs (suc i) zero v h b = refl
  record_at-store_record_ne xs (suc i) (suc j) v h b =
      get_elem?-store_at_ne xs i j v (λ e. h (ap suc e)) (omega arith)

  pub get_elem?-insert_at_gt :
      (xs : List A) (i j : ℕ) (v : A)
      → i ≤ j
      → j < length xs
      → get_elem? (insert_at xs i v) (suc j) ≡ get_elem? xs j
  get_elem?-insert_at_gt xs zero j v h b = refl
  get_elem?-insert_at_gt [] (suc i) j v h b = absurd (omega arith)
  get_elem?-insert_at_gt (x ∷ xs) (suc i) zero v h b = absurd (omega arith)
  get_elem?-insert_at_gt (x ∷ xs) (suc i) (suc j) v h b =
      get_elem?-insert_at_gt xs i j v (omega arith) (omega arith)

  pub record_at-insert_record_gt :
      (xs : List A) (n k : ℕ) (v : A)
      → 1 ≤ n
      → n ≤ k
      → k ≤ length xs
      → record_at (insert_record xs n v) (suc k) ≡ record_at xs k
  record_at-insert_record_gt xs zero k v h a b = absurd (omega arith)
  record_at-insert_record_gt xs (suc i) zero v h a b = absurd (omega arith)
  record_at-insert_record_gt xs (suc i) (suc j) v h a b =
      get_elem?-insert_at_gt xs i j v (omega arith) (omega arith)
