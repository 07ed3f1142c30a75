-- ===== src/Recno.antt =====
-- The record database that the editor keeps its lines and its log in: the db(3) interface as
-- common/line.c and common/log.c call it. The database is an abstract type; its calls, and what
-- its manual page promises of a call that succeeds, are the fields of an interface.
pub mod Memory
use open_vi.Common.{ℕ, suc, ◌≤◌, ◌≡◌, ◌≢◌, refl, Option, none, some, List, []}
use open_vi.Common.{length, record_at, insert_record, erase_record, store_record}

-- The return values 0, 1 and -1.
pub data Status : Type 0 where
  done absent failed : Status

-- `get` and `seq` hand data back.
pub data Reply {ℓ} (A : Type ℓ) : Type ℓ where
  found : A → Reply A
  absent : Reply A
  failed : Reply A

-- The flags of `put`: R_IAFTER, R_IBEFORE, and 0, which overwrites.
pub data PutFlag : Type 0 where
  after before over : PutFlag

-- What a successful `put` makes of the records.
abbrev pub put_rows {ℓ} : {A : Type ℓ} → PutFlag → ℕ → A → List A → List A
put_rows after n v xs = insert_record xs (suc n) v
put_rows before n v xs = insert_record xs n v
put_rows over n v xs = store_record xs n v

-- The record numbers that `put` takes without having to pad the file.
abbrev pub CanPut {ℓ} : {A : Type ℓ} → PutFlag → ℕ → List A → Type 0
CanPut after n xs = n ≤ length xs
CanPut before n xs = (1 ≤ n) × (n ≤ suc (length xs))
CanPut over n xs = (1 ≤ n) × (n ≤ suc (length xs))

pub record Recno (A : Type 0) : Type 1 where
  pub Db : Type 0
  -- the records, in order
  pub rows : Db → List A
  -- `dbopen` of an empty database
  pub create : Option Db
  pub get : Db → ℕ → Reply A
  pub put : PutFlag → Db → ℕ → A → Status × Db
  pub del : Db → ℕ → Status × Db
  -- `seq` with R_LAST: the number of the last record, and the record
  pub last : Db → Reply (ℕ × A)
  pub create_empty : (d : Db) → create ≡ some d → rows d ≡ []
  pub get_found : (d : Db) (n : ℕ) (v : A) → get d n ≡ found v → record_at (rows d) n ≡ some v
  pub get_absent : (d : Db) (n : ℕ) → get d n ≡ absent → record_at (rows d) n ≡ none
  pub put_done :
      (f : PutFlag) (d : Db) (n : ℕ) (v : A)
      → CanPut f n (rows d)
      → (put f d n v).0 ≡ done
      → rows (put f d n v).1 ≡ put_rows f n v (rows d)
  pub del_done :
      (d : Db) (n : ℕ)
      → (del d n).0 ≡ done
      → ((1 ≤ n) × (n ≤ length (rows d))) × (rows (del d n).1 ≡ erase_record (rows d) n)
  pub last_found :
      (d : Db) (n : ℕ) (v : A)
      → last d ≡ found (n, v)
      → (n ≡ length (rows d)) × (record_at (rows d) n ≡ some v)
  pub last_absent : (d : Db) → last d ≡ absent → rows d ≡ []

-- No call fails: there is no I/O error, memory suffices, and no call names record 0.
pub record Reliable {A : Type 0} (r : Recno A) : Type 0 where
  pub get_works : (d : r.Db) (n : ℕ) → r.get d (suc n) ≢ failed
  pub last_works : (d : r.Db) → r.last d ≢ failed
  pub put_works :
      (f : PutFlag) (d : r.Db) (n : ℕ) (v : A) → CanPut f n (r.rows d) → (r.put f d n v).0 ≡ done
  pub del_works : (d : r.Db) (n : ℕ) → 1 ≤ n → n ≤ length (r.rows d) → (r.del d n).0 ≡ done

-- A reply read as what the records hold.
abbrev pub reply_of {ℓ} : {A : Type ℓ} → Option A → Reply A
reply_of none = absent
reply_of (some v) = found v

module _ {A : Type 0} {r : Recno A} (ok : Reliable r) where
  -- A database that does not fail finds exactly the records that it holds.
  pub get-record_at : (d : r.Db) (n : ℕ) → r.get d (suc n) ≡ reply_of (record_at (r.rows d) (suc n))
  get-record_at d n = go (r.get d (suc n)) refl
    where
      go : (x : Reply A) → r.get d (suc n) ≡ x → x ≡ reply_of (record_at (r.rows d) (suc n))
      go (found v) q = rw (r.get_found d (suc n) v q)
      go absent q = rw (r.get_absent d (suc n) q)
      go failed q = absurd (ok.get_works d n q)
