-- ===== src/Recno/Memory.antt =====
-- A record database kept as a list. It meets the interface and never fails.
use open_vi.Common.{
  ℕ, zero, suc, ◌≤◌, Bool, ◌&&◌, ◌≡◌, ◌≢◌, refl, Option, none, some, List, [], ◌∷◌, arith, leb,
  length, get_elem?, record_at, if◌then◌else◌, get_elem?_there, ap, erase_record,
}
use open_vi.Recno.{
  Recno, Reliable, Status, done, absent, failed, Reply, found, PutFlag, after, before, over,
  put_rows, CanPut, reply_of,
}

module _ {A : Type 0} where
  abbrev fetch : List A → ℕ → Reply A
  fetch d zero = Reply.failed
  fetch d (suc n) = reply_of (get_elem? d n)

  abbrev can_put : PutFlag → ℕ → List A → Bool
  can_put after n d = leb n (length d)
  can_put before n d = leb 1 n && leb n (suc (length d))
  can_put over n d = leb 1 n && leb n (suc (length d))

  abbrev store : PutFlag → List A → ℕ → A → Status × List A
  store f d n v = if can_put f n d then (done, put_rows f n v d) else (failed, d)

  abbrev remove : List A → ℕ → Status × List A
  remove d n = if leb 1 n && leb n (length d) then (done, erase_record d n) else (absent, d)

  abbrev last_of : Option A → ℕ → Reply (ℕ × A)
  last_of none n = Reply.absent
  last_of (some v) n = found (n, v)

  abbrev last_record : List A → Reply (ℕ × A)
  last_record d = last_of (record_at d (length d)) (length d)

  pub created_empty : (d : List A) → some [] ≡ some d → d ≡ []
  created_empty d h = cc

  pub fetch_found : (d : List A) (n : ℕ) (v : A) → fetch d n ≡ found v → record_at d n ≡ some v
  fetch_found d zero v h = absurd (cc h)
  fetch_found d (suc n) v h = ground arith

  pub fetch_absent : (d : List A) (n : ℕ) → fetch d n ≡ Reply.absent → record_at d n ≡ none
  fetch_absent d zero h = absurd (cc h)
  fetch_absent d (suc n) h = ground arith

  pub store_done :
      (f : PutFlag) (d : List A) (n : ℕ) (v : A)
      → CanPut f n d
      → (store f d n v).0 ≡ done
      → (store f d n v).1 ≡ put_rows f n v d
  store_done f d n v c h = ground arith

  pub remove_done :
      (d : List A) (n : ℕ)
      → (remove d n).0 ≡ done
      → ((1 ≤ n) × (n ≤ length d)) × ((remove d n).1 ≡ erase_record d n)
  remove_done d n h = ground arith

  last_of_found :
      (o : Option A) (m n : ℕ) (v : A) → last_of o m ≡ found (n, v) → (n ≡ m) × (o ≡ some v)
  last_of_found none m n v h = absurd (cc h)
  last_of_found (some w) m n v h = (cc, cc)

  pub last_record_found :
      (d : List A) (n : ℕ) (v : A)
      → last_record d ≡ found (n, v)
      → (n ≡ length d) × (record_at d n ≡ some v)
  last_record_found d n v h =
      let (p, q) = last_of_found (record_at d (length d)) (length d) n v h in (p, rw p q)

  pub last_record_absent : (d : List A) → last_record d ≡ Reply.absent → d ≡ []
  last_record_absent [] h = refl
  last_record_absent (x ∷ xs) h =
      let (v, at) = get_elem?_there (x ∷ xs) (length xs) (omega arith) in
      absurd (cc (ap (λ o. last_of o (suc (length xs))) at))

  abbrev pub memory : Recno A
  memory = record {
    Db = List A;
    rows = λ d. d;
    create = some [];
    get = fetch;
    put = store;
    del = remove;
    last = last_record;
    create_empty = created_empty;
    get_found = fetch_found;
    get_absent = fetch_absent;
    put_done = store_done;
    del_done = remove_done;
    last_found = last_record_found;
    last_absent = last_record_absent;
  }

  store_works : (f : PutFlag) (d : List A) (n : ℕ) (v : A) → CanPut f n d → (store f d n v).0 ≡ done
  store_works after d n v c = ground arith
  store_works before d n v c = ground arith
  store_works over d n v c = ground arith

  fetch_works : (d : List A) (n : ℕ) → fetch d (suc n) ≢ Reply.failed
  fetch_works d n h = ground arith

  last_of_works : (o : Option A) (n : ℕ) → last_of o n ≢ Reply.failed
  last_of_works none n h = cc
  last_of_works (some v) n h = cc

  remove_works : (d : List A) (n : ℕ) → 1 ≤ n → n ≤ length d → (remove d n).0 ≡ done
  remove_works d n a b = ground arith

  pub memory-Reliable : Reliable memory
  memory-Reliable = record {
    get_works = fetch_works;
    last_works = λ d. last_of_works (record_at d (length d)) (length d);
    put_works = store_works;
    del_works = remove_works;
  }
