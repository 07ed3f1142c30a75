-- ===== src/Edit/Caches.antt =====
-- The caches of `EXF` after a line change: they still tell the truth, except after an insertion
-- that is not logged.
use open_vi.Common.{
  ℕ, suc, ◌≤◌, Bool, true, false, ◌≡◌, ◌≢◌, refl, sym, ap, ◌∙◌, some, arith, length, record_at, ltb,
  leb, ◌==◌, if_intro, record_at-erase_record_lt, record_at-insert_record_lt, length-erase_record,
  length-insert_record, length-store_record, record_at-store_record_ne,
}
use open_vi.Recno.{Reliable}
use open_vi.State.{Line, line_append, line_reset, append, reset_f, reset_b, Env, Ed, rows}
use open_vi.Line.Reads.{IsCoherent, IsRight}
use open_vi.Log.Frame.{KeepsFile-trans, log_line-KeepsFile}
use open_vi.Edit.{Services, stored, one_more, one_less, db_delete, db_append, db_set}
use open_vi.Edit.Frame.{scr_update-Frame}
use open_vi.Edit.Stored.{
  file_frame, delete_logged, delete_stored, append_stored, insert_stored, set_logged, set_stored,
  delete_logged-KeepsFile, db_delete_ok, db_append_ok, db_set_ok,
}
use open_vi.Edit.Rows.{
  delete_stored-rows, append_stored-rows, set_stored-rows, insert_stored-rows, delete_end, put_end,
  logged_end,
}

module _ {env : Env} (s : Services env) where
  open env use {file}

  stored-IsCoherent :
      (d : file.Db) (flush : Bool) (k : ℕ) (f : Ed env)
      → (flush ≡ false → f.c_lno ≢ 0 → record_at (file.rows d) f.c_lno ≡ record_at (rows f) f.c_lno)
      → (k ≢ 0 → k ≡ length (file.rows d))
      → IsCoherent f
      → IsCoherent (stored s d flush k f)
  stored-IsCoherent d flush k f keep count h = record {
    line = λ z _.
        if_intro (λ v. v ≢ 0 → record_at (file.rows d) v ≡ some f.c_lp) flush 0 f.c_lno
          (λ _ z. absurd (z refl)) (λ miss z. keep miss z ∙ h.line z refl) z;
    count = count;
  }

  one_more-length :
      (f : Ed env) (n : ℕ)
      → IsCoherent f
      → n ≡ suc (length (rows f))
      → one_more s f ≢ 0
      → one_more s f ≡ n
  one_more-length f n h p =
      if_intro (λ v. v ≢ 0 → v ≡ n) (f.c_nlines == 0) _ _ (λ _ z. absurd (z refl))
        (λ z _. ap suc (h.count (λ y. ground arith)) ∙ sym p)

  one_less-length :
      (f : Ed env) (n : ℕ)
      → IsCoherent f
      → suc n ≡ length (rows f)
      → one_less s f ≢ 0
      → one_less s f ≡ n
  one_less-length f n h p =
      if_intro (λ v. v ≢ 0 → v ≡ n) (f.c_nlines == 0) _ _ (λ _ z. absurd (z refl))
        (λ z _. omega (arith, h.count (λ y. ground arith), p))

  module _ (ok : Reliable file) (n : ℕ) (e : Ed env) (has : e.has_file ≡ true)
      (c : IsCoherent e) where
    append_stored-length :
        (p : Line)
        → n ≤ length (rows e)
        → length (rows (append_stored s n p e)) ≡ suc (length (rows e))
    append_stored-length p b =
        rw (append_stored-rows s ok n e has p b) (length-insert_record (rows e) (suc n) p)

    pub append_stored-IsCoherent :
        (p : Line) → n ≤ length (rows e) → IsCoherent (append_stored s n p e)
    append_stored-IsCoherent p b =
        stored-IsCoherent _ (ltb n e.c_lno) (one_more s e) e
          (λ miss z.
            rw (append_stored-rows s ok n e has p b)
              (record_at-insert_record_lt (rows e) (suc n) e.c_lno p (ground arith) (omega arith)))
          (one_more-length e _ c (append_stored-length p b)) c

    insert_stored-length :
        (p : Line)
        → 1 ≤ n
        → n ≤ suc (length (rows e))
        → length (rows (insert_stored s n p e)) ≡ suc (length (rows e))
    insert_stored-length p a b =
        rw (insert_stored-rows s ok n e has p a b) (length-insert_record (rows e) n p)

    -- An insertion leaves a line behind the new one in the cache: only numbers up to `n` are right.
    pub insert_stored-IsRight :
        (p : Line)
        → 1 ≤ n
        → n ≤ suc (length (rows e))
        → IsRight (λ k. leb k n) (insert_stored s n p e)
    insert_stored-IsRight p a b = record {
      line =
          if_intro
            (λ v. v ≢ 0 → leb v n ≡ true → record_at (rows (insert_stored s n p e)) v ≡ some e.c_lp)
            (leb e.c_lno n) 0 e.c_lno (λ _ z. absurd (z refl)) (λ miss z le. cc);
      count = one_more-length e _ c (insert_stored-length p a b);
    }

    pub set_stored-IsCoherent :
        (p : Line) → 1 ≤ n → n ≤ length (rows e) → IsCoherent (set_stored s n p e)
    set_stored-IsCoherent p a b =
        let f = set_logged s n e in
        let k = log_line-KeepsFile n reset_b e in
        let same : rows f ≡ rows e = ap file.rows k.db in
        let xs = set_stored-rows s ok n e has p a (omega arith) in
        let len : length (rows (set_stored s n p e)) ≡ length (rows f) =
          rw (xs, same) (length-store_record (rows e) n p a b) in
        let h = k.right (λ _. true) c in
        stored-IsCoherent _ (n == f.c_lno) f.c_nlines f
          (λ miss z.
            rw (xs, same)
              (record_at-store_record_ne (rows e) n f.c_lno p (λ y. ground arith) (omega arith)))
          (λ z. h.count z ∙ sym len) h

    -- With a database that does not fail, deleting a line that is there keeps the caches right.
    pub db_delete-IsCoherent : 1 ≤ n → n ≤ length (rows e) → IsCoherent (db_delete s n e).1
    db_delete-IsCoherent a b =
        let f = delete_logged s n e in
        let k = delete_logged-KeepsFile s n e in
        let same : rows f ≡ rows e = ap file.rows k.db in
        let xs = delete_stored-rows s ok n e has a b in
        let len : suc (length (rows (delete_stored s n e))) ≡ length (rows f) =
          rw (xs, same) (length-erase_record (rows e) n a b) in
        rw (db_delete_ok s ok n e has a b) (
          (delete_end s n (delete_stored s n e)).right (λ _. true)
            (stored-IsCoherent _ (leb n f.c_lno) (one_less s f) f
              (λ miss z.
                rw (xs, same) (record_at-erase_record_lt (rows e) n f.c_lno (ground arith)))
              (one_less-length f _ (k.right (λ _. true) c) len) (k.right (λ _. true) c)))

    -- With a database that does not fail, appending behind a line of the file, or behind line 0,
    -- keeps the caches right.
    pub db_append-IsCoherent :
        (update : Bool) (p : Line) → n ≤ length (rows e) → IsCoherent (db_append s update n p e).1
    db_append-IsCoherent update p b = rw (db_append_ok s ok n e has update p b) (
        (KeepsFile-trans (logged_end s (suc n) append (append_stored s n p e))
            (put_end s (suc n) n line_append update _)).right
          (λ _. true) (append_stored-IsCoherent p b))

    -- With a database that does not fail, storing a line that is there keeps the caches right.
    pub db_set-IsCoherent : (p : Line) → 1 ≤ n → n ≤ length (rows e) → IsCoherent (db_set s n p e).1
    db_set-IsCoherent p a b = rw (db_set_ok s ok n e has p a (omega arith)) (
        (KeepsFile-trans (logged_end s n reset_f (set_stored s n p e))
            (scr_update-Frame file_frame s n line_reset true _)).right
          (λ _. true) (set_stored-IsCoherent p a b))
