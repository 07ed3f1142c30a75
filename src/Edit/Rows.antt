-- ===== src/Edit/Rows.antt =====
-- Changing a line is changing a list of lines.
use open_vi.Common.{
  ℕ, suc, ◌≤◌, Bool, true, ◌≡◌, refl, sym, ap, ◌∙◌, length, insert_record, erase_record,
  store_record,
}
use mathlib.Core.Path.{subst}
use open_vi.Recno.{Reliable, after, before, over}
use open_vi.State.{
  Line, Lnop, line_append, line_delete, line_insert, line_reset, Action, append, insert, reset_f,
  reset_b, Env, Ed, rows,
}
use open_vi.Log.{log_line}
use open_vi.Log.Frame.{KeepsFile, KeepsFile-trans, log_line-KeepsFile}
use open_vi.Edit.{
  Services, scr_update, set_dirty, after_put, db_delete, db_append, db_insert, db_set,
}
use open_vi.Edit.Frame.{ex_g_insdel-Frame, scr_update-Frame, set_dirty-Frame}
use open_vi.Edit.Stored.{
  file_frame, HasRows, HasRows-keep, delete_logged, delete_stored, append_stored, insert_stored,
  set_logged, set_stored, mark_insdel-KeepsFile, delete_logged-KeepsFile, delete_done, db_delete_ok,
  db_append_ok, db_insert_ok, set_done, db_set_ok,
}

module _ {env : Env} (s : Services env) where
  open env use {file}

  module _ (ok : Reliable file) (n : ℕ) (e : Ed env) (has : e.has_file ≡ true) where
    pub delete_stored-rows :
        1 ≤ n → n ≤ length (rows e) → rows (delete_stored s n e) ≡ erase_record (rows e) n
    delete_stored-rows a b =
        (file.del_done (delete_logged s n e).db n (delete_done s ok n e has a b)).1
        ∙ ap (λ d. erase_record (file.rows d) n) (delete_logged-KeepsFile s n e).db

    pub append_stored-rows :
        (p : Line)
        → n ≤ length (rows e)
        → rows (append_stored s n p e) ≡ insert_record (rows e) (suc n) p
    append_stored-rows p b = file.put_done after e.db n p b (ok.put_works after e.db n p b)

    pub insert_stored-rows :
        (p : Line)
        → 1 ≤ n
        → n ≤ suc (length (rows e))
        → rows (insert_stored s n p e) ≡ insert_record (rows e) n p
    insert_stored-rows p a b =
        file.put_done before e.db n p (a, b) (ok.put_works before e.db n p (a, b))

    pub set_stored-rows :
        (p : Line)
        → 1 ≤ n
        → n ≤ suc (length (rows e))
        → rows (set_stored s n p e) ≡ store_record (rows e) n p
    set_stored-rows p a b =
        file.put_done over (set_logged s n e).db n p
          (
            a,
            subst (λ d. n ≤ suc (length (file.rows d))) (sym (log_line-KeepsFile n reset_b e).db) b,
          )
          (set_done s ok n e has p a b)
        ∙ ap (λ d. store_record (file.rows d) n p) (log_line-KeepsFile n reset_b e).db

  -- From the call of the database on, the file stays as it is.
  pub delete_end :
      (n : ℕ) (f : Ed env) → KeepsFile f (scr_update s n line_delete true (set_dirty s f)).1
  delete_end n f =
      KeepsFile-trans (set_dirty-Frame file_frame s f)
        (scr_update-Frame file_frame s n line_delete true _)

  pub put_end :
      (n k : ℕ) (op : Lnop) (update : Bool) (f : Ed env)
      → KeepsFile f (after_put s n k op update f).1
  unfolding after_put
  put_end n k op update f = KeepsFile-trans (mark_insdel-KeepsFile s line_insert n f) (
      KeepsFile-trans (ex_g_insdel-Frame file_frame line_insert n _)
        (scr_update-Frame file_frame s k op update _))

  pub logged_end : (n : ℕ) (a : Action) (f : Ed env) → KeepsFile f (log_line n a (set_dirty s f)).1
  logged_end n a f = KeepsFile-trans (set_dirty-Frame file_frame s f) (log_line-KeepsFile n a _)

  module _ (ok : Reliable file) (n : ℕ) (e : Ed env) (has : e.has_file ≡ true) where
    -- With a database that does not fail, deleting a line `n` that is there deletes it from the list
    -- of lines.
    pub db_delete-rows :
        1 ≤ n → n ≤ length (rows e) → HasRows e (db_delete s n e).1 (erase_record (rows e) n)
    db_delete-rows a b = rw (db_delete_ok s ok n e has a b) (
        HasRows-keep
          (record {
            has_file = (delete_logged-KeepsFile s n e).has_file;
            tiq = (delete_logged-KeepsFile s n e).tiq;
            lines = delete_stored-rows ok n e has a b;
          })
          (delete_end n (delete_stored s n e)))

    -- With a database that does not fail, appending behind line `n`, at most the number of lines,
    -- makes the new line number `n + 1` of the list of lines.
    pub db_append-rows :
        (update : Bool) (p : Line)
        → n ≤ length (rows e)
        → HasRows e (db_append s update n p e).1 (insert_record (rows e) (suc n) p)
    db_append-rows update p b = rw (db_append_ok s ok n e has update p b) (
        HasRows-keep
          (record { has_file = refl; tiq = refl; lines = append_stored-rows ok n e has p b })
          (KeepsFile-trans (logged_end (suc n) append (append_stored s n p e))
            (put_end (suc n) n line_append update _)))

    -- With a database that does not fail, inserting before line `n`, from 1 to one past the last,
    -- makes the new line number `n` of the list of lines.
    pub db_insert-rows :
        (p : Line)
        → 1 ≤ n
        → n ≤ suc (length (rows e))
        → HasRows e (db_insert s n p e).1 (insert_record (rows e) n p)
    db_insert-rows p a b = rw (db_insert_ok s ok n e has p a b) (
        HasRows-keep
          (record { has_file = refl; tiq = refl; lines = insert_stored-rows ok n e has p a b })
          (KeepsFile-trans (logged_end n insert (insert_stored s n p e))
            (put_end n n line_insert true _)))

    -- With a database that does not fail, storing line `n`, from 1 to one past the last, replaces it
    -- in the list of lines, or adds it behind the last.
    pub db_set-rows :
        (p : Line)
        → 1 ≤ n
        → n ≤ suc (length (rows e))
        → HasRows e (db_set s n p e).1 (store_record (rows e) n p)
    db_set-rows p a b = rw (db_set_ok s ok n e has p a b) (
        HasRows-keep
          (record {
            has_file = (log_line-KeepsFile n reset_b e).has_file;
            tiq = (log_line-KeepsFile n reset_b e).tiq;
            lines = set_stored-rows ok n e has p a b;
          })
          (KeepsFile-trans (logged_end n reset_f (set_stored s n p e))
            (scr_update-Frame file_frame s n line_reset true _)))
