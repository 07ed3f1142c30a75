-- ===== src/Edit/Stored.antt =====
-- The states that a change of a line goes through, and that the code takes the branch that goes on
-- where the database does as it is told.
use open_vi.Common.{
  ℕ, suc, ◌≤◌, Bool, true, not, ◌≡◌, refl, sym, ap, ◌∙◌, List, arith, length, ltb, leb, ◌==◌,
  if_intro,
}
use mathlib.Core.Path.{subst}
use open_vi.Recno.{Reliable, done, after, before, over}
use open_vi.State.{
  Line, Lnop, line_append, line_delete, line_insert, line_reset, append, delete, insert, reset_f,
  reset_b, Env, Ed, rows,
}
use open_vi.Ranges.{ex_g_insdel}
use open_vi.Log.{log_line, is_failed}
use open_vi.Log.Frame.{
  KeepsFile, KeepsFile-refl, KeepsFile-trans, KeepsFile-of_ReadOnly, KeepsFile-by,
  log_line-KeepsFile, log_mark-KeepsFile,
}
use open_vi.Edit.{
  Services, mark_insdel, scr_update, set_dirty, stored, one_more, one_less, is_absent, after_put,
  db_delete, db_append, db_insert, db_set,
}
use open_vi.Edit.Frame.{Frame, ex_g_insdel-Frame, mark_insdel-Frame, mark_insdel_delete}

module _ {env : Env} where
  pub file_frame : Frame {env = env} KeepsFile
  file_frame = record {
    same = KeepsFile-refl;
    chain = KeepsFile-trans;
    reads = KeepsFile-of_ReadOnly;
    to_marks = λ e ms. KeepsFile-by refl refl refl refl refl refl;
    to_ranges = λ e cs. KeepsFile-by refl refl refl refl refl refl;
    to_dirty = λ e. KeepsFile-by refl refl refl refl refl refl;
  }

  -- `f` has the file of `e` with the lines `xs`.
  pub record HasRows (e f : Ed env) (xs : List Line) : Type 0 where
    pub has_file : f.has_file ≡ e.has_file
    pub tiq : f.tiq ≡ e.tiq
    pub lines : rows f ≡ xs

  pub HasRows-keep :
      {e f g : Ed env} {xs : List Line} → HasRows e f xs → KeepsFile f g → HasRows e g xs
  HasRows-keep h k = record {
    has_file = k.has_file ∙ h.has_file;
    tiq = k.tiq ∙ h.tiq;
    lines = rw k.db h.lines;
  }

module _ {env : Env} (s : Services env) where
  open env use {file}

  -- The states that the changes go through, up to the call of the database and behind it.
  abbrev pub delete_logged : ℕ → Ed env → Ed env
  delete_logged n e =
      (log_line n delete (ex_g_insdel line_delete n (mark_insdel line_delete n e).1)).1

  abbrev pub delete_stored : ℕ → Ed env → Ed env
  delete_stored n e =
      let f = delete_logged n e in stored s (file.del f.db n).1 (leb n f.c_lno) (one_less s f) f

  abbrev pub append_stored : ℕ → Line → Ed env → Ed env
  append_stored n p e = stored s (file.put after e.db n p).1 (ltb n e.c_lno) (one_more s e) e

  abbrev pub insert_stored : ℕ → Line → Ed env → Ed env
  insert_stored n p e = stored s (file.put before e.db n p).1 (leb e.c_lno n) (one_more s e) e

  abbrev pub set_logged : ℕ → Ed env → Ed env
  set_logged n e = (log_line n reset_b e).1

  abbrev pub set_stored : ℕ → Line → Ed env → Ed env
  set_stored n p e =
      let f = set_logged n e in stored s (file.put over f.db n p).1 (n == f.c_lno) f.c_nlines f

  pub mark_insdel-KeepsFile : (op : Lnop) (n : ℕ) (e : Ed env) → KeepsFile e (mark_insdel op n e).1
  mark_insdel-KeepsFile = mark_insdel-Frame file_frame log_mark-KeepsFile

  pub delete_logged-KeepsFile : (n : ℕ) (e : Ed env) → KeepsFile e (delete_logged n e)
  delete_logged-KeepsFile n e = KeepsFile-trans (mark_insdel-KeepsFile line_delete n e) (
      KeepsFile-trans (ex_g_insdel-Frame file_frame line_delete n _)
        (log_line-KeepsFile n delete _))

  -- Where the database does as it is told, the code takes the branch that goes on.
  module _ (ok : Reliable file) (n : ℕ) (e : Ed env) (has : e.has_file ≡ true) where
    pub delete_done : 1 ≤ n → n ≤ length (rows e) → (file.del (delete_logged n e).db n).0 ≡ done
    delete_done a b =
        ok.del_works (delete_logged n e).db n a
          (subst (λ d. n ≤ length (file.rows d)) (sym (delete_logged-KeepsFile n e).db) b)

    pub db_delete_ok :
        1 ≤ n
        → n ≤ length (rows e)
        → db_delete s n e ≡ scr_update s n line_delete true (set_dirty s (delete_stored n e))
    unfolding db_delete
    db_delete_ok a b =
        let P : Bool × Ed env → Type 0 =
          λ r. r ≡ scr_update s n line_delete true (set_dirty s (delete_stored n e)) in
        if_intro P (not e.has_file) _ _ (λ z. absurd (ground (arith, has)))
          λ _.
            if_intro P (mark_insdel line_delete n e).0 _ _ (λ bad. cc (mark_insdel_delete n e))
              λ _.
                if_intro P (is_absent (file.del (delete_logged n e).db n).0) _ _
                  (λ z. cc (ap is_absent (delete_done a b))) (λ _. refl)

    pub db_append_ok :
        (update : Bool) (p : Line)
        → n ≤ length (rows e)
        → db_append s update n p e
          ≡ after_put s
              (suc n)
              n
              line_append
              update
              (log_line (suc n) append (set_dirty s (append_stored n p e))).1
    unfolding db_append
    db_append_ok update p b =
        let P : Bool × Ed env → Type 0 = λ r.
          r
          ≡ after_put s (suc n) n line_append update
              (log_line (suc n) append (set_dirty s (append_stored n p e))).1 in
        if_intro P (not e.has_file) _ _ (λ z. absurd (ground (arith, has)))
          λ _.
            if_intro P (is_failed (file.put after e.db n p).0) _ _
              (λ z. cc (ap is_failed (ok.put_works after e.db n p b))) (λ _. refl)

    pub db_insert_ok :
        (p : Line)
        → 1 ≤ n
        → n ≤ suc (length (rows e))
        → db_insert s n p e
          ≡ after_put s n n line_insert true
              (log_line n insert (set_dirty s (insert_stored n p e))).1
    unfolding db_insert
    db_insert_ok p a b =
        let P : Bool × Ed env → Type 0 = λ r.
          r
          ≡ after_put s n n line_insert true
              (log_line n insert (set_dirty s (insert_stored n p e))).1 in
        if_intro P (not e.has_file) _ _ (λ z. absurd (ground (arith, has)))
          λ _.
            if_intro P (is_failed (file.put before e.db n p).0) _ _
              (λ z. cc (ap is_failed (ok.put_works before e.db n p (a, b)))) (λ _. refl)

    pub set_done :
        (p : Line)
        → 1 ≤ n
        → n ≤ suc (length (rows e))
        → (file.put over (set_logged n e).db n p).0 ≡ done
    set_done p a b =
        ok.put_works over (set_logged n e).db n p (
          a,
          subst (λ d. n ≤ suc (length (file.rows d))) (sym (log_line-KeepsFile n reset_b e).db) b,
        )

    pub db_set_ok :
        (p : Line)
        → 1 ≤ n
        → n ≤ suc (length (rows e))
        → db_set s n p e
          ≡ scr_update s n line_reset true (log_line n reset_f (set_dirty s (set_stored n p e))).1
    unfolding db_set
    db_set_ok p a b =
        let P : Bool × Ed env → Type 0 = λ r.
          r
          ≡ scr_update s n line_reset true
              (log_line n reset_f (set_dirty s (set_stored n p e))).1 in
        if_intro P (not e.has_file) _ _ (λ z. absurd (ground (arith, has)))
          λ _.
            if_intro P (is_failed (file.put over (set_logged n e).db n p).0) _ _
              (λ z. cc (ap is_failed (set_done p a b))) (λ _. refl)
