-- ===== src/Roll/Quiet.antt =====
-- Line edits with logging off, as the log makes them when it is rolled: they succeed, change the
-- lines and leave the log alone.
use open_vi.Common.{
  ℕ, suc, ◌≤◌, Bool, true, false, not, ◌≡◌, ◌≢◌, refl, ◌∙◌, Option, none, some, List, [], ◌∷◌,
  arith, length, insert_record, erase_record, store_record, ◌==◌, if_intro, if◌then◌else◌,
}
use open_vi.Recno.{Reliable, Reply, found, absent, failed}
use open_vi.State.{
  Line, LMark, Lnop, line_delete, line_insert, line_reset, Action, delete, insert, reset_f, reset_b,
  Env, Ed, rows, report, unable_last,
}
use open_vi.Line.{db_last, db_exist, tinput_last, db_cache_update}
use open_vi.Line.Reads.{db_exist-Reads}
use open_vi.Ranges.{ex_g_insdel}
use open_vi.Log.{log_line, log_mark}
use open_vi.Log.Frame.{log_line_off, log_mark_off}
use open_vi.Log.Trail.{SameLog, SameLog-refl, SameLog-trans, same_log}
use open_vi.Edit.{
  Services, insert_marks, mark_insert, mark_insdel, change_others, scr_update, set_dirty, after_put,
  db_delete, db_insert, db_set,
}
use open_vi.Edit.Frame.{
  Frame, ex_g_insdel-Frame, mark_insdel-Frame, scr_update-Frame, set_dirty-Frame,
}
use open_vi.Edit.Stored.{
  delete_stored, insert_stored, set_stored, db_delete_ok, db_insert_ok, db_set_ok,
}
use open_vi.Edit.Rows.{db_delete-rows, db_insert-rows, db_set-rows, logged_end}

-- No screen fails to repaint.
pub record Paints {env : Env} (s : Services env) : Type 0 where
  pub paints : (t : s.Screen) (n : ℕ) (op : Lnop) (e : Ed env) → (s.vs_change t n op e).0 ≡ false

module _ {env : Env} where
  -- With logging off, the log stays the same.
  abbrev Silent : Ed env → Ed env → Type 0
  Silent e f = e.nolog ≡ true → SameLog e f

  Silent-trans : {e f g : Ed env} → Silent e f → Silent f g → Silent e g
  Silent-trans p q h = SameLog-trans (p h) (q ((p h).nolog ∙ h))

  Silent-frame : Frame {env = env} Silent
  Silent-frame = record {
    same = λ e h. SameLog-refl e;
    chain = Silent-trans;
    reads = λ r h. same_log r.log r.l_high r.l_cur r.l_cursor r.nolog;
    to_marks = λ e ms h. same_log refl refl refl refl refl;
    to_ranges = λ e cs h. same_log refl refl refl refl refl;
    to_dirty = λ e h. same_log refl refl refl refl refl;
  }

  log_line-Silent : (n : ℕ) (a : Action) (e : Ed env) → Silent e (log_line n a e).1
  log_line-Silent n a e h = rw (log_line_off n a e h) (SameLog-refl e)

  log_mark-Silent : (k : LMark) (e : Ed env) → Silent e (log_mark k e).1
  log_mark-Silent k e h = rw (log_mark_off k e h) (SameLog-refl e)

  mark_insdel-Silent : (op : Lnop) (n : ℕ) (e : Ed env) → Silent e (mark_insdel op n e).1
  mark_insdel-Silent = mark_insdel-Frame Silent-frame log_mark-Silent

  module _ (ok : Reliable env.file) where
    db_last_some : (e : Ed env) → e.has_file ≡ true → (db_last e).0 ≢ none
    unfolding db_last
    db_last_some e h =
        let P : Option ℕ × Ed env → Type 0 = λ r. r.0 ≢ none in
        if_intro P (not e.has_file) _ _ (λ z. absurd (ground (arith, h)))
          λ _.
            if_intro P (not (e.c_nlines == 0)) _ _ (λ _ z. cc)
              (λ _. from_db (env.file.last e.db) refl)
      where
        from_db :
            (r : Reply (ℕ × Line))
            → env.file.last e.db ≡ r
            → (elim r as (λ _. Option ℕ × Ed env) [
              | failed ↦ (none, report unable_last e)
              | absent ↦ (some 0, e)
              | found (n, p) ↦
                  (some (tinput_last e.tiq n), record (db_cache_update e n p) { c_nlines = n })
            ]).0
              ≢ none
        from_db failed q z = ok.last_works e.db q
        from_db absent q z = cc
        from_db (found (n, p)) q z = cc

    mark_insert_ok : (n : ℕ) (e : Ed env) → e.has_file ≡ true → (mark_insert n e).0 ≡ false
    unfolding mark_insert
    mark_insert_ok n e h =
        let e1 = (db_exist 2 e).1 in
        if_intro (λ (r : Bool × Ed env). r.0 ≡ false) (db_exist 2 e).0 _ _ (λ _. refl)
          (λ _.
            at_last (db_last e1).0 (db_last e1).1
              (db_last_some e1 ((db_exist-Reads 2 e).has_file ∙ h)))
      where
        at_last :
            (l : Option ℕ) (f : Ed env)
            → l ≢ none
            → (elim l as (λ _. Bool × Ed env) [
              | none ↦ (true, f)
              | some lline ↦
                  if lline == 1
                  then (false, f)
                  else (false, record f { marks = insert_marks n f.marks })
            ]).0
              ≡ false
        at_last none f z = absurd (z refl)
        at_last (some k) f z =
            if_intro (λ (r : Bool × Ed env). r.0 ≡ false) (k == 1) _ _ (λ _. refl) (λ _. refl)

    pub mark_insdel_ok :
        (n : ℕ) (e : Ed env) → e.has_file ≡ true → (mark_insdel line_insert n e).0 ≡ false
    unfolding mark_insdel
    mark_insdel_ok n e h = mark_insert_ok n e h

module _ {env : Env} (s : Services env) (paint : Paints s) where
  open s use {Screen, self, others, vs_change}

  change_others_ok :
      (ts : List Screen) (n : ℕ) (op : Lnop) (e : Ed env) → (change_others s ts n op e).0 ≡ false
  unfolding change_others
  change_others_ok [] n op e = refl
  change_others_ok (t ∷ ts) n op e =
      if_intro (λ (r : Bool × Ed env). r.0 ≡ false) (vs_change t n op e).0 _ _
        (λ z. cc (paint.paints t n op e)) (λ _. change_others_ok ts n op _)

  pub scr_update_ok :
      (n : ℕ) (op : Lnop) (current : Bool) (e : Ed env) → (scr_update s n op current e).0 ≡ false
  unfolding scr_update
  scr_update_ok n op current e =
      let P : Bool × Ed env → Type 0 = λ r. r.0 ≡ false in
      if_intro P e.sc_ex _ _ (λ _. refl)
        λ _.
          if_intro P (change_others s (others e.view) n op e).0 _ _
            (λ z. cc (change_others_ok (others e.view) n op e))
            λ _. if_intro P current _ _ (λ _. paint.paints self n op _) (λ _. refl)

  -- A successful edit that left the log alone and the lines `xs` behind.
  pub record Rolled (e : Ed env) (r : Bool × Ed env) (xs : List Line) : Type 0 where
    pub fine : r.0 ≡ false
    pub same : SameLog e r.1
    pub has_file : r.1.has_file ≡ true
    pub lines : rows r.1 ≡ xs

  module _ (ok : Reliable env.file) (n : ℕ) (e : Ed env) (has : e.has_file ≡ true)
      (off : e.nolog ≡ true) where
    pub db_delete-Rolled :
        1 ≤ n → n ≤ length (rows e) → Rolled e (db_delete s n e) (erase_record (rows e) n)
    db_delete-Rolled a b = record {
      fine = rw (db_delete_ok s ok n e has a b) (scr_update_ok n line_delete true _);
      same = rw (db_delete_ok s ok n e has a b) (
          Silent-trans
            (Silent-trans (mark_insdel-Silent line_delete n e) (
              Silent-trans (ex_g_insdel-Frame Silent-frame line_delete n _)
                (log_line-Silent n delete _)))
            (Silent-trans (λ _. same_log refl refl refl refl refl)
              (Silent-trans (set_dirty-Frame Silent-frame s (delete_stored s n e))
                (scr_update-Frame Silent-frame s n line_delete true _)))
            off);
      has_file = (db_delete-rows s ok n e has a b).has_file ∙ has;
      lines = (db_delete-rows s ok n e has a b).lines;
    }

    pub db_insert-Rolled :
        (p : Line)
        → 1 ≤ n
        → n ≤ suc (length (rows e))
        → Rolled e (db_insert s n p e) (insert_record (rows e) n p)
    unfolding after_put
    db_insert-Rolled p a b =
        let f = insert_stored s n p e in
        let g = (log_line n insert (set_dirty s f)).1 in
        let i = (mark_insdel line_insert n g).1 in
        record {
          fine = rw (db_insert_ok s ok n e has p a b) (
              rw (scr_update_ok n line_insert true (ex_g_insdel line_insert n i))
                (mark_insdel_ok ok n g ((logged_end s n insert f).has_file ∙ has)));
          same = rw (db_insert_ok s ok n e has p a b) (
              Silent-trans (λ _. same_log refl refl refl refl refl)
                (Silent-trans (set_dirty-Frame Silent-frame s f) (
                  Silent-trans (log_line-Silent n insert _) (
                    Silent-trans (mark_insdel-Silent line_insert n g) (
                      Silent-trans (ex_g_insdel-Frame Silent-frame line_insert n i)
                        (scr_update-Frame Silent-frame s n line_insert true _)))))
                off);
          has_file = (db_insert-rows s ok n e has p a b).has_file ∙ has;
          lines = (db_insert-rows s ok n e has p a b).lines;
        }

    pub db_set-Rolled :
        (p : Line)
        → 1 ≤ n
        → n ≤ suc (length (rows e))
        → Rolled e (db_set s n p e) (store_record (rows e) n p)
    db_set-Rolled p a b = record {
      fine = rw (db_set_ok s ok n e has p a b) (scr_update_ok n line_reset true _);
      same = rw (db_set_ok s ok n e has p a b) (
          Silent-trans (log_line-Silent n reset_b e)
            (Silent-trans (λ _. same_log refl refl refl refl refl)
              (Silent-trans (set_dirty-Frame Silent-frame s (set_stored s n p e)) (
                Silent-trans (log_line-Silent n reset_f _)
                  (scr_update-Frame Silent-frame s n line_reset true _))))
            off);
      has_file = (db_set-rows s ok n e has p a b).has_file ∙ has;
      lines = (db_set-rows s ok n e has p a b).lines;
    }
