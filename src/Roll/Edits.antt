-- ===== src/Roll/Edits.antt =====
-- Each line edit, made while a change is under way, adds its step to what the log describes.
use open_vi.Common.{
  ℕ, suc, ◌≤◌, Bool, true, ◌≡◌, ◌≢◌, refl, sym, ap, ◌∙◌, some, List, [], ◌∷◌, arith, length,
  record_at, insert_record, erase_record, store_record, leb, record_at_there,
  record_at-insert_record_self, record_at-store_record_self,
}
use mathlib.Core.Path.{subst}
use open_vi.Recno.{Reliable}
use open_vi.State.{
  Line, Mark, Lnop, line_append, line_delete, line_insert, line_reset, Action, reset_f, reset_b,
  Env, Ed, rows,
}
use open_vi.Line.Reads.{IsCoherent, IsRight}
use open_vi.Ranges.{ex_g_insdel}
use open_vi.Log.{log_line, line_record}
use open_vi.Log.Frame.{KeepsFile, KeepsFile-trans, log_line-KeepsFile}
use open_vi.Log.Trail.{Started, SameLog, SameLog-trans, same_log, Started-of_SameLog}
use open_vi.Log.Write.{Shows, log_line-Started}
use open_vi.Edit.{
  Services, set_dirty, mark_insdel, after_put, db_delete, db_append, db_insert, db_set,
}
use open_vi.Edit.Frame.{
  ex_g_insdel-Frame, mark_insdel_insert-Frame, scr_update-Frame, set_dirty-Frame,
}
use open_vi.Edit.Stored.{
  file_frame, delete_logged, delete_stored, append_stored, insert_stored, set_logged, set_stored,
  mark_insdel-KeepsFile, db_delete_ok, db_append_ok, db_insert_ok, db_set_ok,
}
use open_vi.Edit.Rows.{
  append_stored-rows, insert_stored-rows, set_stored-rows, db_delete-rows, db_append-rows,
  db_insert-rows, db_set-rows, put_end,
}
use open_vi.Edit.Caches.{append_stored-IsCoherent, insert_stored-IsRight, set_stored-IsCoherent}
use open_vi.Roll.History.{Step, append, insert, delete, reset, push, flatten, Did, History}
use open_vi.Roll.Ongoing.{
  log_frame, Describes, Described, Trail-on, Trail-of_Started, Describes-of_SameLog,
  Described-of_SameLog, mark_delete-Described,
}

module _ {env : Env} (s : Services env) (fok : Reliable env.file) (lok : Reliable env.logs)
    (base : List Line) (c0 : ℕ) (m : Mark) where
  -- The log describes at least one step.
  abbrev pub Moved : List Line → Ed env → Type 0
  Moved ys e = (st : Step) × (ss : List Step) × Describes base c0 m (st ∷ ss) ys e

  Moved-of_Started :
      (st : Step) (ss : List Step) (xs ys : List Line) (e : Ed env)
      → History ss base xs
      → Did st xs ys
      → Started c0 m (push st (flatten ss)) e
      → Moved ys e
  Moved-of_Started st ss xs ys e h d t =
      (st, ss, record { trail = Trail-of_Started c0 m _ e t; history = (xs, h, d) })

  Moved-of_SameLog : (ys : List Line) {e f : Ed env} → SameLog e f → Moved ys e → Moved ys f
  Moved-of_SameLog ys p (st, ss, h) = (st, ss, Describes-of_SameLog lok base c0 m (st ∷ ss) ys p h)

  -- An edit of one line, logged by one record.
  log_step :
      (st : List Step → Step) (a : Action) (n : ℕ) (q : Line) (xs ys : List Line) (e : Ed env)
      → ((ss : List Step) → push (st ss) (flatten ss) ≡ line_record a n q ∷ flatten ss)
      → ((ss : List Step) → Did (st ss) xs ys)
      → Shows fok n q e
      → Described lok base c0 m xs e
      → Moved ys (log_line n a e).1
  log_step st a n q xs ys e p d h (ss, w) = Moved-of_Started (st ss) ss xs ys _ w.history (d ss) (
      subst (λ r. Started c0 m r (log_line n a e).1) (sym (p ss))
        (log_line-Started fok lok n a q c0 m (flatten ss) e (Trail-on c0 m (flatten ss) e w.trail) h
          w.trail).0)

  -- A change under way.
  pub record Ongoing (e : Ed env) : Type 0 where
    pub has_file : e.has_file ≡ true
    pub tiq : e.tiq ≡ []
    pub coherent : IsCoherent e
    pub described : Described lok base c0 m (rows e) e

  Shows-coherent :
      (n : ℕ) (q : Line) (trust : ℕ → Bool) (e : Ed env)
      → e.has_file ≡ true
      → e.tiq ≡ []
      → IsRight trust e
      → record_at (rows e) n ≡ some q
      → n ≢ 0
      → trust n ≡ true
      → Shows fok n q e
  Shows-coherent n q trust e h t c at nz tr = record {
    has_file = h;
    tiq = t;
    there = at;
    cache = λ p.
        some_inj
          (sym (c.line (λ z. nz (sym p ∙ z)) (ap trust p ∙ tr)) ∙ ap (record_at (rows e)) p ∙ at);
  }
    where
      some_inj : {x y : Line} → some x ≡ some y → x ≡ y
      some_inj h = cc

  -- Deleting a line: the marks on it, and then the line, are logged.
  pub delete-Moved :
      (n : ℕ) (e : Ed env)
      → Ongoing e
      → 1 ≤ n
      → n ≤ length (rows e)
      → Moved (rows (db_delete s n e).1) (db_delete s n e).1
  delete-Moved n e o a b =
      let (q, at) = record_at_there (rows e) n a b in
      let xs = (db_delete-rows s fok n e o.has_file a b).lines in
      let e1 = ex_g_insdel line_delete n (mark_insdel line_delete n e).1 in
      let k : KeepsFile e e1 =
        KeepsFile-trans (mark_insdel-KeepsFile s line_delete n e)
          (ex_g_insdel-Frame file_frame line_delete n _) in
      let d1 =
        Described-of_SameLog lok base c0 m (rows e) (ex_g_insdel-Frame log_frame line_delete n _)
          (mark_delete-Described lok base c0 m n (rows e) e o.described) in
      let moved : Moved (erase_record (rows e) n) (delete_logged s n e) =
        log_step (λ _. delete n q) Action.delete n q (rows e) (erase_record (rows e) n) e1
          (λ _. refl) (λ _. (at, refl))
          (Shows-coherent n q (λ _. true) e1 (k.has_file ∙ o.has_file) (k.tiq ∙ o.tiq)
            (k.right (λ _. true) o.coherent) (rw k.db at) (λ z. absurd (omega arith)) refl)
          d1 in
      rw xs (
        rw (db_delete_ok s fok n e o.has_file a b) (
          Moved-of_SameLog _
            (SameLog-trans (same_log refl refl refl refl refl) (
              SameLog-trans (set_dirty-Frame log_frame s (delete_stored s n e))
                (scr_update-Frame log_frame s n line_delete true _)))
            moved))

  put_end-SameLog :
      (n k : ℕ) (op : Lnop) (update : Bool) (f : Ed env) → SameLog f (after_put s n k op update f).1
  unfolding after_put
  put_end-SameLog n k op update f = SameLog-trans (mark_insdel_insert-Frame log_frame n f) (
      SameLog-trans (ex_g_insdel-Frame log_frame line_insert n _)
        (scr_update-Frame log_frame s k op update _))

  -- A stored line is shown, once the file is marked as changed.
  Shows-dirty :
      (n : ℕ) (q : Line) (trust : ℕ → Bool) (e : Ed env)
      → e.has_file ≡ true
      → e.tiq ≡ []
      → IsRight trust e
      → record_at (rows e) n ≡ some q
      → n ≢ 0
      → trust n ≡ true
      → Shows fok n q (set_dirty s e)
  Shows-dirty n q trust e h t c at nz tr =
      let k = set_dirty-Frame file_frame s e in
      Shows-coherent n q trust (set_dirty s e) (k.has_file ∙ h) (k.tiq ∙ t) (k.right trust c)
        (rw k.db at) nz tr

  -- The database call and the flags do not touch the log.
  stored_Described :
      (xs : List Line) {e f : Ed env}
      → SameLog e f
      → Described lok base c0 m xs e
      → Described lok base c0 m xs (set_dirty s f)
  stored_Described xs {e} {f} p h =
      Described-of_SameLog lok base c0 m xs (SameLog-trans p (set_dirty-Frame log_frame s f)) h

  pub append-Moved :
      (update : Bool) (n : ℕ) (p : Line) (e : Ed env)
      → Ongoing e
      → n ≤ length (rows e)
      → Moved (rows (db_append s update n p e).1) (db_append s update n p e).1
  append-Moved update n p e o b =
      let f = append_stored s n p e in
      let ys = insert_record (rows e) (suc n) p in
      let at : record_at (rows f) (suc n) ≡ some p =
        rw (append_stored-rows s fok n e o.has_file p b)
          (record_at-insert_record_self (rows e) (suc n) p (omega arith) (omega arith)) in
      let moved : Moved ys (log_line (suc n) Action.append (set_dirty s f)).1 =
        log_step (λ _. append (suc n) p) Action.append (suc n) p (rows e) ys (set_dirty s f)
          (λ _. refl) (λ _. (omega arith, omega arith, refl))
          (Shows-dirty (suc n) p (λ _. true) f o.has_file o.tiq
            (append_stored-IsCoherent s fok n e o.has_file o.coherent p b) at
            (λ z. absurd (omega arith)) refl)
          (stored_Described (rows e) (same_log refl refl refl refl refl) o.described) in
      rw ((db_append-rows s fok n e o.has_file update p b).lines) (
        rw (db_append_ok s fok n e o.has_file update p b)
          (Moved-of_SameLog ys (put_end-SameLog (suc n) n line_append update _) moved))

  pub insert-Moved :
      (n : ℕ) (p : Line) (e : Ed env)
      → Ongoing e
      → 1 ≤ n
      → n ≤ suc (length (rows e))
      → Moved (rows (db_insert s n p e).1) (db_insert s n p e).1
  insert-Moved n p e o a b =
      let f = insert_stored s n p e in
      let ys = insert_record (rows e) n p in
      let at : record_at (rows f) n ≡ some p =
        rw (insert_stored-rows s fok n e o.has_file p a b)
          (record_at-insert_record_self (rows e) n p a b) in
      let moved : Moved ys (log_line n Action.insert (set_dirty s f)).1 =
        log_step (λ _. insert n p) Action.insert n p (rows e) ys (set_dirty s f) (λ _. refl)
          (λ _. (a, b, refl))
          (Shows-dirty n p (λ k. leb k n) f o.has_file o.tiq
            (insert_stored-IsRight s fok n e o.has_file o.coherent p a b) at
            (λ z. absurd (omega arith)) (ground arith))
          (stored_Described (rows e) (same_log refl refl refl refl refl) o.described) in
      rw ((db_insert-rows s fok n e o.has_file p a b).lines) (
        rw (db_insert_ok s fok n e o.has_file p a b)
          (Moved-of_SameLog ys (put_end-SameLog n n line_insert true _) moved))

  pub set-Moved :
      (n : ℕ) (p : Line) (e : Ed env)
      → Ongoing e
      → 1 ≤ n
      → n ≤ length (rows e)
      → Moved (rows (db_set s n p e).1) (db_set s n p e).1
  set-Moved n p e o a b =
      let (q, there) = record_at_there (rows e) n a b in
      let (ss, w) = o.described in
      let b' : n ≤ suc (length (rows e)) = omega arith in
      let f = set_stored s n p e in
      let k = log_line-KeepsFile n reset_b e in
      let ys = store_record (rows e) n p in
      let before : Started c0 m (line_record reset_b n q ∷ flatten ss) (set_logged s n e) =
        (log_line-Started fok lok n reset_b q c0 m (flatten ss) e
          (Trail-on c0 m (flatten ss) e w.trail)
          (Shows-coherent n q (λ _. true) e o.has_file o.tiq o.coherent there
            (λ z. absurd (omega arith)) refl)
          w.trail).0 in
      let dirty : Started c0 m (line_record reset_b n q ∷ flatten ss) (set_dirty s f) =
        Started-of_SameLog
          (SameLog-trans (same_log refl refl refl refl refl) (set_dirty-Frame log_frame s f))
          before in
      let at : record_at (rows f) n ≡ some p =
        rw (set_stored-rows s fok n e o.has_file p a b')
          (record_at-store_record_self (rows e) n p a b') in
      let after : Started c0 m (push (reset n q p) (flatten ss))
          (log_line n reset_f (set_dirty s f)).1 =
        (log_line-Started fok lok n reset_f p c0 m (line_record reset_b n q ∷ flatten ss)
          (set_dirty s f) dirty.logging.on
          (Shows-dirty n p (λ _. true) f (k.has_file ∙ o.has_file) (k.tiq ∙ o.tiq)
            (set_stored-IsCoherent s fok n e o.has_file o.coherent p a b) at
            (λ z. absurd (omega arith)) refl)
          dirty).0 in
      rw ((db_set-rows s fok n e o.has_file p a b').lines) (
        rw (db_set_ok s fok n e o.has_file p a b') (
          Moved-of_SameLog ys (scr_update-Frame log_frame s n line_reset true _)
            (Moved-of_Started (reset n q p) ss (rows e) ys _ w.history (there, refl) after)))

  -- While a change is logged, in databases that do not fail, inserting before line `n`, from 1 to one
  -- past the last, keeps the caches right: logging reads the new line into the cache.
  pub db_insert-IsCoherent :
      (n : ℕ) (p : Line) (e : Ed env)
      → Ongoing e
      → 1 ≤ n
      → n ≤ suc (length (rows e))
      → IsCoherent (db_insert s n p e).1
  db_insert-IsCoherent n p e o a b =
      let (ss, w) = o.described in
      let f = insert_stored s n p e in
      let g = set_dirty s f in
      let right = insert_stored-IsRight s fok n e o.has_file o.coherent p a b in
      let at : record_at (rows f) n ≡ some p =
        rw (insert_stored-rows s fok n e o.has_file p a b)
          (record_at-insert_record_self (rows e) n p a b) in
      let keep = set_dirty-Frame file_frame s f in
      let t =
        Describes-of_SameLog lok base c0 m ss (rows e)
          (SameLog-trans (same_log refl refl refl refl refl) (set_dirty-Frame log_frame s f)) w in
      let logged =
        (log_line-Started fok lok n Action.insert p c0 m (flatten ss) g
          (Trail-on c0 m (flatten ss) g t.trail)
          (Shows-dirty n p (λ k. leb k n) f o.has_file o.tiq right at (λ z. absurd (omega arith))
            (ground arith))
          t.trail).1 in
      let h = log_line-KeepsFile n Action.insert g in
      let same : rows (log_line n Action.insert g).1 ≡ rows f = ap env.file.rows (h.db ∙ keep.db) in
      let count = (h.right (λ k. leb k n) (keep.right (λ k. leb k n) right)).count in
      rw (db_insert_ok s fok n e o.has_file p a b) (
        (put_end s n n line_insert true _).right (λ _. true)
          (record { line = λ z _. rw (logged.c_lno, logged.c_lp, same) at; count = count }))
