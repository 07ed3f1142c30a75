-- ===== src/Log/Frame.antt =====
-- What writing the log leaves alone.
use open_vi.Common.{
  ℕ, Bool, true, false, ◌≡◌, refl, ◌∙◌, Option, none, some, [], ◌==◌, if_intro, if◌then◌else◌,
}
use open_vi.Recno.{over}
use open_vi.State.{
  Line, LMark, LogRec, Action, append, delete, insert, reset_f, reset_b, cursor_init, Env, Ed,
  report, log_file, log_put_error,
}
use open_vi.Line.{db_get, db_err}
use open_vi.Line.Reads.{ReadOnly, IsRight, db_get-Reads, db_err-ReadOnly, ReadOnly-trans}
use open_vi.Log.{
  is_failed, log_init, log_err, log_put, log_start, log_text, log_line, log_mark, line_record,
  origin,
}

module _ {env : Env} where
  -- The file, its caches, the marks and the cursor are as before; the caches may only have been
  -- filled rightly.
  pub record KeepsFile (e f : Ed env) : Type 0 where
    pub has_file : f.has_file ≡ e.has_file
    pub tiq : f.tiq ≡ e.tiq
    pub db : f.db ≡ e.db
    pub right : (trust : ℕ → Bool) → IsRight trust e → IsRight trust f

  pub KeepsFile-refl : (e : Ed env) → KeepsFile e e
  KeepsFile-refl e = record { has_file = refl; tiq = refl; db = refl; right = λ t h. h }

  pub KeepsFile-trans : {e f g : Ed env} → KeepsFile e f → KeepsFile f g → KeepsFile e g
  KeepsFile-trans p q = record {
    has_file = q.has_file ∙ p.has_file;
    tiq = q.tiq ∙ p.tiq;
    db = q.db ∙ p.db;
    right = λ t h. q.right t (p.right t h);
  }

  pub KeepsFile-of_ReadOnly : {e f : Ed env} → ReadOnly e f → KeepsFile e f
  KeepsFile-of_ReadOnly p = record {
    has_file = p.has_file;
    tiq = p.tiq;
    db = p.db;
    right = p.right;
  }

  -- Neither the file nor its caches are written.
  pub record IsUntouched (e f : Ed env) : Type 0 where
    pub has_file : f.has_file ≡ e.has_file
    pub tiq : f.tiq ≡ e.tiq
    pub db : f.db ≡ e.db
    pub c_lno : f.c_lno ≡ e.c_lno
    pub c_lp : f.c_lp ≡ e.c_lp
    pub c_nlines : f.c_nlines ≡ e.c_nlines

  -- A state that differs from `e` in other fields.
  abbrev pub untouched :
      {e f : Ed env}
      → f.has_file ≡ e.has_file
      → f.tiq ≡ e.tiq
      → f.db ≡ e.db
      → f.c_lno ≡ e.c_lno
      → f.c_lp ≡ e.c_lp
      → f.c_nlines ≡ e.c_nlines
      → IsUntouched e f
  untouched a b d l p k = record {
    has_file = a;
    tiq = b;
    db = d;
    c_lno = l;
    c_lp = p;
    c_nlines = k;
  }

  IsUntouched_trans : {e f g : Ed env} → IsUntouched e f → IsUntouched f g → IsUntouched e g
  IsUntouched_trans p q = record {
    has_file = q.has_file ∙ p.has_file;
    tiq = q.tiq ∙ p.tiq;
    db = q.db ∙ p.db;
    c_lno = q.c_lno ∙ p.c_lno;
    c_lp = q.c_lp ∙ p.c_lp;
    c_nlines = q.c_nlines ∙ p.c_nlines;
  }

  -- A step that writes neither the file nor its caches.
  pub KeepsFile-by :
      {e f : Ed env}
      → f.has_file ≡ e.has_file
      → f.tiq ≡ e.tiq
      → f.db ≡ e.db
      → f.c_lno ≡ e.c_lno
      → f.c_lp ≡ e.c_lp
      → f.c_nlines ≡ e.c_nlines
      → KeepsFile e f
  KeepsFile-by {e} {f} a b d l p k = record {
    has_file = a;
    tiq = b;
    db = d;
    right = λ t h. record {
      line = λ z u. rw (d, l, p) (h.line (λ y. z (l ∙ y)) (rw l at u));
      count = λ z. rw (d, k) (h.count (λ y. z (k ∙ y)));
    };
  }

  abbrev Keeps {ℓ} : {A : Type ℓ} → Ed env → A × Ed env → Type 0
  Keeps e r = KeepsFile e r.1

  abbrev Leaves {ℓ} : {A : Type ℓ} → Ed env → A × Ed env → Type 0
  Leaves e r = IsUntouched e r.1

  log_init-IsUntouched : (e : Ed env) → Leaves e (log_init e)
  unfolding log_init
  log_init-IsUntouched e = from_db env.logs.create
    where
      from_db :
          (o : Option env.logs.Db)
          → Leaves {A = Bool} e (elim o [
            | none ↦ (
              true,
              report log_file (record e { l_cursor = origin; l_high = 1; l_cur = 1; nolog = true }),
            )
            | some d ↦ (false, record e { l_cursor = origin; l_high = 1; l_cur = 1; log = d })
          ])
      from_db none = untouched refl refl refl refl refl refl
      from_db (some d) = untouched refl refl refl refl refl refl

  log_err-IsUntouched : (e : Ed env) → IsUntouched e (log_err e)
  unfolding log_err
  log_err-IsUntouched e =
      let e0 = report log_put_error e in
      let r : IsUntouched e (log_init e0).1 =
        IsUntouched_trans (untouched refl refl refl refl refl refl) (log_init-IsUntouched e0) in
      if_intro (IsUntouched e) (log_init e0).0 _ _ (λ _. r)
        (λ _. IsUntouched_trans r (untouched refl refl refl refl refl refl))

  pub log_put-IsUntouched : (r : LogRec) (e : Ed env) → Leaves e (log_put r e)
  unfolding log_put
  log_put-IsUntouched r e =
      if_intro (Leaves {A = Bool} e) (is_failed (env.logs.put over e.log e.l_cur r).0) _ _
        (λ _. IsUntouched_trans (untouched refl refl refl refl refl refl) (log_err-IsUntouched _))
        (λ _. untouched refl refl refl refl refl refl)

  pub log_start-IsUntouched : (e : Ed env) → Leaves e (log_start e)
  unfolding log_start
  log_start-IsUntouched e =
      let P : Bool × Ed env → Type 0 = Leaves e in
      let r = log_put-IsUntouched (cursor_init e.l_cursor) e in
      if_intro P (e.l_cursor.lno == 0) _ _ (λ _. untouched refl refl refl refl refl refl)
        λ _.
          if_intro P (log_put (cursor_init e.l_cursor) e).0 _ _ (λ _. r)
            (λ _. IsUntouched_trans r (untouched refl refl refl refl refl refl))

  KeepsFile-of_IsUntouched : {e f : Ed env} → IsUntouched e f → KeepsFile e f
  KeepsFile-of_IsUntouched p = KeepsFile-by p.has_file p.tiq p.db p.c_lno p.c_lp p.c_nlines

  log_start-KeepsFile : (e : Ed env) → Keeps e (log_start e)
  log_start-KeepsFile e = KeepsFile-of_IsUntouched (log_start-IsUntouched e)

  pub log_put-KeepsFile : (r : LogRec) (e : Ed env) → Keeps e (log_put r e)
  log_put-KeepsFile r e = KeepsFile-of_IsUntouched (log_put-IsUntouched r e)

  log_text-ReadOnly : (a : Action) (n : ℕ) (e : Ed env) → ReadOnly e (log_text a n e).1
  unfolding log_text
  log_text-ReadOnly reset_b n e = from_get (db_get false true n e).0 (db_get-Reads false true n e)
    where
      from_get :
          (p : Option Line) {f : Ed env}
          → ReadOnly e f
          → ReadOnly e
              (elim p as (λ _. Option Line × Ed env) [
                | some q ↦ (some q, f)
                | none ↦ if n == 1 then (some [], f) else (none, db_err f n)
              ]).1
      from_get (some q) r = r
      from_get none {f} r =
          if_intro (λ (x : Option Line × Ed env). ReadOnly e x.1) (n == 1) _ _ (λ _. r)
            (λ _. ReadOnly-trans r (db_err-ReadOnly f n))
  log_text-ReadOnly append n e = db_get-Reads true false n e
  log_text-ReadOnly delete n e = db_get-Reads true false n e
  log_text-ReadOnly insert n e = db_get-Reads true false n e
  log_text-ReadOnly reset_f n e = db_get-Reads true false n e

  -- Whatever happens to the log, logging a line change does not touch the file.
  pub log_line-KeepsFile : (n : ℕ) (a : Action) (e : Ed env) → Keeps e (log_line n a e)
  unfolding log_line
  log_line-KeepsFile n a e =
      let P : Bool × Ed env → Type 0 = Keeps e in
      let e0 = record e { undo = false } in
      let e1 = (log_start e0).1 in
      let r1 : KeepsFile e e1 =
        KeepsFile-trans (KeepsFile-by refl refl refl refl refl refl) (log_start-KeepsFile e0) in
      let r2 : KeepsFile e (log_text a n e1).1 =
        KeepsFile-trans r1 (KeepsFile-of_ReadOnly (log_text-ReadOnly a n e1)) in
      if_intro P e.nolog _ _ (λ _. KeepsFile-refl e)
        λ _.
          if_intro P (log_start e0).0 _ _ (λ _. r1)
            (λ _. from_text (log_text a n e1).0 (log_text a n e1).1 r2)
    where
      from_text :
          (p : Option Line) (f : Ed env)
          → KeepsFile e f
          → Keeps {A = Bool} e
              (elim p [ none ↦ (true, f) | some q ↦ log_put (line_record a n q) f ])
      from_text none f r = r
      from_text (some q) f r = KeepsFile-trans r (log_put-KeepsFile _ f)

  pub log_mark-KeepsFile : (m : LMark) (e : Ed env) → Keeps e (log_mark m e)
  unfolding log_mark
  log_mark-KeepsFile m e =
      let P : Bool × Ed env → Type 0 = Keeps e in
      if_intro P e.nolog _ _ (λ _. KeepsFile-refl e)
        λ _.
          if_intro P (log_start e).0 _ _ (λ _. log_start-KeepsFile e)
            (λ _. KeepsFile-trans (log_start-KeepsFile e) (log_put-KeepsFile _ _))

  -- With logging off, nothing is logged.
  pub log_line_off :
      (n : ℕ) (a : Action) (e : Ed env) → e.nolog ≡ true → log_line n a e ≡ (false, e)
  unfolding log_line
  log_line_off n a e h = if_intro (λ r. r ≡ (false, e)) e.nolog _ _ (λ _. refl) (λ off. cc)

  pub log_mark_off : (m : LMark) (e : Ed env) → e.nolog ≡ true → log_mark m e ≡ (false, e)
  unfolding log_mark
  log_mark_off m e h = if_intro (λ r. r ≡ (false, e)) e.nolog _ _ (λ _. refl) (λ off. cc)
