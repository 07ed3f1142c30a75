-- ===== src/Log/Write.antt =====
-- What log_line and log_mark of common/log.c add to the log when nothing fails.
use open_vi.Common.{
  ℕ, zero, suc, Bool, true, false, not, ◌≡◌, refl, sym, ap, ◌∙◌, Option, some, List, [], ◌∷◌, arith,
  record_at, store_record, ◌==◌, if_intro, inl, inr, record_at-store_record_self,
  length-store_record_le,
}
use mathlib.Core.Path.{subst}
use open_vi.Recno.{Reliable, over, done, get-record_at}
use open_vi.State.{
  Line, LMark, Mark, LogRec, Action, append, delete, insert, reset_f, reset_b, cursor_init, mark,
  Env, Ed, rows, records,
}
use open_vi.Line.{db_get, db_tinput, db_cached, db_fetch}
use open_vi.Log.{log_put, log_start, log_text, log_line, log_mark, line_record}
use open_vi.Log.Frame.{IsUntouched, untouched, log_put-IsUntouched, log_start-IsUntouched}
use open_vi.Log.Trail.{
  Stacked, Stacked-store, IsLogging, Started, Pending, Trail, same_log, Started-of_SameLog,
  Trail-of_SameLog,
}

module _ {env : Env} (ok : Reliable env.logs) where
  -- The state after a record is stored.
  abbrev pub put_log : LogRec → Ed env → Ed env
  put_log r e = record e {
    log = (env.logs.put over e.log e.l_cur r).1;
    l_cur = suc e.l_cur;
    l_high = suc e.l_cur;
  }

  module _ (r : LogRec) (e : Ed env) (h : IsLogging e) where
    put_done : (env.logs.put over e.log e.l_cur r).0 ≡ done
    put_done = ok.put_works over e.log e.l_cur r (h.first, h.last)

    pub log_put_ok : log_put r e ≡ (false, put_log r e)
    unfolding log_put
    log_put_ok = rw put_done

    records-put_log : records (put_log r e) ≡ store_record (records e) e.l_cur r
    records-put_log = env.logs.put_done over e.log e.l_cur r (h.first, h.last) put_done

    pub put_log-IsLogging : IsLogging (put_log r e)
    put_log-IsLogging = record {
      on = h.on;
      first = omega arith;
      last =
          rw records-put_log
            (omega (arith, length-store_record_le (records e) e.l_cur r h.first h.last));
    }

    put_log-top : record_at (records (put_log r e)) e.l_cur ≡ some r
    put_log-top =
        rw records-put_log (record_at-store_record_self (records e) e.l_cur r h.first h.last)

  pub put_log-stack :
      (r : LogRec) (c0 : ℕ) (m : Mark) (s : List LogRec) (e : Ed env)
      → IsLogging e
      → Stacked (records e) e.l_cur s c0 m
      → Stacked (records (put_log r e)) (suc e.l_cur) (r ∷ s) c0 m
  put_log-stack r c0 m s e l h = (
    put_log-top r e l,
    subst (λ es. Stacked es e.l_cur s c0 m) (sym (records-put_log r e l))
        (Stacked-store (records e) e.l_cur s c0 m e.l_cur r (omega arith) l.first l.last h),
  )

  put_log-Started :
      (r : LogRec) (c0 : ℕ) (m : Mark) (s : List LogRec) (e : Ed env)
      → Started c0 m s e
      → Started c0 m (r ∷ s) (put_log r e)
  put_log-Started r c0 m s e h = record {
    logging = put_log-IsLogging r e h.logging;
    cursor = h.cursor;
    high = refl;
    stack = put_log-stack r c0 m s e h.logging h.stack;
  }

  pub log_put-Started :
      (r : LogRec) (c0 : ℕ) (m : Mark) (s : List LogRec) (e : Ed env)
      → Started c0 m s e
      → ((log_put r e).0 ≡ false) × Started c0 m (r ∷ s) (log_put r e).1
  log_put-Started r c0 m s e h = rw (log_put_ok r e h.logging) (refl, put_log-Started r c0 m s e h)

  start-Pending :
      (c0 : ℕ) (m : Mark) (e : Ed env)
      → Pending c0 m e
      → ((log_start e).0 ≡ false) × Started c0 m [] (log_start e).1
  unfolding log_start
  start-Pending c0 m e h =
      let P : Bool × Ed env → Type 0 = λ x. (x.0 ≡ false) × Started c0 m [] x.1 in
      if_intro P (e.l_cursor.lno == 0) _ _ (λ z. absurd (h.real (ground (arith, h.cursor))))
        λ _. rw (log_put_ok (cursor_init e.l_cursor) e h.logging) (
          refl,
          record {
            logging =
                (let l = put_log-IsLogging (cursor_init e.l_cursor) e h.logging in
                  record { on = l.on; first = l.first; last = l.last });
            cursor = refl;
            high = refl;
            stack = (
              h.base,
              put_log-top (cursor_init e.l_cursor) e h.logging
                  ∙ ap (λ k. some (cursor_init k)) h.cursor,
            );
          },
        )

  start-Started :
      (c0 : ℕ) (m : Mark) (s : List LogRec) (e : Ed env)
      → Started c0 m s e
      → ((log_start e).0 ≡ false) × Started c0 m s (log_start e).1
  unfolding log_start
  start-Started c0 m s e h =
      if_intro (λ (x : Bool × Ed env). (x.0 ≡ false) × Started c0 m s x.1) (e.l_cursor.lno == 0) _ _
        (λ _. (refl, h)) (λ z. absurd (ground (arith, h.cursor)))

  pub log_start-Started :
      (c0 : ℕ) (m : Mark) (s : List LogRec) (e : Ed env)
      → Trail c0 m s e
      → ((log_start e).0 ≡ false) × Started c0 m s (log_start e).1
  log_start-Started c0 m [] e (inl h) = start-Pending c0 m e h
  log_start-Started c0 m [] e (inr h) = start-Started c0 m [] e h
  log_start-Started c0 m (r ∷ s) e h = start-Started c0 m (r ∷ s) e h

  -- The record of a mark.
  pub log_mark-Started :
      (k : LMark) (c0 : ℕ) (m : Mark) (s : List LogRec) (e : Ed env)
      → e.nolog ≡ false
      → Trail c0 m s e
      → Started c0 m (mark k ∷ s) (log_mark k e).1
  unfolding log_mark
  log_mark-Started k c0 m s e on h =
      let P : Bool × Ed env → Type 0 = λ x. Started c0 m (mark k ∷ s) x.1 in
      let (fine, st) = log_start-Started c0 m s e h in
      if_intro P e.nolog _ _ (λ off. cc)
        λ _.
          if_intro P (log_start e).0 _ _ (λ bad. cc)
            (λ _. (log_put-Started (mark k) c0 m s (log_start e).1 st).1)

module _ {env : Env} (ok : Reliable env.file) where
  -- The cache after line `n` is read from the database or found there.
  abbrev pub cached : ℕ → Line → Ed env → Ed env
  cached n q e = record e { c_lno = n; c_lp = q }

  -- The line is there, and the cache does not hold another text for it.
  pub record Shows (n : ℕ) (q : Line) (e : Ed env) : Type 0 where
    pub has_file : e.has_file ≡ true
    pub tiq : e.tiq ≡ []
    pub there : record_at (rows e) n ≡ some q
    pub cache : e.c_lno ≡ n → e.c_lp ≡ q

  fetch_there :
      (fatal : Bool) (i : ℕ) (q : Line) (e : Ed env)
      → record_at (rows e) (suc i) ≡ some q
      → db_fetch fatal (suc i) e ≡ (some q, cached (suc i) q e)
  unfolding db_fetch
  fetch_there fatal i q e h = rw (get-record_at ok e.db i, h, db_fetch)

  cached_there :
      (fatal : Bool) (i : ℕ) (q : Line) (e : Ed env)
      → Shows (suc i) q e
      → db_cached fatal (suc i) e ≡ (some q, cached (suc i) q e)
  unfolding db_cached
  cached_there fatal i q e h =
      if_intro (λ r. r ≡ (some q, cached (suc i) q e)) (suc i == e.c_lno) _ _
        (λ hit.
          let p : suc i ≡ e.c_lno = ground arith in
          let c = h.cache (sym p) in λ j. (some (c j), cached (sym p j) (c j) e))
        (λ _. fetch_there fatal i q (record e { c_lno = 0 }) h.there)

  get_there :
      (fatal nocache : Bool) (n : ℕ) (q : Line) (e : Ed env)
      → Shows n q e
      → db_get fatal nocache n e ≡ (some q, cached n q e)
  unfolding db_get db_tinput
  get_there fatal nocache zero q e h = absurd (cc (h.there))
  get_there fatal nocache (suc i) q e h =
      let P : Option Line × Ed env → Type 0 = λ r. r ≡ (some q, cached (suc i) q e) in
      if_intro P (suc i == 0) _ _ (λ z. absurd (ground arith))
        λ _.
          if_intro P (not e.has_file) _ _ (λ z. absurd (ground (arith, h.has_file)))
            λ _.
              if_intro P nocache _ _ (λ _. fetch_there fatal i q e h.there)
                (λ _.
                  subst (λ t. P (db_tinput fatal (suc i) e t)) (sym h.tiq)
                    (cached_there fatal i q e h))

  log_text_there :
      (a : Action) (n : ℕ) (q : Line) (e : Ed env)
      → Shows n q e
      → log_text a n e ≡ (some q, cached n q e)
  unfolding log_text
  log_text_there reset_b n q e h =
      rw (get_there false true n q e h, log_text) (rw (get_there false true n q e h))
  log_text_there append n q e h = get_there true false n q e h
  log_text_there delete n q e h = get_there true false n q e h
  log_text_there insert n q e h = get_there true false n q e h
  log_text_there reset_f n q e h = get_there true false n q e h

  -- What logging line `n`, which reads `q`, leaves behind.
  pub record Logged (n : ℕ) (q : Line) (e f : Ed env) : Type 0 where
    pub c_lno : f.c_lno ≡ n
    pub c_lp : f.c_lp ≡ q
    pub c_nlines : f.c_nlines ≡ e.c_nlines

  Shows-untouched : {e f : Ed env} (n : ℕ) (q : Line) → IsUntouched e f → Shows n q e → Shows n q f
  Shows-untouched n q u h = record {
    has_file = u.has_file ∙ h.has_file;
    tiq = u.tiq ∙ h.tiq;
    there = rw u.db h.there;
    cache = λ z. u.c_lp ∙ h.cache (sym u.c_lno ∙ z);
  }

  pub log_line-Started :
      Reliable env.logs
      → (n : ℕ) (a : Action) (q : Line) (c0 : ℕ) (m : Mark) (s : List LogRec) (e : Ed env)
      → e.nolog ≡ false
      → Shows n q e
      → Trail c0 m s e
      → Started c0 m (line_record a n q ∷ s) (log_line n a e).1 × Logged n q e (log_line n a e).1
  unfolding log_line
  log_line-Started lok n a q c0 m s e on h t =
      let P : Bool × Ed env → Type 0 =
        λ x. Started c0 m (line_record a n q ∷ s) x.1 × Logged n q e x.1 in
      let e0 = record e { undo = false } in
      let e1 = (log_start e0).1 in
      let (fine, st) =
        log_start-Started lok c0 m s e0
          (Trail-of_SameLog c0 m s (same_log refl refl refl refl refl) t) in
      let u = log_start-IsUntouched e0 in
      let shown =
        Shows-untouched n q u (Shows-untouched n q (untouched refl refl refl refl refl refl) h) in
      let e2 = cached n q e1 in
      if_intro P e.nolog _ _ (λ off. cc)
        λ _.
          if_intro P (log_start e0).0 _ _ (λ bad. cc)
            λ _. rw (log_text_there a n q e1 shown) (
              rw (log_text_there a n q e1 shown) (
                (log_put-Started lok (line_record a n q) c0 m s e2
                    (Started-of_SameLog (same_log refl refl refl refl refl) st)).1,
                logged e1 (log_put-IsUntouched (line_record a n q) e2) u.c_nlines,
              ))
    where
      logged :
          (d : Ed env) {g : Ed env}
          → IsUntouched (cached n q d) g
          → d.c_nlines ≡ e.c_nlines
          → Logged n q e g
      logged d w u = record { c_lno = w.c_lno; c_lp = w.c_lp; c_nlines = w.c_nlines ∙ u }
