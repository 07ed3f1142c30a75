-- ===== src/Line/Reads.antt =====
-- What the reading routines of common/line.c leave alone, and the two caches of `EXF`.
use open_vi.Common.{
  ℕ, Bool, true, false, not, ◌&&◌, ◌≡◌, ◌≢◌, refl, ◌∙◌, Option, none, some, List, [], ◌∷◌, length,
  record_at, leb, ◌==◌, if_intro,
}
use open_vi.Recno.{Reply, found, absent, failed}
use open_vi.State.{Line, Text, Msg, Env, Ed, rows, report, unable_last}
use open_vi.Line.{
  db_err, db_cache_update, db_fetch, db_cached, db_tinput, db_get, db_last, db_exist, last_lno,
  tinput_last,
}

module _ {env : Env} where
  -- The cached line is the line of the file, if its number is one that `trust` names, and the cached
  -- count is the number of lines.
  pub record IsRight (trust : ℕ → Bool) (e : Ed env) : Type 0 where
    pub line : e.c_lno ≢ 0 → trust e.c_lno ≡ true → record_at (rows e) e.c_lno ≡ some e.c_lp
    pub count : e.c_nlines ≢ 0 → e.c_nlines ≡ length (rows e)

  -- The caches tell the truth.
  abbrev pub IsCoherent : Ed env → Type 0
  IsCoherent e = IsRight (λ _. true) e

  -- `f` has the file, the log, the marks and the text input of `e`. The caches may differ, in no way
  -- that breaks them.
  pub record ReadOnly (e f : Ed env) : Type 0 where
    pub has_file : f.has_file ≡ e.has_file
    pub tiq : f.tiq ≡ e.tiq
    pub db : f.db ≡ e.db
    pub log : f.log ≡ e.log
    pub l_high : f.l_high ≡ e.l_high
    pub l_cur : f.l_cur ≡ e.l_cur
    pub l_cursor : f.l_cursor ≡ e.l_cursor
    pub marks : f.marks ≡ e.marks
    pub nolog : f.nolog ≡ e.nolog
    pub right : (trust : ℕ → Bool) → IsRight trust e → IsRight trust f

  -- The fields that reading may write.
  abbrev recache : Ed env → ℕ → Line → ℕ → List Msg → Ed env
  recache e n p k m = record e { c_lno = n; c_lp = p; c_nlines = k; msgs = m }

  recache-ReadOnly :
      (e : Ed env) (n : ℕ) (p : Line) (k : ℕ) (m : List Msg)
      → ((trust : ℕ → Bool) → IsRight trust e → IsRight trust (recache e n p k m))
      → ReadOnly e (recache e n p k m)
  recache-ReadOnly e n p k m c = record {
    has_file = refl;
    tiq = refl;
    db = refl;
    log = refl;
    l_high = refl;
    l_cur = refl;
    l_cursor = refl;
    marks = refl;
    nolog = refl;
    right = c;
  }

  pub ReadOnly-refl : (e : Ed env) → ReadOnly e e
  ReadOnly-refl e = recache-ReadOnly e e.c_lno e.c_lp e.c_nlines e.msgs (λ t h. h)

  pub ReadOnly-report : (e : Ed env) (m : Msg) → ReadOnly e (report m e)
  ReadOnly-report e m =
      recache-ReadOnly e e.c_lno e.c_lp e.c_nlines (m ∷ e.msgs)
        (λ t h. record { line = h.line; count = h.count })

  flush-ReadOnly : (e : Ed env) → ReadOnly e (record e { c_lno = 0 })
  flush-ReadOnly e =
      recache-ReadOnly e 0 e.c_lp e.c_nlines e.msgs
        (λ t h. record { line = λ z _. absurd (z refl); count = h.count })

  pub ReadOnly-trans : {e f g : Ed env} → ReadOnly e f → ReadOnly f g → ReadOnly e g
  ReadOnly-trans p q = record {
    has_file = q.has_file ∙ p.has_file;
    tiq = q.tiq ∙ p.tiq;
    db = q.db ∙ p.db;
    log = q.log ∙ p.log;
    l_high = q.l_high ∙ p.l_high;
    l_cur = q.l_cur ∙ p.l_cur;
    l_cursor = q.l_cursor ∙ p.l_cursor;
    marks = q.marks ∙ p.marks;
    nolog = q.nolog ∙ p.nolog;
    right = λ t h. q.right t (p.right t h);
  }

  -- A call that hands something back beside the state.
  abbrev Reads {ℓ} : {A : Type ℓ} → Ed env → A × Ed env → Type 0
  Reads e r = ReadOnly e r.1

  pub db_err-ReadOnly : (e : Ed env) (n : ℕ) → ReadOnly e (db_err e n)
  unfolding db_err
  db_err-ReadOnly e n =
      if_intro (ReadOnly e) (n == 0) _ _ (λ _. ReadOnly-refl e) (λ _. ReadOnly-report e _)

  update-ReadOnly :
      (e : Ed env) (n : ℕ) (p : Line)
      → record_at (rows e) n ≡ some p
      → ReadOnly e (db_cache_update e n p)
  unfolding db_cache_update
  update-ReadOnly e n p at =
      recache-ReadOnly e n p e.c_nlines e.msgs (λ t h. record { line = λ _ _. at; count = h.count })

  db_fetch-Reads : (fatal : Bool) (n : ℕ) (e : Ed env) → Reads e (db_fetch fatal n e)
  unfolding db_fetch
  db_fetch-Reads fatal n e = go (env.file.get e.db n) refl
    where
      go : (r : Reply Line) → env.file.get e.db n ≡ r → Reads e (db_fetch fatal n e)
      go failed q = rw (q, db_fetch) (db_err-ReadOnly e n)
      go absent q =
          rw (q, db_fetch)
            (if_intro (ReadOnly e) fatal _ _ (λ _. db_err-ReadOnly e n) (λ _. ReadOnly-refl e))
      go (found p) q = rw (q, db_fetch) (update-ReadOnly e n p (env.file.get_found e.db n p q))

  db_cached-Reads : (fatal : Bool) (n : ℕ) (e : Ed env) → Reads e (db_cached fatal n e)
  unfolding db_cached
  db_cached-Reads fatal n e =
      if_intro (Reads e) (n == e.c_lno) _ _ (λ _. ReadOnly-refl e)
        (λ _. ReadOnly-trans (flush-ReadOnly e) (db_fetch-Reads fatal n (record e { c_lno = 0 })))

  db_tinput-Reads :
      (fatal : Bool) (n : ℕ) (e : Ed env) (q : List Text) → Reads e (db_tinput fatal n e q)
  unfolding db_tinput
  db_tinput-Reads fatal n e [] = db_cached-Reads fatal n e
  db_tinput-Reads fatal n e (t ∷ q) =
      if_intro (Reads e) (leb t.lno n && leb n (last_lno t q)) _ _ (λ _. ReadOnly-refl e)
        (λ _. db_cached-Reads fatal _ e)

  pub db_get-Reads :
      (fatal nocache : Bool) (n : ℕ) (e : Ed env) → Reads e (db_get fatal nocache n e)
  unfolding db_get
  db_get-Reads fatal nocache n e =
      if_intro (Reads e) (n == 0) _ _
        (λ _. if_intro (ReadOnly e) fatal _ _ (λ _. db_err-ReadOnly e n) (λ _. ReadOnly-refl e))
        λ _.
          if_intro (Reads e) (not e.has_file) _ _ (λ _. ReadOnly-report e _)
            λ _.
              if_intro (Reads e) nocache _ _ (λ _. db_fetch-Reads fatal n e)
                (λ _. db_tinput-Reads fatal n e e.tiq)

  count-ReadOnly :
      (e : Ed env) (n : ℕ) (p : Line)
      → env.file.last e.db ≡ found (n, p)
      → ReadOnly e (record (db_cache_update e n p) { c_nlines = n })
  unfolding db_cache_update
  count-ReadOnly e n p q =
      let (len, at) = env.file.last_found e.db n p q in
      recache-ReadOnly e n p n e.msgs (λ t h. record { line = λ _ _. at; count = λ _. len })

  pub db_last-Reads : (e : Ed env) → Reads e (db_last e)
  unfolding db_last
  db_last-Reads e =
      if_intro (Reads e) (not e.has_file) _ _ (λ _. ReadOnly-report e _)
        λ _.
          if_intro (Reads e) (not (e.c_nlines == 0)) _ _ (λ _. ReadOnly-refl e)
            (λ _. from_db (env.file.last e.db) refl)
    where
      from_db :
          (r : Reply (ℕ × Line))
          → env.file.last e.db ≡ r
          → Reads {A = Option ℕ} e (elim r [
            | failed ↦ (none, report unable_last e)
            | absent ↦ (some 0, e)
            | found (n, p) ↦
                (some (tinput_last e.tiq n), record (db_cache_update e n p) { c_nlines = n })
          ])
      from_db failed q = ReadOnly-report e _
      from_db absent q = ReadOnly-refl e
      from_db (found (n, p)) q = count-ReadOnly e n p q

  pub db_exist-Reads : (n : ℕ) (e : Ed env) → Reads e (db_exist n e)
  unfolding db_exist
  db_exist-Reads n e =
      if_intro (Reads e) (not e.has_file) _ _ (λ _. ReadOnly-report e _)
        λ _.
          if_intro (Reads e) (n == 0) _ _ (λ _. ReadOnly-refl e)
            λ _.
              if_intro (Reads e) (not (e.c_nlines == 0)) _ _ (λ _. ReadOnly-refl e)
                (λ _. db_get-Reads false false n e)
