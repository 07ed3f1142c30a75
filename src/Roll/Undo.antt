-- ===== src/Roll/Undo.antt =====
-- Undo and redo.
use open_vi.Common.{
  ℕ, ◌-◌, ◌≤◌, Bool, true, false, ◌≡◌, ◌≢◌, refl, sym, ap, ◌∙◌, Option, List, [], ◌∷◌, arith, ◌==◌,
  if_intro, inl, inr,
}
use mathlib.Core.Path.{subst}
use open_vi.Recno.{Reliable}
use open_vi.State.{Mark, LogRec, cursor_end, Env, Ed, rows, records}
use open_vi.Line.Refine.{IsReady}
use open_vi.Log.{log_cursor, cursor_of}
use open_vi.Log.Frame.{KeepsFile, KeepsFile-refl, KeepsFile-by, KeepsFile-trans, log_put-KeepsFile}
use open_vi.Log.Trail.{IsLogging, Started, Pending, Trail, Stacked}
use open_vi.Log.Write.{log_put_ok, put_log-IsLogging, put_log-stack}
use open_vi.Edit.{Services}
use open_vi.Roll.{backward_loop, log_backward, forward_loop, log_forward, max_rec_number}
use open_vi.Roll.History.{Step, append, insert, delete, reset, mark, flatten, History}
use open_vi.Roll.Quiet.{Paints}
use open_vi.Roll.Edits.{Ongoing, Moved}
use open_vi.Roll.Back.{Undone, loop_back, loop_back_end}
use open_vi.Roll.Forth.{Redone, Stacked-height, forth}
use open_vi.Roll.Changes.{Change, make_all, edit_all, AllInRange, make_all-Moved}

module _ {env : Env} where
  log_cursor-KeepsFile : (e : Ed env) → KeepsFile e (log_cursor e).1
  unfolding log_cursor
  log_cursor-KeepsFile e =
      let P : Bool × Ed env → Type 0 = λ r. KeepsFile e r.1 in
      if_intro P e.nolog _ _ (λ _. KeepsFile-refl e)
        λ _.
          if_intro P (e.l_cursor.lno == 0) _ _
            (λ _.
              KeepsFile-trans (KeepsFile-by refl refl refl refl refl refl) (log_put-KeepsFile _ _))
            (λ _. KeepsFile-by refl refl refl refl refl refl)

  module _ (lok : Reliable env.logs) where
    -- Noting the cursor gets the log ready for a change.
    log_cursor-Pending :
        (e : Ed env)
        → IsLogging e
        → e.lno ≢ 0
        → Pending (log_cursor e).1.l_cur (cursor_of e) (log_cursor e).1
    unfolding log_cursor
    log_cursor-Pending e h z =
        let P : Bool × Ed env → Type 0 = λ r. Pending r.1.l_cur (cursor_of e) r.1 in
        let e0 = record e { l_cursor = cursor_of e } in
        let h0 : IsLogging e0 = record { on = h.on; first = h.first; last = h.last } in
        if_intro P e.nolog _ _ (λ off. cc (h.on))
          λ _.
            if_intro P (e.l_cursor.lno == 0) _ _
              (λ _. rw (log_put_ok lok (cursor_end (cursor_of e)) e0 h0) (record {
                logging = put_log-IsLogging lok (cursor_end (cursor_of e)) e0 h0;
                cursor = refl;
                real = z;
                base = refl;
              }))
              (λ _. record { logging = h0; cursor = refl; real = z; base = refl })

    -- The end of a change that has logged something.
    pub record Closed (c0 : ℕ) (m : Mark) (s : List LogRec) (f g : Ed env) : Type 0 where
      pub on : g.nolog ≡ false
      pub high : g.l_high ≡ g.l_cur
      pub stack : Stacked (records g) g.l_cur (cursor_end (cursor_of f) ∷ s) c0 m

    log_cursor-Closed :
        (c0 : ℕ) (m : Mark) (s : List LogRec) (f : Ed env)
        → Started c0 m s f
        → Closed c0 m s f (log_cursor f).1
    unfolding log_cursor
    log_cursor-Closed c0 m s f h =
        let P : Bool × Ed env → Type 0 = λ r. Closed c0 m s f r.1 in
        let f0 = record f { l_cursor = cursor_of f } in
        let l : IsLogging f0 = record {
          on = h.logging.on;
          first = h.logging.first;
          last = h.logging.last;
        } in
        if_intro P f.nolog _ _ (λ off. cc (h.logging.on))
          λ _.
            if_intro P (f.l_cursor.lno == 0) _ _
              (λ _. rw (log_put_ok lok (cursor_end (cursor_of f)) f0 l) (record {
                on = h.logging.on;
                high = refl;
                stack = put_log-stack lok (cursor_end (cursor_of f)) c0 m s f0 l h.stack;
              }))
              (λ z. absurd (ground (arith, h.cursor)))

-- A change with a step in it has started.
Started-of_step :
    {env : Env} (c0 : ℕ) (m : Mark) (st : Step) (ss : List Step) (e : Ed env)
    → Trail c0 m (flatten (st ∷ ss)) e
    → Started c0 m (flatten (st ∷ ss)) e
Started-of_step c0 m (append n p) ss e h = h
Started-of_step c0 m (insert n p) ss e h = h
Started-of_step c0 m (delete n p) ss e h = h
Started-of_step c0 m (reset n o w) ss e h = h
Started-of_step c0 m (mark k) ss e h = h

module _ {env : Env} (s : Services env) (paint : Paints s) (fok : Reliable env.file)
    (lok : Reliable env.logs) where
  -- The facts about a change that has just been made at `e`.
  module _ (e : Ed env) (ready : IsReady e) (logging : IsLogging e) (line : e.lno ≢ 0) where
    abbrev start : Ed env
    start = (log_cursor e).1

    pub started : Ongoing s fok lok (rows e) start.l_cur (cursor_of e) start
    started =
        let k = log_cursor-KeepsFile e in
        record {
          has_file = k.has_file ∙ ready.has_file;
          tiq = k.tiq ∙ ready.tiq;
          coherent = k.right (λ _. true) ready.coherent;
          described = (
            [],
            record {
              trail = inl (log_cursor-Pending lok e logging line);
              history = ap env.file.rows k.db;
            },
          );
        }

    module _ (c : Change) (cs : List Change) (fits : AllInRange (c ∷ cs) (rows e)) where
      -- The change, made; and the log, after the command that made it.
      abbrev changed : Ed env
      changed = make_all s (c ∷ cs) start

      abbrev closed : Ed env
      closed = (log_cursor changed).1

      same_rows : rows start ≡ rows e
      same_rows = ap env.file.rows (log_cursor-KeepsFile e).db

      made :
          Ongoing s fok lok (rows e) start.l_cur (cursor_of e) changed
          × Moved s fok lok (rows e) start.l_cur (cursor_of e) (rows changed) changed
          × (rows changed ≡ edit_all (c ∷ cs) (rows e))
      made =
          let (o, v, r) =
            make_all-Moved s fok lok (rows e) start.l_cur (cursor_of e) c cs start started
              (subst (AllInRange (c ∷ cs)) (sym same_rows) fits) in
          (o, v, r ∙ ap (edit_all (c ∷ cs)) same_rows)

      log_backward-loop :
          (g : Ed env) (st : List LogRec)
          → g.nolog ≡ false
          → Stacked (records g) g.l_cur st start.l_cur (cursor_of e)
          → log_backward s g ≡ backward_loop s g.l_cur false (record g { nolog = true })
      unfolding log_backward
      log_backward-loop g st on h =
          let P : Option Mark × Ed env → Type 0 =
            λ r. r ≡ backward_loop s g.l_cur false (record g { nolog = true }) in
          let (p, q) = Stacked-height (records g) g.l_cur st start.l_cur (cursor_of e) h in
          if_intro P g.nolog _ _ (λ off. cc)
            λ _.
              if_intro P (g.l_cur == 1) _ _
                (λ one. absurd (let two : g.l_cur ≡ 1 = ground arith in omega arith)) (λ _. refl)

      -- Outside of text input, with right caches, the cursor on a line and logging on, with
      -- databases and screens that do not fail: rolling the log back after any line edits in
      -- range, at least one, gives back the lines, the cursor position and the place in the log
      -- from before them, with logging on and the log intact.
      pub undo_restores :
          Undone changed.log changed.l_high start.l_cur
            (cursor_of e)
            (rows e)
            (log_backward s changed)
      undo_restores =
          let (o, (st, ss, d), r) = made in
          let t : Started start.l_cur (cursor_of e) (flatten (st ∷ ss)) changed =
            Started-of_step start.l_cur (cursor_of e) st ss changed d.trail in
          rw (log_backward-loop changed (flatten (st ∷ ss)) t.logging.on t.stack) (
            loop_back s paint fok lok changed.log changed.l_high start.l_cur (cursor_of e) (rows e)
              (st ∷ ss) changed.l_cur false (rows changed) (record changed { nolog = true })
              (record { off = refl; has_file = o.has_file; log = refl; high = refl; lines = refl })
              t.stack d.history (inr (λ z. cc)))

      undo_closed :
          Undone closed.log closed.l_high start.l_cur (cursor_of e) (rows e) (log_backward s closed)
      undo_closed =
          let (o, (st, ss, d), r) = made in
          let t = Started-of_step start.l_cur (cursor_of e) st ss changed d.trail in
          let k = log_cursor-KeepsFile changed in
          let w = log_cursor-Closed lok start.l_cur (cursor_of e) (flatten (st ∷ ss)) changed t in
          rw (log_backward-loop closed _ w.on w.stack) (
            loop_back_end s paint fok lok closed.log closed.l_high start.l_cur (cursor_of e)
              (rows e) (cursor_of changed) (st ∷ ss) closed.l_cur (rows changed)
              (record closed { nolog = true })
              (record {
                off = refl;
                has_file = k.has_file ∙ o.has_file;
                log = refl;
                high = refl;
                lines = ap env.file.rows k.db;
              })
              w.stack d.history (λ z. cc))

      -- Outside of text input, with right caches, the cursor on a line and logging on, with
      -- databases and screens that do not fail: rolling forward what was rolled back makes the
      -- change again: the lines are those that the edits make, the cursor is where it was at the
      -- end of the change, and the log ends where it did, as long as the log has not outgrown the
      -- record numbers.
      pub redo_restores :
          closed.l_cur ≤ max_rec_number
          → Redone closed.l_cur
              (cursor_of changed)
              (edit_all (c ∷ cs) (rows e))
              (log_forward s (log_backward s closed).1)
      unfolding log_forward
      redo_restores bound =
          let (o, (st, ss, d), r) = made in
          let t = Started-of_step start.l_cur (cursor_of e) st ss changed d.trail in
          let w = log_cursor-Closed lok start.l_cur (cursor_of e) (flatten (st ∷ ss)) changed t in
          let u = (log_backward s closed).1 in
          let v = undo_closed in
          let P : Option Mark × Ed env → Type 0 =
            Redone closed.l_cur (cursor_of changed) (edit_all (c ∷ cs) (rows e)) in
          let (height, pos) =
            Stacked-height (records closed) closed.l_cur _ start.l_cur (cursor_of e) w.stack in
          if_intro P u.nolog _ _ (λ off. cc (v.logging))
            λ _.
              if_intro P (u.l_cur == u.l_high) _ _
                (λ same. absurd (
                  let p : u.l_cur ≡ u.l_high = ground arith in
                  omega (arith, p, v.cur, v.high, w.high, height)))
                (λ _.
                  subst
                    (λ n.
                      P (forward_loop s (max_rec_number - n) n false (record u { nolog = true })))
                    (sym v.cur)
                    (forth s paint fok lok closed.log closed.l_high start.l_cur (cursor_of e)
                      (rows e) closed.l_cur (cursor_of changed) st ss (edit_all (c ∷ cs) (rows e))
                      (record u { nolog = true })
                      (record {
                        off = refl;
                        has_file = v.has_file;
                        log = v.log;
                        high = v.high;
                        lines = v.lines;
                      })
                      w.stack (subst (History (st ∷ ss) (rows e)) r d.history)
                      (max_rec_number - start.l_cur) (omega (arith, bound, height))))
