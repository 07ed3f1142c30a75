-- ===== src/ExLines/Move.antt =====
-- What ex_move makes of the lines.
use open_vi.Common.{
  ℕ, suc, ◌+◌, ◌-◌, ◌≤◌, ◌≡◌, Bool, true, false, not, ◌&&◌, if◌then◌else◌, refl, sym, ap, ◌∙◌, List,
  [], ◌∷◌, ◌++◌, arith, length, ltb, leb, record_at, if_intro, length-append,
}
use mathlib.Core.Path.{subst}
use mathlib.Core.List.{append_assoc}
use open_vi.Recno.{Reliable}
use open_vi.State.{Line, Env, Ed, rows}
use open_vi.Line.{db_get}
use open_vi.Line.Reads.{db_get-Reads}
use open_vi.Line.Refine.{IsReady, db_get-row}
use open_vi.Log.Frame.{KeepsFile, KeepsFile-refl}
use open_vi.Edit.{Services, db_append}
use open_vi.Roll.Quiet.{Paints}
use open_vi.Delete.Loop.{IsReady-of_ReadOnly}
use open_vi.ExLines.{Command, log_old, log_new, move_down, move_up, moved_to, ex_move}
use open_vi.ExLines.Turn.{
  get_middle, Moves, log_old-KeepsFile, log_new-KeepsFile, same_file, turned, append-Moves,
  down_once, up_once,
}

module _ {env : Env} (s : Services env) (paint : Paints s) (ok : Reliable env.file) where
  move_down-Moves :
      (xs : List Line) (reset : Bool) (ps qs ds : List Line) (fl tl : ℕ) (e : Ed env)
      → IsReady e
      → rows e ≡ ps ++ (xs ++ (qs ++ ds))
      → fl ≡ suc (length ps)
      → tl ≡ length ps + (length xs + length qs)
      → Moves (move_down s (length xs) fl tl reset e) (ps ++ (qs ++ (xs ++ ds)))
  unfolding move_down
  move_down-Moves [] reset ps qs ds fl tl e h lines at_fl at_tl = record {
    fine = refl;
    ready = h;
    lines = lines;
  }
  move_down-Moves (x ∷ xs) reset ps qs ds fl tl e h lines at_fl at_tl =
      let got =
        db_get-row ok true false fl e h
        ∙ ap (record_at (rows e)) at_fl
        ∙ ap (λ ys. record_at ys (suc (length ps))) lines
        ∙ get_middle ps (xs ++ (qs ++ ds)) x (length ps) refl in
      let k = db_get-Reads true false fl e in
      let e1 = (db_get true false fl e).1 in
      let h1 = IsReady-of_ReadOnly k h in
      let same = ap env.file.rows k.db ∙ lines in
      let all = ap length same ∙ length-append ps (x ∷ (xs ++ (qs ++ ds))) in
      let a =
        append-Moves s paint ok tl x e1 h1
          (omega (arith, all, length-append xs (qs ++ ds), length-append qs ds, at_tl)) in
      let y =
        down_once s paint ok reset ps (xs ++ qs) ds x fl tl e1 h1
          (same ∙ ap (λ ys. ps ++ (x ∷ ys)) (sym (append_assoc xs qs ds))) at_fl
          (omega (arith, at_tl, length-append xs qs)) in
      let z =
        move_down-Moves xs reset ps (qs ++ (x ∷ [])) ds fl tl
          (turned s paint ok reset fl tl fl x e1).1 y.ready
          (y.lines
            ∙ ap (λ ys. ps ++ ys)
                (append_assoc xs qs (x ∷ ds)
                  ∙ ap (λ ys. xs ++ ys) (sym (append_assoc qs (x ∷ []) ds))))
          at_fl (omega (arith, at_tl, length-append qs (x ∷ []))) in
      let P : Bool × Ed env → Type 0 = λ r. Moves r (ps ++ (qs ++ (x ∷ (xs ++ ds)))) in
      rw (got, move_down)
        (if_intro P (db_append s true tl x e1).0 _ _ (λ bad. cc (a.fine))
          λ _.
            if_intro P (turned s paint ok reset fl tl fl x e1).0 _ _ (λ bad. cc (y.fine))
              (λ _. record {
                fine = z.fine;
                ready = z.ready;
                lines = z.lines ∙ ap (λ ys. ps ++ ys) (append_assoc qs (x ∷ []) (xs ++ ds));
              }))

  move_up-Moves :
      (xs : List Line) (reset : Bool) (ps qs ds : List Line) (fl tl : ℕ) (e : Ed env)
      → IsReady e
      → rows e ≡ ps ++ (qs ++ (xs ++ ds))
      → fl ≡ suc (length ps + length qs)
      → tl ≡ length ps
      → ((move_up s (length xs) fl tl reset e).0.1 ≡ tl + length xs)
        × Moves
            (let r = move_up s (length xs) fl tl reset e in (r.0.0, r.1))
            (ps ++ (xs ++ (qs ++ ds)))
  unfolding move_up
  move_up-Moves [] reset ps qs ds fl tl e h lines at_fl at_tl =
      (omega arith, record { fine = refl; ready = h; lines = lines })
  move_up-Moves (x ∷ xs) reset ps qs ds fl tl e h lines at_fl at_tl =
      let got =
        db_get-row ok true false fl e h
        ∙ ap (record_at (rows e)) at_fl
        ∙ ap (λ ys. record_at ys (suc (length ps + length qs)))
            (lines ∙ sym (append_assoc ps qs (x ∷ (xs ++ ds))))
        ∙ get_middle (ps ++ qs) (xs ++ ds) x (length ps + length qs) (sym (length-append ps qs)) in
      let k = db_get-Reads true false fl e in
      let e1 = (db_get true false fl e).1 in
      let h1 = IsReady-of_ReadOnly k h in
      let same = ap env.file.rows k.db ∙ lines in
      let all = ap length same ∙ length-append ps (qs ++ (x ∷ (xs ++ ds))) in
      let a = append-Moves s paint ok tl x e1 h1 (omega (arith, all, at_tl)) in
      let y = up_once s paint ok reset ps qs (xs ++ ds) x fl tl e1 h1 same at_fl at_tl in
      let (last, z) =
        move_up-Moves xs reset (ps ++ (x ∷ [])) qs ds (suc fl) (suc tl)
          (turned s paint ok reset fl tl (suc fl) x e1).1 y.ready y.lines
          (omega (arith, at_fl, length-append ps (x ∷ [])))
          (omega (arith, at_tl, length-append ps (x ∷ []))) in
      let P : (Bool × ℕ) × Ed env → Type 0 =
        λ r. (r.0.1 ≡ tl + suc (length xs)) × Moves (r.0.0, r.1) (ps ++ (x ∷ (xs ++ (qs ++ ds)))) in
      rw (got, move_up)
        (if_intro P (db_append s true tl x e1).0 _ _ (λ bad. cc (a.fine))
          λ _.
            if_intro P (turned s paint ok reset fl tl (suc fl) x e1).0 _ _ (λ bad. cc (y.fine))
              (λ _. (
                omega (arith, last),
                record {
                  fine = z.fine;
                  ready = z.ready;
                  lines = z.lines ∙ append_assoc ps (x ∷ []) (xs ++ (qs ++ ds));
                },
              )))

  moved_to-Moves :
      (tl low high diff : ℕ) (reset : Bool) (e : Ed env) (xs : List Line)
      → IsReady e
      → rows e ≡ xs
      → Moves (false, moved_to s tl low high diff reset e) xs
  moved_to-Moves tl low high diff reset e xs h lines =
      let e1 = record e { lno = tl; cno = 0 } in
      let h1 : IsReady e1 = record {
        has_file = h.has_file;
        tiq = h.tiq;
        coherent = record { line = h.coherent.line; count = h.coherent.count };
      } in
      let k : KeepsFile e1 (if reset then log_new low high e1.marks e1 else e1) =
        if_intro (KeepsFile e1) reset _ _ (λ _. log_new-KeepsFile low high e1.marks e1)
          (λ _. KeepsFile-refl e1) in
      let (r, z) = same_file k h1 xs lines in
      record {
        fine = refl;
        lines = z;
        ready = record {
          has_file = r.has_file;
          tiq = r.tiq;
          coherent = record { line = r.coherent.line; count = r.coherent.count };
        };
      }

  -- The state in which the loops start.
  started :
      (low high : ℕ) (e : Ed env)
      → IsReady e
      → let r = log_old low high e.marks e in
        let e1 = record r.1 { marks = r.0.0 } in IsReady e1 × (rows e1 ≡ rows e)
  started low high e h =
      let r = log_old low high e.marks e in
      let (q, z) = same_file (log_old-KeepsFile low high e.marks e) h (rows e) refl in
      (
        record {
          has_file = q.has_file;
          tiq = q.tiq;
          coherent = record { line = q.coherent.line; count = q.coherent.count };
        },
        z,
      )

  -- Outside of text input, with right caches, databases and screens that do not fail: moving the lines `xs`,
  -- at least one, behind the lines `qs`, at least one, that come after them makes the two change places,
  -- and keeps the caches right.
  pub ex_move-down :
      (xs ps qs ds : List Line) (c : Command) (e : Ed env)
      → IsReady e
      → rows e ≡ ps ++ (xs ++ (qs ++ ds))
      → 1 ≤ length xs
      → 1 ≤ length qs
      → c.addr1.lno ≡ suc (length ps)
      → c.addr2.lno ≡ length ps + length xs
      → c.lineno ≡ length ps + (length xs + length qs)
      → Moves (ex_move s c e) (ps ++ (qs ++ (xs ++ ds)))
  unfolding ex_move
  ex_move-down xs ps qs ds c e h lines one_x one_q at_1 at_2 at_l =
      let P : Bool × Ed env → Type 0 = λ r. Moves r (ps ++ (qs ++ (xs ++ ds))) in
      let diff = suc (c.addr2.lno - c.addr1.lno) in
      let n : diff ≡ length xs = omega (arith, at_1, at_2) in
      let r = log_old c.addr1.lno c.lineno e.marks e in
      let e1 = record r.1 { marks = r.0.0 } in
      let (h1, same) = started c.addr1.lno c.lineno e h in
      let x =
        move_down-Moves xs r.0.1 ps qs ds c.addr1.lno c.lineno e1 h1 (same ∙ lines) at_1 at_l in
      let y =
        subst (λ k. Moves (move_down s k c.addr1.lno c.lineno r.0.1 e1) (ps ++ (qs ++ (xs ++ ds))))
          (sym n) x in
      if_intro P (not e.has_file) _ _ (λ z. absurd (ground (arith, h.has_file)))
        λ _.
          if_intro P (leb c.addr1.lno c.lineno && leb c.lineno c.addr2.lno) _ _
            (λ z. absurd (ground (arith, at_1, at_2, at_l)))
            λ _.
              if_intro P (ltb c.addr1.lno c.lineno) _ _
                (λ _.
                  if_intro P (move_down s diff c.addr1.lno c.lineno r.0.1 e1).0 _ _
                    (λ bad. cc (y.fine))
                    (λ _.
                      moved_to-Moves c.lineno (c.lineno - diff) c.lineno diff r.0.1 _ _ y.ready
                        y.lines))
                (λ z. absurd (ground (arith, at_1, at_l)))

  -- Outside of text input, with right caches, databases and screens that do not fail: moving the lines `xs`,
  -- at least one, before the lines `qs` that come ahead of them makes the two change places, and keeps the
  -- caches right.
  pub ex_move-up :
      (xs ps qs ds : List Line) (c : Command) (e : Ed env)
      → IsReady e
      → rows e ≡ ps ++ (qs ++ (xs ++ ds))
      → 1 ≤ length xs
      → c.addr1.lno ≡ suc (length ps + length qs)
      → c.addr2.lno ≡ length ps + (length qs + length xs)
      → c.lineno ≡ length ps
      → Moves (ex_move s c e) (ps ++ (xs ++ (qs ++ ds)))
  unfolding ex_move
  ex_move-up xs ps qs ds c e h lines one_x at_1 at_2 at_l =
      let P : Bool × Ed env → Type 0 = λ r. Moves r (ps ++ (xs ++ (qs ++ ds))) in
      let diff = suc (c.addr2.lno - c.addr1.lno) in
      let n : diff ≡ length xs = omega (arith, at_1, at_2) in
      let r = log_old c.addr1.lno c.lineno e.marks e in
      let e1 = record r.1 { marks = r.0.0 } in
      let (h1, same) = started c.addr1.lno c.lineno e h in
      let (last, x) =
        move_up-Moves xs r.0.1 ps qs ds c.addr1.lno c.lineno e1 h1 (same ∙ lines) at_1 at_l in
      let y =
        subst
          (λ k.
            let q = move_up s k c.addr1.lno c.lineno r.0.1 e1 in
            Moves (q.0.0, q.1) (ps ++ (xs ++ (qs ++ ds))))
          (sym n) x in
      let q = move_up s diff c.addr1.lno c.lineno r.0.1 e1 in
      if_intro P (not e.has_file) _ _ (λ z. absurd (ground (arith, h.has_file)))
        λ _.
          if_intro P (leb c.addr1.lno c.lineno && leb c.lineno c.addr2.lno) _ _
            (λ z. absurd (ground (arith, at_1, at_2, at_l)))
            λ _.
              if_intro P (ltb c.addr1.lno c.lineno) _ _ (λ z. absurd (ground (arith, at_1, at_l)))
                (λ _.
                  if_intro P q.0.0 _ _ (λ bad. cc (y.fine))
                    (λ _.
                      moved_to-Moves q.0.1 c.lineno (c.lineno + diff) diff r.0.1 _ _ y.ready
                        y.lines))
