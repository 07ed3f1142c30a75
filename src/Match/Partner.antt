-- ===== src/Match/Partner.antt =====
-- The % command (vi/v_match.c) and the partner of a bracket.
use open_vi.Common.{
  ℕ, suc, ◌<◌, ◌≡◌, Bool, true, false, not, ◌&&◌, if◌then◌else◌, refl, sym, ap, ◌∙◌, Option, none,
  some, arith, length, drop, record_at, record_at_bounds, ◌==◌,
}
use mathlib.Core.Path.{subst}
use open_vi.Recno.{Reliable}
use open_vi.State.{Line, Mark, Env, Ed, rows, report, match_not_found, no_match_character}
use open_vi.Line.{db_eget}
use open_vi.Line.Reads.{ReadOnly, ReadOnly-trans, ReadOnly-report}
use open_vi.Line.Refine.{IsReady}
use open_vi.Line.Eget.{db_eget-Reads, db_eget-there}
use open_vi.Delete.Loop.{IsReady-of_ReadOnly}
use open_vi.Stream.{Vcs, v_isempty, cs_init, cs_next, cs_prev}
use open_vi.Match.{
  Vicmd, Start, find_bracket, is_before, match_end, match_loop, match_found, match_from, v_match,
  stream_at,
}
use open_vi.Match.Cells.{closing, partner, partner_of, cells_after, cells_before, size}
use open_vi.Match.Ending.{match_end-Keeps}
use open_vi.Match.Hunt.{Ends, Tells, place}
use open_vi.Match.Forward.{next-Hunts}
use open_vi.Match.Places.{here, at_line-text}
use open_vi.Match.Backward.{prev-Hunts}
use open_vi.Match.Bracket.{find_bracket-bounds, v_isempty-drop, length-drop_sum}

-- How the command ends: it fails and leaves the marks, or it stops at the place.
abbrev pub Moves : Vicmd → Option Mark → Bool × Vicmd → Type 0
Moves vp none s = s ≡ (true, vp)
Moves vp (some p) s =
    (s.0 ≡ false)
    × ((s.1.m_stop ≡ p)
        × (s.1.m_final ≡ (if is_before vp.m_start p && vp.is_motion then vp.m_start else p)))

module _ {env : Env} where
  pub record Answers (vp : Vicmd) (o : Option Mark) (e : Ed env)
      (r : Option ((Bool × Vicmd) × Ed env)) : Type 0 where
    pub state : (Bool × Vicmd) × Ed env
    pub result : r ≡ some state
    pub reads : ReadOnly e state.1
    pub moves : Moves vp o state.0

module _ {env : Env} (ok : Reliable env.file) where
  -- What follows the loop.
  found-Answers :
      (o : Option Mark) (l : Line) (vp : Vicmd) (e f : Ed env)
      (r : Option ((Bool × ℕ × Vcs) × Ed env))
      → IsReady e
      → record_at (rows e) vp.m_start.lno ≡ some l
      → ReadOnly e f
      → Ends (rows e) o f r
      → Answers vp o e (match_found vp r)
  found-Answers o l vp e f r ready there k x =
      subst (λ q. Answers vp o e (match_found vp q)) (sym x.result) (rw (x.fine) (go o x.tells))
    where
      go :
          (o : Option Mark)
          → Tells (rows e) o x.state.0.1 x.state.0.2
          → Answers vp o e (
              if not (x.state.0.1 == 0)
              then some ((true, vp), report match_not_found x.state.1)
              else some (match_end (record vp { m_stop = place x.state.0.2 }) x.state.1))
      go none open_ =
          let z : not (x.state.0.1 == 0) ≡ true = ground (arith, open_) in
          rw z (record {
            state = _;
            result = refl;
            moves = refl;
            reads =
                ReadOnly-trans (ReadOnly-trans k x.reads)
                  (ReadOnly-report x.state.1 match_not_found);
          })
      go (some p) (closed, (at_p, (q, row))) =
          let z : not (x.state.0.1 == 0) ≡ false = ground (arith, closed) in
          let kx = ReadOnly-trans k x.reads in
          let same : rows x.state.1 ≡ rows e = ap env.file.rows kx.db in
          let vp1 = record vp { m_stop = place x.state.0.2 } in
          let y =
            match_end-Keeps ok l q vp1 x.state.1 (IsReady-of_ReadOnly kx ready)
              (ap (λ ys. record_at ys vp.m_start.lno) same ∙ there)
              (ap (λ ys. record_at ys x.state.0.2.cs_lno) same ∙ row) in
          rw z (record {
            state = match_end vp1 x.state.1;
            result = refl;
            reads = ReadOnly-trans kx y.reads;
            moves = (
              y.fine,
              (
                y.stop ∙ at_p,
                y.final
                    ∙ ap (λ m. if is_before vp.m_start m && vp.is_motion then vp.m_start else m)
                        at_p,
              ),
            );
          })

  cs_init-here :
      (n c : ℕ) (l : Line) (e : Ed env)
      → IsReady e
      → record_at (rows e) n ≡ some l
      → v_isempty l ≡ false
      → ((cs_init (stream_at n c) e).0 ≡ (false, here n c l))
        × ReadOnly e (cs_init (stream_at n c) e).1
  unfolding cs_init
  cs_init-here n c l e ready there text =
      rw (db_eget-there ok n l e ready there, cs_init)
        (ap (λ v. (false, v)) (at_line-text n c l (stream_at n c) text), db_eget-Reads n e)

  from-Answers :
      (k i : ℕ) (l : Line) (s : Start) (vp : Vicmd) (e f : Ed env)
      → IsReady e
      → vp.m_start.lno ≡ suc i
      → record_at (rows e) (suc i) ≡ some l
      → s.off < length l
      → v_isempty l ≡ false
      → size (rows e) < k
      → ReadOnly e f
      → Answers vp (partner_of (rows e) i l (some s)) e (match_from k s vp f)
  unfolding match_from
  from-Answers k i l s vp e f ready at_n there lt text fuel kf =
      let n = vp.m_start.lno in
      let same : rows f ≡ rows e = ap env.file.rows kf.db in
      let at_start : record_at (rows e) n ≡ some l = ap (record_at (rows e)) at_n ∙ there in
      let (init, reads) =
        cs_init-here n s.off l f (IsReady-of_ReadOnly kf ready)
          (ap (λ ys. record_at ys n) same ∙ at_start) text in
      let g = (cs_init (stream_at n s.off) f).1 in
      let kg = ReadOnly-trans kf reads in
      let o = partner_of (rows e) i l (some s) in
      rw (init, match_from)
        (found-Answers o l vp e g _ ready at_start kg (
          subst
            (λ m. Ends (rows e) o g (
              match_loop k (if s.forwards then cs_next else cs_prev) s.startc s.matchc 1
                (here m s.off l) g))
            (sym at_n) (ways s.forwards g (IsReady-of_ReadOnly kg ready) (ap env.file.rows kg.db))))
    where
      ways :
          (forwards : Bool) (g : Ed env)
          → IsReady g
          → rows g ≡ rows e
          → Ends
              (rows e)
              (closing s.startc s.matchc 1 (
                if forwards
                then cells_after (rows e) i s.off l
                else cells_before (rows e) i s.off l))
              g
              (match_loop k
                (if forwards then cs_next else cs_prev)
                s.startc
                s.matchc
                1
                (here (suc i) s.off l)
                g)
      ways true g readyg sameg =
          next-Hunts ok (rows e) s.startc s.matchc i s.off l there lt 1 k g readyg sameg
            (λ z. omega (arith, z)) (omega arith)
      ways false g readyg sameg =
          prev-Hunts ok (rows e) s.startc s.matchc i s.off l there lt
            (omega (arith, (record_at_bounds (rows e) (suc i) there).1)) 1 k g readyg sameg
            (λ z. omega (arith, z)) (omega arith)

  -- Outside of text input, with right caches and a database that does not fail, on a line of the file:
  -- with more turns than the text has bytes and lines, the % command ends. It takes the first bracket at
  -- or behind the cursor and stops at the place where the brackets of its kind that it opens are all
  -- closed, forwards or backwards, without counting those in lines of blanks; a motion over what is
  -- behind it leaves the cursor, and every other moves it there. Without a bracket, or without a
  -- place, it fails and leaves the marks. It changes no line.
  pub v_match-partner :
      (k i : ℕ) (l : Line) (vp : Vicmd) (e : Ed env)
      → IsReady e
      → vp.m_start.lno ≡ suc i
      → record_at (rows e) (suc i) ≡ some l
      → size (rows e) < k
      → Answers vp (partner (rows e) i vp.m_start.cno l) e (v_match k vp e)
  unfolding v_match
  v_match-partner k i l vp e ready at_n there fuel =
      let n = vp.m_start.lno in
      let c = vp.m_start.cno in
      let e1 = (db_eget n e).1 in
      let k1 = db_eget-Reads n e in
      rw (db_eget-there ok n l e ready (ap (record_at (rows e)) at_n ∙ there), v_match)
        (go (find_bracket c (drop c l)) refl)
    where
      go :
          (o : Option Start)
          → find_bracket vp.m_start.cno (drop vp.m_start.cno l) ≡ o
          → Answers vp
              (partner_of (rows e) i l o)
              e
              (elim o as (λ _. Option ((Bool × Vicmd) × Ed env)) [
                | none ↦ some ((true, vp), report no_match_character (db_eget vp.m_start.lno e).1)
                | some s ↦ match_from k s vp (db_eget vp.m_start.lno e).1
              ])
      go none q = record {
        state = _;
        result = refl;
        moves = refl;
        reads =
            ReadOnly-trans (db_eget-Reads vp.m_start.lno e) (ReadOnly-report _ no_match_character);
      }
      go (some s) q =
          let ((ge, lt), text) = find_bracket-bounds vp.m_start.cno (drop vp.m_start.cno l) s q in
          from-Answers k i l s vp e (db_eget vp.m_start.lno e).1 ready at_n there
            (omega (arith, lt, length-drop_sum l vp.m_start.cno (omega (arith, ge, lt))))
            (v_isempty-drop l vp.m_start.cno text) fuel (db_eget-Reads vp.m_start.lno e)
