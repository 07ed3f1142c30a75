-- ===== src/Match/Ending.antt =====
-- How the % command ends: the marks and the mode of the motion.
use open_vi.Common.{
  ℕ, ◌≡◌, Bool, true, false, not, ◌&&◌, ◌||◌, if◌then◌else◌, refl, ap, ◌∙◌, some, arith, length,
  ltb, record_at, ◌==◌, if_intro,
}
use open_vi.Recno.{Reliable}
use open_vi.State.{Line, Mark, Env, Ed, rows}
use open_vi.Line.Reads.{ReadOnly, ReadOnly-refl, ReadOnly-trans, db_get-Reads}
use open_vi.Line.Refine.{IsReady, db_get-row}
use open_vi.Line.Eget.{db_eget-there}
use open_vi.Delete.Loop.{IsReady-of_ReadOnly}
use open_vi.Put.{nonblank}
use open_vi.Put.Text.{nonblank-Reads}
use open_vi.Match.{Vicmd, set_final, set_mode, match_end}

module _ {env : Env} where
  -- The end of a command that succeeds: the marks of `vp` stay.
  pub record Keeps (vp : Vicmd) (e : Ed env) (x : (Bool × Vicmd) × Ed env) : Type 0 where
    pub fine : x.0.0 ≡ false
    pub stop : x.0.1.m_stop ≡ vp.m_stop
    pub final : x.0.1.m_final ≡ vp.m_final
    pub reads : ReadOnly e x.1

module _ {env : Env} (ok : Reliable env.file) where
  nonblank-fine :
      (n : ℕ) (l : Line) (e : Ed env)
      → IsReady e
      → record_at (rows e) n ≡ some l
      → (nonblank n 0 e).0.0 ≡ false
  unfolding nonblank
  nonblank-fine n l e ready there =
      rw (db_eget-there ok n l e ready there, nonblank)
        (if_intro (λ (r : (Bool × ℕ) × Ed env). r.0.0 ≡ false) (length l == 0 || _) _ _ (λ _. refl)
          (λ _. refl))

  set_mode-Keeps :
      (low high : Mark) (q r : Line) (vp : Vicmd) (e : Ed env)
      → IsReady e
      → record_at (rows e) low.lno ≡ some q
      → record_at (rows e) high.lno ≡ some r
      → Keeps vp e (set_mode low high vp e)
  unfolding set_mode
  set_mode-Keeps low high q r vp e ready at_low at_high =
      let inside = not (low.cno == 0) in
      let e1 = (nonblank low.lno 0 e).1 in
      let k1 = nonblank-Reads low.lno 0 e in
      let f = if inside then e1 else e in
      let k : ReadOnly e f = if_intro (ReadOnly e) inside e1 e (λ _. k1) (λ _. ReadOnly-refl e) in
      let got =
        db_get-row ok true false high.lno f (IsReady-of_ReadOnly k ready)
        ∙ ap (λ ys. record_at ys high.lno) (ap env.file.rows k.db)
        ∙ at_high in
      let kg = ReadOnly-trans k (db_get-Reads true false high.lno f) in
      if_intro (Keeps vp e) (inside && (nonblank low.lno 0 e).0.0) _ _
        (λ z. absurd (ground (arith, nonblank-fine low.lno q e ready at_low)))
        λ _.
          if_intro (Keeps vp e) (inside && ltb (nonblank low.lno 0 e).0.1 low.cno) _ _
            (λ _. record { fine = refl; stop = refl; final = refl; reads = k1 })
            (λ _. rw got (record { fine = refl; stop = refl; final = refl; reads = kg }))

  pub match_end-Keeps :
      (q r : Line) (vp : Vicmd) (e : Ed env)
      → IsReady e
      → record_at (rows e) vp.m_start.lno ≡ some q
      → record_at (rows e) vp.m_stop.lno ≡ some r
      → Keeps (set_final vp) e (match_end vp e)
  unfolding match_end
  match_end-Keeps q r vp e ready at_start at_stop =
      if_intro (Keeps (set_final vp) e) (not vp.is_motion || vp.m_start.lno == vp.m_stop.lno) _ _
        (λ _. record { fine = refl; stop = refl; final = refl; reads = ReadOnly-refl e })
        λ _.
          if_intro (Keeps (set_final vp) e) (ltb vp.m_start.lno vp.m_stop.lno) _ _
            (λ _. set_mode-Keeps vp.m_start vp.m_stop q r (set_final vp) e ready at_start at_stop)
            (λ _. set_mode-Keeps vp.m_stop vp.m_start r q (set_final vp) e ready at_stop at_start)
