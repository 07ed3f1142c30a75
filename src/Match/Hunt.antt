-- ===== src/Match/Hunt.antt =====
-- The loop of v_match over a way of stepping through the text: one turn of it.
use open_vi.Common.{
  ℕ, zero, suc, ◌-◌, ◌≤◌, ◌≡◌, ◌≢◌, Bool, true, false, if◌then◌else◌, refl, sym, ap, ◌∙◌, ◌⊎◌, inl,
  inr, Option, none, some, List, [], ◌∷◌, arith, record_at, ◌==◌, Bool-cases,
}
use mathlib.Core.Path.{subst}
use open_vi.State.{Line, Mark, Env, Ed, rows}
use open_vi.Line.Reads.{ReadOnly, ReadOnly-trans}
use open_vi.Line.Refine.{IsReady}
use open_vi.Delete.Loop.{IsReady-of_ReadOnly}
use open_vi.Stream.{CsFlags, in_line, cs_emp, cs_eof, cs_eol, cs_sof, Vcs, Move}
use open_vi.Match.{count_match, is_last, match_loop}
use open_vi.Match.Cells.{Cell, closing}

abbrev pub place : Vcs → Mark
place v = record { lno = v.cs_lno; cno = v.cs_cno }

-- What the count and the place at the end of the loop say.
abbrev pub Tells : List Line → Option Mark → ℕ → Vcs → Type 0
Tells xs none n v = n ≢ 0
Tells xs (some p) n v = (n ≡ 0) × ((place v ≡ p) × ((l : Line) × (record_at xs v.cs_lno ≡ some l)))

at_stop :
    (startc matchc : ℕ) (f : CsFlags)
    → (f ≡ cs_eof) ⊎ (f ≡ cs_sof)
    → (n ch : ℕ) → (count_match startc matchc f ch n ≡ n) × (is_last n f ≡ true)
at_stop startc matchc cs_eof z n ch = (refl, refl)
at_stop startc matchc cs_sof z n ch = (refl, refl)
at_stop startc matchc in_line z n ch = absurd (ground arith)
at_stop startc matchc cs_emp z n ch = absurd (ground arith)
at_stop startc matchc cs_eol z n ch = absurd (ground arith)

at_skip :
    (startc matchc : ℕ) (f : CsFlags)
    → (f ≡ cs_eol) ⊎ (f ≡ cs_emp)
    → (n ch : ℕ) → (count_match startc matchc f ch n ≡ n) × (is_last n f ≡ false)
at_skip startc matchc cs_eol z n ch = (refl, refl)
at_skip startc matchc cs_emp z n ch = (refl, refl)
at_skip startc matchc in_line z n ch = absurd (ground arith)
at_skip startc matchc cs_eof z n ch = absurd (ground arith)
at_skip startc matchc cs_sof z n ch = absurd (ground arith)

module _ {env : Env} where
  pub record Ends (xs : List Line) (o : Option Mark) (e : Ed env)
      (r : Option ((Bool × ℕ × Vcs) × Ed env)) : Type 0 where
    pub state : (Bool × ℕ × Vcs) × Ed env
    pub result : r ≡ some state
    pub fine : state.0.0 ≡ false
    pub reads : ReadOnly e state.1
    pub tells : Tells xs o state.0.1 state.0.2

  Ends-chain :
      {xs : List Line} {o : Option Mark} {e f : Ed env} {r : Option ((Bool × ℕ × Vcs) × Ed env)}
      → ReadOnly e f
      → Ends xs o f r
      → Ends xs o e r
  Ends-chain k x = record {
    state = x.state;
    result = x.result;
    fine = x.fine;
    reads = ReadOnly-trans k x.reads;
    tells = x.tells;
  }

  module _ (xs : List Line) (gc : Move env) where
    -- The step goes from `v` to `w`, and only reads.
    abbrev pub Steps : Vcs → Vcs → Type 0
    Steps v w =
        (e : Ed env) → IsReady e → rows e ≡ xs → ((gc v e).0 ≡ (false, w)) × ReadOnly e (gc v e).1

    module _ (startc matchc : ℕ) where
      -- With `m` turns, the loop finds what closes the brackets in the characters that are ahead.
      abbrev pub Hunts : Vcs → List Cell → ℕ → Type 0
      Hunts v cs m =
          (n k : ℕ) (e : Ed env)
          → IsReady e
          → rows e ≡ xs
          → n ≢ 0
          → m ≤ k
          → Ends xs (closing startc matchc n cs) e (match_loop k gc startc matchc n v e)

      pub Hunts-more : (v : Vcs) (cs : List Cell) (m k : ℕ) → m ≤ k → Hunts v cs m → Hunts v cs k
      Hunts-more v cs m k le h n j e ready same nz more = h n j e ready same nz (omega arith)

      match_turn :
          (k n : ℕ) (v w : Vcs) (e : Ed env)
          → (gc v e).0 ≡ (false, w)
          → match_loop (suc k) gc startc matchc n v e ≡ (
              if is_last (count_match startc matchc w.cs_flags w.cs_ch n) w.cs_flags
              then some ((false, count_match startc matchc w.cs_flags w.cs_ch n, w), (gc v e).1)
              else match_loop k gc startc matchc
                  (count_match startc matchc w.cs_flags w.cs_ch n)
                  w
                  (gc v e).1)
      unfolding match_loop
      match_turn k n v w e to = rw (to, match_loop) refl

      -- An end of the text.
      pub Hunts-stop :
          (v w : Vcs) → (w.cs_flags ≡ cs_eof) ⊎ (w.cs_flags ≡ cs_sof) → Steps v w → Hunts v [] 1
      Hunts-stop v w stop step n zero e ready same nz le = absurd (omega arith)
      Hunts-stop v w stop step n (suc k) e ready same nz le =
          let (to, reads) = step e ready same in
          let (count, last) = at_stop startc matchc w.cs_flags stop n w.cs_ch in
          subst (Ends xs none e) (sym (match_turn k n v w e to)) (
            rw (count, last)
              (record { state = _; result = refl; fine = refl; reads = reads; tells = nz }))

      -- An end of a line, or a line of blanks.
      pub Hunts-skip :
          (v w : Vcs) (cs : List Cell) (m : ℕ)
          → (w.cs_flags ≡ cs_eol) ⊎ (w.cs_flags ≡ cs_emp)
          → Steps v w
          → Hunts w cs m
          → Hunts v cs (suc m)
      Hunts-skip v w cs m skip step h n zero e ready same nz le = absurd (omega arith)
      Hunts-skip v w cs m skip step h n (suc k) e ready same nz le =
          let (to, reads) = step e ready same in
          let (count, last) = at_skip startc matchc w.cs_flags skip n w.cs_ch in
          subst (Ends xs (closing startc matchc n cs) e) (sym (match_turn k n v w e to)) (
            rw (count, last)
              (Ends-chain reads (
                h n k (gc v e).1 (IsReady-of_ReadOnly reads ready)
                  (ap env.file.rows reads.db ∙ same) nz (omega arith))))

      -- A character.
      pub Hunts-char :
          (v w : Vcs) (cs : List Cell) (l : Line) (m : ℕ)
          → w.cs_flags ≡ in_line
          → record_at xs w.cs_lno ≡ some l
          → Steps v w
          → Hunts w cs m
          → Hunts v ((w.cs_ch, place w) ∷ cs) (suc m)
      Hunts-char v w cs l m flag there step h n zero e ready same nz le = absurd (omega arith)
      Hunts-char v w cs l m flag there step h n (suc k) e ready same nz le =
          let (to, reads) = step e ready same in
          let ch = w.cs_ch in
          let on : (j : ℕ)
              → j ≢ 0
              → Ends xs (closing startc matchc j cs) e
                  (match_loop k gc startc matchc j w (gc v e).1) =
            λ j jz. Ends-chain reads (
              h j k (gc v e).1 (IsReady-of_ReadOnly reads ready) (ap env.file.rows reads.db ∙ same)
                jz (omega arith)) in
          let P : Option Mark → (ℕ × Bool) → Type 0 = λ o c. Ends xs o e (
            if c.1
            then some ((false, c.0, w), (gc v e).1)
            else match_loop k gc startc matchc c.0 w (gc v e).1) in
          let (count, last) = at_char w.cs_flags flag ch in
          subst (Ends xs (closing startc matchc n ((ch, place w) ∷ cs)) e)
            (sym (match_turn k n v w e to))
            (rw (count n, last _)
              (elim (Bool-cases (ch == startc)) [
                | inl opens ↦
                    let z : (suc n == 0) ≡ false = ground arith in
                    rw (opens, z) (on (suc n) (λ q. omega (arith, q)))
                | inr deeper ↦ elim (Bool-cases (ch == matchc)) [
                  | inl closes ↦ elim (Bool-cases (n == 1)) [
                    | inl one ↦
                        let z : (n - 1 == 0) ≡ true = ground arith in
                        rw (deeper, closes, one, z)
                          (record {
                            state = _;
                            result = refl;
                            fine = refl;
                            reads = reads;
                            tells = (ground arith, (refl, (l, there)));
                          })
                    | inr more ↦
                        let z : (n - 1 == 0) ≡ false = ground arith in
                        rw (deeper, closes, more, z) (on (n - 1) (λ q. ground (arith, nz)))
                  ]
                  | inr other ↦
                      let z : (n == 0) ≡ false = ground (arith, nz) in
                      rw (deeper, other, z) (on n nz)
                ]
              ]))
        where
          at_char :
              (f : CsFlags)
              → f ≡ in_line
              → (ch : ℕ)
              → ((n : ℕ)
                  → count_match startc matchc f ch n
                    ≡ (if ch == startc then suc n else if ch == matchc then n - 1 else n))
                × ((j : ℕ) → is_last j f ≡ (j == 0))
          at_char in_line z ch = (λ n. refl, λ j. refl)
          at_char cs_emp z ch = absurd (cc z)
          at_char cs_eof z ch = absurd (cc z)
          at_char cs_eol z ch = absurd (cc z)
          at_char cs_sof z ch = absurd (cc z)
