-- ===== src/Cut/Lines.antt =====
-- What the loops of `cut` put into one buffer.
use open_vi.Common.{
  ℕ, zero, suc, ◌+◌, ◌-◌, ◌≤◌, ◌<◌, Bool, true, false, ◌||◌, ◌≡◌, ◌⊎◌, refl, sym, ap, ◌∙◌, some,
  List, [], ◌∷◌, ◌++◌, arith, length, take, drop, record_at, ltb, ◌==◌, if◌then◌else◌, if_intro,
  append_nil, record_at_there, Bool-cases, inl, inr,
}
use mathlib.Core.Path.{subst}
use mathlib.Core.List.{append_assoc}
use open_vi.Recno.{Reliable}
use open_vi.State.{Line, Env, Ed, rows}
use open_vi.Line.Reads.{ReadOnly, ReadOnly-refl, ReadOnly-trans, db_get-Reads}
use open_vi.Line.Refine.{IsReady, db_get-row}
use open_vi.Delete.Loop.{at, IsReady-of_ReadOnly}
use open_vi.Delete.{size_max, next}
use open_vi.Cut.Portion.{Copies, Copies-to_end, Copies-start}
use open_vi.Cut.Area.{region, region_of, first_part}
use open_vi.Cut.{size_sub, Cb, cut_line, cut_lines, cut_end, cut_text}

abbrev pub total : List Line → ℕ
total [] = 0
total (t ∷ ts) = length t + total ts

total-append : (xs ys : List Line) → total (xs ++ ys) ≡ total xs + total ys
total-append [] ys = omega arith
total-append (x ∷ xs) ys = omega (arith, total-append xs ys)

take_one :
    (xs : List Line) (i k : ℕ) (l : Line)
    → record_at xs (suc i) ≡ some l
    → l ∷ take k (drop (suc i) xs) ≡ take (suc k) (drop i xs)
take_one [] i k l h = cc
take_one (x ∷ xs) zero k l h = let same : x ≡ l = cc h in ap (λ t. t ∷ take k xs) (sym same)
take_one (x ∷ xs) (suc i) k l h = take_one xs i k l h

module _ {env : Env} where
  -- A call that succeeds, only reads, and puts the lines `ts` behind those of the buffer `b`.
  pub record Adds (b : Cb) (e : Ed env) (r : (Bool × Cb) × Ed env) (ts : List Line) : Type 0 where
    pub fine : r.0.0 ≡ false
    pub name : r.0.1.name ≡ b.name
    pub lmode : r.0.1.lmode ≡ b.lmode
    pub stray : r.0.1.stray ≡ b.stray
    pub text : r.0.1.textq ≡ b.textq ++ ts
    pub len : r.0.1.len ≡ b.len + total ts
    pub reads : ReadOnly e r.1

  Adds-none : (b : Cb) (e : Ed env) → Adds b e ((false, b), e) []
  Adds-none b e = record {
    fine = refl;
    name = refl;
    lmode = refl;
    stray = refl;
    text = sym (append_nil b.textq);
    len = omega arith;
    reads = ReadOnly-refl e;
  }

  Adds-trans :
      (b : Cb) (e : Ed env) (r q : (Bool × Cb) × Ed env) (ts us : List Line)
      → Adds b e r ts
      → Adds r.0.1 r.1 q us
      → Adds b e q (ts ++ us)
  Adds-trans b e r q ts us x y = record {
    fine = y.fine;
    name = y.name ∙ x.name;
    lmode = y.lmode ∙ x.lmode;
    stray = y.stray ∙ x.stray;
    text = y.text ∙ ap (λ z. z ++ us) x.text ∙ append_assoc b.textq ts us;
    len = omega (arith, y.len, x.len, total-append ts us);
    reads = ReadOnly-trans x.reads y.reads;
  }

  module _ (ok : Reliable env.file) (xs : List Line) where
    pub cut_line-Adds :
        (i fcno clen : ℕ) (l t : Line) (b : Cb) (e : Ed env)
        → IsReady e
        → rows e ≡ xs
        → record_at xs (suc i) ≡ some l
        → Copies fcno clen l t
        → Adds b e (cut_line (suc i) fcno clen b e) (t ∷ [])
    unfolding cut_line
    cut_line-Adds i fcno clen l t b e ready same there copy =
        let got =
          db_get-row ok true false (suc i) e ready ∙ ap (λ ys. record_at ys (suc i)) same ∙ there in
        rw (got, cut_line)
          (record {
            fine = refl;
            name = refl;
            lmode = refl;
            stray = ap (λ o. b.stray || o) copy.inside ∙ ground arith;
            text = ap (λ u. b.textq ++ (u ∷ [])) copy.bytes;
            len = omega (arith, ap length copy.bytes);
            reads = db_get-Reads true false (suc i) e;
          })

    pub cut_lines-Adds :
        (k i : ℕ) (b : Cb) (e : Ed env)
        → IsReady e
        → rows e ≡ xs
        → i + k ≤ length xs
        → Adds b e (cut_lines k (suc i) b e) (take k (drop i xs))
    unfolding cut_lines
    cut_lines-Adds zero i b e ready same le = Adds-none b e
    cut_lines-Adds (suc k) i b e ready same le =
        let (l, there) = record_at_there xs (suc i) (omega arith) (omega arith) in
        let x =
          cut_line-Adds i 0 size_max l l b e ready same there (Copies-to_end 0 l (omega arith)) in
        let r = cut_line (suc i) 0 size_max b e in
        let y =
          cut_lines-Adds k (suc i) r.0.1 r.1 (IsReady-of_ReadOnly x.reads ready)
            (ap env.file.rows x.reads.db ∙ same) (omega arith) in
        rw (x.fine) (
          subst (Adds b e _) (take_one xs i k l there)
            (Adds-trans b e r _ (l ∷ []) (take k (drop (suc i) xs)) x y))

  -- The same of a buffer that is marked in line mode.
  pub record CutsText (m : Bool) (b : Cb) (e : Ed env) (r : (Bool × Cb) × Ed env) (ts : List Line)
      : Type 0 where
    pub fine : r.0.0 ≡ false
    pub name : r.0.1.name ≡ b.name
    pub mode : r.0.1.lmode ≡ (m || b.lmode)
    pub stray : r.0.1.stray ≡ b.stray
    pub text : r.0.1.textq ≡ b.textq ++ ts
    pub len : r.0.1.len ≡ b.len + total ts
    pub reads : ReadOnly e r.1

  in_line_mode :
      (b : Cb) (e : Ed env) (r : (Bool × Cb) × Ed env) (ts : List Line)
      → Adds (record b { lmode = true }) e r ts
      → CutsText true b e r ts
  in_line_mode b e r ts x = record {
    fine = x.fine;
    name = x.name;
    mode = x.lmode;
    stray = x.stray;
    text = x.text;
    len = x.len;
    reads = x.reads;
  }

  in_text_mode :
      (b : Cb) (e : Ed env) (r : (Bool × Cb) × Ed env) (ts : List Line)
      → Adds b e r ts
      → CutsText false b e r ts
  in_text_mode b e r ts x = record {
    fine = x.fine;
    name = x.name;
    mode = x.lmode;
    stray = x.stray;
    text = x.text;
    len = x.len;
    reads = x.reads;
  }

  module _ (ok : Reliable env.file) (xs : List Line) (i a j : ℕ) (le : i ≤ j) where
    -- Lines `i + 1` to `j`.
    pub cut_text-lines :
        (c : ℕ) (b : Cb) (e : Ed env)
        → IsReady e
        → rows e ≡ xs
        → j ≤ length xs
        → CutsText true b e (cut_text true (at (suc i) a) (at j c) b e) (take (j - i) (drop i xs))
    unfolding cut_text
    cut_text-lines c b e ready same fits =
        let count : suc j - suc i ≡ j - i = omega arith in
        in_line_mode b e _ _ (
          subst
            (λ k.
              Adds (record b { lmode = true }) e (cut_lines k (suc i) (record b { lmode = true }) e)
                (take (j - i) (drop i xs)))
            (sym count)
            (cut_lines-Adds ok xs (j - i) i (record b { lmode = true }) e ready same (omega arith)))

  module _ (ok : Reliable env.file) (xs : List Line) (i a j c : ℕ) (l q : Line) (le : i ≤ j)
      (at_l : record_at xs (suc i) ≡ some l) (at_q : record_at xs (suc j) ≡ some q)
      (fits : suc j ≤ length xs) (left : a ≤ length l) (order : i ≡ j → a ≤ suc c)
      (right : (length q ≡ 0) ⊎ (suc c ≤ length q)) (small : length q < size_max) where
    cut_end-Adds :
        (b b2 : Cb) (e e2 : Ed env) (ts : List Line)
        → IsReady e2
        → rows e2 ≡ xs
        → Adds b e ((false, b2), e2) ts
        → Adds b e
            (cut_end (at (suc i) a) (at (suc j) c) b2 e2)
            (if suc j == suc i then ts else ts ++ (take (suc c) q ∷ []))
    unfolding cut_end
    cut_end-Adds b b2 e e2 ts ready same x = elim (Bool-cases (suc j == suc i)) [
      | inl one ↦ rw one x
      | inr more ↦ rw more (
          let n : (if ltb (suc i) (suc j) then suc j else suc (suc i)) ≡ suc j = ground arith in
          rw n (
            Adds-trans b e ((false, b2), e2) _ ts (take (suc c) q ∷ []) x
              (cut_line-Adds ok xs j 0 (next c) q (take (suc c) q) b2 e2 ready same at_q
                (Copies-start c q right small))))
    ]

    pub cut_text-columns :
        (b : Cb) (e : Ed env)
        → IsReady e
        → rows e ≡ xs
        → CutsText false b e
            (cut_text false (at (suc i) a) (at (suc j) c) b e)
            (region xs i a j c l q)
    unfolding cut_text
    cut_text-columns b e ready same =
        let clen = if suc j == suc i then next (size_sub c a) else size_max in
        let t = if j == i then take (suc c - a) (drop a l) else drop a l in
        let k = suc j - suc (suc i) in
        let ts = (t ∷ []) ++ take k (drop (suc i) xs) in
        let r1 = cut_line (suc i) a clen b e in
        let r2 = cut_lines k (suc (suc i)) r1.0.1 r1.1 in
        let x =
          cut_line-Adds ok xs i a clen l t b e ready same at_l
            (first_part xs i a j c l q at_l at_q left order right small) in
        let y =
          cut_lines-Adds ok xs k (suc i) r1.0.1 r1.1 (IsReady-of_ReadOnly x.reads ready)
            (ap env.file.rows x.reads.db ∙ same) (omega arith) in
        let z = Adds-trans b e r1 r2 (t ∷ []) (take k (drop (suc i) xs)) x y in
        let P : (Bool × Cb) × Ed env → Type 0 = λ r. Adds b e r (region xs i a j c l q) in
        in_text_mode b e _ _ (
          if_intro P r1.0.0 _ _ (λ bad. cc (x.fine))
            λ _.
              if_intro P r2.0.0 _ _ (λ bad. cc (y.fine))
                (λ _. subst (Adds b e _) (region_of xs i a j c l q t refl) (
                  cut_end-Adds b r2.0.1 e r2.1 ts (IsReady-of_ReadOnly z.reads ready)
                    (ap env.file.rows z.reads.db ∙ same)
                    (record {
                      fine = refl;
                      name = z.name;
                      lmode = z.lmode;
                      stray = z.stray;
                      text = z.text;
                      len = z.len;
                      reads = z.reads;
                    }))))
