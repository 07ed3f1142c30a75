-- ===== src/Cut/Passes.antt =====
-- The turns of the loop of `cut`, and the buffers that they fill (common/cut.c).
use open_vi.Common.{
  ℕ, ◌+◌, Bool, true, false, ◌||◌, ◌≡◌, refl, ap, ◌∙◌, Option, none, some, List, [], ◌∷◌, ◌++◌,
  arith, if◌then◌else◌, if_intro, Bool-cases, inl, inr,
}
use open_vi.State.{Line, Mark, Env, Ed, rows}
use open_vi.Line.Reads.{ReadOnly, ReadOnly-trans}
use open_vi.Line.Refine.{IsReady}
use open_vi.Delete.Loop.{IsReady-of_ReadOnly}
use open_vi.Cut.{
  Cb, Where, store, named, Cuts, CutFlags, find_cb, set_cb, empty_cb, clear_cb, cb_at, cb_store,
  cb_open, is_upper, to_lower, cb_rotate, cut_text, cut_pass, cut_twice, is_numbered, cut_into,
}
use open_vi.Cut.Lines.{CutsText}
use open_vi.Cut.Names.{find_cb-name, find_cb-set_cb}

-- The lines in the buffer that the turn starts with.
abbrev pub old_text : Bool → Option Cb → List Line
old_text true (some b) = b.textq
old_text _ _ = []

abbrev pub old_mode : Bool → Option Cb → Bool
old_mode true (some b) = b.lmode
old_mode _ _ = false

abbrev pub old_stray : Bool → Option Cb → Bool
old_stray true (some b) = b.stray
old_stray _ _ = false

cb_open-textq :
    (w : Where) (append : Bool) (c : Cuts)
    → (cb_open w append c).0.textq ≡ old_text append (cb_at w c)
unfolding cb_open
cb_open-textq store true c = refl
cb_open-textq store false c = refl
cb_open-textq (named n) append c = go (find_cb n c.cutq)
  where
    go :
        (o : Option Cb)
        → (elim o as (λ _. Cb × Cuts) [
          | none ↦ (empty_cb n, record c { cutq = empty_cb n ∷ c.cutq })
          | some b ↦ ((if append then b else clear_cb b), c)
        ]).0.textq
          ≡ old_text append o
    go none = ground arith
    go (some b) = ground arith

cb_open-lmode :
    (w : Where) (append : Bool) (c : Cuts)
    → (cb_open w append c).0.lmode ≡ old_mode append (cb_at w c)
unfolding cb_open
cb_open-lmode store true c = refl
cb_open-lmode store false c = refl
cb_open-lmode (named n) append c = go (find_cb n c.cutq)
  where
    go :
        (o : Option Cb)
        → (elim o as (λ _. Cb × Cuts) [
          | none ↦ (empty_cb n, record c { cutq = empty_cb n ∷ c.cutq })
          | some b ↦ ((if append then b else clear_cb b), c)
        ]).0.lmode
          ≡ old_mode append o
    go none = ground arith
    go (some b) = ground arith

cb_open-stray :
    (w : Where) (append : Bool) (c : Cuts)
    → (cb_open w append c).0.stray ≡ old_stray append (cb_at w c)
unfolding cb_open
cb_open-stray store true c = refl
cb_open-stray store false c = refl
cb_open-stray (named n) append c = go (find_cb n c.cutq)
  where
    go :
        (o : Option Cb)
        → (elim o as (λ _. Cb × Cuts) [
          | none ↦ (empty_cb n, record c { cutq = empty_cb n ∷ c.cutq })
          | some b ↦ ((if append then b else clear_cb b), c)
        ]).0.stray
          ≡ old_stray append o
    go none = ground arith
    go (some b) = ground arith

-- The buffer of the turn is there from its start on, and has its name.
pub cb_open-there :
    (w : Where) (append : Bool) (c : Cuts) (v : Cb)
    → v.name ≡ (cb_open w append c).0.name
    → cb_at w (cb_store w v (cb_open w append c).1) ≡ some v
unfolding cb_open
cb_open-there store append c v h = refl
cb_open-there (named n) append c v h = go (find_cb n c.cutq) refl h
  where
    go :
        (o : Option Cb)
        → find_cb n c.cutq ≡ o
        → v.name
          ≡ (elim o as (λ _. Cb × Cuts) [
            | none ↦ (empty_cb n, record c { cutq = empty_cb n ∷ c.cutq })
            | some b ↦ ((if append then b else clear_cb b), c)
          ]).0.name
        → find_cb n (
            set_cb n v
              (elim o as (λ _. Cb × Cuts) [
                | none ↦ (empty_cb n, record c { cutq = empty_cb n ∷ c.cutq })
                | some b ↦ ((if append then b else clear_cb b), c)
              ]).1.cutq)
          ≡ some v
    go none q k = ground arith
    go (some b) q k =
        let same : v.name ≡ n = ground (arith, find_cb-name n c.cutq b q) in
        find_cb-set_cb n n v c.cutq same (λ z. cc (q, z)) ∙ ground arith

cb_store-pointer :
    (w : Where) (v : Cb) (c : Cuts) (p : Option Where) (u : Where)
    → cb_at u (record (cb_store w v c) { dcbp = p }) ≡ cb_at u (cb_store w v c)
cb_store-pointer store v c p store = refl
cb_store-pointer store v c p (named n) = refl
cb_store-pointer (named m) v c p store = refl
cb_store-pointer (named m) v c p (named n) = refl

-- The buffer of the turn holds the lines `ts` behind its old ones, and is the default buffer.
pub record Filled (linemode : Bool) (w : Where) (old : List Line) (mode out : Bool) (ts : List Line)
    (c : Cuts) : Type 0 where
  pub pointer : c.dcbp ≡ some w
  pub buffer : Cb
  pub there : cb_at w c ≡ some buffer
  pub textq : buffer.textq ≡ old ++ ts
  pub lmode : buffer.lmode ≡ (linemode || mode)
  pub stray : buffer.stray ≡ out

-- A cut that succeeds and only reads: the default buffer is `w`, and holds the lines `ts` and no more,
-- copied from within their lines and marked as cut in line mode or not.
pub record Done {env : Env} (linemode : Bool) (ts : List Line) (w : Where) (e : Ed env)
    (r : Bool × Cuts × Ed env) : Type 0 where
  pub fine : r.0 ≡ false
  pub reads : ReadOnly e r.2
  pub filled : Filled linemode w [] false false ts r.1

-- The buffer that becomes the default buffer.
abbrev pub target : Option ℕ → Mark → Mark → CutFlags → Where
target none fm tm f = if is_numbered fm tm f then named b'1' else store
target (some n) fm tm f =
    if is_numbered fm tm f
    then named (to_lower n)
    else if is_upper n
    then store
    else named (to_lower n)

module _ {env : Env} (linemode : Bool) (fm tm : Mark) (xs ts : List Line)
    (works : (b : Cb) (e : Ed env)
      → IsReady e
      → rows e ≡ xs
      → CutsText linemode b e (cut_text linemode fm tm b e) ts) where
  -- A turn that succeeds and only reads.
  pub record Turned (w : Where) (append : Bool) (c : Cuts) (e : Ed env) (r : Bool × Cuts × Ed env)
      : Type 0 where
    pub fine : r.0 ≡ false
    pub reads : ReadOnly e r.2
    pub filled :
        Filled linemode w
          (old_text append (cb_at w c))
          (old_mode append (cb_at w c))
          (old_stray append (cb_at w c))
          ts
          r.1

  cut_pass-Turned :
      (w : Where) (append : Bool) (c : Cuts) (e : Ed env)
      → IsReady e
      → rows e ≡ xs
      → Turned w append c e (cut_pass linemode fm tm w append c e)
  unfolding cut_pass
  cut_pass-Turned w append c e ready same =
      let b = (cb_open w append c).0 in
      let c1 = (cb_open w append c).1 in
      let r = cut_text linemode fm tm b e in
      let x = works b e ready same in
      if_intro (Turned w append c e) r.0.0 _ _ (λ bad. cc (x.fine))
        (λ _. record {
          fine = refl;
          reads = x.reads;
          filled = record {
            pointer = refl;
            buffer = r.0.1;
            there = cb_store-pointer w r.0.1 c1 (some w) w ∙ cb_open-there w append c r.0.1 x.name;
            textq = x.text ∙ ap (λ ys. ys ++ ts) (cb_open-textq w append c);
            lmode = x.mode ∙ ap (λ m. linemode || m) (cb_open-lmode w append c);
            stray = x.stray ∙ cb_open-stray w append c;
          };
        })

  cut_twice-again :
      (w : Where) (append : Bool) (w2 : Where) (c : Cuts) (e : Ed env)
      → IsReady e
      → rows e ≡ xs
      → Done linemode ts w2 e (cut_twice linemode fm tm w append (some w2) c e)
  unfolding cut_twice
  cut_twice-again w append w2 c e ready same =
      let x = cut_pass-Turned w append c e ready same in
      let r = cut_pass linemode fm tm w append c e in
      let y =
        cut_pass-Turned w2 false r.1 r.2 (IsReady-of_ReadOnly x.reads ready)
          (ap env.file.rows x.reads.db ∙ same) in
      rw (x.fine)
        (record { fine = y.fine; reads = ReadOnly-trans x.reads y.reads; filled = y.filled })

  cut_twice-once :
      (w : Where) (c : Cuts) (e : Ed env)
      → IsReady e
      → rows e ≡ xs
      → Done linemode ts w e (cut_twice linemode fm tm w false none c e)
  unfolding cut_twice
  cut_twice-once w c e ready same =
      let x = cut_pass-Turned w false c e ready same in
      rw (x.fine) (record { fine = refl; reads = x.reads; filled = x.filled })

  pub cut_into-Done :
      (name : Option ℕ) (f : CutFlags) (c : Cuts) (e : Ed env)
      → f.linemode ≡ linemode
      → IsReady e
      → rows e ≡ xs
      → Done linemode ts (target name fm tm f) e (cut_into name fm tm f c e)
  unfolding cut_into
  cut_into-Done none f c e m ready same = elim (Bool-cases (is_numbered fm tm f)) [
    | inl one ↦ rw (one, m) (cut_twice-once (named b'1') (cb_rotate c) e ready same)
    | inr more ↦ rw (more, m) (cut_twice-once store c e ready same)
  ]
  cut_into-Done (some n) f c e m ready same = elim (Bool-cases (is_numbered fm tm f)) [
    | inl one ↦
        rw (one, m)
          (cut_twice-again (named (to_lower n)) (is_upper n) (named (to_lower n)) (cb_rotate c) e
            ready same)
    | inr more ↦ elim (Bool-cases (is_upper n)) [
      | inl up ↦ rw (more, m, up) (cut_twice-again (named (n + 32)) true store c e ready same)
      | inr low ↦ rw (more, m, low) (cut_twice-once (named n) c e ready same)
    ]
  ]
