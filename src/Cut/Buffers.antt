-- ===== src/Cut/Buffers.antt =====
-- The named buffers over a whole `cut` (common/cut.c).
use open_vi.Common.{
  ℕ, zero, suc, ◌-◌, Bool, true, false, ◌≡◌, ◌≢◌, refl, ◌∙◌, Option, none, some, List, [], ◌∷◌,
  arith, ◌==◌, if◌then◌else◌, if_intro,
}
use open_vi.State.{Line, Mark, Env, Ed}
use open_vi.Line.{db_get}
use open_vi.Delete.{size_max, next}
use open_vi.Cut.{
  size_sub, strays, Cb, named, Cuts, find_cb, set_cb, empty_cb, clear_cb, cb_open, portion,
  add_text, cut_line, cut_lines, cut_end, cut_text, cut_pass, cut_twice,
}
use open_vi.Cut.Names.{find_cb-name}

module _ {env : Env} where
  -- The buffer keeps its name, whether the lines can be read or not.
  abbrev pub Keeps : Cb → (Bool × Cb) × Ed env → Type 0
  Keeps b r = r.0.1.name ≡ b.name

  cut_line-Keeps : (n f k : ℕ) (b : Cb) (e : Ed env) → Keeps b (cut_line n f k b e)
  unfolding cut_line
  cut_line-Keeps n f k b e = go (db_get true false n e).0
    where
      go :
          (o : Option Line)
          → (elim o as (λ _. (Bool × Cb) × Ed env) [
            | none ↦ ((true, b), (db_get true false n e).1)
            | some l ↦
                ((false, add_text (portion f k l) (strays f k l) b), (db_get true false n e).1)
          ]).0.1.name
            ≡ b.name
      go none = refl
      go (some l) = refl

  cut_lines-Keeps : (k n : ℕ) (b : Cb) (e : Ed env) → Keeps b (cut_lines k n b e)
  unfolding cut_lines
  cut_lines-Keeps zero n b e = refl
  cut_lines-Keeps (suc k) n b e =
      let r = cut_line n 0 size_max b e in
      let h = cut_line-Keeps n 0 size_max b e in
      if_intro (Keeps b) r.0.0 _ _ (λ _. h) (λ _. cut_lines-Keeps k (suc n) r.0.1 r.1 ∙ h)

  cut_end-Keeps : (fm tm : Mark) (b : Cb) (e : Ed env) → Keeps b (cut_end fm tm b e)
  unfolding cut_end
  cut_end-Keeps fm tm b e =
      if_intro (Keeps b) (tm.lno == fm.lno) _ _ (λ _. refl)
        (λ _. cut_line-Keeps _ 0 (next tm.cno) b e)

  pub cut_text-Keeps :
      (m : Bool) (fm tm : Mark) (b : Cb) (e : Ed env) → Keeps b (cut_text m fm tm b e)
  unfolding cut_text
  cut_text-Keeps true fm tm b e = cut_lines-Keeps _ fm.lno (record b { lmode = true }) e
  cut_text-Keeps false fm tm b e =
      let clen = if tm.lno == fm.lno then next (size_sub tm.cno fm.cno) else size_max in
      let r1 = cut_line fm.lno fm.cno clen b e in
      let r2 = cut_lines (tm.lno - suc fm.lno) (suc fm.lno) r1.0.1 r1.1 in
      let h1 = cut_line-Keeps fm.lno fm.cno clen b e in
      let h2 = cut_lines-Keeps (tm.lno - suc fm.lno) (suc fm.lno) r1.0.1 r1.1 in
      if_intro (Keeps b) r1.0.0 _ _ (λ _. h1)
        λ _.
          if_intro (Keeps b) r2.0.0 _ _ (λ _. h2 ∙ h1)
            (λ _. cut_end-Keeps fm tm r2.0.1 r2.1 ∙ h2 ∙ h1)

find_cb-set_cb_ne :
    (n k : ℕ) (v : Cb) (bs : List Cb)
    → v.name ≡ n
    → k ≢ n
    → find_cb k (set_cb n v bs) ≡ find_cb k bs
find_cb-set_cb_ne n k v [] h d = refl
find_cb-set_cb_ne n k v (b ∷ bs) h d = ground (arith, find_cb-set_cb_ne n k v bs h d)

cb_open-other :
    (n k : ℕ) (append : Bool) (c : Cuts) (v : Cb)
    → k ≢ n
    → v.name ≡ (cb_open (named n) append c).0.name
    → find_cb k (set_cb n v (cb_open (named n) append c).1.cutq) ≡ find_cb k c.cutq
unfolding cb_open
cb_open-other n k append c v d h = go (find_cb n c.cutq) refl h
  where
    go :
        (o : Option Cb)
        → find_cb n c.cutq ≡ o
        → v.name
          ≡ (elim o as (λ _. Cb × Cuts) [
            | none ↦ (empty_cb n, record c { cutq = empty_cb n ∷ c.cutq })
            | some b ↦ ((if append then b else clear_cb b), c)
          ]).0.name
        → find_cb k (
            set_cb n v
              (elim o as (λ _. Cb × Cuts) [
                | none ↦ (empty_cb n, record c { cutq = empty_cb n ∷ c.cutq })
                | some b ↦ ((if append then b else clear_cb b), c)
              ]).1.cutq)
          ≡ find_cb k c.cutq
    go none q e = ground (arith, find_cb-set_cb_ne n k v (empty_cb n ∷ c.cutq) e d)
    go (some b) q e = find_cb-set_cb_ne n k v c.cutq (ground (arith, find_cb-name n c.cutq b q)) d

module _ {env : Env} where
  cut_pass-other :
      (m : Bool) (fm tm : Mark) (n k : ℕ) (append : Bool) (c : Cuts) (e : Ed env)
      → k ≢ n
      → find_cb k (cut_pass m fm tm (named n) append c e).1.cutq ≡ find_cb k c.cutq
  unfolding cut_pass
  cut_pass-other m fm tm n k append c e d =
      let b = (cb_open (named n) append c).0 in
      let r = cut_text m fm tm b e in
      let h = cut_text-Keeps m fm tm b e in
      if_intro (λ (x : Bool × Cuts × Ed env). find_cb k x.1.cutq ≡ find_cb k c.cutq) r.0.0 _ _
        (λ _. cb_open-other n k append c (clear_cb r.0.1) d h)
        (λ _. cb_open-other n k append c r.0.1 d h)

  pub cut_twice-other :
      (m : Bool) (fm tm : Mark) (n k : ℕ) (append : Bool) (c : Cuts) (e : Ed env)
      → k ≢ n
      → find_cb k (cut_twice m fm tm (named n) append (some (named n)) c e).1.cutq
        ≡ find_cb k c.cutq
  unfolding cut_twice
  cut_twice-other m fm tm n k append c e d =
      let r = cut_pass m fm tm (named n) append c e in
      let p = cut_pass-other m fm tm n k append c e d in
      if_intro (λ (x : Bool × Cuts × Ed env). find_cb k x.1.cutq ≡ find_cb k c.cutq) r.0 _ _
        (λ _. p) (λ _. cut_pass-other m fm tm n k false r.1 r.2 d ∙ p)
