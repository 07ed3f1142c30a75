-- ===== src/Roll/Forth.antt =====
-- Rolling the log forward over a change makes it again.
use open_vi.Common.{
  ℕ, zero, suc, ◌+◌, ◌≤◌, Bool, true, false, ◌||◌, ◌≡◌, refl, sym, ap, ◌∙◌, Option, none, some,
  List, [], ◌∷◌, arith, length, record_at, record_at_bounds, ◌-◌,
}
use mathlib.Core.Path.{subst}
use open_vi.Recno.{Reliable, found}
use open_vi.State.{
  Line, Mark, LogRec, cursor_end, line_append, line_delete, line_insert, line_reset_f, line_reset_b,
  Env, Ed, rows,
}
use open_vi.Log.Trail.{Stacked}
use open_vi.Edit.{Services}
use open_vi.Roll.{sets_forward, ends_forward, forward_record, forward_loop}
use open_vi.Roll.History.{Step, append, insert, delete, reset, mark, flatten, History}
use open_vi.Roll.Quiet.{Paints}
use open_vi.Roll.Turn.{
  Rolling, Turned, Rolling-by, forward_append, forward_insert, forward_delete, forward_reset,
  forward_passes, forward_mark,
}
use open_vi.Roll.Back.{get-found, or_true}

-- A log rolled forward to the record that ends a change: the lines are `ys`, logging is on, the
-- next record is `next`.
pub record Redone {env : Env} (next : ℕ) (m : Mark) (ys : List Line) (r : Option Mark × Ed env)
    : Type 0 where
  pub cursor : r.0 ≡ some m
  pub lines : rows r.1 ≡ ys
  pub logging : r.1.nolog ≡ false
  pub cur : r.1.l_cur ≡ next

-- The top of the log stands above its start by the records between.
pub Stacked-height :
    (es : List LogRec) (c : ℕ) (s : List LogRec) (c0 : ℕ) (m : Mark)
    → Stacked es c s c0 m
    → (c ≡ suc (c0 + length s)) × (1 ≤ c0)
Stacked-height es zero s c0 m h = absurd h
Stacked-height es (suc c) [] c0 m (p, at) =
    (omega arith, omega (arith, (record_at_bounds es c at).0))
Stacked-height es (suc c) (r ∷ s) c0 m (at, h) =
    let (p, q) = Stacked-height es c s c0 m h in (omega arith, q)

module _ {env : Env} (s : Services env) (paint : Paints s) (fok : Reliable env.file)
    (lok : Reliable env.logs) (d0 : env.logs.Db) (h0 c0 : ℕ) (m : Mark) (base : List Line) where
  abbrev at_cur : ℕ → Ed env → Ed env
  at_cur c e = record e { l_cur = c }

  abbrev Holds : ℕ → LogRec → Type 0
  Holds c r = record_at (env.logs.rows d0) c ≡ some r

  get-Rolling :
      (c : ℕ) (r : LogRec) {ys : List Line} (e : Ed env)
      → Rolling d0 h0 ys e
      → Holds c r
      → env.logs.get e.log c ≡ found r
  get-Rolling c r e h at =
      get-found lok e.log c r (subst (λ d. record_at (env.logs.rows d) c ≡ some r) (sym h.log) at)

  -- One turn of the loop, over a record that does not end it.
  forward_step :
      (left c : ℕ) (didop : Bool) (r : LogRec) (ys : List Line) (e : Ed env)
      → Rolling d0 h0 ys e
      → Holds (suc c) r
      → ends_forward r ≡ none
      → (forward_record s r (at_cur (suc c) e)).0 ≡ false
      → forward_loop s (suc left) c didop e
        ≡ forward_loop s left
            (suc c)
            (didop || sets_forward r)
            (forward_record s r (at_cur (suc c) e)).1
  unfolding forward_loop
  forward_step left c didop r ys e h at go fine =
      rw (get-Rolling (suc c) r e h at, forward_loop) (rw (go, forward_loop) (rw fine))

  pub forward_end :
      (left c : ℕ) (k : Mark) (ys : List Line) (e : Ed env)
      → Rolling d0 h0 ys e
      → Holds (suc c) (cursor_end k)
      → Redone (suc (suc c)) k ys (forward_loop s (suc left) c true e)
  unfolding forward_loop
  forward_end left c k ys e h at =
      rw (get-Rolling (suc c) (cursor_end k) e h at, forward_loop)
        (record { cursor = refl; lines = h.lines; logging = refl; cur = refl })

  -- From the start of the change at `e`, the loop comes to record `c` with the lines `ys`.
  pub record Reached (e : Ed env) (used c : ℕ) (moved : Bool) (ys : List Line) : Type 0 where
    pub state : Ed env
    pub rolling : Rolling d0 h0 ys state
    pub path :
        (left : ℕ) → forward_loop s (used + left) c0 false e ≡ forward_loop s left c moved state

  reach_on :
      (e : Ed env) (used c : ℕ) (moved : Bool) (ys zs : List Line) (r : LogRec)
      → Holds (suc c) r
      → ends_forward r ≡ none
      → ((f : Ed env) → Rolling d0 h0 ys f → Turned d0 h0 (forward_record s r f) zs)
      → Reached e used c moved ys
      → Reached e (suc used) (suc c) (moved || sets_forward r) zs
  reach_on e used c moved ys zs r at go turn g =
      let h = Rolling-by d0 h0 {f = at_cur (suc c) (g.state)} refl refl refl refl refl g.rolling in
      let t = turn (at_cur (suc c) (g.state)) h in
      record {
        state = (forward_record s r (at_cur (suc c) (g.state))).1;
        rolling = t.1;
        path = λ left.
            ap (λ k. forward_loop s k c0 false e) (omega arith)
            ∙ g.path (suc left)
            ∙ forward_step left c moved r ys (g.state) g.rolling at go t.0;
      }

  abbrev moved_by : List Step → Bool
  moved_by [] = false
  moved_by (st ∷ ss) = true

  as_moved :
      {e : Ed env} {used c : ℕ} {ys : List Line} (b : Bool)
      → Reached e used c (b || true) ys
      → Reached e used c true ys
  as_moved {e} {used} {c} {ys} b h = subst (λ d. Reached e used c d ys) (or_true b) h

  reach :
      (ss : List Step) (c : ℕ) (ys : List Line) (e : Ed env)
      → Rolling d0 h0 base e
      → Stacked (env.logs.rows d0) (suc c) (flatten ss) c0 m
      → History ss base ys
      → Reached e (length (flatten ss)) c (moved_by ss) ys
  reach [] c ys e h (p, at) q = record {
    state = e;
    rolling = rw q h;
    path = λ left. rw p (ap (λ k. forward_loop s k c0 false e) (omega arith));
  }
  reach (append n p ∷ ss) (suc c) ys e h (at, st) (xs, hist, (a, b, q)) = as_moved (moved_by ss) (
      reach_on e _ c (moved_by ss) xs ys (line_append n p) at refl
        (λ f g. rw q (forward_append d0 h0 s paint fok n p xs f g a b)) (reach ss c xs e h st hist))
  reach (insert n p ∷ ss) (suc c) ys e h (at, st) (xs, hist, (a, b, q)) = as_moved (moved_by ss) (
      reach_on e _ c (moved_by ss) xs ys (line_insert n p) at refl
        (λ f g. rw q (forward_insert d0 h0 s paint fok n p xs f g a b)) (reach ss c xs e h st hist))
  reach (delete n p ∷ ss) (suc c) ys e h (at, st) (xs, hist, (there, q)) =
      let (a, b) = record_at_bounds xs n there in
      as_moved (moved_by ss) (
        reach_on e _ c (moved_by ss) xs ys (line_delete n p) at refl
          (λ f g. rw q (forward_delete d0 h0 s paint fok n p xs f g a b))
          (reach ss c xs e h st hist))
  reach (mark k ∷ ss) (suc c) ys e h (at, st) (xs, hist, q) = as_moved (moved_by ss) (
      reach_on e _ c (moved_by ss) xs ys (LogRec.mark k) at refl
        (λ f g. rw q (forward_mark d0 h0 s paint fok k xs f g)) (reach ss c xs e h st hist))
  reach (reset n old new ∷ ss) (suc (suc c)) ys e h (atf, (atb, st)) (xs, hist, (there, q)) =
      let (a, b) = record_at_bounds xs n there in
      as_moved (moved_by ss || false) (
        reach_on e _ (suc c) (moved_by ss || false) xs ys (line_reset_f n new) atf refl
          (λ f g. rw q (forward_reset d0 h0 s paint fok n new xs f g a (omega arith)))
          (reach_on e _ c (moved_by ss) xs xs (line_reset_b n old) atb refl
            (λ f g. forward_passes d0 h0 s paint fok n old xs f g) (reach ss c xs e h st hist)))
  reach (append n p ∷ ss) zero ys e h (at, st) q = absurd st
  reach (insert n p ∷ ss) zero ys e h (at, st) q = absurd st
  reach (delete n p ∷ ss) zero ys e h (at, st) q = absurd st
  reach (mark k ∷ ss) zero ys e h (at, st) q = absurd st
  reach (reset n o w ∷ ss) zero ys e h (at, st) q = absurd st
  reach (reset n o w ∷ ss) (suc zero) ys e h (at, st) q = absurd st.1

  -- With a round for each record up to the end of the change, the loop gets there.
  pub forth :
      (top : ℕ) (k : Mark) (st : Step) (ss : List Step) (ys : List Line) (e : Ed env)
      → Rolling d0 h0 base e
      → Stacked (env.logs.rows d0) top (cursor_end k ∷ flatten (st ∷ ss)) c0 m
      → History (st ∷ ss) base ys
      → (fuel : ℕ) → top ≤ suc (c0 + fuel)
      → Redone top k ys (forward_loop s fuel c0 false e)
  forth zero k st ss ys e h w q fuel b = absurd w
  forth (suc zero) k st ss ys e h (at, w) q fuel b = cc
  forth (suc (suc c)) k st ss ys e h (at, w) q fuel b =
      let (height, pos) = Stacked-height (env.logs.rows d0) (suc c) (flatten (st ∷ ss)) c0 m w in
      let used = length (flatten (st ∷ ss)) in
      let g = reach (st ∷ ss) c ys e h w q in
      let left = fuel - used - 1 in
      let split : used + suc left ≡ fuel = omega arith in
      rw (← split) (rw (g.path (suc left)) (forward_end left c k ys (g.state) g.rolling at))
