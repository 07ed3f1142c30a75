-- ===== src/Roll/Back.antt =====
-- Rolling the log back over a change undoes it.
use open_vi.Common.{
  ℕ, zero, suc, Bool, true, false, ◌||◌, ◌≡◌, ◌≢◌, refl, sym, ap, ◌∙◌, Option, none, some, List, [],
  ◌∷◌, arith, record_at, insert_record, erase_record, store_record, ◌⊎◌, inl, inr,
  erase_record-insert_record, insert_record-erase_record, store_record-store_record,
  record_at_bounds, length-insert_record, length-erase_record, length-store_record,
}
use mathlib.Core.Path.{subst}
use open_vi.Recno.{Reliable, Recno, found, get-record_at}
use open_vi.State.{
  Line, Mark, LogRec, cursor_init, cursor_end, line_append, line_delete, line_insert, line_reset_f,
  line_reset_b, Env, Ed, rows, records,
}
use open_vi.Log.Trail.{Stacked}
use open_vi.Edit.{Services}
use open_vi.Roll.{sets_back, ends_back, back_record, backward_loop}
use open_vi.Roll.History.{Step, append, insert, delete, reset, mark, flatten, History}
use open_vi.Roll.Quiet.{Paints}
use open_vi.Roll.Turn.{
  Rolling, Turned, Rolling-by, back_append, back_insert, back_delete, back_reset, back_passes,
  back_mark,
}

pub get-found :
    {A : Type 0} {r : Recno A} (ok : Reliable r) (d : r.Db) (n : ℕ) (v : A)
    → record_at (r.rows d) n ≡ some v
    → r.get d n ≡ found v
get-found ok d zero v h = cc
get-found ok d (suc i) v h = rw (get-record_at ok d i, h)

module _ {env : Env} (s : Services env) (paint : Paints s) (fok : Reliable env.file)
    (lok : Reliable env.logs) where
  -- One turn of the loop, over a record that does not end it.
  back_step :
      (c : ℕ) (didop : Bool) (r : LogRec) (e : Ed env)
      → record_at (records e) c ≡ some r
      → ends_back r ≡ none
      → (back_record s r (record e { l_cur = c })).0 ≡ false
      → backward_loop s (suc c) didop e
        ≡ backward_loop s c (didop || sets_back r) (back_record s r (record e { l_cur = c })).1
  unfolding backward_loop
  back_step c didop r e at go fine =
      rw (get-found lok e.log c r at, backward_loop) (rw (go, backward_loop) (rw fine))

-- A log rolled back to the record `c0` that starts a change made at the cursor position `m`: the
-- lines are `base` again, logging is on, and the log itself is as before.
pub record Undone {env : Env} (d0 : env.logs.Db) (h0 c0 : ℕ) (m : Mark) (base : List Line)
    (r : Option Mark × Ed env) : Type 0 where
  pub cursor : r.0 ≡ some m
  pub lines : rows r.1 ≡ base
  pub logging : r.1.nolog ≡ false
  pub has_file : r.1.has_file ≡ true
  pub log : r.1.log ≡ d0
  pub high : r.1.l_high ≡ h0
  pub cur : r.1.l_cur ≡ c0

pub or_true : (b : Bool) → (b || true) ≡ true
or_true true = refl
or_true false = refl

module _ {env : Env} (s : Services env) (paint : Paints s) (fok : Reliable env.file)
    (lok : Reliable env.logs) (d0 : env.logs.Db) (h0 c0 : ℕ) (m : Mark) (base : List Line) where
  abbrev Done : Option Mark × Ed env → Type 0
  Done = Undone d0 h0 c0 m base

  abbrev at_cur : ℕ → Ed env → Ed env
  at_cur c e = record e { l_cur = c }

  loop_end :
      (c : ℕ) (ys : List Line) (e : Ed env)
      → Rolling d0 h0 ys e
      → c ≡ c0
      → record_at (env.logs.rows d0) c ≡ some (cursor_init m)
      → ys ≡ base
      → Done (backward_loop s (suc c) true e)
  unfolding backward_loop
  loop_end c ys e h p at q =
      rw
        (
          get-found lok e.log c (cursor_init m)
              (subst (λ d. record_at (env.logs.rows d) c ≡ some (cursor_init m)) (sym h.log) at),
          backward_loop,
        )
        (record {
          cursor = refl;
          lines = h.lines ∙ q;
          logging = refl;
          has_file = h.has_file;
          log = h.log;
          high = h.high;
          cur = p;
        })

  loop_on :
      (c : ℕ) (didop : Bool) (r : LogRec) (ys xs : List Line) (e : Ed env)
      → Rolling d0 h0 ys e
      → record_at (env.logs.rows d0) c ≡ some r
      → ends_back r ≡ none
      → Turned d0 h0 (back_record s r (at_cur c e)) xs
      → ((f : Ed env) → Rolling d0 h0 xs f → Done (backward_loop s c (didop || sets_back r) f))
      → Done (backward_loop s (suc c) didop e)
  loop_on c didop r ys xs e h at go t next =
      rw
        (back_step s paint fok lok c didop r e
          (subst (λ d. record_at (env.logs.rows d) c ≡ some r) (sym h.log) at) go t.0)
        (next _ t.1)

  here-Rolling :
      (c : ℕ) (ys : List Line) (e : Ed env) → Rolling d0 h0 ys e → Rolling d0 h0 ys (at_cur c e)
  here-Rolling c ys e h = Rolling-by d0 h0 refl refl refl refl refl h

  -- Some change has been rolled over, or is still to come.
  abbrev Counts : Bool → List Step → Type 0
  Counts didop ss = (didop ≡ true) ⊎ (ss ≢ [])

  pub loop_back :
      (ss : List Step) (c : ℕ) (didop : Bool) (ys : List Line) (e : Ed env)
      → Rolling d0 h0 ys e
      → Stacked (env.logs.rows d0) c (flatten ss) c0 m
      → History ss base ys
      → Counts didop ss
      → Done (backward_loop s c didop e)
  loop_back [] (suc c) didop ys e h (p, at) q (inl did) =
      subst (λ b. Done (backward_loop s (suc c) b e)) (sym did) (loop_end c ys e h p at q)
  loop_back [] (suc c) didop ys e h st q (inr ne) = absurd (ne refl)
  loop_back [] zero didop ys e h st q d = absurd st
  loop_back (append n p ∷ ss) (suc c) didop ys e h (at, st) (xs, hist, (a, b, q)) d =
      loop_on c didop (line_append n p) ys xs e h at refl
        (subst (Turned d0 h0 _)
          (ap (λ zs. erase_record zs n) q ∙ erase_record-insert_record xs n p a b)
          (back_append d0 h0 s paint fok n p ys (at_cur c e) (here-Rolling c ys e h) a
            (rw q (omega (arith, length-insert_record xs n p)))))
        (λ f g. loop_back ss c (didop || true) xs f g st hist (inl (or_true didop)))
  loop_back (insert n p ∷ ss) (suc c) didop ys e h (at, st) (xs, hist, (a, b, q)) d =
      loop_on c didop (line_insert n p) ys xs e h at refl
        (subst (Turned d0 h0 _)
          (ap (λ zs. erase_record zs n) q ∙ erase_record-insert_record xs n p a b)
          (back_insert d0 h0 s paint fok n p ys (at_cur c e) (here-Rolling c ys e h) a
            (rw q (omega (arith, length-insert_record xs n p)))))
        (λ f g. loop_back ss c (didop || true) xs f g st hist (inl (or_true didop)))
  loop_back (delete n p ∷ ss) (suc c) didop ys e h (at, st) (xs, hist, (there, q)) d =
      let (a, b) = record_at_bounds xs n there in
      loop_on c didop (line_delete n p) ys xs e h at refl
        (subst (Turned d0 h0 _)
          (ap (λ zs. insert_record zs n p) q ∙ insert_record-erase_record xs n p there)
          (back_delete d0 h0 s paint fok n p ys (at_cur c e) (here-Rolling c ys e h) a
            (rw q (omega (arith, length-erase_record xs n a b)))))
        (λ f g. loop_back ss c (didop || true) xs f g st hist (inl (or_true didop)))
  loop_back (reset n old new ∷ ss) (suc (suc c)) didop ys e h (atf, (atb, st))
        (xs, hist, (there, q)) d =
      let (a, b) = record_at_bounds xs n there in
      loop_on (suc c) didop (line_reset_f n new) ys ys e h atf refl
        (back_passes d0 h0 s paint fok n new ys (at_cur (suc c) e) (here-Rolling (suc c) ys e h))
        (λ f g.
          loop_on c (didop || false) (line_reset_b n old) ys xs f g atb refl
            (subst (Turned d0 h0 _)
              (ap (λ zs. store_record zs n old) q ∙ store_record-store_record xs n old new there)
              (back_reset d0 h0 s paint fok n old ys (at_cur c f) (here-Rolling c ys f g) a
                (rw q (omega (arith, length-store_record xs n new a b)))))
            (λ f' g'.
              loop_back ss c ((didop || false) || true) xs f' g' st hist
                (inl (or_true (didop || false)))))
  loop_back (mark k ∷ ss) (suc c) didop ys e h (at, st) (xs, hist, q) d =
      loop_on c didop (LogRec.mark k) ys xs e h at refl
        (subst (Turned d0 h0 _) q
          (back_mark d0 h0 s paint fok k ys (at_cur c e) (here-Rolling c ys e h)))
        (λ f g. loop_back ss c (didop || true) xs f g st hist (inl (or_true didop)))
  loop_back (append n p ∷ ss) zero didop ys e h st q d = absurd st
  loop_back (insert n p ∷ ss) zero didop ys e h st q d = absurd st
  loop_back (delete n p ∷ ss) zero didop ys e h st q d = absurd st
  loop_back (reset n o w ∷ ss) zero didop ys e h st q d = absurd st
  loop_back (reset n o w ∷ ss) (suc zero) didop ys e h st q d = absurd st.1
  loop_back (mark k ∷ ss) zero didop ys e h st q d = absurd st

  -- The record that ends the change is passed over.
  pub loop_back_end :
      (k : Mark) (ss : List Step) (c : ℕ) (ys : List Line) (e : Ed env)
      → Rolling d0 h0 ys e
      → Stacked (env.logs.rows d0) c (cursor_end k ∷ flatten ss) c0 m
      → History ss base ys
      → ss ≢ []
      → Done (backward_loop s c false e)
  unfolding back_record
  loop_back_end k ss zero ys e h st q ne = absurd st
  loop_back_end k ss (suc c) ys e h (at, st) q ne =
      loop_on c false (cursor_end k) ys ys e h at refl (refl, here-Rolling c ys e h)
        (λ f g. loop_back ss c false ys f g st q (inr ne))
