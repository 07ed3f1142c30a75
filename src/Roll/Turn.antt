-- ===== src/Roll/Turn.antt =====
-- One record rolled back or forward: the lines that a step came from, or leads to.
use open_vi.Common.{
  ℕ, suc, ◌≤◌, Bool, true, false, ◌≡◌, refl, ap, ◌∙◌, List, length, insert_record, erase_record,
  store_record, ◌==◌, if_intro, if◌then◌else◌,
}
use open_vi.Recno.{Reliable}
use open_vi.State.{
  Line, LMark, LogRec, line_append, line_delete, line_insert, line_reset_f, line_reset_b, Env, Ed,
  rows,
}
use open_vi.Marks.{mark_set}
use open_vi.Edit.{Services, db_delete, db_insert, db_set}
use open_vi.Roll.{back_record, forward_record, count_change, place_of}
use open_vi.Roll.Quiet.{Paints, Rolled, db_delete-Rolled, db_insert-Rolled, db_set-Rolled}

module _ {env : Env} (d0 : env.logs.Db) (h0 : ℕ) where
  -- The log `d0` is being rolled, and the lines are `xs`.
  pub record Rolling (xs : List Line) (e : Ed env) : Type 0 where
    pub off : e.nolog ≡ true
    pub has_file : e.has_file ≡ true
    pub log : e.log ≡ d0
    pub high : e.l_high ≡ h0
    pub lines : rows e ≡ xs

  -- A turn that went well.
  abbrev pub Turned : Bool × Ed env → List Line → Type 0
  Turned r xs = (r.0 ≡ false) × Rolling xs r.1

  pub Rolling-by :
      {xs : List Line} {e f : Ed env}
      → f.nolog ≡ e.nolog
      → f.has_file ≡ e.has_file
      → f.log ≡ e.log
      → f.l_high ≡ e.l_high
      → f.db ≡ e.db
      → Rolling xs e
      → Rolling xs f
  Rolling-by a b c d g h = record {
    off = a ∙ h.off;
    has_file = b ∙ h.has_file;
    log = c ∙ h.log;
    high = d ∙ h.high;
    lines = ap env.file.rows g ∙ h.lines;
  }

  module _ (s : Services env) (paint : Paints s) (fok : Reliable env.file) where
    Rolling-of_Rolled :
        {xs ys : List Line} {e : Ed env} {r : Bool × Ed env}
        → Rolling xs e
        → Rolled s paint e r ys
        → Rolling ys r.1
    Rolling-of_Rolled h q = record {
      off = q.same.nolog ∙ h.off;
      has_file = q.has_file;
      log = q.same.log ∙ h.log;
      high = q.same.l_high ∙ h.high;
      lines = q.lines;
    }

    module _ (n : ℕ) (p : Line) (xs : List Line) (e : Ed env) (h : Rolling xs e) where
      turn_delete :
          (k : Ed env → Ed env)
          → ((f : Ed env) (ys : List Line) → Rolling ys f → Rolling ys (k f))
          → 1 ≤ n
          → n ≤ length xs
          → Turned
              (let (bad, e1) = db_delete s n e in if bad then (true, e1) else (false, k e1))
              (erase_record xs n)
      turn_delete k keep a b =
          let q = db_delete-Rolled s paint fok n e h.has_file h.off a (rw h.lines b) in
          if_intro (λ (r : Bool × Ed env). Turned r (erase_record xs n)) (db_delete s n e).0 _ _
            (λ z. cc (q.fine)) (λ _. (refl, keep _ _ (rw (← h.lines) (Rolling-of_Rolled h q))))

      turn_insert :
          (k : Ed env → Ed env)
          → ((f : Ed env) (ys : List Line) → Rolling ys f → Rolling ys (k f))
          → 1 ≤ n
          → n ≤ suc (length xs)
          → Turned
              (let (bad, e1) = db_insert s n p e in if bad then (true, e1) else (false, k e1))
              (insert_record xs n p)
      turn_insert k keep a b =
          let q = db_insert-Rolled s paint fok n e h.has_file h.off p a (rw h.lines b) in
          if_intro (λ (r : Bool × Ed env). Turned r (insert_record xs n p)) (db_insert s n p e).0 _
            _ (λ z. cc (q.fine)) (λ _. (refl, keep _ _ (rw (← h.lines) (Rolling-of_Rolled h q))))

      turn_set :
          (k : Ed env → Ed env)
          → ((f : Ed env) (ys : List Line) → Rolling ys f → Rolling ys (k f))
          → 1 ≤ n
          → n ≤ suc (length xs)
          → Turned
              (let (bad, e1) = db_set s n p e in if bad then (true, e1) else (false, k e1))
              (store_record xs n p)
      turn_set k keep a b =
          let q = db_set-Rolled s paint fok n e h.has_file h.off p a (rw h.lines b) in
          if_intro (λ (r : Bool × Ed env). Turned r (store_record xs n p)) (db_set s n p e).0 _ _
            (λ z. cc (q.fine)) (λ _. (refl, keep _ _ (rw (← h.lines) (Rolling-of_Rolled h q))))

    keep_deleted :
        (f : Ed env) (ys : List Line)
        → Rolling ys f
        → Rolling ys (record f { deleted = suc f.deleted })
    keep_deleted f ys = Rolling-by refl refl refl refl refl

    keep_added :
        (f : Ed env) (ys : List Line) → Rolling ys f → Rolling ys (record f { added = suc f.added })
    keep_added f ys = Rolling-by refl refl refl refl refl

    keep_changed :
        (n : ℕ) (f : Ed env) (ys : List Line) → Rolling ys f → Rolling ys (count_change n f)
    keep_changed n f ys h =
        if_intro (Rolling ys) (f.rptlchange == n) _ _ (λ _. h)
          (λ _. Rolling-by refl refl refl refl refl h)

    keep_mark :
        (k : LMark) (f : Ed env) (ys : List Line)
        → Rolling ys f
        → Rolling ys (mark_set k.name (place_of k) false f)
    unfolding mark_set
    keep_mark k f ys = Rolling-by refl refl refl refl refl

    module _ (n : ℕ) (p : Line) (xs : List Line) (e : Ed env) (h : Rolling xs e) where
      -- A line that was added is deleted again; a line that was deleted is inserted again.
      pub back_append :
          1 ≤ n → n ≤ length xs → Turned (back_record s (line_append n p) e) (erase_record xs n)
      unfolding back_record
      back_append = turn_delete n p xs e h _ keep_deleted

      pub back_insert :
          1 ≤ n → n ≤ length xs → Turned (back_record s (line_insert n p) e) (erase_record xs n)
      unfolding back_record
      back_insert = turn_delete n p xs e h _ keep_deleted

      pub back_delete :
          1 ≤ n
          → n ≤ suc (length xs)
          → Turned (back_record s (line_delete n p) e) (insert_record xs n p)
      unfolding back_record
      back_delete = turn_insert n p xs e h _ keep_added

      pub back_reset :
          1 ≤ n
          → n ≤ suc (length xs)
          → Turned (back_record s (line_reset_b n p) e) (store_record xs n p)
      unfolding back_record
      back_reset = turn_set n p xs e h (count_change n) (keep_changed n)

      pub forward_append :
          1 ≤ n
          → n ≤ suc (length xs)
          → Turned (forward_record s (line_append n p) e) (insert_record xs n p)
      unfolding forward_record
      forward_append = turn_insert n p xs e h _ keep_added

      pub forward_insert :
          1 ≤ n
          → n ≤ suc (length xs)
          → Turned (forward_record s (line_insert n p) e) (insert_record xs n p)
      unfolding forward_record
      forward_insert = turn_insert n p xs e h _ keep_added

      pub forward_delete :
          1 ≤ n → n ≤ length xs → Turned (forward_record s (line_delete n p) e) (erase_record xs n)
      unfolding forward_record
      forward_delete = turn_delete n p xs e h _ keep_deleted

      pub forward_reset :
          1 ≤ n
          → n ≤ suc (length xs)
          → Turned (forward_record s (line_reset_f n p) e) (store_record xs n p)
      unfolding forward_record
      forward_reset = turn_set n p xs e h (count_change n) (keep_changed n)

      -- The other half of a change of a line is passed over.
      pub back_passes : Turned (back_record s (line_reset_f n p) e) xs
      unfolding back_record
      back_passes = (refl, h)

      pub forward_passes : Turned (forward_record s (line_reset_b n p) e) xs
      unfolding forward_record
      forward_passes = (refl, h)

    module _ (k : LMark) (xs : List Line) (e : Ed env) (h : Rolling xs e) where
      pub back_mark : Turned (back_record s (LogRec.mark k) e) xs
      unfolding back_record
      back_mark = (refl, keep_mark k e xs h)

      pub forward_mark : Turned (forward_record s (LogRec.mark k) e) xs
      unfolding forward_record
      forward_mark = (refl, keep_mark k e xs h)
