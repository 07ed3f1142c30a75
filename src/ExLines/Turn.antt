-- ===== src/ExLines/Turn.antt =====
-- One turn of the loops of ex_move: a line goes to another place.
use open_vi.Common.{
  ℕ, zero, suc, ◌+◌, ◌≤◌, ◌≡◌, Bool, true, false, if◌then◌else◌, refl, sym, ap, ◌∙◌, some, List, [],
  ◌∷◌, ◌++◌, arith, length, insert_at, insert_record, erase_record, erase_idx, get_elem?, if_intro,
  length-append, length-insert_record,
}
use mathlib.Core.List.{append_assoc}
use open_vi.Recno.{Reliable}
use open_vi.State.{Line, LMark, Env, Ed, rows}
use open_vi.Line.Refine.{IsReady}
use open_vi.Log.Frame.{KeepsFile, KeepsFile-refl, KeepsFile-trans, log_mark-KeepsFile}
use open_vi.Edit.{Services, db_append, db_delete}
use open_vi.Edit.Rows.{db_append-rows}
use open_vi.Edit.Caches.{db_append-IsCoherent, db_delete-IsCoherent}
use open_vi.Roll.Quiet.{Paints}
use open_vi.Delete.Loop.{delete-Leaves}
use open_vi.Put.Loop.{append_fine}
use open_vi.Log.{log_mark}
use open_vi.ExLines.{in_range, log_old, log_new, move_marks}

pub get_middle :
    (ps qs : List Line) (x : Line) (n : ℕ) → n ≡ length ps → get_elem? (ps ++ (x ∷ qs)) n ≡ some x
get_middle [] qs x zero h = refl
get_middle [] qs x (suc n) h = absurd (omega arith)
get_middle (p ∷ ps) qs x zero h = absurd (omega arith)
get_middle (p ∷ ps) qs x (suc n) h = get_middle ps qs x n (omega arith)

insert_middle :
    (ps qs : List Line) (x : Line) (n : ℕ)
    → n ≡ length ps
    → insert_at (ps ++ qs) n x ≡ ps ++ (x ∷ qs)
insert_middle [] qs x zero h = refl
insert_middle [] qs x (suc n) h = absurd (omega arith)
insert_middle (p ∷ ps) qs x zero h = absurd (omega arith)
insert_middle (p ∷ ps) qs x (suc n) h = ap (λ ys. p ∷ ys) (insert_middle ps qs x n (omega arith))

erase_middle :
    (ps qs : List Line) (x : Line) (n : ℕ) → n ≡ length ps → erase_idx (ps ++ (x ∷ qs)) n ≡ ps ++ qs
erase_middle [] qs x zero h = refl
erase_middle [] qs x (suc n) h = absurd (omega arith)
erase_middle (p ∷ ps) qs x zero h = absurd (omega arith)
erase_middle (p ∷ ps) qs x (suc n) h = ap (λ ys. p ∷ ys) (erase_middle ps qs x n (omega arith))

module _ {env : Env} where
  -- A call that succeeds, with the caches right, and leaves the lines `xs`.
  pub record Moves (r : Bool × Ed env) (xs : List Line) : Type 0 where
    pub fine : r.0 ≡ false
    pub ready : IsReady r.1
    pub lines : rows r.1 ≡ xs

  with_marks :
      (b : Bool) (ms : List LMark) (e : Ed env)
      → IsReady e
      → IsReady (if b then record e { marks = ms } else e)
  with_marks true ms e h = record {
    has_file = h.has_file;
    tiq = h.tiq;
    coherent = record { line = h.coherent.line; count = h.coherent.count };
  }
  with_marks false ms e h = h

  marks-rows :
      (b : Bool) (ms : List LMark) (e : Ed env)
      → rows (if b then record e { marks = ms } else e) ≡ rows e
  marks-rows true ms e = refl
  marks-rows false ms e = refl

  IsReady-keeps : {e f : Ed env} → KeepsFile e f → IsReady e → IsReady f
  IsReady-keeps k h = record {
    has_file = k.has_file ∙ h.has_file;
    tiq = k.tiq ∙ h.tiq;
    coherent = k.right (λ _. true) h.coherent;
  }

  pub log_old-KeepsFile :
      (low high : ℕ) (ms : List LMark) (e : Ed env) → KeepsFile e (log_old low high ms e).1
  unfolding log_old
  log_old-KeepsFile low high [] e = KeepsFile-refl e
  log_old-KeepsFile low high (m ∷ ms) e =
      let m1 = record m { userset = false } in
      let e1 = if in_range low high m then (log_mark m1 e).1 else e in
      KeepsFile-trans
        (if_intro (KeepsFile e) (in_range low high m) (log_mark m1 e).1 e
          (λ _. log_mark-KeepsFile m1 e) (λ _. KeepsFile-refl e))
        (log_old-KeepsFile low high ms e1)

  pub log_new-KeepsFile :
      (low high : ℕ) (ms : List LMark) (e : Ed env) → KeepsFile e (log_new low high ms e)
  unfolding log_new
  log_new-KeepsFile low high [] e = KeepsFile-refl e
  log_new-KeepsFile low high (m ∷ ms) e =
      let e1 = if in_range low high m then (log_mark m e).1 else e in
      KeepsFile-trans
        (if_intro (KeepsFile e) (in_range low high m) (log_mark m e).1 e
          (λ _. log_mark-KeepsFile m e) (λ _. KeepsFile-refl e))
        (log_new-KeepsFile low high ms e1)

  pub same_file :
      {f g : Ed env}
      → KeepsFile f g
      → IsReady f
      → (xs : List Line) → rows f ≡ xs
      → IsReady g × (rows g ≡ xs)
  same_file k h xs z = (IsReady-keeps k h, ap env.file.rows k.db ∙ z)

module _ {env : Env} (s : Services env) (paint : Paints s) (ok : Reliable env.file) where
  pub append-Moves :
      (n : ℕ) (l : Line) (e : Ed env)
      → IsReady e
      → n ≤ length (rows e)
      → Moves (db_append s true n l e) (insert_record (rows e) (suc n) l)
  append-Moves n l e h b =
      let w = db_append-rows s ok n e h.has_file true l b in
      record {
        fine = append_fine s paint ok n l e h.has_file b;
        lines = w.lines;
        ready = record {
          has_file = w.has_file ∙ h.has_file;
          tiq = w.tiq ∙ h.tiq;
          coherent = db_append-IsCoherent s ok n e h.has_file h.coherent true l b;
        };
      }

  delete-Moves :
      (n : ℕ) (e : Ed env)
      → IsReady e
      → 1 ≤ n
      → n ≤ length (rows e)
      → Moves (db_delete s n e) (erase_record (rows e) n)
  delete-Moves n e h a b =
      let (fine, w) = delete-Leaves s paint ok (λ n. false) (λ n. refl) n e h.has_file a b in
      record {
        fine = fine;
        lines = w.lines;
        ready = record {
          has_file = w.has_file ∙ h.has_file;
          tiq = w.tiq ∙ h.tiq;
          coherent = db_delete-IsCoherent s ok n e h.has_file h.coherent a b;
        };
      }

  -- One turn of either loop: line `k` is taken out after `l` went in behind line `tl`.
  abbrev pub turned : Bool → ℕ → ℕ → ℕ → Line → Ed env → Bool × Ed env
  turned reset fl tl k l e =
      let e2 = (db_append s true tl l e).1 in
      db_delete s k (if reset then record e2 { marks = move_marks fl (suc tl) e2.marks } else e2)

  turned-Moves :
      (reset : Bool) (fl tl k : ℕ) (l : Line) (e : Ed env) (xs : List Line)
      → IsReady e
      → tl ≤ length (rows e)
      → insert_record (rows e) (suc tl) l ≡ xs
      → 1 ≤ k
      → k ≤ suc (length (rows e))
      → Moves (turned reset fl tl k l e) (erase_record xs k)
  turned-Moves reset fl tl k l e xs h b to a z =
      let x = append-Moves tl l e h b in
      let e2 = (db_append s true tl l e).1 in
      let ms = move_marks fl (suc tl) e2.marks in
      let e3 = if reset then record e2 { marks = ms } else e2 in
      let lines : rows e3 ≡ xs = marks-rows reset ms e2 ∙ x.lines ∙ to in
      let len : length (rows e3) ≡ suc (length (rows e)) =
        ap length (marks-rows reset ms e2 ∙ x.lines) ∙ length-insert_record (rows e) (suc tl) l in
      let y = delete-Moves k e3 (with_marks reset ms e2 x.ready) a (omega (arith, len)) in
      record {
        fine = y.fine;
        ready = y.ready;
        lines = y.lines ∙ ap (λ ys. erase_record ys k) lines;
      }

  -- Line `|ps| + 1` goes behind the lines `qs`.
  pub down_once :
      (reset : Bool) (ps qs ds : List Line) (x : Line) (fl tl : ℕ) (e : Ed env)
      → IsReady e
      → rows e ≡ ps ++ (x ∷ (qs ++ ds))
      → fl ≡ suc (length ps)
      → tl ≡ suc (length ps + length qs)
      → Moves (turned reset fl tl fl x e) (ps ++ (qs ++ (x ∷ ds)))
  down_once reset ps qs ds x fl tl e h lines at_fl at_tl =
      let n : tl ≡ length (ps ++ (x ∷ qs)) = omega (arith, length-append ps (x ∷ qs)) in
      let split : rows e ≡ (ps ++ (x ∷ qs)) ++ ds = lines ∙ sym (append_assoc ps (x ∷ qs) ds) in
      let all : length (rows e) ≡ length (ps ++ (x ∷ qs)) + length ds =
        ap length split ∙ length-append (ps ++ (x ∷ qs)) ds in
      let to : insert_record (rows e) (suc tl) x ≡ ps ++ (x ∷ (qs ++ (x ∷ ds))) =
        ap (λ ys. insert_at ys tl x) split
        ∙ insert_middle (ps ++ (x ∷ qs)) ds x tl n
        ∙ append_assoc ps (x ∷ qs) (x ∷ ds) in
      let y =
        turned-Moves reset fl tl fl x e _ h (omega (arith, n, all)) to (omega (arith, at_fl))
          (omega (arith, at_fl, n, all, length-append ps (x ∷ qs))) in
      record {
        fine = y.fine;
        ready = y.ready;
        lines =
            y.lines
            ∙ ap (erase_record (ps ++ (x ∷ (qs ++ (x ∷ ds))))) at_fl
            ∙ erase_middle ps (qs ++ (x ∷ ds)) x (length ps) refl;
      }

  -- The line behind `ps` and `qs` goes between them.
  pub up_once :
      (reset : Bool) (ps qs ds : List Line) (x : Line) (fl tl : ℕ) (e : Ed env)
      → IsReady e
      → rows e ≡ ps ++ (qs ++ (x ∷ ds))
      → fl ≡ suc (length ps + length qs)
      → tl ≡ length ps
      → Moves (turned reset fl tl (suc fl) x e) ((ps ++ (x ∷ [])) ++ (qs ++ ds))
  up_once reset ps qs ds x fl tl e h lines at_fl at_tl =
      let all : length (rows e) ≡ length ps + length (qs ++ (x ∷ ds)) =
        ap length lines ∙ length-append ps (qs ++ (x ∷ ds)) in
      let more = length-append qs (x ∷ ds) in
      let n : fl ≡ length (ps ++ (x ∷ qs)) = omega (arith, length-append ps (x ∷ qs)) in
      let to : insert_record (rows e) (suc tl) x ≡ (ps ++ (x ∷ qs)) ++ (x ∷ ds) =
        ap (λ ys. insert_at ys tl x) lines
        ∙ insert_middle ps (qs ++ (x ∷ ds)) x tl at_tl
        ∙ sym (append_assoc ps (x ∷ qs) (x ∷ ds)) in
      let y =
        turned-Moves reset fl tl (suc fl) x e _ h (omega (arith, at_tl, all)) to (omega arith)
          (omega (arith, at_fl, all, more)) in
      record {
        fine = y.fine;
        ready = y.ready;
        lines =
            y.lines
            ∙ erase_middle (ps ++ (x ∷ qs)) ds x fl n
            ∙ append_assoc ps (x ∷ qs) ds
            ∙ sym (append_assoc ps (x ∷ []) (qs ++ ds));
      }
