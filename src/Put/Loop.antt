-- ===== src/Put/Loop.antt =====
-- The loops of `put` over `db_append` (common/put.c).
use open_vi.Common.{
  ℕ, zero, suc, ◌+◌, ◌≤◌, Bool, true, false, ◌≡◌, refl, sym, ap, ◌∙◌, List, [], ◌∷◌, ◌++◌, arith,
  length, take, drop, insert_record, insert_at, length-insert_record, length-append,
}
use mathlib.Core.Path.{subst}
use open_vi.Recno.{Reliable}
use open_vi.State.{Line, Env, Ed, rows, line_append, append, line_insert}
use open_vi.Line.Reads.{IsCoherent}
use open_vi.Ranges.{ex_g_insdel}
use open_vi.Log.{log_line}
use open_vi.Edit.{Services, mark_insdel, db_append, after_put, set_dirty}
use open_vi.Edit.Stored.{HasRows, db_append_ok, append_stored}
use open_vi.Edit.Rows.{db_append-rows, logged_end}
use open_vi.Edit.Caches.{db_append-IsCoherent}
use open_vi.Roll.Quiet.{Paints, scr_update_ok, mark_insdel_ok}
use open_vi.Delete.Loop.{HasRows-chain}
use open_vi.Put.{append_lines, append_times}

-- The lines `ts` put in behind line `n`.
abbrev pub insert_lines : ℕ → List Line → List Line → List Line
insert_lines n ts xs = take n xs ++ (ts ++ drop n xs)

pub insert_at_cut :
    (xs : List Line) (n : ℕ) (t : Line)
    → n ≤ length xs
    → insert_at xs n t ≡ insert_lines n (t ∷ []) xs
insert_at_cut xs zero t h = refl
insert_at_cut [] (suc n) t h = absurd (omega arith)
insert_at_cut (x ∷ xs) (suc n) t h = ap (λ ys. x ∷ ys) (insert_at_cut xs n t (omega arith))

insert_lines_next :
    (xs : List Line) (n : ℕ) (t : Line) (ts : List Line)
    → n ≤ length xs
    → insert_lines (suc n) ts (insert_at xs n t) ≡ insert_lines n (t ∷ ts) xs
insert_lines_next xs zero t ts h = refl
insert_lines_next [] (suc n) t ts h = absurd (omega arith)
insert_lines_next (x ∷ xs) (suc n) t ts h =
    ap (λ ys. x ∷ ys) (insert_lines_next xs n t ts (omega arith))

insert_lines_none : (xs : List Line) (n : ℕ) → insert_lines n [] xs ≡ xs
insert_lines_none xs zero = refl
insert_lines_none [] (suc n) = refl
insert_lines_none (x ∷ xs) (suc n) = ap (λ ys. x ∷ ys) (insert_lines_none xs n)

-- The text of the buffer, as often as the count says.
abbrev pub block : ℕ → List Line → List Line
block zero ts = []
block (suc k) ts = ts ++ block k ts

pub length-insert_lines :
    (xs : List Line) (n : ℕ) (ts : List Line)
    → n ≤ length xs
    → length (insert_lines n ts xs) ≡ length ts + length xs
length-insert_lines xs zero ts h = length-append ts xs
length-insert_lines [] (suc n) ts h = absurd (omega arith)
length-insert_lines (x ∷ xs) (suc n) ts h = omega (arith, length-insert_lines xs n ts (omega arith))

insert_lines-insert_lines :
    (xs : List Line) (n : ℕ) (ts us : List Line)
    → n ≤ length xs
    → insert_lines (n + length ts) us (insert_lines n ts xs) ≡ insert_lines n (ts ++ us) xs
insert_lines-insert_lines xs zero [] us h = refl
insert_lines-insert_lines xs zero (t ∷ ts) us h =
    let k : 0 + length (t ∷ ts) ≡ suc (0 + length ts) = omega arith in
    rw k (ap (λ ys. t ∷ ys) (insert_lines-insert_lines xs zero ts us h))
insert_lines-insert_lines [] (suc n) ts us h = absurd (omega arith)
insert_lines-insert_lines (x ∷ xs) (suc n) ts us h =
    let k : suc n + length ts ≡ suc (n + length ts) = omega arith in
    rw k (ap (λ ys. x ∷ ys) (insert_lines-insert_lines xs n ts us (omega arith)))

module _ {env : Env} (s : Services env) (paint : Paints s) (ok : Reliable env.file) where
  pub append_fine :
      (n : ℕ) (t : Line) (e : Ed env)
      → e.has_file ≡ true
      → n ≤ length (rows e)
      → (db_append s true n t e).0 ≡ false
  unfolding after_put
  append_fine n t e h b =
      let g = (log_line (suc n) append (set_dirty s (append_stored s n t e))).1 in
      rw (db_append_ok s ok n e h true t b) (
        rw
          (scr_update_ok s paint n line_append true
            (ex_g_insdel line_insert (suc n) (mark_insdel line_insert (suc n) g).1))
          (mark_insdel_ok ok (suc n) g
            ((logged_end s (suc n) append (append_stored s n t e)).has_file ∙ h)))

  -- A loop that succeeds: it ends at line `n`, with the lines `xs`, and the caches right.
  pub record Put (e : Ed env) (r : (Bool × ℕ) × Ed env) (n : ℕ) (xs : List Line) : Type 0 where
    pub fine : r.0.0 ≡ false
    pub at : r.0.1 ≡ n
    pub has : HasRows e r.1 xs
    pub coherent : IsCoherent r.1

  pub append_lines-Put :
      (ts : List Line) (n : ℕ) (e : Ed env)
      → e.has_file ≡ true
      → IsCoherent e
      → n ≤ length (rows e)
      → Put e (append_lines s ts n e) (n + length ts) (insert_lines n ts (rows e))
  unfolding append_lines
  append_lines-Put [] n e h c b = record {
    fine = refl;
    at = omega arith;
    coherent = c;
    has = record { has_file = refl; tiq = refl; lines = sym (insert_lines_none (rows e) n) };
  }
  append_lines-Put (t ∷ ts) n e h c b =
      let w = db_append-rows s ok n e h true t b in
      let e1 = (db_append s true n t e).1 in
      let e2 = record e1 { added = suc e1.added } in
      let w2 : HasRows e e2 (insert_record (rows e) (suc n) t) = record {
        has_file = w.has_file;
        tiq = w.tiq;
        lines = w.lines;
      } in
      let k = db_append-IsCoherent s ok n e h c true t b in
      let x =
        append_lines-Put ts (suc n) e2 (w2.has_file ∙ h) (record { line = k.line; count = k.count })
          (subst (λ ys. suc n ≤ length ys) (sym w2.lines)
            (omega (arith, length-insert_record (rows e) (suc n) t))) in
      rw (append_fine n t e h b) (record {
        fine = x.fine;
        at = omega (arith, x.at);
        coherent = x.coherent;
        has =
            subst (HasRows e _)
              (ap (insert_lines (suc n) ts) w2.lines ∙ insert_lines_next (rows e) n t ts b)
              (HasRows-chain w2 x.has);
      })

  pub append_times-Put :
      (k : ℕ) (ts : List Line) (n : ℕ) (e : Ed env)
      → e.has_file ≡ true
      → IsCoherent e
      → n ≤ length (rows e)
      → Put e
          (append_times s k ts n e)
          (n + length (block k ts))
          (insert_lines n (block k ts) (rows e))
  unfolding append_times
  append_times-Put zero ts n e h c b = record {
    fine = refl;
    at = omega arith;
    coherent = c;
    has = record { has_file = refl; tiq = refl; lines = sym (insert_lines_none (rows e) n) };
  }
  append_times-Put (suc k) ts n e h c b =
      let r = append_lines s ts n e in
      let x = append_lines-Put ts n e h c b in
      let y = append_times-Put k ts r.0.1 r.1 (x.has.has_file ∙ h) x.coherent (
        subst (λ ys. r.0.1 ≤ length ys) (sym x.has.lines)
          (omega (arith, x.at, length-insert_lines (rows e) n ts b))) in
      rw (x.fine) (record {
        fine = y.fine;
        at = omega (arith, y.at, x.at, length-append ts (block k ts));
        coherent = y.coherent;
        has =
            subst (HasRows e _)
              (ap (λ p. insert_lines p (block k ts) (rows r.1)) x.at
                ∙ ap (insert_lines (n + length ts) (block k ts)) x.has.lines
                ∙ insert_lines-insert_lines (rows e) n ts (block k ts) b)
              (HasRows-chain x.has y.has);
      })
