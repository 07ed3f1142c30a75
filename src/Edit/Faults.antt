-- ===== src/Edit/Faults.antt =====
-- Where the line routines of common/line.c do not do what they mean to.
use open_vi.Common.{
  ℕ, suc, ◌+◌, ◌≤◌, ◌<◌, Bool, true, false, not, ◌≡◌, ◌≢◌, refl, sym, ap, ◌∙◌, Option, some, [],
  arith, length, record_at, insert_record, leb, ◌==◌, if_intro, record_at-insert_record_gt,
  record_at_bounds,
}
use mathlib.Core.Path.{subst}
use open_vi.Recno.{Reliable}
use open_vi.State.{Line, Lnop, line_insert, insert, Env, Ed, rows}
use open_vi.Line.Reads.{IsCoherent}
use open_vi.Line.{db_get, db_tinput, db_cached, db_exist, tinput_extra}
use open_vi.Ranges.{ex_g_insdel}
use open_vi.Log.Frame.{log_line_off}
use open_vi.Edit.{Services, mark_insert, mark_insdel, scr_update, set_dirty, after_put, db_insert}
use open_vi.Edit.Stored.{insert_stored, db_insert_ok}
use open_vi.Edit.Rows.{db_insert-rows}

module _ {env : Env} (s : Services env) where
  open env use {file}

  -- The cache and the flags that the next steps look at.
  record Frozen (e f : Ed env) : Type 0 where
    has_file : f.has_file ≡ e.has_file
    tiq : f.tiq ≡ e.tiq
    sc_ex : f.sc_ex ≡ e.sc_ex
    c_lno : f.c_lno ≡ e.c_lno
    c_lp : f.c_lp ≡ e.c_lp

  module _ (n : ℕ) (p : Line) (e : Ed env) (has : e.has_file ≡ true) (no_input : e.tiq ≡ [])
      (off : e.nolog ≡ true) (ex : e.sc_ex ≡ true) (old : e.first_modify ≡ false)
      (known : e.c_nlines ≢ 0) (before : n < e.c_lno) where
    abbrev placed : Ed env
    placed = set_dirty s (insert_stored s n p e)

    placed-Frozen : Frozen e placed × (placed.nolog ≡ true) × (placed.c_nlines ≡ suc e.c_nlines)
    unfolding set_dirty
    placed-Frozen =
        let P : Ed env → Type 0 = λ f.
          Frozen e (record f { modified = true; rcv_sync = true })
          × (f.nolog ≡ true)
          × (f.c_nlines ≡ suc e.c_nlines) in
        if_intro P e.first_modify _ _ (λ z. cc)
          (λ _. (
            record { has_file = refl; tiq = refl; sc_ex = refl; c_lno = ground arith; c_lp = refl },
            off,
            ground arith,
          ))

    two_lines : (f : Ed env) → Frozen e f → f.c_nlines ≡ suc e.c_nlines → db_exist 2 f ≡ (true, f)
    unfolding db_exist
    two_lines f z c =
        let P : Bool × Ed env → Type 0 = λ r. r ≡ (true, f) in
        if_intro P (not f.has_file) _ _ (λ y. absurd (ground (arith, z.has_file, has)))
          λ _.
            if_intro P (not (f.c_nlines == 0)) _ _
              (λ _.
                subst (λ t. P (leb 2 (f.c_nlines + tinput_extra t), f)) (sym (z.tiq ∙ no_input))
                  (ap (λ b. (b, f)) (ground arith)))
              (λ y. absurd (ground arith))

    insert_mark-Frozen :
        (f : Ed env)
        → Frozen e f
        → f.c_nlines ≡ suc e.c_nlines
        → Frozen e (mark_insdel line_insert n f).1
    unfolding mark_insdel mark_insert
    insert_mark-Frozen f z c = rw (two_lines f z c) (record {
      has_file = z.has_file;
      tiq = z.tiq;
      sc_ex = z.sc_ex;
      c_lno = z.c_lno;
      c_lp = z.c_lp;
    })

    ranges-Frozen : (f : Ed env) → Frozen e f → Frozen e (ex_g_insdel line_insert n f)
    unfolding ex_g_insdel
    ranges-Frozen f z = record {
      has_file = z.has_file;
      tiq = z.tiq;
      sc_ex = z.sc_ex;
      c_lno = z.c_lno;
      c_lp = z.c_lp;
    }

    no_screen :
        (f : Ed env) (k : ℕ) (op : Lnop) (b : Bool)
        → Frozen e f
        → Frozen e (scr_update s k op b f).1
    unfolding scr_update
    no_screen f k op b z =
        if_intro (λ (r : Bool × Ed env). Frozen e r.1) f.sc_ex _ _ (λ _. z) (λ y. cc (z.sc_ex, ex))

    insert-Frozen :
        Reliable file → 1 ≤ n → n ≤ suc (length (rows e)) → Frozen e (db_insert s n p e).1
    unfolding after_put
    insert-Frozen ok a b =
        let (z, quiet, c) = placed-Frozen in
        rw (db_insert_ok s ok n e has p a b) (
          rw (log_line_off n insert placed quiet)
            (no_screen _ n line_insert true (ranges-Frozen _ (insert_mark-Frozen placed z c))))

    cached_line :
        (f : Ed env) → Frozen e f → (fatal : Bool) → (db_get fatal false e.c_lno f).0 ≡ some e.c_lp
    unfolding db_get db_tinput db_cached
    cached_line f z fatal =
        let P : Option Line × Ed env → Type 0 = λ r. r.0 ≡ some e.c_lp in
        if_intro P (e.c_lno == 0) _ _
          (λ y. absurd (let q : e.c_lno ≡ 0 = ground arith in omega arith))
          λ _.
            if_intro P (not f.has_file) _ _ (λ y. absurd (ground (arith, z.has_file, has)))
              (λ _.
                subst (λ t. P (db_tinput fatal e.c_lno f t)) (sym (z.tiq ∙ no_input))
                  (if_intro P (e.c_lno == f.c_lno) _ _ (λ _. ap some z.c_lp)
                    (λ y. absurd (ground (arith, z.c_lno)))))

    -- With a file that was modified already, in ex, outside of text input, with logging off as in an
    -- undo, the number of lines known, right caches and a database that does not fail: if line `n`,
    -- not 0, is inserted before the cached line, and the line in front of the cached one differs
    -- from it, then the number of the cached line still gives the text that it had before the
    -- insertion, the file has the line there that stood in front of it, and the two are not the same.
    pub db_insert_stale :
        (fatal : Bool) (k : ℕ)
        → Reliable file
        → 1 ≤ n
        → e.c_lno ≡ suc k
        → IsCoherent e
        → record_at (rows e) k ≢ record_at (rows e) (suc k)
        → ((db_get fatal false e.c_lno (db_insert s n p e).1).0 ≡ record_at (rows e) e.c_lno)
          × (record_at (rows (db_insert s n p e).1) e.c_lno ≡ record_at (rows e) k)
          × ((db_get fatal false e.c_lno (db_insert s n p e).1).0
              ≢ record_at (rows (db_insert s n p e).1) e.c_lno)
    db_insert_stale fatal k ok a at right differs =
        let cached : record_at (rows e) e.c_lno ≡ some e.c_lp =
          right.line (λ z. omega (arith, at, z)) refl in
        let b : suc k ≤ length (rows e) =
          (record_at_bounds (rows e) (suc k)
            (subst (λ m. record_at (rows e) m ≡ some e.c_lp) at cached)).1 in
        let got = cached_line _ (insert-Frozen ok a (omega arith)) fatal ∙ sym cached in
        let moved =
          ap (λ xs. record_at xs e.c_lno) (db_insert-rows s ok n e has p a (omega arith)).lines
          ∙ ap (record_at (insert_record (rows e) n p)) at
          ∙ record_at-insert_record_gt (rows e) n k p a (omega arith) (omega arith) in
        (got, moved, λ z. differs (sym moved ∙ sym z ∙ got ∙ ap (record_at (rows e)) at))
