-- ===== src/Delete/Loop.antt =====
-- The loop of `del` over `db_delete`: the lines that it leaves.
use open_vi.Common.{
  ℕ, zero, suc, ◌≤◌, Bool, true, false, not, ◌&&◌, ◌≡◌, refl, sym, ap, ◌∙◌, List, ◌++◌, arith,
  length, take, drop, erase_record, store_record, leb, ◌==◌, if_intro, length-erase_record,
  cut-erase_idx, take-drop,
}
use mathlib.Core.Path.{subst}
use Prim.Native.Nat.{◌%◌}
use open_vi.Recno.{Reliable}
use open_vi.State.{Line, Mark, Env, Ed, rows, line_delete, line_reset}
use open_vi.Line.Reads.{IsCoherent, ReadOnly}
use open_vi.Line.Refine.{IsReady}
use open_vi.Edit.{Services, db_delete, db_set}
use open_vi.Edit.Stored.{HasRows, db_delete_ok, db_set_ok}
use open_vi.Edit.Rows.{db_delete-rows, db_set-rows}
use open_vi.Roll.Quiet.{Paints, scr_update_ok}
use open_vi.Delete.{delete_down}
use open_vi.Edit.Caches.{db_delete-IsCoherent}

abbrev pub at : ℕ → ℕ → Mark
at n c = record { lno = n; cno = c }

module _ {env : Env} where
  -- A call that succeeds and leaves the lines `xs`.
  abbrev pub Leaves : Ed env → Bool × Ed env → List Line → Type 0
  Leaves e r xs = (r.0 ≡ false) × HasRows e r.1 xs

  pub HasRows-chain :
      {e f g : Ed env} {xs ys : List Line} → HasRows e f xs → HasRows f g ys → HasRows e g ys
  HasRows-chain p q = record {
    has_file = q.has_file ∙ p.has_file;
    tiq = q.tiq ∙ p.tiq;
    lines = q.lines;
  }

  pub HasRows-of_ReadOnly : {e f : Ed env} → ReadOnly e f → HasRows e f (rows e)
  HasRows-of_ReadOnly k = record {
    has_file = k.has_file;
    tiq = k.tiq;
    lines = ap env.file.rows k.db;
  }

  pub IsReady-of_ReadOnly : {e f : Ed env} → ReadOnly e f → IsReady e → IsReady f
  IsReady-of_ReadOnly k h = record {
    has_file = k.has_file ∙ h.has_file;
    tiq = k.tiq ∙ h.tiq;
    coherent = k.right (λ _. true) h.coherent;
  }

module _ {env : Env} (s : Services env) (paint : Paints s) (ok : Reliable env.file)
    (interrupted : ℕ → Bool) (calm : (n : ℕ) → interrupted n ≡ false) where
  pub delete-Leaves :
      (n : ℕ) (e : Ed env)
      → e.has_file ≡ true
      → 1 ≤ n
      → n ≤ length (rows e)
      → Leaves e (db_delete s n e) (erase_record (rows e) n)
  delete-Leaves n e h a b = (
    rw (db_delete_ok s ok n e h a b) (scr_update_ok s paint n line_delete true _),
    db_delete-rows s ok n e h a b,
  )

  pub set-Leaves :
      (n : ℕ) (p : Line) (e : Ed env)
      → e.has_file ≡ true
      → 1 ≤ n
      → n ≤ length (rows e)
      → Leaves e (db_set s n p e) (store_record (rows e) n p)
  set-Leaves n p e h a b = (
    rw (db_set_ok s ok n e h p a (omega arith)) (scr_update_ok s paint n line_reset true _),
    db_set-rows s ok n e h p a (omega arith),
  )

  -- The loop takes out the lines from `i + 1` to `k`.
  pub delete_down-Leaves :
      (i k : ℕ) (e : Ed env)
      → e.has_file ≡ true
      → i ≤ k
      → k ≤ length (rows e)
      → Leaves e (delete_down s interrupted (suc i) k e) (take i (rows e) ++ drop k (rows e))
  unfolding delete_down
  delete_down-Leaves zero zero e h a b =
      (refl, record { has_file = refl; tiq = refl; lines = refl })
  delete_down-Leaves (suc i) zero e h a b = absurd (omega arith)
  delete_down-Leaves i (suc k) e h a b =
      let P : Bool × Ed env → Type 0 = λ r. Leaves e r (take i (rows e) ++ drop (suc k) (rows e)) in
      let (fine, d) = delete-Leaves (suc k) e h (omega arith) b in
      let e1 = (db_delete s (suc k) e).1 in
      let e2 = record e1 { deleted = suc e1.deleted } in
      let d2 : HasRows e e2 (erase_record (rows e) (suc k)) = record {
        has_file = d.has_file;
        tiq = d.tiq;
        lines = d.lines;
      } in
      if_intro P (not (leb (suc i) (suc k))) _ _
        (λ z. (refl, record { has_file = refl; tiq = refl; lines = all i (ground arith) }))
        λ z.
          if_intro P (db_delete s (suc k) e).0 _ _ (λ bad. cc (fine))
            λ _.
              if_intro P (((suc k % 100) == 0) && interrupted (suc k)) _ _
                (λ q. absurd (ground (arith, calm (suc k))))
                (λ _.
                  let le : i ≤ k = ground arith in
                  let (p, r) = delete_down-Leaves i k e2 (d2.has_file ∙ h) le (
                    subst (λ ys. k ≤ length ys) (sym d2.lines)
                      (omega (arith, length-erase_record (rows e) (suc k) (omega arith) b))) in
                  (
                    p,
                    subst (HasRows e _)
                        (ap (λ ys. take i ys ++ drop k ys) d2.lines ∙ cut-erase_idx (rows e) i k le)
                        (HasRows-chain d2 r),
                  ))
    where
      all : (j : ℕ) → j ≡ suc k → rows e ≡ take j (rows e) ++ drop (suc k) (rows e)
      all j q =
          subst (λ j. rows e ≡ take j (rows e) ++ drop (suc k) (rows e)) (sym q)
            (sym (take-drop (rows e) (suc k)))

  -- The loop keeps the caches right.
  pub delete_down-IsCoherent :
      (i k : ℕ) (e : Ed env)
      → e.has_file ≡ true
      → IsCoherent e
      → k ≤ length (rows e)
      → IsCoherent (delete_down s interrupted (suc i) k e).1
  unfolding delete_down
  delete_down-IsCoherent i zero e h c b = c
  delete_down-IsCoherent i (suc k) e h c b =
      let P : Bool × Ed env → Type 0 = λ r. IsCoherent r.1 in
      let (fine, d) = delete-Leaves (suc k) e h (omega arith) b in
      let e1 = (db_delete s (suc k) e).1 in
      let e2 = record e1 { deleted = suc e1.deleted } in
      let c1 : IsCoherent e1 = db_delete-IsCoherent s ok (suc k) e h c (omega arith) b in
      let c2 : IsCoherent e2 = record { line = c1.line; count = c1.count } in
      let lines : rows e2 ≡ erase_record (rows e) (suc k) = d.lines in
      if_intro P (not (leb (suc i) (suc k))) _ _ (λ _. c)
        λ _.
          if_intro P (db_delete s (suc k) e).0 _ _ (λ _. c1)
            λ _.
              if_intro P (((suc k % 100) == 0) && interrupted (suc k)) _ _ (λ _. c2)
                (λ _. delete_down-IsCoherent i k e2 (d.has_file ∙ h) c2 (
                  subst (λ ys. k ≤ length ys) (sym lines)
                    (omega (arith, length-erase_record (rows e) (suc k) (omega arith) b))))
