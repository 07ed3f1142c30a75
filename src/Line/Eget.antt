-- ===== src/Line/Eget.antt =====
-- db_eget of common/line.c: what it reads and what it finds.
use open_vi.Common.{
  ℕ, Bool, true, false, not, ◌||◌, ◌≡◌, ap, ◌∙◌, Option, none, some, record_at, ◌==◌, if◌then◌else◌,
  if_intro,
}
use open_vi.Recno.{Reliable}
use open_vi.State.{Line, Env, Ed, rows}
use open_vi.Line.{db_err, db_get, db_last, db_eget, is_some}
use open_vi.Line.Reads.{ReadOnly, ReadOnly-trans, db_err-ReadOnly, db_get-Reads, db_last-Reads}
use open_vi.Line.Refine.{IsReady, db_get-row}

module _ {env : Env} where
  pub db_eget-Reads : (n : ℕ) (e : Ed env) → ReadOnly e (db_eget n e).1
  unfolding db_eget
  db_eget-Reads n e =
      let P : (Option Line × Bool) × Ed env → Type 0 = λ r. ReadOnly e r.1 in
      let e1 = (db_get false false n e).1 in
      let k1 = db_get-Reads false false n e in
      let k2 = ReadOnly-trans k1 (db_last-Reads e1) in
      if_intro P (is_some (db_get false false n e).0) _ _ (λ _. k1)
        λ _.
          if_intro P (n == 0 || n == 1) _ _ (λ _. at_last (db_last e1).0 (db_last e1).1 k2)
            (λ _. ReadOnly-trans k1 (db_err-ReadOnly e1 n))
    where
      at_last :
          (l : Option ℕ) (f : Ed env)
          → ReadOnly e f
          → ReadOnly e
              (elim l as (λ _. (Option Line × Bool) × Ed env) [
                | none ↦ ((none, false), f)
                | some l1 ↦ if not (l1 == 0) then ((none, false), db_err f n) else ((none, true), f)
              ]).1
      at_last none f k = k
      at_last (some l1) f k =
          if_intro (λ (r : (Option Line × Bool) × Ed env). ReadOnly e r.1) (not (l1 == 0)) _ _
            (λ _. ReadOnly-trans k (db_err-ReadOnly f n)) (λ _. k)

  pub db_eget-there :
      (ok : Reliable env.file) (n : ℕ) (l : Line) (e : Ed env)
      → IsReady e
      → record_at (rows e) n ≡ some l
      → (db_eget n e).0 ≡ (some l, false)
  unfolding db_eget
  db_eget-there ok n l e ready there =
      let got = db_get-row ok false false n e ready ∙ there in
      if_intro (λ (r : (Option Line × Bool) × Ed env). r.0 ≡ (some l, false))
        (is_some (db_get false false n e).0) _ _ (λ _. ap (λ o. (o, false)) got) (λ z. cc got)
