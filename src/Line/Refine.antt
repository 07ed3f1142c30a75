-- ===== src/Line/Refine.antt =====
-- What db_get, db_last and db_exist of common/line.c answer, outside of text input: the file is a
-- list of lines, counted from 1.
use open_vi.Common.{
  ℕ, zero, suc, ◌+◌, Bool, true, false, not, ◌&&◌, ◌≡◌, ◌≢◌, refl, sym, ap, ◌∙◌, Option, none, some,
  List, [], ◌∷◌, arith, length, get_elem?, record_at, leb, ◌==◌, if_intro,
}
use mathlib.Core.Path.{subst}
use open_vi.Recno.{Reply, Reliable, found, absent, failed, get-record_at}
use open_vi.State.{Line, Env, Ed, rows, report, unable_last}
use open_vi.Line.{
  db_cache_update, db_fetch, db_cached, db_tinput, db_get, db_last, db_exist, is_some, tinput_extra,
  tinput_last,
}
use open_vi.Line.Reads.{IsCoherent}

-- An editor with a file, no text input, and caches that tell the truth.
pub record IsReady {env : Env} (e : Ed env) : Type 0 where
  pub has_file : e.has_file ≡ true
  pub tiq : e.tiq ≡ []
  pub coherent : IsCoherent e

is_some-get_elem? : (xs : List Line) (n : ℕ) → is_some (get_elem? xs n) ≡ leb (suc n) (length xs)
is_some-get_elem? [] n = ground arith
is_some-get_elem? (x ∷ xs) zero = ground arith
is_some-get_elem? (x ∷ xs) (suc n) = ground (arith, is_some-get_elem? xs n)

is_some-record_at :
    (xs : List Line) (n : ℕ) → is_some (record_at xs n) ≡ (leb 1 n && leb n (length xs))
is_some-record_at xs zero = refl
is_some-record_at xs (suc n) = ground (arith, is_some-get_elem? xs n)

module _ {env : Env} (ok : Reliable env.file) where
  open env use {file}

  db_fetch-row :
      (fatal : Bool) (n : ℕ) (e : Ed env) → n ≢ 0 → (db_fetch fatal n e).0 ≡ record_at (rows e) n
  unfolding db_fetch
  db_fetch-row fatal zero e h = absurd (h refl)
  db_fetch-row fatal (suc i) e h = from_db (record_at (rows e) (suc i)) refl
    where
      from_db :
          (o : Option Line) → record_at (rows e) (suc i) ≡ o → (db_fetch fatal (suc i) e).0 ≡ o
      from_db none q = rw (get-record_at ok e.db i, q, db_fetch)
      from_db (some p) q = rw (get-record_at ok e.db i, q, db_fetch)

  db_cached-row :
      (fatal : Bool) (n : ℕ) (e : Ed env)
      → n ≢ 0
      → IsCoherent e
      → (db_cached fatal n e).0 ≡ record_at (rows e) n
  unfolding db_cached
  db_cached-row fatal n e h c =
      if_intro (λ (r : Option Line × Ed env). r.0 ≡ record_at (rows e) n) (n == e.c_lno) _ _
        (λ hit.
          let same : n ≡ e.c_lno = ground arith in rw same (sym (c.line (λ z. h (same ∙ z)) refl)))
        (λ _. db_fetch-row fatal n (record e { c_lno = 0 }) h)

  -- Outside of text input, with right caches and a database that does not fail, `db_get` finds
  -- exactly the lines that the file has, whether it looks into the cache or not.
  pub db_get-row :
      (fatal nocache : Bool) (n : ℕ) (e : Ed env)
      → IsReady e
      → (db_get fatal nocache n e).0 ≡ record_at (rows e) n
  unfolding db_get db_tinput
  db_get-row fatal nocache zero e h = refl
  db_get-row fatal nocache (suc i) e h =
      let Right : Option Line × Ed env → Type 0 = λ r. r.0 ≡ record_at (rows e) (suc i) in
      if_intro Right (suc i == 0) _ _ (λ z. absurd (ground arith))
        λ _.
          if_intro Right (not e.has_file) _ _ (λ z. absurd (ground (arith, h.has_file)))
            λ _.
              if_intro Right nocache _ _ (λ _. db_fetch-row fatal (suc i) e (λ z. cc))
                (λ _.
                  subst (λ q. Right (db_tinput fatal (suc i) e q)) (sym h.tiq)
                    (db_cached-row fatal (suc i) e (λ z. cc) h.coherent))

  -- Outside of text input, with right caches and a database that does not fail, the number of lines
  -- is the length of the file, counted or remembered.
  pub db_last-length : (e : Ed env) → IsReady e → (db_last e).0 ≡ some (length (rows e))
  unfolding db_last
  db_last-length e h =
      let Right : Option ℕ × Ed env → Type 0 = λ r. r.0 ≡ some (length (rows e)) in
      if_intro Right (not e.has_file) _ _ (λ z. absurd (ground (arith, h.has_file)))
        λ _.
          if_intro Right (not (e.c_nlines == 0)) _ _
            (λ known.
              subst (λ q. Right (some (e.c_nlines + tinput_extra q), e)) (sym h.tiq)
                (ap some (omega (arith, h.coherent.count (λ z. ground arith)))))
            (λ _. from_db (file.last e.db) refl)
    where
      from_db :
          (r : Reply (ℕ × Line))
          → file.last e.db ≡ r
          → (elim r as (λ _. Option ℕ × Ed env) [
            | failed ↦ (none, report unable_last e)
            | absent ↦ (some 0, e)
            | found (n, p) ↦
                (some (tinput_last e.tiq n), record (db_cache_update e n p) { c_nlines = n })
          ]).0
            ≡ some (length (rows e))
      from_db failed q = absurd (ok.last_works e.db q)
      from_db absent q = rw (file.last_absent e.db q)
      from_db (found (n, p)) q = rw (h.tiq) (ap some (file.last_found e.db n p q).0)

  -- Outside of text input, with right caches and a database that does not fail, a line exists exactly
  -- if its number is at least 1 and at most the number of lines.
  pub db_exist_iff :
      (n : ℕ) (e : Ed env) → IsReady e → (db_exist n e).0 ≡ (leb 1 n && leb n (length (rows e)))
  unfolding db_exist
  db_exist_iff n e h =
      let Right : Bool × Ed env → Type 0 = λ r. r.0 ≡ (leb 1 n && leb n (length (rows e))) in
      if_intro Right (not e.has_file) _ _ (λ z. absurd (ground (arith, h.has_file)))
        λ _.
          if_intro Right (n == 0) _ _ (λ z. ground arith)
            λ there.
              if_intro Right (not (e.c_nlines == 0)) _ _
                (λ known.
                  subst (λ q. Right (leb n (e.c_nlines + tinput_extra q), e)) (sym h.tiq)
                    (ground (arith, h.coherent.count (λ z. ground arith))))
                (λ _. rw (db_get-row false false n e h) (is_some-record_at (rows e) n))
