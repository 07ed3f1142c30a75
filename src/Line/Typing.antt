-- ===== src/Line/Typing.antt =====
-- The number of lines that db_last of common/line.c answers while text is typed in.
use open_vi.Common.{
  ℕ, ◌+◌, ◌-◌, ◌≤◌, ◌<◌, true, not, ◌≡◌, ◌≢◌, refl, sym, ap, ◌∙◌, Option, some, List, ◌∷◌, arith,
  ◌==◌, if_intro,
}
use open_vi.Recno.{found}
use open_vi.State.{Line, Text, Env, Ed}
use open_vi.Line.{db_last, db_cache_update, first_lno, last_lno, tinput_extra, tinput_last}

module _ {env : Env} where
  counted : ℕ → Line → Ed env → Ed env
  unfolding db_cache_update
  counted n p e = record (db_cache_update e n p) { c_nlines = n }

  first_answer :
      (e : Ed env) (n : ℕ) (p : Line)
      → e.has_file ≡ true
      → e.c_nlines ≡ 0
      → env.file.last e.db ≡ found (n, p)
      → db_last e ≡ (some (tinput_last e.tiq n), counted n p e)
  unfolding db_last counted
  first_answer e n p has zero last =
      let P : Option ℕ × Ed env → Type 0 = λ r. r ≡ (some (tinput_last e.tiq n), counted n p e) in
      if_intro P (not e.has_file) _ _ (λ z. absurd (ground (arith, has)))
        λ _.
          if_intro P (not (e.c_nlines == 0)) _ _ (λ z. absurd (ground (arith, zero)))
            (λ _. rw last refl)

  known_answer :
      (e : Ed env)
      → e.has_file ≡ true
      → e.c_nlines ≢ 0
      → (db_last e).0 ≡ some (e.c_nlines + tinput_extra e.tiq)
  unfolding db_last
  known_answer e has known =
      let P : Option ℕ × Ed env → Type 0 = λ r. r.0 ≡ some (e.c_nlines + tinput_extra e.tiq) in
      if_intro P (not e.has_file) _ _ (λ z. absurd (ground (arith, has)))
        λ _.
          if_intro P (not (e.c_nlines == 0)) _ _ (λ _. refl) (λ z. absurd (ground (arith, known)))

  -- With a file of `n` lines, not 0, whose number is not yet known, and while text is typed in, over
  -- more than one line and up to a line that the file has already: `db_last` first answers `n`, and,
  -- asked again, more: `n` and the difference of the last and the first line of the input queue.
  pub db_last_twice :
      (e : Ed env) (t : Text) (q : List Text) (n : ℕ) (p : Line)
      → e.has_file ≡ true
      → e.c_nlines ≡ 0
      → e.tiq ≡ t ∷ q
      → env.file.last e.db ≡ found (n, p)
      → n ≢ 0
      → last_lno t q ≤ n
      → first_lno t < last_lno t q
      → ((db_last e).0 ≡ some n)
        × ((db_last (db_last e).1).0 ≡ some (n + (last_lno t q - first_lno t)))
        × ((db_last e).0 ≢ (db_last (db_last e).1).0)
  unfolding counted db_cache_update
  db_last_twice e t q n p has zero input last nz le more =
      let once = first_answer e n p has zero last in
      let first : (db_last e).0 ≡ some n =
        ap (λ r. r.0) once ∙ ap (λ u. some (tinput_last u n)) input ∙ ap some (ground arith) in
      let second : (db_last (db_last e).1).0 ≡ some (n + (last_lno t q - first_lno t)) =
        ap (λ r. (db_last r.1).0) once
        ∙ known_answer (counted n p e) has nz
        ∙ ap (λ u. some (n + tinput_extra u)) input in
      (first, second, λ z. grind (arith, sym first ∙ z ∙ second))
