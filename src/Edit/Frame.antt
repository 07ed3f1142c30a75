-- ===== src/Edit/Frame.antt =====
-- What the steps of a line change leave alone. A frame is a relation between the states before and
-- after that holds of every step but the call of the database.
use open_vi.Common.{
  ℕ, Bool, true, false, ◌≡◌, refl, Option, none, some, List, [], ◌∷◌, ◌==◌, if_intro, if◌then◌else◌,
}
use open_vi.State.{LMark, Lnop, line_append, line_delete, line_insert, line_reset, Env, Ed, ExCmd}
use open_vi.Line.{db_exist, db_last}
use open_vi.Line.Reads.{ReadOnly, db_exist-Reads, db_last-Reads}
use open_vi.Ranges.{ex_g_insdel}
use open_vi.Log.{log_mark}
use open_vi.Edit.{
  Services, delete_marks, insert_marks, mark_insert, mark_insdel, change_others, scr_update,
  set_dirty,
}

pub record Frame {env : Env} (R : Ed env → Ed env → Type 0) : Type 0 where
  pub same : (e : Ed env) → R e e
  pub chain : {e f g : Ed env} → R e f → R f g → R e g
  pub reads : {e f : Ed env} → ReadOnly e f → R e f
  pub to_marks : (e : Ed env) (ms : List LMark) → R e (record e { marks = ms })
  pub to_ranges : (e : Ed env) (cs : List ExCmd) → R e (record e { ecq = cs })
  pub to_dirty : (e : Ed env) → R e (record e { modified = true; rcv_sync = true })

module _ {env : Env} {R : Ed env → Ed env → Type 0} (fr : Frame R) where
  abbrev Steps {ℓ} : {A : Type ℓ} → Ed env → A × Ed env → Type 0
  Steps e r = R e r.1

  pub ex_g_insdel-Frame : (op : Lnop) (n : ℕ) (e : Ed env) → R e (ex_g_insdel op n e)
  unfolding ex_g_insdel
  ex_g_insdel-Frame line_delete n e = fr.to_ranges e _
  ex_g_insdel-Frame line_insert n e = fr.to_ranges e _
  ex_g_insdel-Frame line_append n e = fr.same e
  ex_g_insdel-Frame line_reset n e = fr.same e

  mark_insert-Frame : (n : ℕ) (e : Ed env) → Steps e (mark_insert n e)
  unfolding mark_insert
  mark_insert-Frame n e =
      let e1 = (db_exist 2 e).1 in
      let r1 : R e e1 = fr.reads (db_exist-Reads 2 e) in
      let r2 : R e (db_last e1).1 = fr.chain r1 (fr.reads (db_last-Reads e1)) in
      if_intro (Steps {A = Bool} e) (db_exist 2 e).0 _ _ (λ _. fr.chain r1 (fr.to_marks e1 _))
        (λ _. at_last (db_last e1).0 (db_last e1).1 r2)
    where
      at_last :
          (l : Option ℕ) (f : Ed env)
          → R e f
          → Steps {A = Bool} e (elim l [
            | none ↦ (true, f)
            | some lline ↦
                if lline == 1
                then (false, f)
                else (false, record f { marks = insert_marks n f.marks })
          ])
      at_last none f r = r
      at_last (some k) f r =
          if_intro (Steps {A = Bool} e) (k == 1) _ _ (λ _. r) (λ _. fr.chain r (fr.to_marks f _))

  module _ (logs : (m : LMark) (e : Ed env) → Steps e (log_mark m e)) where
    delete_marks-Frame : (n : ℕ) (ms : List LMark) (e : Ed env) → Steps e (delete_marks n ms e)
    unfolding delete_marks
    delete_marks-Frame n [] e = fr.same e
    delete_marks-Frame n (m ∷ ms) e =
        fr.chain (if_intro (R e) (m.lno == n) _ _ (λ _. logs _ e) (λ _. fr.same e))
          (delete_marks-Frame n ms _)

    pub mark_insdel-Frame : (op : Lnop) (n : ℕ) (e : Ed env) → Steps e (mark_insdel op n e)
    unfolding mark_insdel
    mark_insdel-Frame line_delete n e = fr.chain (delete_marks-Frame n e.marks e) (fr.to_marks _ _)
    mark_insdel-Frame line_insert n e = mark_insert-Frame n e
    mark_insdel-Frame line_append n e = fr.same e
    mark_insdel-Frame line_reset n e = fr.same e

  pub mark_insdel_insert-Frame : (n : ℕ) (e : Ed env) → Steps e (mark_insdel line_insert n e)
  unfolding mark_insdel
  mark_insdel_insert-Frame n e = mark_insert-Frame n e

module _ {env : Env} {R : Ed env → Ed env → Type 0} (fr : Frame R) (s : Services env) where
  open s use {Screen, self, others, vs_change, rcv_init, vs_change_reads, rcv_init_reads}

  change_others-Frame :
      (ts : List Screen) (n : ℕ) (op : Lnop) (e : Ed env) → R e (change_others s ts n op e).1
  unfolding change_others
  change_others-Frame [] n op e = fr.same e
  change_others-Frame (t ∷ ts) n op e =
      let r1 : R e (vs_change t n op e).1 = fr.reads (vs_change_reads t n op e) in
      if_intro (λ (r : Bool × Ed env). R e r.1) (vs_change t n op e).0 _ _ (λ _. r1)
        (λ _. fr.chain r1 (change_others-Frame ts n op _))

  pub scr_update-Frame :
      (n : ℕ) (op : Lnop) (current : Bool) (e : Ed env) → R e (scr_update s n op current e).1
  unfolding scr_update
  scr_update-Frame n op current e =
      let P : Bool × Ed env → Type 0 = λ r. R e r.1 in
      let r1 = change_others-Frame (others e.view) n op e in
      if_intro P e.sc_ex _ _ (λ _. fr.same e)
        λ _.
          if_intro P (change_others s (others e.view) n op e).0 _ _ (λ _. r1)
            λ _.
              if_intro P current _ _ (λ _. fr.chain r1 (fr.reads (vs_change_reads _ _ _ _)))
                (λ _. r1)

  pub set_dirty-Frame : (e : Ed env) → R e (set_dirty s e)
  unfolding set_dirty
  set_dirty-Frame e =
      fr.chain
        (if_intro (R e) e.first_modify _ _ (λ _. fr.reads (rcv_init_reads e)) (λ _. fr.same e))
        (fr.to_dirty _)

module _ {env : Env} where
  pub mark_insdel_delete : (n : ℕ) (e : Ed env) → (mark_insdel line_delete n e).0 ≡ false
  unfolding mark_insdel
  mark_insdel_delete n e = refl
