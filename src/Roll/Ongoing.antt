-- ===== src/Roll/Ongoing.antt =====
-- A change under way: every line edit adds its steps to the log, so that the log always describes
-- how the file came from the lines before the change.
use open_vi.Common.{ℕ, false, ◌≡◌, refl, List, [], ◌∷◌, ◌==◌, if_intro, inl, inr}
use open_vi.Recno.{Reliable}
use open_vi.State.{Line, LMark, Mark, LogRec, line_delete, Env, Ed}
use open_vi.Log.{log_mark}
use open_vi.Log.Trail.{
  Started, Trail, SameLog, SameLog-refl, SameLog-trans, same_log, Trail-of_SameLog,
}
use open_vi.Log.Write.{log_mark-Started}
use open_vi.Edit.{delete_marks, mark_insdel}
use open_vi.Edit.Frame.{Frame}
use open_vi.Roll.History.{Step, mark, flatten, History}

module _ {env : Env} where
  pub log_frame : Frame {env = env} SameLog
  log_frame = record {
    same = SameLog-refl;
    chain = SameLog-trans;
    reads = λ r. same_log r.log r.l_high r.l_cur r.l_cursor r.nolog;
    to_marks = λ e ms. same_log refl refl refl refl refl;
    to_ranges = λ e cs. same_log refl refl refl refl refl;
    to_dirty = λ e. same_log refl refl refl refl refl;
  }

  -- The log at record `c0` and above describes how the lines `xs` came from `base`.
  pub record Describes (base : List Line) (c0 : ℕ) (m : Mark) (ss : List Step) (xs : List Line)
      (e : Ed env) : Type 0 where
    pub trail : Trail c0 m (flatten ss) e
    pub history : History ss base xs

  pub Trail-on :
      (c0 : ℕ) (m : Mark) (s : List LogRec) (e : Ed env) → Trail c0 m s e → e.nolog ≡ false
  Trail-on c0 m [] e (inl h) = h.logging.on
  Trail-on c0 m [] e (inr h) = h.logging.on
  Trail-on c0 m (r ∷ s) e h = h.logging.on

  pub Trail-of_Started :
      (c0 : ℕ) (m : Mark) (s : List LogRec) (e : Ed env) → Started c0 m s e → Trail c0 m s e
  Trail-of_Started c0 m [] e h = inr h
  Trail-of_Started c0 m (r ∷ s) e h = h

  module _ (lok : Reliable env.logs) (base : List Line) (c0 : ℕ) (m : Mark) where
    -- The steps so far, whatever they are.
    abbrev pub Described : List Line → Ed env → Type 0
    Described xs e = (ss : List Step) × Describes base c0 m ss xs e

    log_mark-Described :
        (k : LMark) (xs : List Line) (e : Ed env) → Described xs e → Described xs (log_mark k e).1
    log_mark-Described k xs e (ss, h) = (
      mark k ∷ ss,
      record {
        trail =
            log_mark-Started lok k c0 m (flatten ss) e (Trail-on c0 m (flatten ss) e h.trail)
              h.trail;
        history = (xs, h.history, refl);
      },
    )

    delete_marks-Described :
        (n : ℕ) (ms : List LMark) (xs : List Line) (e : Ed env)
        → Described xs e
        → Described xs (delete_marks n ms e).1
    unfolding delete_marks
    delete_marks-Described n [] xs e h = h
    delete_marks-Described n (k ∷ ms) xs e h =
        delete_marks-Described n ms xs _
          (if_intro (Described xs) (k.lno == n) _ _ (λ _. log_mark-Described _ xs e h) (λ _. h))

    pub Describes-of_SameLog :
        (ss : List Step) (xs : List Line) {e f : Ed env}
        → SameLog e f
        → Describes base c0 m ss xs e
        → Describes base c0 m ss xs f
    Describes-of_SameLog ss xs p h = record {
      trail = Trail-of_SameLog c0 m (flatten ss) p h.trail;
      history = h.history;
    }

    pub Described-of_SameLog :
        (xs : List Line) {e f : Ed env} → SameLog e f → Described xs e → Described xs f
    Described-of_SameLog xs p (ss, h) = (ss, Describes-of_SameLog ss xs p h)

    pub mark_delete-Described :
        (n : ℕ) (xs : List Line) (e : Ed env)
        → Described xs e
        → Described xs (mark_insdel line_delete n e).1
    unfolding mark_insdel
    mark_delete-Described n xs e h =
        Described-of_SameLog xs (same_log refl refl refl refl refl)
          (delete_marks-Described n e.marks xs e h)
