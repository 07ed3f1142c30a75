-- ===== src/Put/Empty.antt =====
-- Putting the buffer of a cut that failed (common/put.c).
use open_vi.Common.{
  ℕ, Bool, true, false, not, ◌&&◌, ◌||◌, ◌≡◌, ◌≢◌, refl, ap, ◌∙◌, Option, none, some, [], arith,
  length, record_at, ◌==◌, if_intro,
}
use open_vi.Recno.{Reliable}
use open_vi.State.{Line, Mark, Env, Ed, rows}
use open_vi.Line.{db_last}
use open_vi.Line.Reads.{db_last-Reads}
use open_vi.Line.Refine.{IsReady, db_last-length}
use open_vi.Line.Eget.{db_eget-there}
use open_vi.Edit.{Services}
use open_vi.Delete.Loop.{IsReady-of_ReadOnly}
use open_vi.Cut.{
  Cb, named, Cuts, CutFlags, find_cb, clear_cb, cb_open, to_lower, is_upper, is_numbered, cut_text,
  cut_pass, cut_twice, cut_into, cut,
}
use open_vi.Cut.Names.{content_of}
use open_vi.Cut.Passes.{cb_open-there}
use open_vi.Cut.Buffers.{cut_text-Keeps}
use open_vi.Put.{put_text, put_mode, put_into, named_source, put_source, put_from, put}

module _ {env : Env} where
  -- The failing turn.
  pass_fails :
      (m : Bool) (fm tm : Mark) (n : ℕ) (append : Bool) (c : Cuts) (e : Ed env)
      → (cut_pass m fm tm (named n) append c e).0 ≡ true
      → (b : Cb) × (find_cb n (cut_pass m fm tm (named n) append c e).1.cutq ≡ some (clear_cb b))
  unfolding cut_pass
  pass_fails m fm tm n append c e =
      let b = (cb_open (named n) append c).0 in
      let r = cut_text m fm tm b e in
      let P : Bool × Cuts × Ed env → Type 0 =
        λ x. x.0 ≡ true → (b : Cb) × (find_cb n x.1.cutq ≡ some (clear_cb b)) in
      if_intro P r.0.0 _ _
        (λ _ _.
          (r.0.1, cb_open-there (named n) append c (clear_cb r.0.1) (cut_text-Keeps m fm tm b e)))
        (λ _ z. absurd (cc z))

  cut_fails :
      (n : ℕ) (fm tm : Mark) (f : CutFlags) (c : Cuts) (e : Ed env)
      → fm.lno ≢ 0
      → tm.lno ≢ 0
      → is_upper n ≡ false
      → is_numbered fm tm f ≡ false
      → (cut (some n) fm tm f c e).0 ≡ true
      → (b : Cb) × (find_cb n (cut (some n) fm tm f c e).1.cutq ≡ some (clear_cb b))
  unfolding cut cut_into cut_twice
  cut_fails n fm tm f c e fz tz low one =
      let P : Bool × Cuts × Ed env → Type 0 =
        λ x. x.0 ≡ true → (b : Cb) × (find_cb n x.1.cutq ≡ some (clear_cb b)) in
      let r = cut_pass f.linemode fm tm (named n) false c e in
      if_intro P (fm.lno == 0 || tm.lno == 0) _ _ (λ z. absurd (ground arith))
        (λ _.
          rw (one, low)
            (if_intro P r.0 _ _ (λ bad _. pass_fails f.linemode fm tm n false c e bad)
              (λ _ z. absurd (cc z))))

module _ {env : Env} (s : Services env) (ok : Reliable env.file) where
  text_none :
      (cp rp : Mark) (append : Bool) (cnt : ℕ) (l : Line) (e : Ed env)
      → IsReady e
      → record_at (rows e) cp.lno ≡ some l
      → put_text s [] cp rp append cnt e ≡ none
  unfolding put_text
  text_none cp rp append cnt l e ready there =
      rw (db_eget-there ok cp.lno l e ready there, put_text) refl

  into_none :
      (b : Cb) (cp rp : Mark) (append : Bool) (cnt : ℕ) (l : Line) (e : Ed env)
      → IsReady e
      → record_at (rows e) cp.lno ≡ some l
      → put_into s (clear_cb b) cp rp append cnt e ≡ none
  unfolding put_into put_mode
  into_none b cp rp append cnt l e ready there =
      let P : Option ((Bool × Mark) × Ed env) → Type 0 = λ r. r ≡ none in
      let k = db_last-Reads e in
      let e1 = (db_last e).1 in
      let after =
        text_none cp rp append cnt l e1 (IsReady-of_ReadOnly k ready)
          (ap (λ ys. record_at ys cp.lno) (ap env.file.rows k.db) ∙ there) in
      if_intro P (not (cp.lno == 1)) _ _ (λ _. text_none cp rp append cnt l e ready there)
        (λ _.
          rw (db_last-length ok e ready, put_into)
            (if_intro P (not (length (rows e) == 0 && false)) _ _ (λ _. after)
              (λ z. absurd (ground arith))))

  -- A cut into a buffer of a lower case name, not numbered, that fails: the buffer is there without a
  -- line, and putting it into a line of the file, outside of text input and with right caches, reads
  -- through a null pointer.
  pub put-cut_failed :
      (n : ℕ) (fm tm : Mark) (f : CutFlags) (c : Cuts) (e g : Ed env) (cp rp : Mark) (append : Bool)
      (cnt : ℕ) (l : Line)
      → fm.lno ≢ 0
      → tm.lno ≢ 0
      → is_upper n ≡ false
      → is_numbered fm tm f ≡ false
      → (cut (some n) fm tm f c e).0 ≡ true
      → IsReady g
      → record_at (rows g) cp.lno ≡ some l
      → (content_of (find_cb n (cut (some n) fm tm f c e).1.cutq) ≡ some [])
        × (put s none (some n) cp rp append cnt (cut (some n) fm tm f c e).1 g ≡ none)
  unfolding put put_source
  put-cut_failed n fm tm f c e g cp rp append cnt l fz tz low one failed ready there =
      let (b, at_n) = cut_fails n fm tm f c e fz tz low one failed in
      let c1 = (cut (some n) fm tm f c e).1 in
      let name : to_lower n ≡ n = ground arith in
      (
        ap content_of at_n,
        ap (λ k. put_from s cp rp append cnt (named_source n (find_cb k c1.cutq) g)) name
            ∙ ap (λ o. put_from s cp rp append cnt (named_source n o g)) at_n
            ∙ into_none b cp rp append cnt l g ready there,
      )
