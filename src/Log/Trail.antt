-- ===== src/Log/Trail.antt =====
-- What the log holds while a change is being made, and what one more record adds.
use open_vi.Common.{
  ℕ, zero, suc, ◌≤◌, false, ◌≡◌, ◌≢◌, refl, ap, ◌∙◌, some, List, [], ◌∷◌, arith, length, record_at,
  store_record, ◌⊎◌, inl, inr, record_at-store_record_lt,
}
use open_vi.State.{Mark, LogRec, cursor_init, Env, Ed, records}

-- Going down from record `cur`, the log holds `s`, and then the cursor record that starts the
-- change, at record `c0`.
abbrev pub Stacked : List LogRec → ℕ → List LogRec → ℕ → Mark → Type 0
Stacked es zero s c0 m = ⊥
Stacked es (suc c) [] c0 m = (c ≡ c0) × (record_at es c ≡ some (cursor_init m))
Stacked es (suc c) (r ∷ s) c0 m = (record_at es c ≡ some r) × Stacked es c s c0 m

-- A record at or above the top does not show.
pub Stacked-store :
    (es : List LogRec) (c : ℕ) (s : List LogRec) (c0 : ℕ) (m : Mark) (k : ℕ) (r : LogRec)
    → c ≤ k
    → 1 ≤ k
    → k ≤ suc (length es)
    → Stacked es c s c0 m
    → Stacked (store_record es k r) c s c0 m
Stacked-store es zero s c0 m k r h p b x = x
Stacked-store es (suc c) [] c0 m k r h p b (x, y) =
    (x, record_at-store_record_lt es k c r (omega arith) b ∙ y)
Stacked-store es (suc c) (q ∷ s) c0 m k r h p b (x, y) = (
  record_at-store_record_lt es k c r (omega arith) b ∙ x,
  Stacked-store es c s c0 m k r (omega arith) p b y,
)

module _ {env : Env} where
  -- Logging is on, and the next record can be stored.
  pub record IsLogging (e : Ed env) : Type 0 where
    pub on : e.nolog ≡ false
    pub first : 1 ≤ e.l_cur
    pub last : e.l_cur ≤ suc (length (records e))

  -- The change that started at record `c0`, with the cursor at `m`, has logged `s` so far.
  pub record Started (c0 : ℕ) (m : Mark) (s : List LogRec) (e : Ed env) : Type 0 where
    pub logging : IsLogging e
    pub cursor : e.l_cursor.lno ≡ 0
    pub high : e.l_high ≡ e.l_cur
    pub stack : Stacked (records e) e.l_cur s c0 m

  -- A change is about to start.
  pub record Pending (c0 : ℕ) (m : Mark) (e : Ed env) : Type 0 where
    pub logging : IsLogging e
    pub cursor : e.l_cursor ≡ m
    pub real : m.lno ≢ 0
    pub base : e.l_cur ≡ c0

  abbrev pub Trail : ℕ → Mark → List LogRec → Ed env → Type 0
  Trail c0 m [] e = Pending c0 m e ⊎ Started c0 m [] e
  Trail c0 m (r ∷ s) e = Started c0 m (r ∷ s) e

  -- The log and all that belongs to it are the same.
  pub record SameLog (e f : Ed env) : Type 0 where
    pub log : f.log ≡ e.log
    pub l_high : f.l_high ≡ e.l_high
    pub l_cur : f.l_cur ≡ e.l_cur
    pub l_cursor : f.l_cursor ≡ e.l_cursor
    pub nolog : f.nolog ≡ e.nolog

  pub SameLog-refl : (e : Ed env) → SameLog e e
  SameLog-refl e = record { log = refl; l_high = refl; l_cur = refl; l_cursor = refl; nolog = refl }

  pub SameLog-trans : {e f g : Ed env} → SameLog e f → SameLog f g → SameLog e g
  SameLog-trans p q = record {
    log = q.log ∙ p.log;
    l_high = q.l_high ∙ p.l_high;
    l_cur = q.l_cur ∙ p.l_cur;
    l_cursor = q.l_cursor ∙ p.l_cursor;
    nolog = q.nolog ∙ p.nolog;
  }

  -- A state that differs from `e` in other fields.
  abbrev pub same_log :
      {e f : Ed env}
      → f.log ≡ e.log
      → f.l_high ≡ e.l_high
      → f.l_cur ≡ e.l_cur
      → f.l_cursor ≡ e.l_cursor
      → f.nolog ≡ e.nolog
      → SameLog e f
  same_log a b c d n = record { log = a; l_high = b; l_cur = c; l_cursor = d; nolog = n }

  IsLogging-of_SameLog : {e f : Ed env} → SameLog e f → IsLogging e → IsLogging f
  IsLogging-of_SameLog p h = record {
    on = p.nolog ∙ h.on;
    first = rw p.l_cur h.first;
    last = rw (p.l_cur, p.log) h.last;
  }

  pub Started-of_SameLog :
      {c0 : ℕ} {m : Mark} {s : List LogRec} {e f : Ed env}
      → SameLog e f
      → Started c0 m s e
      → Started c0 m s f
  Started-of_SameLog p h = record {
    logging = IsLogging-of_SameLog p h.logging;
    cursor = ap (λ (k : Mark). k.lno) p.l_cursor ∙ h.cursor;
    high = rw (p.l_high, p.l_cur) h.high;
    stack = rw (p.log, p.l_cur) h.stack;
  }

  pub Trail-of_SameLog :
      (c0 : ℕ) (m : Mark) (s : List LogRec) {e f : Ed env}
      → SameLog e f
      → Trail c0 m s e
      → Trail c0 m s f
  Trail-of_SameLog c0 m [] p (inl h) = inl (record {
    logging = IsLogging-of_SameLog p h.logging;
    cursor = p.l_cursor ∙ h.cursor;
    real = h.real;
    base = p.l_cur ∙ h.base;
  })
  Trail-of_SameLog c0 m [] p (inr h) = inr (Started-of_SameLog p h)
  Trail-of_SameLog c0 m (r ∷ s) p h = Started-of_SameLog p h
