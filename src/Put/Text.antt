-- ===== src/Put/Text.antt =====
-- What `put` leaves of the text.
use open_vi.Common.{
  ℕ, suc, ◌-◌, ◌≤◌, Bool, true, false, not, ◌&&◌, ◌||◌, ◌≡◌, ◌⊎◌, inl, inr, refl, sym, ap, ◌∙◌,
  Option, none, some, List, arith, length, leb, ◌==◌, if◌then◌else◌, if_intro,
}
use mathlib.Core.Path.{subst}
use open_vi.Recno.{Reliable}
use open_vi.State.{Line, Mark, Env, Ed, rows}
use open_vi.Line.{db_last, db_eget}
use open_vi.Line.Reads.{ReadOnly, ReadOnly-refl, db_last-Reads}
use open_vi.Line.Refine.{IsReady, db_last-length}
use open_vi.Line.Eget.{db_eget-Reads}
use open_vi.Edit.{Services}
use open_vi.Edit.Stored.{HasRows}
use open_vi.Roll.Quiet.{Paints}
use open_vi.Delete.Loop.{HasRows-chain, HasRows-of_ReadOnly, IsReady-of_ReadOnly}
use open_vi.Cut.{Cb, Cuts}
use open_vi.Put.{
  append_times, put_lines, put_mode, put_into, put_from, put, nonblank, nonblank_at, put_source,
}
use open_vi.Put.Loop.{insert_lines, block, append_times-Put}

module _ {env : Env} where
  pub nonblank-Reads : (n off : ℕ) (e : Ed env) → ReadOnly e (nonblank n off e).1
  unfolding nonblank
  nonblank-Reads n off e = go (db_eget n e).0.0
    where
      go :
          (o : Option Line)
          → ReadOnly e
              (elim o as (λ _. (Bool × ℕ) × Ed env) [
                | none ↦ ((not (db_eget n e).0.1, 0), (db_eget n e).1)
                | some l ↦
                    if length l == 0 || leb (length l) off
                    then ((false, 0), (db_eget n e).1)
                    else ((false, nonblank_at off l), (db_eget n e).1)
              ]).1
      go none = db_eget-Reads n e
      go (some l) =
          if_intro (λ (r : (Bool × ℕ) × Ed env). ReadOnly e r.1)
            (length l == 0 || leb (length l) off) _ _ (λ _. db_eget-Reads n e)
            (λ _. db_eget-Reads n e)

module _ {env : Env} (s : Services env) (paint : Paints s) (ok : Reliable env.file) where
  -- A put that succeeds, with the cursor on line `n`, and leaves the lines `xs`.
  pub record Puts (e : Ed env) (n : ℕ) (xs : List Line) (r : Option ((Bool × Mark) × Ed env))
      : Type 0 where
    pub state : (Bool × Mark) × Ed env
    pub result : r ≡ some state
    pub fine : state.0.0 ≡ false
    pub lno : state.0.1.lno ≡ n
    pub has : HasRows e state.1 xs

  put_lines-Puts :
      (ts : List Line) (cp rp : Mark) (append : Bool) (cnt n : ℕ) (e : Ed env)
      → IsReady e
      → n ≡ (if append then cp.lno else cp.lno - 1)
      → n ≤ length (rows e)
      → Puts e
          (suc n)
          (insert_lines n (block cnt ts) (rows e))
          (some (put_lines s ts cp rp append cnt e))
  unfolding put_lines
  put_lines-Puts ts cp rp append cnt n e ready at_n le =
      let x = append_times-Put s paint ok cnt ts n e ready.has_file ready.coherent le in
      let e1 = (append_times s cnt ts n e).1 in
      let k = nonblank-Reads (suc n) 0 e1 in
      let w = HasRows-chain x.has (HasRows-of_ReadOnly k) in
      rw (← at_n) (
        rw (x.fine) (record {
          state = (
            (false, record { lno = suc n; cno = (nonblank (suc n) 0 e1).0.1 }),
            (nonblank (suc n) 0 e1).1,
          );
          result = refl;
          fine = refl;
          lno = refl;
          has = subst (HasRows e _) x.has.lines w;
        }))

  -- The line behind which a buffer in line mode goes, and the two ways to say it.
  abbrev pub behind : Mark → Bool → ℕ
  behind cp append = if append then cp.lno else cp.lno - 1

  mode_lines-Puts :
      (b : Cb) (cp rp : Mark) (append : Bool) (cnt n : ℕ) (e f : Ed env)
      → b.lmode ≡ true
      → IsReady e
      → ReadOnly e f
      → n ≡ behind cp append
      → n ≤ length (rows e)
      → Puts e
          (suc n)
          (insert_lines n (block cnt b.textq) (rows e))
          (put_mode s b cp rp append cnt f)
  unfolding put_mode
  mode_lines-Puts b cp rp append cnt n e f mode ready k at_n le =
      let same : rows f ≡ rows e = ap env.file.rows k.db in
      let x =
        put_lines-Puts b.textq cp rp append cnt n f (IsReady-of_ReadOnly k ready) at_n
          (subst (λ ys. n ≤ length ys) (sym same) le) in
      rw mode (record {
        state = x.state;
        result = x.result;
        fine = x.fine;
        lno = x.lno;
        has =
            subst (HasRows e x.state.1) (ap (insert_lines n (block cnt b.textq)) same)
              (HasRows-chain (HasRows-of_ReadOnly k) x.has);
      })

  into_lines-Puts :
      (b : Cb) (cp rp : Mark) (append : Bool) (cnt n : ℕ) (e : Ed env)
      → b.lmode ≡ true
      → IsReady e
      → n ≤ length (rows e)
      → (n ≡ behind cp append) ⊎ ((cp.lno ≡ 1) × (length (rows e) ≡ 0))
      → Puts e
          (suc n)
          (insert_lines n (block cnt b.textq) (rows e))
          (put_into s b cp rp append cnt e)
  unfolding put_into
  into_lines-Puts b cp rp append cnt n e mode ready le place =
      let P : Option ((Bool × Mark) × Ed env) → Type 0 =
        Puts e (suc n) (insert_lines n (block cnt b.textq) (rows e)) in
      let k = db_last-Reads e in
      let e1 = (db_last e).1 in
      let r1 = IsReady-of_ReadOnly k ready in
      let same : rows e1 ≡ rows e = ap env.file.rows k.db in
      let x = append_times-Put s paint ok cnt b.textq 0 e1 r1.has_file r1.coherent (omega arith) in
      if_intro P (not (cp.lno == 1)) _ _
        (λ z.
          mode_lines-Puts b cp rp append cnt n e e mode ready (ReadOnly-refl e) (not_one place z)
            le)
        (λ z.
          rw (db_last-length ok e ready, put_into)
            (if_intro P (not (length (rows e) == 0 && b.lmode)) _ _
              (λ full.
                mode_lines-Puts b cp rp append cnt n e e1 mode ready k
                  (not_empty place (length (rows e)) mode refl full) le)
              (λ empty.
                let none_in : n ≡ 0 = ground arith in
                rw (x.fine) (record {
                  state =
                      ((false, record { lno = 1; cno = 0 }), (append_times s cnt b.textq 0 e1).1);
                  result = refl;
                  fine = refl;
                  lno = omega (arith, none_in);
                  has =
                      subst (HasRows e _)
                        (ap (insert_lines 0 (block cnt b.textq)) same
                          ∙ ap (λ m. insert_lines m (block cnt b.textq) (rows e)) (sym none_in))
                        (HasRows-chain (HasRows-of_ReadOnly k) x.has);
                }))))
    where
      not_one :
          (n ≡ behind cp append) ⊎ ((cp.lno ≡ 1) × (length (rows e) ≡ 0))
          → not (cp.lno == 1) ≡ true
          → n ≡ behind cp append
      not_one (inl h) z = h
      not_one (inr h) z = absurd (ground (arith, h.0))

      not_empty :
          (n ≡ behind cp append) ⊎ ((cp.lno ≡ 1) × (length (rows e) ≡ 0))
          → (m : ℕ) → b.lmode ≡ true
          → length (rows e) ≡ m
          → not (m == 0 && b.lmode) ≡ true
          → n ≡ behind cp append
      not_empty (inl h) m l q z = h
      not_empty (inr h) m l q z = absurd (ground (arith, h.1, q, l))

  -- Outside of text input, with right caches, databases and screens that do not fail: a buffer in line
  -- mode goes in as often as the count says, behind line `n`, the line of the cursor or the one before
  -- it; into an empty file also from its start, with the cursor on line 1. The cursor ends on the first
  -- line that went in.
  pub put-lines :
      (b : Cb) (cbp : Option Cb) (name : Option ℕ) (c : Cuts) (cp rp : Mark) (append : Bool)
      (cnt n : ℕ) (e : Ed env)
      → put_source cbp name c e ≡ (some b, e)
      → b.lmode ≡ true
      → IsReady e
      → n ≤ length (rows e)
      → (n ≡ behind cp append) ⊎ ((cp.lno ≡ 1) × (length (rows e) ≡ 0))
      → Puts e
          (suc n)
          (insert_lines n (block cnt b.textq) (rows e))
          (put s cbp name cp rp append cnt c e)
  unfolding put
  put-lines b cbp name c cp rp append cnt n e source mode ready le place =
      subst
        (λ q.
          Puts e (suc n) (insert_lines n (block cnt b.textq) (rows e))
            (put_from s cp rp append cnt q))
        (sym source) (into_lines-Puts b cp rp append cnt n e mode ready le place)
