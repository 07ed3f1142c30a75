-- ===== src/ExLines/Copy.antt =====
-- What ex_copy makes of the lines.
use open_vi.Common.{
  ℕ, suc, ◌+◌, ◌-◌, ◌≤◌, ◌<◌, ◌≡◌, Bool, true, false, not, refl, sym, ap, ◌∙◌, Option, none, some,
  List, inl, arith, length, take, drop, if_intro, append_nil,
}
use mathlib.Core.Path.{subst}
use open_vi.Recno.{Reliable}
use open_vi.State.{Line, Mark, Env, Ed, rows}
use open_vi.Line.Refine.{IsReady}
use open_vi.Edit.{Services}
use open_vi.Roll.Quiet.{Paints}
use open_vi.Delete.Loop.{IsReady-of_ReadOnly}
use open_vi.Cut.{Cb, Cuts, cut_lines, empty_cb}
use open_vi.Cut.Lines.{Adds, cut_lines-Adds}
use open_vi.Put.{put_source}
use open_vi.Put.Loop.{insert_lines}
use open_vi.Put.Text.{Puts, put-lines}
use open_vi.ExLines.{Command, copied, ex_copy}

module _ {env : Env} (s : Services env) (paint : Paints s) (ok : Reliable env.file) where
  -- A command that succeeds, with the cursor on line `n`, and leaves the lines `xs`.
  pub record Copies (e : Ed env) (n : ℕ) (xs : List Line) (r : Option (Bool × Ed env))
      : Type 0 where
    pub state : Bool × Ed env
    pub result : r ≡ some state
    pub fine : state.0 ≡ false
    pub lno : state.1.lno ≡ n
    pub lines : rows state.1 ≡ xs

  put-Copies :
      (cnt n m : ℕ) (e : Ed env) (xs ys : List Line) (r : Option ((Bool × Mark) × Ed env))
      → Puts s paint ok e n xs r
      → xs ≡ ys
      → m ≡ n + (cnt - 1)
      → Copies e m ys (copied s cnt r)
  put-Copies cnt n m e xs ys r x same at_m =
      subst (λ q. Copies e m ys (copied s cnt q)) (sym x.result)
        (rw (x.fine) (record {
          state = (false, record x.state.1 { lno = x.state.0.1.lno + (cnt - 1); cno = 0 });
          result = refl;
          fine = refl;
          lno = omega (arith, x.lno, at_m);
          lines = x.has.lines ∙ same;
        }))

  put_source-given : (b : Cb) (c : Cuts) (e : Ed env) → put_source (some b) none c e ≡ (some b, e)
  unfolding put_source
  put_source-given b c e = refl

  -- Outside of text input, with right caches, databases and screens that do not fail: copying lines
  -- `i + 1` to `j` behind line `m`, which may be one of them, puts just those lines there, as they were,
  -- and leaves the cursor on the last of the copies.
  pub ex_copy-lines :
      (i j m : ℕ) (c : Command) (q : Cuts) (e : Ed env)
      → IsReady e
      → i < j
      → j ≤ length (rows e)
      → m ≤ length (rows e)
      → c.addr1.lno ≡ suc i
      → c.addr2.lno ≡ j
      → c.lineno ≡ m
      → Copies e
          (m + (j - i))
          (insert_lines m (take (j - i) (drop i (rows e))) (rows e))
          (ex_copy s c q e)
  unfolding ex_copy
  ex_copy-lines i j m c q e ready lt fits le at_1 at_2 at_m =
      let k = suc c.addr2.lno - c.addr1.lno in
      let n : k ≡ j - i = omega (arith, at_1, at_2) in
      let ts = take (j - i) (drop i (rows e)) in
      let b = empty_cb 0 in
      let r = cut_lines k c.addr1.lno b e in
      let x =
        subst (λ v. Adds b e (cut_lines k v b e) ts) (sym at_1)
          (subst (λ v. Adds b e (cut_lines v (suc i) b e) ts) (sym n)
            (cut_lines-Adds ok (rows e) (j - i) i b e ready refl (omega arith))) in
      let b1 = record r.0.1 { lmode = true } in
      let to : Mark = record { lno = c.lineno; cno = 0 } in
      let same : rows r.1 ≡ rows e = ap env.file.rows x.reads.db in
      let y =
        put-lines s paint ok b1 (some b1) none q to to true 1 m r.1 (put_source-given b1 q r.1) refl
          (IsReady-of_ReadOnly x.reads ready) (subst (λ ys. m ≤ length ys) (sym same) le)
          (inl (sym at_m)) in
      let z =
        put-Copies (suc (c.addr2.lno - c.addr1.lno)) (suc m) (m + (j - i)) r.1 _
          (insert_lines m ts (rows e)) _ y
          (ap (λ us. insert_lines m us (rows r.1)) (append_nil r.0.1.textq ∙ x.text)
            ∙ ap (insert_lines m ts) same)
          (omega (arith, at_1, at_2)) in
      let P : Option (Bool × Ed env) → Type 0 =
        Copies e (m + (j - i)) (insert_lines m ts (rows e)) in
      if_intro P (not e.has_file) _ _ (λ w. absurd (ground (arith, ready.has_file)))
        λ _.
          if_intro P r.0.0 _ _ (λ bad. cc (x.fine))
            (λ _. record {
              state = z.state;
              result = z.result;
              fine = z.fine;
              lno = z.lno;
              lines = z.lines;
            })
