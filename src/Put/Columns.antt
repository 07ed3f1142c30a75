-- ===== src/Put/Columns.antt =====
-- What `put` makes of a line, from a buffer that was cut in character mode.
use open_vi.Common.{
  ℕ, suc, ◌+◌, ◌≤◌, Bool, true, false, not, ◌&&◌, ◌≡◌, ◌⊎◌, refl, sym, ap, ◌∙◌, Option, some, List,
  [], ◌∷◌, ◌++◌, arith, length, take, drop, record_at, store_at, ◌==◌, if_intro, if◌then◌else◌,
  record_at_bounds, length-store_record, store_at_cut,
}
use mathlib.Core.Path.{subst}
use open_vi.Recno.{Reliable}
use open_vi.State.{Line, Mark, Env, Ed, rows}
use open_vi.Line.{db_last, db_eget}
use open_vi.Line.Reads.{IsCoherent, ReadOnly, ReadOnly-refl, ReadOnly-trans, db_last-Reads}
use open_vi.Line.Refine.{IsReady, db_last-length}
use open_vi.Line.Eget.{db_eget-Reads, db_eget-there}
use open_vi.Edit.{Services, db_set, db_append}
use open_vi.Edit.Stored.{HasRows}
use open_vi.Edit.Rows.{db_append-rows}
use open_vi.Edit.Caches.{db_set-IsCoherent}
use open_vi.Roll.{count_change}
use open_vi.Roll.Quiet.{Paints}
use open_vi.Delete.Loop.{
  at, Leaves, set-Leaves, HasRows-chain, HasRows-of_ReadOnly, IsReady-of_ReadOnly,
}
use open_vi.Cut.{Cb, Cuts}
use open_vi.Put.{
  repeated, left_of, right_of, in_line, has_room, middle, last_line, append_lines, put_rest,
  put_columns, put_text, put_mode, put_into, put_from, put_source, put,
}
use open_vi.Put.Loop.{
  insert_at_cut, insert_lines, length-insert_lines, append_lines-Put, append_fine,
}
use open_vi.Put.Text.{Puts}
use open_vi.Put.Glue.{glue, copies, spliced, spliced-glue, stored_lines}

module _ {env : Env} (s : Services env) (paint : Paints s) (ok : Reliable env.file) where
  set-after :
      (i : ℕ) (p : Line) (e : Ed env)
      → IsReady e
      → suc i ≤ length (rows e)
      → ((db_set s (suc i) p e).0 ≡ false)
        × HasRows e (count_change (suc i) (db_set s (suc i) p e).1) (store_at (rows e) i p)
        × IsCoherent (count_change (suc i) (db_set s (suc i) p e).1)
  set-after i p e ready b =
      let (fine, w) =
        set-Leaves s paint ok (λ n. false) (λ n. refl) (suc i) p e ready.has_file (omega arith) b in
      let c = db_set-IsCoherent s ok (suc i) e ready.has_file ready.coherent p (omega arith) b in
      let f = (db_set s (suc i) p e).1 in
      (
        fine,
        if_intro (λ (g : Ed env). HasRows e g (store_at (rows e) i p)) (f.rptlchange == suc i) _ _
            (λ _. w) (λ _. record { has_file = w.has_file; tiq = w.tiq; lines = w.lines }),
        if_intro (λ (g : Ed env). IsCoherent g) (f.rptlchange == suc i) _ _ (λ _. c)
            (λ _. record { line = c.line; count = c.count }),
      )

  -- The lines behind the first.
  rest-Leaves :
      (u : Line) (us : List Line) (right : Line) (n : ℕ) (e : Ed env)
      → e.has_file ≡ true
      → IsCoherent e
      → n ≤ length (rows e)
      → Leaves e (put_rest s u us right n e) (
          insert_lines
            (n + length (middle (u ∷ us)))
            ((last_line u us ++ right) ∷ [])
            (insert_lines n (middle (u ∷ us)) (rows e)))
  unfolding put_rest
  rest-Leaves u us right n e h c b =
      let v = last_line u us ++ right in
      let ts = middle (u ∷ us) in
      let x = append_lines-Put s paint ok ts n e h c b in
      let r = append_lines s ts n e in
      let h1 = x.has.has_file ∙ h in
      let le : r.0.1 ≤ length (rows r.1) =
        subst (λ ys. r.0.1 ≤ length ys) (sym x.has.lines)
          (omega (arith, x.at, length-insert_lines (rows e) n ts b)) in
      let w = db_append-rows s ok r.0.1 r.1 h1 true v le in
      let fine = append_fine s paint ok r.0.1 v r.1 h1 le in
      let a = db_append s true r.0.1 v r.1 in
      let lines : rows a.1 ≡ insert_lines (n + length ts) (v ∷ []) (insert_lines n ts (rows e)) =
        w.lines
        ∙ insert_at_cut (rows r.1) r.0.1 v le
        ∙ ap (λ m. insert_lines m (v ∷ []) (rows r.1)) x.at
        ∙ ap (insert_lines (n + length ts) (v ∷ [])) x.has.lines in
      let P : Bool × Ed env → Type 0 =
        λ z. Leaves e z (insert_lines (n + length ts) (v ∷ []) (insert_lines n ts (rows e))) in
      if_intro P r.0.0 _ _ (λ bad. cc (x.fine))
        λ _.
          if_intro P a.0 _ _ (λ bad. cc fine)
            (λ _. (
              refl,
              record {
                has_file = w.has_file ∙ x.has.has_file;
                tiq = w.tiq ∙ x.has.tiq;
                lines = lines;
              },
            ))

  -- The splice, into line `i + 1` of the lines `xs`.
  columns-Leaves :
      (i c : ℕ) (append : Bool) (cnt : ℕ) (t : Line) (us : List Line) (l : Line) (e : Ed env)
      → IsReady e
      → suc i ≤ length (rows e)
      → Leaves e (put_columns s t us l (at (suc i) c) append cnt e) (
          take i (rows e)
          ++ (spliced cnt t us (left_of (at (suc i) c) append l) (right_of (at (suc i) c) append l)
              ++ drop (suc i) (rows e)))
  unfolding put_columns
  columns-Leaves i c append cnt t [] l e ready b =
      let v =
        left_of (at (suc i) c) append l ++ (repeated cnt t ++ right_of (at (suc i) c) append l) in
      let (fine, w, k) = set-after i v e ready b in
      rw fine (refl, subst (HasRows e _) (store_at_cut (rows e) i v (omega arith)) w)
  columns-Leaves i c append cnt t (u ∷ us) l e ready b =
      let v = left_of (at (suc i) c) append l ++ repeated cnt t in
      let right = right_of (at (suc i) c) append l in
      let (fine, w, k) = set-after i v e ready b in
      let f = count_change (suc i) (db_set s (suc i) v e).1 in
      let le : suc i ≤ length (rows f) =
        subst (λ ys. suc i ≤ length ys) (sym w.lines)
          (omega (arith, length-store_record (rows e) (suc i) v (omega arith) b)) in
      let (ok_rest, z) = rest-Leaves u us right (suc i) f (w.has_file ∙ ready.has_file) k le in
      rw fine (
        ok_rest,
        subst (HasRows e _)
            (ap
                (λ ys.
                  insert_lines (suc i + length (middle (u ∷ us))) ((last_line u us ++ right) ∷ [])
                    (insert_lines (suc i) (middle (u ∷ us)) ys))
                w.lines
              ∙ stored_lines (rows e) i v (last_line u us ++ right) (middle (u ∷ us)) (omega arith))
            (HasRows-chain w z),
      )

  text-Puts :
      (i c : ℕ) (rp : Mark) (append : Bool) (cnt : ℕ) (t : Line) (us : List Line) (l : Line)
      (e f : Ed env)
      → IsReady e
      → ReadOnly e f
      → record_at (rows e) (suc i) ≡ some l
      → in_line (at (suc i) c) append l ≡ true
      → has_room s.tmp_blen t us l (at (suc i) c) append cnt ≡ true
      → Puts s paint ok e
          (suc i)
          (take i (rows e)
            ++ (spliced cnt t us
                  (left_of (at (suc i) c) append l)
                  (right_of (at (suc i) c) append l)
                ++ drop (suc i) (rows e)))
          (put_text s (t ∷ us) (at (suc i) c) rp append cnt f)
  unfolding put_text
  text-Puts i c rp append cnt t us l e f ready k there inside room =
      let readyf = IsReady-of_ReadOnly k ready in
      let samef : rows f ≡ rows e = ap env.file.rows k.db in
      let got =
        db_eget-there ok (suc i) l f readyf (ap (λ ys. record_at ys (suc i)) samef ∙ there) in
      let f1 = (db_eget (suc i) f).1 in
      let k1 = ReadOnly-trans k (db_eget-Reads (suc i) f) in
      let same : rows f1 ≡ rows e = ap env.file.rows k1.db in
      let (fine, w) =
        columns-Leaves i c append cnt t us l f1 (IsReady-of_ReadOnly k1 ready) (
          subst (λ ys. suc i ≤ length ys) (sym same) (record_at_bounds (rows e) (suc i) there).1) in
      rw (got, inside, room, put_text)
        (record {
          state = _;
          result = refl;
          fine = fine;
          lno = refl;
          has =
              subst (HasRows e _)
                (ap
                  (λ ys.
                    take i ys
                    ++ (spliced cnt t us (left_of (at (suc i) c) append l)
                          (right_of (at (suc i) c) append l)
                        ++ drop (suc i) ys))
                  same)
                (HasRows-chain (HasRows-of_ReadOnly k1) w);
        })

  columns_spliced :
      (b : Cb) (cbp : Option Cb) (name : Option ℕ) (q : Cuts) (i c : ℕ) (rp : Mark) (append : Bool)
      (cnt : ℕ) (t : Line) (us : List Line) (l : Line) (e : Ed env)
      → put_source cbp name q e ≡ (some b, e)
      → b.lmode ≡ false
      → b.textq ≡ t ∷ us
      → IsReady e
      → record_at (rows e) (suc i) ≡ some l
      → in_line (at (suc i) c) append l ≡ true
      → has_room s.tmp_blen t us l (at (suc i) c) append cnt ≡ true
      → Puts s paint ok e
          (suc i)
          (take i (rows e)
            ++ (spliced cnt t us
                  (left_of (at (suc i) c) append l)
                  (right_of (at (suc i) c) append l)
                ++ drop (suc i) (rows e)))
          (put s cbp name (at (suc i) c) rp append cnt q e)
  unfolding put put_into put_mode
  columns_spliced b cbp name q i c rp append cnt t us l e source mode text ready there inside room =
      let P : Option ((Bool × Mark) × Ed env) → Type 0 = Puts s paint ok e (suc i) (
        take i (rows e)
        ++ (spliced cnt t us (left_of (at (suc i) c) append l) (right_of (at (suc i) c) append l)
            ++ drop (suc i) (rows e))) in
      let here : (f : Ed env) → ReadOnly e f → P (put_mode s b (at (suc i) c) rp append cnt f) =
        λ f k. rw (mode, text) (text-Puts i c rp append cnt t us l e f ready k there inside room) in
      subst (λ z. P (put_from s (at (suc i) c) rp append cnt z)) (sym source)
        (if_intro P (not (suc i == 1)) _ _ (λ _. here e (ReadOnly-refl e))
          (λ _.
            rw (db_last-length ok e ready, put_into)
              (if_intro P (not (length (rows e) == 0 && b.lmode)) _ _
                (λ _. here (db_last e).1 (db_last-Reads e)) (λ z. absurd (ground (arith, mode))))))

  -- Outside of text input, with right caches, databases and screens that do not fail, in a line that is
  -- empty or has a place for the text at the column of the mark or, appending, behind it, and with a
  -- temporary buffer that the copies stay in: a buffer in character mode, whose first line is `t`, goes
  -- into the line of the mark. The line is split at that place; its left part goes before the text of
  -- the buffer, whose first line is taken as often as the count says, and its right part behind. The
  -- cursor goes to the line.
  pub put-columns :
      (b : Cb) (cbp : Option Cb) (name : Option ℕ) (q : Cuts) (i c : ℕ) (rp : Mark) (append : Bool)
      (cnt : ℕ) (t : Line) (us : List Line) (l : Line) (e : Ed env)
      → put_source cbp name q e ≡ (some b, e)
      → b.lmode ≡ false
      → b.textq ≡ t ∷ us
      → IsReady e
      → record_at (rows e) (suc i) ≡ some l
      → (length l ≡ 0) ⊎ ((if append then suc c else c) ≤ length l)
      → has_room s.tmp_blen t us l (at (suc i) c) append cnt ≡ true
      → Puts s paint ok e
          (suc i)
          (take i (rows e)
            ++ (glue
                  (take (if append then suc c else c) l)
                  (copies cnt t ∷ us)
                  (drop (if append then suc c else c) l)
                ++ drop (suc i) (rows e)))
          (put s cbp name (at (suc i) c) rp append cnt q e)
  put-columns b cbp name q i c rp append cnt t us l e source mode text ready there inside room =
      subst
        (λ ls.
          Puts s paint ok e (suc i) (take i (rows e) ++ (ls ++ drop (suc i) (rows e)))
            (put s cbp name (at (suc i) c) rp append cnt q e))
        (spliced-glue cnt t us (at (suc i) c) append l)
        (columns_spliced b cbp name q i c rp append cnt t us l e source mode text ready there
          (ground (arith, inside)) room)
