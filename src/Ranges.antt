-- ===== src/Ranges.antt =====
-- `ex_g_insdel` of ex/ex_global.c: the ranges that the @ and global commands have still to visit,
-- as lines are inserted and deleted under them.
pub mod Cover
use open_vi.Common.{
  ℕ, suc, ◌-◌, Bool, true, false, ◌&&◌, ◌||◌, List, [], ◌∷◌, ltb, leb, if◌then◌else◌,
}
use open_vi.State.{Lnop, line_append, line_delete, line_insert, line_reset, Range, ExCmd, Env, Ed}

abbrev pub range : ℕ → ℕ → Range
range a b = record { start = a; stop = b }

-- The turn of the loop for LINE_DELETE.
unfoldable pub delete_ranges : ℕ → List Range → List Range
delete_ranges n [] = []
delete_ranges n (r ∷ rs) =
    let rest = delete_ranges n rs in
    if ltb r.stop n
    then r ∷ rest
    else if leb n r.start
    then range (r.start - 1) (r.stop - 1) ∷ rest
    else if ltb (r.stop - 1) r.start
    then rest
    else range r.start (r.stop - 1) ∷ rest

-- The second half of a split range is the next element that the loop visits. It starts behind
-- `n`, so that it is never split again.
unfoldable pub visit_new : ℕ → Range → Range
visit_new n r =
    if ltb r.stop n then r else if leb n r.start then range (suc r.start) (suc r.stop) else r

-- The turn of the loop for LINE_INSERT.
unfoldable pub insert_ranges : ℕ → List Range → List Range
unfolding visit_new
insert_ranges n [] = []
insert_ranges n (r ∷ rs) =
    let rest = insert_ranges n rs in
    if ltb r.stop n
    then r ∷ rest
    else if leb n r.start
    then range (suc r.start) (suc r.stop) ∷ rest
    else range r.start (n - 1) ∷ visit_new n (range (suc n) (suc r.stop)) ∷ rest

unfoldable pub update_commands : (List Range → List Range) → ℕ → List ExCmd → List ExCmd
update_commands f n [] = []
update_commands f n (c ∷ cs) =
    (if c.agv then record c { rq = f c.rq; range_lno = n } else c) ∷ update_commands f n cs

module _ {env : Env} where
  -- LINE_APPEND aborts; no caller passes it.
  unfoldable pub ex_g_insdel : Lnop → ℕ → Ed env → Ed env
  unfolding update_commands
  ex_g_insdel line_delete n e = record e { ecq = update_commands (delete_ranges n) n e.ecq }
  ex_g_insdel line_insert n e = record e { ecq = update_commands (insert_ranges n) n e.ecq }
  ex_g_insdel line_reset n e = e
  ex_g_insdel line_append n e = e
