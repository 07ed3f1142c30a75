-- ===== src/Marks/Order.antt =====
-- The marks as a sorted dictionary: what setting and finding by position amounts to.
use open_vi.Common.{
  ℕ, suc, ◌<◌, ◌≡◌, refl, Bool, Option, none, some, List, [], ◌∷◌, arith, ltb, leb, ◌==◌,
  if◌then◌else◌, if_intro, Bool-cases, inl, inr,
}
use mathlib.Core.Path.{subst}
use open_vi.State.{Mark, LMark}
use open_vi.Marks.{find_from, mark_find, new_mark, keeps_mark, set_mark, named}

-- The names rise.
abbrev pub Below : ℕ → List LMark → Type 0
Below a [] = Unit
Below a (m ∷ ms) = a < m.name

abbrev pub IsSorted : List LMark → Type 0
IsSorted [] = Unit
IsSorted (m ∷ ms) = Below m.name ms × IsSorted ms

-- Setting and finding by name, by recursion on the list.
unfoldable pub upsert : List LMark → ℕ → Mark → Bool → List LMark
upsert [] key v u = new_mark key v u ∷ []
upsert (m ∷ ms) key v u =
    if ltb key m.name
    then new_mark key v u ∷ m ∷ ms
    else if m.name == key
    then (if keeps_mark m u then m else new_mark key v u) ∷ ms
    else m ∷ upsert ms key v u

unfoldable pub find_name : List LMark → ℕ → Option LMark
find_name [] key = none
find_name (m ∷ ms) key = if m.name == key then some m else find_name ms key

-- The slot found in a tail, as a slot of the list.
abbrev bump : Option ℕ → Option ℕ
bump none = some 0
bump (some i) = some (suc i)

find_from-bump :
    (ms : List LMark) (key i : ℕ) (last : Option ℕ)
    → find_from ms key (suc i) (bump last) ≡ bump (find_from ms key i last)
unfolding find_from
find_from-bump [] key i last = refl
find_from-bump (m ∷ ms) key i last = ground (arith, find_from-bump ms key (suc i) (some i))

mark_find-cons :
    (m : LMark) (ms : List LMark) (key : ℕ)
    → m.name < key
    → mark_find (m ∷ ms) key ≡ bump (mark_find ms key)
unfolding mark_find find_from
mark_find-cons m ms key h = ground (arith, find_from-bump ms key 0 none)

set_mark-bump :
    (m : LMark) (ms : List LMark) (o : Option ℕ) (key : ℕ) (v : Mark) (u : Bool)
    → m.name < key
    → set_mark (m ∷ ms) (bump o) key v u ≡ m ∷ set_mark ms o key v u
unfolding set_mark
set_mark-bump m ms none key v u h = ground arith
set_mark-bump m ms (some i) key v u h = ground arith

-- Setting a mark at the slot that the search returns is setting it by name.
pub set_mark-mark_find :
    (ms : List LMark) (key : ℕ) (v : Mark) (u : Bool)
    → set_mark ms (mark_find ms key) key v u ≡ upsert ms key v u
set_mark-mark_find [] key v u = unfold mark_find find_from set_mark upsert in refl
set_mark-mark_find (m ∷ ms) key v u = elim (Bool-cases (leb key m.name)) [
  | inl stop ↦ unfold mark_find find_from set_mark upsert in ground arith
  | inr go ↦
      let below : m.name < key = ground arith in
      rw (mark_find-cons m ms key below, set_mark-bump m ms (mark_find ms key) key v u below)
        (rw (set_mark-mark_find ms key v u) (unfold upsert in ground arith))
]

named-bump :
    (m : LMark) (ms : List LMark) (o : Option ℕ) (key : ℕ)
    → m.name < key
    → named (m ∷ ms) (bump o) key ≡ named ms o key
unfolding named
named-bump m ms none key h = ground arith
named-bump m ms (some i) key h = ground arith

find_name-Below :
    (ms : List LMark) (a key : ℕ) → key < suc a → Below a ms → IsSorted ms → find_name ms key ≡ none
unfolding find_name
find_name-Below [] a key h b s = refl
find_name-Below (m ∷ ms) a key h b s =
    ground (arith, find_name-Below ms m.name key (omega arith) s.0 s.1)

-- In a sorted list, the search by position finds the mark of the name.
pub named-mark_find :
    (ms : List LMark) (key : ℕ) → IsSorted ms → named ms (mark_find ms key) key ≡ find_name ms key
named-mark_find [] key s = unfold mark_find find_from named find_name in refl
named-mark_find (m ∷ ms) key s = elim (Bool-cases (leb key m.name)) [
  | inl stop ↦
      unfold mark_find find_from named find_name in
      ground (arith, find_name-Below ms m.name key (ground arith) s.0 s.1)
  | inr go ↦
      let below : m.name < key = ground arith in
      rw (mark_find-cons m ms key below, named-bump m ms (mark_find ms key) key below)
        (rw (named-mark_find ms key s.1) (unfold find_name in ground arith))
]

upsert-Below :
    (ms : List LMark) (a key : ℕ) (v : Mark) (u : Bool)
    → a < key
    → Below a ms
    → Below a (upsert ms key v u)
unfolding upsert
upsert-Below [] a key v u h b = h
upsert-Below (m ∷ ms) a key v u h b = ground arith

pub upsert-IsSorted :
    (ms : List LMark) (key : ℕ) (v : Mark) (u : Bool) → IsSorted ms → IsSorted (upsert ms key v u)
unfolding upsert
upsert-IsSorted [] key v u s = (tt, tt)
upsert-IsSorted (m ∷ ms) key v u s =
    if_intro IsSorted (ltb key m.name) _ _ (λ lt. (ground arith, s))
      λ ge.
        if_intro IsSorted (m.name == key) _ _
          (λ same.
            if_intro (λ x. IsSorted (x ∷ ms)) (keeps_mark m u) _ _ (λ _. s)
              (λ _. (subst (λ n. Below n ms) (ground arith) s.0, s.1)))
          (λ ne.
            (upsert-Below ms m.name key v u (ground arith) s.0, upsert-IsSorted ms key v u s.1))

-- The mark that setting `key` leaves there: a mark that the user set is kept by an undo.
abbrev pub resolve : Option LMark → ℕ → Mark → Bool → LMark
resolve none key v u = new_mark key v u
resolve (some m) key v u = if keeps_mark m u then m else new_mark key v u

-- What a look-up finds after a mark is set.
pub find_name-upsert :
    (ms : List LMark) (key j : ℕ) (v : Mark) (u : Bool)
    → IsSorted ms
    → find_name (upsert ms key v u) j
      ≡ (if key == j then some (resolve (find_name ms key) key v u) else find_name ms j)
unfolding upsert find_name
find_name-upsert [] key j v u s = ground arith
find_name-upsert (m ∷ ms) key j v u s =
    ground (arith, find_name-upsert ms key j v u s.1, find_name-Below ms m.name key)
