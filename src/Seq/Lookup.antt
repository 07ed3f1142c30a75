-- ===== src/Seq/Lookup.antt =====
-- The search in the sorted list of sequences, against a search through all of it.
use open_vi.Common.{
  ℕ, suc, ◌+◌, ◌≤◌, ◌<◌, ◌≡◌, ◌≢◌, Bool, true, false, ◌&&◌, if◌then◌else◌, refl, sym, ◌∙◌, Option,
  none, some, List, [], ◌∷◌, arith, ltb, Bool-cases, inl, inr,
}
use mathlib.Core.Path.{subst}
use open_vi.State.{Line}
use open_vi.Seq.{
  SeqType, seq_abbrev, seq_command, seq_input, is_type, Seq, Sign, less, same, more, first, stop,
  go_on, Found, after_turn, find_loop, seq_find,
}
use open_vi.Seq.Order.{
  order, eq_line, eq_line-order, order-more, turn_of, matches, turn-order, turn-other,
}

abbrev pub AllOf : (Seq → Type 0) → List Seq → Type 0
AllOf P [] = Unit
AllOf P (q ∷ qs) = P q × AllOf P qs

pub AllOf-map :
    {P Q : Seq → Type 0} → ((q : Seq) → P q → Q q) → (qs : List Seq) → AllOf P qs → AllOf Q qs
AllOf-map f [] h = tt
AllOf-map f (q ∷ qs) (h, hs) = (f q h, AllOf-map f qs hs)

-- The entry `r` may stand behind `q`: first bytes never fall, and the inputs that a search for the type of
-- `q` looks at rise.
abbrev pub Follows : Seq → Seq → Type 0
Follows q r =
    (first q.input ≤ first r.input)
    × (q.flags.funcmap ≡ false → matches q.stype r ≡ true → order q.input r.input ≡ less)

abbrev pub IsSorted : List Seq → Type 0
IsSorted [] = Unit
IsSorted (q ∷ qs) = (q.input ≢ []) × (AllOf (Follows q) qs × IsSorted qs)

-- The entry of that type for just that input.
abbrev pub lookup : Line → SeqType → List Seq → Option Seq
lookup c t [] = none
lookup c t (q ∷ qs) = if matches t q && eq_line q.input c then some q else lookup c t qs

pub is_type-eq : (a b : SeqType) → is_type a b ≡ true → a ≡ b
is_type-eq seq_abbrev seq_abbrev h = refl
is_type-eq seq_abbrev seq_command h = absurd (cc h)
is_type-eq seq_abbrev seq_input h = absurd (cc h)
is_type-eq seq_command seq_abbrev h = absurd (cc h)
is_type-eq seq_command seq_command h = refl
is_type-eq seq_command seq_input h = absurd (cc h)
is_type-eq seq_input seq_abbrev h = absurd (cc h)
is_type-eq seq_input seq_command h = absurd (cc h)
is_type-eq seq_input seq_input h = refl

-- What is ahead of the place of the key `c`, and what is behind it.
abbrev pub Ahead : Line → SeqType → Seq → Type 0
Ahead c t q = (first q.input ≤ first c) × (matches t q ≡ true → order q.input c ≡ less)

abbrev pub Behind : Line → SeqType → Seq → Type 0
Behind c t q = (first c ≤ first q.input) × (matches t q ≡ true → order q.input c ≡ more)

-- The key is `k` entries down the list, where its entry is or has its place.
pub data Finds (c : Line) (t : SeqType) : List Seq → ℕ → Option Seq → Type 0 where
  at_entry :
      (q : Seq) (qs : List Seq)
      → matches t q ≡ true
      → order q.input c ≡ same
      → Finds c t (q ∷ qs) 0 (some q)
  at_place : (qs : List Seq) → AllOf (Behind c t) qs → Finds c t qs 0 none
  past :
      (q : Seq) (qs : List Seq) (k : ℕ) (o : Option Seq)
      → Ahead c t q
      → Finds c t qs k o
      → Finds c t (q ∷ qs) (suc k) o

order-first_less : (a c : Line) → c ≢ [] → first c < first a → order a c ≡ more
order-first_less [] c cz h = absurd (omega arith)
order-first_less (x ∷ a) [] cz h = absurd (cz refl)
order-first_less (x ∷ a) (y ∷ c) cz h = ground arith

order-first : (a c : Line) → c ≢ [] → a ≢ [] → order a c ≡ more → first c ≤ first a
order-first [] c cz az h = absurd (az refl)
order-first (x ∷ a) [] cz az h = absurd (cz refl)
order-first (x ∷ a) (y ∷ c) cz az h = ground arith

order-first_of_less : (a c : Line) → c ≢ [] → a ≢ [] → order a c ≡ less → first a ≤ first c
order-first_of_less [] c cz az h = absurd (az refl)
order-first_of_less (x ∷ a) [] cz az h = absurd (cz refl)
order-first_of_less (x ∷ a) (y ∷ c) cz az h = ground arith

matches-stype :
    (t : SeqType) (q : Seq) → matches t q ≡ true → (q.stype ≡ t) × (q.flags.funcmap ≡ false)
matches-stype t q h = (is_type-eq q.stype t (ground (arith, h)), ground (arith, h))

module _ (c : Line) (t : SeqType) (cz : c ≢ []) where
  -- The answer of the loop, when it has come by `n` entries.
  record Answers (n : ℕ) (qs : List Seq) (f : Found) : Type 0 where
    k : ℕ
    before : f.before ≡ n + k
    finds : Finds c t qs k f.entry

  go_past :
      (n : ℕ) (q : Seq) (qs : List Seq) (f : Found)
      → Ahead c t q
      → Answers (suc n) qs f
      → Answers n (q ∷ qs) f
  go_past n q qs f h x = record {
    k = suc x.k;
    before = omega (arith, x.before);
    finds = past q qs x.k f.entry h x.finds;
  }

  -- Behind an entry that is behind the place, all entries are.
  beyond_match :
      (q : Seq) (qs : List Seq)
      → q.input ≢ []
      → matches t q ≡ true
      → order q.input c ≡ more
      → AllOf (Follows q) qs
      → AllOf (Behind c t) (q ∷ qs)
  beyond_match q qs qz m o all =
      let (ty, fm) = matches-stype t q m in
      let le = order-first q.input c cz qz o in
      (
        (le, λ _. o),
        AllOf-map {P = Follows q} {Q = Behind c t}
            (λ r h. (
              omega (arith, h.0, le),
              λ mr.
                  order-more q.input r.input c
                    (h.1 fm (subst (λ u. matches u r ≡ true) (sym ty) mr)) o,
            ))
            qs all,
      )

  beyond_other :
      (q : Seq) (qs : List Seq)
      → first c < first q.input
      → AllOf (Follows q) qs
      → AllOf (Behind c t) (q ∷ qs)
  beyond_other q qs lt all = (
    (omega arith, λ _. order-first_less q.input c cz lt),
    AllOf-map {P = Follows q} {Q = Behind c t}
        (λ r h. (omega (arith, h.0), λ _. order-first_less r.input c cz (omega (arith, h.0)))) qs
        all,
  )

  find_loop-Answers :
      (qs : List Seq) (n : ℕ) → IsSorted qs → Answers n qs (find_loop false c t n qs)
  unfolding find_loop
  find_loop-Answers [] n s = record { k = 0; before = omega arith; finds = at_place [] tt }
  find_loop-Answers (q ∷ qs) n (qz, (all, s)) =
      let rest = find_loop-Answers qs (suc n) s in
      elim (Bool-cases (matches t q)) [
        | inl m ↦ rw (turn-order c t q cz qz m, find_loop) (by_order m (order q.input c) refl rest)
        | inr m ↦
            rw (turn-other c t q m, find_loop)
              (by_first m (ltb (first c) (first q.input)) refl rest)
      ]
    where
      by_order :
          matches t q ≡ true
          → (o : Sign) → order q.input c ≡ o
          → Answers (suc n) qs (find_loop false c t (suc n) qs)
          → Answers n (q ∷ qs) (after_turn (turn_of o) n q (find_loop false c t (suc n) qs))
      by_order m less o rest = go_past n q qs _ (order-first_of_less q.input c cz qz o, λ _. o) rest
      by_order m same o rest = record { k = 0; before = omega arith; finds = at_entry q qs m o }
      by_order m more o rest = record {
        k = 0;
        before = omega arith;
        finds = at_place (q ∷ qs) (beyond_match q qs qz m o all);
      }

      by_first :
          matches t q ≡ false
          → (b : Bool) → ltb (first c) (first q.input) ≡ b
          → Answers (suc n) qs (find_loop false c t (suc n) qs)
          → Answers n
              (q ∷ qs)
              (after_turn (if b then stop else go_on) n q (find_loop false c t (suc n) qs))
      by_first m true o rest = record {
        k = 0;
        before = omega arith;
        finds = at_place (q ∷ qs) (beyond_other q qs (ground arith) all);
      }
      by_first m false o rest = go_past n q qs _ (ground arith, λ z. absurd (cc (z, m))) rest

  pub seq_find-Finds :
      (qs : List Seq)
      → IsSorted qs
      → Finds c t qs (seq_find false c t qs).before (seq_find false c t qs).entry
  unfolding seq_find
  seq_find-Finds qs s =
      let x = find_loop-Answers qs 0 s in
      subst (λ k. Finds c t qs k (find_loop false c t 0 qs).entry) (sym (x.before ∙ omega arith))
        x.finds

lookup-Behind :
    (c : Line) (t : SeqType) (qs : List Seq) → AllOf (Behind c t) qs → lookup c t qs ≡ none
lookup-Behind c t [] h = refl
lookup-Behind c t (q ∷ qs) (h, hs) =
    let z : (matches t q && eq_line q.input c) ≡ false = elim (Bool-cases (matches t q)) [
      | inl m ↦ rw (m, eq_line-order q.input c, h.1 m) refl
      | inr m ↦ rw m refl
    ] in
    rw z (lookup-Behind c t qs hs)

pub Finds-lookup :
    {c : Line} {t : SeqType} {qs : List Seq} {k : ℕ} {o : Option Seq}
    → Finds c t qs k o
    → o ≡ lookup c t qs
Finds-lookup {c} {t} (at_entry q qs m same_) =
    let z : (matches t q && eq_line q.input c) ≡ true =
      rw (m, eq_line-order q.input c, same_) refl in
    rw z refl
Finds-lookup {c} {t} (at_place qs h) = sym (lookup-Behind c t qs h)
Finds-lookup {c} {t} (past q qs k o h f) =
    let z : (matches t q && eq_line q.input c) ≡ false = elim (Bool-cases (matches t q)) [
      | inl m ↦ rw (m, eq_line-order q.input c, h.1 m) refl
      | inr m ↦ rw m refl
    ] in
    rw z (Finds-lookup f)

-- In a sorted list, for keys that are not empty, the search, which stops early, finds what a search
-- through all of the list finds: the entry of that type, not an unresolved function key, for just those
-- keys, or that there is none.
pub seq_find-lookup :
    (c : Line) (t : SeqType) (qs : List Seq)
    → c ≢ []
    → IsSorted qs
    → (seq_find false c t qs).entry ≡ lookup c t qs
seq_find-lookup c t qs cz s = Finds-lookup (seq_find-Finds c t cz qs s)
