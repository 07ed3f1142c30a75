-- ===== src/Seq/Entries.antt =====
-- What the sequences stand for after `seq_set`.
use open_vi.Common.{
  ℕ, ◌≡◌, ◌≢◌, Bool, true, false, ◌&&◌, if◌then◌else◌, refl, sym, ap, ◌∙◌, Option, none, some, List,
  [], ◌∷◌, arith, ltb, insert_at, Bool-cases, inl, inr,
}
use open_vi.State.{Line}
use open_vi.Seq.{
  SeqType, is_type, Seq, SeqFlags, Seqs, first, bit_set, max_bit_seq, set_output, nonempty,
  seq_find, seq_set, same,
}
use open_vi.Seq.Order.{order, eq_line, is_same, eq_line-order, matches}
use open_vi.Seq.Lookup.{
  IsSorted, is_type-eq, lookup, Ahead, Finds, at_entry, at_place, past, seq_find-Finds,
  seq_find-lookup,
}
use open_vi.Seq.Sorted.{IsOk, seq_set-IsOk}

abbrev pub output_of : Option Seq → Option (Option Line)
output_of none = none
output_of (some q) = some q.output

eq_line-eq : (a b : Line) → eq_line a b ≡ true → a ≡ b
eq_line-eq [] [] h = refl
eq_line-eq [] (y ∷ b) h = absurd (cc h)
eq_line-eq (x ∷ a) [] h = absurd (cc h)
eq_line-eq (x ∷ a) (y ∷ b) h =
    let k : a ≡ b = eq_line-eq a b (ground (arith, h)) in
    let j : x ≡ y = ground (arith, h) in rw (k, j) refl

order-same : (a b : Line) → order a b ≡ same → a ≡ b
order-same a b h = eq_line-eq a b (eq_line-order a b ∙ ap is_same h)

-- The key that is set, and the key that is asked for.
abbrev pub is_key : Line → SeqType → Line → SeqType → Bool
is_key c t d u = is_type t u && eq_line c d

-- An entry ahead of the key does not have it.
Ahead-other :
    (c : Line) (t : SeqType) (d : Line) (u : SeqType) (q : Seq)
    → Ahead c t q
    → (matches u q && eq_line q.input d) ≡ true
    → is_key c t d u ≡ false
Ahead-other c t d u q (le, ahead) h = elim (Bool-cases (is_key c t d u)) [
  | inr no_key ↦ no_key
  | inl key ↦
      let tu : t ≡ u = is_type-eq t u (ground (arith, key)) in
      let cd : c ≡ d = eq_line-eq c d (ground (arith, key)) in
      let qd : q.input ≡ d = eq_line-eq q.input d (ground (arith, h)) in
      let m : matches t q ≡ true = rw tu (ground (arith, h)) in
      let self : is_same (order q.input c) ≡ true =
        sym (eq_line-order q.input c) ∙ ap (eq_line q.input) cd ∙ ground (arith, h) in
      absurd (cc (self, ap is_same (ahead m)))
]

-- A question at an entry, before and after a change behind it.
past_entry :
    (c : Line) (t : SeqType) (d : Line) (u : SeqType) (q : Seq) (qs rs : List Seq)
    (out : Option Line)
    → Ahead c t q
    → output_of (lookup d u rs) ≡ (if is_key c t d u then some out else output_of (lookup d u qs))
    → output_of (lookup d u (q ∷ rs))
      ≡ (if is_key c t d u then some out else output_of (lookup d u (q ∷ qs)))
past_entry c t d u q qs rs out ahead h = elim (Bool-cases (matches u q && eq_line q.input d)) [
  | inl here ↦ rw (here, Ahead-other c t d u q ahead here) refl
  | inr there ↦ rw there h
]

insert-lookup :
    (v : Seq) (d : Line) (u : SeqType)
    → v.flags.funcmap ≡ false
    → {qs : List Seq} {k : ℕ} {o : Option Seq} → Finds v.input v.stype qs k o
    → o ≡ none
    → output_of (lookup d u (insert_at qs k v))
      ≡ (if is_key v.input v.stype d u then some v.output else output_of (lookup d u qs))
insert-lookup v d u fm (at_entry q qs m s) z = absurd (cc z)
insert-lookup v d u fm (at_place qs h) z =
    let k : (matches u v && eq_line v.input d) ≡ is_key v.input v.stype d u =
      rw fm (ground arith) in
    rw k (at_head (is_key v.input v.stype d u))
  where
    at_head :
        (b : Bool)
        → output_of (if b then some v else lookup d u qs)
          ≡ (if b then some v.output else output_of (lookup d u qs))
    at_head true = refl
    at_head false = refl
insert-lookup v d u fm (past q qs k o h f) z =
    past_entry v.input v.stype d u q qs (insert_at qs k v) v.output h (insert-lookup v d u fm f z)

set_output-lookup :
    (c : Line) (t : SeqType) (d : Line) (u : SeqType) (out : Option Line)
    → {qs : List Seq} {k : ℕ} {o : Option Seq} → Finds c t qs k o
    → o ≢ none
    → output_of (lookup d u (set_output k out qs))
      ≡ (if is_key c t d u then some out else output_of (lookup d u qs))
set_output-lookup c t d u out (at_entry q qs m s) z =
    let qt : q.stype ≡ t = is_type-eq q.stype t (ground (arith, m)) in
    let qc : q.input ≡ c = order-same q.input c s in
    let fm : q.flags.funcmap ≡ false = ground (arith, m) in
    let k : (matches u q && eq_line q.input d) ≡ is_key c t d u = rw (qt, qc, fm) (ground arith) in
    rw k (at_head (is_key c t d u))
  where
    at_head :
        (b : Bool)
        → output_of (if b then some (record q { output = out }) else lookup d u qs)
          ≡ (if b then some out else output_of (if b then some q else lookup d u qs))
    at_head true = refl
    at_head false = refl
set_output-lookup c t d u out (at_place qs h) z = absurd (z refl)
set_output-lookup c t d u out (past q qs k o h f) z =
    past_entry c t d u q qs (set_output k out qs) out h (set_output-lookup c t d u out f z)

module _ (name : Option Line) (input : Line) (output : Option Line) (stype : SeqType)
    (flags : SeqFlags) (g : Seqs) where
  set_lookup :
      (d : Line) (u : SeqType)
      → input ≢ []
      → IsSorted g.seqq
      → flags.nooverwrite ≡ false
      → flags.funcmap ≡ false
      → nonempty output ≡ output
      → output_of (lookup d u (seq_set name input output stype flags g).1.seqq)
        ≡ (if is_key input stype d u then some output else output_of (lookup d u g.seqq))
  unfolding seq_set
  set_lookup d u iz s over fm whole =
      go (seq_find false input stype g.seqq).entry (seq_find-Finds input stype iz g.seqq s)
    where
      n : ℕ
      n = (seq_find false input stype g.seqq).before

      v : Seq
      v = record {
        stype = stype;
        name = nonempty name;
        input = input;
        output = output;
        flags = flags;
      }

      go :
          (o : Option Seq)
          → Finds input stype g.seqq n o
          → output_of (
              lookup d u
                (elim o as (λ _. Bool × Seqs) [
                  | some _ ↦
                      if flags.nooverwrite
                      then (false, g)
                      else (false, record g { seqq = set_output n (nonempty output) g.seqq })
                  | none ↦ (
                    false,
                    record {
                      seqq = insert_at g.seqq n v;
                      seqb =
                          if ltb (first input) max_bit_seq
                          then bit_set (first input) g.seqb
                          else g.seqb;
                    },
                  )
                ]).1.seqq)
            ≡ (if is_key input stype d u then some output else output_of (lookup d u g.seqq))
      go none f = insert-lookup v d u fm f refl
      go (some q) f = rw (over, whole) (set_output-lookup input stype d u output f (λ z. cc z))

  -- With a sorted list that has its bits, and keys that are not empty: after `seq_set` of a sequence that is
  -- no unresolved function key, may replace another, and whose output is not an empty string, the search
  -- for its keys and type finds its output, and every other search finds the output that it found before.
  pub seq_find-seq_set :
      (d : Line) (u : SeqType)
      → input ≢ []
      → d ≢ []
      → IsOk g
      → flags.nooverwrite ≡ false
      → flags.funcmap ≡ false
      → nonempty output ≡ output
      → output_of (seq_find false d u (seq_set name input output stype flags g).1.seqq).entry ≡ (
          if is_key input stype d u
          then some output
          else output_of (seq_find false d u g.seqq).entry)
  seq_find-seq_set d u iz dz good over fm whole =
      let after = (seq_set name input output stype flags g).1 in
      let before : output_of (lookup d u g.seqq) ≡ output_of (seq_find false d u g.seqq).entry =
        sym (ap output_of (seq_find-lookup d u g.seqq dz good.0)) in
      ap output_of
        (seq_find-lookup d u after.seqq dz (seq_set-IsOk name input output stype flags g iz good).0)
      ∙ set_lookup d u iz good.0 over fm whole
      ∙ ap (λ o. if is_key input stype d u then some output else o) before
