-- ===== src/Seq/Sorted.antt =====
-- The order of the list of sequences (common/seq.c), and its bits for the fast check.
use open_vi.Common.{
  ℕ, zero, suc, ◌<◌, ◌≡◌, ◌≢◌, Bool, true, false, if◌then◌else◌, refl, Option, none, some, List, [],
  ◌∷◌, arith, ltb, insert_at, erase_idx, if_intro,
}
use open_vi.State.{Line}
use open_vi.Seq.{
  SeqType, seq_abbrev, seq_command, seq_input, is_type, Seq, SeqFlags, Seqs, first, bit_set,
  max_bit_seq, set_output, nonempty, seq_find, seq_set,
}
use open_vi.Seq.Order.{order-less, matches}
use open_vi.Seq.Lookup.{
  AllOf, AllOf-map, Follows, IsSorted, is_type-eq, Behind, Finds, at_entry, at_place, past,
  seq_find-Finds,
}

AllOf-insert_at :
    (P : Seq → Type 0) (qs : List Seq) (k : ℕ) (v : Seq)
    → P v
    → AllOf P qs
    → AllOf P (insert_at qs k v)
AllOf-insert_at P qs zero v h hs = (h, hs)
AllOf-insert_at P [] (suc k) v h hs = (h, tt)
AllOf-insert_at P (q ∷ qs) (suc k) v h (hq, hs) = (hq, AllOf-insert_at P qs k v h hs)

AllOf-erase_idx : (P : Seq → Type 0) (qs : List Seq) (k : ℕ) → AllOf P qs → AllOf P (erase_idx qs k)
AllOf-erase_idx P [] k hs = tt
AllOf-erase_idx P (q ∷ qs) zero (h, hs) = hs
AllOf-erase_idx P (q ∷ qs) (suc k) (h, hs) = (h, AllOf-erase_idx P qs k hs)

is_type_refl : (t : SeqType) → is_type t t ≡ true
is_type_refl seq_abbrev = refl
is_type_refl seq_command = refl
is_type_refl seq_input = refl

Follows-Behind :
    (v : Seq) (qs : List Seq) → AllOf (Behind v.input v.stype) qs → AllOf (Follows v) qs
Follows-Behind v qs h =
    AllOf-map {P = Behind v.input v.stype} {Q = Follows v}
      (λ r b. (b.0, λ fm m. order-less r.input v.input (b.1 m))) qs h

-- A new entry, at its place.
insert-IsSorted :
    (v : Seq)
    → v.input ≢ []
    → {qs : List Seq} {k : ℕ} {o : Option Seq} → Finds v.input v.stype qs k o
    → o ≡ none
    → IsSorted qs
    → IsSorted (insert_at qs k v)
insert-IsSorted v vz (at_entry q qs m e) z s = absurd (cc z)
insert-IsSorted v vz (at_place qs h) z s = (vz, (Follows-Behind v qs h, s))
insert-IsSorted v vz (past q qs k o h f) z (qz, (all, s)) = (
  qz,
  (
    AllOf-insert_at (Follows q) qs k v (h.0, λ fm m. h.1 (looks fm m)) all,
    insert-IsSorted v vz f z s,
  ),
)
  where
    looks : q.flags.funcmap ≡ false → matches q.stype v ≡ true → matches v.stype q ≡ true
    looks fm m =
        let same : v.stype ≡ q.stype = is_type-eq v.stype q.stype (ground (arith, m)) in
        rw (same, is_type_refl q.stype, fm) refl

set_output-IsSorted :
    (qs : List Seq) (k : ℕ) (o : Option Line) → IsSorted qs → IsSorted (set_output k o qs)
set_output-IsSorted [] k o s = tt
set_output-IsSorted (q ∷ qs) zero o s = s
set_output-IsSorted (q ∷ qs) (suc k) o (qz, (all, s)) =
    (qz, (follows qs k all, set_output-IsSorted qs k o s))
  where
    follows : (rs : List Seq) (j : ℕ) → AllOf (Follows q) rs → AllOf (Follows q) (set_output j o rs)
    follows [] j h = tt
    follows (r ∷ rs) zero h = h
    follows (r ∷ rs) (suc j) (h, hs) = (h, follows rs j hs)

erase_idx-IsSorted : (qs : List Seq) (k : ℕ) → IsSorted qs → IsSorted (erase_idx qs k)
erase_idx-IsSorted [] k s = tt
erase_idx-IsSorted (q ∷ qs) zero (qz, (all, s)) = s
erase_idx-IsSorted (q ∷ qs) (suc k) (qz, (all, s)) =
    (qz, (AllOf-erase_idx (Follows q) qs k all, erase_idx-IsSorted qs k s))

-- The bit of the first byte is set, if there is one for it.
abbrev pub HasBit : (ℕ → Bool) → Seq → Type 0
HasBit bits q = first q.input < max_bit_seq → bits (first q.input) ≡ true

abbrev pub IsOk : Seqs → Type 0
IsOk g = IsSorted g.seqq × AllOf (HasBit g.seqb) g.seqq

HasBit-set_output :
    (bits : ℕ → Bool) (qs : List Seq) (k : ℕ) (o : Option Line)
    → AllOf (HasBit bits) qs
    → AllOf (HasBit bits) (set_output k o qs)
HasBit-set_output bits [] k o h = tt
HasBit-set_output bits (q ∷ qs) zero o h = h
HasBit-set_output bits (q ∷ qs) (suc k) o (h, hs) = (h, HasBit-set_output bits qs k o hs)

-- The list of sequences stays sorted, and every sequence has its bit for the fast check, when `seq_set`
-- enters a sequence with keys, whatever its type and flags.
pub seq_set-IsOk :
    (name : Option Line) (input : Line) (output : Option Line) (stype : SeqType) (flags : SeqFlags)
    (g : Seqs)
    → input ≢ []
    → IsOk g
    → IsOk (seq_set name input output stype flags g).1
unfolding seq_set
seq_set-IsOk name input output stype flags g iz (s, b) =
    go (seq_find false input stype g.seqq).entry (seq_find-Finds input stype iz g.seqq s)
  where
    n : ℕ
    n = (seq_find false input stype g.seqq).before

    v : Seq
    v = record {
      stype = stype;
      name = nonempty name;
      input = input;
      output = output;
      flags = flags;
    }

    go :
        (o : Option Seq)
        → Finds input stype g.seqq n o
        → IsOk
            (elim o as (λ _. Bool × Seqs) [
              | some _ ↦
                  if flags.nooverwrite
                  then (false, g)
                  else (false, record g { seqq = set_output n (nonempty output) g.seqq })
              | none ↦ (
                false,
                record {
                  seqq = insert_at g.seqq n v;
                  seqb =
                      if ltb (first input) max_bit_seq
                      then bit_set (first input) g.seqb
                      else g.seqb;
                },
              )
            ]).1
    go (some q) f =
        if_intro (λ (r : Bool × Seqs). IsOk r.1) flags.nooverwrite _ _ (λ _. (s, b))
          (λ _. (
            set_output-IsSorted g.seqq n (nonempty output) s,
            HasBit-set_output g.seqb g.seqq n (nonempty output) b,
          ))
    go none f =
        let bits = if ltb (first input) max_bit_seq then bit_set (first input) g.seqb else g.seqb in
        (
          insert-IsSorted v iz f refl s,
          AllOf-insert_at (HasBit bits) g.seqq n v (λ lt. ground (arith, lt))
              (AllOf-map {P = HasBit g.seqb} {Q = HasBit bits} (λ r h lt. ground (arith, h lt))
                g.seqq b),
        )
