-- ===== src/Tests/Seq.antt =====
-- Two maps and an abbreviation.
use open_vi.Common.{true, false, refl, some, none, ◌≡◌, [], ◌∷◌, arith}
use open_vi.Seq.{seq_abbrev, seq_command, SeqFlags, Seq, Seqs, seq_find, seq_set}
use open_vi.Seq.Lookup.{IsSorted, seq_find-lookup}
use open_vi.Seq.Sorted.{IsOk, seq_set-IsOk}
use open_vi.Seq.Entries.{output_of, seq_find-seq_set}

abbrev user : SeqFlags
user = record { funcmap = false; nooverwrite = false; screen = false; userdef = true }

abbrev ab : Seq
ab = record {
  stype = seq_abbrev;
  name = none;
  input = b'a' ∷ b'b' ∷ [];
  output = some (b'x' ∷ []);
  flags = user;
}

abbrev a : Seq
a = record { stype = seq_command; name = none; input = b'a' ∷ []; output = none; flags = user }

abbrev b : Seq
b = record {
  stype = seq_command;
  name = none;
  input = b'b' ∷ [];
  output = some (b'y' ∷ []);
  flags = user;
}

abbrev maps : Seqs
maps = record { seqq = ab ∷ a ∷ b ∷ []; seqb = λ n. true }

maps-IsSorted : IsSorted maps.seqq
maps-IsSorted = (
  λ z. cc z,
  (
    ((omega arith, λ x y. absurd (cc y)), ((omega arith, λ x y. absurd (cc y)), tt)),
    (λ z. cc z, (((omega arith, λ x y. refl), tt), (λ z. cc z, (tt, tt)))),
  ),
)

maps-IsOk : IsOk maps
maps-IsOk = (maps-IsSorted, (λ z. refl, (λ z. refl, (λ z. refl, tt))))

-- The map of "b".
seq_find-lookup_example : (seq_find false (b'b' ∷ []) seq_command maps.seqq).entry ≡ some b
seq_find-lookup_example =
    seq_find-lookup (b'b' ∷ []) seq_command maps.seqq (λ z. cc z) maps-IsSorted

-- A map of "ab", which stands behind that of "a".
seq_set-IsOk_example :
    IsOk (seq_set none (b'a' ∷ b'b' ∷ []) (some (b'z' ∷ [])) seq_command user maps).1
seq_set-IsOk_example =
    seq_set-IsOk none (b'a' ∷ b'b' ∷ []) (some (b'z' ∷ [])) seq_command user maps (λ z. cc z)
      maps-IsOk

seq_find-seq_set_example :
    output_of
      (seq_find false
        (b'a' ∷ b'b' ∷ [])
        seq_command
        (seq_set none (b'a' ∷ b'b' ∷ []) (some (b'z' ∷ [])) seq_command user maps).1.seqq).entry
    ≡ some (some (b'z' ∷ []))
seq_find-seq_set_example =
    seq_find-seq_set none (b'a' ∷ b'b' ∷ []) (some (b'z' ∷ [])) seq_command user maps
      (b'a' ∷ b'b' ∷ []) seq_command (λ z. cc z) (λ z. cc z) maps-IsOk refl refl refl
