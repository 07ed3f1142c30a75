-- ===== src/Seq.antt =====
-- common/seq.c without its output routines: the list of maps and abbreviations. A sequence of keys is
-- the list of its bytes, so that a comparison of events (e_memcmp) is that of their characters; an
-- allocation succeeds.
pub mod Order
pub mod Lookup
pub mod Sorted
pub mod Entries
use open_vi.Common.{
  ℕ, zero, suc, Bool, true, false, not, ◌&&◌, ◌||◌, Option, none, some, List, [], ◌∷◌, length, take,
  ltb, leb, ◌==◌, if◌then◌else◌, insert_at, erase_idx,
}
use open_vi.State.{Line}

-- `seq_t`
pub data SeqType : Type 0 where
  seq_abbrev seq_command seq_input : SeqType

abbrev pub is_type : SeqType → SeqType → Bool
is_type seq_abbrev seq_abbrev = true
is_type seq_command seq_command = true
is_type seq_input seq_input = true
is_type _ _ = false

-- The flags SEQ_FUNCMAP, SEQ_NOOVERWRITE, SEQ_SCREEN and SEQ_USERDEF.
pub record SeqFlags : Type 0 where
  pub funcmap : Bool
  pub nooverwrite : Bool
  pub screen : Bool
  pub userdef : Bool

-- `SEQ`
pub record Seq : Type 0 where
  pub stype : SeqType
  pub name : Option Line
  pub input : Line
  pub output : Option Line
  pub flags : SeqFlags

-- The fields of `GS`: `seqq`, and the bits of `seqb`.
pub record Seqs : Type 0 where
  pub seqq : List Seq
  pub seqb : ℕ → Bool

pub data Sign : Type 0 where
  less same more : Sign

abbrev pub memcmp : ℕ → Line → Line → Sign
memcmp zero a b = same
memcmp (suc n) [] b = same
memcmp (suc n) (x ∷ a) [] = same
memcmp (suc n) (x ∷ a) (y ∷ b) = if ltb x y then less else if ltb y x then more else memcmp n a b

abbrev pub minimum : ℕ → ℕ → ℕ
minimum a b = if ltb a b then a else b

-- The first byte; an input is never empty.
abbrev pub first : Line → ℕ
first [] = 0
first (x ∷ l) = x

-- What a turn of the loop does: break, continue, or return the entry.
pub data Turn : Type 0 where
  stop partial go_on found : Turn

-- After the comparison of the bytes; `ispartial` says that `ispartialp` is not NULL.
abbrev pub by_length : Bool → Line → Line → Turn
by_length ispartial a c =
    if leb (length a) (length c)
    then (if length a == length c || ispartial then found else go_on)
    else if ispartial
    then partial
    else stop

abbrev pub by_bytes : Sign → Turn → Turn
by_bytes more t = stop
by_bytes less t = go_on
by_bytes same t = t

abbrev pub turn : Bool → Line → SeqType → Seq → Turn
turn ispartial c stype q =
    if ltb (first c) (first q.input)
    then stop
    else if ltb (first q.input) (first c) || (not (is_type q.stype stype) || q.flags.funcmap)
    then go_on
    else by_bytes (memcmp (minimum (length q.input) (length c)) q.input c)
        (by_length ispartial q.input c)

-- What `seq_find` answers: how many entries are before the place (none of them: `*lastqp` is NULL),
-- the entry that stands there if it is a match, and `*ispartialp`.
pub record Found : Type 0 where
  pub before : ℕ
  pub entry : Option Seq
  pub is_partial : Bool

abbrev pub after_turn : Turn → ℕ → Seq → Found → Found
after_turn stop n q rest = record { before = n; entry = none; is_partial = false }
after_turn partial n q rest = record { before = n; entry = none; is_partial = true }
after_turn found n q rest = record { before = n; entry = some q; is_partial = false }
after_turn go_on n q rest = rest

unfoldable pub find_loop : Bool → Line → SeqType → ℕ → List Seq → Found
find_loop ispartial c stype n [] = record { before = n; entry = none; is_partial = false }
find_loop ispartial c stype n (q ∷ qs) =
    let rest = find_loop ispartial c stype (suc n) qs in
    after_turn (turn ispartial c stype q) n q rest

unfoldable pub seq_find : Bool → Line → SeqType → List Seq → Found
unfolding find_loop
seq_find ispartial c stype qs = find_loop ispartial c stype 0 qs

-- A string that is not NULL and has bytes.
abbrev pub nonempty : Option Line → Option Line
nonempty none = none
nonempty (some []) = none
nonempty (some (x ∷ l)) = some (x ∷ l)

-- The entry at the place, with another output.
abbrev pub set_output : ℕ → Option Line → List Seq → List Seq
set_output n o [] = []
set_output zero o (q ∷ qs) = record q { output = o } ∷ qs
set_output (suc n) o (q ∷ qs) = q ∷ set_output n o qs

abbrev pub bit_set : ℕ → (ℕ → Bool) → ℕ → Bool
bit_set k bits n = (n == k) || bits n

abbrev pub max_bit_seq : ℕ
max_bit_seq = 128

unfoldable pub seq_set : Option Line → Line → Option Line → SeqType → SeqFlags → Seqs → Bool × Seqs
unfolding seq_find
seq_set name input output stype flags g =
    let f = seq_find false input stype g.seqq in
    let q : Seq = record {
      stype = stype;
      name = nonempty name;
      input = input;
      output = output;
      flags = flags;
    } in
    elim f.entry [
      | some _ ↦
          if flags.nooverwrite
          then (false, g)
          else (false, record g { seqq = set_output f.before (nonempty output) g.seqq })
      | none ↦ (
        false,
        record {
          seqq = insert_at g.seqq f.before q;
          seqb = if ltb (first input) max_bit_seq then bit_set (first input) g.seqb else g.seqb;
        },
      )
    ]

-- The entry is the one at the place.
unfoldable pub seq_mdel : ℕ → Seqs → Bool × Seqs
seq_mdel n g = (false, record g { seqq = erase_idx g.seqq n })

unfoldable pub seq_delete : Line → SeqType → Seqs → Bool × Seqs
unfolding seq_find seq_mdel
seq_delete input stype g =
    let f = seq_find false input stype g.seqq in
    elim f.entry [ none ↦ (true, g) | some _ ↦ seq_mdel f.before g ]

unfoldable pub seq_close : Seqs → Seqs
seq_close g = record g { seqq = [] }
