-- ===== src/Seq/Order.antt =====
-- The order of key sequences, and what a turn of the search does by it.
use open_vi.Common.{
  ℕ, suc, ◌≡◌, ◌≢◌, Bool, true, false, not, ◌&&◌, ◌||◌, if◌then◌else◌, refl, [], ◌∷◌, arith, length,
  ltb, ◌==◌,
}
use open_vi.State.{Line}
use open_vi.Seq.{
  SeqType, is_type, Seq, Sign, less, same, more, memcmp, minimum, first, Turn, stop, go_on, found,
  by_length, by_bytes, turn,
}

-- The order of the bytes, a shorter sequence before what it is the start of.
abbrev pub order : Line → Line → Sign
order [] [] = same
order [] (y ∷ b) = less
order (x ∷ a) [] = more
order (x ∷ a) (y ∷ b) = if ltb x y then less else if ltb y x then more else order a b

abbrev pub eq_line : Line → Line → Bool
eq_line [] [] = true
eq_line (x ∷ a) (y ∷ b) = (x == y) && eq_line a b
eq_line _ _ = false

abbrev pub is_same : Sign → Bool
is_same same = true
is_same _ = false

pub eq_line-order : (a b : Line) → eq_line a b ≡ is_same (order a b)
eq_line-order [] [] = refl
eq_line-order [] (y ∷ b) = refl
eq_line-order (x ∷ a) [] = refl
eq_line-order (x ∷ a) (y ∷ b) = ground (arith, eq_line-order a b)

-- What comes behind `a` comes behind what is before `a`.
pub order-more : (a b c : Line) → order a b ≡ less → order a c ≡ more → order b c ≡ more
order-more [] [] c h k = absurd (cc h)
order-more [] (y ∷ b) [] h k = refl
order-more [] (y ∷ b) (z ∷ c) h k = absurd (cc k)
order-more (x ∷ a) [] c h k = absurd (cc h)
order-more (x ∷ a) (y ∷ b) [] h k = refl
order-more (x ∷ a) (y ∷ b) (z ∷ c) h k = ground (arith, order-more a b c)

pub order-less : (a b : Line) → order a b ≡ more → order b a ≡ less
order-less [] [] h = absurd (cc h)
order-less [] (y ∷ b) h = absurd (cc h)
order-less (x ∷ a) [] h = refl
order-less (x ∷ a) (y ∷ b) h = ground (arith, order-less a b)

pub order-more_of_less : (a b : Line) → order a b ≡ less → order b a ≡ more
order-more_of_less [] [] h = absurd (cc h)
order-more_of_less [] (y ∷ b) h = refl
order-more_of_less (x ∷ a) [] h = absurd (cc h)
order-more_of_less (x ∷ a) (y ∷ b) h = ground (arith, order-more_of_less a b)

abbrev pub turn_of : Sign → Turn
turn_of less = go_on
turn_of same = found
turn_of more = stop

minimum-suc : (a b : ℕ) → minimum (suc a) (suc b) ≡ suc (minimum a b)
minimum-suc a b = ground arith

by_length-cons : (x y : ℕ) (a c : Line) → by_length false (x ∷ a) (y ∷ c) ≡ by_length false a c
by_length-cons x y a c = ground arith

-- The comparison of the common bytes and of the lengths is the order.
by_bytes-order :
    (a c : Line)
    → by_bytes (memcmp (minimum (length a) (length c)) a c) (by_length false a c)
      ≡ turn_of (order a c)
by_bytes-order [] [] = refl
by_bytes-order [] (y ∷ c) =
    let z : minimum 0 (suc (length c)) ≡ 0 = ground arith in rw z (ground arith)
by_bytes-order (x ∷ a) [] =
    let z : minimum (suc (length a)) 0 ≡ 0 = ground arith in rw z (ground arith)
by_bytes-order (x ∷ a) (y ∷ c) =
    rw (minimum-suc (length a) (length c), by_length-cons x y a c)
      (heads (ltb x y) (ltb y x) (by_bytes-order a c))
  where
    heads :
        (p q : Bool)
        → by_bytes (memcmp (minimum (length a) (length c)) a c) (by_length false a c)
          ≡ turn_of (order a c)
        → by_bytes
            (if p then less else if q then more else memcmp (minimum (length a) (length c)) a c)
            (by_length false a c)
          ≡ turn_of (if p then less else if q then more else order a c)
    heads true q k = refl
    heads false true k = refl
    heads false false k = k

-- Whether the search looks at the entry.
abbrev pub matches : SeqType → Seq → Bool
matches t q = is_type q.stype t && not q.flags.funcmap

-- A turn at an entry that it looks at goes by the order of the inputs.
pub turn-order :
    (c : Line) (t : SeqType) (q : Seq)
    → c ≢ []
    → q.input ≢ []
    → matches t q ≡ true
    → turn false c t q ≡ turn_of (order q.input c)
turn-order [] t q cz qz m = absurd (cz refl)
turn-order (y ∷ c) t q cz qz m = go q.input refl
  where
    go : (a : Line) → q.input ≡ a → turn false (y ∷ c) t q ≡ turn_of (order q.input (y ∷ c))
    go [] z = absurd (qz z)
    go (x ∷ a) z =
        let skip : (not (is_type q.stype t) || q.flags.funcmap) ≡ false = ground (arith, m) in
        let k = by_bytes-order (x ∷ a) (y ∷ c) in
        rw (skip, z) (firsts (ltb y x) refl (ltb x y) refl k)
      where
        firsts :
            (p : Bool)
            → ltb y x ≡ p
            → (r : Bool) → ltb x y ≡ r
            → by_bytes
                (memcmp (minimum (length (x ∷ a)) (length (y ∷ c))) (x ∷ a) (y ∷ c))
                (by_length false (x ∷ a) (y ∷ c))
              ≡ turn_of (order (x ∷ a) (y ∷ c))
            → (if p
                then stop
                else if r || false
                then go_on
                else by_bytes
                    (memcmp (minimum (length (x ∷ a)) (length (y ∷ c))) (x ∷ a) (y ∷ c))
                    (by_length false (x ∷ a) (y ∷ c)))
              ≡ turn_of (order (x ∷ a) (y ∷ c))
        firsts true p r q k = let z2 : ltb x y ≡ false = ground (arith, p) in rw (z2, p) refl
        firsts false p true q k = rw q refl
        firsts false p false q k = k

-- At another entry it goes by the first bytes.
pub turn-other :
    (c : Line) (t : SeqType) (q : Seq)
    → matches t q ≡ false
    → turn false c t q ≡ (if ltb (first c) (first q.input) then stop else go_on)
turn-other c t q m =
    let skip : (not (is_type q.stype t) || q.flags.funcmap) ≡ true = ground (arith, m) in
    ground (arith, skip)
