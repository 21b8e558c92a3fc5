-- ===== src/Peers/Order.antt =====
-- The peer table is a rearrangement of the peers, and no row stands in front of one that belongs there.
use mathlib.Core.List.{Perm}
use bitcoin_lisp.Prelude.{
  ℕ, ◌≤◌, ◌⊎◌, inl, inr, Text, text_lt-same, Pairwise, InOrder-Pairwise, List, Bool, true, false,
  ltb, ◌≡◌, refl, arith, text_lt, Option, none, some, sort_by-Perm, sort_by-InOrder, ap, sym,
  sort_by,
}
use bitcoin_lisp.Prelude.{IsStrict, ltb-IsStrict, text_lt-asym, text_lt-chain}
use bitcoin_lisp.Peers.{
  Peer, Column, Value, words, numbers, sign_by, compare_with, compare_numbers, compare_by, is_above,
  goes_behind, sort_value, sort_peers,
}
use bitcoin_lisp.Peers.Keys.{
  number, text, Precedes, Belongs, number_or_missing, value_key, value_key-sort_value,
}

module _ {K : Type 0} (lt : K → K → Bool) (s : IsStrict lt) (ascending : Bool) where
  with-one_way :
      (a b : K) (i j : ℕ)
      → is_above (compare_with lt ascending a b (sign_by ltb i j)) ≡ true
      → is_above (compare_with lt ascending b a (sign_by ltb j i)) ≡ false
  with-one_way a b i j h = ground (arith, s.asym a b, s.asym b a)

  with-chain :
      (a b c : K) (i j k : ℕ)
      → is_above (compare_with lt ascending a b (sign_by ltb i j)) ≡ false
      → is_above (compare_with lt ascending b c (sign_by ltb j k)) ≡ false
      → is_above (compare_with lt ascending a c (sign_by ltb i k)) ≡ false
  with-chain a b c i j k h g = ground (
    arith,
    s.asym a b,
    s.asym b c,
    s.asym a c,
    s.chain a b c,
    s.chain a c b,
    s.chain b a c,
    s.chain b c a,
    s.chain c a b,
    s.chain c b a,
  )

up-not_above :
    {K : Type 0} (lt : K → K → Bool) (s : IsStrict lt) (a b : K) (i j : ℕ)
    → is_above (compare_with lt true a b (sign_by ltb i j)) ≡ false
    → (lt a b ≡ true) ⊎ ((lt a b ≡ false) × ((lt b a ≡ false) × (i ≤ j)))
up-not_above lt s a b i j h = ground (arith, s.asym a b, s.asym b a)

down-not_above :
    {K : Type 0} (lt : K → K → Bool) (s : IsStrict lt) (a b : K) (i j : ℕ)
    → is_above (compare_with lt false a b (sign_by ltb i j)) ≡ false
    → (lt b a ≡ true) ⊎ ((lt a b ≡ false) × ((lt b a ≡ false) × (i ≤ j)))
down-not_above lt s a b i j h = ground (arith, s.asym a b, s.asym b a)

numbers-one_way :
    (ascending : Bool) (a b : Option ℕ) (i j : ℕ)
    → is_above (compare_numbers ascending a b (sign_by ltb i j)) ≡ true
    → is_above (compare_numbers ascending b a (sign_by ltb j i)) ≡ false
unfolding compare_numbers
numbers-one_way ascending none none i j h = ground arith
numbers-one_way ascending none (some b) i j h = refl
numbers-one_way ascending (some a) none i j h = absurd (cc)
numbers-one_way ascending (some a) (some b) i j h =
    with-one_way ltb ltb-IsStrict ascending a b i j h

numbers-chain :
    (ascending : Bool) (a b c : Option ℕ) (i j k : ℕ)
    → is_above (compare_numbers ascending a b (sign_by ltb i j)) ≡ false
    → is_above (compare_numbers ascending b c (sign_by ltb j k)) ≡ false
    → is_above (compare_numbers ascending a c (sign_by ltb i k)) ≡ false
unfolding compare_numbers
numbers-chain ascending none none none i j k h g = ground arith
numbers-chain ascending none none (some c) i j k h g = absurd (cc)
numbers-chain ascending none (some b) c i j k h g = absurd (cc)
numbers-chain ascending (some a) none none i j k h g = refl
numbers-chain ascending (some a) none (some c) i j k h g = absurd (cc)
numbers-chain ascending (some a) (some b) none i j k h g = refl
numbers-chain ascending (some a) (some b) (some c) i j k h g =
    with-chain ltb ltb-IsStrict ascending a b c i j k h g

text_lt-IsStrict : IsStrict text_lt
text_lt-IsStrict = record { asym = text_lt-asym; chain = text_lt-chain }

by-one_way :
    (v : Value) (ascending : Bool) (p q : Peer)
    → is_above (compare_by v ascending p q) ≡ true
    → is_above (compare_by v ascending q p) ≡ false
unfolding compare_by
by-one_way (words key) ascending p q h =
    with-one_way text_lt text_lt-IsStrict ascending (key p) (key q) p.id q.id h
by-one_way (numbers key) ascending p q h = numbers-one_way ascending (key p) (key q) p.id q.id h

by-chain :
    (v : Value) (ascending : Bool) (p q r : Peer)
    → is_above (compare_by v ascending p q) ≡ false
    → is_above (compare_by v ascending q r) ≡ false
    → is_above (compare_by v ascending p r) ≡ false
unfolding compare_by
by-chain (words key) ascending p q r h g =
    with-chain text_lt text_lt-IsStrict ascending (key p) (key q) (key r) p.id q.id r.id h g
by-chain (numbers key) ascending p q r h g =
    numbers-chain ascending (key p) (key q) (key r) p.id q.id r.id h g

text-not_above :
    (ascending : Bool) (a b : Text) (i j : ℕ)
    → is_above (compare_with text_lt ascending a b (sign_by ltb i j)) ≡ false
    → Precedes ascending (text a) (text b) ⊎ ((text a ≡ text b) × (i ≤ j))
text-not_above true a b i j h = elim (up-not_above text_lt text_lt-IsStrict a b i j h) [
  | inl l ↦ inl l
  | inr (f, (g, le)) ↦ inr (ap text (text_lt-same a b f g), le)
]
text-not_above false a b i j h = elim (down-not_above text_lt text_lt-IsStrict a b i j h) [
  | inl l ↦ inl l
  | inr (f, (g, le)) ↦ inr (ap text (text_lt-same a b f g), le)
]

number-not_above :
    (ascending : Bool) (a b : Option ℕ) (i j : ℕ)
    → is_above (compare_numbers ascending a b (sign_by ltb i j)) ≡ false
    → Precedes ascending (number_or_missing a) (number_or_missing b)
      ⊎ ((number_or_missing a ≡ number_or_missing b) × (i ≤ j))
unfolding compare_numbers
number-not_above ascending none none i j h = inr (refl, ground arith)
number-not_above ascending none (some b) i j h = absurd (cc)
number-not_above true (some a) none i j h = inl tt
number-not_above false (some a) none i j h = inl tt
number-not_above true (some a) (some b) i j h = elim (up-not_above ltb ltb-IsStrict a b i j h) [
  | inl l ↦ inl (ground arith)
  | inr (f, (g, le)) ↦ inr (ap number (ground arith), le)
]
number-not_above false (some a) (some b) i j h = elim (down-not_above ltb ltb-IsStrict a b i j h) [
  | inl l ↦ inl (ground arith)
  | inr (f, (g, le)) ↦ inr (ap number (ground arith), le)
]

value-not_above :
    (v : Value) (ascending : Bool) (p q : Peer)
    → is_above (compare_by v ascending p q) ≡ false
    → Precedes ascending (value_key v p) (value_key v q)
      ⊎ ((value_key v p ≡ value_key v q) × (p.id ≤ q.id))
unfolding compare_by
value-not_above (words key) ascending p q h = text-not_above ascending (key p) (key q) p.id q.id h
value-not_above (numbers key) ascending p q h =
    number-not_above ascending (key p) (key q) p.id q.id h

not_behind-Belongs :
    (col : Column) (ascending : Bool) (p q : Peer)
    → goes_behind col ascending p q ≡ false
    → Belongs col ascending p q
unfolding goes_behind
not_behind-Belongs col ascending p q h =
    rw (sym (value_key-sort_value col p), sym (value_key-sort_value col q))
      (value-not_above (sort_value col) ascending p q h)

-- For every list of peers, column and direction, the sorted table holds exactly the peers given, and each peer stands so
-- to every one behind it: its key is smaller when the column ascends, greater when it descends, or known where the other
-- one's is missing; or the keys are the same, and then its id is not greater.
pub sort_peers-InOrder :
    (peers : List Peer) (col : Column) (ascending : Bool)
    → Perm (sort_peers peers col ascending) peers
      × Pairwise (Belongs col ascending) (sort_peers peers col ascending)
unfolding sort_peers goes_behind
sort_peers-InOrder peers col ascending =
    let behind = goes_behind col ascending in
    (
      sort_by-Perm behind peers,
      InOrder-Pairwise behind (Belongs col ascending) (not_behind-Belongs col ascending)
          (sort_by behind peers)
          (sort_by-InOrder behind (by-one_way (sort_value col) ascending)
            (by-chain (sort_value col) ascending) peers),
    )
