-- ===== src/Peers/Keys.antt =====
-- The order that the peer table promises: the key of each column, and which of two keys stands first.
use bitcoin_lisp.Prelude.{
  ℕ, zero, suc, ◌<◌, ◌≤◌, ◌⊎◌, codes, Text, or_else, if◌then◌else◌, Bool, true, false, ◌≡◌, refl,
  text_lt, Option, none, some,
}
use bitcoin_lisp.Peers.{
  Peer, Column, positive, network_name, peer_network, by_peer_id, by_addr, by_direction, by_type,
  by_transport, by_network, by_ping, by_height, by_sent, by_recv, by_subver, Value, words, numbers,
  sort_value,
}

-- What a peer is sorted by: what the table shows of it in the column, or nothing where that is not known.
pub data SortKey : Type 0 where
  number : ℕ → SortKey
  text : Text → SortKey
  missing : SortKey

abbrev direction_of : Bool → SortKey
direction_of true = text (codes "in")
direction_of false = text (codes "out")

abbrev pub number_or_missing : Option ℕ → SortKey
number_or_missing none = missing
number_or_missing (some n) = number n

abbrev ping_of : Option ℕ → SortKey
ping_of none = missing
ping_of (some zero) = missing
ping_of (some (suc n)) = number (suc n)

abbrev count_of : Option ℕ → SortKey
count_of none = number 0
count_of (some n) = number n

abbrev transport_of : Option Text → SortKey
transport_of none = text (codes "v1")
transport_of (some t) = text t

abbrev pub key_of : Column → Peer → SortKey
key_of by_peer_id p = number p.id
key_of by_addr p = text p.addr
key_of by_direction p = direction_of p.inbound
key_of by_type p = text p.connection_type
key_of by_transport p = transport_of p.transport
key_of by_network p = text (network_name (peer_network p.addr))
key_of by_ping p = ping_of p.ping
key_of by_height p = number_or_missing p.height
key_of by_sent p = count_of p.sent
key_of by_recv p = count_of p.received
key_of by_subver p = text p.subver

-- The smaller one first when the column ascends, the greater one when it descends, and what is missing last in either
-- direction.
abbrev pub Precedes : Bool → SortKey → SortKey → Type 0
Precedes true (number a) (number b) = a < b
Precedes false (number a) (number b) = b < a
Precedes true (text a) (text b) = text_lt a b ≡ true
Precedes false (text a) (text b) = text_lt b a ≡ true
Precedes ascending (number a) missing = Unit
Precedes ascending (text a) missing = Unit
Precedes ascending k l = ⊥

-- `p` has its place before `q`: by the keys, or by the ids where the keys are the same.
abbrev pub Belongs : Column → Bool → Peer → Peer → Type 0
Belongs col ascending p q =
    Precedes ascending (key_of col p) (key_of col q)
    ⊎ ((key_of col p ≡ key_of col q) × (p.id ≤ q.id))

abbrev pub value_key : Value → Peer → SortKey
value_key (words key) p = text (key p)
value_key (numbers key) p = number_or_missing (key p)

count_or_zero : (n : Option ℕ) → number_or_missing (some (or_else n 0)) ≡ count_of n
count_or_zero none = refl
count_or_zero (some n) = refl

pub value_key-sort_value : (col : Column) (p : Peer) → value_key (sort_value col) p ≡ key_of col p
unfolding sort_value
value_key-sort_value by_peer_id p = refl
value_key-sort_value by_addr p = refl
value_key-sort_value by_direction p = go p.inbound
  where
    go : (b : Bool) → text (if b then codes "in" else codes "out") ≡ direction_of b
    go true = refl
    go false = refl
value_key-sort_value by_type p = refl
value_key-sort_value by_transport p = go p.transport
  where
    go : (t : Option Text) → text (or_else t (codes "v1")) ≡ transport_of t
    go none = refl
    go (some t) = refl
value_key-sort_value by_network p = refl
value_key-sort_value by_ping p = go p.ping
  where
    go : (n : Option ℕ) → number_or_missing (positive n) ≡ ping_of n
    go none = refl
    go (some zero) = refl
    go (some (suc n)) = refl
value_key-sort_value by_height p = refl
value_key-sort_value by_sent p = count_or_zero p.sent
value_key-sort_value by_recv p = count_or_zero p.received
value_key-sort_value by_subver p = refl
