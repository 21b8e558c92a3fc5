-- ===== src/Peers.antt =====
-- ui/js/peers.js: service flags, the network of an address and the order of the peer table. A number of the node is a natural number, a ping in any fixed unit.
pub mod Armed
pub mod Keys
pub mod Order
mod Tests
use bitcoin_lisp.Prelude.{
  ℕ, zero, suc, ◌+◌, ◌/◌, ◌%◌, ◌^◌, List, [], ◌∷◌, ◌++◌, map, Bool, true, false, not, ◌&&◌, ltb,
  leb, ◌==◌, if◌then◌else◌, Option, none, some, or_else, Text, codes, text_lt, starts_with, keep,
  some_of, reverse, sort_by,
}

pub data Service : Type 0 where
  known unknown : ℕ → Service

-- The bits of SERVICE_BITS, which have a name.
abbrev pub service_bits : List ℕ
service_bits = 0 ∷ 1 ∷ 2 ∷ 3 ∷ 6 ∷ 10 ∷ 11 ∷ []

unfoldable pub has_bit : ℕ → ℕ → Bool
has_bit bits b = bits / 2 ^ b % 2 == 1

-- The bits from `b` on, `n` of them, that are set and have no name.
unfoldable pub unknown_bits : ℕ → ℕ → ℕ → List Service
unknown_bits bits b zero = []
unknown_bits bits b (suc n) =
    let rest = unknown_bits bits (suc b) n in
    if has_bit bits b && not (some_of (λ k. k == b) service_bits) then unknown b ∷ rest else rest

-- `decodeServices`, from the number that the hex text stands for.
unfoldable pub decode_services : ℕ → List Service
decode_services bits = map known (keep (has_bit bits) service_bits) ++ unknown_bits bits 0 64

pub data Network : Type 0 where
  onion i2p ipv6 ipv4 no_network : Network

abbrev ends_with : Text → Text → Bool
ends_with s suffix = starts_with (reverse s) (reverse suffix)

abbrev lower : ℕ → ℕ
lower c = if leb b'A' c && leb c b'Z' then c + 32 else c

abbrev ipv4_or_none : Text → Network
ipv4_or_none [] = no_network
ipv4_or_none (c ∷ cs) = ipv4

unfoldable pub peer_network : Text → Network
peer_network addr =
    let a = map lower addr in
    if ends_with a (codes ".onion")
    then onion
    else if ends_with a (codes ".i2p")
    then i2p
    else if some_of (λ c. c == b':') a
    then ipv6
    else ipv4_or_none a

unfoldable pub network_name : Network → Text
network_name onion = codes "onion"
network_name i2p = codes "i2p"
network_name ipv6 = codes "ipv6"
network_name ipv4 = codes "ipv4"
network_name no_network = 0x2014 ∷ []

-- getpeerinfo, as far as the table reads it; an absent ping, an unknown height is `none`.
pub record Peer : Type 0 where
  pub id : ℕ
  pub addr : Text
  pub inbound : Bool
  pub connection_type : Text
  pub transport : Option Text
  pub ping : Option ℕ
  pub height : Option ℕ
  pub sent : Option ℕ
  pub received : Option ℕ
  pub subver : Text

pub data Column : Type 0 where
  by_peer_id by_addr by_direction by_type by_transport by_network by_ping by_height by_sent by_recv
        by_subver :
      Column

-- What a column sorts by: a text, or a number that may be missing.
pub data Value : Type 0 where
  words : (Peer → Text) → Value
  numbers : (Peer → Option ℕ) → Value

-- `pingtime > 0 ? pingtime : null`
abbrev pub positive : Option ℕ → Option ℕ
positive none = none
positive (some zero) = none
positive (some (suc n)) = some (suc n)

-- The `value` of a column.
unfoldable pub sort_value : Column → Value
sort_value by_peer_id = numbers (λ p. some p.id)
sort_value by_addr = words (λ p. p.addr)
sort_value by_direction = words (λ p. if p.inbound then codes "in" else codes "out")
sort_value by_type = words (λ p. p.connection_type)
sort_value by_transport = words (λ p. or_else p.transport (codes "v1"))
sort_value by_network = words (λ p. network_name (peer_network p.addr))
sort_value by_ping = numbers (λ p. positive p.ping)
sort_value by_height = numbers (λ p. p.height)
sort_value by_sent = numbers (λ p. some (or_else p.sent 0))
sort_value by_recv = numbers (λ p. some (or_else p.received 0))
sort_value by_subver = words (λ p. p.subver)

-- The sign of what a comparison returns.
pub data Sign : Type 0 where
  below equal above : Sign

abbrev pub sign_by : {K : Type 0} → (K → K → Bool) → K → K → Sign
sign_by lt a b = if lt a b then below else if lt b a then above else equal

-- `cmp * dir`
abbrev pub turned : Bool → Sign → Sign
turned true s = s
turned false below = above
turned false equal = equal
turned false above = below

-- `cmp !== 0 ? cmp * dir : a.id - b.id`
abbrev pub or_by_id : Sign → Sign → Sign
or_by_id equal ids = ids
or_by_id below ids = below
or_by_id above ids = above

abbrev pub compare_with : {K : Type 0} → (K → K → Bool) → Bool → K → K → Sign → Sign
compare_with lt ascending a b ids = or_by_id (turned ascending (sign_by lt a b)) ids

-- A missing number stands last in either direction.
unfoldable pub compare_numbers : Bool → Option ℕ → Option ℕ → Sign → Sign
compare_numbers ascending none none ids = ids
compare_numbers ascending none (some b) ids = above
compare_numbers ascending (some a) none ids = below
compare_numbers ascending (some a) (some b) ids = compare_with ltb ascending a b ids

unfoldable pub compare_by : Value → Bool → Peer → Peer → Sign
compare_by (words key) ascending a b =
    compare_with text_lt ascending (key a) (key b) (sign_by ltb a.id b.id)
compare_by (numbers key) ascending a b =
    compare_numbers ascending (key a) (key b) (sign_by ltb a.id b.id)

abbrev pub is_above : Sign → Bool
is_above above = true
is_above s = false

-- Whether the comparison puts the first peer behind the second.
unfoldable pub goes_behind : Column → Bool → Peer → Peer → Bool
goes_behind col ascending a b = is_above (compare_by (sort_value col) ascending a b)

-- The language's stable sort.
unfoldable pub sort_peers : List Peer → Column → Bool → List Peer
sort_peers peers col ascending = sort_by (goes_behind col ascending) peers
