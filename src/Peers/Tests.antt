-- ===== src/Peers/Tests.antt =====
-- ui/js/peers.js: runs, and the order of a table of two peers.
use mathlib.Core.List.{Perm}
use bitcoin_lisp.Prelude.{List, [], ◌∷◌, ◌≡◌, refl, true, none, some, codes, Pairwise}
use bitcoin_lisp.Peers.{
  Peer, decode_services, known, unknown, peer_network, onion, by_ping, sort_peers, has_bit,
  unknown_bits,
}
use bitcoin_lisp.Peers.Armed.{Press, click, timeout, finished, idle, run_count, runs, after_press}
use bitcoin_lisp.Prelude.{List, [], ◌∷◌, ◌≡◌, refl}
use bitcoin_lisp.Peers.Keys.{Belongs}
use bitcoin_lisp.Peers.Order.{sort_peers-InOrder}

services_run : decode_services 0x10409 ≡ known 0 ∷ known 3 ∷ known 10 ∷ unknown 16 ∷ []
unfolding decode_services has_bit unknown_bits
services_run = refl

network_run : peer_network (codes "abc.ONION") ≡ onion
unfolding peer_network
network_run = refl

abbrev two_peers : List Peer
two_peers =
    record {
      id = 1;
      addr = codes "1.2.3.4";
      inbound = true;
      connection_type = codes "inbound";
      transport = none;
      ping = none;
      height = some 5;
      sent = some 10;
      received = none;
      subver = codes "/a/";
    }
    ∷ record {
      id = 2;
      addr = codes "5.6.7.8";
      inbound = true;
      connection_type = codes "inbound";
      transport = some (codes "v2");
      ping = some 40;
      height = none;
      sent = none;
      received = some 3;
      subver = codes "/b/";
    }
    ∷ []

sort_peers-InOrder_example :
    Perm (sort_peers two_peers by_ping true) two_peers
    × Pairwise (Belongs by_ping true) (sort_peers two_peers by_ping true)
sort_peers-InOrder_example = sort_peers-InOrder two_peers by_ping true

abbrev press_run : List Press
press_run = click ∷ timeout ∷ click ∷ click ∷ finished ∷ click ∷ []

pressed_runs : run_count press_run idle ≡ 1
unfolding run_count runs after_press
pressed_runs = refl
