-- ===== src/Explorer/Visits.antt =====
-- ui/js/explorer.js: `showBlock` and `showTx`, which are cut at each `await`: what waits for the node is a `Waiting`
-- with the epoch `my` of its visit, and an answer may come at any time. The node's answers are a function of what it
-- is asked, errors with their message. `B` and `T` are the types of a block and of a transaction.
pub mod Kept
pub mod Latest
mod Tests
use bitcoin_lisp.Prelude.{
  ℕ, suc, List, [], ◌∷◌, ◌++◌, map, Bool, true, false, not, ◌&&◌, ◌==◌, if◌then◌else◌, Option, none,
  some, Outcome, ok, err, every_of, pick, Text, is_digit, zero,
}
use bitcoin_lisp.Explorer.{is_hash64}

-- The argument `ref` of `showBlock`: a route has one of the two, or none.
pub record Ref : Type 0 where
  pub hash : Option Text
  pub height : Option Text

-- A navigation: `page` is the parsed page of the route.
pub data Visit : Type 0 where
  to_block : Ref → ℕ → Visit
  to_tx : Option Text → Visit

pub data Shown (B T : Type 0) : Type 0 where
  nothing loading_block loading_tx : Shown B T
  not_a_height not_a_txid : Option Text → Shown B T
  block_failed tx_failed : Text → Shown B T
  block_shown : B → ℕ → Shown B T
  tx_shown : T → Shown B T

-- The node, and the browser's `toLowerCase`. getblockhash takes the digits of the height as a number.
pub record Outside (B T : Type 0) : Type 0 where
  pub to_lower : Text → Text
  pub get_block_hash : Text → Outcome Text Text
  pub get_block : Text → Outcome Text B
  pub get_tx : Text → Outcome Text T

pub data Ask : Type 0 where
  hash_at block_of : Text → ℕ → Ask
  tx_of : Text → Ask

pub record Waiting : Type 0 where
  pub my : ℕ
  pub ask : Ask

pub record Screen (B T : Type 0) : Type 0 where
  pub epoch : ℕ
  pub display : Shown B T
  pub waiting : List Waiting

-- `/^\d+$/.test(ref.height ?? '')`
abbrev pub is_height : Text → Bool
is_height [] = false
is_height (c ∷ cs) = every_of is_digit (c ∷ cs)

abbrev pub or_none : Option Text → Text
or_none none = []
or_none (some t) = t

abbrev pub ask_for : ℕ → Option Ask → List Waiting
ask_for my none = []
ask_for my (some ask) = record { my = my; ask = ask } ∷ []

pub data Event : Type 0 where
  go_to : Visit → Event
  arrive : ℕ → Event

module _ {B T : Type 0} (outside : Outside B T) where
  -- What a visit does up to its first `await`: what it shows, and what it asks for.
  unfoldable pub begin_block : Ref → ℕ → Shown B T × Option Ask
  begin_block r page = go r.hash
    where
      go : Option Text → Shown B T × Option Ask
      go (some hash) = (loading_block, some (block_of (outside.to_lower hash) page))
      go none =
          if is_height (or_none r.height)
          then (loading_block, some (hash_at (or_none r.height) page))
          else (not_a_height r.height, none)

  unfoldable pub begin_tx : Option Text → Shown B T × Option Ask
  begin_tx txid =
      if is_hash64 (or_none txid)
      then (loading_tx, some (tx_of (outside.to_lower (or_none txid))))
      else (not_a_txid txid, none)

  abbrev pub begin : Visit → Shown B T × Option Ask
  begin (to_block r page) = begin_block r page
  begin (to_tx txid) = begin_tx txid

  unfoldable pub visit : Visit → Screen B T → Screen B T
  visit v s = record {
    epoch = suc s.epoch;
    display = (begin v).0;
    waiting = ask_for (suc s.epoch) (begin v).1 ++ s.waiting;
  }

  abbrev pub hash_answer : ℕ → Outcome Text Text → Outcome Ask (Shown B T)
  hash_answer page (ok hash) = err (block_of (outside.to_lower hash) page)
  hash_answer page (err e) = ok (block_failed e)

  abbrev pub block_answer : ℕ → Outcome Text B → Shown B T
  block_answer page (ok block) = block_shown block page
  block_answer page (err e) = block_failed e

  abbrev pub tx_answer : Outcome Text T → Shown B T
  tx_answer (ok tx) = tx_shown tx
  tx_answer (err e) = tx_failed e

  -- What follows an answer when the page is still the current one: the next call, or what is shown.
  unfoldable pub answer : Ask → Outcome Ask (Shown B T)
  answer (hash_at digits page) = hash_answer page (outside.get_block_hash digits)
  answer (block_of hash page) = ok (block_answer page (outside.get_block hash))
  answer (tx_of txid) = ok (tx_answer (outside.get_tx txid))

  abbrev pub carry_on : ℕ → Outcome Ask (Shown B T) → Screen B T → Screen B T
  carry_on my (err ask) s = record s { waiting = record { my = my; ask = ask } ∷ s.waiting }
  carry_on my (ok display) s = record s { display = display }

  -- `if (my !== epoch) return` stands behind every `await`.
  unfoldable pub deliver : Waiting → Screen B T → Screen B T
  deliver w s = if w.my == s.epoch then carry_on w.my (answer w.ask) s else s

  abbrev pub deliver_picked : Option (Waiting × List Waiting) → Screen B T → Screen B T
  deliver_picked none s = s
  deliver_picked (some (w, rest)) s = deliver w (record s { waiting = rest })

  unfoldable pub handle : Event → Screen B T → Screen B T
  handle (go_to v) s = visit v s
  handle (arrive n) s = deliver_picked (pick n s.waiting) s

  unfoldable pub handle_all : List Event → Screen B T → Screen B T
  handle_all [] s = s
  handle_all (e ∷ events) s = handle_all events (handle e s)
