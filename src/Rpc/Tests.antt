-- ===== src/Rpc/Tests.antt =====
-- ui/js/rpc.js: the theorems at a batch of two calls whose replies come in the other order.
use bitcoin_lisp.Prelude.{
  ℕ, List, [], ◌∷◌, ap, ◌∙◌, ◌≡◌, arith, some, none, ok, In, first, later, sym, ◌∙◌,
}
use bitcoin_lisp.Rpc.{Reply, Answer, batch}
use bitcoin_lisp.Rpc.Order.{IsDistinct, Answered, batch-same, batch-Answered}

abbrev first_reply : Reply ℕ ℕ
first_reply = record { id = 7; result = some 10; error = none }

abbrev second_reply : Reply ℕ ℕ
second_reply = record { id = 8; result = none; error = some 5 }

abbrev in_order : List (Reply ℕ ℕ)
in_order = first_reply ∷ second_reply ∷ []

abbrev swapped : List (Reply ℕ ℕ)
swapped = second_reply ∷ first_reply ∷ []

in_order-IsDistinct : IsDistinct in_order
in_order-IsDistinct r s (first a) (first b) e = a ∙ sym b
in_order-IsDistinct r s (first a) (later (first b)) e =
    let bad : 7 ≡ s.id = sym (ap (λ x. x.id) a) ∙ e in
    let is_eight : s.id ≡ 8 = ap (λ x. x.id) b in absurd (omega arith)
in_order-IsDistinct r s (later (first a)) (first b) e =
    let bad : 8 ≡ s.id = sym (ap (λ x. x.id) a) ∙ e in
    let is_seven : s.id ≡ 7 = ap (λ x. x.id) b in absurd (omega arith)
in_order-IsDistinct r s (later (first a)) (later (first b)) e = a ∙ sym b
in_order-IsDistinct r s (first a) (later (later k)) e = elim k [ ]
in_order-IsDistinct r s (later (first a)) (later (later k)) e = elim k [ ]
in_order-IsDistinct r s (later (later h)) k e = elim h [ ]

to_order : (r : Reply ℕ ℕ) → In r swapped → In r in_order
to_order r (first e) = later (first e)
to_order r (later (first e)) = first e
to_order r (later (later h)) = elim h [ ]

to_swapped : (r : Reply ℕ ℕ) → In r in_order → In r swapped
to_swapped r (first e) = later (first e)
to_swapped r (later (first e)) = first e
to_swapped r (later (later h)) = elim h [ ]

batch-same_example : batch 2 7 200 (some swapped) ≡ batch 2 7 200 (some in_order)
batch-same_example = batch-same 2 7 200 swapped in_order in_order-IsDistinct to_order to_swapped

batch-Answered_example :
    (list : List (Answer ℕ ℕ)) × (batch 2 7 200 (some in_order) ≡ (9, ok list))
    × Answered 2 7 in_order list
batch-Answered_example =
    batch-Answered 2 7 200 in_order (omega arith) (omega arith) in_order-IsDistinct
