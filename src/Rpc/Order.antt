-- ===== src/Rpc/Order.antt =====
-- What a batch answers does not depend on the order of the replies, and each call has the answer of its own id.
use bitcoin_lisp.Prelude.{
  ℕ, zero, suc, ◌+◌, ◌<◌, ◌≤◌, List, [], true, false, ◌==◌, ◌≡◌, refl, ap, sym, ◌∙◌, arith, Option,
  none, some, In, In-reverse, reverse-In, find_first-In, find_first-none, reverse, get_elem?,
  length, inl, inr, Outcome, ok, ◌≢◌, leb, ◌>>=◌, ◌&&◌, Bool-cases,
}
use bitcoin_lisp.Rpc.{
  Reply, Answer, RpcFailure, by_id, answers, answer_of, array_or, post, batch, with_error, missing,
}

post-same :
    {E B C : Type 0} (status : ℕ) (b b' : B) (f : B → Outcome (RpcFailure E) C)
    → f b ≡ f b'
    → (post status b >>= f) ≡ (post status b' >>= f)
unfolding post
post-same status b b' f same = elim (Bool-cases (status == 401)) [
  | inl t ↦ rw t refl
  | inr x ↦ elim (Bool-cases (status == 403)) [
    | inl t ↦ rw x (rw t refl)
    | inr y ↦ elim (Bool-cases (leb 200 status && leb status 299)) [
      | inl t ↦ rw x (rw y (rw t same))
      | inr z ↦ rw x (rw y (rw z refl))
    ]
  ]
]

module _ {J E : Type 0} where
  -- Two replies with one id are the same reply.
  abbrev pub IsDistinct : List (Reply J E) → Type 0
  IsDistinct xs = (r s : Reply J E) → In r xs → In s xs → r.id ≡ s.id → r ≡ s

  by_id-In :
      (xs : List (Reply J E)) (id : ℕ) (r : Reply J E)
      → by_id xs id ≡ some r
      → In r xs × (r.id ≡ id)
  unfolding by_id
  by_id-In xs id r e =
      let (h, t) = find_first-In (λ s. s.id == id) (reverse xs) r e in
      (In-reverse r xs h, ground arith)

  by_id-none :
      (xs : List (Reply J E)) (id : ℕ) (r : Reply J E)
      → by_id xs id ≡ none
      → In r xs
      → (r.id == id) ≡ false
  unfolding by_id
  by_id-none xs id r e h = find_first-none (λ s. s.id == id) (reverse xs) r e (reverse-In r xs h)

  pub by_id-eq :
      (xs : List (Reply J E)) (id : ℕ) (r : Reply J E)
      → IsDistinct xs
      → In r xs
      → r.id ≡ id
      → by_id xs id ≡ some r
  by_id-eq xs id r distinct h same = go (by_id xs id) refl
    where
      go : (found : Option (Reply J E)) → by_id xs id ≡ found → found ≡ some r
      go none e = absurd (let f : r.id == id ≡ false = by_id-none xs id r e h in ground arith)
      go (some s) e = let (k, t) = by_id-In xs id s e in ap some (distinct s r k h (t ∙ sym same))

  by_id-same :
      (xs ys : List (Reply J E)) (id : ℕ)
      → IsDistinct ys
      → ((r : Reply J E) → In r xs → In r ys)
      → ((r : Reply J E) → In r ys → In r xs)
      → by_id xs id ≡ by_id ys id
  by_id-same xs ys id distinct to from = go (by_id xs id) refl (by_id ys id) refl
    where
      go :
          (a : Option (Reply J E))
          → by_id xs id ≡ a
          → (b : Option (Reply J E)) → by_id ys id ≡ b
          → a ≡ b
      go none e none f = refl
      go (some r) e b f =
          let (h, t) = by_id-In xs id r e in sym (by_id-eq ys id r distinct (to r h) t) ∙ f
      go none e (some s) f =
          let (h, t) = by_id-In ys id s f in
          absurd (let z : s.id == id ≡ false = by_id-none xs id s e (from s h) in ground arith)

  answers-same :
      (n id : ℕ) (xs ys : List (Reply J E))
      → ((k : ℕ) → by_id xs k ≡ by_id ys k)
      → answers n id xs ≡ answers n id ys
  unfolding answers
  answers-same zero id xs ys same = refl
  answers-same (suc n) id xs ys same = rw (same id) (rw (answers-same n (suc id) xs ys same) refl)

  -- Two bodies that hold the same replies, in any order and as often as may be, give the same answers, when
  -- two replies with one id are the same reply.
  pub batch-same :
      (n next_id status : ℕ) (xs ys : List (Reply J E))
      → IsDistinct ys
      → ((r : Reply J E) → In r xs → In r ys)
      → ((r : Reply J E) → In r ys → In r xs)
      → batch n next_id status (some xs) ≡ batch n next_id status (some ys)
  unfolding batch
  batch-same zero next_id status xs ys distinct to from = refl
  batch-same (suc n) next_id status xs ys distinct to from =
      let same : answers (suc n) next_id xs ≡ answers (suc n) next_id ys =
        answers-same (suc n) next_id xs ys (λ k. by_id-same xs ys k distinct to from) in
      ap (λ o. (next_id + suc n, o))
        (post-same status (some xs) (some ys)
          (λ b. array_or b >>= λ list. ok (answers (suc n) next_id list)) (ap ok same))

  get_elem?-answers :
      (n id k : ℕ) (xs : List (Reply J E))
      → k < n
      → get_elem? (answers n id xs) k ≡ some (answer_of (by_id xs (id + k)))
  unfolding answers
  get_elem?-answers zero id k xs h = absurd (omega arith)
  get_elem?-answers (suc n) id zero xs h =
      let e : id ≡ id + 0 = omega arith in ap (λ j. some (answer_of (by_id xs j))) e
  get_elem?-answers (suc n) id (suc k) xs h =
      let e : suc id + k ≡ id + suc k = omega arith in
      get_elem?-answers n (suc id) k xs (omega arith) ∙ ap (λ j. some (answer_of (by_id xs j))) e

  length-answers : (n id : ℕ) (xs : List (Reply J E)) → length (answers n id xs) ≡ n
  unfolding answers
  length-answers zero id xs = refl
  length-answers (suc n) id xs = ap suc (length-answers n (suc id) xs)

  -- What a batch of `n` calls gives: as many answers, each call's own, or the missing one.
  pub record Answered (n next_id : ℕ) (xs : List (Reply J E)) (list : List (Answer J E))
      : Type 0 where
    pub as_many : length list ≡ n
    pub own :
        (k : ℕ) (r : Reply J E)
        → k < n
        → In r xs
        → r.id ≡ next_id + k
        → get_elem? list k ≡ some (record { result = r.result; error = with_error r.error })
    pub missed :
        (k : ℕ)
        → k < n
        → ((r : Reply J E) → In r xs → r.id ≢ next_id + k)
        → get_elem? list k ≡ some (record { result = none; error = some missing })

  answers-Answered :
      (n next_id : ℕ) (xs : List (Reply J E))
      → IsDistinct xs
      → Answered n next_id xs (answers n next_id xs)
  answers-Answered n next_id xs distinct = record {
    as_many = length-answers n next_id xs;
    own = λ k r h there same.
        get_elem?-answers n next_id k xs h
        ∙ ap (λ o. some (answer_of o)) (by_id-eq xs (next_id + k) r distinct there same);
    missed = λ k h absent.
        get_elem?-answers n next_id k xs h ∙ ap (λ o. some (answer_of o)) (nothing k absent);
  }
    where
      nothing :
          (k : ℕ) → ((r : Reply J E) → In r xs → r.id ≢ next_id + k) → by_id xs (next_id + k) ≡ none
      nothing k absent = go (by_id xs (next_id + k)) refl
        where
          go : (o : Option (Reply J E)) → by_id xs (next_id + k) ≡ o → o ≡ none
          go none e = refl
          go (some r) e =
              let (there, same) = by_id-In xs (next_id + k) r e in absurd (absent r there same)

  -- A batch whose response has a status from 200 to 299 and is an array of replies with distinct ids succeeds:
  -- it takes as many ids as there are calls, and gives each call, in order, the result and the error of the
  -- reply with its id, or the missing response when there is none.
  pub batch-Answered :
      (n next_id status : ℕ) (xs : List (Reply J E))
      → 200 ≤ status
      → status ≤ 299
      → IsDistinct xs
      → (list : List (Answer J E)) × (batch n next_id status (some xs) ≡ (next_id + n, ok list))
        × Answered n next_id xs list
  unfolding batch post
  batch-Answered zero next_id status xs low high distinct =
      let e : next_id ≡ next_id + 0 = omega arith in
      (
        [],
        ap (λ k. (k, ok [])) e,
        record {
          as_many = refl;
          own = λ k r h there same. absurd (omega arith);
          missed = λ k h absent. absurd (omega arith);
        },
      )
  batch-Answered (suc n) next_id status xs low high distinct = (
    answers (suc n) next_id xs,
    (let a : status == 401 ≡ false = ground arith in
        let b : status == 403 ≡ false = ground arith in
        let c : (leb 200 status && leb status 299) ≡ true = ground arith in
        rw a (rw b (rw c refl))),
    answers-Answered (suc n) next_id xs distinct,
  )
