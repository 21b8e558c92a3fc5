-- ===== src/Rpc.antt =====
-- ui/js/rpc.js: credentials, the status of a response, `call` and `batch`. The response is an argument: `J` is
-- the type of JSON values, `E` that of JSON-RPC errors.
pub mod Order
mod Tests
use bitcoin_lisp.Prelude.{
  ℕ, zero, suc, ◌+◌, List, [], ◌∷◌, ◌++◌, Bool, true, false, not, ◌&&◌, leb, ◌==◌, if◌then◌else◌,
  Option, none, some, Outcome, ok, err, ◌>>=◌, reverse, find_first, Text,
}

pub data RpcFailure (E : Type 0) : Type 0 where
  auth_error : ℕ → RpcFailure E
  http_error : ℕ → RpcFailure E
  rpc_error : E → RpcFailure E
  malformed_batch : RpcFailure E

-- The credentials that the tab keeps, before their base64 form.
unfoldable pub set_credentials : Text → Text → Option Text → Bool × Option Text
set_credentials [] [] stored = (false, stored)
set_credentials user pass stored = (true, some (user ++ b':' ∷ pass))

pub record Reply (J E : Type 0) : Type 0 where
  pub id : ℕ
  pub result : Option J
  pub error : Option E

-- An answer of `batch`: `missing` stands for the error with code -1.
pub data BatchError (E : Type 0) : Type 0 where
  missing : BatchError E
  replied : E → BatchError E

pub record Answer (J E : Type 0) : Type 0 where
  pub result : Option J
  pub error : Option (BatchError E)

-- `post`, behind the fetch: the status, and the body.
unfoldable pub post : {B E : Type 0} → ℕ → B → Outcome (RpcFailure E) B
post status body =
    if status == 401
    then err (auth_error 401)
    else if status == 403
    then err (auth_error 403)
    else if not (leb 200 status && leb status 299)
    then err (http_error status)
    else ok body

abbrev pub with_error : {E : Type 0} → Option E → Option (BatchError E)
with_error none = none
with_error (some e) = some (replied e)

module _ {J E : Type 0} where
  abbrev result_of : Option E → Option J → Outcome (RpcFailure E) (Option J)
  result_of none result = ok result
  result_of (some e) result = err (rpc_error e)

  unfoldable pub call : ℕ → Reply J E → Outcome (RpcFailure E) (Option J)
  call status reply = post status reply >>= λ body. result_of body.error body.result

  abbrev pub answer_of : Option (Reply J E) → Answer J E
  answer_of none = record { result = none; error = some missing }
  answer_of (some r) = record { result = r.result; error = with_error r.error }

  -- A Map of the replies by id: the last reply of an id counts.
  unfoldable pub by_id : List (Reply J E) → ℕ → Option (Reply J E)
  by_id replies id = find_first (λ r. r.id == id) (reverse replies)

  -- The answers of `n` requests with the ids from `id` on.
  unfoldable pub answers : ℕ → ℕ → List (Reply J E) → List (Answer J E)
  answers zero id replies = []
  answers (suc n) id replies = answer_of (by_id replies id) ∷ answers n (suc id) replies

  abbrev pub array_or : Option (List (Reply J E)) → Outcome (RpcFailure E) (List (Reply J E))
  array_or none = err malformed_batch
  array_or (some replies) = ok replies

  -- `batch` of `n` calls, with the counter of ids before; `none` is a body that is no array. An empty batch
  -- is not sent.
  unfoldable pub batch :
      ℕ → ℕ → ℕ → Option (List (Reply J E)) → ℕ × Outcome (RpcFailure E) (List (Answer J E))
  batch zero next_id status body = (next_id, ok [])
  batch (suc n) next_id status body = (
    next_id + suc n,
    (do replies ← post status body; list ← array_or replies; ok (answers (suc n) next_id list)),
  )

-- What `clearCredentials` leaves in the tab, and `hasCredentials`: an empty text counts as none.
unfoldable pub clear_credentials : Option Text → Option Text
clear_credentials stored = none

unfoldable pub has_credentials : Option Text → Bool
has_credentials none = false
has_credentials (some []) = false
has_credentials (some (c ∷ cs)) = true
