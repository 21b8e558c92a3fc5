-- ===== src/Wallet/Book/Tests.antt =====
-- Two labels, one of which vanished between the calls.
use bitcoin_lisp.Prelude.{ℕ, List, [], ◌∷◌, Option, none, some, ok, err, Text, codes, ◌≡◌, refl}
use bitcoin_lisp.Wallet.Book.{
  Book, BookNode, rows_of, sort_rows, decorate, with_infos, refresh_book,
}
use bitcoin_lisp.Wallet.Book.Sorted.{IsBook, refresh_book-IsBook}

abbrev labels : List Text
labels = codes "b" ∷ codes "gone" ∷ codes "a" ∷ []

abbrev told_answers : List (Option (List (Text × Text)))
told_answers =
    some ((codes "x2", codes "receive") ∷ (codes "x1", []) ∷ [])
    ∷ none
    ∷ some ((codes "y", codes "send") ∷ [])
    ∷ []

abbrev node : BookNode ℕ
node = record {
  list_labels = ok labels;
  describe = λ ls. ok told_answers;
  infos = λ addresses. ok (some 7 ∷ none ∷ some 9 ∷ []);
  set_label = λ address label. err (codes "locked");
}

abbrev no_book : Book ℕ
no_book = record { rows = []; error = some (codes "old") }

abbrev shown_book : Book ℕ
shown_book = record {
  rows =
      record { address = codes "y"; label = codes "a"; purpose = codes "send"; info = some 7 }
      ∷ record { address = codes "x1"; label = codes "b"; purpose = codes "unknown"; info = none }
      ∷ record { address = codes "x2"; label = codes "b"; purpose = codes "receive"; info = some 9 }
      ∷ [];
  error = none;
}

book_run : refresh_book node no_book ≡ ok shown_book
unfolding refresh_book rows_of sort_rows with_infos decorate
book_run = refl

refresh_book-IsBook_example : IsBook labels told_answers shown_book
refresh_book-IsBook_example =
    refresh_book-IsBook node no_book shown_book labels told_answers refl refl book_run
