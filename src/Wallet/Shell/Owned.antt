-- ===== src/Wallet/Shell/Owned.antt =====
-- Which wallet a value of the page belongs to, and what a refresh of the list forgets.
use bitcoin_lisp.Prelude.{
  List, [], ◌∷◌, Bool, true, false, if◌then◌else◌, Option, none, some, Outcome, ok, err, Text,
  text_eq_iff, some_of, All, ◌≡◌, refl, ap, sym, subst,
}
use bitcoin_lisp.Wallet.Listing.{same_name}
use bitcoin_lisp.Wallet.Shell.{Stage, wallets_asked, dir_asked, fetching, known_or, kept_if}

-- The flag is on exactly while one call is waited for.
abbrev pub InFlight : Bool → List Stage → Type 0
InFlight false [] = Unit
InFlight true (w ∷ []) = Unit
InFlight b ws = ⊥

-- A value that the page holds is one of the selected wallet.
abbrev pub Owned : {A : Type 0} → (Text → A → Type 0) → Option Text → Option A → Type 0
Owned P none x = Unit
Owned P (some name) none = Unit
Owned P (some name) (some x) = P name x

abbrev pub IsTold : {A : Type 0} → (Text → A → Type 0) → Text → Outcome Text A → Type 0
IsTold P name (ok x) = P name x
IsTold P name (err e) = Unit

abbrev pub is_fetch : Stage → Bool
is_fetch (fetching name f) = true
is_fetch wallets_asked = false
is_fetch dir_asked = false

abbrev pub IsFor : Option Text → Stage → Type 0
IsFor selected (fetching name f) = selected ≡ some name
IsFor selected wallets_asked = Unit
IsFor selected dir_asked = Unit

pub Owned-none : {A : Type 0} (P : Text → A → Type 0) (name : Option Text) → Owned P name none
Owned-none P none = tt
Owned-none P (some name) = tt

pub Owned-known_or :
    {A : Type 0} (P : Text → A → Type 0) (name : Text) (selected : Option Text) (old : Option A)
    (answer : Outcome Text A)
    → selected ≡ some name
    → IsTold P name answer
    → Owned P selected old
    → Owned P selected (known_or old answer)
Owned-known_or P name selected old (err e) k told h = h
Owned-known_or P name selected old (ok x) k told h = subst (λ n. Owned P n (some x)) (sym k) told

same_name-≡ : (a b : Option Text) → same_name a b ≡ true → a ≡ b
same_name-≡ none none h = refl
same_name-≡ (some a) (some b) h = ap some ((text_eq_iff a b).0 h)
same_name-≡ none (some b) h = absurd (cc)
same_name-≡ (some a) none h = absurd (cc)

-- What a new list forgets: everything of another selection.
pub Owned-switch :
    {A : Type 0} (P : Text → A → Type 0) (new old : Option Text) (has_info : Bool) (x : Option A)
    → Owned P old x
    → Owned P new (kept_if (if same_name new old then has_info else false) x)
Owned-switch P new old has_info x h = go (same_name new old) has_info refl
  where
    go : (b i : Bool) → same_name new old ≡ b → Owned P new (kept_if (if b then i else false) x)
    go false i e = Owned-none P new
    go true false e = Owned-none P new
    go true true e = subst (λ n. Owned P n x) (sym (same_name-≡ new old e)) h

pub no_fetch-IsFor :
    (a b : Option Text) (ws : List Stage)
    → some_of is_fetch ws ≡ false
    → All (IsFor a) ws
    → All (IsFor b) ws
no_fetch-IsFor a b [] q h = tt
no_fetch-IsFor a b (wallets_asked ∷ ws) q h = (tt, no_fetch-IsFor a b ws q h.1)
no_fetch-IsFor a b (dir_asked ∷ ws) q h = (tt, no_fetch-IsFor a b ws q h.1)
no_fetch-IsFor a b (fetching name f ∷ ws) q h = absurd (cc)
