-- ===== src/Risk/Ledger/Ensures.antt =====
-- What holds after a ledger action returns: a rule for each way to build an action.
use esscher_market.Base.{Bool, true, false, Option, none, some, ◌≡◌, refl, if◌then◌else◌, arith}
use esscher_market.Base.Result.{Result, ok, err, is_ok}
use esscher_market.Risk.Reasons.{RiskReason, Failure, Checked}
use esscher_market.Risk.Ledger.Rows.{Ledger}
use esscher_market.Risk.Ledger.Monad.{
  Action, pure, raise, reject_if, gets, modify, constraint, check, or_reject, ◌>>=◌, transaction,
  continue, commit, recover, except,
}
use esscher_market.Risk.Ledger.Keeps.{Keeps}

-- The result satisfies `Q` if it is a value.
abbrev pub Returns : {A : Type 0} → (A → Ledger → Type 0) → Result Failure A → Ledger → Type 0
Returns Q (ok a) l = Q a l
Returns Q (err e) l = Unit

-- If `m` returns from `l`, then `Q` holds of what it returns and of the ledger it leaves.
pub record Ensures {A : Type 0} (m : Action A) (l : Ledger) (Q : A → Ledger → Type 0) : Type 0 where
  pub at : Returns Q (m l).0 (m l).1

module _ {A : Type 0} {Q : A → Ledger → Type 0} where
  pub Ensures-pure : (a : A) (l : Ledger) → Q a l → Ensures (pure a) l Q
  unfolding pure
  Ensures-pure a l q = record { at = q }

  pub Ensures-raise : (r : RiskReason) (l : Ledger) → Ensures (raise r) l Q
  unfolding raise
  Ensures-raise r l = record { at = tt }

  pub Ensures-gets : (f : Ledger → A) (l : Ledger) → Q (f l) l → Ensures (gets f) l Q
  unfolding gets
  Ensures-gets f l q = record { at = q }

  pub Ensures-check :
      (c : Checked A) (l : Ledger) → ((a : A) → c ≡ ok a → Q a l) → Ensures (check c) l Q
  unfolding check
  Ensures-check (ok a) l q = record { at = q a refl }
  Ensures-check (err r) l q = record { at = tt }

  pub Ensures-or_reject :
      (r : RiskReason) (o : Option A) (l : Ledger)
      → ((a : A) → o ≡ some a → Q a l)
      → Ensures (or_reject r o) l Q
  unfolding or_reject
  Ensures-or_reject r none l q = record { at = tt }
  Ensures-or_reject r (some a) l q = record { at = q a refl }

  pub Ensures-if :
      (b : Bool) (m n : Action A) (l : Ledger)
      → Ensures m l Q
      → Ensures n l Q
      → Ensures (if b then m else n) l Q
  Ensures-if true m n l em en = em
  Ensures-if false m n l em en = en

module _ {Q : Unit {0} → Ledger → Type 0} where
  pub Ensures-reject_if :
      (b : Bool) (r : RiskReason) (l : Ledger) → (b ≡ false → Q tt l) → Ensures (reject_if b r) l Q
  unfolding reject_if
  Ensures-reject_if true r l q = record { at = tt }
  Ensures-reject_if false r l q = record { at = q refl }

  pub Ensures-modify : (f : Ledger → Ledger) (l : Ledger) → Q tt (f l) → Ensures (modify f) l Q
  unfolding modify
  Ensures-modify f l q = record { at = q }

  pub Ensures-constraint :
      (b : Bool) (l : Ledger) → (b ≡ true → Q tt l) → Ensures (constraint b) l Q
  unfolding constraint
  Ensures-constraint true l q = record { at = q refl }
  Ensures-constraint false l q = record { at = tt }

Ensures-continue :
    {A B : Type 0} (Q : B → Ledger → Type 0) (r : Result Failure A) (f : A → Action B) (l : Ledger)
    → Returns (λ a l'. Ensures (f a) l' Q) r l
    → Returns Q (continue r f l).0 (continue r f l).1
Ensures-continue Q (ok a) f l h = h.at
Ensures-continue Q (err e) f l h = tt

pub Ensures-bind :
    {A B : Type 0} {Q : B → Ledger → Type 0} (m : Action A) (f : A → Action B) (l : Ledger)
    → Ensures m l (λ a l'. Ensures (f a) l' Q)
    → Ensures (m >>= f) l Q
unfolding ◌>>=◌
Ensures-bind {Q} m f l h = record { at = Ensures-continue Q (m l).0 f (m l).1 h.at }

pub ruleset ensures_rules = (
  Ensures-pure, Ensures-raise, Ensures-gets, Ensures-check, Ensures-or_reject, Ensures-if,
  Ensures-reject_if, Ensures-modify, Ensures-constraint, Ensures-bind,
)

-- One statement of a do block, then the rest.
module _ {B : Type 0} {Q : B → Ledger → Type 0} {l : Ledger} where
  pub then_reject_if :
      (b : Bool) (r : RiskReason) (f : Unit {0} → Action B)
      → (b ≡ false → Ensures (f tt) l Q)
      → Ensures (reject_if b r >>= f) l Q
  then_reject_if b r f h = Ensures-bind (reject_if b r) f l (Ensures-reject_if b r l h)

  pub then_constraint :
      (b : Bool) (f : Unit {0} → Action B)
      → (b ≡ true → Ensures (f tt) l Q)
      → Ensures (constraint b >>= f) l Q
  then_constraint b f h = Ensures-bind (constraint b) f l (Ensures-constraint b l h)

  pub then_modify :
      (g : Ledger → Ledger) (f : Unit {0} → Action B)
      → Ensures (f tt) (g l) Q
      → Ensures (modify g >>= f) l Q
  then_modify g f h = Ensures-bind (modify g) f l (Ensures-modify g l h)

  module _ {A : Type 0} where
    pub then_gets :
        (g : Ledger → A) (f : A → Action B) → Ensures (f (g l)) l Q → Ensures (gets g >>= f) l Q
    then_gets g f h = Ensures-bind (gets g) f l (Ensures-gets g l h)

    pub then_or_reject :
        (r : RiskReason) (o : Option A) (f : A → Action B)
        → ((a : A) → o ≡ some a → Ensures (f a) l Q)
        → Ensures (or_reject r o >>= f) l Q
    then_or_reject r o f h = Ensures-bind (or_reject r o) f l (Ensures-or_reject r o l h)

    pub then_check :
        (c : Checked A) (f : A → Action B)
        → ((a : A) → c ≡ ok a → Ensures (f a) l Q)
        → Ensures (check c >>= f) l Q
    then_check c f h = Ensures-bind (check c) f l (Ensures-check c l h)

transaction_keeps :
    {A : Type 0} (P : Ledger → Type 0) (handler : Failure → Failure) (r : Result Failure A)
    (l l' : Ledger)
    → P l
    → Returns (λ _. P) r l'
    → P (commit handler r l l').1
transaction_keeps P handler (ok a) l l' h q = q
transaction_keeps P handler (err e) l l' h q = h

-- A transaction keeps what its body keeps when it returns.
pub Keeps-when_returns :
    {A : Type 0} {P : Ledger → Type 0} (handler : Failure → Failure) (body : Action A)
    → ((l : Ledger) → P l → Ensures body l (λ _. P))
    → Keeps P (transaction handler body)
unfolding transaction
Keeps-when_returns {P = P} handler body k = record {
  at = λ l h. transaction_keeps P handler (body l).0 l (body l).1 h (k l h).at;
}

Keeps-continue_after :
    {A B : Type 0} {P : Ledger → Type 0} (Q : A → Type 0) (r : Result Failure A) (f : A → Action B)
    → ((a : A) → Q a → Keeps P (f a))
    → (l : Ledger) → P l
    → Returns (λ a _. Q a) r l
    → P (continue r f l).1
Keeps-continue_after Q (ok a) f kf l h q = (kf a q).at l h
Keeps-continue_after Q (err e) f kf l h q = h

-- The rest of a method may use what its validations ensure of their result.
pub Keeps-after :
    {A B : Type 0} {P : Ledger → Type 0} (Q : A → Type 0) (m : Action A) (f : A → Action B)
    → Keeps P m
    → ((l : Ledger) → Ensures m l (λ a _. Q a))
    → ((a : A) → Q a → Keeps P (f a))
    → Keeps P (m >>= f)
unfolding ◌>>=◌
Keeps-after Q m f km qm kf = record {
  at = λ l h. Keeps-continue_after Q (m l).0 f kf (m l).1 (km.at l h) (qm l).at;
}

Returns-const :
    {A : Type 0} (P : Ledger → Type 0) (r : Result Failure A) (l : Ledger)
    → P l
    → Returns (λ _. P) r l
Returns-const P (ok a) l h = h
Returns-const P (err e) l h = tt

-- An action that keeps `P` ensures it where it held.
pub Keeps-Ensures :
    {A : Type 0} {P : Ledger → Type 0} {m : Action A} {l : Ledger}
    → Keeps P m
    → P l
    → Ensures m l (λ _. P)
Keeps-Ensures {P} {m} {l} k h = record { at = Returns-const P (m l).0 (m l).1 (k.at l h) }

Returns-map :
    {A : Type 0} {P Q : A → Ledger → Type 0}
    → ((a : A) (l : Ledger) → P a l → Q a l)
    → (r : Result Failure A) (l : Ledger) → Returns P r l
    → Returns Q r l
Returns-map k (ok a) l h = k a l h
Returns-map k (err e) l h = tt

-- What the first action keeps is there for the rest.
pub then_keeps :
    {A B : Type 0} (P : Ledger → Type 0) {Q : B → Ledger → Type 0} (m : Action A) (f : A → Action B)
    → (l : Ledger) → Keeps P m
    → P l
    → ((a : A) (l' : Ledger) → P l' → Ensures (f a) l' Q)
    → Ensures (m >>= f) l Q
then_keeps P m f l km h kf =
    Ensures-bind m f l
      (record { at = Returns-map kf (m l).0 (m l).1 (Returns-const P (m l).0 (m l).1 (km.at l h)) })

always_Returns :
    {A : Type 0} {P : Type 0} (r : Result Failure A) (l : Ledger) → P → Returns (λ _ _. P) r l
always_Returns (ok a) l p = p
always_Returns (err e) l p = tt

-- What holds already holds afterwards.
pub Ensures-always :
    {A : Type 0} {P : Type 0} (m : Action A) (l : Ledger) → P → Ensures m l (λ _ _. P)
Ensures-always m l p = record { at = always_Returns (m l).0 (m l).1 p }

returned :
    {A : Type 0} {P : Type 0} (r : Result Failure A) (l : Ledger)
    → Returns (λ _ _. P) r l
    → is_ok r ≡ true
    → P
returned (ok a) l h e = h
returned (err f) l h e = ground arith

-- What an action that returns ensures about where it started.
pub Ensures-returned :
    {A : Type 0} {P : Type 0} (m : Action A) (l : Ledger)
    → Ensures m l (λ _ _. P)
    → is_ok (m l).0 ≡ true
    → P
Ensures-returned m l h = returned (m l).0 (m l).1 h.at

-- What the first action ensures of the ledger is there for the rest.
pub then_ensures :
    {A B : Type 0} (P : Ledger → Type 0) {Q : B → Ledger → Type 0} (m : Action A) (f : A → Action B)
    → (l : Ledger) → Ensures m l (λ _. P)
    → ((a : A) (l' : Ledger) → P l' → Ensures (f a) l' Q)
    → Ensures (m >>= f) l Q
then_ensures P m f l em kf =
    Ensures-bind m f l (record { at = Returns-map kf (m l).0 (m l).1 em.at })

-- A weaker postcondition.
pub Ensures-map :
    {A : Type 0} {P Q : A → Ledger → Type 0} {m : Action A} {l : Ledger}
    → ((a : A) (l' : Ledger) → P a l' → Q a l')
    → Ensures m l P
    → Ensures m l Q
Ensures-map {m = m} {l = l} k h = record { at = Returns-map k (m l).0 (m l).1 h.at }

Returns-value :
    {A : Type 0} (Q : A → Ledger → Type 0) (r : Result Failure A) (l : Ledger) (a : A)
    → Returns Q r l
    → r ≡ ok a
    → Q a l
Returns-value Q (ok b) l a h e = let q : b ≡ a = cc in rw (← q) h
Returns-value Q (err f) l a h e = ground arith

-- What holds of the value that an action returns.
pub Ensures-value :
    {A : Type 0} {Q : A → Ledger → Type 0} (m : Action A) (l : Ledger) (a : A)
    → Ensures m l Q
    → (m l).0 ≡ ok a
    → Q a (m l).1
Ensures-value {Q = Q} m l a h e = Returns-value Q (m l).0 (m l).1 a h.at e

committed :
    {A : Type 0} (Q : A → Ledger → Type 0) (handler : Failure → Failure) (r : Result Failure A)
    (l l' : Ledger)
    → Returns Q r l'
    → Returns Q (commit handler r l l').0 (commit handler r l l').1
committed Q handler (ok a) l l' h = h
committed Q handler (err e) l l' h = tt

-- A transaction that returns has done what its body does.
pub Ensures-transaction :
    {A : Type 0} {Q : A → Ledger → Type 0} (handler : Failure → Failure) (body : Action A)
    (l : Ledger)
    → Ensures body l Q
    → Ensures (transaction handler body) l Q
unfolding transaction
Ensures-transaction {Q = Q} handler body l h = record {
  at = committed Q handler (body l).0 l (body l).1 h.at;
}

Returns-false :
    {A : Type 0} (Q : A → Ledger → Type 0) (r : Result Failure A) (l : Ledger)
    → Returns (λ _ _. ⊥) r l
    → Returns Q r l
Returns-false Q (ok a) l h = absurd h
Returns-false Q (err e) l h = tt

handled-own :
    {A : Type 0} (handler : Failure → Action A) (r : Result Failure A) (l : Ledger)
    → ((e : Failure) (l' : Ledger) → Ensures (handler e) l' (λ _ _. ⊥))
    → Returns (λ a l'. (r ≡ ok a) × (l ≡ l')) (recover handler r l).0 (recover handler r l).1
handled-own handler (ok a) l k = (refl, refl)
handled-own handler (err e) l k = Returns-false _ (handler e l).0 (handler e l).1 (k e l).at

-- A handler that raises again changes nothing of a call that returns.
pub except-own :
    {A : Type 0} (handler : Failure → Action A) (m : Action A) (l : Ledger)
    → ((e : Failure) (l' : Ledger) → Ensures (handler e) l' (λ _ _. ⊥))
    → Ensures (except handler m) l (λ a l'. ((m l).0 ≡ ok a) × ((m l).1 ≡ l'))
unfolding except
except-own handler m l k = record { at = handled-own handler (m l).0 (m l).1 k }
