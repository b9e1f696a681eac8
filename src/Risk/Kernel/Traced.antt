-- ===== src/Risk/Kernel/Traced.antt =====
-- Actions that change the ledger only by its own calls: a rule for each way to build an action.
use esscher_market.Base.{
  Bool, true, false, Option, none, some, List, [], ◌∷◌, ◌++◌, all, if◌then◌else◌, ◌≡◌, refl, sym,
  ap, ◌∙◌, arith,
}
use esscher_market.Base.Json.{Host}
use esscher_market.Base.Result.{Result, ok, err}
use esscher_market.Risk.Reasons.{RiskReason, Failure, Checked}
use esscher_market.Risk.Ledger.Rows.{Ledger}
use esscher_market.Risk.Ledger.Monad.{
  Action, pure, raise, fail, except, reject_if, gets, check, or_reject, ◌>>=◌, continue, recover,
}
use esscher_market.Risk.Ledger.Ensures.{Ensures, Returns}
use esscher_market.Risk.Ledger.Operations.{LedgerCall, perform, perform_all}

pub all-append :
    {A : Type 0} (test : A → Bool) (xs ys : List A)
    → all test xs ≡ true
    → all test ys ≡ true
    → all test (xs ++ ys) ≡ true
all-append test [] ys h k = k
all-append test (x ∷ xs) ys h k = let rest = all-append test xs ys in ground arith

module _ (host : Host) where
  pub perform_all-append :
      (xs ys : List LedgerCall) (l : Ledger)
      → perform_all host (xs ++ ys) l ≡ perform_all host ys (perform_all host xs l)
  unfolding perform_all
  perform_all-append [] ys l = refl
  perform_all-append (x ∷ xs) ys l = perform_all-append xs ys (perform host x l).1

-- From `l` the allowed calls lead to `l'`.
pub record Leads (host : Host) (allowed : LedgerCall → Bool) (l l' : Ledger) : Type 0 where
  pub calls : List LedgerCall
  pub admits : all allowed calls ≡ true
  pub reached : l' ≡ perform_all host calls l

-- What `m` leaves, whether it returns or raises, some sequence of allowed calls leaves too.
pub record Traced {A : Type 0} (host : Host) (allowed : LedgerCall → Bool) (m : Action A)
    : Type 0 where
  pub at : (l : Ledger) → Leads host allowed l (m l).1

module _ {host : Host} {allowed : LedgerCall → Bool} where
  pub Leads-refl : (l : Ledger) → Leads host allowed l l
  unfolding perform_all
  Leads-refl l = record { calls = []; admits = refl; reached = refl }

  pub Leads-trans :
      (a b c : Ledger) → Leads host allowed a b → Leads host allowed b c → Leads host allowed a c
  Leads-trans a b c p q = record {
    calls = p.calls ++ q.calls;
    admits = all-append allowed p.calls q.calls p.admits q.admits;
    reached =
        q.reached
        ∙ ap (perform_all host q.calls) p.reached
        ∙ sym (perform_all-append host p.calls q.calls a);
  }

  pub Traced-pure : {A : Type 0} (a : A) → Traced host allowed (pure a)
  unfolding pure
  Traced-pure a = record { at = Leads-refl }

  pub Traced-raise : {A : Type 0} (r : RiskReason) → Traced host allowed (raise {A = A} r)
  unfolding raise
  Traced-raise r = record { at = Leads-refl }

  pub Traced-fail : {A : Type 0} (e : Failure) → Traced host allowed (fail {A = A} e)
  unfolding fail
  Traced-fail e = record { at = Leads-refl }

  pub Traced-reject_if : (b : Bool) (r : RiskReason) → Traced host allowed (reject_if b r)
  unfolding reject_if
  Traced-reject_if true r = record { at = Leads-refl }
  Traced-reject_if false r = record { at = Leads-refl }

  pub Traced-gets : {A : Type 0} (f : Ledger → A) → Traced host allowed (gets f)
  unfolding gets
  Traced-gets f = record { at = Leads-refl }

  pub Traced-check : {A : Type 0} (c : Checked A) → Traced host allowed (check c)
  unfolding check
  Traced-check (ok a) = record { at = Leads-refl }
  Traced-check (err r) = record { at = Leads-refl }

  pub Traced-or_reject :
      {A : Type 0} (r : RiskReason) (o : Option A) → Traced host allowed (or_reject r o)
  unfolding or_reject
  Traced-or_reject r none = record { at = Leads-refl }
  Traced-or_reject r (some a) = record { at = Leads-refl }

  pub Traced-if :
      {A : Type 0} (b : Bool) (m n : Action A)
      → Traced host allowed m
      → Traced host allowed n
      → Traced host allowed (if b then m else n)
  Traced-if true m n tm tn = tm
  Traced-if false m n tm tn = tn

  Leads-continue :
      {A B : Type 0} (r : Result Failure A) (f : A → Action B) (l : Ledger)
      → ((a : A) → Traced host allowed (f a))
      → Leads host allowed l (continue r f l).1
  Leads-continue (ok a) f l tf = (tf a).at l
  Leads-continue (err e) f l tf = Leads-refl l

  pub Traced-bind :
      {A B : Type 0} (m : Action A) (f : A → Action B)
      → Traced host allowed m
      → ((a : A) → Traced host allowed (f a))
      → Traced host allowed (m >>= f)
  unfolding ◌>>=◌
  Traced-bind m f tm tf = record {
    at = λ l.
        Leads-trans l (m l).1 (continue (m l).0 f (m l).1).1 (tm.at l)
          (Leads-continue (m l).0 f (m l).1 tf);
  }

  Leads-recover :
      {A : Type 0} (r : Result Failure A) (handler : Failure → Action A) (l : Ledger)
      → ((e : Failure) → Traced host allowed (handler e))
      → Leads host allowed l (recover handler r l).1
  Leads-recover (ok a) handler l th = Leads-refl l
  Leads-recover (err e) handler l th = (th e).at l

  pub Traced-except :
      {A : Type 0} (handler : Failure → Action A) (m : Action A)
      → ((e : Failure) → Traced host allowed (handler e))
      → Traced host allowed m
      → Traced host allowed (except handler m)
  unfolding except
  Traced-except handler m th tm = record {
    at = λ l.
        Leads-trans l (m l).1 (recover handler (m l).0 (m l).1).1 (tm.at l)
          (Leads-recover (m l).0 handler (m l).1 th);
  }

  -- An action that leaves what one allowed call leaves.
  pub Traced-call :
      {A : Type 0} (m : Action A) (call : LedgerCall)
      → allowed call ≡ true
      → ((l : Ledger) → (m l).1 ≡ (perform host call l).1)
      → Traced host allowed m
  unfolding perform_all
  Traced-call m call h same_ledger = record {
    at = λ l. record { calls = call ∷ []; admits = ground arith; reached = same_ledger l };
  }

pub ruleset traced_rules = (
  Traced-pure, Traced-raise, Traced-fail, Traced-reject_if, Traced-gets, Traced-check,
  Traced-or_reject, Traced-if, Traced-bind, Traced-except,
)

module _ {host : Host} {allowed : LedgerCall → Bool} where
  Leads-continue_after :
      {A B : Type 0} (Q : A → Type 0) (r : Result Failure A) (f : A → Action B) (l : Ledger)
      → ((a : A) → Q a → Traced host allowed (f a))
      → Returns (λ a _. Q a) r l
      → Leads host allowed l (continue r f l).1
  Leads-continue_after Q (ok a) f l tf q = (tf a q).at l
  Leads-continue_after Q (err e) f l tf q = Leads-refl l

  -- The rest of a method may use what its checks ensure of their result.
  pub Traced-after :
      {A B : Type 0} (Q : A → Type 0) (m : Action A) (f : A → Action B)
      → Traced host allowed m
      → ((l : Ledger) → Ensures m l (λ a _. Q a))
      → ((a : A) → Q a → Traced host allowed (f a))
      → Traced host allowed (m >>= f)
  unfolding ◌>>=◌
  Traced-after Q m f tm qm tf = record {
    at = λ l.
        Leads-trans l (m l).1 (continue (m l).0 f (m l).1).1 (tm.at l)
          (Leads-continue_after Q (m l).0 f (m l).1 tf (qm l).at);
  }
