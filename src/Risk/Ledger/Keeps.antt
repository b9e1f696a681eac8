-- ===== src/Risk/Ledger/Keeps.antt =====
-- Invariants of ledger actions: a rule for each way to build an action.
use esscher_market.Base.{Bool, true, false, Option, none, some, if◌then◌else◌}
use esscher_market.Base.Result.{Result, ok, err}
use esscher_market.Risk.Reasons.{RiskReason, Failure, Checked}
use esscher_market.Risk.Ledger.Rows.{Ledger}
use esscher_market.Risk.Ledger.Monad.{
  Action, pure, raise, fail, except, recover, reject_if, gets, modify, constraint, check, or_reject,
  ◌>>=◌, transaction, continue, commit,
}

-- `m` keeps `P`, whether it returns or raises.
pub record Keeps {A : Type 0} (P : Ledger → Type 0) (m : Action A) : Type 0 where
  pub at : (l : Ledger) → P l → P (m l).1

commit_keeps :
    {A : Type 0} (P : Ledger → Type 0) (handler : Failure → Failure) (r : Result Failure A)
    (l l' : Ledger)
    → P l
    → P l'
    → P (commit handler r l l').1
commit_keeps P handler (ok a) l l' h h' = h'
commit_keeps P handler (err e) l l' h h' = h

module _ {P : Ledger → Type 0} where
  pub Keeps-pure : {A : Type 0} (a : A) → Keeps P (pure a)
  unfolding pure
  Keeps-pure a = record { at = λ l h. h }

  pub Keeps-raise : {A : Type 0} (r : RiskReason) → Keeps P (raise {A = A} r)
  unfolding raise
  Keeps-raise r = record { at = λ l h. h }

  pub Keeps-fail : {A : Type 0} (e : Failure) → Keeps P (fail {A = A} e)
  unfolding fail
  Keeps-fail e = record { at = λ l h. h }

  pub Keeps-reject_if : (b : Bool) (r : RiskReason) → Keeps P (reject_if b r)
  unfolding reject_if
  Keeps-reject_if true r = record { at = λ l h. h }
  Keeps-reject_if false r = record { at = λ l h. h }

  pub Keeps-gets : {A : Type 0} (f : Ledger → A) → Keeps P (gets f)
  unfolding gets
  Keeps-gets f = record { at = λ l h. h }

  pub Keeps-modify : (f : Ledger → Ledger) → ((l : Ledger) → P l → P (f l)) → Keeps P (modify f)
  unfolding modify
  Keeps-modify f k = record { at = k }

  pub Keeps-constraint : (b : Bool) → Keeps P (constraint b)
  unfolding constraint
  Keeps-constraint true = record { at = λ l h. h }
  Keeps-constraint false = record { at = λ l h. h }

  pub Keeps-check : {A : Type 0} (c : Checked A) → Keeps P (check c)
  unfolding check
  Keeps-check (ok a) = record { at = λ l h. h }
  Keeps-check (err r) = record { at = λ l h. h }

  pub Keeps-or_reject : {A : Type 0} (r : RiskReason) (o : Option A) → Keeps P (or_reject r o)
  unfolding or_reject
  Keeps-or_reject r none = record { at = λ l h. h }
  Keeps-or_reject r (some a) = record { at = λ l h. h }

  pub Keeps-if :
      {A : Type 0} (b : Bool) (m n : Action A)
      → Keeps P m
      → Keeps P n
      → Keeps P (if b then m else n)
  Keeps-if true m n km kn = km
  Keeps-if false m n km kn = kn

  Keeps-continue :
      {A B : Type 0} (r : Result Failure A) (f : A → Action B)
      → ((a : A) → Keeps P (f a))
      → (l : Ledger) → P l
      → P (continue r f l).1
  Keeps-continue (ok a) f kf l h = (kf a).at l h
  Keeps-continue (err e) f kf l h = h

  pub Keeps-bind :
      {A B : Type 0} (m : Action A) (f : A → Action B)
      → Keeps P m
      → ((a : A) → Keeps P (f a))
      → Keeps P (m >>= f)
  unfolding ◌>>=◌
  Keeps-bind m f km kf = record {
    at = λ l h. let (r, l') = m l in Keeps-continue r f kf l' (km.at l h);
  }

  Keeps-recover :
      {A : Type 0} (r : Result Failure A) (handler : Failure → Action A)
      → ((e : Failure) → Keeps P (handler e))
      → (l : Ledger) → P l
      → P (recover handler r l).1
  Keeps-recover (ok a) handler k l h = h
  Keeps-recover (err e) handler k l h = (k e).at l h

  pub Keeps-except :
      {A : Type 0} (handler : Failure → Action A) (m : Action A)
      → ((e : Failure) → Keeps P (handler e))
      → Keeps P m
      → Keeps P (except handler m)
  unfolding except
  Keeps-except handler m k km = record {
    at = λ l h. let (r, l') = m l in Keeps-recover r handler k l' (km.at l h);
  }

  pub Keeps-transaction :
      {A : Type 0} (handler : Failure → Failure) (body : Action A)
      → Keeps P body
      → Keeps P (transaction handler body)
  unfolding transaction
  Keeps-transaction handler body k = record {
    at = λ l h. commit_keeps P handler (body l).0 l (body l).1 h (k.at l h);
  }

pub ruleset keeps_rules = (
  Keeps-pure, Keeps-raise, Keeps-reject_if, Keeps-gets, Keeps-modify, Keeps-constraint, Keeps-check,
  Keeps-or_reject, Keeps-if, Keeps-bind, Keeps-transaction, Keeps-fail, Keeps-except,
)
