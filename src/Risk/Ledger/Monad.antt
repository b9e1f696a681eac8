-- ===== src/Risk/Ledger/Monad.antt =====
-- A call on the ledger: it returns or raises, and what it wrote before raising is still written,
-- until `transaction` rolls it back.
use esscher_market.Base.{Bool, true, false, Option, none, some, ◌≡◌, arith}
use esscher_market.Base.Result.{Result, ok, err}
use esscher_market.Risk.Reasons.{
  RiskReason, Failure, rejected, integrity_error, type_error, truth_error, Checked,
}
use esscher_market.Risk.Ledger.Rows.{Ledger}

abbrev pub Action : Type 0 → Type 0
Action A = Ledger → Result Failure A × Ledger

unfoldable pub pure : {A : Type 0} → A → Action A
pure a l = (ok a, l)

unfoldable pub raise : {A : Type 0} → RiskReason → Action A
raise reason l = (err (rejected reason), l)

-- `if test: raise _reject(reason, ...)`.
unfoldable pub reject_if : Bool → RiskReason → Action (Unit {0})
reject_if true reason l = (err (rejected reason), l)
reject_if false reason l = (ok tt, l)

unfoldable pub gets : {A : Type 0} → (Ledger → A) → Action A
gets f l = (ok (f l), l)

unfoldable pub modify : (Ledger → Ledger) → Action (Unit {0})
modify f l = (ok tt, f l)

-- An INSERT or UPDATE that would break a uniqueness constraint raises `sqlite3.IntegrityError`.
unfoldable pub constraint : Bool → Action (Unit {0})
constraint true l = (ok tt, l)
constraint false l = (err integrity_error, l)

-- A validation in front of the statements.
unfoldable pub check : {A : Type 0} → Checked A → Action A
check (ok a) l = (ok a, l)
check (err reason) l = (err (rejected reason), l)

-- `x = ...; if x is None: raise _reject(reason, ...)`.
unfoldable pub or_reject : {A : Type 0} → RiskReason → Option A → Action A
or_reject reason none l = (err (rejected reason), l)
or_reject reason (some a) l = (ok a, l)

abbrev pub continue : {A B : Type 0} → Result Failure A → (A → Action B) → Action B
continue (ok a) f l = f a l
continue (err e) f l = (err e, l)

-- To open this is to open the actions above too.
infixl 5 ◌>>=◌ ◌>>◌
unfoldable pub ◌>>=◌ : {A B : Type 0} → Action A → (A → Action B) → Action B
unfolding pure raise reject_if gets modify constraint check or_reject
◌>>=◌ m f l = let (r, l') = m l in continue r f l'

abbrev pub ◌>>◌ : {A B : Type 0} → Action A → Action B → Action B
m >> k = m >>= λ _. k

-- `except sqlite3.IntegrityError: raise _reject(reason, ...)`.
abbrev pub integrity_as : RiskReason → Failure → Failure
integrity_as reason integrity_error = rejected reason
integrity_as reason (rejected r) = rejected r
integrity_as reason type_error = type_error
integrity_as reason truth_error = truth_error

-- A method with no such clause lets the exception through.
abbrev pub unhandled : Failure → Failure
unhandled e = e

-- The end of a transaction that began at `l` and has reached `l'`.
abbrev pub commit :
    {A : Type 0}
    → (Failure → Failure)
    → Result Failure A
    → Ledger
    → Ledger
    → Result Failure A × Ledger
commit handler (ok a) l l' = (ok a, l')
commit handler (err e) l l' = (err (handler e), l)

-- `raise error`, for an exception in hand.
unfoldable pub fail : {A : Type 0} → Failure → Action A
fail e l = (err e, l)

abbrev pub recover :
    {A : Type 0} → (Failure → Action A) → Result Failure A → Ledger → Result Failure A × Ledger
recover handler (ok a) l = (ok a, l)
recover handler (err e) l = handler e l

-- `try: m except ...: handler`; what `m` wrote before it raised stays.
unfoldable pub except : {A : Type 0} → (Failure → Action A) → Action A → Action A
except handler m l = let (r, l') = m l in recover handler r l'

-- `BEGIN IMMEDIATE`, the body, `COMMIT`; on any exception `ROLLBACK` and raise.
unfoldable pub transaction : {A : Type 0} → (Failure → Failure) → Action A → Action A
transaction handler body l = let (r, l') = body l in commit handler r l l'

-- A transaction that raises leaves the ledger as it was.
pub transaction-err :
    {A : Type 0} (handler : Failure → Failure) (body : Action A) (l : Ledger) (e : Failure)
    → (transaction handler body l).0 ≡ err e
    → (transaction handler body l).1 ≡ l
unfolding transaction
transaction-err handler body l e h = ground arith
