-- ===== src/Risk/Kernel/Truth/Fresh.antt =====
-- What the kernel's checks on the broker's truth let through (src/esscher/risk/kernel.py).
use esscher_market.Base.{
  ℕ, ◌*◌, ◌≤◌, List, All, some, arith, ◌≡◌, ◌↔◌, ◌⊎◌, inl, inr, refl, ap, ◌∙◌,
}
use esscher_market.Base.Result.{Result, ok, err, ◌>>=◌}
use esscher_market.Execution.Models.{distance}
use esscher_market.Risk.Reasons.{
  RiskReason, contradictory_truth, unsupported_input, Failure, Checked,
}
use esscher_market.Risk.Snapshots.{AccountSnapshot, PositionSnapshot, OrderSnapshot, second}
use esscher_market.Risk.Snapshots.Freshness.{
  IsFresh, validate_account_freshness_iff, validate_positions_freshness_iff,
  validate_orders_freshness_iff,
}
use esscher_market.Risk.Kernel.Truth.{
  Reading, read, malformed, refused, raised, failed, Truth, rejecting, validated, is_skewed,
  fresh_clock, fresh_account, fresh_positions, fresh_orders, observed_truth,
}

read_injective : {A : Type 0} (a b : A) → read a ≡ read b → a ≡ b
read_injective a b h = cc

rejecting_iff : {A : Type 0} (c : Checked A) (a : A) → (rejecting c ≡ ok a) ↔ (c ≡ ok a)
rejecting_iff (ok x) a = ground arith
rejecting_iff (err e) a = ground arith

-- A reading is validated exactly when it is a value that the validation lets through.
validated_iff :
    {A B : Type 0} (reason : RiskReason) (validate : A → Checked B) (value : B → A) (P : B → Type 0)
    → ((a : A) (b : B) → (validate a ≡ ok b) ↔ ((a ≡ value b) × P b))
    → (r : Reading A) (b : B) → (validated reason validate r ≡ ok b) ↔ ((r ≡ read (value b)) × P b)
unfolding validated
validated_iff reason validate value P valid (read a) b = (
  λ h.
      let (same_value, p) = (valid a b).0 ((rejecting_iff (validate a) b).0 h) in
      (ap read same_value, p),
  λ (h, p). (rejecting_iff (validate a) b).1 ((valid a b).1 (read_injective a (value b) h, p)),
)
validated_iff reason validate value P valid malformed b = ground arith
validated_iff reason validate value P valid (refused x) b = ground arith
validated_iff reason validate value P valid raised b = ground arith
validated_iff reason validate value P valid failed b = ground arith

-- A validation that returns its argument or raises one of two reasons.
returned_iff :
    {A : Type 0} (P : A → Type 0) (r : Checked A) (a b : A) (e f : RiskReason)
    → (r ≡ ok a) ↔ P a
    → (r ≡ ok a) ⊎ (r ≡ err e) ⊎ (r ≡ err f)
    → (r ≡ ok b) ↔ ((a ≡ b) × P b)
returned_iff P r a b e f whole (inl p) =
    (λ h. let q : a ≡ b = cc in (q, rw (← q) (whole.0 p)), λ (q, _). p ∙ ap ok q)
returned_iff P r a b e f whole (inr (inl p)) =
    (λ h. cc, λ (q, h). let back : r ≡ ok a = whole.1 (rw q h) in cc)
returned_iff P r a b e f whole (inr (inr p)) =
    (λ h. cc, λ (q, h). let back : r ≡ ok a = whole.1 (rw q h) in cc)

module _ (max now : ℕ) (truth : Truth) where
  clock_iff :
      (clock : ℕ)
      → (fresh_clock max now truth ≡ ok clock)
        ↔ ((truth.broker_clock ≡ read clock) × (distance clock now ≤ max * second))
  unfolding fresh_clock is_skewed
  clock_iff =
      validated_iff unsupported_input _ (λ c. c) (λ c. distance c now ≤ max * second)
        (λ a b. ground arith) truth.broker_clock

  account_iff :
      (account : AccountSnapshot)
      → (fresh_account max now truth ≡ ok account)
        ↔ ((truth.account ≡ read (some account)) × IsFresh max now account.observed_at)
  unfolding fresh_account
  account_iff =
      validated_iff contradictory_truth _ some (λ account. IsFresh max now account.observed_at)
        (validate_account_freshness_iff max now) truth.account

  positions_iff :
      (ps : List PositionSnapshot)
      → (fresh_positions max now truth ≡ ok ps)
        ↔ ((truth.positions ≡ read ps) × All (λ p. IsFresh max now p.observed_at) ps)
  unfolding fresh_positions
  positions_iff =
      validated_iff contradictory_truth _ (λ ps. ps) (All (λ p. IsFresh max now p.observed_at))
        (λ a b.
          let (whole, result) = validate_positions_freshness_iff max now a in
          returned_iff (All (λ p. IsFresh max now p.observed_at)) _ a b _ _ whole result)
        truth.positions

  orders_iff :
      (os : List OrderSnapshot)
      → (fresh_orders max now truth ≡ ok os)
        ↔ ((truth.orders ≡ read os) × All (λ o. IsFresh max now o.observed_at) os)
  unfolding fresh_orders
  orders_iff =
      validated_iff contradictory_truth _ (λ os. os) (All (λ o. IsFresh max now o.observed_at))
        (λ a b.
          let (whole, result) = validate_orders_freshness_iff max now a in
          returned_iff (All (λ o. IsFresh max now o.observed_at)) _ a b _ _ whole result)
        truth.orders

-- The `try` block over any four results.
abbrev pub four :
    Result Failure ℕ
    → Result Failure AccountSnapshot
    → Result Failure (List PositionSnapshot)
    → Result Failure (List OrderSnapshot)
    → Result Failure (AccountSnapshot × List PositionSnapshot × List OrderSnapshot)
four c a p o = do clock ← c; account ← a; ps ← p; os ← o; ok (account, ps, os)

four_iff :
    (c : Result Failure ℕ) (a : Result Failure AccountSnapshot)
    (p : Result Failure (List PositionSnapshot)) (o : Result Failure (List OrderSnapshot))
    (account : AccountSnapshot) (ps : List PositionSnapshot) (os : List OrderSnapshot)
    → (four c a p o ≡ ok (account, ps, os))
      ↔ (((clock : ℕ) × (c ≡ ok clock)) × (a ≡ ok account) × (p ≡ ok ps) × (o ≡ ok os))
four_iff (err e) a p o account ps os = (λ h. cc, λ (clocked, _, _, _). let h = clocked.1 in cc)
four_iff (ok c) (err e) p o account ps os = ground arith
four_iff (ok c) (ok a) (err e) o account ps os = ground arith
four_iff (ok c) (ok a) (ok p) (err e) account ps os = ground arith
four_iff (ok c) (ok a) (ok p) (ok o) account ps os =
    (λ h. ((c, refl), cc, cc, cc), λ (_, q, r, s). cc)

-- The truth that `startup_reconciliation` and `authorize_entry` go on with: the broker's clock is at
-- most `max` seconds from `now`, and the account, the positions and the orders are those that the
-- source returned, each observed no later than `now` and at most `max` seconds ago.
pub observed_truth_iff :
    (max now : ℕ) (truth : Truth) (account : AccountSnapshot) (ps : List PositionSnapshot)
    (os : List OrderSnapshot)
    → (observed_truth max now truth ≡ ok (account, ps, os)) ↔ (
        ((clock : ℕ) × (truth.broker_clock ≡ read clock) × (distance clock now ≤ max * second))
        × ((truth.account ≡ read (some account)) × IsFresh max now account.observed_at)
        × ((truth.positions ≡ read ps) × All (λ p. IsFresh max now p.observed_at) ps)
        × ((truth.orders ≡ read os) × All (λ o. IsFresh max now o.observed_at) os))
unfolding observed_truth
observed_truth_iff max now truth account ps os =
    let whole =
      four_iff (fresh_clock max now truth) (fresh_account max now truth)
        (fresh_positions max now truth) (fresh_orders max now truth) account ps os in
    let clock = clock_iff max now truth in
    let a = account_iff max now truth account in
    let p = positions_iff max now truth ps in
    let o = orders_iff max now truth os in
    (
      λ h.
          let (c, ha, hp, ho) = whole.0 h in
          let (read_clock, near) = (clock c.0).0 c.1 in
          ((c.0, read_clock, near), a.0 ha, p.0 hp, o.0 ho),
      λ (c, ha, hp, ho). whole.1 ((c.0, (clock c.0).1 (c.1, c.2)), a.1 ha, p.1 hp, o.1 ho),
    )
