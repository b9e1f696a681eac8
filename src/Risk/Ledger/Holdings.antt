-- ===== src/Risk/Ledger/Holdings.antt =====
-- The reservations table as a whole: one row per event, and the open amounts and rows.
use esscher_market.Base.{
  ℕ, ◌+◌, ◌≤◌, true, false, none, some, List, [], ◌∷◌, ◌++◌, find, update, any, if◌then◌else◌,
  arith, ◌≡◌, refl, sym, inl, inr, Bool-cases,
}
use esscher_market.Base.Text.{Text, same, same_iff}
use esscher_market.Risk.Ledger.Rows.{Reservation, ReservationState}
use esscher_market.Risk.Ledger.Queries.{of_event, is_open, open_amount, sum_open, count_open}
use esscher_market.Risk.Ledger.Reservations.{reservation_conflict}

-- No two rows have one event.
abbrev pub IsUnique : List Reservation → Type 0
IsUnique [] = Unit
IsUnique (r ∷ rs) = (find (of_event r.event_id) rs ≡ none) × IsUnique rs

-- What `UPDATE reservations SET state=?, updated_at=?` makes of a row.
abbrev pub moved : ReservationState → ℕ → Reservation → Reservation
moved state now r = record r { state = state; updated_at = now }

same-sym : (s t : Text) → same s t ≡ false → same t s ≡ false
same-sym s t h = elim (Bool-cases (same t s)) [
  | inl e ↦ (let q : same s t ≡ true = (same_iff s t).1 (sym ((same_iff t s).0 e)) in cc)
  | inr e ↦ e
]

pub no_conflict-find :
    (row : Reservation) (rs : List Reservation)
    → any (reservation_conflict row) rs ≡ false
    → find (of_event row.event_id) rs ≡ none
no_conflict-find row [] h = refl
no_conflict-find row (r ∷ rs) h = ground (arith, no_conflict-find row rs)

find-append_other :
    (e : Text) (row : Reservation) (rs : List Reservation)
    → find (of_event e) rs ≡ none
    → same row.event_id e ≡ false
    → find (of_event e) (rs ++ row ∷ []) ≡ none
find-append_other e row [] h d = ground arith
find-append_other e row (r ∷ rs) h d = ground (arith, find-append_other e row rs)

head_differs :
    (e : Text) (r : Reservation) (rs : List Reservation)
    → find (of_event e) (r ∷ rs) ≡ none
    → (same r.event_id e ≡ false) × (find (of_event e) rs ≡ none)
head_differs e r rs h = ground arith

pub IsUnique-append :
    (row : Reservation) (rs : List Reservation)
    → find (of_event row.event_id) rs ≡ none
    → IsUnique rs
    → IsUnique (rs ++ row ∷ [])
IsUnique-append row [] h u = (refl, tt)
IsUnique-append row (r ∷ rs) h u =
    let (d, rest) = head_differs row.event_id r rs h in
    (
      find-append_other r.event_id row rs u.0 (same-sym r.event_id row.event_id d),
      IsUnique-append row rs rest u.1,
    )

pub sum_open-append :
    (row : Reservation) (rs : List Reservation)
    → sum_open (rs ++ row ∷ []) ≡ sum_open rs + open_amount row
unfolding sum_open
sum_open-append row [] = omega arith
sum_open-append row (r ∷ rs) = omega (arith, sum_open-append row rs)

pub count_open-append :
    (row : Reservation) (rs : List Reservation)
    → count_open (rs ++ row ∷ []) ≡ count_open rs + (if is_open row.state then 1 else 0)
unfolding count_open
count_open-append row [] = omega arith
count_open-append row (r ∷ rs) = omega (arith, count_open-append row rs)

module _ (e : Text) (state : ReservationState) (now : ℕ) where
  update-absent :
      (rs : List Reservation)
      → find (of_event e) rs ≡ none
      → update (of_event e) (moved state now) rs ≡ rs
  update-absent [] h = refl
  update-absent (r ∷ rs) h = let (d, rest) = head_differs e r rs h in rw (d, update-absent rs rest)

  find-update :
      (x : Text) (rs : List Reservation)
      → find (of_event x) rs ≡ none
      → find (of_event x) (update (of_event e) (moved state now) rs) ≡ none
  find-update x [] h = refl
  find-update x (r ∷ rs) h =
      let (d, rest) = head_differs x r rs h in
      elim (Bool-cases (same r.event_id e)) [
        | inl q ↦ rw (q, d, find-update x rs rest)
        | inr q ↦ rw (q, d, find-update x rs rest)
      ]

  pub IsUnique-update :
      (rs : List Reservation) → IsUnique rs → IsUnique (update (of_event e) (moved state now) rs)
  IsUnique-update [] u = tt
  IsUnique-update (r ∷ rs) u = elim (Bool-cases (same r.event_id e)) [
    | inl q ↦ rw q (find-update r.event_id rs u.0, IsUnique-update rs u.1)
    | inr q ↦ rw q (find-update r.event_id rs u.0, IsUnique-update rs u.1)
  ]

  -- Moving an event's open reservation to another state never adds open amount or an open row.
  pub update-bounds :
      (rs : List Reservation) (r : Reservation)
      → find (of_event e) rs ≡ some r
      → is_open r.state ≡ true
      → IsUnique rs
      → (sum_open (update (of_event e) (moved state now) rs) ≤ sum_open rs)
        × (count_open (update (of_event e) (moved state now) rs) ≤ count_open rs)
  unfolding sum_open count_open
  update-bounds [] r found open_row u = ground arith
  update-bounds (h ∷ rs) r found open_row u = elim (Bool-cases (same h.event_id e)) [
    | inl q ↦
        (let absent : find (of_event e) rs ≡ none = rw (← (same_iff h.event_id e).0 q) u.0 in
          rw (q, update-absent rs absent) (ground arith))
    | inr q ↦
        (let (s, c) = update-bounds rs r (ground arith) open_row u.1 in rw q (omega (arith, s, c)))
  ]
