-- ===== src/Tests/Codec.antt =====
-- A JSON writer and reader for the examples: tags and lengths in place of punctuation.
use esscher_market.Base.{
  ℕ, zero, suc, ◌+◌, ◌≤◌, true, false, Option, none, some, [], ◌∷◌, ◌++◌, length, arith, ◌≡◌, refl,
  ap, ◌∙◌, sym,
}
use esscher_market.Base.Int.{pos, negsuc}
use esscher_market.Base.Text.{Text}
use esscher_market.Base.Json.{
  Json, null, bool, number, string, array, object, Items, nil, cons, Fields, end, field,
}

-- How deep and long a value is.
unfoldable mutual
  pub size : Json → ℕ
  size (array xs) = suc (size_items xs)
  size (object fs) = suc (size_fields fs)
  size _ = 1

  size_items : Items → ℕ
  size_items nil = 1
  size_items (cons v rest) = suc (size v + size_items rest)

  size_fields : Fields → ℕ
  size_fields end = 1
  size_fields (field _ v rest) = suc (size v + size_fields rest)

abbrev pub print_text : Text → Text → Text
print_text t rest = length t ∷ t ++ rest

-- The text of a value in front of another text.
unfoldable mutual
  pub print : Json → Text → Text
  print null k = 0 ∷ k
  print (bool true) k = 1 ∷ k
  print (bool false) k = 2 ∷ k
  print (number (pos n)) k = 3 ∷ n ∷ k
  print (number (negsuc n)) k = 4 ∷ n ∷ k
  print (string t) k = 5 ∷ print_text t k
  print (array xs) k = 6 ∷ print_items xs k
  print (object fs) k = 7 ∷ print_fields fs k

  print_items : Items → Text → Text
  print_items nil k = 0 ∷ k
  print_items (cons v rest) k = 1 ∷ print v (print_items rest k)

  print_fields : Fields → Text → Text
  print_fields end k = 0 ∷ k
  print_fields (field name v rest) k = 1 ∷ print_text name (print v (print_fields rest k))

-- The first `n` characters and the others.
unfoldable pub split : ℕ → Text → Text × Text
split zero s = ([], s)
split (suc n) [] = ([], [])
split (suc n) (c ∷ s) = let (a, b) = split n s in (c ∷ a, b)

split_lem : (t k : Text) → split (length t) (t ++ k) ≡ (t, k)
unfolding split
split_lem [] k = refl
split_lem (c ∷ t) k = rw (split_lem t k) refl

abbrev pub parse_text : Text → Text × Text
parse_text [] = ([], [])
parse_text (n ∷ s) = split n s

unfoldable mutual
  pub parse : ℕ → Text → Option (Json × Text)
  parse (suc n) (zero ∷ k) = some (null, k)
  parse (suc n) (suc zero ∷ k) = some (bool true, k)
  parse (suc n) (suc (suc zero) ∷ k) = some (bool false, k)
  parse (suc n) (suc (suc (suc zero)) ∷ m ∷ k) = some (number (pos m), k)
  parse (suc n) (suc (suc (suc (suc zero))) ∷ m ∷ k) = some (number (negsuc m), k)
  parse (suc n) (suc (suc (suc (suc (suc zero)))) ∷ k) =
      let (t, k') = parse_text k in some (string t, k')
  parse (suc n) (suc (suc (suc (suc (suc (suc zero))))) ∷ k) = elim (parse_items n k) [
    | none ↦ none
    | some r ↦ some (array r.0, r.1)
  ]
  parse (suc n) (suc (suc (suc (suc (suc (suc (suc zero)))))) ∷ k) = elim (parse_fields n k) [
    | none ↦ none
    | some r ↦ some (object r.0, r.1)
  ]
  parse _ _ = none

  parse_items : ℕ → Text → Option (Items × Text)
  parse_items (suc n) (zero ∷ k) = some (nil, k)
  parse_items (suc n) (suc zero ∷ k) = elim (parse n k) [
    | none ↦ none
    | some r ↦ elim (parse_items n r.1) [ none ↦ none | some q ↦ some (cons r.0 q.0, q.1) ]
  ]
  parse_items _ _ = none

  parse_fields : ℕ → Text → Option (Fields × Text)
  parse_fields (suc n) (zero ∷ k) = some (end, k)
  parse_fields (suc n) (suc zero ∷ k) =
      let (name, k') = parse_text k in
      elim (parse n k') [
        | none ↦ none
        | some r ↦ elim (parse_fields n r.1) [
          | none ↦ none
          | some q ↦ some (field name r.0 q.0, q.1)
        ]
      ]
  parse_fields _ _ = none

size_pos : (v : Json) → 1 ≤ size v
unfolding size
size_pos null = omega arith
size_pos _ = omega arith

size_items_pos : (xs : Items) → 1 ≤ size_items xs
unfolding size
size_items_pos nil = omega arith
size_items_pos (cons v rest) = omega arith

size_fields_pos : (fs : Fields) → 1 ≤ size_fields fs
unfolding size
size_fields_pos end = omega arith
size_fields_pos (field name v rest) = omega arith

mutual
  unfolding parse print size split

  pub parse-print : (v : Json) (n : ℕ) (k : Text) → size v ≤ n → parse n (print v k) ≡ some (v, k)
  parse-print v zero k h = absurd (omega (arith, size_pos v, h))
  parse-print null (suc n) k h = refl
  parse-print (bool true) (suc n) k h = refl
  parse-print (bool false) (suc n) k h = refl
  parse-print (number (pos m)) (suc n) k h = refl
  parse-print (number (negsuc m)) (suc n) k h = refl
  parse-print (string t) (suc n) k h = rw (split_lem t k) refl
  parse-print (array xs) (suc n) k h = rw (parse-print_items xs n k (omega arith)) refl
  parse-print (object fs) (suc n) k h = rw (parse-print_fields fs n k (omega arith)) refl

  parse-print_items :
      (xs : Items) (n : ℕ) (k : Text)
      → size_items xs ≤ n
      → parse_items n (print_items xs k) ≡ some (xs, k)
  parse-print_items xs zero k h = absurd (omega (arith, size_items_pos xs, h))
  parse-print_items nil (suc n) k h = refl
  parse-print_items (cons v rest) (suc n) k h =
      rw
        (
          parse-print v n (print_items rest k) (omega arith),
          parse-print_items rest n k (omega arith),
        )
        refl

  parse-print_fields :
      (fs : Fields) (n : ℕ) (k : Text)
      → size_fields fs ≤ n
      → parse_fields n (print_fields fs k) ≡ some (fs, k)
  parse-print_fields fs zero k h = absurd (omega (arith, size_fields_pos fs, h))
  parse-print_fields end (suc n) k h = refl
  parse-print_fields (field name v rest) (suc n) k h =
      rw
        (
          split_lem name (print v (print_fields rest k)),
          parse-print v n (print_fields rest k) (omega arith),
          parse-print_fields rest n k (omega arith),
        )
        (ap (λ (t : Text × Text). some (field t.0 v rest, k))
          (split_lem name (print v (print_fields rest k))))

-- A text is read with the fuel that it names first, which is the size of the value.
abbrev pub dumps : Json → Text
dumps v = size v ∷ print v []

abbrev pub loads : Text → Option Json
loads [] = none
loads (n ∷ s) = elim (parse n s) [ none ↦ none | some r ↦ some r.0 ]

pub loads-dumps : (v : Json) → loads (dumps v) ≡ some v
loads-dumps v = rw (parse-print v (size v) [] (omega arith), loads) refl

pub dumps_injective : (v w : Json) → dumps v ≡ dumps w → v ≡ w
dumps_injective v w e =
    let agree : some v ≡ some w = sym (loads-dumps v) ∙ ap loads e ∙ loads-dumps w in cc
