-- ===== src/Risk/Policy/Names.antt =====
-- The names of a JSON object and the values at them.
use esscher_market.Base.{
  Bool, true, ◌&&◌, List, [], ◌∷◌, all, any, is_some, arith, ◌≡◌, refl, and_split,
}
use esscher_market.Base.Text.{Text, same, same_iff}
use esscher_market.Base.Json.{Fields, end, field, get}
use esscher_market.Risk.Policy.Parse.{names}

pub same_refl : (t : Text) → same t t ≡ true
same_refl t = (same_iff t t).1 refl

pub same_sym : (s t : Text) → same s t ≡ same t s
same_sym s t = ground (arith, same_iff s t, same_iff t s)

all-map :
    {A : Type 0} (P Q : A → Bool) (xs : List A)
    → ((x : A) → P x ≡ true → Q x ≡ true)
    → all P xs ≡ true
    → all Q xs ≡ true
all-map P Q [] k h = refl
all-map P Q (x ∷ xs) k h =
    let (this, others) = and_split (P x) (all P xs) h in rw (k x this) (all-map P Q xs k others)

-- Every name of an object has a value there, and only its names have one.
names-get : (fs : Fields) → all (λ name. is_some (get name fs)) (names fs) ≡ true
unfolding names get
names-get end = refl
names-get (field name v rest) =
    let others =
      all-map (λ n. is_some (get n rest)) (λ n. is_some (get n (field name v rest))) (names rest)
        (λ n h. ground arith) (names-get rest) in
    rw (same_refl name) others

get-names : (n : Text) (fs : Fields) → is_some (get n fs) ≡ true → any (same n) (names fs) ≡ true
unfolding names get
get-names n end h = cc
get-names n (field name v rest) h = ground (arith, same_sym n name, get-names n rest)

-- An object with the values of another has its names and no others.
pub same_names_lem :
    (fs gs : Fields)
    → ((name : Text) → get name gs ≡ get name fs)
    → (all (λ name. is_some (get name gs)) (names fs)
        && all (λ name. any (same name) (names fs)) (names gs))
      ≡ true
same_names_lem fs gs same_values =
    let present =
      all-map (λ n. is_some (get n fs)) (λ n. is_some (get n gs)) (names fs)
        (λ n h. rw (same_values n) h) (names-get fs) in
    let known =
      all-map (λ n. is_some (get n gs)) (λ n. any (same n) (names fs)) (names gs)
        (λ n h. get-names n fs (rw (← same_values n) h)) (names-get gs) in
    ground (arith, present, known)
