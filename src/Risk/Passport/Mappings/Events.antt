-- ===== src/Risk/Passport/Mappings/Events.antt =====
-- What the verifier reads from a mapping (`verify_passport` of src/esscher/risk/passport.py).
use esscher_market.Base.{Option, none, some, List, [], ◌∷◌, arith, ◌≡◌, ◌↔◌, ap}
use esscher_market.Base.Text.{Text, text}
use esscher_market.Base.Json.{
  Json, null, bool, number, string, array, object, Fields, get, text_value,
}
use esscher_market.Base.Result.{ok, err, ◌>>=◌}
use esscher_market.Risk.Reasons.{Checked}
use esscher_market.Risk.Passport.{PassportEvent}
use esscher_market.Risk.Passport.Mappings.{text_or_fail, value_or_null, event_of_mapping}

-- The events that the mappings are, where each has its four texts.
unfoldable pub events_of_mappings : List Fields → Checked (List PassportEvent)
events_of_mappings [] = ok []
events_of_mappings (event ∷ rest) =
    let later = events_of_mappings rest in
    event_of_mapping event >>= λ e. later >>= λ es. ok (e ∷ es)

-- The mapping has the event's four texts and its payload.
pub record IsEvent (m : Fields) (e : PassportEvent) : Type 0 where
  pub event_type : get (text "event_type") m ≡ some (string e.event_type)
  pub prev_sha256 : get (text "prev_sha256") m ≡ some (string e.prev_sha256)
  pub event_sha256 : get (text "event_sha256") m ≡ some (string e.event_sha256)
  pub created_at : get (text "created_at") m ≡ some (string e.created_at)
  pub payload : value_or_null (get (text "payload") m) ≡ e.payload

abbrev pub AreEvents : List Fields → List PassportEvent → Type 0
AreEvents [] [] = Unit
AreEvents [] (_ ∷ _) = ⊥
AreEvents (_ ∷ _) [] = ⊥
AreEvents (m ∷ ms) (e ∷ es) = IsEvent m e × AreEvents ms es

text_or_fail_iff :
    (v : Option Json) (t : Text) → (text_or_fail (text_value v) ≡ ok t) ↔ (v ≡ some (string t))
text_or_fail_iff none t = ground arith
text_or_fail_iff (some null) t = ground arith
text_or_fail_iff (some (bool b)) t = ground arith
text_or_fail_iff (some (number n)) t = ground arith
text_or_fail_iff (some (string x)) t = ground arith
text_or_fail_iff (some (array xs)) t = ground arith
text_or_fail_iff (some (object fs)) t = ground arith

-- Four texts and a payload make the event that has them.
abbrev make_event :
    Checked Text → Checked Text → Checked Text → Checked Text → Json → Checked PassportEvent
make_event k p o t v = do
  kind ← k
  prev ← p
  own ← o
  time ← t
  ok (record {
    event_type = kind;
    payload = v;
    prev_sha256 = prev;
    event_sha256 = own;
    created_at = time;
  })

make_event_iff :
    (k p o t : Checked Text) (v : Json) (e : PassportEvent)
    → (make_event k p o t v ≡ ok e) ↔ (
        (k ≡ ok e.event_type)
        × (p ≡ ok e.prev_sha256)
        × (o ≡ ok e.event_sha256)
        × (t ≡ ok e.created_at)
        × (v ≡ e.payload))
make_event_iff (err x) p o t v e = ground arith
make_event_iff (ok k) (err x) o t v e = ground arith
make_event_iff (ok k) (ok p) (err x) t v e = ground arith
make_event_iff (ok k) (ok p) (ok o) (err x) v e = ground arith
make_event_iff (ok k) (ok p) (ok o) (ok t) v e = (
  λ h.
      let own : record {
        event_type = k;
        payload = v;
        prev_sha256 = p;
        event_sha256 = o;
        created_at = t;
      }
          ≡ e =
        cc in
      (
        ap (λ (x : PassportEvent). ok x.event_type) own,
        ap (λ (x : PassportEvent). ok x.prev_sha256) own,
        ap (λ (x : PassportEvent). ok x.event_sha256) own,
        ap (λ (x : PassportEvent). ok x.created_at) own,
        ap (λ (x : PassportEvent). x.payload) own,
      ),
  λ (a, b, c, d, f). cc,
)

event_of_mapping_iff : (m : Fields) (e : PassportEvent) → (event_of_mapping m ≡ ok e) ↔ IsEvent m e
unfolding event_of_mapping
event_of_mapping_iff m e =
    let made = make_event_iff _ _ _ _ _ e in
    let kind = text_or_fail_iff (get (text "event_type") m) e.event_type in
    let prev = text_or_fail_iff (get (text "prev_sha256") m) e.prev_sha256 in
    let own = text_or_fail_iff (get (text "event_sha256") m) e.event_sha256 in
    let time = text_or_fail_iff (get (text "created_at") m) e.created_at in
    (
      λ h.
          let (a, b, c, d, f) = made.0 h in
          record {
            event_type = kind.0 a;
            prev_sha256 = prev.0 b;
            event_sha256 = own.0 c;
            created_at = time.0 d;
            payload = f;
          },
      λ (r : IsEvent m e). made.1 (
        kind.1 r.event_type,
        prev.1 r.prev_sha256,
        own.1 r.event_sha256,
        time.1 r.created_at,
        r.payload,
      ),
    )

read_events :
    (r : Checked PassportEvent) (rs : Checked (List PassportEvent)) (m : Fields) (ms : List Fields)
    (es : List PassportEvent)
    → ((e : PassportEvent) → (r ≡ ok e) ↔ IsEvent m e)
    → ((es : List PassportEvent) → (rs ≡ ok es) ↔ AreEvents ms es)
    → ((r >>= λ e. rs >>= λ es. ok (e ∷ es)) ≡ ok es) ↔ AreEvents (m ∷ ms) es
read_events (err x) rs m ms [] one rest = (λ h. absurd cc, λ h. absurd h)
read_events (err x) rs m ms (e ∷ es) one rest =
    (λ h. absurd cc, λ h. let read = (one e).1 h.0 in absurd cc)
read_events (ok a) (err x) m ms [] one rest = (λ h. absurd cc, λ h. absurd h)
read_events (ok a) (err x) m ms (e ∷ es) one rest =
    (λ h. absurd cc, λ h. let read = (rest es).1 h.1 in absurd cc)
read_events (ok a) (ok xs) m ms [] one rest = (λ h. absurd cc, λ h. absurd h)
read_events (ok a) (ok xs) m ms (e ∷ es) one rest = (
  λ h. ((one e).0 cc, (rest es).0 cc),
  λ (p, q). let first = (one e).1 p in let others = (rest es).1 q in cc,
)

pub events_iff :
    (ms : List Fields) (es : List PassportEvent) → (events_of_mappings ms ≡ ok es) ↔ AreEvents ms es
unfolding events_of_mappings
events_iff [] [] = ground arith
events_iff [] (e ∷ es) = ground arith
events_iff (m ∷ ms) es =
    read_events (event_of_mapping m) (events_of_mappings ms) m ms es (λ e. event_of_mapping_iff m e)
      (λ es. events_iff ms es)
