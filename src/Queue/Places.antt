-- ===== src/Queue/Places.antt =====
-- What a change of a queue's message list is, by itself: a message that is taken out, changed in its
-- place, or new at the end.
use kuttidb.Base.{
  ℕ, ◌≡◌, ◌≢◌, refl, sym, ap, ◌∙◌, List, [], ◌∷◌, ◌++◌, some, arith, ◌==◌, Bool-cases, inl, inr,
  if_cases, All,
}
use kuttidb.Queue.{Message, MessageState, Queue, messages}
use kuttidb.Queue.Messages.{message_create, with_footprint, append_message}
use kuttidb.Queue.Counts.{messages-message_link}
use kuttidb.Queue.Lists.{find_tag, find_id, remove_id, replace_id}

-- The second list is the first one without the message, in its order.
pub record IsTaken (m : Message) (ms ms' : List Message) : Type 0 where
  pub front : List Message
  pub back : List Message
  pub split : ms ≡ front ++ m ∷ back
  pub joined : ms' ≡ front ++ back

-- The second list is the first one with `m'` in the place of `m`.
pub record IsChanged (m m' : Message) (ms ms' : List Message) : Type 0 where
  pub front : List Message
  pub back : List Message
  pub split : ms ≡ front ++ m ∷ back
  pub changed : ms' ≡ front ++ m' ∷ back

-- A message that was never delivered, as it is published.
pub record IsNew (id expires_ms : ℕ) (payload : List ℕ) (m : Message) : Type 0 where
  pub id_is : m.id ≡ id
  pub expiry_is : m.expires_ms ≡ expires_ms
  pub payload_is : m.payload ≡ payload
  pub state_is : m.state ≡ MessageState.ready
  pub timer_is : m.timer ≡ 0
  pub deliveries_is : m.deliveries ≡ 0

-- The second list is the first one with such a message at its end.
pub record IsAppended (id expires_ms : ℕ) (payload : List ℕ) (ms ms' : List Message) : Type 0 where
  pub message : Message
  pub new : IsNew id expires_ms payload message
  pub at_end : ms' ≡ ms ++ message ∷ []

pub remove_id-IsTaken :
    (id : ℕ) (m : Message) (ms : List Message)
    → find_id id ms ≡ some m
    → IsTaken m ms (remove_id id ms)
unfolding find_id remove_id
remove_id-IsTaken id m [] h = absurd (cc h)
remove_id-IsTaken id m (x ∷ ms) h = elim (Bool-cases (x.id == id)) [
  | inl here ↦
      let same : x ≡ m = ground (arith, here, h) in
      record { front = []; back = ms; split = ap (λ y. y ∷ ms) same; joined = rw here refl }
  | inr there ↦
      let rest = remove_id-IsTaken id m ms (ground (arith, there, h)) in
      record {
        front = x ∷ rest.front;
        back = rest.back;
        split = ap (λ ys. x ∷ ys) rest.split;
        joined = rw there (ap (λ ys. x ∷ ys) rest.joined);
      }
]

pub replace_id-IsChanged :
    (id : ℕ) (m m' : Message) (ms : List Message)
    → find_id id ms ≡ some m
    → IsChanged m m' ms (replace_id id m' ms)
unfolding find_id replace_id
replace_id-IsChanged id m m' [] h = absurd (cc h)
replace_id-IsChanged id m m' (x ∷ ms) h = elim (Bool-cases (x.id == id)) [
  | inl here ↦
      let same : x ≡ m = ground (arith, here, h) in
      record { front = []; back = ms; split = ap (λ y. y ∷ ms) same; changed = rw here refl }
  | inr there ↦
      let rest = replace_id-IsChanged id m m' ms (ground (arith, there, h)) in
      record {
        front = x ∷ rest.front;
        back = rest.back;
        split = ap (λ ys. x ∷ ys) rest.split;
        changed = rw there (ap (λ ys. x ∷ ys) rest.changed);
      }
]

-- The first message with the tag, and the messages around it.
pub record IsFirst (tag : ℕ) (m : Message) (ms : List Message) : Type 0 where
  pub front : List Message
  pub back : List Message
  pub split : ms ≡ front ++ m ∷ back
  pub others : All (λ x. x.delivery_tag ≢ tag) front
  pub tag_is : m.delivery_tag ≡ tag

pub find_tag-IsFirst :
    (tag : ℕ) (m : Message) (ms : List Message) → find_tag tag ms ≡ some m → IsFirst tag m ms
unfolding find_tag
find_tag-IsFirst tag m [] h = absurd (cc h)
find_tag-IsFirst tag m (x ∷ ms) h = elim (Bool-cases (x.delivery_tag == tag)) [
  | inl here ↦
      let same : x ≡ m = ground (arith, here, h) in
      record {
        front = [];
        back = ms;
        split = ap (λ y. y ∷ ms) same;
        others = tt;
        tag_is = ap (λ y. y.delivery_tag) (sym same) ∙ ground (arith, here);
      }
  | inr there ↦
      let rest = find_tag-IsFirst tag m ms (ground (arith, there, h)) in
      record {
        front = x ∷ rest.front;
        back = rest.back;
        split = ap (λ ys. x ∷ ys) rest.split;
        others = (ground (arith, there), rest.others);
        tag_is = rest.tag_is;
      }
]

find_tag-append :
    (tag : ℕ) (m : Message) (front back : List Message)
    → All (λ x. x.delivery_tag ≢ tag) front
    → m.delivery_tag ≡ tag
    → find_tag tag (front ++ m ∷ back) ≡ some m
unfolding find_tag
find_tag-append tag m [] back others h = ground (arith, h)
find_tag-append tag m (x ∷ front) back others h =
    ground (arith, others.0, find_tag-append tag m front back others.1 h)

pub IsFirst-find_tag :
    (tag : ℕ) (m : Message) (ms : List Message) → IsFirst tag m ms → find_tag tag ms ≡ some m
IsFirst-find_tag tag m ms h =
    ap (find_tag tag) h.split ∙ find_tag-append tag m h.front h.back h.others h.tag_is

with_footprint-IsNew :
    (q : Queue) (id expires_ms : ℕ) (payload : List ℕ)
    → IsNew id expires_ms payload (with_footprint q (message_create id expires_ms payload))
unfolding with_footprint message_create
with_footprint-IsNew q id expires_ms payload =
    if_cases (IsNew id expires_ms payload) q.durable _ _
      (λ _. record {
        id_is = refl;
        expiry_is = refl;
        payload_is = refl;
        state_is = refl;
        timer_is = refl;
        deliveries_is = refl;
      })
      (λ _. record {
        id_is = refl;
        expiry_is = refl;
        payload_is = refl;
        state_is = refl;
        timer_is = refl;
        deliveries_is = refl;
      })

pub append_message-IsAppended :
    (q : Queue) (id expires_ms : ℕ) (payload : List ℕ)
    → IsAppended id expires_ms payload
        (messages q)
        (messages (append_message q id expires_ms payload))
unfolding append_message
append_message-IsAppended q id expires_ms payload =
    let m = message_create id expires_ms payload in
    record {
      message = with_footprint q m;
      new = with_footprint-IsNew q id expires_ms payload;
      at_end = messages-message_link q m;
    }
