-- ===== src/Queue/Consume/Exact.antt =====
-- What a delivery is: the message, its lease and its place in the queue.
use kuttidb.Base.{
  ℕ, ◌+◌, ◌%◌, ◌<◌, ◌≤◌, ◌⊎◌, inl, inr, ◌++◌, All, ◌==◌, Bool-cases, if◌then◌else◌, u64_mod,
  u32_mod, ◌≡◌, ◌≢◌, refl, ap, ◌∙◌, Bool, true, false, List, [], ◌∷◌, Option, some, none, arith,
}
use kuttidb.Queue.{Message, MessageState, Queue, Store, Clocks, messages}
use kuttidb.Queue.Lists.{is_inflight, find_id, replace_id}
use kuttidb.Queue.Messages.{replace_message}
use kuttidb.Queue.Counts.{messages-replace_message}
use kuttidb.Queue.Invariant.{Holds}
use kuttidb.Queue.Presence.Reaped.{IsSameQueue}
use kuttidb.Queue.Consume.{
  Delivery, Request, Consumed, fresh_tag, to_delivery, lease_message, set_hint, mark_inflight,
  hand_over, is_due, is_exhausted,
}
use kuttidb.Queue.Consume.Sound.{messages-set_hint}

-- What a consume passes over: a message in flight, one that is not yet due, or one that has used up
-- its deliveries.
abbrev pub IsSkipped : ℕ → ℕ → Message → Type 0
IsSkipped now limit x =
    (x.state ≡ MessageState.inflight) ⊎ ((now < x.timer) ⊎ ((limit ≢ 0) × (limit ≤ x.deliveries)))

-- The first message of the list that is not passed over is ready and due.
pub record IsPicked (now limit : ℕ) (m : Message) (ms : List Message) : Type 0 where
  pub front : List Message
  pub back : List Message
  pub split : ms ≡ front ++ m ∷ back
  pub skipped : All (IsSkipped now limit) front
  pub ready : m.state ≡ MessageState.ready
  pub due : m.timer ≤ now

-- The queue holds the message under its id, in flight for the caller until the lease ends, under a
-- tag that is not 0 and with one delivery more; `d` is what the caller gets.
pub record IsLeased (t : Clocks) (r : Request) (m : Message) (q : Queue) (d : Delivery)
    : Type 0 where
  pub message : Message
  pub held : find_id m.id (messages q) ≡ some message
  pub flying : message.state ≡ MessageState.inflight
  pub owner_is : message.owner ≡ r.owner
  pub tag_is : message.delivery_tag ≢ 0
  pub lease_is :
      message.timer
      ≡ (t.lease + (if r.visibility_ms == 0 then 30000 else r.visibility_ms)) % u64_mod
  pub deliveries_is : message.deliveries ≡ (m.deliveries + 1) % u32_mod
  pub same_id : message.id ≡ m.id
  pub same_payload : message.payload ≡ m.payload
  pub same_expiry : message.expires_ms ≡ m.expires_ms
  pub got_id : d.id ≡ m.id
  pub got_payload : d.payload ≡ m.payload
  pub got_tag : d.delivery_tag ≡ message.delivery_tag
  pub got_owner : d.owner ≡ r.owner
  pub got_count : d.delivery_count ≡ message.deliveries
  pub got_deadline : d.visibility_deadline_ms ≡ message.timer

find_id-replace_id :
    (id : ℕ) (m m' : Message) (ms : List Message)
    → m'.id ≡ id
    → find_id id ms ≡ some m
    → find_id id (replace_id id m' ms) ≡ some m'
unfolding find_id replace_id
find_id-replace_id id m m' [] same h = cc
find_id-replace_id id m m' (x ∷ ms) same h = ground (arith, find_id-replace_id id m m' ms)

set_hint-IsSameQueue : (o : Option ℕ) (id : ℕ) (q : Queue) → IsSameQueue q (set_hint o id q)
unfolding set_hint
set_hint-IsSameQueue none id q = record {
  name = refl;
  deleted = refl;
  durable = refl;
  dlq_name = refl;
  max_deliveries = refl;
  max_depth = refl;
}
set_hint-IsSameQueue (some delayed) id q = record {
  name = refl;
  deleted = refl;
  durable = refl;
  dlq_name = refl;
  max_deliveries = refl;
  max_depth = refl;
}

pub mark_inflight-IsSameQueue :
    (q : Queue) (o : Option ℕ) (m : Message) → IsSameQueue q (mark_inflight q o m)
unfolding mark_inflight replace_message
mark_inflight-IsSameQueue q o m =
    let hint = set_hint-IsSameQueue o m.id _ in
    record {
      name = hint.name;
      deleted = hint.deleted;
      durable = hint.durable;
      dlq_name = hint.dlq_name;
      max_deliveries = hint.max_deliveries;
      max_depth = hint.max_depth;
    }

pub mark_inflight-messages :
    (q : Queue) (o : Option ℕ) (m : Message)
    → messages (mark_inflight q o m) ≡ replace_id m.id m (messages q)
unfolding mark_inflight replace_message
mark_inflight-messages q o m = messages-set_hint o m.id _ ∙ messages-replace_message q m

fresh_tag-ne : (next : ℕ) → fresh_tag next ≢ 0
fresh_tag-ne next h = absurd (ground (arith, h))

pub hand_over-IsLeased :
    (t : Clocks) (r : Request) (l : Store × Bool) (q : Queue) (o : Option ℕ) (m : Message)
    (d : Delivery)
    → Holds q m
    → (hand_over t r l q o m).2 ≡ Consumed.delivered d
    → IsLeased t r m (hand_over t r l q o m).1 d
unfolding hand_over lease_message
hand_over-IsLeased t r (s, false) q o m d held h = absurd (cc h)
hand_over-IsLeased t r (s, true) q o m d held h =
    let tag = fresh_tag s.next_delivery_tag in
    let leased = lease_message t r q m tag in
    let same : d ≡ to_delivery leased = ground (arith, h) in
    record {
      message = leased;
      held =
          ap (λ ms. find_id m.id ms) (mark_inflight-messages q o leased)
          ∙ find_id-replace_id m.id m leased (messages q) refl held;
      flying = refl;
      owner_is = refl;
      tag_is = fresh_tag-ne s.next_delivery_tag;
      lease_is = refl;
      deliveries_is = refl;
      same_id = refl;
      same_payload = refl;
      same_expiry = refl;
      got_id = ap (λ x. x.id) same;
      got_payload = ap (λ x. x.payload) same;
      got_tag = ap (λ x. x.delivery_tag) same;
      got_owner = ap (λ x. x.owner) same;
      got_count = ap (λ x. x.delivery_count) same;
      got_deadline = ap (λ x. x.visibility_deadline_ms) same;
    }

pub not_due-IsSkipped : (now limit : ℕ) (m : Message) → is_due now m ≡ false → IsSkipped now limit m
unfolding is_due
not_due-IsSkipped now limit m h = elim (Bool-cases (is_inflight m)) [
  | inl flying ↦ inl (ground (arith, flying))
  | inr waiting ↦ inr (inl (ground (arith, h, waiting)))
]

pub due-IsReady :
    (now : ℕ) (m : Message) → is_due now m ≡ true → (m.state ≡ MessageState.ready) × (m.timer ≤ now)
unfolding is_due
due-IsReady now m h = (ground (arith, h), ground (arith, h))

pub is_exhausted-IsSkipped :
    (now limit : ℕ) (q : Queue) (m : Message)
    → q.max_deliveries ≡ limit
    → is_exhausted q m ≡ true
    → IsSkipped now limit m
unfolding is_exhausted
is_exhausted-IsSkipped now limit q m same h =
    inr (inr (λ e. absurd (ground (arith, same, h, e)), ground (arith, same, h)))
