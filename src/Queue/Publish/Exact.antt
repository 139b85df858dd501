-- ===== src/Queue/Publish/Exact.antt =====
-- What a publish that returns an id did.
use kuttidb.Base.{
  ℕ, ◌+◌, ◌%◌, ◌<◌, ◌⊎◌, inl, inr, ◌==◌, Bool-cases, if◌then◌else◌, u64_mod, ◌≡◌, refl, sym, ap,
  ◌∙◌, Bool, true, false, not, ◌||◌, List, ◌∷◌, Option, some, none, arith, if_cases, length, ltb,
}
use kuttidb.Queue.{Queue, Store, Clocks, messages, find_queue, update_queue, queue_message_max}
use kuttidb.Queue.Messages.{append_message, message_link}
use kuttidb.Queue.Places.{IsAppended, append_message-IsAppended}
use kuttidb.Queue.DeadLetter.{append_log}
use kuttidb.Queue.Reap.{reap_queue}
use kuttidb.Queue.Lookup.{
  find_queue-is_named, is_named-split, is_named-make, find_queue-update_queue,
}
use kuttidb.Queue.Presence.Reaped.{reap_queue-HasKept}
use kuttidb.Queue.Publish.{
  is_full, expiry, append_published, accept, publish_one, wait_written, is_name, report_published,
  publish_to, queue_publish,
}

-- The capacity of the queue lets another message in.
abbrev pub HasRoomFor : Queue → Type 0
HasRoomFor q = (q.max_depth ≡ 0) ⊎ (q.depth < q.max_depth)

-- When the message expires: never, or when the time to live has passed.
abbrev pub expires_at : Clocks → ℕ → ℕ
expires_at t ttl_ms = if ttl_ms == 0 then 0 else (t.now + ttl_ms) % u64_mod

not_full-HasRoomFor : (q : Queue) → is_full q ≡ false → HasRoomFor q
unfolding is_full
not_full-HasRoomFor q h = elim (Bool-cases (q.max_depth == 0)) [
  | inl unbounded ↦ inl (ground (arith, unbounded))
  | inr bounded ↦ inr (ground (arith, bounded, h))
]

-- The queue `q` under the name was reaped, had room, and got the message at its end; the store's
-- next id is the message's.
pub record IsPublished (held : List (List ℕ)) (t : Clocks) (s : Store) (name payload : List ℕ)
    (ttl_ms id : ℕ) (out : Store) : Type 0 where
  pub queue : Queue
  pub found : find_queue name s.queues ≡ some queue
  pub fresh : id ≡ (reap_queue (queue.name ∷ held) t s queue).0.next_id
  pub room : HasRoomFor (reap_queue (queue.name ∷ held) t s queue).1
  pub after : Queue
  pub found_after : find_queue name out.queues ≡ some after
  pub appended :
      IsAppended id
        (expires_at t ttl_ms)
        payload
        (messages (reap_queue (queue.name ∷ held) t s queue).1)
        (messages after)

-- An accepted message.
record IsAccepted (t : Clocks) (s : Store) (q : Queue) (payload : List ℕ) (ttl_ms id : ℕ)
    (out : Store × Queue × Option ℕ) : Type 0 where
  fresh : id ≡ s.next_id
  room : is_full q ≡ false
  queues : out.0.queues ≡ s.queues
  stored : out.1 ≡ append_message q id (expiry t ttl_ms) payload

append_published-IsAccepted :
    (t : Clocks) (s : Store) (r : Store × Bool) (q : Queue) (payload : List ℕ) (ttl_ms id : ℕ)
    → is_full q ≡ false
    → r.0.queues ≡ s.queues
    → (append_published r q s.next_id (expiry t ttl_ms) payload).2 ≡ some id
    → IsAccepted t s q payload ttl_ms id (append_published r q s.next_id (expiry t ttl_ms) payload)
unfolding append_published
append_published-IsAccepted t s (s', false) q payload ttl_ms id room queues h = absurd (cc h)
append_published-IsAccepted t s (s', true) q payload ttl_ms id room queues h =
    let same : s.next_id ≡ id = ground (arith, h) in
    record {
      fresh = sym same;
      room = room;
      queues = queues;
      stored = ap (λ i. append_message q i (expiry t ttl_ms) payload) same;
    }

accept-IsAccepted :
    (t : Clocks) (s : Store) (q : Queue) (payload : List ℕ) (ttl_ms id : ℕ)
    → (accept t s q payload ttl_ms).2 ≡ some id
    → IsAccepted t s q payload ttl_ms id (accept t s q payload ttl_ms)
unfolding accept append_log
accept-IsAccepted t s q payload ttl_ms id =
    if_cases
      (λ (r : Store × Queue × Option ℕ). r.2 ≡ some id → IsAccepted t s q payload ttl_ms id r)
      (is_full q) _ _ (λ _ h. absurd (cc h))
      (λ room. append_published-IsAccepted t s _ q payload ttl_ms id room refl)

-- A reported publish wrote its queue back.
pub report_published-stored :
    (seq_before : ℕ) (r : Store × Queue × Option ℕ) (id : ℕ)
    → (report_published seq_before r).1 ≡ some id
    → (r.2 ≡ some id)
      × ((report_published seq_before r).0.queues ≡ update_queue r.1.name r.1 r.0.queues)
unfolding report_published wait_written
report_published-stored seq_before (s, q, none) id h = absurd (cc h)
report_published-stored seq_before (s, q, some i) id h = (ground arith, ground arith)

own_name :
    (name : List ℕ) (qs : List Queue) (q : Queue) → find_queue name qs ≡ some q → q.name ≡ name
own_name name qs q e = (is_named-split name q (find_queue-is_named name qs q e)).1

append_message-name :
    (q : Queue) (id expires_ms : ℕ) (payload : List ℕ)
    → ((append_message q id expires_ms payload).name ≡ q.name)
      × ((append_message q id expires_ms payload).deleted ≡ q.deleted)
unfolding append_message message_link
append_message-name q id expires_ms payload = (refl, refl)

publish_to-IsPublished :
    (o : Option Queue) (held : List (List ℕ)) (t : Clocks) (s : Store) (name payload : List ℕ)
    (ttl_ms id : ℕ)
    → find_queue name s.queues ≡ o
    → (publish_to o held t s payload ttl_ms).1 ≡ some id
    → IsPublished held t s name payload ttl_ms id (publish_to o held t s payload ttl_ms).0
unfolding publish_to publish_one
publish_to-IsPublished none held t s name payload ttl_ms id e h = absurd (cc h)
publish_to-IsPublished (some q) held t s name payload ttl_ms id e h =
    let reaped = reap_queue (q.name ∷ held) t s q in
    let kept = reap_queue-HasKept name (q.name ∷ held) t s q in
    let out = accept t reaped.0 reaped.1 payload ttl_ms in
    let reported = report_published-stored s.wal.wal_seq out id h in
    let accepted = accept-IsAccepted t reaped.0 reaped.1 payload ttl_ms id (reported.0) in
    let new = append_message reaped.1 id (expiry t ttl_ms) payload in
    let named = append_message-name reaped.1 id (expiry t ttl_ms) payload in
    let live = is_named-split name q (find_queue-is_named name s.queues q e) in
    let new_name : new.name ≡ name = named.0 ∙ kept.same.name ∙ live.1 in
    let here = kept.present (q, e) in
    record {
      queue = q;
      found = e;
      fresh = accepted.fresh;
      room = not_full-HasRoomFor reaped.1 accepted.room;
      after = new;
      appended = append_message-IsAppended reaped.1 id (expiry t ttl_ms) payload;
      found_after =
          ap (λ qs. find_queue name qs)
            (reported.1
              ∙ ap (λ p. update_queue p.name p out.0.queues) accepted.stored
              ∙ ap (λ n. update_queue n new out.0.queues) new_name
              ∙ ap (λ qs. update_queue name new qs) accepted.queues)
          ∙ find_queue-update_queue name (here.0) new reaped.0.queues (here.1)
              (is_named-make name new (named.1 ∙ kept.same.deleted ∙ live.0) new_name);
    }

-- A publish that returns an id found the named queue, which after the reap had room; the id is the
-- one that the store was to give out next; and the queue of that name now has the messages that the
-- reap left, in their order, and at the end one more: ready and never delivered, under that id, with
-- that payload, and with the expiry that the time to live asks for.
pub queue_publish-IsPublished :
    (held : List (List ℕ)) (t : Clocks) (s : Store) (name payload : List ℕ) (ttl_ms id : ℕ)
    → (queue_publish held t s name payload ttl_ms).1 ≡ some id
    → IsPublished held t s name payload ttl_ms id (queue_publish held t s name payload ttl_ms).0
unfolding queue_publish
queue_publish-IsPublished held t s name payload ttl_ms id =
    if_cases
      (λ (r : Store × Option ℕ). r.1 ≡ some id → IsPublished held t s name payload ttl_ms id r.0)
      (not (is_name name) || ltb queue_message_max (length payload)) _ _ (λ _ h. absurd (cc h))
      (λ _. publish_to-IsPublished (find_queue name s.queues) held t s name payload ttl_ms id refl)
