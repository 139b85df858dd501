-- ===== src/Replay/Reaping.antt =====
-- The reap of a queue whose messages do not expire: nothing is written, and nothing is lost.
use mathlib.Core.Path.{subst}
use kuttidb.Base.{
  ℕ, ◌≡◌, ◌≢◌, refl, sym, ap, ◌∙◌, ◌&&◌, ◌||◌, ◌==◌, some, List, [], ◌∷◌, All, arith, if_cases,
  Bool-cases, inl, inr, leb, ltb, u64_max,
}
use kuttidb.Wal.{Wal}
use kuttidb.Queue.{Message, Queue, Store, Clocks, messages}
use kuttidb.Queue.Lists.{is_inflight, find_id, replace_id, remove_id}
use kuttidb.Queue.Messages.{replace_message, make_ready}
use kuttidb.Queue.Counts.{messages-replace_message, find_id-messages-replace_message}
use kuttidb.Queue.Invariant.{Holds, AreDistinct, Avoids}
use kuttidb.Queue.Sound.{IsQueueOf}
use kuttidb.Queue.Presence.Reaped.{IsSameQueue}
use kuttidb.Queue.Reap.{
  Walk, is_expired, ready_again, end_lease, reap_message, reap_walk, reap_queue,
}
use kuttidb.Queue.Reap.Sound.{AllHeld}
use kuttidb.Queue.Reap.Whole.{AllHeld-messages}
use kuttidb.Replay.Spec.{KeptMessage, kept_message, kept_messages}
use kuttidb.Replay.Views.{kept_messages-replace_same}
use kuttidb.Replay.Traces.{AreLasting, Traces, TracesTo, Traces-trans, unlogged, Traces-refl}

pub replace_id-All {κ} :
    (P : Message → Type κ) (id : ℕ) (m' : Message) (ms : List Message)
    → All P ms
    → P m'
    → All P (replace_id id m' ms)
unfolding replace_id
replace_id-All P id m' [] h p = tt
replace_id-All P id m' (x ∷ ms) h p = elim (Bool-cases (x.id == id)) [
  | inl e ↦ rw e (p, h.1)
  | inr e ↦ rw e (h.0, replace_id-All P id m' ms h.1 p)
]

pub remove_id-All {κ} :
    (P : Message → Type κ) (id : ℕ) (ms : List Message) → All P ms → All P (remove_id id ms)
unfolding remove_id
remove_id-All P id [] h = tt
remove_id-All P id (x ∷ ms) h = elim (Bool-cases (x.id == id)) [
  | inl e ↦ rw e h.1
  | inr e ↦ rw e (h.0, remove_id-All P id ms h.1)
]

pub find_id-All {κ} :
    (P : Message → Type κ) (id : ℕ) (ms : List Message) (m : Message)
    → All P ms
    → find_id id ms ≡ some m
    → P m
unfolding find_id
find_id-All P id [] m h e = cc
find_id-All P id (x ∷ ms) m h e = elim (Bool-cases (x.id == id)) [
  | inl here ↦ let same : x ≡ m = ground (arith, here) in subst P same h.0
  | inr there ↦ find_id-All P id ms m h.1 (ground (arith, there))
]

-- A message that changes in what a restart forgets.
forgotten :
    (q q' : Queue) (w : Wal) (qs : List Queue) (m m' : Message)
    → Holds q m
    → AreLasting (messages q)
    → kept_message m' ≡ kept_message m
    → messages q' ≡ replace_id m.id m' (messages q)
    → IsSameQueue q q'
    → Traces qs w q qs w q'
forgotten q q' w qs m m' h lasting same list fields =
    let plain = find_id-All (λ (n : Message). n.expires_ms ≡ 0) m.id (messages q) m lasting h in
    unlogged w w (λ e. e) refl fields
      (subst AreLasting (sym list) (
        replace_id-All (λ (n : Message). n.expires_ms ≡ 0) m.id m' (messages q) lasting
          (ap (λ (k : KeptMessage). k.expires_ms) same ∙ plain)))
      (λ d. ap kept_messages list ∙ kept_messages-replace_same m.id m m' (messages q) h same)

abbrev StepsTo : Walk → Message → Walk → Type 0
StepsTo w m w' =
    TracesTo w.store w.queue w'.store w'.queue
    × ((n : Message) → m.id ≢ n.id → Holds w.queue n → Holds w'.queue n)

module _ (held : List (List ℕ)) (t : Clocks) where
  end_lease-Steps :
      (w : Walk) (m : Message)
      → Holds w.queue m
      → AreLasting (messages w.queue)
      → StepsTo w m (end_lease w m)
  unfolding end_lease ready_again make_ready replace_message
  end_lease-Steps w m h lasting = (
    forgotten w.queue _ w.store.wal w.store.queues m (make_ready m 0) h lasting refl
        (messages-replace_message w.queue (make_ready m 0))
        (record {
          name = refl;
          deleted = refl;
          durable = refl;
          dlq_name = refl;
          max_deliveries = refl;
          max_depth = refl;
        }),
    λ n ne k. find_id-messages-replace_message w.queue (make_ready m 0) n.id ne ∙ k,
  )

  reap_message-Steps :
      (w : Walk) (m : Message)
      → Holds w.queue m
      → AreLasting (messages w.queue)
      → StepsTo w m (reap_message held t w m)
  unfolding reap_message is_expired
  reap_message-Steps w m h lasting =
      let plain =
        find_id-All (λ (n : Message). n.expires_ms ≡ 0) m.id (messages w.queue) m lasting h in
      let stays : StepsTo w m w =
        (Traces-refl w.store.queues w.store.wal w.queue lasting, λ n ne k. k) in
      if_cases (StepsTo w m) (is_expired t.now m) _ _ (λ e. absurd (ground (arith, e, plain)))
        (λ _.
          if_cases (StepsTo w m) (is_inflight m) _ _
            (λ _.
              if_cases (StepsTo w m) (leb m.timer t.mono) _ _ (λ _. end_lease-Steps w m h lasting)
                (λ _.
                  if_cases (StepsTo w m) (ltb m.timer w.next_deadline) _ _ (λ _. (stays.0, stays.1))
                    (λ _. stays)))
            (λ _. stays))

  others-AllHeld :
      (w w' : Walk) (m : Message) (ms : List Message)
      → StepsTo w m w'
      → Avoids m.id ms
      → AllHeld w.queue ms
      → AllHeld w'.queue ms
  others-AllHeld w w' m [] st a h = tt
  others-AllHeld w w' m (n ∷ ms) st a h =
      (st.1 n (λ e. a.0 (sym e)) h.0, others-AllHeld w w' m ms st a.1 h.1)

  reap_walk-Traces :
      (w : Walk) (ms : List Message)
      → AllHeld w.queue ms
      → AreDistinct ms
      → AreLasting (messages w.queue)
      → TracesTo w.store w.queue (reap_walk held t w ms).store (reap_walk held t w ms).queue
  unfolding reap_walk
  reap_walk-Traces w [] h d lasting = Traces-refl w.store.queues w.store.wal w.queue lasting
  reap_walk-Traces w (m ∷ ms) h d lasting =
      let st = reap_message-Steps w m h.0 lasting in
      Traces-trans st.0 (
        reap_walk-Traces (reap_message held t w m) ms
          (others-AllHeld w (reap_message held t w m) m ms st d.0 h.1) d.1 (st.0.lasting))

  pub reap_queue-Traces :
      {n : ℕ} (s : Store) (q : Queue)
      → IsQueueOf n q
      → AreLasting (messages q)
      → TracesTo s q (reap_queue held t s q).0 (reap_queue held t s q).1
  unfolding reap_queue
  reap_queue-Traces s q hq lasting =
      let start : Walk = record { store = s; queue = q; next_deadline = u64_max } in
      let walk =
        reap_walk-Traces start (messages q) (AllHeld-messages q hq.consistent)
          hq.consistent.distinct lasting in
      if_cases (λ (r : Store × Queue). TracesTo s q r.0 r.1)
        (q.ttl_count == 0 && (q.inflight_count == 0 || ltb t.mono q.earliest_visibility)) _ _
        (λ _. Traces-refl s.queues s.wal q lasting)
        (λ _. record {
          queues = walk.queues;
          same = record {
            name = walk.same.name;
            deleted = walk.same.deleted;
            durable = walk.same.durable;
            dlq_name = walk.same.dlq_name;
            max_deliveries = walk.same.max_deliveries;
            max_depth = walk.same.max_depth;
          };
          lasting = walk.lasting;
          failed = walk.failed;
          trace = λ h.
              let tr = walk.trace h in
              record {
                more = tr.more;
                records = tr.records;
                quiet = tr.quiet;
                own = tr.own;
                held = tr.held;
              };
        })
