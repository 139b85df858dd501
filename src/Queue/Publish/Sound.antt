-- ===== src/Queue/Publish/Sound.antt =====
-- `queue_publish`, and the soundness of the store.
use kuttidb.Base.{
  ℕ, suc, ◌+◌, ◌*◌, ◌<◌, ◌≡◌, ◌⊎◌, refl, Bool, true, false, not, ◌||◌, List, ◌∷◌, Option, some,
  none, arith, if_cases, All, length, ltb, u64_mod,
}
use kuttidb.Queue.{Queue, Store, Clocks, messages, find_queue, write_back, queue_message_max}
use kuttidb.Queue.Sound.{
  IsQueueOf, IsSound, IsQueueOf-mono, queues-IsQueueOf_mono, find_queue-All, update_queue-All,
  append_message-IsQueueOf,
}
use kuttidb.Queue.DeadLetter.{append_log}
use kuttidb.Queue.Reap.{reap_queue}
use kuttidb.Queue.Reap.Whole.{KeepsUpTo, reap_queue-Keeps}
use kuttidb.Queue.Publish.{
  is_full, expiry, append_published, accept, publish_one, wait_written, is_name, report_published,
  publish_to, queue_publish,
}

pub write_back-IsSound :
    (s : Store) (q : Queue) → IsSound s → IsQueueOf s.next_id q → IsSound (write_back s q)
write_back-IsSound s q hs hq = update_queue-All (IsQueueOf s.next_id) q.name q s.queues hs hq

is_full-false : (q : Queue) → is_full q ≡ false → (q.max_depth ≡ 0) ⊎ (q.depth < q.max_depth)
unfolding is_full
is_full-false q h = ground arith

append_published-Keeps :
    (s : Store) (r : Store × Bool) (q : Queue) (expires_ms : ℕ) (payload : List ℕ)
    → IsSound s
    → IsQueueOf s.next_id q
    → (q.max_depth ≡ 0) ⊎ (q.depth < q.max_depth)
    → r.0.queues ≡ s.queues
    → r.0.next_id ≡ suc s.next_id
    → let out = append_published r q s.next_id expires_ms payload in KeepsUpTo 1 s out.0 out.1
unfolding append_published
append_published-Keeps s (s', false) q expires_ms payload hs hq free queues ids = record {
  sound = rw (queues, ids) (queues-IsQueueOf_mono s.queues (omega arith) hs);
  queue = rw ids (IsQueueOf-mono (omega arith) hq);
  grows = omega (arith, ids);
  few = omega (arith, ids);
}
append_published-Keeps s (s', true) q expires_ms payload hs hq free queues ids = record {
  sound = rw (queues, ids) (queues-IsQueueOf_mono s.queues (omega arith) hs);
  queue = rw ids (append_message-IsQueueOf expires_ms payload hq free);
  grows = omega (arith, ids);
  few = omega (arith, ids);
}

accept-Keeps :
    (t : Clocks) (s : Store) (q : Queue) (payload : List ℕ) (ttl_ms : ℕ)
    → IsSound s
    → IsQueueOf s.next_id q
    → s.next_id + 1 < u64_mod
    → let out = accept t s q payload ttl_ms in KeepsUpTo 1 s out.0 out.1
unfolding accept append_log
accept-Keeps t s q payload ttl_ms hs hq few =
    if_cases (λ (r : Store × Queue × Option ℕ). KeepsUpTo 1 s r.0 r.1) (is_full q) _ _
      (λ _. record { sound = hs; queue = hq; grows = omega arith; few = omega arith })
      (λ room.
        append_published-Keeps s _ q (expiry t ttl_ms) payload hs hq (is_full-false q room) refl
          (omega arith))

publish_one-Keeps :
    (held : List (List ℕ)) (t : Clocks) (s : Store) (q : Queue) (payload : List ℕ) (ttl_ms : ℕ)
    → IsSound s
    → IsQueueOf s.next_id q
    → s.next_id + length (messages q) + 1 < u64_mod
    → let out = publish_one held t s q payload ttl_ms in
      KeepsUpTo (length (messages q) + 1) s out.0 out.1
unfolding publish_one
publish_one-Keeps held t s q payload ttl_ms hs hq few =
    let r = reap_queue-Keeps held t s q hs hq (omega arith) in
    let a =
      accept-Keeps t (reap_queue held t s q).0 (reap_queue held t s q).1 payload ttl_ms r.sound
        r.queue (omega (arith, r.few)) in
    record {
      sound = a.sound;
      queue = a.queue;
      grows = omega (arith, r.grows, a.grows);
      few = omega (arith, r.few, a.few);
    }

pub wait_written-IsSound :
    (seq_before : ℕ) (s : Store) → IsSound s → IsSound (wait_written seq_before s).0
unfolding wait_written
wait_written-IsSound seq_before s h =
    if_cases (λ (r : Store × Bool). IsSound r.0) _ _ _ (λ _. h) (λ _. h)

report_published-IsSound :
    (seq_before : ℕ) (r : Store × Queue × Option ℕ)
    → IsSound r.0
    → IsQueueOf r.0.next_id r.1
    → IsSound (report_published seq_before r).0
unfolding report_published
report_published-IsSound seq_before (s, q, none) hs hq = write_back-IsSound s q hs hq
report_published-IsSound seq_before (s, q, some id) hs hq =
    wait_written-IsSound seq_before (write_back s q) (write_back-IsSound s q hs hq)

-- The ids that are left are enough for one call on any of these queues.
abbrev pub HasIds : ℕ → List Queue → Type 0
HasIds n = All (λ (q : Queue). n + 2 * length (messages q) + 1 < u64_mod)

publish_to-IsSound :
    (o : Option Queue) (held : List (List ℕ)) (t : Clocks) (s : Store) (payload : List ℕ)
    (ttl_ms : ℕ)
    → IsSound s
    → ((q : Queue)
        → o ≡ some q
        → IsQueueOf s.next_id q × (s.next_id + 2 * length (messages q) + 1 < u64_mod))
    → IsSound (publish_to o held t s payload ttl_ms).0
unfolding publish_to
publish_to-IsSound none held t s payload ttl_ms hs found = hs
publish_to-IsSound (some q) held t s payload ttl_ms hs found =
    let k =
      publish_one-Keeps (q.name ∷ held) t s q payload ttl_ms hs (found q refl).0
        (omega (arith, (found q refl).1)) in
    report_published-IsSound s.wal.wal_seq _ k.sound k.queue

-- A publish, whatever it returns, keeps every queue's counters, ids and bound, as long as the ids
-- do not run out.
pub queue_publish-IsSound :
    (held : List (List ℕ)) (t : Clocks) (s : Store) (name payload : List ℕ) (ttl_ms : ℕ)
    → IsSound s
    → HasIds s.next_id s.queues
    → IsSound (queue_publish held t s name payload ttl_ms).0
unfolding queue_publish
queue_publish-IsSound held t s name payload ttl_ms hs few =
    if_cases (λ (r : Store × Option ℕ). IsSound r.0)
      (not (is_name name) || ltb queue_message_max (length payload)) _ _ (λ _. hs)
      (λ _. publish_to-IsSound (find_queue name s.queues) held t s payload ttl_ms hs (λ q e. (
        find_queue-All (IsQueueOf s.next_id) name s.queues q hs e,
        find_queue-All (λ (p : Queue). s.next_id + 2 * length (messages p) + 1 < u64_mod) name
            s.queues q few e,
      )))
