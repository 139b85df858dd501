-- ===== src/Queue/Lists.antt =====
-- src/queue.c: the message list of a queue, as the code walks, cuts and changes it.
use kuttidb.Base.{
  ℕ, Bool, true, false, ◌||◌, Option, none, some, List, [], ◌∷◌, ◌++◌, ◌==◌, if◌then◌else◌,
}
use kuttidb.Queue.{Message, MessageState, Queue, messages}

abbrev pub is_ready : Message → Bool
is_ready m = elim m.state [ MessageState.ready ↦ true | MessageState.inflight ↦ false ]

abbrev pub is_inflight : Message → Bool
is_inflight m = elim m.state [ MessageState.ready ↦ false | MessageState.inflight ↦ true ]

unfoldable pub has_id : ℕ → List Message → Bool
has_id id [] = false
has_id id (m ∷ ms) = m.id == id || has_id id ms

-- Unlinking the message that a pointer names.
unfoldable pub remove_id : ℕ → List Message → List Message
remove_id id [] = []
remove_id id (m ∷ ms) = if m.id == id then ms else m ∷ remove_id id ms

-- Writing through the pointer to a message.
unfoldable pub replace_id : ℕ → Message → List Message → List Message
replace_id id m' [] = []
replace_id id m' (m ∷ ms) = if m.id == id then m' ∷ ms else m ∷ replace_id id m' ms

unfoldable pub find_id : ℕ → List Message → Option Message
find_id id [] = none
find_id id (m ∷ ms) = if m.id == id then some m else find_id id ms

-- `tag_find` with the index read as the list of the messages that carry a tag.
unfoldable pub find_tag : ℕ → List Message → Option Message
find_tag tag [] = none
find_tag tag (m ∷ ms) = if m.delivery_tag == tag then some m else find_tag tag ms

-- The two parts of a list at the message with this id: what stands in front of it, and the rest.
unfoldable pub in_front_of : ℕ → List Message → List Message
in_front_of id [] = []
in_front_of id (m ∷ ms) = if m.id == id then [] else m ∷ in_front_of id ms

unfoldable pub starting_at : ℕ → List Message → List Message
starting_at id [] = []
starting_at id (m ∷ ms) = if m.id == id then m ∷ ms else starting_at id ms

-- `ready_hint_advance`: the in-flight messages at the beginning of a list, and what follows them.
unfoldable pub inflight_run : List Message → List Message
inflight_run [] = []
inflight_run (m ∷ ms) = if is_inflight m then m ∷ inflight_run ms else []

unfoldable pub after_inflight : List Message → List Message
after_inflight [] = []
after_inflight (m ∷ ms) = if is_inflight m then after_inflight ms else m ∷ ms

-- `ready_hint = queue->head`.
abbrev pub hint_at_head : Queue → Queue
hint_at_head q = record q { before = []; from_hint = messages q }

-- `ready_hint = NULL`.
abbrev pub clear_hint : Queue → Queue
clear_hint q = record q { before = messages q; from_hint = [] }

-- `ready_hint` = the message with this id.
abbrev pub hint_at : ℕ → Queue → Queue
hint_at id q = record q {
  before = in_front_of id (messages q);
  from_hint = starting_at id (messages q);
}

-- `ready_hint = ready_hint_advance(queue, message)` for the message with this id. (The call from
-- the message's successor gives the same, since the message has just been put in flight.)
abbrev pub hint_after : ℕ → Queue → Queue
hint_after id q =
    let tail = starting_at id (messages q) in
    record q {
      before = in_front_of id (messages q) ++ inflight_run tail;
      from_hint = after_inflight tail;
    }
