-- ===== src/Aggregator/History.antt =====
-- Any history of calls on a new message list, and what happens outside its lifetime.
use rbkit.Prelude.{
  ℕ, zero, suc, ◌+◌, ◌^◌, ◌≤◌, ◌<◌, ◌≡◌, refl, ap, List, [], ◌∷◌, ◌++◌, length, flatten, Outcome,
  ok, fault, out_of_fuel, ◌>>=◌, arith, length-append, ◌≢◌,
}
use rbkit.Memory.{Pointer, live, dangling, null, malloc, resize, realloc}
use rbkit.Aggregator.{
  MessageList, unset, make_room, queue_message, message_list_new, message_list_clear,
  message_list_destroy, has_enough_space_for, double_the_capacity,
}
use rbkit.Aggregator.Grow.{Represents}
use rbkit.Aggregator.Refine.{
  message_list_new-Represents, message_list_clear-Represents, queue_message-Represents,
  flatten-snoc,
}

-- The calls that change a list between `message_list_new` and `message_list_destroy`.
pub data Action : Type 0 where
  queue : List ℕ → Action
  clear : Action

pub act : Action → MessageList → Outcome MessageList
act (queue buffer) l = queue_message buffer l
act clear l = ok (message_list_clear l)

pub run : List Action → MessageList → Outcome MessageList
run [] l = ok l
run (a ∷ as') l = act a l >>= run as'

-- The same calls on the abstract queue.
abbrev pub expected : List Action → List (List ℕ) → List (List ℕ)
expected [] messages = messages
expected (queue buffer ∷ as') messages = expected as' (messages ++ buffer ∷ [])
expected (clear ∷ as') messages = expected as' []

-- How many bytes the calls queue.
abbrev pub volume : List Action → ℕ
volume [] = 0
volume (queue buffer ∷ as') = length buffer + volume as'
volume (clear ∷ as') = volume as'

run-Represents :
    (actions : List Action) (l : MessageList) (messages : List (List ℕ))
    → Represents l messages
    → l.used_memsize + volume actions ≤ 2 ^ 62
    → l.no_of_messages + length actions ≤ 2 ^ 62
    → (l' : MessageList) × (run actions l ≡ ok l') × Represents l' (expected actions messages)
unfolding run act
run-Represents [] l messages r small few = (l, refl, r)
run-Represents (clear ∷ as') l messages r small few =
    run-Represents as' (message_list_clear l) [] (message_list_clear-Represents r)
      (unfold message_list_clear in omega arith) (unfold message_list_clear in omega arith)
run-Represents (queue buffer ∷ as') l messages r small few =
    let (l₁, q, r₁) = queue_message-Represents l messages buffer r (omega arith) (omega arith) in
    let (l', e, r') =
      run-Represents as' l₁ (messages ++ buffer ∷ []) r₁
        (omega (
          arith,
          r.used,
          r₁.used,
          ap length (flatten-snoc messages buffer),
          length-append (flatten messages) buffer,
        ))
        (omega (arith, r.count, r₁.count, length-append messages (buffer ∷ []))) in
    (l', rw q e, r')

-- From `message_list_new` on, every sequence of `queue_message` and `message_list_clear` that
-- queues at most 2 ^ 62 bytes in at most 2 ^ 62 calls ends without a fault, and the array then
-- holds exactly the messages queued since the last clear, in order.
pub run-message_list_new :
    (actions : List Action) (l : MessageList)
    → volume actions ≤ 2 ^ 62
    → length actions ≤ 2 ^ 62
    → (l' : MessageList) × (run actions (message_list_new l) ≡ ok l')
      × Represents l' (expected actions [])
run-message_list_new actions l small few =
    run-Represents actions (message_list_new l) [] (message_list_new-Represents l)
      (unfold message_list_new in omega arith) (unfold message_list_new in omega arith)

make_room_destroyed :
    (fuel size : ℕ) (l : MessageList)
    → 0 < size
    → make_room (suc fuel) size (message_list_destroy l) ≡ fault
unfolding message_list_destroy make_room has_enough_space_for double_the_capacity realloc
make_room_destroyed fuel size l h = ground arith

-- After `message_list_destroy`, to queue a message that is not empty reallocates the freed array.
pub queue_message-message_list_destroy :
    (buffer : List ℕ) (l : MessageList)
    → 0 < length buffer
    → queue_message buffer (message_list_destroy l) ≡ fault
unfolding queue_message
queue_message-message_list_destroy buffer l h = rw (make_room_destroyed 63 (length buffer) l h)

-- A list with no capacity.
abbrev without_capacity : Pointer → ℕ → MessageList
without_capacity p n = record {
  message_array = p;
  used_memsize = 0;
  total_capacity = 0;
  no_of_messages = n;
}

make_room_empty :
    (fuel size : ℕ) (p : Pointer) (n : ℕ)
    → 0 < size
    → p ≢ dangling
    → make_room fuel size (without_capacity p n) ≡ out_of_fuel
unfolding make_room has_enough_space_for double_the_capacity realloc
make_room_empty zero size p n h a = ground arith
make_room_empty (suc fuel) size dangling n h a = absurd (a refl)
make_room_empty (suc fuel) size null n h a =
    ground (arith, make_room_empty fuel size (live (malloc 0)) n h (λ e. cc))
make_room_empty (suc fuel) size (live b) n h a =
    ground (arith, make_room_empty fuel size (live (resize b 0)) n h (λ e. cc))

-- Before `message_list_new` the loop of `queue_message` never ends for a message that is not
-- empty: the capacity is zero, and doubling leaves it so.
pub make_room-unset :
    (fuel : ℕ) (buffer : List ℕ)
    → 0 < length buffer
    → make_room fuel (length buffer) unset ≡ out_of_fuel
make_room-unset fuel buffer h = make_room_empty fuel (length buffer) null 0 h (λ e. cc)
