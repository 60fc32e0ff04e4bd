-- ===== src/Aggregator/Grow.antt =====
-- The growth loop of `queue_message`: what the list stands for, and that enough room is found.
use rbkit.Prelude.{
  ℕ, zero, suc, ◌+◌, ◌-◌, ◌*◌, ◌%◌, ◌^◌, ◌≤◌, ◌<◌, ◌≡◌, refl, ap, ◌∙◌, inl, inr, some, List, ◌++◌,
  map, length, flatten, replicate, none, leb, leb→le, le→leb, Bool-cases, ok, arith, length-append,
  length-replicate, length-map, append_assoc,
}
use native.Mathlib.Nat.{pow-suc}
use rbkit.Memory.{Cell, Block, live, realloc, resize}
use rbkit.Memory.Laws.{resize_grow}
use rbkit.Aggregator.{MessageList, size_max, has_enough_space_for, double_the_capacity, make_room}

-- The list holds the messages `messages`, in order, at the front of a live block of
-- `total_capacity` bytes; the counters are exact.
pub record Represents (l : MessageList) (messages : List (List ℕ)) : Type 0 where
  pub spare : Block
  pub array : l.message_array ≡ live (map some (flatten messages) ++ spare)
  pub used : l.used_memsize ≡ length (flatten messages)
  pub capacity : l.total_capacity ≡ l.used_memsize + length spare
  pub count : l.no_of_messages ≡ length messages
  pub positive : 0 < l.total_capacity
  pub bounded : l.total_capacity < 2 ^ 63

module _ {l : MessageList} {messages : List (List ℕ)} (r : Represents l messages) where
  -- The test is exact: it compares with the spare bytes.
  pub has_enough_space_for-Represents :
      (size : ℕ) → has_enough_space_for l size ≡ leb size (length r.spare)
  unfolding has_enough_space_for
  has_enough_space_for-Represents size =
      let e : (l.total_capacity + size_max - l.used_memsize) % size_max ≡ length r.spare =
        omega (arith, r.capacity, r.bounded) in
      rw e

  length-block : length (map some (flatten messages) ++ r.spare) ≡ l.total_capacity
  length-block = omega (
    arith,
    length-append (map some (flatten messages)) r.spare,
    length-map some (flatten messages),
    r.used,
    r.capacity,
  )

  abbrev wider : Block
  wider = r.spare ++ replicate l.total_capacity none

  realloc-block :
      l.total_capacity * 2 < 2 ^ 63
      → realloc l.message_array (l.total_capacity * 2 % size_max)
        ≡ ok (live (map some (flatten messages) ++ wider))
  unfolding realloc resize
  realloc-block h =
      let e : l.total_capacity * 2 % size_max ≡ l.total_capacity * 2 = omega arith in
      let d : l.total_capacity * 2 - length (map some (flatten messages) ++ r.spare)
          ≡ l.total_capacity =
        omega (arith, length-block) in
      rw (r.array, e)
        (ap (λ b. ok (live b))
          (resize_grow (map some (flatten messages) ++ r.spare) (l.total_capacity * 2)
              (omega (arith, length-block))
            ∙ rw (d, append_assoc)))

  -- Doubling keeps the messages, and no arithmetic wraps below 2 ^ 63.
  pub double_the_capacity-Represents :
      l.total_capacity * 2 < 2 ^ 63
      → (l' : MessageList) × (double_the_capacity l ≡ ok l')
        × (l'.total_capacity ≡ l.total_capacity * 2)
        × (l'.used_memsize ≡ l.used_memsize)
        × (l'.no_of_messages ≡ l.no_of_messages)
        × Represents l' messages
  unfolding double_the_capacity
  double_the_capacity-Represents h =
      let e : l.total_capacity * 2 % size_max ≡ l.total_capacity * 2 = omega arith in
      (
        record l {
          message_array = live (map some (flatten messages) ++ wider);
          total_capacity = l.total_capacity * 2;
        },
        rw (realloc-block h, e),
        refl,
        refl,
        refl,
        record {
          spare = wider;
          array = refl;
          used = r.used;
          capacity = omega (
            arith,
            r.capacity,
            length-append r.spare (replicate l.total_capacity none),
            length-replicate {A = Cell} l.total_capacity none,
          );
          count = r.count;
          positive = omega (arith, r.positive);
          bounded = h;
        },
      )

-- A list with room for `size` more bytes that differs from `l` in its block at most.
pub record HasRoom (l : MessageList) (messages : List (List ℕ)) (size : ℕ) (l' : MessageList)
    : Type 0 where
  pub room : Represents l' messages
  pub fits : size ≤ length room.spare
  pub same_used : l'.used_memsize ≡ l.used_memsize
  pub same_count : l'.no_of_messages ≡ l.no_of_messages

-- The loop that makes room for `size` bytes ends without a fault on a list that represents
-- `messages`, if `fuel` doublings of the capacity reach what is needed, which is at most 2 ^ 62:
-- then `size` spare bytes are there, and the list represents the same messages.
pub make_room-HasRoom :
    (fuel size : ℕ) (l : MessageList) (messages : List (List ℕ))
    → Represents l messages
    → l.used_memsize + size ≤ l.total_capacity * 2 ^ fuel
    → l.used_memsize + size ≤ 2 ^ 62
    → (l' : MessageList) × (make_room fuel size l ≡ ok l') × HasRoom l messages size l'
unfolding make_room
make_room-HasRoom zero size l messages r enough small =
    let fits : size ≤ length r.spare = omega (arith, r.capacity) in
    (
      l,
      rw (has_enough_space_for-Represents r size, le→leb size (length r.spare) fits),
      record { room = r; fits = fits; same_used = refl; same_count = refl },
    )
make_room-HasRoom (suc fuel) size l messages r enough small =
    elim (Bool-cases (leb size (length r.spare))) [
      | inl e ↦ (
        l,
        rw (has_enough_space_for-Represents r size, e),
        record { room = r; fits = leb→le _ _ e; same_used = refl; same_count = refl },
      )
      | inr e ↦
          let lt : length r.spare < size = ground (arith, e) in
          let (l₂, d, c, u, n, r₂) = double_the_capacity-Represents r (omega (arith, r.capacity)) in
          let (l', m, h) =
            make_room-HasRoom fuel size l₂ messages r₂
              (omega (
                arith,
                u,
                ap (λ t. t * 2 ^ fuel) c,
                ap (λ t. l.total_capacity * t) (pow-suc 2 fuel),
              ))
              (omega (arith, u)) in
          (
            l',
            rw (has_enough_space_for-Represents r size, e, d) m,
            record {
              room = h.room;
              fits = h.fits;
              same_used = h.same_used ∙ u;
              same_count = h.same_count ∙ n;
            },
          )
    ]
