-- ===== src/Allocation/Strings.antt =====
-- make_unique_str and delete_unique_str of ext/rbkit_allocation_info.c, on an explicit heap of strings.
pub mod Pool
pub mod Change
pub mod Unique
use rbkit.Prelude.{
  ℕ, ◌+◌, ◌-◌, ◌%◌, ◌^◌, Option, none, some, List, [], ◌∷◌, ◌==◌, if◌then◌else◌, Outcome, ok, fault,
  ◌>>=◌,
}
use rbkit.Event.{CString}
use rbkit.Allocation.Table.{StTable}

-- The strings that are allocated and not freed. Address 0 is NULL; addresses are not used again.
pub record StringHeap : Type 0 where
  pub fresh : ℕ
  pub text_at : ℕ → Option CString

unfoldable pub put : StringHeap → ℕ → Option CString → StringHeap
put h a s = record h { text_at = λ b. if b == a then s else h.text_at b }

-- malloc(len + 1), strncpy, and the terminating zero
unfoldable pub new_string : StringHeap → CString → ℕ × StringHeap
unfolding put
new_string h s =
    (h.fresh, record { fresh = h.fresh + 1; text_at = (put h h.fresh (some s)).text_at })

-- The string at a pointer, a fault where it was freed.
unfoldable pub deref : StringHeap → ℕ → Outcome CString
deref h a = elim (h.text_at a) [ none ↦ fault | some s ↦ ok s ]

-- free(a)
unfoldable pub free_string : StringHeap → ℕ → Outcome StringHeap
unfolding deref put
free_string h a = if a == 0 then ok h else do s ← deref h a; ok (put h a none)

-- A C string ends before the first zero byte; strncpy copies no more.
unfoldable pub c_string : List ℕ → CString
c_string [] = []
c_string (b ∷ bs) = let rest = c_string bs in if b == 0 then [] else b ∷ rest

-- An entry of the table of strings: the key's own address, and how often it is referenced.
pub record Shared : Type 0 where
  pub key : ℕ
  pub count : ℕ

module _ ⦃t : StTable CString Shared⦄ where
  open t use {Table, find, insert, remove}

  pub record StringPool : Type 0 where
    pub heap : StringHeap
    pub table : Table

  -- `str` is none for NULL. The bytes of a Ruby string are taken to be followed by a zero byte.
  unfoldable pub make_unique_str : Option (List ℕ) → StringPool → ℕ × StringPool
  unfolding new_string
  make_unique_str none p = (0, p)
  make_unique_str (some str) p =
      let key = c_string str in
      elim (find p.table key) [
        | none ↦
            let (result, heap') = new_string p.heap key in
            (
              result,
              record {
                heap = heap';
                table = insert p.table key (record { key = result; count = 1 });
              },
            )
        | some e ↦ (
          e.key,
          record p { table = insert p.table key (record e { count = (e.count + 1) % 2 ^ 64 }) },
        )
      ]

  -- A string that is not in the table leaves `n` indeterminate, which is a fault.
  unfoldable pub drop_reference : CString → Option Shared → StringPool → Outcome StringPool
  drop_reference key none p = fault
  drop_reference key (some e) p =
      if e.count == 1
      then (do
        heap' ← free_string p.heap e.key
        ok (record { heap = heap'; table = remove p.table key }))
      else ok (record p {
        table = insert p.table key (record e { count = (e.count + 2 ^ 64 - 1) % 2 ^ 64 });
      })

  unfoldable pub delete_unique_str : ℕ → StringPool → Outcome StringPool
  unfolding drop_reference
  delete_unique_str str p =
      if str == 0 then ok p else do key ← deref p.heap str; drop_reference key (find p.table key) p
