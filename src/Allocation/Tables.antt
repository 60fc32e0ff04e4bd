-- ===== src/Allocation/Tables.antt =====
-- st_init_numtable and st_init_strtable as association lists.
use rbkit.Prelude.{
  ℕ, ◌≡◌, ◌↔◌, refl, inl, inr, Bool, true, false, ◌&&◌, [], ◌∷◌, ◌==◌, ==_iff, Bool-cases, arith,
}
use rbkit.Event.{CString}
use rbkit.Allocation.{Info}
use rbkit.Allocation.Table.{StTable}
use rbkit.Allocation.Assoc.{assoc_table}
use rbkit.Allocation.Strings.{Shared}

abbrev pub same_number : ℕ → ℕ → Bool
same_number k j = k == j

abbrev pub same_bytes : CString → CString → Bool
same_bytes [] [] = true
same_bytes [] (y ∷ ys) = false
same_bytes (x ∷ xs) [] = false
same_bytes (x ∷ xs) (y ∷ ys) = (x == y) && same_bytes xs ys

same_bytes_refl : (xs : CString) → same_bytes xs xs ≡ true
same_bytes_refl [] = refl
same_bytes_refl (x ∷ xs) = rw (same_bytes_refl xs) (ground arith)

same_bytes_equal : (xs ys : CString) → same_bytes xs ys ≡ true → xs ≡ ys
same_bytes_equal [] [] h = refl
same_bytes_equal [] (y ∷ ys) h = cc h
same_bytes_equal (x ∷ xs) [] h = cc h
same_bytes_equal (x ∷ xs) (y ∷ ys) h = elim (Bool-cases (x == y)) [
  | inl e ↦
      let q : x ≡ y = (==_iff x y).0 e in
      let t : same_bytes xs ys ≡ true = rw e at h in cc (q, same_bytes_equal xs ys t)
  | inr n ↦ let f = rw n at h in cc f
]

pub same_bytes_iff : (xs ys : CString) → (same_bytes xs ys ≡ true) ↔ (xs ≡ ys)
same_bytes_iff xs ys = (same_bytes_equal xs ys, λ e. rw e (same_bytes_refl ys))

instance unfoldable pub object_table : StTable ℕ Info
object_table = assoc_table same_number ==_iff

instance unfoldable pub str_table : StTable CString Shared
str_table = assoc_table same_bytes same_bytes_iff
