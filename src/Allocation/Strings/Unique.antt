-- ===== src/Allocation/Strings/Unique.antt =====
-- make_unique_str and delete_unique_str keep the counts of the pool.
use rbkit.Prelude.{
  ℕ, ◌+◌, ◌-◌, ◌%◌, ◌^◌, ◌<◌, ◌≡◌, ◌≢◌, refl, sym, ap, subst, ◌∙◌, inl, inr, false, Option, none,
  some, List, ◌==◌, ==_iff, Bool-cases, Option-cases, ok, arith,
}
use rbkit.Event.{CString}
use rbkit.Allocation.Table.{StTable}
use rbkit.Allocation.Strings.{
  new_string, c_string, Shared, StringPool, make_unique_str, drop_reference, delete_unique_str,
}
use rbkit.Allocation.Strings.Pool.{
  plus, minus, IsCounted, IsCounted-same, entry_of, recounted, recounted-IsCounted, positive_of,
}
use rbkit.Allocation.Strings.Change.{
  with_string, with_string-IsCounted, without_string, without_string-IsCounted, text_at-put_self,
  text_at-put_ne, not_fresh, deref-some, free_string-some,
}

-- The C string of a Ruby string, none for NULL.
abbrev pub text_of : Option (List ℕ) → Option CString
text_of none = none
text_of (some str) = some (c_string str)

module _ ⦃t : StTable CString Shared⦄ where
  open t use {find, insert, remove}

  -- `r` is a pointer to the string, and the pool with one reference more to it. No string is gone.
  pub record Made (p : StringPool) (refs : ℕ → ℕ) (str : Option (List ℕ)) (r : ℕ × StringPool)
      : Type 0 where
    pub counted : IsCounted r.1 (plus r.0 refs)
    pub text : r.1.heap.text_at r.0 ≡ text_of str
    pub kept : (b : ℕ) (s : CString) → p.heap.text_at b ≡ some s → r.1.heap.text_at b ≡ some s

  module _ (p : StringPool) (refs : ℕ → ℕ) (c : IsCounted p refs) where
    make_unique_str_null : (0, p) ≡ make_unique_str none p
    unfolding make_unique_str
    make_unique_str_null = refl

    make_unique_str_new :
        (str : List ℕ)
        → find p.table (c_string str) ≡ none
        → make_unique_str (some str) p ≡ (p.heap.fresh, with_string p refs c (c_string str))
    unfolding make_unique_str new_string
    make_unique_str_new str f = ground (arith, f)

    make_unique_str_again :
        (str : List ℕ) (e : Shared)
        → find p.table (c_string str) ≡ some e
        → refs e.key + 1 < 2 ^ 64
        → make_unique_str (some str) p
          ≡ (e.key, recounted p refs c (c_string str) e.key (plus e.key refs e.key))
    unfolding make_unique_str
    make_unique_str_again str e f few =
        let count : (e.count + 1) % 2 ^ 64 ≡ plus e.key refs e.key =
          ground
            (arith, few, ap (λ (x : Shared). x.count) (entry_of p refs c (c_string str) e f)) in
        ground (arith, f, count)

    -- make_unique_str gives a pointer to the C string of its argument, NULL for NULL, with one
    -- reference more and every other string as before, if no count reaches 2 ^ 64.
    pub make_unique_str-IsCounted :
        (str : Option (List ℕ))
        → ((a : ℕ) → refs a + 1 < 2 ^ 64)
        → Made p refs str (make_unique_str str p)
    make_unique_str-IsCounted none few = subst (Made p refs none) make_unique_str_null (record {
      counted = IsCounted-same p refs (plus 0 refs) (λ a pos. ground (arith, pos)) c;
      text = c.null;
      kept = λ b s h. h;
    })
    make_unique_str-IsCounted (some str) few = elim (Option-cases (find p.table (c_string str))) [
      | inl f ↦ subst (Made p refs (some str)) (sym (make_unique_str_new str f)) (record {
        counted = with_string-IsCounted p refs c (c_string str) f;
        text = text_at-put_self p.heap p.heap.fresh (some (c_string str));
        kept = λ b s h.
            text_at-put_ne p.heap p.heap.fresh b (some (c_string str)) (not_fresh p refs c b s h)
            ∙ h;
      })
      | inr (e, f) ↦
          subst (Made p refs (some str)) (sym (make_unique_str_again str e f (few e.key))) (record {
            counted =
                recounted-IsCounted p refs c (c_string str) e (plus e.key refs) f
                  (λ b ne. ground (arith, ne)) (ground arith);
            text = c.stored (c_string str) e f;
            kept = λ b s h. h;
          })
    ]

    -- One reference less, and every string that is still referenced as before.
    pub record Deleted (a : ℕ) (p' : StringPool) : Type 0 where
      pub counted : IsCounted p' (minus a refs)
      pub kept :
          (b : ℕ) (s : CString)
          → p.heap.text_at b ≡ some s
          → 0 < minus a refs b
          → p'.heap.text_at b ≡ some s

    delete_unique_str_null : (a : ℕ) → a ≡ 0 → delete_unique_str a p ≡ ok p
    unfolding delete_unique_str
    delete_unique_str_null a e = rw e refl

    module _ (a : ℕ) (key : CString) (h : p.heap.text_at a ≡ some key) where
      delete_unique_str_last :
          refs a ≡ 1 → delete_unique_str a p ≡ ok (without_string p refs c a key)
      unfolding delete_unique_str drop_reference
      delete_unique_str_last one =
          let pos : 0 < a = positive_of p refs c a key h in
          let nz : (a == 0) ≡ false = ground (arith, pos) in
          rw
            (
              nz,
              deref-some p.heap a key h,
              c.live a key h,
              one,
              free_string-some p.heap a key pos h,
            )
            refl

      delete_unique_str_more :
          1 < refs a
          → refs a < 2 ^ 64
          → delete_unique_str a p ≡ ok (recounted p refs c key a (minus a refs a))
      unfolding delete_unique_str drop_reference
      delete_unique_str_more more few =
          let nz : (a == 0) ≡ false = ground (arith, positive_of p refs c a key h) in
          let more' : (refs a == 1) ≡ false = ground (arith, more) in
          let left : (refs a + 2 ^ 64 - 1) % 2 ^ 64 ≡ minus a refs a = ground (arith, more, few) in
          rw (nz, deref-some p.heap a key h, c.live a key h, more', left) refl

      delete_unique_str_live :
          refs a < 2 ^ 64 → (p' : StringPool) × (delete_unique_str a p ≡ ok p') × Deleted a p'
      delete_unique_str_live few = elim (Bool-cases (refs a == 1)) [
        | inl eq ↦
            let one : refs a ≡ 1 = (==_iff (refs a) 1).0 eq in
            (
              without_string p refs c a key,
              delete_unique_str_last one,
              record {
                counted = without_string-IsCounted p refs c a key h one;
                kept = λ b s g pos.
                    let ne : b ≢ a = ground (arith, one, pos) in
                    text_at-put_ne p.heap a b none ne ∙ g;
              },
            )
        | inr other ↦
            let more : 1 < refs a = ground (arith, other, c.needed a key h) in
            (
              recounted p refs c key a (minus a refs a),
              delete_unique_str_more more few,
              record {
                counted =
                    recounted-IsCounted p refs c key (record { key = a; count = refs a })
                      (minus a refs) (c.live a key h) (λ b ne. ground (arith, ne))
                      (ground (arith, more));
                kept = λ b s g pos. g;
              },
            )
      ]

    -- delete_unique_str ends without a fault for NULL and for an address that has a reference: it
    -- takes one reference away, and frees the string with the last.
    pub delete_unique_str-IsCounted :
        (a : ℕ)
        → (0 < a → 0 < refs a)
        → refs a < 2 ^ 64
        → (p' : StringPool) × (delete_unique_str a p ≡ ok p') × Deleted a p'
    delete_unique_str-IsCounted a used few = elim (Option-cases (p.heap.text_at a)) [
      | inr (key, h) ↦ delete_unique_str_live a key h few
      | inl h ↦
          let zero_lem : a ≡ 0 = ground (arith, used, c.dead a h) in
          (
            p,
            delete_unique_str_null a zero_lem,
            record {
              counted =
                  IsCounted-same p refs (minus a refs) (λ b pos. ground (arith, pos, zero_lem)) c;
              kept = λ b s g pos. g;
            },
          )
    ]
