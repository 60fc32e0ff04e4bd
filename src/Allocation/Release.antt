-- ===== src/Allocation/Release.antt =====
-- The references of an info are taken away.
use rbkit.Prelude.{
  ℕ, ◌+◌, ◌-◌, ◌^◌, ◌≤◌, ◌<◌, ◌≡◌, refl, Option, none, some, ◌==◌, if◌then◌else◌, ok, arith,
}
use rbkit.Event.{CString}
use rbkit.Allocation.{Info, release}
use rbkit.Allocation.Table.{StTable, weight}
use rbkit.Allocation.Strings.{Shared, StringPool}
use rbkit.Allocation.Strings.Pool.{minus, IsCounted, IsCounted-same}
use rbkit.Allocation.Strings.Unique.{delete_unique_str-IsCounted}

-- How often an info refers to the string at `b`.
abbrev pub points_to : ℕ → ℕ → Info → ℕ
points_to b obj info = (if b == info.path then 1 else 0) + (if b == info.class_path then 1 else 0)

module _ ⦃strings : StTable CString Shared⦄ ⦃objects : StTable ℕ Info⦄ where
  -- The pool without the references of `old`, and every string that has another as before.
  pub record Released (p : StringPool) (refs : ℕ → ℕ) (obj : ℕ) (old : Option Info)
      (p' : StringPool) : Type 0 where
    pub counted : IsCounted p' (λ b. refs b - weight (points_to b) obj old)
    pub kept :
        (b : ℕ) (s : CString)
        → p.heap.text_at b ≡ some s
        → 0 < refs b - weight (points_to b) obj old
        → p'.heap.text_at b ≡ some s

  pub release-Released :
      (p : StringPool) (refs : ℕ → ℕ) (obj : ℕ) (old : Option Info)
      → IsCounted p refs
      → ((b : ℕ) → weight (points_to b) obj old ≤ refs b)
      → ((b : ℕ) → refs b < 2 ^ 64)
      → (p' : StringPool) × (release old p ≡ ok p') × Released p refs obj old p'
  unfolding release
  release-Released p refs obj none c held few = (
    p,
    refl,
    record { counted = IsCounted-same p refs _ (λ b pos. omega arith) c; kept = λ b s g pos. g },
  )
  release-Released p refs obj (some info) c held few =
      let (p₁, q₁, d₁) =
        delete_unique_str-IsCounted p refs c info.path (λ pos. ground (arith, held info.path))
          (few info.path) in
      let (p₂, q₂, d₂) =
        delete_unique_str-IsCounted p₁ (minus info.path refs) d₁.counted info.class_path
          (λ pos. ground (arith, held info.class_path)) (ground (arith, few info.class_path)) in
      (
        p₂,
        rw (q₁, q₂) refl,
        record {
          counted =
              IsCounted-same p₂ (minus info.class_path (minus info.path refs)) _
                (λ b pos. ground (arith, held b)) d₂.counted;
          kept =
              λ b s g pos. d₂.kept b s (d₁.kept b s g (ground (arith, pos))) (ground (arith, pos));
        },
      )
