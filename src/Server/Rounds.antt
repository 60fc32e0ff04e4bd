-- ===== src/Server/Rounds.antt =====
-- Messages that are sent one after the other, until the job that publishes them is due.
use rbkit.Prelude.{
  ℕ, suc, flatten-append, ◌+◌, ◌^◌, ◌≤◌, ◌≡◌, refl, ◌∙◌, Bool, true, false, not, ◌&&◌, List, [],
  ◌∷◌, ◌++◌, length, flatten, length-append, append_assoc, append-nil, ltb, leb, ◌==◌,
  if◌then◌else◌, Outcome, ok, ◌>>=◌, arith,
}
use rbkit.Aggregator.{message_batch_size}
use rbkit.Aggregator.Grow.{Represents}
use rbkit.Server.{Server, send_message}
use rbkit.Server.Publish.{send_message-Represents}

unfoldable pub send_all : List (List ℕ) → Server → Outcome Server
send_all [] s = ok s
send_all (buffer ∷ buffers) s = do s' ← send_message buffer s; send_all buffers s'

-- Whether the batch fills up while `n` messages are sent behind `k`.
abbrev pub fills : ℕ → ℕ → Bool
fills k n = ltb k message_batch_size && leb message_batch_size (k + n)

nothing_fills : (k j : ℕ) (b : Bool) → j ≡ j + (if fills k 0 && b then 1 else 0)
nothing_fills k j true = ground arith
nothing_fills k j false = ground arith

fills_once :
    (k n j j₁ j₂ : ℕ) (b : Bool)
    → j₁ ≡ (if (k + 1 == message_batch_size) && b then j + 1 else j)
    → j₂ ≡ j₁ + (if fills (k + 1) n && b then 1 else 0)
    → j₂ ≡ j + (if fills k (suc n) && b then 1 else 0)
fills_once k n j j₁ j₂ true e e' = ground (arith, e, e')
fills_once k n j j₁ j₂ false e e' = ground (arith, e, e')

-- All messages are queued, in order, and one job is registered if they fill the batch.
pub record AllQueued (s : Server) (messages buffers : List (List ℕ)) (s' : Server) : Type 0 where
  pub represents : Represents s'.messages (messages ++ buffers)
  pub same_mode : s'.test_mode_enabled ≡ s.test_mode_enabled
  pub jobs :
      s'.registered_jobs
      ≡ s.registered_jobs
        + (if fills (length messages) (length buffers) && not s.test_mode_enabled then 1 else 0)

-- Any messages sent one after the other are queued in order behind the others; one job, and no
-- more, is registered exactly if they bring the batch from below 400 messages to 400 or beyond and
-- the test mode is off, if at most 2 ^ 62 bytes and messages are queued in the end.
pub send_all-AllQueued :
    (buffers : List (List ℕ)) (s : Server) (messages : List (List ℕ))
    → Represents s.messages messages
    → length (flatten messages) + length (flatten buffers) ≤ 2 ^ 62
    → length messages + length buffers ≤ 2 ^ 62
    → (s' : Server) × (send_all buffers s ≡ ok s') × AllQueued s messages buffers s'
unfolding send_all
send_all-AllQueued [] s messages r small few = (
  s,
  refl,
  record {
    represents = rw (append-nil messages) r;
    same_mode = refl;
    jobs = nothing_fills (length messages) s.registered_jobs (not s.test_mode_enabled);
  },
)
send_all-AllQueued (b ∷ bs) s messages r small few =
    let (s₁, q, queued) =
      send_message-Represents s messages b r
        (omega (arith, small, r.used, length-append b (flatten bs))) (omega (arith, few)) in
    let count = length-append messages (b ∷ []) in
    let bytes : length (flatten (messages ++ b ∷ [])) ≡ length (flatten messages) + length b =
      rw
        (flatten-append messages (b ∷ []), length-append (flatten messages) (b ++ []), append-nil b)
        refl in
    let (s', q', all_lem) =
      send_all-AllQueued bs s₁ (messages ++ b ∷ []) queued.represents
        (omega (arith, bytes, small, length-append b (flatten bs))) (omega (arith, count, few)) in
    (
      s',
      rw (q, q') refl,
      record {
        represents = rw (append_assoc messages (b ∷ []) bs) at all_lem.represents;
        same_mode = all_lem.same_mode ∙ queued.same_mode;
        jobs =
            fills_once (length messages) (length bs) s.registered_jobs s₁.registered_jobs
              s'.registered_jobs (not s.test_mode_enabled) queued.jobs
              (rw (count, queued.same_mode) at all_lem.jobs);
      },
    )
