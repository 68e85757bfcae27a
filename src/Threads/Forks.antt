-- ===== src/Threads/Forks.antt =====
-- How many threads a client has behind `create_threads`.
use super_smack.Prelude.{ℕ, zero, suc, ◌+◌, ◌-◌, ◌^◌, ◌<◌, ◌≡◌, ◌≢◌, refl, ap, ◌∙◌, true, arith}
use super_smack.Prelude.Int.{pos}
use super_smack.Report.Stats.{+ᵢ-one}
use super_smack.Main.{Fork, in_child, fork_error, in_parent}
use super_smack.Threads.{Threads, alone, fork_loop, create_threads}

-- The calls of `fork()` that gave a child, of the first `n`.
unfoldable pub successes : ℕ → (ℕ → Fork) → ℕ
successes zero forks = 0
successes (suc n) forks =
    let later = successes n (λ i. forks (suc i)) in
    elim (forks 0) [ in_parent pid ↦ suc later | _ ↦ later ]

abbrev after : ℕ → Threads
after j = record { parent_thread = true; running_threads = pos j }

fork_loop-successes :
    (n k : ℕ) (forks : ℕ → Fork)
    → ((i : ℕ) → forks i ≢ in_child)
    → k + n < 2 ^ 31
    → fork_loop n forks (record { parent_thread = true; running_threads = pos k })
      ≡ record { parent_thread = true; running_threads = pos (k + successes n forks) }
unfolding fork_loop successes
fork_loop-successes zero k forks h b =
    ap (λ j. record { parent_thread = true; running_threads = pos j }) (omega arith)
fork_loop-successes (suc n) k forks h b =
    at_fork (fork_loop-successes n k (λ i. forks (suc i)) (λ i. h (suc i)) (omega arith))
      (fork_loop-successes n (suc k) (λ i. forks (suc i)) (λ i. h (suc i)) (omega arith)) (forks 0)
      refl
  where
    at_fork :
        fork_loop n (λ i. forks (suc i)) (after k) ≡ after (k + successes n (λ i. forks (suc i)))
        → fork_loop n (λ i. forks (suc i)) (after (suc k))
          ≡ after (suc k + successes n (λ i. forks (suc i)))
        → (f : Fork) → forks 0 ≡ f
        → fork_loop (suc n) forks (after k) ≡ after (k + successes (suc n) forks)
    at_fork failed forked in_child e = absurd (h 0 e)
    at_fork failed forked fork_error e = rw (e, fork_loop, successes) failed
    at_fork failed forked (in_parent pid) e =
        rw (e, fork_loop, successes, +ᵢ-one k (omega arith)) (forked ∙ ap after (omega arith))

-- The process that forks goes on with itself and each child that it got, of the `n` that it wants
-- with itself.
pub create_threads-successes :
    (n : ℕ) (forks : ℕ → Fork)
    → ((i : ℕ) → forks i ≢ in_child)
    → n < 2 ^ 31
    → create_threads (pos n) forks alone
      ≡ record { parent_thread = true; running_threads = pos (1 + successes (n - 1) forks) }
unfolding create_threads
create_threads-successes n forks h b = fork_loop-successes (n - 1) 1 forks h (omega arith)
