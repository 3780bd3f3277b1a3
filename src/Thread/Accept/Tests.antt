-- ===== src/Thread/Accept/Tests.antt =====
-- Two clients, with descriptors 5 and 6.
use networking_programming.Base.{ℕ, ◌≡◌, ◌≢◌, refl, true, [], ◌∷◌, All, arith, ap}
use networking_programming.Base.Int.{pos, pos_part}
use networking_programming.Thread.Accept.{
  serving, Server, set_thread, accept_client, create_thread, read_arg, at_start, hook_start, Step,
  Reach,
}
use networking_programming.Thread.Accept.Prompt.{
  PromptReach, here, accepts, creates, reads, PromptReach-threads,
}
use networking_programming.Thread.Accept.Lost.{
  Without, stay, step, raced-NoThread, hook_start-NoThread,
}

abbrev first : Server
first = read_arg 0 (create_thread true (accept_client (pos 5) (at_start (pos 0))))

abbrev second : Server
second = read_arg 1 (create_thread true (accept_client (pos 6) first))

in_turn : PromptReach (at_start (pos 0)) second
unfolding accept_client create_thread read_arg set_thread
in_turn =
    reads 1
      (creates
        (accepts (pos 6) (reads 0 (creates (accepts (pos 5) here refl tt) refl) refl) refl
          ((λ e. cc), tt))
        refl)
      refl

PromptReach-threads_example : second.threads ≡ serving (pos 5) ∷ serving (pos 6) ∷ []
unfolding accept_client create_thread read_arg set_thread
PromptReach-threads_example = PromptReach-threads (pos 0) in_turn refl ((λ e. cc), ((λ e. cc), tt))

raced-NoThread_example :
    (s : Server) × Reach (at_start (pos 0)) s
    × (s.accepted ≡ pos 5 ∷ pos 6 ∷ [])
    × (s.threads ≡ serving (pos 6) ∷ serving (pos 6) ∷ [])
    × ((t : Server) → Without (pos 5) s t → All (λ p. p ≢ serving (pos 5)) t.threads)
raced-NoThread_example = raced-NoThread (pos 0) (pos 5) (pos 6) λ e. omega (arith, ap pos_part e)

other_than_4 : (n : ℕ) → n ≢ 4 → pos n ≢ pos 4
other_than_4 n other e = other (ap pos_part e)

-- After the first client, 4, client 5 comes, and is served.
abbrev later : Server
later = read_arg 0 (create_thread true (accept_client (pos 5) (hook_start (pos 0) (pos 4))))

Without-later : Without (pos 4) (hook_start (pos 0) (pos 4)) later
unfolding accept_client create_thread read_arg set_thread
Without-later =
    step
      (step (step stay (Step.accepts (pos 5) refl) (other_than_4 5 λ e. omega arith))
        (Step.creates true refl) (other_than_4 5 λ e. omega arith))
      (Step.reads 0 refl) (other_than_4 5 λ e. omega arith)

hook_start-NoThread_example : All (λ p. p ≢ serving (pos 4)) later.threads
hook_start-NoThread_example = hook_start-NoThread (pos 0) (pos 4) later Without-later
