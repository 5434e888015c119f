-- ===== src/Tests/Runs.antt =====
-- The server's runs at a concrete sequence of calls.
use dfgo.Prelude.{ℕ, [], ◌≡◌, refl}
use dfgo.Prelude.Dict.{get, put}
use dfgo.Prelude.Result.{ok, err}
use dfgo.Server.Runs.{
  Run, RunManager, new_run, new_run_manager, submit, cancel, canceled_run, finish, run_defer,
  snapshot,
}
use dfgo.Server.Runs.Change.{Later, now, after, submitted, asked, changed, ended, deferred}
use dfgo.Server.Runs.Sound.{IsManagerSound, Later-IsManagerSound}
use dfgo.Server.Runs.Final.{Kept, Later-Kept}

abbrev first : Run ℕ
first = new_run "a" "p" 1

abbrev one_run : RunManager ℕ
one_run = (submit "a" (ok "p") 1 new_run_manager).1

abbrev asked_run : RunManager ℕ
asked_run = (cancel "a" one_run).1

-- the engine returns its error behind the cancellation
abbrev over_run : Run ℕ
over_run = finish (err "context canceled") 5 (canceled_run first)

abbrev over : RunManager ℕ
over = put asked_run "a" over_run

abbrev behind : RunManager ℕ
behind = put over "a" (run_defer over_run)

over-reached : Later new_run_manager over
unfolding submit cancel get put
over-reached = after (after (after now (submitted [] "a" (ok "p") 1 refl)) (asked one_run "a")) (
    changed asked_run "a" (canceled_run first) over_run refl
      (ended (canceled_run first) (err "context canceled") 5 refl))

over_status : (snapshot over_run).error ≡ "canceled"
over_status = refl

Later-IsManagerSound_example : IsManagerSound over
Later-IsManagerSound_example = Later-IsManagerSound over-reached

Later-Kept_example : Kept behind "a" (snapshot over_run)
unfolding get put submit cancel
Later-Kept_example =
    Later-Kept "a" over_run over-reached refl (λ e. cc)
      (after now (changed over "a" over_run (run_defer over_run) refl (deferred over_run)))
