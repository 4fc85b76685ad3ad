-- ===== src/Watch/Hub/FakeClock.antt =====
-- The second `try_recv` of run_fake_clock_loop (progressive-lsp-watch/src/hub.rs): it takes a command
-- out of the channel, and only asks whether there was one.
use progressive_lsp.Base.{ℕ, ◌+◌, ◌≡◌, ◌≢◌, refl, false, List, [], ◌∷◌, map, none, arith, All, max}
use progressive_lsp.Watch.Coalescer.{WatchCoalescer, ingest}
use progressive_lsp.Watch.Hub.{
  HubCommand, publish, stop, FakeRound, fake_turn, drain_noting, run_fake_rounds,
}

abbrev pub without_idle : FakeRound → FakeRound
without_idle r = record r { idle = none }

-- The commands that the receive at the end of a turn of the fake-clock loop takes out have no
-- effect: the run is that of the same rounds without them.
pub run_fake_rounds-without_idle :
    (c : WatchCoalescer) (now window_ms : ℕ) (rounds : List FakeRound)
    → run_fake_rounds c now window_ms (map without_idle rounds)
      ≡ run_fake_rounds c now window_ms rounds
unfolding run_fake_rounds fake_turn
run_fake_rounds-without_idle c now window_ms [] = refl
run_fake_rounds-without_idle c now window_ms (r ∷ rounds) =
    let later = now + max window_ms 1 in
    let rest = run_fake_rounds-without_idle (fake_turn c now later r).1.1 later window_ms rounds in
    rw rest

abbrev pub NoStop : List HubCommand → Type 0
NoStop = All (λ command. command ≢ stop)

drain_noting-NoStop :
    (c : WatchCoalescer) (now : ℕ) (commands : List HubCommand)
    → NoStop commands
    → (drain_noting c now commands).0 ≡ false
drain_noting-NoStop c now [] n = refl
drain_noting-NoStop c now (publish ev ∷ commands) n =
    drain_noting-NoStop (ingest c now (ev ∷ [])) now commands n.1
drain_noting-NoStop c now (stop ∷ commands) n = absurd (n.0 refl)

-- If no stop is among the commands that the turns of the fake-clock loop drain, the loop does not
-- end, even where the receive at the end of a turn takes out a stop.
run_fake_rounds-lost_stop :
    (c : WatchCoalescer) (now window_ms : ℕ) (rounds : List FakeRound)
    → All (λ r. NoStop r.commands) rounds
    → (run_fake_rounds c now window_ms rounds).0 ≡ false
unfolding run_fake_rounds fake_turn
run_fake_rounds-lost_stop c now window_ms [] n = refl
run_fake_rounds-lost_stop c now window_ms (r ∷ rounds) n =
    let later = now + max window_ms 1 in
    ground (
      arith,
      drain_noting-NoStop c now r.commands n.0,
      run_fake_rounds-lost_stop (fake_turn c now later r).1.1 later window_ms rounds n.1,
    )
