-- ===== src/Database/Tests.antt =====
-- The theorems of the database's process at concrete settings and a concrete driver.
use ketabdan_ms.Prelude.{
  ◌+◌, length, some, ◌≡◌, refl, false, List, [], ◌∷◌, nat_eq, string_eq, ok, err,
}
use ketabdan_ms.Database.{
  Driver, new_process, get_engine, get_session_factory, get_db, main, check_database,
}
use ketabdan_ms.Database.Engine.{
  Use, request, check, health, perform_all, OneEngine, perform_all-OneEngine,
}
use ketabdan_ms.Database.Overlap.{
  Threads, begin_call, end_call, here, ended, Settled, cached-Settled,
}
use ketabdan_ms.Samples.{live_settings}

-- Engine 7 answers once it is made.
abbrev answering : Driver
answering = record { create_engine = λ url. ok 7; select_1 = λ e. ok tt }

-- A request that returns, one that raises, and both checks.
abbrev uses : List Use
uses = request (λ f. ok f) ∷ request (λ f. err "RuntimeError") ∷ check ∷ health false ∷ []

perform_all-OneEngine_example :
    OneEngine (perform_all answering live_settings uses new_process)
    × ((perform_all answering live_settings uses new_process).sessions ≡ [])
perform_all-OneEngine_example = perform_all-OneEngine answering live_settings uses

-- One engine is made, and the handlers are answered.
uses-created : (perform_all answering live_settings uses new_process).created ≡ 7 ∷ []
unfolding get_db get_session_factory get_engine main check_database
uses-created = refl

-- Two first calls that both miss, of which one has ended with engine 7 and the other ends with 8
abbrev other_answer : Driver
other_answer = record { create_engine = λ url. ok 8; select_1 = λ e. ok tt }

missed : Threads
unfolding begin_call
missed = begin_call (begin_call (record { connections = new_process; running = 0 }))

one_ended : Threads
unfolding end_call missed begin_call
one_ended = end_call answering live_settings 1 missed

is_cached : one_ended.connections.engine ≡ some 7
unfolding end_call missed begin_call one_ended
is_cached = refl

still_running : one_ended.running ≡ 1
unfolding end_call missed begin_call one_ended
still_running = refl

cached-Settled_example :
    Settled 7
      (length one_ended.connections.created + one_ended.running)
      (end_call other_answer live_settings 0 one_ended)
cached-Settled_example =
    cached-Settled live_settings one_ended (end_call other_answer live_settings 0 one_ended) 7
      is_cached (ended other_answer 0 _ here still_running refl)

two-created : (end_call other_answer live_settings 0 one_ended).connections.created ≡ 8 ∷ 7 ∷ []
unfolding end_call missed begin_call one_ended
two-created = refl
