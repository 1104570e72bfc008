-- ===== src/Examples/Queue.antt =====
-- A worker on a table of four jobs.
use muxprune.Base.{
  ℕ, ◌≡◌, ◌≢◌, refl, false, Option, none, some, List, [], ◌∷◌, arith, Text, text, ℤ, pos, Outcome,
  ok, err,
}
use muxprune.Store.Jobs.{
  Job, running, get_job, claimed_view, created_row, create_job, claim_next_job,
}
use muxprune.Store.Jobs.Life.{create}
use muxprune.Store.Jobs.Moves.{MovesTo, IsRunningRow}
use muxprune.Runner.System.{
  System, SystemReachable, hold, request, take, end_run, installed, afterwards, SystemStep-MovesTo,
  SystemReachable-IsRunningRow,
}
use muxprune.Runner.{Deps}
use muxprune.Runner.Execute.{execute, run}
use muxprune.Runner.Reports.{RunStored, run-RunStored}
use muxprune.Runner.Drain.{Ending, drain, queued_count, drain-queued_count}
use muxprune.Runner.Files.{ToolsBehave, KeepsUnlessDone, execute-KeepsUnlessDone}
use muxprune.Examples.Tracks.{wholes}
use muxprune.Examples.Machine.{
  machine, tools, disk, with_output-WritesOutputOnly, reorder_args-WritesOutputOnly,
  merge_args-WritesOutputOnly,
}
use muxprune.Examples.Recycled.{calls}
use muxprune.Examples.Table.{row, table, table-HasUniqueIds, new_job}

abbrev deps : Deps
deps = record {
  os = machine;
  calls = calls;
  tools = tools;
  roots = none;
  recycle_dir = text "/r";
  stamp = text "20260101-000000";
  rounds = 100;
  message = λ e. text "failed";
  stat_seconds = λ fs p. ok (100, pos 7);
  policy_proceeds = λ i. false;
  delete_sidecar_row = λ i. none;
  get_library = λ i. ok none;
  list_libraries = ok [];
  scan_library = λ lib. none;
  mark_scanned = λ i. none;
  stopped = λ lib. none;
}

found : get_job 6 table ≡ some (row 6 running)
unfolding get_job muxprune.Base.find_first
found = refl

run-RunStored_example :
    (after : Job) × (get_job 6 (run wholes deps false false 9 (row 6 running) (disk, table)).1
      ≡ some after)
    × RunStored 9 (row 6 running) after
    × ((i : ℕ)
        → i ≢ 6
        → get_job i (run wholes deps false false 9 (row 6 running) (disk, table)).1
          ≡ get_job i table)
run-RunStored_example =
    run-RunStored wholes deps false false 9 (row 6 running) (row 6 running) disk table found

-- A job that is created, claimed and run.
abbrev waiting : System
waiting = record { jobs = (create_job 1 new_job []).1; held = [] }

waiting-SystemReachable : SystemReachable wholes waiting
waiting-SystemReachable = afterwards installed (request (create 1 new_job) refl)

abbrev taken : System
taken = record {
  jobs = (claim_next_job waiting.jobs).0;
  held = hold (claim_next_job waiting.jobs).1 waiting.held;
}

taken-SystemReachable : SystemReachable wholes taken
taken-SystemReachable = afterwards waiting-SystemReachable take

abbrev first_job : Job
first_job = claimed_view (created_row 1 new_job 1)

first_is_held : get_job 1 taken.held ≡ some first_job
unfolding get_job claim_next_job create_job muxprune.Base.find_first
    muxprune.Store.Jobs.oldest_queued muxprune.Store.Jobs.max_id
first_is_held = refl

first_runs : get_job 1 taken.jobs ≡ some first_job
unfolding get_job claim_next_job create_job muxprune.Base.find_first
    muxprune.Store.Jobs.oldest_queued muxprune.Store.Jobs.max_id muxprune.Store.Jobs.update_where
first_runs = refl

SystemReachable-IsRunningRow_example : IsRunningRow 1 taken.jobs
SystemReachable-IsRunningRow_example =
    SystemReachable-IsRunningRow wholes 1 first_job taken-SystemReachable first_is_held

abbrev ended_job : Job
ended_job =
    (run-RunStored wholes deps false false 9 first_job first_job disk taken.jobs first_runs).0

SystemStep-MovesTo_example : MovesTo running ended_job.status
SystemStep-MovesTo_example =
    SystemStep-MovesTo wholes 1 first_job ended_job taken-SystemReachable
      (end_run deps false false 9 first_job disk first_is_held) first_runs
      (run-RunStored wholes deps false false 9 first_job first_job disk taken.jobs first_runs).1

abbrev ending : Job → Ending
ending j = record { was_cancelled = false; killed = false; now = 9 }

few : queued_count table ≡ 2
unfolding muxprune.Base.keep_if
few = refl

drain-queued_count_example : queued_count (drain wholes deps ending 2 (disk, table)).1 ≡ 0
drain-queued_count_example =
    drain-queued_count wholes deps ending 2 disk table table-HasUniqueIds (omega (arith, few))

deps-ToolsBehave : ToolsBehave deps
deps-ToolsBehave = record {
  removal = with_output-WritesOutputOnly;
  reorder = reorder_args-WritesOutputOnly;
  merge = merge_args-WritesOutputOnly;
}

execute-KeepsUnlessDone_example : KeepsUnlessDone disk (execute wholes deps (row 6 running) disk)
execute-KeepsUnlessDone_example =
    execute-KeepsUnlessDone wholes deps deps-ToolsBehave (row 6 running) disk refl
