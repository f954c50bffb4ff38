-- ===== src/Tests/Gathers.antt =====
-- The wait of the first node for the others, on a schedule on which an error of one of them is not seen.
use alice_tss.Base.{
  ◌<◌, ◌≡◌, refl, true, false, Option, none, some, List, [], ◌∷◌, ok, Error, lib, node_failed, All,
}
use alice_tss.Steps.{here, there, start, after, Inevitable}
use alice_tss.Server.SelfService.Gather.{
  failed, leaving, gone, succeed, fail, report, leave, selecting, answered, Gathering, Step, work,
  close_done, take_done, gathering,
}
use alice_tss.Server.SelfService.Gather.Invariant.{Gathers}
use alice_tss.Server.SelfService.Gather.Laws.{gather_waits, gather_reports, gather_ends, Answered}

-- The call of node 2 fails.
abbrev failure : Error
failure = node_failed 2 (lib 3)

abbrev two_calls : List (Option Error)
two_calls = none ∷ some failure ∷ []

abbrev at_report : Gathering
at_report = record {
  workers = leaving ∷ failed failure ∷ [];
  errors = [];
  left = 2;
  done_closed = false;
  primary = selecting;
}

reach_report : Gathers two_calls none at_report
unfolding gathering
reach_report = after (after start (work (here succeed))) (work (there (here fail)))

abbrev passed : Gathering
passed = record {
  workers = gone ∷ gone ∷ [];
  errors = failure ∷ [];
  left = 0;
  done_closed = true;
  primary = answered (ok tt);
}

abbrev all_gone : Gathering
all_gone = record {
  workers = gone ∷ gone ∷ [];
  errors = failure ∷ [];
  left = 0;
  done_closed = false;
  primary = selecting;
}

reach_gone : Gathers two_calls none all_gone
reach_gone =
    after (after (after reach_report (work (there (here report)))) (work (here leave)))
      (work (there (here leave)))

reach_passed : Gathers two_calls none passed
reach_passed = after (after reach_gone (close_done refl refl)) (take_done refl refl)

gather_waits_example : All (λ g. g ≡ gone) passed.workers
gather_waits_example = gather_waits two_calls none reach_passed refl

gather_reports_example : 0 < 2
gather_reports_example = gather_reports two_calls none reach_report (there (here report))

gather_ends_example : Inevitable (Step 2 none) (Answered two_calls none) at_report
gather_ends_example = gather_ends two_calls none reach_report
