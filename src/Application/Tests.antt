-- ===== src/Application/Tests.antt =====
-- The theorems on runs at concrete answers.
use embodi_run.Base.{
  ℕ, List, ◌≤◌, ◌≡◌, refl, ◌==◌, Bool, true, false, some, [], ◌∷◌, ok, err, length,
}
use embodi_run.Execution.Ticket.{agent, executed, expired, CommandStatus}
use embodi_run.Application.ModelLoop as Loop
use embodi_run.Application.ModelLoop.{Runtime, step}
use embodi_run.Application.Chunks.{executions}
use embodi_run.Application.Plans.{Safe}
use embodi_run.Application.Steps.{step_Safe}
use embodi_run.Application.Proposals as Prop
use embodi_run.Application.Proposals.{Ids, generate_proposal}
use embodi_run.Application.Cleanup.{Shape, release_calls_of, proposal_Shape}
use embodi_run.Application.Direct as Direct
use embodi_run.Application.Direct.{run}
use embodi_run.Application.Submissions.{submissions}
use embodi_run.Application.Segments.{Settled, direct_Settled, direct_stops}

-- Three actions, of which two are a chunk, and a cancellation before the second.
abbrev loop_world : Loop.World ℕ
loop_world = record {
  stopping = ok tt;
  resetting = ok 5;
  observing = ok tt;
  requesting = ok tt;
  inferring = ok tt;
  mapping = ok (some 7 ∷ some 8 ∷ some 9 ∷ []);
  executing = λ _. ok tt;
  cancelled_at_start = false;
  cancelled_after_inference = false;
  cancelled_before = λ k. k == 1;
  waits = λ _. true;
  cancelled_after_wait = λ _. false;
}

abbrev loop_start : Runtime
loop_start = record { session = 4; step_id = 2 }

step_Safe_example : Safe loop_world 2 (step loop_world 2 true loop_start).1
step_Safe_example = step_Safe loop_world 2 true loop_start

loop_calls :
    executions (step (record loop_world { cancelled_before = λ _. false }) 2 true loop_start).1.0
    ≡ 7 ∷ 8 ∷ []
unfolding step Loop.reset Loop.run_step Loop.execute_chunk
loop_calls = refl

-- A proposal whose result has another step.
abbrev ids : ℕ → Ids
ids n = record { request = "r"; session = "s"; step = n }

abbrev proposal_world : Prop.World ℕ
proposal_world = record {
  valid_arguments = true;
  context = ok tt;
  client = ok tt;
  mapper = ok tt;
  opening = ok "s";
  requesting = λ s. ok (some (ids 0));
  inferring = ok (some (ids 1));
  mapping = ok (some 7 ∷ []);
  closing = err "lost";
  has_release = true;
  releasing = ok tt;
}

proposal_Shape_example : Shape (release_calls_of true) (generate_proposal proposal_world).0
proposal_Shape_example = proposal_Shape proposal_world

abbrev three : List ℕ
three = 7 ∷ 8 ∷ 9 ∷ []

-- A segment of three actions, the second of which expires.
abbrev status_of : Bool → CommandStatus
status_of true = expired
status_of false = executed

abbrev direct_world : Direct.World
direct_world = record {
  max_steps = 5;
  good_rate = true;
  short_enough = true;
  good_event = true;
  arbiter = ok tt;
  beginning = ok tt;
  cancelled_before = λ _. false;
  overdue = λ _. false;
  is_action = λ _. true;
  own_token = λ _. true;
  ticket = λ k. ok (status_of (k == 1));
  waits = λ _. true;
  cancelled_in_wait = λ _. false;
  releasing = ok true;
}

direct_Settled_example : Settled direct_world three (run direct_world (some agent) three)
direct_Settled_example = direct_Settled direct_world (some agent) three

direct_stops_example : length (submissions (run direct_world (some agent) three).0) ≤ 2
direct_stops_example = direct_stops direct_world (some agent) three 1 refl

-- A release that fails on a cancelled segment shows in no outcome.
abbrev failing_release : Direct.World
failing_release = record direct_world {
  cancelled_before = λ _. true;
  releasing = err "stop unconfirmed";
}

lost_release_error : (run failing_release (some agent) three).1 ≡ err Direct.segment_cancelled
unfolding run Direct.run_actions
lost_release_error = refl
