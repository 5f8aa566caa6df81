-- ===== src/Investigations/Tests.antt =====
-- The theorems on investigations, at a small table.
use oc_control_plane.Prelude.{
  inr, arith, ℕ, ◌≡◌, refl, Bool, false, none, some, List, [], ◌∷◌, find,
}
use oc_control_plane.Investigations.Row.{Status, Investigation, Database, ended, unknown}
use oc_control_plane.Investigations.Statements.{is_investigation, Ending, end_investigation}
use oc_control_plane.Investigations.History.{Operation, claim, run}
use oc_control_plane.Investigations.Endings.{ended_once, held_lease_ends, lost_lease_refused}

-- Leased to a worker under the token 9 until time 20.
abbrev leased : Investigation
leased = record {
  investigation_id = 5;
  org_id = 1;
  status = Status.running;
  conclusion = [];
  stopped_by = "";
  error = "";
  spend_input_tokens = 0;
  spend_output_tokens = 0;
  created_at = 3;
  concluded_at = none;
  cancel_requested_at = none;
  lease_worker = "worker";
  lease_token = some 9;
  lease_expires_at = some 20;
}

abbrev finished : Investigation
finished = record leased {
  status = Status.failed;
  error = "reason";
  concluded_at = some 7;
  lease_worker = "";
  lease_token = none;
  lease_expires_at = none;
}

abbrev conclude : Ending
conclude = record {
  status = Status.concluded;
  conclusion = 1 ∷ [];
  stopped_by = "";
  reason = "";
  usage = record { input_tokens = 2; output_tokens = 3 };
  kind = 4;
  payload = [];
}

abbrev with_row : Investigation → Database
with_row v = record { investigations = v ∷ []; events = []; jobs = [] }

abbrev unlocked : ℕ → Bool
unlocked id = false

abbrev claims : List Operation
claims = claim (record { worker = "other"; lease_for = 10; token = 8 }) unlocked 9 ∷ []

ended_once_example :
    (find (is_investigation 1 5) (run (with_row finished) claims).investigations ≡ some finished)
    × (end_investigation 1 5 9 conclude 10 (run (with_row finished) claims)
        ≡ (run (with_row finished) claims, unknown))
ended_once_example =
    ended_once 1 5 9 10 conclude finished (with_row finished) claims (refl, tt) refl refl

held_lease_ends_example :
    ((end_investigation 1 5 9 conclude 10 (with_row leased)).1 ≡ ended)
    × ((w : Investigation) × (find
            (is_investigation 1 5)
            (end_investigation 1 5 9 conclude 10 (with_row leased)).0.investigations
          ≡ some w)
        × (w ≡ record leased {
          status = Status.concluded;
          conclusion = 1 ∷ [];
          stopped_by = conclude.stopped_by;
          error = conclude.reason;
          spend_input_tokens = conclude.usage.input_tokens;
          spend_output_tokens = conclude.usage.output_tokens;
          concluded_at = some 10;
          lease_worker = "";
          lease_token = none;
          lease_expires_at = none;
        }))
held_lease_ends_example =
    held_lease_ends 1 5 9 10 20 conclude leased (with_row leased) refl refl refl refl (omega arith)

lost_lease_refused_example :
    end_investigation 1 5 9 conclude 30 (with_row leased) ≡ (with_row leased, unknown)
lost_lease_refused_example =
    lost_lease_refused 1 5 9 30 conclude leased (with_row leased) (refl, tt) refl (inr refl)
