-- ===== src/Triage/Examples.antt =====
-- The triage of concrete tasks.
use aws_explorer.Prelude.{◌≡◌, refl, ◌⊎◌, none, some, [], ◌∷◌, Perm, IsOrderedBy, map, find}
use aws_explorer.Go.Text.{str}
use aws_explorer.Go.Number.{pos}
use aws_explorer.Triage.{Container, Task, culprit, has_failed, short_task_id, record_of, classify}
use aws_explorer.Triage.Laws.{IsCulprit, culprit-IsCulprit, IsNewer, classify-IsOrderedBy}

abbrev sidecar : Container
sidecar = record { name = str "proxy"; exit_code = some (pos 0); reason = [] }

abbrev killed : Container
killed = record {
  name = str "app";
  exit_code = some (pos 137);
  reason = str "OutOfMemoryError: Container killed";
}

abbrev stopped : Task
stopped = record {
  arn = str "arn:aws:ecs:eu-west-1:1:task/web/9f2";
  cluster = str "web";
  region = str "eu-west-1";
  group = str "service:api";
  stop_code = str "EssentialContainerExited";
  stopped_reason = [];
  stopped_at = 7;
  containers = sidecar ∷ killed ∷ [];
}

short_id : short_task_id stopped.arn ≡ str "9f2"
unfolding short_task_id str
short_id = refl

blames_app : culprit (sidecar ∷ killed ∷ []) ≡ some killed
unfolding culprit has_failed find
blames_app = refl

culprit-IsCulprit_example :
    ((sidecar ∷ killed ∷ [] ≡ []) × (culprit (sidecar ∷ killed ∷ []) ≡ none))
    ⊎ ((c : Container) × (culprit (sidecar ∷ killed ∷ []) ≡ some c)
        × IsCulprit (sidecar ∷ killed ∷ []) c)
culprit-IsCulprit_example = culprit-IsCulprit (sidecar ∷ killed ∷ [])

-- stopped at the same time in an earlier region
abbrev elsewhere : Task
elsewhere = record stopped { region = str "ap-south-1" }

-- stopped later
abbrev newer : Task
newer = record stopped { stopped_at = 9 }

classify-IsOrderedBy_example :
    IsOrderedBy IsNewer (classify (stopped ∷ elsewhere ∷ newer ∷ []))
    × Perm
        (classify (stopped ∷ elsewhere ∷ newer ∷ []))
        (map record_of (stopped ∷ elsewhere ∷ newer ∷ []))
classify-IsOrderedBy_example = classify-IsOrderedBy (stopped ∷ elsewhere ∷ newer ∷ [])
