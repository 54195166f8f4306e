-- ===== src/MepServer/Sync/Undone.antt =====
-- mepserver/mm5/task/sync.go: how the handling of an error comes to its end.
use mep.Prelude.{◌≡◌, negsuc, none}
use mep.MepServer.Backend.Laws.{IsRegistry}
use mep.MepServer.Sync.{
  TaskStatus, Outcome, done, World, Env, TaskInfo, jobs_path, task_status_path,
}
use mep.MepServer.Sync.Serving.{IsServing}

module _ {B K V : Type 0} (env : Env B K V) (t : TaskInfo) (law : IsRegistry env.registry)
    (ok : IsServing env) where
  -- A failure is recorded: the handling has ended without an error, the store holds the status with the
  -- progress -1, and not the job.
  pub record IsUndone (last : TaskStatus) (r : Outcome × World K V) : Type 0 where
    pub ended : r.0 ≡ done
    pub status :
        law.kv r.1.store (task_status_path t.app_instance_id t.task_id)
        ≡ env.marshal_status (record last { progress = negsuc 0 })
    pub job : law.kv r.1.store (jobs_path t.app_instance_id) ≡ none
