-- ===== src/Workspace.antt =====
-- mepserver/common/arch/workspace: plans of task groups, and the runner that executes them.
-- `Plan` builds plans (workspace_base.go, task_base.go), `Runner` executes them (runner.go).
pub mod Plan
pub mod Runner
pub mod Total
pub mod TryFinally
pub mod Handlers
mod Tests
