-- ===== src/Lib.antt =====
-- EdgeGallery MEP, the platform that offers services to applications at the edge of a network. It is
-- several programs in Go. This library models the parts that carry its own logic:
--
-- * Workspace models mepserver/common/arch/workspace, which runs every handler of mepserver.
--   Workspace/Plan.antt is workspace_base.go and task_base.go: `PlanBase`, its groups of steps, the
--   building of a plan, `GotoErrorProc` and `RecordErrInfo`. Workspace/Runner.antt is runner.go:
--   `WkRun`, `grpRun`, `grpOneStep`, `stepPolicy`. A `Schedule`, any one, says in which
--   order goroutines run, and which background steps have run when the codes of their group are read; a
--   goroutine's work is done as a whole, at the end of its group or of the plan. A `Task` has the number
--   of rounds after which its loop in `taskRunner` ends; all tasks of the repository end in the first.
--   What a task does to the workspace is a function, so the reflection of mepserver/common/arch/bus has
--   no model.
-- * DnsServer models dns-server. Store and its children are datastore/boltdb.go: `SetResourceRecord`,
--   `GetResourceRecord`, `DelResourceRecord`, `IsResourceRecordExists`. Mgmt is mgmt/controller.go, the
--   handlers of the HTTP interface, over the interface `DataStore` of datastore/storeif.go, which the
--   store fills. Server is dns.go: `handleDNS` and `forward`. Config is the check of the flags in
--   main.go. Bolt, JSON, package net and package dns are records of functions in Backend and Server,
--   with the laws that their documentation gives; TestDb has a database that fulfils them.
-- * MepAuth models mepauth. BlockList is controllers/blocklist.go: the access keys with invalid
--   signatures, their timers and the goroutines that delete them, as a step relation in which the
--   handlers that have passed the test of the list run at the same time; a call of blocklist.go is one
--   step. Token is controllers/token.go: `Post` and what it calls, run by one handler alone.
--   Signatures, encryption, tokens and the database are functions of the record `AuthLib`.
--   Validation is util/validation.go.
-- * MepServer models a task of mepserver. DnsRule is mepserver/mp1/plans/dns_one_update.go: the update
--   of the state of a DNS rule in the configuration store, the DNS server and the data plane, which are
--   a record of functions, and how a failure of one of them is undone.
--   Backend is mepserver/common/extif/backend/datastore.go: `GetRecord`, `PutRecord`, `DeleteRecord`
--   and the like, over a record of the operations of etcd, where a read and a deletion take a prefix.
--   Appd is mepserver/common/appd/appd.go: the checks of a request and `StageNewTask`, which stores a
--   job, a task and a status with what is to be done with each rule (Appd/Classify.antt). Plans is the
--   handlers of mepserver/mm5/plans (appd_config_create.go and its like for update, delete and get),
--   which check a request, stage it and start its task; Plans/Accepted.antt has their choice. Sync is
--   mepserver/mm5/task: the worker that reads them (Sync/Status.antt), brings the rules into the data
--   plane and the DNS server by the state machines of `newTask` (Operations, Rules), writes the
--   configuration or undoes the rules (Worker), and waits for an application that terminates
--   (Termination). The configurations and the status that the code reaches through pointers are the
--   parts of one `World`; a pointer to a rule is a place and an index, and a panic is an outcome. A
--   rule of either type is a `Rule k`, so that the functions that the code writes twice, for DNS and
--   for traffic rules, are one definition with the texts of either. The order in which Go visits a map
--   is a parameter. The data plane is a state that the calls of its interface change, with what it
--   holds of an application in Sync/Plane.antt.
--
-- Texts are texts of characters, and those that the programs handle are ASCII. Numbers are natural
-- numbers: the lifetimes and codes of DNS are never computed with, the counter of a key stays below 3,
-- and ports and timeouts are only compared.
--
-- Loops over a list are recursion on it. The loops on fuel are `grp_loop`, with one round more than a
-- group has steps, `wk_loop`, with one round more than a plan has groups, `label_zones`, with one round
-- more than a name has characters, and `forward_loop`, whose fuel is the number of tries of the code.
--
-- Not modelled: logging, the set-up of servers and listeners, the tasks of mepserver/mp1 and
-- mepserver/mm5 but for the ones above, the configuration and the cryptography of mepauth, the plugins
-- for the gateway, and the health checks, which are calls of other services.
pub mod DnsServer
pub mod MepAuth
pub mod MepServer
pub mod Prelude
pub mod Workspace
