-- ===== src/Lib.antt =====
-- A verification library for the XCompiler runtime (TOAA): the persisted objects of a project, the
-- rules that change them, the registry that keeps them and the scheduler that hands out the work.
--
-- The program. A project is a set of persisted objects: Project, Phase, Step, Ticket, assignment,
-- change set, merge request, trace event. Each has an envelope with a revision that every write
-- advances by one. Pure functions under src/domain move an object through its state machine. The
-- services under src/application read objects from a repository, apply those functions and write
-- the results in one batch. The registry under src/infrastructure indexes all objects by an
-- append-only, hash-chained event log and a snapshot that can be rebuilt from it. A Ticket is moved by
-- the lifecycle service, with its assignment, its owner's capacity and its trace; the blocker service
-- parks a Ticket and takes it up again by way of it, the role registry says who may own one, and the
-- scheduler what is worked on next. A readers-writer lock guards the shared file tree.
--
-- The model. A function of the program is a function by clauses with the same name in snake case;
-- what it throws is the error of a `Result`; a record is a record and a union a data type. A do
-- block is a function's body with its guards in their order. The clock, the id generator and SHA-256
-- are arguments, and so is the text of an id where a message has it; in the lifecycle and the blocker
-- service the readings of the clock in one call are one time. An object id is a UUIDv7, a number that
-- is only compared; a digest is a number; a timestamp is the text that is stored. A JavaScript `Map`
-- is the list of its entries in the order of insertion, and `Array.sort` is a stable insertion sort.
--
-- The files:
--   Base and its children: tests, lists, results, maps, searching, sorting, decimals.
--   Domain/StateMachine: src/util/state_machine.ts, assertStateTransition; Laws what it answers,
--     Visits the order in which a machine passes through its states.
--   Domain/Objects, Domain/Roles: src/domain/objects, src/domain/identity, src/domain/workflow.
--   Domain/Steps, Domain/Phases, Domain/Projects: src/domain/steps/step.ts,
--     src/domain/phases/phase.ts and src/domain/projects/project.ts, each with its Laws.
--   Domain/Tickets: src/domain/tickets. Types and Ticket are the data model, Transitions is
--     transitionTicketPath with its loop `walk`, Routes its diagram, Invariant what it keeps, Single
--     what a path of one state does; Retry
--     is evaluateAttemptExtension and Convergence what it decides;
--     Records has the bindings to workspaces and the commits.
--   Domain/Workspace: src/domain/workspace. ChangeSet with Delivery, MergeRequest with Routes and
--     Gates.
--   Domain/ProjectManagement: src/domain/project_management/assignment.ts, actor.ts and
--     ticket_trace.ts; Chain says what a verified trace is.
--   Domain/Observability: src/domain/observability/domain_event.ts and
--     src/application/observability/domain_event_factory.ts.
--   Domain/Workflow: src/domain/workflow/domain_graph.ts. Issues has what a validation finds;
--     Dependencies is validateDependencyGraph, with Names, Chains, Runs and Cycles about its search;
--     DomainGraph is the rest, with WellFormed, what a graph should be, and TaskDepth, Checks,
--     PhaseChecks, TicketChecks and Validation, which compare the checks with it. RoleProfile and
--     RoleDefinition are src/domain/workflow/role_profile.ts and role_definition.ts, with Coverage.
--   Core/RwLock: src/core/rwlock.ts, the lock with the microtasks of its promises and the turns of
--     the event loop as a step relation; Awake and Exclusion are about the states that turns lead to.
--   Application/TicketTrace: src/application/project_management/ticket_trace_service.ts; Growth how
--     a trace grows. Application/Repository is the part of src/domain/ports/repository.ts that the
--     services use, an interface.
--   Application/TicketMoves, Application/ActorCapacity, Application/TicketLifecycle:
--     src/application/project_management/ticket_lifecycle_service.ts. TicketMoves has what a move
--     records, ActorCapacity the work that an actor carries, TicketLifecycle what the service does.
--     Prepared has what a prepared move was made of, Single what a move to one state is, Starts a move
--     that succeeds, and Owners, Traces, Capacity and Reserved what is true of a move.
--   Application/BlockerEdges, Application/TicketBlockers:
--     src/application/project_management/ticket_blocker_service.ts, the pure parts and the service;
--     Held is about a Ticket that gets a blocker, Resumed and Overcommits about one that loses it.
--   Application/RoleRegistry: src/application/project_management/role_registry.ts. Eligibility is about
--     the rules that an actor has to satisfy, Routable about the actors of a role.
--   Application/WorkScheduler: src/application/project_management/work_scheduler.ts. Selection has
--     the pure filters, Dispatch what reads the repository; Ready and Fitness say what work is fit
--     to be done, Corrections which Tickets correct a Step and what work waits for, Soundness,
--     Completeness, Priority and Resume what the scheduler promises.
--   Infrastructure/ObjectRegistry: src/infrastructure/registry/object_registry.ts. Types and Events
--     have the log and the snapshot, Writes the operations; Ancestors, Forest and Parents are about
--     the parents of objects, Puts about what an operation puts in, and Replay, Snapshots, Recovery
--     and History about what is kept.
--   Tests: objects to run the definitions on.
--
-- Bounds and fuel. Numbers are unbounded; the program's are counters below 2^53. The loops on fuel
-- are the walk over the ancestors of an object (`is_ancestor` in Infrastructure/ObjectRegistry/Writes),
-- the search over the dependencies of a Step (`explore` in Domain/Steps/Dependencies), the
-- search for a cycle (`visit` in Domain/Workflow/Dependencies) and the climb from a task to its Story
-- (`climb` in Domain/Workflow/DomainGraph). The walk has one link more than there are entries, and the
-- first search one step more than the dependencies that are there; `visit` goes at most one level
-- deeper than there are objects, since each level marks another, and `climb` sees another Ticket in
-- each round. Infrastructure/ObjectRegistry/Ancestors, Domain/Steps/Dependencies/Termination,
-- Domain/Workflow/Dependencies/Cycles and Domain/Workflow/DomainGraph/TaskDepth are about these
-- bounds. On a registry whose parents go in a circle the program's walk does not end; the model
-- refuses the object.
--
-- What is left out. normalizeObjectRef stands on Node's path library and is a parameter of the
-- registry's operations; so is SHA-256 of the canonical JSON text, as a function of the content. The
-- checks that the schemas make of single fields (a text that is not empty, a range) are not modelled:
-- the types hold what they say of shape, and the checks across fields are written out. The write
-- queue of the registry runs one operation after the other, which is the model's sequence. The
-- repository's own writes, its cache and its files are not modelled: what a service commits is its
-- result, so that the loop of `release` over all blocked Tickets and the commit at the end of
-- `transitionPath` are left out. Texts of messages are left out of errors and issues. Agents, language
-- models, tools, the command line and files are not modelled.
pub mod Base
pub mod Core
pub mod Domain
pub mod Application
pub mod Infrastructure
pub mod Tests
