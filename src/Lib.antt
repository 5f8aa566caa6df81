-- ===== src/Lib.antt =====
-- A model of the Open Cluster control plane (Go): how it leases jobs to Relays and records their
-- results, how it admits, greets and watches Relay sessions, and how it guards its API.
--
-- The parts and how they interact. A Relay opens a session over gRPC. internal/relay authenticates
-- it, displaces the session of the same registration, reads its roster of running jobs, and then,
-- round by round, claims jobs for it and passes cancellations on; results come back over the session
-- and are recorded and acknowledged. All of this rests on the relay_job table, which is written by the
-- statements of internal/store/postgres/{job,lease,result}.go and, for the jobs of an investigation
-- that is cancelled, by CancelInvestigation of investigation.go. Users reach the program over
-- an HTTP API behind the guard of internal/auth/authz. Alerts come in over webhooks; they are grouped
-- into incidents, which may open investigations, and a worker that leases an investigation lets
-- the agent run it: a model reads the connected sources, within budgets, and concludes.
--
-- Which file models which part:
--   Jobs/Row, Jobs/Statements/* internal/store/postgres/{job,lease,result}.go: the row, and one function for
--                               each method of Database (EnqueueVerifiedJob is enqueue_verified_job,
--                               and so on) on the list of rows; cancel_owned_jobs is the UPDATE
--                               relay_job of CancelInvestigation. Jobs/History is any sequence of all
--                               the statements that write the table.
--   Jobs/Rows, Claimed, Effects, Evolution, Results, Fencing, Cancellation   their proofs.
--   Relay/Flood, Relay/Churn    internal/relay/{flood,churn}.go: the limiter and the watch, with the clock's
--                               value as an argument; Relay/FloodBounds, ChurnBounds and
--                               ChurnContention hold their proofs.
--   Relay/Sessions              internal/relay/sessions.go: the live sessions and how a session ends.
--   Relay/Handshake             internal/relay/session.go: greet, on the relay_job table.
--   Relay/Payload, Acknowledge  internal/relay/{payload,messages,session}.go: results and their answers.
--   Relay/Delivery              internal/relay/delivery.go: one round of delivery.
--   Capability                  internal/relay/capability/capability.go: Validate and its patterns.
--   Investigations              internal/store/postgres/{investigation,investigation_lease}.go: leases and
--                               endings of investigations.
--   Agent/Documents, Conclusions, Decoding   internal/investigation/agent/conclusion.go: what a model may
--                               conclude and cite; Cited and Grounds hold the proofs.
--   Agent/Values, Calls, Observations        internal/investigation/agent/tools.go: the calls of a completion
--                               and what a run shows; Observed holds the proof.
--   Agent/Prompts, Exchange, Attempts        internal/investigation/agent/{run,prompt}.go: what a prompt offers
--                               and the two attempts of an exchange.
--   Agent/Reads, Execution, Batch            internal/investigation/agent/{run,history,tools}.go: the reads of
--                               a turn, their credentials and the pages of a conversation.
--   Agent/Loop                  internal/investigation/agent/run.go: the turns of a run, to the ending it
--                               stores; Budgets, Turns, Accounts, Charges, Spending and Outcomes hold the proofs.
--   Alerts/Tables, Grouping, Deliveries, Merging   internal/store/postgres/{alert_event,incident}.go and
--                               internal/incident/incident.go: deliveries of alerts, the incidents they
--                               open and the merging of incidents; Accepted, Queue, Resolutions and
--                               Survivors hold the proofs.
--   SlackWork                   internal/store/postgres/slack_message_work.go and ProcessOne of
--                               internal/webhooks/slack/message_worker.go; Machine is the life of a piece
--                               of work apart from the table, Moves, Refined and Completed are the proofs.
--   Cursors                     internal/store/postgres/page.go; the round trips are in Cursors/Trips.
--   Changes                     internal/changes/changes.go, internal/relay/inventory.go, and the kind that
--                               internal/store/postgres/changes.go stores a change with.
--   Authz                       internal/auth/authz: roles, principals, the route table and the guard.
--   Listing                     internal/api/listing/listing.go: queries and pages.
--   Prelude                     shared lists, searches, association lists and Boolean tests.
-- The modules called Tests hold runs at concrete inputs.
--
-- Conventions. A uuid is a number with 0 for the nil one. An instant or a duration is a number of
-- nanoseconds, and a comparison of differences is written with additions. A column that may be NULL
-- is an Option. A SQL statement runs at one instant and as a whole; the rows that SKIP LOCKED passes
-- over are a predicate. A lease epoch is an unbounded number: one below 2 ^ 63, where the int64 of
-- the source and the uint64 of the protocol agree. A database that fails is a Boolean where it
-- matters, and leaves the table as it was. Every loop of the source is structural recursion on a
-- list or a text, with three exceptions that run on fuel: Listing/Walk, a client that follows
-- cursors, for which as many pages as there are items and one are enough; the turns of an agent's
-- run, for which one turn past the limit is enough; and the walk along merged incidents in
-- Alerts/Survivors, for which one step for each merge and one are enough.
--
-- What lies outside of an agent's run answers it through functions of the turn, of the attempt or of
-- the number of the read, so that a theorem holds whatever the model, the tools and the store
-- answer. The fields of a row that no modelled decision reads, such as the time a tool run started,
-- are left out.
--
-- Code outside the repository is a parameter: uuid.Parse, net.SplitHostPort, proto.Marshal and
-- proto.Unmarshal, url.Parse, encoding/base64, strconv, strings.TrimSpace and strings.EqualFold. Not modelled are logging,
-- goroutines and timers, the gRPC stream itself, JSON views, authentication of users, and the
-- parts of the program that the tree above does not name: the events that a run announces and the
-- texts of its prompts, conversations, integrations and the stores behind them. The limiter of
-- internal/webhooks/ratelimit.go is left out because the rounding of its float64 tokens decides its
-- answers, and there are no floats here.
pub mod Prelude
pub mod Jobs
pub mod Relay
pub mod SlackWork
pub mod Agent
pub mod Alerts
pub mod Authz
pub mod Capability
pub mod Changes
pub mod Listing
pub mod Cursors
pub mod Investigations
