-- ===== src/Lib.antt =====
-- A model of the decision-making backend (app/): events with members who propose assumptions,
-- criteria and conclusions, vote on the proposals of others, and have them approved by the admin or
-- by the number of votes.
--
-- Model: the enumerations and tables of app/models/, one record per table, and the database as one
-- list of rows per table. A UUID is a number that the database supplies, a time is a number.
-- Session: the SQLAlchemy session of app/db.py and app/utils/transaction.py. An action takes a
-- session to a result or an error and the session after it. `working` is what queries see,
-- `committed` what the database keeps; `transaction` commits, or rolls back and raises again.
-- Session.Atomic, Keeps, Leaves, Reading and Runs have the rules to reason on actions.
-- Repositories: the queries and flushed writes of app/repositories/.
-- BaseService: the shared checks of app/services/event/base.py.
-- Membership: app/services/event/membership_service.py.
-- Idempotency: app/services/idempotency_service.py with its repository.
-- Proposal: app/services/event/proposal/. VoteUseCase, ApprovalUseCase and AutoApproval are its
-- core/, with callbacks as arguments; Assumptions, Criteria and Conclusions are the methods of
-- facade.py, which pass the callbacks. Percent computes the float percentage of auto_approval.py
-- on integers, as IEEE doubles round.
-- Setting: the state machine and the page of app/services/event/setting_service.py.
-- Vote: the final votes of app/services/event/vote_service.py with app/repositories/
-- vote_repository.py. Service has the methods, the other modules what they do.
-- Outbox: app/workers/ with its handlers, and app/services/event/stream_service.py. The services put
-- events into the outbox with Repositories.Outbox; the worker takes them out with
-- Repositories.OutboxQueue, and the stream reads them with Repositories.OutboxStream.
-- Comment: app/services/event/comment_service.py.
-- Creation: app/services/event/creation_service.py, and the handler of POST /events in
-- app/routers/event/creation.py, which calls it.
-- Detail: app/services/event/detail_service.py. Groups has the dictionaries that the method builds in
-- memory, Service the method itself; Reading is the same page read from the tables directly.
-- Home: app/services/event/home_service.py, with the queries of Repositories.EventLists.
-- Overview: app/services/event/overview_service.py.
-- Tests: a small database and runs on it.
--
-- Every loop of the model runs over a list of rows or counts down, as the thirty draws of a code do,
-- so no fuel is needed. The worker's endless loop is modelled one batch at a time. Errors carry their
-- message; the texts of `detail` are left out. Each session runs alone: rows that another session
-- commits in between are not modelled; the conditional UPDATEs that guard against them are, with
-- their failure branches. Times are in seconds where a delay is added. `str.upper`, the hash and the
-- path of a request, the text of an exception, the drawn codes, the database's test of a code's
-- format and the table of users are arguments.
--
-- Not modelled: update_event of the setting service; authentication, mail, the rest of the HTTP layer
-- and migrations; and app/services/event/proposal_service.py, an older copy of the facade that is
-- not imported.
pub mod Prelude
pub mod Model
pub mod Session
pub mod Repositories
pub mod BaseService
pub mod Membership
pub mod Idempotency
pub mod Proposal
pub mod Setting
pub mod Vote
pub mod Comment
pub mod Creation
pub mod Detail
pub mod Home
pub mod Overview
pub mod Outbox
pub mod Tests
