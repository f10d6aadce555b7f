-- ===== src/Lib.antt =====
-- league-app runs pool leagues: seasons of team matches, scoresheets of eight-ball pairings with a
-- handicap spot, approvals of a match's scores by both teams and acceptance by the league, and scoped
-- roles that say who may do what. A Go server (handlers, backend/domains, backend/storage/sqlite) keeps
-- it all in one SQLite database. This library models nine parts of the server.
--
-- How the parts interact: the HTTP handlers resolve an Identity, ask auth.Authorize and call a service
-- of backend/domains/matches. A service runs a transaction on the store (RoundStore.RunTx), whose guarded
-- SQL statements touch a row only while it is still editable. Scores come from scoresheets; a sheet that
-- ValidateRounds refuses is not saved, and a save or a result edit starts a new score revision, which
-- clears the sides' approvals. An Identity comes from a session, which the session service opens at a
-- login and resolves at each request. The league closes a week when its sheets validate, which processes
-- the matches that it has approved.
--
-- Base: numbers, tests, lists and Go's int (Base/Int, signed, over the native numbers; the scores and
--   handicaps of the program stay far from 2^63, so no operation is taken to wrap).
-- Effects: backend/domainerr/err.go and the way a service meets the database. `M` passes the database, the
--   clock, the count of the driver's calls, and an oracle that says which call fails; `run_tx` is
--   RoundStore.RunTx, which restores the database on every error. Effects/Logic has the rules with which
--   the services are proved, whatever calls fail: what a run ends in. Effects/Keeps has those for what a
--   run keeps, Effects/Gives those for its result alone, and Effects/Runs those for runs in which no call
--   fails.
-- Approval: backend/domains/matches/team_approval_service.go and approval_service.go, the result edits of
--   round_service.go (submitResults, clearResults), over backend/storage/sqlite/round_store.go.
--   Approval/Db is the rows and matchStillEditableSQL (`still_editable`); Approval/Guards is
--   loadMatchGuardSnapshot and the three classifiers of a blocked action; Approval/Store is the store's
--   statements (ApproveTeamSide is `Store.approve_team_side`, GuardedAdminAccept is `guarded_admin_accept`,
--   advanceScoreRevisionForEdit keeps its name); Approval/Service is the services. Approval/Rules and
--   Approval/Frame say what each statement may change, Approval/Actions, Accept, Edits and Results do so
--   for each service, Approval/Requests puts them together as requests with one specification
--   (`Effect`, in the terms of Approval/Promises), and Scores, Soundness, Safety, Locks, Causes, Stale and OpenChecks hold the properties.
-- Scoresheet: backend/domains/matches/scoresheet.go with backend/validation/validation.go and
--   logic/handicap.go. Spot is CalcSpot and CalcSpotM; Sheet is the games and winners of a pairing; Rounds
--   is ValidateRounds; Display is computePairingResult of round_service.go. float64 is the record `Float`
--   (its operations, with the asymmetry of `<`); Scoresheet/Whole gives an instance. `""` for a
--   winner is `none`. Snapshots is the
--   handicaps of each slot in RoundService.saveRounds, Resave about them. Growth, Leads and EarlyStop are about the early stop, Legal about the errors,
--   Majority about the round winners, LowerRated about who gets the spot.
-- Auth: backend/domains/auth/identity.go (Identity) and authz.go (Authorize). Policy states the rules as a
--   relation; Grants, Decision and Granting relate it to the code. A string that names no action is
--   `unlisted`.
-- Auth/Session: backend/domains/auth/session_service.go, password.go and email.go, with the statements of
--   auth_user_store.go, session_store.go, password_setup_token_store.go, ListForUser of
--   role_assignment_store.go and RevokeAllForUser of user_api_key_admin_store.go (all of
--   backend/storage/sqlite). Password is the hashes, over the record `Packages` for argon2, base64, rand,
--   fmt, strings, regexp and sha256; Db the rows, Store the statements, Service the service, Requests the
--   requests that are served one after the other at any times. What the source of randomness gives is an
--   argument of the operation, `none` for its error. Keeping says what a request keeps if the statements
--   keep it; Lock and Spending are what lasts of a deactivation and of a used token; LockedOut, Tokens, Resolving and Hashing hold the properties.
-- Weeks: backend/domains/matches/closeweek.go (validateWeekData), round_config.go (ResolveRoundConfig) and
--   the closing and reopening of service.go, over backend/storage/sqlite/week_store.go. A row of matches
--   is the one of Approval, with its id and week. Messages is the messages and acknowledgments, Validate the
--   validation, Store the statements (CloseWeek is `Store.close_week`), Service the service
--   (`*WeekCloseErr` is the reply `week_blocked`). Loading says what the reads give, Changes and Commit
--   what the transactions leave; Ready, Closing, Flags and Closable hold the properties.
--
-- Schedule: backend/domains/matches/scheduling.go. Generate is roundRobinBase, maxWeekNum and
--   DoubleRoundRobin up to assignDates; in the circle method `teams[n-1-i]` is the i-th of the reversed
--   list. Counting, Weeks, Mirror and Halves are about how often a team plays.
-- Standings: MatchOutcome and ComputeStandings of backend/domains/matches/scoring.go (Table). The map of
--   rows is a list with one row a team, in the order of the teams; the sort puts equal ranks in that order,
--   where the code's order of them is left open. WinPct is left out. Columns sums a column; Totals, Order and Rows hold the properties.
-- Pushback: backend/domains/matches/pushback_service.go (Service) over
--   backend/storage/sqlite/pushback_store.go (Db). A date is the number of its day. The loop of `compute` is
--   `partition_matches`, which goes through the matches from the back. Shift is about the updates of one
--   match after the other; Applying and Previewing hold the properties.
-- Seasons: backend/domains/seasons/close_service.go (Close) over season_close_store.go of
--   backend/storage/sqlite. The snapshot of the standings is kept as a value, not as its JSON text. Closing
--   holds the property.
--
-- The functions are structural recursions or have no loop: none takes fuel. Identifiers are natural
-- numbers, times are numbers.
--
-- Not modelled: the rest of RoundService.SaveRounds, bye requests, dates and the other
-- generators of scheduling.go, the listing and the recap of weeks, the
-- creation and activation of seasons, lineups and handicap recommendations, which further components can add; the tuning of argon2
-- by time (CalibrateArgon2); stores that only scan rows; HTTP handlers, the schema and its migrations, the
-- web client and the server's start, which are I/O. The texts of errors and messages are left out, their
-- codes are kept.
pub mod Approval
pub mod Auth
pub mod Base
pub mod Effects
pub mod Pushback
pub mod Schedule
pub mod Scoresheet
pub mod Seasons
pub mod Standings
pub mod Weeks
