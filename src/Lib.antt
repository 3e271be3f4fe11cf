-- ===== src/Lib.antt =====
-- The call control of open-switch, the soft switch of open-voip: what becomes of one call when it
-- arrives, when agents answer, decline, hold, transfer and hang up, when the dispatcher offers it, when
-- it walks through an IVR flow, and when clients repeat their requests; and the checks that a
-- configuration with its flows passes before it is stored; the agents at work, and whom the dispatcher
-- reserves; and the playout buffer of a media leg. All paths are under open-switch/internal.
--
-- The parts, and the files that model them:
--   Errs           errs/errs.go: API errors, the sentinels of `errors.Is` and `AsAPIError`.
--   Ports          ports and ports/dto: the records that the layers hand each other.
--   Ivr            the documents of flows, `ivrDoc` and `ivrNode` of layers/control/ivr.go.
--   CallStore      store/call_persist.go: `UpdateCall`, `InsertCallWithLeg`, `InsertLeg`, `DeleteLeg`,
--                  `GetLeg`, `GetCall`.
--   Commands       store/commands.go: `Accept`, `MarkRunning`, `Complete` of the table of commands.
--   Control        layers/control, the service that the others serve:
--     State        `runtimeCall` and `Deps` of service.go, and the cell that one command works on.
--     Exec         the actions on a cell; Exec/Keeps has the rules for what an action keeps.
--     Events       `publishCall`, `cdrUpsert`, `setAgentState` and the helpers on legs.
--     Recording    `beginRecordingIfNeeded`, `startRecording`, `stopRecording`, `OnRecordingFailed`.
--     Transition   `transition`, the one way in which a call changes its state.
--     Dispatch     `tryDispatch` of service_tick.go and `ringDevice` of sip_device.go.
--     Offer        `doAnswer` and `doDecline`.
--     Features     hold, video, screen share, conference and supervisor, of features.go.
--     Queueing     `enterQueue`, `routeQueue` and `publishPosition` of ivr.go, `overflow`, voicemail.
--     Transfer     `doTransfer` and `completeConsult` of features.go.
--     Hangup       `Hangup` of service.go and `hangupPersistOnly` of recovery.go.
--     Failure      `failCall`, `hangupWithFailure` and their helpers, of failure.go.
--     Hours        `withinHoursFromSchedule` of ivr_hours.go.
--     Ivr          the engine of ivr.go: `gotoIVR`, `runIVRNode` and what each type of node does;
--                  Ivr/Inputs has the start of a flow, the end of a prompt, `tickIVR`, `onDTMF`,
--                  `CompleteBusinessAction`, and `EnterIVR` of ivr_entry.go.
--     Inbound      `StartInbound` of service.go, with `withinHours` of ivr.go.
--     Ticking      `tickCall` of service_tick.go, and the goroutine of `ringDevice` that waits for a
--                  SIP device, of sip_device.go.
--     Direct       direct.go: the legs, bridges and recordings of a call that a client controls leg by leg.
--     Mutation     `runIdempotentMutation`, `guardExpectedVersion` and the public methods.
--     Frame, Invariant, Keeping, Lifecycle   the invariants of a call, operation by operation; the
--                  Keeping modules of Ivr and of Ticking have their parts.
--   CcCore         layers/cccore: Nodes and Validation are `validateIVR` of ivr_validation.go, Hours is
--                  its `validateHours`; Normal is `normalizeBundle` and Bundle `validateBundle` of
--                  configuration.go, over the records of ports/configuration.go in Config.
--     Agents       the agents at work, of runtime.go: `setState`, `CheckOut` and `SetPresence` in
--                  Agents/States, `CheckIn` and `RecoverReservations` in Agents/CheckingIn, `RequestAgent`
--                  in Agents/Dispatching. Their transactions are functions of the tables.
--   Media          layers/media: Pcm has samples, their bytes and timestamps, Playout the buffer of
--                  playout_buffer.go, with `accept` in Playout/Accepting and `pullSamplesLocked` in
--                  Playout/Playing.
--
-- State. A command holds the lock of its call (commands.go), so the commands of one call come one
-- after the other, and a `Cell` is all that one of them works on: the entry of the call in `s.calls`,
-- the call's row, its leg rows, the command table, and the list of the calls of ports so far, the
-- latest first. An operation is an action `Cell → Result A × Cell`: what was written before an error
-- stays written, as in the source. The events of logs and of observability are left out.
--
-- Ports. The database, the media layer, the directory of agents, the dispatcher, the billing and the
-- clock answer through an `Env`, whose functions look at the whole list of calls so far. Nothing is
-- supposed about the answers except where a theorem says so, and each request of a history has an
-- `Env` of its own. A database transaction that reports an error has written nothing. Two reads with
-- no call of a port between them meet the same fault.
--
-- Inside a flow the source calls `Hangup` with a context that carries neither a version nor a key, so
-- the model ends the call by `do_hangup` there. Where the source goes through a Go map, the model goes
-- through a list of keys and values; of several faults of a flow, the one that is reported may differ.
--
-- Fuel. `tryDispatch` calls itself after each agent whose device cannot be rung, and the source sets
-- no bound to that: the model takes one unit of fuel for each such agent and fails without fuel. The
-- invariants hold for every amount of fuel; no theorem rests on a dispatch that ends. `gotoIVR` and
-- `runIVRNode` call each other: each jump takes a unit of `jump_fuel`, one more than the hops that the
-- source allows a call. The search of `validateIVR` takes a unit for each node that leaves its queue. A
-- frame of the playout buffer takes a unit for each run of samples, one for each sample at most.
--
-- Numbers and texts. Versions, times, counts and priorities are natural numbers, a `time.Duration` is in
-- milliseconds, ids are texts. The texts that Go's standard library makes (`strconv.Itoa`,
-- `strings.ReplaceAll`, the JSON of the metadata, the digest of a transfer request) are arguments.
--
-- Not modelled: outbound calls (`doOutbound`), the creation and the dialling of direct calls
-- (`CreateDirect`, `CreateStubCall`, `DialDirectSIP`), the loop of the clock over all calls, legs and
-- playback of applications, the media layer but for the playout buffer and there its resampler, the
-- reads and writes of the configuration over SQL, HTTP, and the programs open-call and open-call-web;
-- third_party/media-sdk is a library of another project. The tables of routing sessions, queue entries
-- and business actions that `UpdateCall` writes in the same transaction are left out too. A
-- `route_queue` node with a session type that does not exist leaves the call's as it is.
pub mod Base
pub mod Errs
pub mod Media
pub mod Ports
pub mod Ivr
pub mod CallStore
pub mod Commands
pub mod Control
pub mod CcCore
pub mod Tests
