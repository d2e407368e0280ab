-- ===== src/Lib.antt =====
-- A model of the core of AudioPlaybackConnector2, a Windows program that lets Bluetooth devices play
-- audio through the computer.
--
-- The parts and how they interact. The settings store keeps the user's settings: the threads of the
-- program change them by mutations, a worker thread writes them to a file, and subscribers hear of
-- each change. The codec turns settings into the JSON document of the file and back, also from the
-- format of an older release. The device service owns one session for each device: commands of the
-- user, the settings' policy, the watcher and power transitions reach the sessions through it, and it
-- tells those who wait for an operation how it ended. A device session keeps the connection of one
-- device: commands, callbacks of the platform and timers drive a state machine, which asks the
-- reconnect policy whether and when to try again. A command-line program sends requests over a pipe:
-- the protocol says which requests are valid, the pipe's messages carry them, and the search for
-- targets finds the device that a request names. Smaller policies of the application stand beside
-- them: the retry backoff of adaptive actions, the coordination of startup-task requests, the recovery
-- of connections after the computer slept, the fence that keeps outdated device facts off the screen,
-- the schedule of wake-ups, the reading of resource probes, and the gate through which a command-line
-- request and the UI agree on who runs an action.
--
-- Which file models which part:
-- - Prelude with its children, Text and Text/Table: shared names, options as results of fallible code,
--   lists, and tables by an identifier, for the maps of the source.
-- - Text and Text/Utf16: wide strings as lists of 16-bit code units; IsValidUtf16, IsBoundedUtf16 and
--   TruncateUtf16 of AudioPlaybackConnector2/include/core/SettingsLimits.hpp.
-- - Settings/Data: the records of AudioPlaybackConnector2/include/core/SettingsData.hpp, field by field.
--   Settings/Persistable: IsPersistable of AudioPlaybackConnector2/src/core/SettingsCodec.cpp.
-- - Settings/Codec: the rest of SettingsCodec.cpp. Json holds the values and ParseJson, with the
--   fields of an object in the order of their keys, each key once; Read the functions Object, Text,
--   Integer and Array; Decode, Legacy and Encode the functions Decode, DecodePersisted and Encode. A
--   thrown exception is `none`.
-- - Settings/Lists, Settings/Edit and Settings/Request: the public mutations of SettingsStore
--   (AudioPlaybackConnector2/src/core/SettingsStore.cpp), one edit for each, with the checks of their
--   arguments.
-- - Settings/Store: the members of SettingsStore::Impl and its critical sections, one function for each
--   stretch of code under the mutex; Settings/Store/World interleaves them, with the write under way,
--   the file and the subscribers.
-- - Device/Reconnect: ReconnectPolicy::Evaluate (AudioPlaybackConnector2/src/core/ReconnectPolicy.cpp).
-- - Device/Session: DeviceSession (AudioPlaybackConnector2/src/core/DeviceSession.cpp). Data holds the
--   members of DeviceSession::State; Retry, Close and Connect the private operations, Events the
--   callbacks, Policy, Control and Power the public operations; World runs them in any order.
-- - Device/Service: DeviceService (AudioPlaybackConnector2/src/core/DeviceService.cpp). Data holds the
--   members of DeviceService::State, Publish what a fact does, Commands, Policy and Power the tasks;
--   World runs the tasks and the sessions' callbacks in any order. What a session publishes while its
--   operation runs reaches the service at once (`deliver`), as OnSessionFact does.
-- - Control/Protocol: AudioPlaybackConnector2/include/control/CommandProtocol.hpp. Control/Pipe: the
--   messages and the transfer loop of AudioPlaybackConnector2/src/control/CommandPipeIo.cpp; Wire has
--   the bytes of a field, lowest first, and what reading them gives; Taken
--   reads that backwards, for Exact, on what ReadRequest accepts.
-- - Control/Targets: FindAutoTargetMatches
--   (AudioPlaybackConnector2/include/control/ControlTargetMatcher.hpp), with `towlower` a parameter;
--   Meaning says, without the code's tests, when a query names a candidate in the way of a rank.
--   Control/ActionGate: ControlUiActionGate (AudioPlaybackConnector2/include/control), each atomic
--   access a step of its own.
-- - App/Backoff: AdaptiveActionRetryBackoff (AudioPlaybackConnector2/src/app). App/StartupRequest:
--   LatestStartupTaskRequestState (AudioPlaybackConnector2/include/app). App/Fence:
--   DeviceFactPublicationFence. App/Schedule: AdaptiveScheduleState. App/ResourcePressure:
--   AudioPlaybackConnector2/src/app/ResourcePressureState.cpp. App/PowerTransition:
--   PowerTransitionCoordinator (AudioPlaybackConnector2/src/app), each stretch between its callbacks a
--   function, interleaved by App/PowerTransition/World.
--
-- Bounds and fuel. Counters of 64 bits stop at their greatest value where the code stops them
-- (revisions), and wrap around in DeviceSession and DeviceService (epochs, attempts, generations).
-- Times are milliseconds, except in the reconnect policy, which counts seconds; they are natural
-- numbers. StartConnection can reach itself again through a failure that restores the incoming
-- listener; the model allows two nested calls and marks a session whose calls would nest deeper, and
-- the branch of BeginClose for a session with nothing to close is marked likewise. The transfer loop
-- runs over a list of the system's answers, one for each round. All other recursion is structural.
--
-- What is taken from outside: the platform's answers to a session (a connection made or not, a token,
-- a thrown exception, a timer scheduled or not) are a parameter, by the number of the call, for each
-- device of a service. The watcher's answers and its inventory are arguments. The text of a JSON value
-- and the conversions between UTF-8 and UTF-16 are functions of a record, JsonLibrary; the theorems
-- that use it name what they rely on: that it reads what it prints, and that the conversions are
-- inverse on well-formed text. In the settings store the file is modelled by what decoding it would
-- give; a write stores the settings that it captured or leaves the file as it was. In
-- Device/Session/World a callback of the current timer carries the epochs that the timer was scheduled
-- under.
--
-- What is not modelled: the queue of DeviceService::Post, which runs the tasks one after the other, so
-- that a task is one step here, and the answer "coalesced" of a command posted from within a task; the
-- wait itself in WaitForCompletion; the displayed device name of a session, which is only passed on;
-- what a subscriber does; the names of pipes, their security and the waiting for deadlines; the parser
-- of the command line and the answers to its commands; the watcher, which drives the service from
-- outside; the native timer of a recovery; and everything that draws, logs or talks to Windows.
pub mod Prelude
pub mod Text
pub mod Settings
pub mod Device
pub mod App
pub mod Control
