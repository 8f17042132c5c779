-- ===== src/Lib.antt =====
-- axe_voice_desktop: a model of the core of the AXE Voice softphone (src/ of the repository).
--
-- The program turns the callbacks of the Baresip SDK into an observed SIP state, and that state into
-- what the operator and local clients may do. A callback is admitted by an ingress, which checks its
-- session, account and call; it becomes an event in a bounded mailbox; the UI thread drains the
-- mailbox and projects the batch, event by event, onto the observation.
--
-- Sip/Status and Sip/Observation have the types of src/sip_engine.h, src/call_policy.h and
-- src/sip_runtime_observation.h; Sip/Lifecycle the engine's life cycle (src/engine_lifecycle.h);
-- Sip/Reducer the reducer of native events (src/baresip_event_reducer.h) and Sip/Identity its gate for
-- one account (src/baresip_event_identity.h). Pipeline/Mailbox is src/baresip_event_mailbox.h,
-- Pipeline/Ingress src/baresip_callback_ingress.h, Pipeline/NativeIngress
-- src/baresip_native_ingress.h, Pipeline/Fence and Pipeline/Lifecycle
-- src/baresip_callback_lifecycle.h, Pipeline/Projection src/legacy_sip_event_projection.h and
-- src/sip_event_projection.h, and Pipeline/SessionGuard src/sip_runtime_session_guard.h.
-- Registration/Queue is src/baresip_registration_command_queue.h, the requests of other threads to the
-- owner of the registration, Registration/Deadline src/baresip_registration_watchdog.h,
-- Registration/Gateway src/baresip_sdk_registration_gateway.h and Registration/Dispatcher
-- src/baresip_registration_command_dispatcher.h, whose tick serves the queue; the adapter and the
-- SDK are an interface there, Registration/Bridge, which Sdk/Joined fills. Sdk/Adapter is
-- src/baresip_sdk_event_adapter.h, and Sdk/CallPort src/baresip_sdk_call_port.h and the check of
-- src/native_transfer.h; the functions of the SDK are parameters, and the callbacks that one makes
-- before it returns are part of its result. Cti/Requests
-- is the queue of src/local_cti_requests.h, from which the GUI takes what local clients ask to dial,
-- and Cti/Journal the states that they are shown (src/local_cti_events.h), both on Cti/Log;
-- Cti/Cursor is the parser of the cursors that they send, and Cti/Contract src/local_cti_contract.h, the
-- parsers of their requests and of links.
-- Account/Validation is src/sip_account.h, src/sip_registration_policy.h and src/native_codec_mode.h,
-- Account/Form src/account_form_feedback.h, Account/Config src/native_account_config.h.
-- Audio/Devices is src/audio_devices.h and the choices of src/audio_routing_preview.h and its kin,
-- Audio/Async src/audio_inventory_async.cpp, Audio/Changes src/audio_device_change_policy.h, the other
-- waits and src/shutdown_policy.h, Audio/Routes src/native_audio_routes.h and
-- src/native_audio_command_guard.h. Engine/Quote is src/windows_argument_quote.h.
-- Call/Address is src/sip_address.cpp and src/sip_host.h, Call/Authorization src/dial_authorization.h
-- and src/call_command_authorization.h, and Call/Executor src/sip_command_executor.h, which hands
-- permitted commands to the native engine. Call/Feedback is src/destination_feedback.h.
-- Native/Control and Native/Batch are src/native_session_control.h, Native/Media
-- src/native_call_media.h and src/native_dtmf.h, Native/Duration src/native_call_duration.h,
-- Native/Ringtone src/incoming_ringtone_policy.h, and Native/Offers src/essential_call_actions.h and
-- src/voice_application_service.h: what the interface offers, and what it then asks of the engine.
-- Contacts/Draft and Contacts/Book are src/contact_book.cpp and src/contact_favorites.cpp, and
-- Contacts/Recent is src/recent_destinations.h; Contacts/Query is src/contact_query.cpp, its sort being a
-- parameter; Contacts/Backup is the writer of src/contact_backup.cpp,
-- Contacts/Backup/Parser and Contacts/Backup/Contacts its reader, whose loops run on fuel: one round
-- more than a string may have units, an object has fields or the book has contacts, as each round
-- uses one of them up. The first argument of such a loop is what it is if its rounds run out, a
-- failure in the parser. Engine/Quote/RoundTrip has the rule that the C runtime documents for the
-- arguments of a command line, as the specification of what is quoted. The character classes of the
-- C library and the native engine's answers are parameters.
--
-- A method that changes its object returns the new record; an object that holds a reference to another
-- has it as a field. A method that holds a mutex throughout is one step, and Pipeline/Lifecycle/Threads
-- interleaves such steps. Unsigned words are numbers with the wrap-around written out
-- (Prelude/Words). Texts are lists of character codes.
--
-- Not modelled: windows, drawing, the audio of Windows, processes, files and the socket server, which
-- are Windows I/O; the texts shown and those of the local server; failed allocations; src/upstream, a
-- copy of another project. The host of the registration, which wires the reactor of the SDK to the
-- dispatcher, and the settings of the display are outside of the model.
pub mod Prelude
pub mod Sip
pub mod Pipeline
pub mod Registration
pub mod Audio
pub mod Account
pub mod Engine
pub mod Sdk
pub mod Cti
pub mod Call
pub mod Contacts
pub mod Native
