-- ===== src/Call/Tests.antt =====
-- Runs of the executor, and the theorems at concrete inputs.
use axe_voice_desktop.Sip.Status.{SipStatus, CallAction}
use axe_voice_desktop.Sip.Observation.{
  SipRuntimeObservation, SipEvidence, RuntimeProcess, sip_proof_is_current, may_use_call_control,
}
use axe_voice_desktop.Prelude.{
  NewerFrom, Bool, true, ℕ, ◌≡◌, ◌⊎◌, ◌==◌, ◌||◌, ◌&&◌, leb, ltb, List, [], ◌∷◌, none, some, refl,
  Text,
}
use axe_voice_desktop.Call.Address
use axe_voice_desktop.Call.Address.{WideClasses, AddressError, AddressResult, validate_address}
use axe_voice_desktop.Call.Authorization
use axe_voice_desktop.Call.Authorization.{EngineSelection, EngineKind, authorize_call_command}
use axe_voice_desktop.Call.Authorization.Sound.{IsGrounded, authorize_call_command-IsGrounded}
use axe_voice_desktop.Call.Executor
use axe_voice_desktop.Call.Executor.{
  SipCommandExecutor, SipCommandRequest, NativeCommand, initial_executor, dispatch,
}
use axe_voice_desktop.Call.Executor.Once.{Follows, Consumed, dispatch_once}
use axe_voice_desktop.Call.Executor.History.{Event, commanded, commanded-NewerFrom}

-- The classes of the ASCII characters.
abbrev ascii : WideClasses
ascii = record {
  iswspace = λ c. c == 32 || (leb 9 c && leb c 13);
  iswcntrl = λ c. ltb c 32 || c == 127;
  iswdigit = λ c. leb 48 c && leb c 57;
}

-- `1001`, `a@b.c:5060` with its scheme, and `a@b:0`.
abbrev extension : Text
extension = 49 ∷ 48 ∷ 48 ∷ 49 ∷ []

accepts_extension :
    validate_address ascii extension
    ≡ record { error = AddressError.no_error; normalized = extension }
unfolding validate_address Address.validate_value
accepts_extension = refl

refuses_port :
    (validate_address ascii (115 ∷ 105 ∷ 112 ∷ 58 ∷ 97 ∷ 64 ∷ 98 ∷ 58 ∷ 48 ∷ [])).error
    ≡ AddressError.invalid_port
unfolding validate_address Address.validate_value Address.validate_host Address.valid_sip_host
    Address.valid_port
refuses_port = refl

abbrev live : SipRuntimeObservation
live = record {
  process = RuntimeProcess.running;
  sip = SipStatus.ringing;
  evidence = SipEvidence.verified_native_api;
  session = 3;
  call_id = 5;
  last_call_id = 5;
}

abbrev native : EngineSelection
native = record { engine = some SipStatus.ringing; kind = EngineKind.baresip }

abbrev answers : SipCommandRequest
answers = record {
  session = 3;
  sequence = 2;
  action = CallAction.answer;
  call_id = 5;
  destination = [];
}

abbrev accepts_all : NativeCommand → Bool
accepts_all c = true

-- The same request twice, with the watchdog in between.
abbrev requests : List Event
requests =
    Event.dispatches accepts_all answers live 3 native 100
    ∷ Event.watches live 3 200
    ∷ Event.dispatches accepts_all answers live 3 native 300
    ∷ []

answers_once : commanded ascii initial_executor requests ≡ (3, 2) ∷ []
unfolding commanded dispatch Executor.proceed Executor.authorize_and_send Executor.send
    Executor.watchdog Executor.is_repeated Executor.command_of Executor.note_action
    authorize_call_command Authorization.authorize_control Authorization.authorize_dial
    may_use_call_control sip_proof_is_current
answers_once = refl

commanded-NewerFrom_example : NewerFrom 0 0 (commanded ascii initial_executor requests)
commanded-NewerFrom_example = commanded-NewerFrom ascii initial_executor requests

dispatch_once_example :
    let o = dispatch ascii accepts_all initial_executor answers live 3 native 100 in
    Follows initial_executor o.0
    × ((o.2 ≡ none)
        ⊎ (Consumed initial_executor o.0 answers
            × (answers.session ≡ 3)
            × (sip_proof_is_current live 3 ≡ true)))
dispatch_once_example = dispatch_once ascii accepts_all initial_executor answers live 3 native 100

abbrev named_call : ℕ
named_call = 5

authorize_call_command-IsGrounded_example :
    IsGrounded ascii live 3 native CallAction.answer named_call []
      (authorize_call_command ascii live 3 native CallAction.answer named_call []).1
unfolding authorize_call_command Authorization.authorize_control may_use_call_control
    sip_proof_is_current
authorize_call_command-IsGrounded_example =
    authorize_call_command-IsGrounded ascii live 3 native CallAction.answer named_call [] refl
