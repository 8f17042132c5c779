-- ===== src/Sdk/CallPort.antt =====
-- src/baresip_sdk_call_port.h: the operations on the one call that the adapter holds, and the check of a
-- transfer address of src/native_transfer.h. Texts are codes of characters; those of the wide strings
-- that are passed on are codes below 127. An error number is not 0.
pub mod Life
pub mod Once
use axe_voice_desktop.Prelude.{
  starts_with, Bool, true, false, ℕ, zero, suc, ◌+◌, ◌-◌, ◌*◌, ◌/◌, ◌%◌, ◌^◌, ◌≤◌, ◌<◌, ◌≡◌, ◌≢◌,
  ◌↔◌, ◌⊎◌, ◌∙◌, ◌==◌, ◌!=◌, ◌||◌, ◌&&◌, not, if◌then◌else◌, leb, ltb, List, [], ◌∷◌, ◌++◌, map,
  append_assoc, append-nil, Option, none, some, inl, inr, refl, sym, ap, arith, tests, Bool-cases,
  Option-cases, length, get_or, set, take, drop, replicate, pop_front, All, All-append, All-mono,
  All-take, length-append, length-set, length-take, get_or-set_self, get_or-set_ne, u64_mod,
  u64_max, inc_u64, sub_u64, Text, codes, text_eq, is_empty, any, all, between, is_digit, is_letter,
  is_alnum, text_eq→≡, text_eq_refl, Before, newer_session, newer_sequence, NewerFrom,
  NewerFrom-mono, NotAfter, newer, same_or_later, NotAfter-trans, lt→ltb, ltb→lt, leb→le, le→leb,
  ==_iff,
}
use axe_voice_desktop.Call.Address.{WideClasses, is_accepted, split_first, validate_address}
use axe_voice_desktop.Native.Control.{valid_native_dtmf_key}
use axe_voice_desktop.Native.Media.{NativeTransferState, NativeCallMediaState}
use axe_voice_desktop.Pipeline.Lifecycle.{nothing}
use axe_voice_desktop.Sdk.Event.{Delivery}
use axe_voice_desktop.Sdk.Adapter
use axe_voice_desktop.Sdk.Adapter.{BaresipSdkEventAdapter, active, native_register_ok_seen, run}

-- The functions of the SDK, on a state of its own. Where one may call back at once, the callbacks that
-- it makes are part of its result.
pub record Sdk (W : Type 0) : Type 0 where
  pub ua_isregistered : W → ℕ → Bool
  pub ua_connect : W → ℕ → Text → W × List Delivery × ℕ
  pub ua_answer : W → ℕ → ℕ → W × List Delivery × ℕ
  pub ua_hangup : W → ℕ → ℕ → W × List Delivery
  pub call_audio : W → ℕ → ℕ
  pub audio_ismuted : W → ℕ → Bool
  pub audio_mute : W → ℕ → Bool → W
  pub call_is_onhold : W → ℕ → Bool
  pub call_hold : W → ℕ → Bool → W × List Delivery × ℕ
  pub call_account : W → ℕ → ℕ
  pub account_dtmfmode : W → ℕ → ℕ
  pub dtmfmode_sip_info : ℕ
  pub call_send_digit : W → ℕ → ℕ → W × List Delivery × ℕ
  pub call_transfer : W → ℕ → Text → W × List Delivery × ℕ

-- What the SDK returned, or an error of the port.
pub data Status : Type 0 where
  returned : ℕ → Status
  invalid not_supported already : Status

-- The port, the adapter that it refers to, and the state of the SDK.
pub record BaresipSdkCallPort (W : Type 0) : Type 0 where
  pub world : W
  pub adapter : BaresipSdkEventAdapter
  pub captured_session : ℕ

abbrev pub make_port : {W : Type 0} → W → BaresipSdkEventAdapter → BaresipSdkCallPort W
make_port world adapter = record {
  world = world;
  adapter = adapter;
  captured_session = Adapter.session adapter;
}

abbrev pub same_flag : Bool → Bool → Bool
same_flag x y = if x then y else not y

abbrev pub is_plain : ℕ → Bool
is_plain c = not (leb c 32 || leb 127 c)

abbrev is_uri_char : ℕ → Bool
is_uri_char c =
    is_plain c && not (c == b'%' || c == b'?' || c == b'"' || c == b'\\' || c == b'<' || c == b'>')

abbrev is_uri_user : ℕ → Bool
is_uri_user c =
    is_alnum c || c == b'_' || c == b'.' || c == b'-' || c == b'+' || c == b'*' || c == b'#'

-- The address as `validate_address` would write it.
unfoldable pub is_normalized : WideClasses → Text → Bool
is_normalized w t =
    let parsed = validate_address w t in is_accepted parsed.error && text_eq parsed.normalized t

-- `base`, the address before the parameters.
unfoldable pub valid_base : WideClasses → Text → Bool → Bool
valid_base w base secure = elim (split_first b'@' (drop (if secure then 5 else 4) base)) [
  | none ↦ false
  | some (user, host) ↦ not (is_empty user) && all is_uri_user user && is_normalized w base
]

unfoldable pub valid_native_transfer_uri : WideClasses → Text → Bool
valid_native_transfer_uri w uri =
    let secure = starts_with (codes "sips:") uri in
    if is_empty uri || ltb 512 (length uri) || not (all is_uri_char uri)
    then false
    else if not secure && not (starts_with (codes "sip:") uri)
    then false
    else elim (split_first b';' uri) [
      | none ↦ valid_base w uri secure
      | some (base, suffix) ↦
          (text_eq suffix (codes "transport=tls")
            || (text_eq suffix (codes "transport=udp") && not secure))
          && valid_base w base secure
    ]

module _ {W : Type 0} (sdk : Sdk W) where
  unfoldable pub owns_session : Bool → BaresipSdkCallPort W → Bool
  owns_session on_owner p =
      on_owner
      && p.captured_session != 0
      && active p.adapter
      && p.adapter.captured.mailbox_session == p.captured_session
      && p.adapter.owner != 0
      && native_register_ok_seen p.adapter (sdk.ua_isregistered p.world p.adapter.owner)

  -- The call, or 0.
  unfoldable pub resolve : Bool → BaresipSdkCallPort W → ℕ → ℕ
  resolve on_owner p token =
      if not (owns_session on_owner p) || token == 0 || token != p.adapter.active_token
      then 0
      else p.adapter.active_call

  -- The SDK's state, and the callbacks that ran meanwhile.
  abbrev pub called : BaresipSdkCallPort W → W → List Delivery → BaresipSdkCallPort W
  called p world events = record p { world = world; adapter = run p.adapter events }

  -- The checks of `originate`.
  unfoldable pub may_originate : WideClasses → Bool → BaresipSdkCallPort W → Text → Bool
  may_originate w on_owner p destination =
      owns_session on_owner p
      && p.adapter.active_call == 0
      && leb 5 (length destination)
      && leb (length destination) 512
      && (starts_with (codes "sip:") destination || starts_with (codes "sips:") destination)
      && is_normalized w destination
      && all is_plain destination

  unfoldable pub originate :
      WideClasses → Bool → BaresipSdkCallPort W → Text → BaresipSdkCallPort W × Bool
  originate w on_owner p destination =
      let (world, events, error) = sdk.ua_connect p.world p.adapter.owner destination in
      if not (may_originate w on_owner p destination)
      then (p, false)
      else (called p world events, error == 0)

  -- The checks of `answer`, `hangup`, and of the operations on a call that is established.
  unfoldable pub may_answer : Bool → BaresipSdkCallPort W → ℕ → Bool
  may_answer on_owner p token =
      resolve on_owner p token != 0
      && p.adapter.active_incoming
      && not (p.adapter.call_established || p.adapter.answer_sent || p.adapter.hangup_sent)

  unfoldable pub may_hangup : Bool → BaresipSdkCallPort W → ℕ → Bool
  may_hangup on_owner p token = resolve on_owner p token != 0 && not p.adapter.hangup_sent

  unfoldable pub is_established : Bool → BaresipSdkCallPort W → ℕ → Bool
  is_established on_owner p token =
      resolve on_owner p token != 0 && p.adapter.call_established && not p.adapter.hangup_sent

  unfoldable pub answer : Bool → BaresipSdkCallPort W → ℕ → BaresipSdkCallPort W × Bool
  answer on_owner p token =
      let owned = resolve on_owner p token in
      let sent = record p { adapter = record (p.adapter) { answer_sent = true } } in
      let (world, events, error) = sdk.ua_answer p.world p.adapter.owner owned in
      if not (may_answer on_owner p token)
      then (p, false)
      else (called sent world events, error == 0)

  unfoldable pub hangup : Bool → BaresipSdkCallPort W → ℕ → BaresipSdkCallPort W × Bool
  hangup on_owner p token =
      let owned = resolve on_owner p token in
      let sent = record p { adapter = record (p.adapter) { hangup_sent = true } } in
      let (world, events) = sdk.ua_hangup p.world p.adapter.owner owned in
      if not (may_hangup on_owner p token) then (p, false) else (called sent world events, true)

  abbrev pub transfer_state : BaresipSdkEventAdapter → NativeTransferState
  transfer_state a =
      if a.transfer_attempted
      then if a.transfer_failed then NativeTransferState.failed else NativeTransferState.submitted
      else NativeTransferState.no_transfer

  unfoldable pub media_state : Bool → BaresipSdkCallPort W → ℕ → NativeCallMediaState
  media_state on_owner p token =
      let owned = resolve on_owner p token in
      let audio = sdk.call_audio p.world owned in
      if not (is_established on_owner p token) || audio == 0
      then record {
        session = 0;
        call_id = 0;
        available = false;
        muted = false;
        local_hold = false;
        hold_request_error = 0;
        transfer = NativeTransferState.no_transfer;
      }
      else record {
        session = p.captured_session;
        call_id = token;
        available = true;
        muted = sdk.audio_ismuted p.world audio;
        local_hold = sdk.call_is_onhold p.world owned;
        hold_request_error = 0;
        transfer = transfer_state p.adapter;
      }

  unfoldable pub set_muted : Bool → BaresipSdkCallPort W → ℕ → Bool → BaresipSdkCallPort W × Bool
  set_muted on_owner p token desired =
      let audio = sdk.call_audio p.world (resolve on_owner p token) in
      let world =
        if same_flag (sdk.audio_ismuted p.world audio) desired
        then p.world
        else sdk.audio_mute p.world audio desired in
      if not (is_established on_owner p token) || audio == 0
      then (p, false)
      else (record p { world = world }, same_flag (sdk.audio_ismuted world audio) desired)

  unfoldable pub set_held : Bool → BaresipSdkCallPort W → ℕ → Bool → BaresipSdkCallPort W × Status
  set_held on_owner p token desired =
      let owned = resolve on_owner p token in
      let (world, events, error) = sdk.call_hold p.world owned desired in
      if not (is_established on_owner p token)
      then (p, Status.invalid)
      else if same_flag (sdk.call_is_onhold p.world owned) desired
      then (p, Status.returned 0)
      else (called p world events, Status.returned error)

  unfoldable pub send_dtmf_info :
      Bool → BaresipSdkCallPort W → ℕ → ℕ → BaresipSdkCallPort W × Status
  send_dtmf_info on_owner p token key =
      let owned = resolve on_owner p token in
      let account = sdk.call_account p.world owned in
      let (world, events, error) = sdk.call_send_digit p.world owned key in
      if not (valid_native_dtmf_key key)
      then (p, Status.invalid)
      else if not (is_established on_owner p token)
          || p.adapter.transfer_attempted
          || sdk.call_is_onhold p.world owned
      then (p, Status.invalid)
      else if account == 0 || sdk.account_dtmfmode p.world account != sdk.dtmfmode_sip_info
      then (p, Status.not_supported)
      else (called p world events, Status.returned error)

  -- The end of `transfer`: an error counts only for the same call.
  abbrev pub note_transfer : Bool → BaresipSdkCallPort W → ℕ → ℕ → BaresipSdkCallPort W
  note_transfer on_owner p token error =
      if owns_session on_owner p && p.adapter.active_token == token
      then record p {
        adapter = record (p.adapter) { transfer_failed = p.adapter.transfer_failed || error != 0 };
      }
      else p

  unfoldable pub may_transfer : WideClasses → Bool → BaresipSdkCallPort W → ℕ → Text → Bool
  may_transfer w on_owner p token uri =
      valid_native_transfer_uri w uri
      && is_established on_owner p token
      && not p.adapter.transfer_attempted

  unfoldable pub transfer :
      WideClasses → Bool → BaresipSdkCallPort W → ℕ → Text → BaresipSdkCallPort W × Status
  transfer w on_owner p token uri =
      let owned = resolve on_owner p token in
      let attempted = record p {
        adapter = record (p.adapter) { transfer_attempted = true; transfer_failed = false };
      } in
      let (world, events, error) = sdk.call_transfer p.world owned uri in
      if not (valid_native_transfer_uri w uri) || not (is_established on_owner p token)
      then (p, Status.invalid)
      else if p.adapter.transfer_attempted
      then (p, Status.already)
      else (
        note_transfer on_owner (called attempted world events) token error,
        Status.returned error,
      )
