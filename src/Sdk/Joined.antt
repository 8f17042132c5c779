-- ===== src/Sdk/Joined.antt =====
-- src/baresip_sdk_registration_gateway.h over src/baresip_sdk_event_adapter.h: the adapter as the bridge
-- of the gateway, and the SDK's functions of registration.
use axe_voice_desktop.Prelude.{Bool, true, false, ℕ, ◌≡◌, List, refl, arith}
use axe_voice_desktop.Registration.Queue.Inv.{Op}
use axe_voice_desktop.Registration.Bridge.{Bridge, BridgeLaws}
use axe_voice_desktop.Registration.Dispatcher.{Dispatch, tick}
use axe_voice_desktop.Registration.Dispatcher.Closed.{ends, tick_fails_closed}
use axe_voice_desktop.Registration.Dispatcher.Preserved.{Preserves, tick_keeps}
use axe_voice_desktop.Pipeline.Fence
use axe_voice_desktop.Pipeline.Lifecycle
use axe_voice_desktop.Pipeline.Lifecycle.{is_captured}
use axe_voice_desktop.Sdk.Event.{Delivery}
use axe_voice_desktop.Sdk.Adapter
use axe_voice_desktop.Sdk.Adapter.{BaresipSdkEventAdapter, active, native_register_ok_seen, run}
use axe_voice_desktop.Sdk.Adapter.Inv.{IsAgreed}
use axe_voice_desktop.Sdk.Adapter.History.{IsSound, start-Leads, stop-Leads, run-Leads}

-- The functions of the SDK; the ones that call back at once have the callbacks in their result.
pub record RegistrationSdk (W : Type 0) : Type 0 where
  pub bevent_register : W → ℕ
  pub ua_isregistered : W → ℕ → Bool
  pub ua_register : W → ℕ → W × List Delivery × ℕ
  pub ua_unregister : W → ℕ → W × List Delivery

pub record Joined (W : Type 0) : Type 0 where
  pub world : W
  pub adapter : BaresipSdkEventAdapter

module _ {W : Type 0} (sdk : RegistrationSdk W) where
  abbrev pub joined_start : Joined W → ℕ → Joined W × Bool
  joined_start s owner =
      let (a, ok) = Adapter.start s.adapter owner (sdk.bevent_register s.world) in
      (record s { adapter = a }, ok)

  abbrev pub joined_register : Joined W → ℕ → Joined W × ℕ
  joined_register s owner =
      let (w, events, error) = sdk.ua_register s.world owner in
      (record { world = w; adapter = run s.adapter events }, error)

  abbrev pub joined_unregister : Joined W → ℕ → Joined W
  joined_unregister s owner =
      let (w, events) = sdk.ua_unregister s.world owner in
      record { world = w; adapter = run s.adapter events }

  abbrev pub joined : Bridge (Joined W)
  joined = record {
    start = joined_start;
    stop = λ s. record s { adapter = Adapter.stop s.adapter };
    active = λ s. active s.adapter;
    session = λ s. Adapter.session s.adapter;
    native_register_ok_seen =
        λ s. native_register_ok_seen s.adapter (sdk.ua_isregistered s.world s.adapter.owner);
    ua_register = joined_register;
    ua_unregister = joined_unregister;
  }

stopped_inactive : (a : BaresipSdkEventAdapter) → active (Adapter.stop a) ≡ false
unfolding active Adapter.stop
stopped_inactive a = refl

-- Nothing is captured, no session is open and no call is held.
pub record IsIdle (a : BaresipSdkEventAdapter) : Type 0 where
  pub uncaptured : is_captured a.captured ≡ false
  pub no_session : a.lifecycle.ingress.session ≡ 0
  pub no_token : a.active_token ≡ 0
  pub no_call : a.active_call ≡ 0

-- An adapter that has captured a session is active.
captured_active :
    (a : BaresipSdkEventAdapter) → IsAgreed a → is_captured a.captured ≡ true → active a ≡ true
unfolding active Lifecycle.is_live Fence.admit
captured_active a v h = let live = v.live h in ground (arith, live)

inactive-IsIdle : (a : BaresipSdkEventAdapter) → IsAgreed a → active a ≡ false → IsIdle a
inactive-IsIdle a v h = ground (arith, captured_active a v)

module _ {W : Type 0} (sdk : RegistrationSdk W) (others : ℕ → List Op) where
  joined-BridgeLaws : BridgeLaws (joined sdk)
  joined-BridgeLaws = record { active-stop = λ s. stopped_inactive s.adapter }

  joined-Preserves : Preserves (joined sdk) (λ s. IsSound s.adapter)
  joined-Preserves = record {
    on_start = λ s owner v. (start-Leads s.adapter owner (sdk.bevent_register s.world) v).sound;
    on_stop = λ s v. (stop-Leads s.adapter v).sound;
    on_register = λ s owner v. (run-Leads (sdk.ua_register s.world owner).1 s.adapter v).sound;
    on_unregister = λ s owner v. (run-Leads (sdk.ua_unregister s.world owner).1 s.adapter v).sound;
  }

  -- A tick that ends the registration leaves the adapter, if it was sound before, as a new one is,
  -- with no session captured, none open in the ingress behind it, and no call, whatever the SDK
  -- calls back and the other threads do meanwhile.
  pub tick-IsIdle :
      (on_owner : Bool) (s : Dispatch (Joined W)) (generation now selected : ℕ)
      → IsSound s.gateway.bridge.adapter
      → ends (tick (joined sdk) others on_owner s generation now selected).1.kind ≡ true
      → IsIdle
          (tick (joined sdk) others on_owner s generation now selected).0.gateway.bridge.adapter
  tick-IsIdle on_owner s generation now selected v h =
      let after = (tick (joined sdk) others on_owner s generation now selected).0 in
      let sound =
        tick_keeps (joined sdk) (λ t. IsSound t.adapter) joined-Preserves others on_owner s
          generation now selected v in
      let shut =
        tick_fails_closed (joined sdk) joined-BridgeLaws others on_owner s generation now selected
          h in
      inactive-IsIdle after.gateway.bridge.adapter sound.agreed shut.inactive
