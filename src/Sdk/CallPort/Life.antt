-- ===== src/Sdk/CallPort/Life.antt =====
-- The port in use: its operations, new ports, and what the adapter and the SDK do in between.
use axe_voice_desktop.Prelude.{
  Bool, true, false, ℕ, ◌!=◌, ◌||◌, if◌then◌else◌, List, [], ◌∷◌, refl, arith, Text,
}
use axe_voice_desktop.Call.Address.{WideClasses}
use axe_voice_desktop.Sdk.Event.{Delivery}
use axe_voice_desktop.Sdk.Adapter
use axe_voice_desktop.Sdk.Adapter.{BaresipSdkEventAdapter, run}
use axe_voice_desktop.Sdk.Adapter.Inv.{IsAgreed}
use axe_voice_desktop.Sdk.Adapter.Moves.{mark, Keeps}
use axe_voice_desktop.Sdk.Adapter.Steps.{same-Step}
use axe_voice_desktop.Sdk.Adapter.History.{
  IsSound, Leads, Leads-refl, Leads-trans, leads, start-Leads, stop-Leads, callback-Leads,
  run-Leads,
}
use axe_voice_desktop.Sdk.CallPort.{
  Sdk, BaresipSdkCallPort, make_port, originate, answer, hangup, set_muted, set_held,
  send_dtmf_info, transfer, note_transfer, called, resolve,
}

-- What is done to the port; `changed` is a change that the SDK makes by itself, `renewed` a new port.
pub data Op (W : Type 0) : Type 0 where
  originated : Text → Op W
  answered hung_up : ℕ → Op W
  muted held : ℕ → Bool → Op W
  dialled : ℕ → ℕ → Op W
  transferred : ℕ → Text → Op W
  delivered : Delivery → Op W
  started : ℕ → ℕ → Op W
  stopped renewed : Op W
  changed : W → Op W

module _ {W : Type 0} (sdk : Sdk W) (w : WideClasses) where
  unfoldable pub perform : Bool → BaresipSdkCallPort W → Op W → BaresipSdkCallPort W
  perform on_owner p (originated destination) = (originate sdk w on_owner p destination).0
  perform on_owner p (answered token) = (answer sdk on_owner p token).0
  perform on_owner p (hung_up token) = (hangup sdk on_owner p token).0
  perform on_owner p (muted token desired) = (set_muted sdk on_owner p token desired).0
  perform on_owner p (held token desired) = (set_held sdk on_owner p token desired).0
  perform on_owner p (dialled token key) = (send_dtmf_info sdk on_owner p token key).0
  perform on_owner p (transferred token uri) = (transfer sdk w on_owner p token uri).0
  perform on_owner p (delivered d) = record p { adapter = Adapter.callback p.adapter d }
  perform on_owner p (started owner error) = record p {
    adapter = (Adapter.start p.adapter owner error).0;
  }
  perform on_owner p stopped = record p { adapter = Adapter.stop p.adapter }
  perform on_owner p renewed = make_port p.world p.adapter
  perform on_owner p (changed world) = record p { world = world }

  unfoldable pub use_port : BaresipSdkCallPort W → List (Bool × Op W) → BaresipSdkCallPort W
  use_port p [] = p
  use_port p ((on_owner, op) ∷ ops) = use_port (perform on_owner p op) ops

-- The adapter once an action is noted, before the SDK is called.
pub data Noted : Type 0 where
  answer_noted hangup_noted transfer_noted : Noted

abbrev pub note : Noted → BaresipSdkEventAdapter → BaresipSdkEventAdapter
note Noted.answer_noted a = record a { answer_sent = true }
note Noted.hangup_noted a = record a { hangup_sent = true }
note Noted.transfer_noted a = record a { transfer_attempted = true; transfer_failed = false }

note-IsAgreed : (k : Noted) (a : BaresipSdkEventAdapter) → IsAgreed a → IsAgreed (note k a)
note-IsAgreed Noted.answer_noted a v = ground arith
note-IsAgreed Noted.hangup_noted a v = ground arith
note-IsAgreed Noted.transfer_noted a v = ground arith

note-Keeps : (k : Noted) (a : BaresipSdkEventAdapter) → Keeps (mark a) (mark (note k a))
note-Keeps Noted.answer_noted a = record {
  token = refl;
  answered = λ h. refl;
  hung_up = λ h. h;
  transferred = λ h. h;
}
note-Keeps Noted.hangup_noted a = record {
  token = refl;
  answered = λ h. h;
  hung_up = λ h. refl;
  transferred = λ h. h;
}
note-Keeps Noted.transfer_noted a = record {
  token = refl;
  answered = λ h. h;
  hung_up = λ h. h;
  transferred = λ h. refl;
}

pub note-Leads : (k : Noted) (a : BaresipSdkEventAdapter) → IsSound a → Leads a (note k a)
note-Leads Noted.answer_noted a v =
    leads a (note Noted.answer_noted a) v (note-IsAgreed Noted.answer_noted a v.agreed) (
      same-Step (mark a) (mark (note Noted.answer_noted a)) v.placed refl refl refl
        (note-Keeps Noted.answer_noted a))
note-Leads Noted.hangup_noted a v =
    leads a (note Noted.hangup_noted a) v (note-IsAgreed Noted.hangup_noted a v.agreed) (
      same-Step (mark a) (mark (note Noted.hangup_noted a)) v.placed refl refl refl
        (note-Keeps Noted.hangup_noted a))
note-Leads Noted.transfer_noted a v =
    leads a (note Noted.transfer_noted a) v (note-IsAgreed Noted.transfer_noted a v.agreed) (
      same-Step (mark a) (mark (note Noted.transfer_noted a)) v.placed refl refl refl
        (note-Keeps Noted.transfer_noted a))

-- The action is noted, and then the callbacks run.
pub noted_run-Leads :
    (k : Noted) (a : BaresipSdkEventAdapter) (ds : List Delivery)
    → IsSound a
    → Leads (note k a) (run (note k a) ds)
noted_run-Leads k a ds v = run-Leads ds (note k a) ((note-Leads k a v).sound)

failed-IsAgreed :
    (a : BaresipSdkEventAdapter) (b : Bool)
    → IsAgreed a
    → IsAgreed (record a { transfer_failed = b })
failed-IsAgreed a b v = ground arith

failed-Leads :
    (a : BaresipSdkEventAdapter) (b : Bool) → IsSound a → Leads a (record a { transfer_failed = b })
failed-Leads a b v =
    leads a (record a { transfer_failed = b }) v (failed-IsAgreed a b v.agreed)
      (same-Step (mark a) (mark a) v.placed refl refl refl
        (record { token = refl; answered = λ h. h; hung_up = λ h. h; transferred = λ h. h }))

module _ {W : Type 0} (sdk : Sdk W) (w : WideClasses) where
  pub note_transfer-Leads :
      (on_owner : Bool) (p : BaresipSdkCallPort W) (token error : ℕ)
      → IsSound p.adapter
      → Leads p.adapter (note_transfer sdk on_owner p token error).adapter
  note_transfer-Leads on_owner p token error v = ground (
    arith,
    Leads-refl p.adapter v,
    failed-Leads p.adapter (p.adapter.transfer_failed || error != 0) v,
  )

  -- A test decides between two ports that both lead on.
  either-Leads :
      (a : BaresipSdkEventAdapter) (test : Bool) (p q : BaresipSdkCallPort W)
      → Leads a p.adapter
      → Leads a q.adapter
      → Leads a (if test then p else q).adapter
  either-Leads a true p q v v' = v
  either-Leads a false p q v v' = v'

  originate-Leads :
      (on_owner : Bool) (p : BaresipSdkCallPort W) (destination : Text)
      → IsSound p.adapter
      → Leads p.adapter (originate sdk w on_owner p destination).0.adapter
  unfolding originate
  originate-Leads on_owner p destination v =
      let r = sdk.ua_connect p.world p.adapter.owner destination in
      ground (arith, Leads-refl p.adapter v, run-Leads r.1 p.adapter v)

  answer-Leads :
      (on_owner : Bool) (p : BaresipSdkCallPort W) (token : ℕ)
      → IsSound p.adapter
      → Leads p.adapter (answer sdk on_owner p token).0.adapter
  unfolding answer
  answer-Leads on_owner p token v =
      let r = sdk.ua_answer p.world p.adapter.owner (resolve sdk on_owner p token) in
      let k = Noted.answer_noted in
      ground (
        arith,
        Leads-refl p.adapter v,
        Leads-trans p.adapter (note k p.adapter) (run (note k p.adapter) r.1)
            (note-Leads k p.adapter v) (noted_run-Leads k p.adapter r.1 v),
      )

  hangup-Leads :
      (on_owner : Bool) (p : BaresipSdkCallPort W) (token : ℕ)
      → IsSound p.adapter
      → Leads p.adapter (hangup sdk on_owner p token).0.adapter
  unfolding hangup
  hangup-Leads on_owner p token v =
      let r = sdk.ua_hangup p.world p.adapter.owner (resolve sdk on_owner p token) in
      let k = Noted.hangup_noted in
      ground (
        arith,
        Leads-refl p.adapter v,
        Leads-trans p.adapter (note k p.adapter) (run (note k p.adapter) r.1)
            (note-Leads k p.adapter v) (noted_run-Leads k p.adapter r.1 v),
      )

  set_muted-Leads :
      (on_owner : Bool) (p : BaresipSdkCallPort W) (token : ℕ) (desired : Bool)
      → IsSound p.adapter
      → Leads p.adapter (set_muted sdk on_owner p token desired).0.adapter
  unfolding set_muted
  set_muted-Leads on_owner p token desired v = ground (arith, Leads-refl p.adapter v)

  set_held-Leads :
      (on_owner : Bool) (p : BaresipSdkCallPort W) (token : ℕ) (desired : Bool)
      → IsSound p.adapter
      → Leads p.adapter (set_held sdk on_owner p token desired).0.adapter
  unfolding set_held
  set_held-Leads on_owner p token desired v =
      let r = sdk.call_hold p.world (resolve sdk on_owner p token) desired in
      ground (arith, Leads-refl p.adapter v, run-Leads r.1 p.adapter v)

  send_dtmf_info-Leads :
      (on_owner : Bool) (p : BaresipSdkCallPort W) (token key : ℕ)
      → IsSound p.adapter
      → Leads p.adapter (send_dtmf_info sdk on_owner p token key).0.adapter
  unfolding send_dtmf_info
  send_dtmf_info-Leads on_owner p token key v =
      let r = sdk.call_send_digit p.world (resolve sdk on_owner p token) key in
      ground (arith, Leads-refl p.adapter v, run-Leads r.1 p.adapter v)

  transfer-Leads :
      (on_owner : Bool) (p : BaresipSdkCallPort W) (token : ℕ) (uri : Text)
      → IsSound p.adapter
      → Leads p.adapter (transfer sdk w on_owner p token uri).0.adapter
  unfolding transfer
  transfer-Leads on_owner p token uri v =
      let (world, events, error) = sdk.call_transfer p.world (resolve sdk on_owner p token) uri in
      let k = Noted.transfer_noted in
      let a = note k p.adapter in
      let q = called sdk (record p { adapter = a }) world events in
      let there =
        Leads-trans p.adapter a (run a events) (note-Leads k p.adapter v)
          (noted_run-Leads k p.adapter events v) in
      ground (
        arith,
        Leads-refl p.adapter v,
        Leads-trans p.adapter (run a events) (note_transfer sdk on_owner q token error).adapter
            there (note_transfer-Leads on_owner q token error there.sound),
      )

  pub perform-Leads :
      (op : Op W) (on_owner : Bool) (p : BaresipSdkCallPort W)
      → IsSound p.adapter
      → Leads p.adapter (perform sdk w on_owner p op).adapter
  unfolding perform
  perform-Leads (originated destination) b p v = originate-Leads b p destination v
  perform-Leads (answered token) b p v = answer-Leads b p token v
  perform-Leads (hung_up token) b p v = hangup-Leads b p token v
  perform-Leads (muted token desired) b p v = set_muted-Leads b p token desired v
  perform-Leads (held token desired) b p v = set_held-Leads b p token desired v
  perform-Leads (dialled token key) b p v = send_dtmf_info-Leads b p token key v
  perform-Leads (transferred token uri) b p v = transfer-Leads b p token uri v
  perform-Leads (delivered d) b p v = callback-Leads p.adapter d v
  perform-Leads (started owner error) b p v = start-Leads p.adapter owner error v
  perform-Leads stopped b p v = stop-Leads p.adapter v
  perform-Leads renewed b p v = Leads-refl p.adapter v
  perform-Leads (changed world) b p v = Leads-refl p.adapter v

  -- From an adapter that is sound, as a new one is: whatever is done to the port and the adapter,
  -- and whatever the SDK calls back meanwhile, the adapter and the ingress behind it stay agreed: a
  -- session is open exactly while one is captured, and then its account, number and generation are
  -- those that were captured, and the call that is held has the token and the key that the ingress
  -- has issued for it.
  pub use_port-IsSound :
      (ops : List (Bool × Op W)) (p : BaresipSdkCallPort W)
      → IsSound p.adapter
      → IsSound (use_port sdk w p ops).adapter
  unfolding use_port
  use_port-IsSound [] p v = v
  use_port-IsSound ((b, op) ∷ ops) p v =
      use_port-IsSound ops (perform sdk w b p op) ((perform-Leads op b p v).sound)
