-- ===== src/Audio/Devices.antt =====
-- src/audio_devices.h and src/audio_selection_feedback.h, src/audio_routing_preview.h,
-- src/audio_panel_selection.h: the endpoints, and the choice among them. An index is `none` where the
-- source has -1; the labels of the endpoints are not modelled.
pub mod Choice
use axe_voice_desktop.Prelude.{
  Bool, true, false, ℕ, zero, suc, ◌+◌, ◌-◌, ◌*◌, ◌/◌, ◌%◌, ◌^◌, ◌≤◌, ◌<◌, ◌≡◌, ◌≢◌, ◌↔◌, ◌⊎◌, ◌∙◌,
  ◌==◌, ◌!=◌, ◌||◌, ◌&&◌, not, if◌then◌else◌, leb, ltb, List, [], ◌∷◌, ◌++◌, map, append_assoc,
  append-nil, Option, none, some, inl, inr, refl, sym, ap, arith, tests, Bool-cases, Option-cases,
  length, get_or, set, take, drop, replicate, pop_front, All, All-append, All-mono, All-take,
  length-append, length-set, length-take, get_or-set_self, get_or-set_ne, u64_mod, u64_max, inc_u64,
  sub_u64, Text, codes, text_eq, is_empty, any, all, between, is_digit, is_letter, is_alnum,
  text_eq→≡, text_eq_refl, Before, newer_session, newer_sequence, NewerFrom, NewerFrom-mono,
  NotAfter, newer, same_or_later, NotAfter-trans, lt→ltb, ltb→lt, leb→le, le→leb, ==_iff,
}

pub data AudioInventoryError : Type 0 where
  no_error com_initialization_failed enumerator_unavailable endpoint_query_failed :
      AudioInventoryError

pub record AudioEndpoint : Type 0 where
  pub id : Text
  pub default_communications : Bool
  pub default_multimedia : Bool

pub record AudioInventory : Type 0 where
  pub input_devices : List AudioEndpoint
  pub output_devices : List AudioEndpoint
  pub error : AudioInventoryError

abbrev pub empty_inventory : AudioInventory
empty_inventory = record {
  input_devices = [];
  output_devices = [];
  error = AudioInventoryError.no_error;
}

abbrev pub no_failure : AudioInventoryError → Bool
no_failure AudioInventoryError.no_error = true
no_failure _ = false

-- The loops over the endpoints: the first one that passes the test, and its index.
unfoldable pub first_from :
    (AudioEndpoint → Bool) → ℕ → List AudioEndpoint → Option (ℕ × AudioEndpoint)
first_from test i [] = none
first_from test i (d ∷ ds) =
    let rest = first_from test (i + 1) ds in if test d then some (i, d) else rest

abbrev pub is_communications : AudioEndpoint → Bool
is_communications d = d.default_communications

abbrev pub is_multimedia : AudioEndpoint → Bool
is_multimedia d = d.default_multimedia

abbrev pub is_named : Text → AudioEndpoint → Bool
is_named previous_id d = text_eq d.id previous_id

abbrev pub or_else {ℓ} : {A : Type ℓ} → Option A → Option A → Option A
or_else none other = other
or_else (some x) other = some x

-- `devices[0]`, where there is one.
abbrev pub first_endpoint : List AudioEndpoint → Option (ℕ × AudioEndpoint)
first_endpoint [] = none
first_endpoint (d ∷ ds) = some (0, d)

-- The endpoint that was chosen before, if any was.
unfoldable pub previous_endpoint : List AudioEndpoint → Text → Option (ℕ × AudioEndpoint)
previous_endpoint devices previous_id =
    if is_empty previous_id then none else first_from (is_named previous_id) 0 devices

unfoldable pub preferred_audio_endpoint_index :
    List AudioEndpoint → Text → Option (ℕ × AudioEndpoint)
preferred_audio_endpoint_index devices previous_id =
    or_else (previous_endpoint devices previous_id)
      (or_else (first_from is_communications 0 devices) (first_endpoint devices))

pub record AudioSelectionRefresh : Type 0 where
  pub index : Option ℕ
  pub selected_id : Text
  pub replaced_missing_device : Bool

abbrev pub nothing_selected : AudioSelectionRefresh
nothing_selected = record { index = none; selected_id = []; replaced_missing_device = false }

abbrev pub selected_of : Text → Option (ℕ × AudioEndpoint) → AudioSelectionRefresh
selected_of previous_id none = nothing_selected
selected_of previous_id (some (i, d)) = record {
  index = some i;
  selected_id = d.id;
  replaced_missing_device = not (is_empty previous_id) && not (text_eq d.id previous_id);
}

unfoldable pub refresh_audio_selection : List AudioEndpoint → Text → AudioSelectionRefresh
refresh_audio_selection devices previous_id =
    selected_of previous_id (preferred_audio_endpoint_index devices previous_id)

unfoldable pub refresh_ringtone_selection : List AudioEndpoint → Text → AudioSelectionRefresh
refresh_ringtone_selection outputs previous_id = selected_of previous_id (
    or_else (previous_endpoint outputs previous_id)
      (or_else (first_from is_multimedia 0 outputs) (preferred_audio_endpoint_index outputs [])))

pub record AudioPanelSelection : Type 0 where
  pub input_id : Text
  pub output_id : Text
  pub ringtone_id : Text

unfoldable pub reconcile_audio_panel :
    AudioPanelSelection → AudioInventory → Bool → AudioPanelSelection
reconcile_audio_panel previous inventory native_routes =
    if not (no_failure inventory.error) || native_routes then previous else record {
      input_id = (refresh_audio_selection inventory.input_devices previous.input_id).selected_id;
      output_id = (refresh_audio_selection inventory.output_devices previous.output_id).selected_id;
      ringtone_id =
          (refresh_ringtone_selection inventory.output_devices previous.ringtone_id).selected_id;
    }
