-- ===== src/Account/Form.antt =====
-- src/account_form_feedback.h: the judgement of the form, whose messages are not modelled.
pub mod Port
use axe_voice_desktop.Prelude.{
  starts_with, Bool, true, false, ℕ, zero, suc, ◌+◌, ◌-◌, ◌*◌, ◌/◌, ◌%◌, ◌^◌, ◌≤◌, ◌<◌, ◌≡◌, ◌≢◌,
  ◌↔◌, ◌⊎◌, ◌∙◌, ◌==◌, ◌!=◌, ◌||◌, ◌&&◌, not, if◌then◌else◌, leb, ltb, List, [], ◌∷◌, ◌++◌, map,
  append_assoc, append-nil, Option, none, some, inl, inr, refl, sym, ap, arith, tests, Bool-cases,
  Option-cases, length, get_or, set, take, drop, replicate, pop_front, All, All-append, All-mono,
  All-take, length-append, length-set, length-take, get_or-set_self, get_or-set_ne, u64_mod,
  u64_max, inc_u64, sub_u64, Text, codes, text_eq, is_empty, any, all, between, is_digit, is_letter,
  is_alnum, text_eq→≡, text_eq_refl, Before, newer_session, newer_sequence, NewerFrom,
  NewerFrom-mono, NotAfter, newer, same_or_later, NotAfter-trans, lt→ltb, ltb→lt, leb→le, le→leb,
  ==_iff,
}
use axe_voice_desktop.Account.Validation.{
  AccountError, NativeCodecMode, SipAccount, is_valid_account, validate_account,
}

pub data AccountFeedbackKind : Type 0 where
  incomplete invalid valid : AccountFeedbackKind

pub record AccountFormFeedback : Type 0 where
  pub kind : AccountFeedbackKind
  pub error : AccountError
  pub port : ℕ  -- unsigned short

-- The loop over the port: `none` where it returns.
unfoldable pub port_from : ℕ → Text → Option ℕ
port_from parsed_port [] = some parsed_port
port_from parsed_port (digit ∷ digits) =
    let next = parsed_port * 10 + (digit - b'0') in
    let rest = port_from next digits in
    if not (is_digit digit) then none else if ltb 65535 next then none else rest

-- `find(L"://") != npos`
unfoldable pub has_url_mark : Text → Bool
has_url_mark [] = false
has_url_mark (c ∷ cs) = let rest = has_url_mark cs in starts_with (codes "://") (c ∷ cs) || rest

abbrev pub refused_form : AccountFeedbackKind → AccountError → AccountFormFeedback
refused_form kind error = record { kind = kind; error = error; port = 0 }

abbrev pub candidate : Text → Text → ℕ → SipAccount
candidate server username port = record {
  server = server;
  username = username;
  port = port;
  use_tls = false;
  codec_mode = NativeCodecMode.automatic;
}

-- What follows the port.
unfoldable pub judge_account : Text → Text → ℕ → AccountFormFeedback
judge_account server username port =
    let error = validate_account (candidate server username port) in
    if port == 0
    then refused_form AccountFeedbackKind.invalid AccountError.invalid_port
    else if has_url_mark server || any (λ c. c == b'/') server
    then refused_form AccountFeedbackKind.invalid AccountError.invalid_server
    else if not (is_valid_account error)
    then refused_form AccountFeedbackKind.invalid error
    else record { kind = AccountFeedbackKind.valid; error = AccountError.no_error; port = port }

unfoldable pub evaluate_account_form : Text → Text → Text → AccountFormFeedback
evaluate_account_form server username port_text =
    if is_empty server
    then refused_form AccountFeedbackKind.incomplete AccountError.missing_server
    else if is_empty username
    then refused_form AccountFeedbackKind.incomplete AccountError.missing_user
    else if is_empty port_text
    then refused_form AccountFeedbackKind.incomplete AccountError.invalid_port
    else elim (port_from 0 port_text) [
      | none ↦ refused_form AccountFeedbackKind.invalid AccountError.invalid_port
      | some port ↦ judge_account server username port
    ]
