-- ===== src/Account/Form/Port.antt =====
-- The form is valid exactly if the account is.
use axe_voice_desktop.Prelude.{
  value_from, value_grows, Bool, true, false, ℕ, ◌+◌, ◌-◌, ◌*◌, ◌≤◌, ◌≡◌, ◌⊎◌, ◌==◌, ◌||◌, ◌&&◌,
  not, if◌then◌else◌, leb, [], ◌∷◌, Option, none, some, arith, Text, is_empty, any, all, is_digit,
}
use axe_voice_desktop.Account.Validation.{is_valid_account, validate_account}
use axe_voice_desktop.Account.Form.{
  AccountFeedbackKind, candidate, evaluate_account_form, has_url_mark, judge_account, port_from,
}

abbrev port_of : Text → ℕ → Option ℕ
port_of cs n = if all is_digit cs && leb n 65535 then some n else none

port_from_lem : (cs : Text) (n : ℕ) → n ≤ 65535 → port_from n cs ≡ port_of cs (value_from n cs)
unfolding port_from
port_from_lem [] n h = ground arith
port_from_lem (c ∷ cs) n h =
    let next = n * 10 + (c - b'0') in ground (arith, h, port_from_lem cs next, value_grows cs next)

abbrev pub is_valid_kind : AccountFeedbackKind → Bool
is_valid_kind AccountFeedbackKind.valid = true
is_valid_kind _ = false

-- The port is written in digits, and in range.
abbrev pub port_text_ok : Text → Bool
port_text_ok cs =
    not (is_empty cs) && all is_digit cs && leb 1 (value_from 0 cs) && leb (value_from 0 cs) 65535

abbrev pub account_ok : Text → Text → ℕ → Bool
account_ok server username port =
    not (has_url_mark server || any (λ c. c == b'/') server)
    && is_valid_account (validate_account (candidate server username port))

judge_account_lem :
    (server username : Text) (port : ℕ)
    → is_valid_kind (judge_account server username port).kind
      ≡ (leb 1 port && account_ok server username port)
unfolding judge_account
judge_account_lem server username port = ground arith

judge_account_port :
    (server username : Text) (port : ℕ)
    → let r = judge_account server username port in
      r.port ≡ (if is_valid_kind r.kind then port else 0)
unfolding judge_account
judge_account_port server username port = ground arith

empty_invalid :
    (server username : Text) (port : ℕ)
    → (is_empty server ≡ true) ⊎ (is_empty username ≡ true)
    → account_ok server username port ≡ false
unfolding validate_account
empty_invalid server username port h = ground (arith, h)

-- The form is judged valid exactly if its port is written in digits and stands for a number from 1 to
-- 65535, its server has no slash, and the account with that port is valid; then the port reported is
-- that number, and else 0.
pub evaluate_account_form_lem :
    (server username port_text : Text)
    → let r = evaluate_account_form server username port_text in
      let port = value_from 0 port_text in
      (is_valid_kind r.kind ≡ (port_text_ok port_text && account_ok server username port))
      × (r.port ≡ (if is_valid_kind r.kind then port else 0))
unfolding evaluate_account_form
evaluate_account_form_lem server username port_text =
    let port = value_from 0 port_text in
    ground (
      arith,
      port_from_lem port_text 0 (omega arith),
      judge_account_lem server username port,
      judge_account_port server username port,
      empty_invalid server username port,
    )
