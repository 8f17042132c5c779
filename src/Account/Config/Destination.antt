-- ===== src/Account/Config/Destination.antt =====
-- The destination that the native engine is given.
use axe_voice_desktop.Prelude.{
  Bool, true, false, ℕ, ◌≤◌, ◌≡◌, ◌⊎◌, ◌==◌, ◌||◌, if◌then◌else◌, [], ◌∷◌, ◌++◌, none, some, inl,
  inr, refl, arith, Bool-cases, Option-cases, length, drop, Text, codes, text_eq, text_eq→≡,
  is_empty, any, all,
}
use axe_voice_desktop.Call.Address.{
  WideClasses, AddressResult, accepted_uri, has_colon, is_accepted, is_scheme, split_first,
  validate_address, validate_host, validate_value,
}
use axe_voice_desktop.Account.Validation.{SipAccount}
use axe_voice_desktop.Account.Config.{
  check_uri, has_at, is_call_user_char, is_destination, is_plain_sip, is_secure, native_ascii,
  native_call_destination_result, routed, user_of,
}

-- The scheme of the destination is that of the account's transport.
pub record IsRoutable (uri : Text) (use_tls : Bool) : Type 0 where
  pub short : length uri ≤ 512
  pub at : has_at uri ≡ true
  pub user : is_empty (user_of (drop (if is_secure uri then 5 else 4) uri)) ≡ false
  pub plain : all is_call_user_char (user_of (drop (if is_secure uri then 5 else 4) uri)) ≡ true
  pub scheme : (if use_tls then is_secure uri else is_plain_sip uri) ≡ true

abbrev has_scheme : Text → Bool
has_scheme uri = is_secure uri || is_plain_sip uri

split_first-none : (x : ℕ) (t : Text) → split_first x t ≡ none → any (λ c. c == x) t ≡ false
split_first-none x [] h = refl
split_first-none x (c ∷ cs) h = elim (Option-cases (split_first x cs)) [
  | inl e ↦ ground (arith, h, e, split_first-none x cs e)
  | inr ((before, after), e) ↦ ground (arith, h, e)
]

split_first-some :
    (x : ℕ) (t before after : Text)
    → split_first x t ≡ some (before, after)
    → t ≡ before ++ (x ∷ after)
split_first-some x [] before after h = cc
split_first-some x (c ∷ cs) before after h = elim (Option-cases (split_first x cs)) [
  | inl e ↦ ground (arith, h, e)
  | inr ((start, rest), e) ↦ ground (arith, h, e, split_first-some x cs start rest e)
]

sip_scheme : (t : Text) → has_scheme (codes "sip:" ++ t) ≡ true
unfolding is_secure is_plain_sip
sip_scheme t = refl

sips_scheme : (t : Text) → has_scheme (codes "sips:" ++ t) ≡ true
unfolding is_secure is_plain_sip
sips_scheme t = refl

is_scheme-has_scheme :
    (scheme value : Text) → is_scheme scheme ≡ true → has_scheme (scheme ++ (b':' ∷ value)) ≡ true
is_scheme-has_scheme scheme value h = elim (Bool-cases (text_eq scheme (codes "sip"))) [
  | inl e ↦ rw (text_eq→≡ scheme (codes "sip") e) (sip_scheme value)
  | inr e ↦
      let is_sips : text_eq scheme (codes "sips") ≡ true = ground (arith, h, e) in
      rw (text_eq→≡ scheme (codes "sips") is_sips) (sips_scheme value)
]

-- What is accepted with an `@`, of an input that has a scheme or no colon, has a scheme.
abbrev HasScheme : AddressResult → Type 0
HasScheme r =
    (is_accepted r.error ≡ false) ⊎ (has_at r.normalized ≡ false) ⊎ (has_scheme r.normalized ≡ true)

accepted_uri-HasScheme :
    (input value : Text)
    → (has_colon input ≡ false) ⊎ (has_scheme input ≡ true)
    → HasScheme (accepted_uri input value)
accepted_uri-HasScheme input value h = ground (arith, h, sip_scheme value)

validate_host-HasScheme :
    (input value host : Text)
    → (has_colon input ≡ false) ⊎ (has_scheme input ≡ true)
    → HasScheme (validate_host input value host)
unfolding validate_host
validate_host-HasScheme input value host h = elim (Option-cases (split_first b':' host)) [
  | inl e ↦ ground (arith, e, accepted_uri-HasScheme input value h)
  | inr ((name, port), e) ↦ ground (arith, e, accepted_uri-HasScheme input value h)
]

validate_value-HasScheme :
    (w : WideClasses) (input value : Text)
    → ((has_colon input ≡ false) × (value ≡ input)) ⊎ (has_scheme input ≡ true)
    → HasScheme (validate_value w input value)
unfolding validate_value has_at
validate_value-HasScheme w input value h = elim (Option-cases (split_first b'@' value)) [
  | inl e ↦ ground (arith, e, h, split_first-none b'@' value e)
  | inr ((user, host), e) ↦ ground (arith, e, h, validate_host-HasScheme input value host)
]

validate_address-HasScheme : (w : WideClasses) (input : Text) → HasScheme (validate_address w input)
unfolding validate_address
validate_address-HasScheme w input = elim (Option-cases (split_first b':' input)) [
  | inl e ↦ ground (
    arith,
    e,
    split_first-none b':' input e,
    validate_value-HasScheme w input input (inl (split_first-none b':' input e, refl)),
  )
  | inr ((scheme, value), e) ↦ ground (
    arith,
    e,
    split_first-some b':' input scheme value e,
    is_scheme-has_scheme scheme value,
    validate_value-HasScheme w input value,
  )
]

native_ascii-HasScheme :
    (r : AddressResult)
    → HasScheme r
    → (is_accepted r.error ≡ false)
      ⊎ (has_at (native_ascii r.normalized) ≡ false)
      ⊎ (has_scheme (native_ascii r.normalized) ≡ true)
unfolding native_ascii has_at
native_ascii-HasScheme r h = ground (arith, h)

routed_scheme :
    (uri : Text) (a : SipAccount)
    → (if a.use_tls then is_secure (routed uri a) else is_plain_sip (routed uri a)) ≡ true
unfolding is_secure is_plain_sip
routed_scheme uri a = elim (Bool-cases a.use_tls) [ inl e ↦ rw e refl | inr e ↦ rw e refl ]

check_uri_needs :
    (uri : Text) (use_tls : Bool)
    → (if use_tls then is_secure uri else is_plain_sip uri) ≡ true
    → is_destination (check_uri uri) ≡ true
    → IsRoutable (check_uri uri).uri use_tls
unfolding check_uri
check_uri_needs uri use_tls s h = ground (arith, s, h)

-- A destination that is given to the native engine has at most 512 characters, a user in the grammar of
-- transfers, and the scheme of the account's transport: it begins with `sips:` for TLS and with `sip:`
-- otherwise.
pub native_call_destination_result-IsRoutable :
    (w : WideClasses) (typed : Text) (a : SipAccount)
    → is_destination (native_call_destination_result w typed a) ≡ true
    → IsRoutable (native_call_destination_result w typed a).uri a.use_tls
unfolding native_call_destination_result
native_call_destination_result-IsRoutable w typed a h =
    let parsed = validate_address w typed in
    let uri = native_ascii parsed.normalized in
    ground (
      arith,
      h,
      native_ascii-HasScheme parsed (validate_address-HasScheme w typed),
      check_uri_needs uri a.use_tls,
      check_uri_needs (routed uri a) a.use_tls,
      routed_scheme uri a,
    )
