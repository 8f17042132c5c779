-- ===== src/Registration/Queue/Commands.antt =====
-- The commands in the used part of the array.
use axe_voice_desktop.Prelude.{
  Bool, true, ℕ, zero, suc, ◌+◌, ◌≤◌, ◌<◌, ◌≡◌, not, List, [], ◌∷◌, ◌++◌, refl, ap, arith, length,
  set, take, All, All-append,
}
use axe_voice_desktop.Registration.Command.{RegistrationCommand, is_cancel}
use axe_voice_desktop.Registration.Queue.{k_min_timeout_ms, k_max_timeout_ms}

-- A command of the generation; a submission has an admissible timeout, and is there only while the
-- queue is open; a cancellation is there only when it is shut.
pub record IsCommand (generation : ℕ) (is_open : Bool) (c : RegistrationCommand) : Type 0 where
  pub current : c.generation ≡ generation
  pub kind : is_cancel c.kind ≡ not is_open
  pub least : is_open ≡ true → k_min_timeout_ms ≤ c.timeout_ms
  pub most : is_open ≡ true → c.timeout_ms ≤ k_max_timeout_ms

-- All commands of the list are such.
unfoldable pub AreCommands : ℕ → Bool → List RegistrationCommand → Type 0
AreCommands generation is_open cs = All (IsCommand generation is_open) cs

pub AreCommands-none : (g : ℕ) (is_open : Bool) → AreCommands g is_open []
unfolding AreCommands
AreCommands-none g is_open = tt

pub AreCommands-take_none :
    (g : ℕ) (is_open : Bool) (cs : List RegistrationCommand) → AreCommands g is_open (take 0 cs)
unfolding AreCommands
AreCommands-take_none g is_open cs = tt

take-set :
    (cs : List RegistrationCommand) (n : ℕ) (c : RegistrationCommand)
    → n < length cs
    → take (n + 1) (set cs n c) ≡ take n cs ++ c ∷ []
take-set [] n c h = elim h [ ]
take-set (x ∷ cs) zero c h = refl
take-set (x ∷ cs) (suc n) c h =
    let e : suc n + 1 ≡ suc (n + 1) = omega arith in
    rw e (ap (λ xs. x ∷ xs) (take-set cs n c (omega arith)))

-- A command is written behind the used part.
pub AreCommands-set :
    (g : ℕ) (is_open : Bool) (cs : List RegistrationCommand) (n : ℕ) (c : RegistrationCommand)
    → n < length cs
    → AreCommands g is_open (take n cs)
    → IsCommand g is_open c
    → AreCommands g is_open (take (n + 1) (set cs n c))
unfolding AreCommands
AreCommands-set g is_open cs n c h v k =
    rw (take-set cs n c h) (All-append (IsCommand g is_open) (take n cs) (c ∷ []) v (k, tt))

-- A command is written at the front, and is the only one used.
pub AreCommands-first :
    (g : ℕ) (is_open : Bool) (cs : List RegistrationCommand) (c : RegistrationCommand)
    → 0 < length cs
    → IsCommand g is_open c
    → AreCommands g is_open (take 1 (set cs 0 c))
AreCommands-first g is_open cs c h k =
    AreCommands-set g is_open cs 0 c h (AreCommands-take_none g is_open cs) k
