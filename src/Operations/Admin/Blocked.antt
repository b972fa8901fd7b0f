-- ===== src/Operations/Admin/Blocked.antt =====
-- Blocked: the commands that are never passed to the database.
use mongocore.Prelude.{◌≡◌, refl, ◌↔◌, inl, inr, true, Bool-cases, String, List, [], ◌∷◌, err}
use mongocore.Transport.Codec.{Bson}
use mongocore.Operations.Driver.{Driver, MongoCoreError, validation_error}
use mongocore.Operations.Admin.{
  check_keys, validate_keys, validate_command, run_command, run_validated, default_mode,
  dangerous_commands, blocked_message,
}
use mongocore.Compiled.Validator.{contains_str}

-- Some key of a command is a dangerous one.
pub data IsBlocked : List String → Type 0 where
  here :
      {key : String} {rest : List String}
      → contains_str dangerous_commands key ≡ true
      → IsBlocked (key ∷ rest)
  later : {key : String} {rest : List String} → IsBlocked rest → IsBlocked (key ∷ rest)

-- A dangerous key, wherever it stands, is an error of the validation.
check_keys-IsBlocked :
    {keys : List String}
    → IsBlocked keys
    → (message : String) × (check_keys keys ≡ err (validation_error message))
unfolding check_keys
check_keys-IsBlocked (here {key = key} h) = (blocked_message key, rw h refl)
check_keys-IsBlocked (later {key = key} {rest = rest} b) =
    elim (Bool-cases (contains_str dangerous_commands key)) [
      | inl h ↦ (blocked_message key, rw h refl)
      | inr h ↦ let (message, e) = check_keys-IsBlocked b in (message, rw h e)
    ]

IsBlocked-check_keys :
    (keys : List String) {e : MongoCoreError} → check_keys keys ≡ err e → IsBlocked keys
unfolding check_keys
IsBlocked-check_keys [] h = cc h
IsBlocked-check_keys (key ∷ rest) h = elim (Bool-cases (contains_str dangerous_commands key)) [
  | inl b ↦ here b
  | inr b ↦ later (IsBlocked-check_keys rest (rw b at h))
]

module _ (lib : Bson) (driver : Driver lib) where
  open driver use {World, keys}

  -- A command with a dangerous key is answered with an error and leaves the database as it was.
  pub run_command-IsBlocked :
      (db : String) (command : Bson.Document lib) (w : World)
      → IsBlocked (keys command)
      → (message : String) × (run_command lib driver db command default_mode w
          ≡ (err (validation_error message), w))
  unfolding run_command run_validated validate_command validate_keys
  run_command-IsBlocked db command w b =
      let (message, e) = check_keys-IsBlocked b in (message, rw (e, run_validated) refl)

  -- In its default mode the validation refuses a command exactly if a key of it is dangerous.
  validate_command_iff :
      (command : Bson.Document lib)
      → ((message : String) × (validate_command lib driver command default_mode
            ≡ err (validation_error message)))
        ↔ IsBlocked (keys command)
  unfolding validate_command validate_keys
  validate_command_iff command =
      (λ (message, e). IsBlocked-check_keys (keys command) e, check_keys-IsBlocked)
