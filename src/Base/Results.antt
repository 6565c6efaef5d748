-- ===== src/Base/Results.antt =====
-- What a call comes to: a value, an exception, or no return at all; and the methods of an object
-- whose state outlives an exception. The exceptions are those of rohmu/errors.py and the built-in
-- ones that the modelled code raises or meets.

use mathlib.Core.Path.{◌≡◌, ap}

pub data Error : Type 0 where
  storage_error file_not_found_from_storage invalid_configuration : Error
  uninitialized invalid_byte_range invalid_transfer concurrent_upload_error : Error
  encryptor_error value_error unsupported_operation assertion_error key_error index_error : Error
  struct_error file_not_found not_implemented os_error : Error
  local_file_is_remote_file missing_library maybe_recoverable : Error
  -- botocore's ClientError, where nothing catches it
  client_error_raised : Error
  -- googleapiclient's HttpError, and the exceptions of its transport
  http_error transport_error : Error

-- `diverge` stands for a loop that has used up the rounds that the model gives it.
pub data Outcome {ℓ} (A : Type ℓ) : Type ℓ where
  ok : A → Outcome A
  err : Error → Outcome A
  diverge : Outcome A

-- A method: what was written before an exception stays written.
abbrev pub Method {ℓ κ} : Type ℓ → Type κ → Type (ℓ ⊔ κ)
Method S A = S → Outcome A × S

module _ {ℓ} {S A : Type ℓ} where
  abbrev pub pure : A → Method S A
  pure a s = (ok a, s)

  abbrev pub raise : Error → Method S A
  raise e s = (err e, s)

  abbrev pub loop_forever : Method S A
  loop_forever s = (diverge, s)

module _ {ℓ} {S A B : Type ℓ} where
  abbrev pub resume : Outcome A → (A → Method S B) → Method S B
  resume (ok a) f s = f a s
  resume (err e) f s = (err e, s)
  resume diverge f s = (diverge, s)

  infixl 10 ◌>>=◌ ◌>>◌
  abbrev pub ◌>>=◌ : Method S A → (A → Method S B) → Method S B
  ◌>>=◌ m f s = let r = m s in resume r.0 f r.1

  abbrev pub ◌>>◌ : Method S A → Method S B → Method S B
  m >> n = m >>= λ _. n

  -- A call that returns goes on with what follows it.
  pub bind_ok :
      (m : Method S A) (f : A → Method S B) (s : S) {a : A} {t : S}
      → m s ≡ (ok a, t)
      → (m >>= f) s ≡ f a t
  bind_ok m f s h = ap (λ (r : Outcome A × S). resume r.0 f r.1) h

-- What holds of a call, and what follows of each way in which it can end, holds of the whole.
pub resume_rule :
    {S A B : Type 0} (P : Outcome A × S → Type 0) (Q : Outcome B × S → Type 0) (f : A → Method S B)
    → ((a : A) (s : S) → P (ok a, s) → Q (f a s))
    → ((e : Error) (s : S) → P (err e, s) → Q (err e, s))
    → ((s : S) → P (diverge, s) → Q (diverge, s))
    → (x : Outcome A × S) → P x
    → Q (resume x.0 f x.1)
resume_rule P Q f returns raises spins (ok a, s) p = returns a s p
resume_rule P Q f returns raises spins (err e, s) p = raises e s p
resume_rule P Q f returns raises spins (diverge, s) p = spins s p

-- What a procedure returns.
abbrev pub None : Type 0
None = Unit {0}
