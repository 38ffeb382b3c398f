-- ===== src/Manifest/Results.antt =====
-- The exceptions that the functions on manifests raise, as values.
use krake.Prelude.{◌≡◌, refl}

-- An AttributeError counts as a TypeError, since no caller tells them apart.
pub data Error : Type 0 where
  modified_resource key_error index_error type_error value_error observer_schema_error : Error

-- What a call ends with.
pub data Result {ℓ} (A : Type ℓ) : Type ℓ where
  raised : Error → Result A
  ok : A → Result A

module _ {ℓ κ} {A : Type ℓ} {B : Type κ} where
  infixl 1 ◌>>=◌ ◌>>◌
  abbrev pub ◌>>=◌ : Result A → (A → Result B) → Result B
  raised why >>= next = raised why
  ok value >>= next = next value

  abbrev pub ◌>>◌ : Result A → Result B → Result B
  call >> other = call >>= λ _. other

  -- A chain that ends well ended well at each of its steps.
  pub bind_ok :
      (call : Result A) (next : A → Result B) {end : B}
      → (call >>= next) ≡ ok end
      → (value : A) × (call ≡ ok value) × (next value ≡ ok end)
  bind_ok (raised why) next ends = absurd (cc ends)
  bind_ok (ok value) next ends = (value, refl, ends)
