-- ===== src/Result.antt =====
-- Go's `error` values, and results that may be one.
use go_xmpp.Text.{GoString}
use go_xmpp.Prelude.{Bool, [], false, inl, inr, refl, ◌≡◌, ◌⊎◌}

-- errors.New and fmt.Errorf give a text; NewConnError of conn_error.go wraps an error and says
-- whether it is permanent. The stack frame that it keeps is not modelled. A run-time panic, such as a
-- call through a nil pointer, stands among the errors as `panic`.
pub data GoError : Type 0 where
  text_error : GoString → GoError
  conn_error : GoError → Bool → GoError
  panic : GoError

-- A call that returns a value or an error; the value beside an error is not used.
pub data Result {ℓ} (A : Type ℓ) : Type ℓ where
  ok : A → Result A
  err : GoError → Result A

infixl 5 ◌>>=◌ ◌>>◌
abbrev pub ◌>>=◌ {ℓ κ} : {A : Type ℓ} {B : Type κ} → Result A → (A → Result B) → Result B
r >>= next = elim r [ err failure ↦ err failure | ok value ↦ next value ]

abbrev pub ◌>>◌ {ℓ} : {B : Type ℓ} → Result (Unit {0}) → Result B → Result B
first >> second = first >>= λ done. second

-- conn_error.go: NewConnError
unfoldable pub new_conn_error : GoError → Bool → GoError
new_conn_error e permanent = conn_error e permanent

-- xerrors.As(err, &actualErr) with a ConnError, and its field Permanent: the outermost ConnError.
unfoldable pub is_permanent : GoError → Bool
is_permanent (text_error m) = false
is_permanent (conn_error e permanent) = permanent
is_permanent panic = false

-- The message of an error.
unfoldable pub error_text : GoError → GoString
error_text (text_error m) = m
error_text (conn_error e permanent) = error_text e
error_text panic = []

-- To split on a computed result and keep the equation.
pub Result-cases {ℓ} :
    {A : Type ℓ} (r : Result A) → ((a : A) × (r ≡ ok a)) ⊎ ((e : GoError) × (r ≡ err e))
Result-cases (ok a) = inl (a, refl)
Result-cases (err e) = inr (e, refl)
