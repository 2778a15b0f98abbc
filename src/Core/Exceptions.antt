-- ===== src/Core/Exceptions.antt =====
-- core/exceptions.py: the exception classes with their bases, beside those of the language and of
-- the libraries that the program raises or catches.
use mini_agent_go.Prelude.{
  ℕ, zero, suc, ◌≡◌, refl, Bool, true, false, ◌||◌, Option, none, some, arith, eqb, Text, Outcome,
  err,
}

pub data ErrorClass : Type 0 where
  tv_list_base transient permanent source_unavailable source_auth parse rate_limit : ErrorClass
  storage llm configuration : ErrorClass
  exception value_error permission_error key_error index_error assertion_error attribute_error :
      ErrorClass
  zero_division runtime_error transport json_decode validation jwt integrity pending_rollback :
      ErrorClass
  -- `fastapi.HTTPException`, by its status code
  http : ℕ → ErrorClass

-- The base class, where the program can name it in an `except` clause.
unfoldable pub base : ErrorClass → Option ErrorClass
base source_unavailable = some transient
base source_auth = some permanent
base parse = some permanent
base rate_limit = some transient
base transient = some tv_list_base
base permanent = some tv_list_base
base storage = some tv_list_base
base llm = some tv_list_base
base configuration = some tv_list_base
base json_decode = some value_error
base validation = some value_error
base exception = none
base _ = some exception

tag : ErrorClass → ℕ
tag tv_list_base = 0
tag transient = 1
tag permanent = 2
tag source_unavailable = 3
tag source_auth = 4
tag parse = 5
tag rate_limit = 6
tag storage = 7
tag llm = 8
tag configuration = 9
tag exception = 10
tag value_error = 11
tag permission_error = 12
tag key_error = 13
tag assertion_error = 14
tag attribute_error = 15
tag zero_division = 16
tag runtime_error = 17
tag transport = 18
tag json_decode = 19
tag validation = 20
tag jwt = 21
tag integrity = 22
tag index_error = 23
tag pending_rollback = 25
tag (http n) = 24

climb : ℕ → ErrorClass → ErrorClass → Bool
unfolding tag
climb zero c d = eqb (tag c) (tag d)
climb (suc n) c d = eqb (tag c) (tag d) || (elim (base c) [ none ↦ false | some b ↦ climb n b d ])

-- `issubclass(c, d)`; no class is more than three bases deep
unfoldable pub is_subclass : ErrorClass → ErrorClass → Bool
unfolding climb base tag
is_subclass c d = climb 3 c d

-- An exception: its class, and what `str(e)` gives.
pub record Exn : Type 0 where
  pub cls : ErrorClass
  pub message : Text

abbrev pub raise {ℓ} : {A : Type ℓ} → ErrorClass → Text → Outcome Exn A
raise c m = err (record { cls = c; message = m })

-- `isinstance(e, c)`
abbrev pub is_instance : Exn → ErrorClass → Bool
is_instance e c = is_subclass e.cls c

-- No class is both transient and permanent.
pub transient_xor_permanent :
    (c : ErrorClass) → is_subclass c transient ≡ true → is_subclass c permanent ≡ false
unfolding is_subclass
transient_xor_permanent tv_list_base h = refl
transient_xor_permanent c h = ground arith
