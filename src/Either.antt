-- ===== src/Either.antt =====
-- com/swoval/functional/Either.scala and Filters.scala, as they stand in files/js/npm/files.js, and
-- the exceptions of nio-js that are its left values.
use file_tree_views.Base.{Bool, true, false, Option, none, some, Str}

pub data Either (A B : Type 0) : Type 0 where
  left : A → Either A B
  right : B → Either A B

module _ {A B : Type 0} where
  abbrev pub is_right : Either A B → Bool
  is_right (left a) = false
  is_right (right b) = true

  abbrev pub is_left : Either A B → Bool
  is_left (left a) = true
  is_left (right b) = false

  -- `get()`; `none` is the `NotRightException` that it throws.
  abbrev pub get : Either A B → Option B
  get (left a) = none
  get (right b) = some b

  -- `Either.leftProjection(either).getValue`; `none` is the `NotLeftException` that it throws.
  abbrev pub left_value : Either A B → Option A
  left_value (left a) = some a
  left_value (right b) = none

  -- `Either.getOrElse`
  abbrev pub get_or_else : Either A B → B → B
  get_or_else (left a) d = d
  get_or_else (right b) d = b

-- `Filters.AllPass`
abbrev pub all_pass {ℓ} : {A : Type ℓ} → A → Bool
all_pass a = true

-- `IOException` and those of its subclasses that the code tells apart, each with its message.
pub data IoException : Type 0 where
  not_directory no_such_file access_denied file_system_loop other : Str → IoException
