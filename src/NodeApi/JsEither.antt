-- ===== src/NodeApi/JsEither.antt =====
-- `JSEither` and `JSLeftProjection`: an `Either` as a caller in JavaScript sees it, and
-- `PathWatcher.register`, which gives one.
use file_tree_views.Base.{Bool, false, [], Str}
use file_tree_views.Base.Int.{ℤ}
use file_tree_views.Either.{Either, left, right, is_left, is_right, get_or_else}
use file_tree_views.Path.{NodePath, JsPath, paths_get}

-- `Either.NotLeftException` and `Either.NotRightException`
pub data EitherError : Type 0 where
  not_left not_right : EitherError

-- `either` of `JSEither`
pub record JsEither (A B : Type 0) : Type 0 where
  pub either : Either A B

-- The value of the `Either.Left` that `JSLeftProjection` holds.
pub record JsLeft (A : Type 0) : Type 0 where
  pub projected : A

module _ {A B : Type 0} where
  -- `Either.get()`
  unfoldable pub checked_get : Either A B → Either EitherError B
  checked_get (left a) = left not_right
  checked_get (right b) = right b

  -- `Either.leftProjection(either)`
  unfoldable pub left_projection : Either A B → Either EitherError (JsLeft A)
  left_projection (left a) = right (record { projected = a })
  left_projection (right b) = left not_left

  -- `get`, `isRight`, `isLeft`, `getOrElse` and `left`
  unfoldable pub js_get : JsEither A B → Either EitherError B
  unfolding checked_get
  js_get e = checked_get e.either

  unfoldable pub js_is_right : JsEither A B → Bool
  js_is_right e = is_right e.either

  unfoldable pub js_is_left : JsEither A B → Bool
  js_is_left e = is_left e.either

  unfoldable pub js_get_or_else : JsEither A B → B → B
  js_get_or_else e d = get_or_else e.either d

  unfoldable pub js_left : JsEither A B → Either EitherError (JsLeft A)
  unfolding left_projection
  js_left e = left_projection e.either

-- `getValue`
unfoldable pub js_left_value : {A : Type 0} → JsLeft A → A
js_left_value l = l.projected

-- What `equals` may be asked about.
pub data Compared (A B : Type 0) : Type 0 where
  an_either : Either A B → Compared A B
  a_js_either : JsEither A B → Compared A B

module _ {A B : Type 0} (same_left : A → A → Bool) (same_right : B → B → Bool) where
  -- `Left.equals(that)` and `Right.equals(that)`
  unfoldable pub either_equals : Either A B → Compared A B → Bool
  either_equals (left a) (an_either (left b)) = same_left a b
  either_equals (right a) (an_either (right b)) = same_right a b
  either_equals e that = false

  -- `JSEither.equals(that)`: that of the `Either` inside.
  unfoldable pub js_equals : JsEither A B → Compared A B → Bool
  unfolding either_equals
  js_equals e that = either_equals e.either that

-- `PathWatcher.register(path, maxDepth)`, over the watcher's own.
unfoldable pub node_watcher_register :
    {S A B : Type 0} → NodePath → (JsPath → ℤ → S → Either A B × S) → Str → ℤ → S → JsEither A B × S
node_watcher_register node register p n s =
    let r = register (paths_get node p []) n s in (record { either = r.0 }, r.1)
