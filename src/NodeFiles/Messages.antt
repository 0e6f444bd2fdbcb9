-- ===== src/NodeFiles/Messages.antt =====
-- The exceptions for files: FileSystemException.scala of nio-js and the classes that extend it. A text
-- that may be null is an option.
use file_tree_views.Base.{Str, Option, some, none, [], ◌∷◌, ◌++◌, ◌≡◌, ◌↔◌, refl, ap, ◌∙◌}
use file_tree_views.Base.Text.{codes}
use file_tree_views.Path.{JsPath}
use file_tree_views.Either.{
  IoException, not_directory, no_such_file, access_denied, file_system_loop, other,
}

record FileSystemException : Type 0 where
  file : Option Str
  other_file : Option Str
  reason : Option Str

-- A part of the message with what stands before it; a part that is null is left out.
abbrev part : Str → Option Str → Str
part before none = []
part before (some s) = before ++ s

abbrev arrow : Str
arrow = codes " -> "

abbrev colon : Str
colon = codes ": "

abbrev message_by : Option Str → Option Str → Option Str → Option Str
message_by none none reason = reason
message_by (some f) other_file reason = some (f ++ part arrow other_file ++ part colon reason)
message_by none (some o) reason = some (part arrow (some o) ++ part colon reason)

-- `getMessage()`
unfoldable get_message : FileSystemException → Option Str
get_message e = message_by e.file e.other_file e.reason

-- `new NoSuchFileException(file)` and its like, with the file only.
unfoldable for_file : JsPath → FileSystemException
for_file p = record { file = some p; other_file = none; reason = none }

-- The message of an exception.
unfoldable io_message : IoException → Option Str
unfolding get_message for_file
io_message (not_directory p) = get_message (for_file p)
io_message (no_such_file p) = get_message (for_file p)
io_message (access_denied p) = get_message (for_file p)
io_message (file_system_loop p) = get_message (for_file p)
io_message (other text) = some text

absurd_some : {A : Type 0} {B : Type 0} {x : A} → some x ≡ none → B
absurd_some e = cc

message_by-none :
    (f o r : Option Str) → (message_by f o r ≡ none) ↔ ((f ≡ none) × (o ≡ none) × (r ≡ none))
message_by-none none none none = (λ e. (refl, refl, refl), λ e. refl)
message_by-none none none (some r) = (λ e. (refl, refl, e), λ e. e.2)
message_by-none none (some o) r = (λ e. absurd_some e, λ e. absurd_some e.1)
message_by-none (some f) o r = (λ e. absurd_some e, λ e. absurd_some e.0)

-- An exception has no message exactly when it has no file, no other file and no reason.
get_message-none :
    (e : FileSystemException)
    → (get_message e ≡ none) ↔ ((e.file ≡ none) × (e.other_file ≡ none) × (e.reason ≡ none))
unfolding get_message
get_message-none e = message_by-none e.file e.other_file e.reason

append_nil : (s : Str) → s ++ [] ≡ s
append_nil [] = refl
append_nil (c ∷ s) = ap (λ (t : Str). c ∷ t) (append_nil s)

-- The message of an exception for a path alone is the path.
get_message-for_file : (p : JsPath) → get_message (for_file p) ≡ some p
unfolding get_message for_file
get_message-for_file p = ap (λ (s : Str). some s) (append_nil (p ++ []) ∙ append_nil p)
