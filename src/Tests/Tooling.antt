-- ===== src/Tests/Tooling.antt =====
-- Examples of the theorems on the install script and on loggers.
use file_tree_views.Base.{◌≡◌, ◌||◌, true, false, some, [], ◌∷◌}
use file_tree_views.Install.{Machine, install, darwin}
use file_tree_views.Install.Guarded.{
  install-reaches, copies, copies_into, makes_lib, is_left_out, reaches,
}

abbrev a_mac : Machine
a_mac = record {
  platform = darwin;
  which_stdout = some (b'/' ∷ []);
  cmake_stderr = some [];
  cmake_stdout = some [];
  lib_exists = false;
  was_built = true;
}

install-reaches_example :
    (copies (install a_mac).effects ≡ reaches a_mac)
    × (copies_into a_mac.lib_exists (install a_mac).effects ≡ true)
    × (makes_lib a_mac.lib_exists (install a_mac).effects ≡ true)
    × ((install a_mac).ended ≡ (is_left_out a_mac || reaches a_mac))
install-reaches_example = install-reaches a_mac
