-- ===== src/Runtime/Boxes/Numeric.antt =====
-- Boxed numbers as integers, and the range of a class.
use file_tree_views.Base.{◌<◌, ◌≡◌, refl, arith, ◌&&◌, if◌then◌else◌}
use file_tree_views.Base.Int.{ℤ, pos, negsuc, eq_ℤ, leb_ℤ, min_value, max_value}
use file_tree_views.Long.Values.{IsLong, value, to_double-value}
use file_tree_views.Runtime.Boxes.{
  Boxed, number, long_box, char_box, text_box, null_box, boxes_equal, number_class, NumberClass,
  byte_class, short_class, integer_class, float_class,
}

-- A box that holds a number, in range.
abbrev pub IsNumeric : Boxed → Type 0
IsNumeric (number a) = Unit
IsNumeric (long_box l) = IsLong l
IsNumeric (char_box c) = c < 65536
IsNumeric (text_box s) = ⊥
IsNumeric null_box = ⊥

abbrev pub numeric : Boxed → ℤ
numeric (number a) = a
numeric (long_box l) = value l
numeric (char_box c) = pos c
numeric (text_box s) = pos 0
numeric null_box = pos 0

pub boxes_equal-numeric :
    (x y : Boxed) → IsNumeric x → IsNumeric y → boxes_equal x y ≡ eq_ℤ (numeric x) (numeric y)
unfolding boxes_equal
boxes_equal-numeric (number a) (number b) p q = refl
boxes_equal-numeric (number a) (long_box r) p q = rw (to_double-value r q) refl
boxes_equal-numeric (number a) (char_box d) p q = refl
boxes_equal-numeric (long_box l) (number b) p q = rw (to_double-value l p) refl
boxes_equal-numeric (long_box l) (long_box r) p q = ground arith
boxes_equal-numeric (long_box l) (char_box d) p q = ground arith
boxes_equal-numeric (char_box c) (number b) p q = ground arith
boxes_equal-numeric (char_box c) (long_box r) p q = ground arith
boxes_equal-numeric (char_box c) (char_box d) p q = ground arith
boxes_equal-numeric (number a) (text_box _) p q = elim q [ ]
boxes_equal-numeric (number a) null_box p q = elim q [ ]
boxes_equal-numeric (long_box l) (text_box _) p q = elim q [ ]
boxes_equal-numeric (long_box l) null_box p q = elim q [ ]
boxes_equal-numeric (char_box c) (text_box _) p q = elim q [ ]
boxes_equal-numeric (char_box c) null_box p q = elim q [ ]
boxes_equal-numeric (text_box _) y p q = elim p [ ]
boxes_equal-numeric null_box y p q = elim p [ ]

-- The class of the least range that holds the number.
abbrev pub ranged_class : ℤ → NumberClass
ranged_class z =
    if leb_ℤ (negsuc 127) z && leb_ℤ z (pos 127)
    then byte_class
    else if leb_ℤ (negsuc 32767) z && leb_ℤ z (pos 32767)
    then short_class
    else if leb_ℤ min_value z && leb_ℤ z max_value
    then integer_class
    else float_class

pub number_class-ranged : (z : ℤ) → number_class z ≡ ranged_class z
unfolding number_class
number_class-ranged (pos n) = ground arith
number_class-ranged (negsuc n) = ground arith
