-- ===== src/Runtime/Boxes.antt =====
-- `BoxesRunTime.equals`, by which `Either` compares its values, and the class that a number has.
pub mod Numeric
use file_tree_views.Base.{
  ℕ, ◌+◌, ◌%◌, Bool, true, false, ◌&&◌, Str, str_eq, ◌==◌, nat_eq, ltb, if◌then◌else◌,
}
use file_tree_views.Base.Int.{ℤ, pos, sub_ℕ, eq_ℤ, to_int32}
use file_tree_views.Long.{Long, sign_word, word, word_of, to_double}

-- A number, a `long`, a character, a text or `null`. A number is whole and not -0.
pub data Boxed : Type 0 where
  number : ℤ → Boxed
  long_box : Long → Boxed
  char_box : ℕ → Boxed
  text_box : Str → Boxed
  null_box : Boxed

-- A `long` and a character.
abbrev pub long_is_char : Long → ℕ → Bool
long_is_char l c = nat_eq l.lo c && nat_eq l.hi (sign_word c)

-- `equals` of two numbers
unfoldable pub numbers_equal : Boxed → Boxed → Bool
unfolding to_double
numbers_equal (number a) (number b) = eq_ℤ a b
numbers_equal (number a) (long_box r) = eq_ℤ a (to_double r)
numbers_equal (long_box l) (long_box r) = nat_eq l.lo r.lo && nat_eq l.hi r.hi
numbers_equal (long_box l) (number b) = eq_ℤ (to_double l) b
numbers_equal a b = false

-- `equals` of a character and anything
unfoldable pub char_equals : ℕ → Boxed → Bool
char_equals c (char_box d) = nat_eq c d
char_equals c (number b) = eq_ℤ b (pos c)
char_equals c (long_box r) = long_is_char r c
char_equals c (text_box s) = false
char_equals c null_box = false

-- `BoxesRunTime.equals(a, b)`
unfoldable pub boxes_equal : Boxed → Boxed → Bool
unfolding numbers_equal char_equals
boxes_equal (number a) (char_box d) = eq_ℤ a (pos d)
boxes_equal (number a) b = numbers_equal (number a) b
boxes_equal (long_box l) (char_box d) = long_is_char l d
boxes_equal (long_box l) b = numbers_equal (long_box l) b
boxes_equal (char_box c) b = char_equals c b
boxes_equal (text_box s) (text_box t) = s == t
boxes_equal (text_box s) b = false
boxes_equal null_box null_box = true
boxes_equal null_box b = false

-- `a << 24 >> 24 === a` and `a << 16 >> 16 === a`, of a number
unfoldable pub is_byte : ℤ → Bool
is_byte a = eq_ℤ (sub_ℕ ((word_of a + 128) % 256) 128) a

unfoldable pub is_short : ℤ → Bool
is_short a = eq_ℤ (sub_ℕ ((word_of a + 32768) % 65536) 32768) a

pub data NumberClass : Type 0 where
  byte_class short_class integer_class float_class : NumberClass

-- The class of a number.
unfoldable pub number_class : ℤ → NumberClass
unfolding is_byte is_short to_int32
number_class a =
    if eq_ℤ (to_int32 a) a
    then (if is_byte a then byte_class else if is_short a then short_class else integer_class)
    else float_class
