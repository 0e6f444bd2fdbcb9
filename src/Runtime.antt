-- ===== src/Runtime.antt =====
-- Functions of the runtime that files/js/npm/files.js is linked with and that the classes of the
-- program call: the hash codes of texts and of case classes, which the hash codes of paths, entries
-- and events are, and the equality of boxed values, by which `Either` compares.
pub mod Polynomial
pub mod Boxes
use Prim.Native.Nat.{bit_or, bit_xor}
use file_tree_views.Base.{
  ℕ, ◌+◌, ◌-◌, ◌*◌, ◌/◌, ◌%◌, ◌^◌, Bool, true, false, List, [], ◌∷◌, Str, if◌then◌else◌, length,
  reverse,
}
use file_tree_views.Long.{word, add32, imul, minus}

-- The loop of `String.hashCode`, over the code units from the last to the first.
unfoldable pub hash_loop : Str → ℕ → ℕ → ℕ
hash_loop [] a d = a
hash_loop (c ∷ s) a d = hash_loop s (add32 a (imul c d)) (imul 31 d)

-- `String.hashCode`
unfoldable pub string_hash : Str → ℕ
unfolding hash_loop
string_hash s = hash_loop (reverse s) 0 1

-- A value with the hash code that its type gives it.
pub data Hashed : Type 0 where
  text : Str → Hashed
  truth : Bool → Hashed
  undefined : Hashed
  object : ℕ → Hashed

-- `Object.hashCode`
unfoldable pub hash_code : Hashed → ℕ
unfolding string_hash
hash_code (text s) = string_hash s
hash_code (truth b) = if b then 1231 else 1237
hash_code undefined = 0
hash_code (object h) = h

-- `a << n | a >>> 32 - n`
abbrev rotate : ℕ → ℕ → ℕ
rotate n a = bit_or (a * 2 ^ n % word) (a / 2 ^ (32 - n))

-- `MurmurHash3.mixLast`, `mix` and `avalanche`
unfoldable pub mix_last : ℕ → ℕ → ℕ
mix_last h k = bit_xor h (imul 461845907 (rotate 15 (imul (minus 862048943) k)))

unfoldable pub mix : ℕ → ℕ → ℕ
unfolding mix_last
mix h k = add32 (minus 430675100) (imul 5 (rotate 13 (mix_last h k)))

unfoldable pub avalanche : ℕ → ℕ
avalanche h =
    let a = imul (minus 2048144789) (bit_xor h (h / 65536)) in
    let b = imul (minus 1028477387) (bit_xor a (a / 8192)) in bit_xor b (b / 65536)

unfoldable pub mix_all : List Hashed → ℕ → ℕ
unfolding mix hash_code
mix_all [] h = h
mix_all (v ∷ vs) h = mix_all vs (mix h (hash_code v))

-- `MurmurHash3.productHash`, of the name and the fields of a case class.
unfoldable pub product_hash : Str → List Hashed → ℕ
unfolding mix_all avalanche string_hash
product_hash name [] = string_hash name
product_hash name (v ∷ vs) =
    avalanche (bit_xor (mix_all (v ∷ vs) (minus 889275714)) (length (v ∷ vs)))
