-- ===== src/Tests/Frames.antt =====
-- The packages of pkg/stickpackage at short and at too long messages, and an RPC address.
use zhibo.Prelude.{
  ℕ, Bytes, codes, [], ◌++◌, ◌≡◌, arith, replicate, length, length-replicate, true, false,
}
use zhibo.StickPackage.{
  StickPackage, version_content, pack, unpack, unpacked, split, token, scan, is_negative,
}
use zhibo.StickPackage as Stick
use zhibo.StickPackage.Frames.{packet}
use zhibo.StickPackage.Overflow.{split-pack_overflow}

abbrev hello : Bytes
hello = codes "hello"

abbrev empty_package : StickPackage
empty_package = record { version = version_content; len = 0; msg = [] }

abbrev too_long : Bytes
too_long = replicate 32764 120

long_length : length too_long ≡ 32764
long_length = length-replicate {A = ℕ} 32764 120

split-pack_overflow_example :
    (is_negative (packet too_long).len ≡ true)
    × (split (pack (packet too_long) ++ []) false ≡ Stick.Split.panics)
split-pack_overflow_example =
    split-pack_overflow too_long [] (omega (arith, long_length)) (omega (arith, long_length))
