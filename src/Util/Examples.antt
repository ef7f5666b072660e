-- ===== src/Util/Examples.antt =====
-- The varints of util/mod.rs on concrete numbers.
use lsmlite.Base.{◌≡◌, refl, arith, some, [], ◌∷◌, ◌++◌}
use lsmlite.Util.{encode_loop, encode_varint, decode_varint, varint_size_from_len}
use lsmlite.Util.Varint.{varint, decode_varint-encode_varint, varint_size_from_len-encode_varint}

decode_varint-encode_varint_example :
    decode_varint ((7 ∷ []) ++ (varint 300 ++ (9 ∷ []))) 1 ≡ some (300, (encode_varint 300).1)
decode_varint-encode_varint_example =
    decode_varint-encode_varint (7 ∷ []) (9 ∷ []) 300 1 (omega arith) refl

varint_size_from_len-encode_varint_example : varint_size_from_len 16384 ≡ (encode_varint 16384).1
varint_size_from_len-encode_varint_example = varint_size_from_len-encode_varint 16384 (omega arith)

varint_300 : varint 300 ≡ 172 ∷ 2 ∷ []
unfolding varint encode_varint encode_loop
varint_300 = refl
