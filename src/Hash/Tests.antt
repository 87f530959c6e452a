-- ===== src/Hash/Tests.antt =====
-- Runs of the hash functions.
use libvci.Base.{◌≡◌, refl, [], ◌∷◌}
use libvci.Hash.{hash_string, sum_loop, widened, finish, low_bits, mix_shifted, add_shifted}

-- "ab" and "ba"
same_hash : hash_string (97 ∷ 98 ∷ []) ≡ hash_string (98 ∷ 97 ∷ [])
unfolding hash_string sum_loop widened finish low_bits mix_shifted add_shifted
same_hash = refl

-- The byte 255 counts as -1.
negative_byte : sum_loop 1 (255 ∷ []) ≡ 0
unfolding sum_loop widened
negative_byte = refl
